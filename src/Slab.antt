-- ===== src/Slab.antt =====
-- core/mm/slab.cc: the slab caches of the kernel heap, with the types of include/core/memory.h.
-- A slab's bufctl array is the memory behind its header, a function from index to entry. The slab
-- lists hold their slabs, head first; `parent`, which the code never reads, is left out.
pub mod Layout
pub mod Object
pub mod Lookup
pub mod Alloc
pub mod Kmalloc
use liqui_dos.Common.{
  ℕ, zero, suc, ◌+◌, ◌-◌, ◌*◌, ◌/◌, ◌%◌, ◌^◌, Bool, true, false, ◌&&◌, Option, none, some, List, [],
  ◌∷◌, ◌++◌, ltb, leb, ◌==◌, if◌then◌else◌, get_elem?, set,
}

pub record Slab : Type 0 where
  pub addr : ℕ
  pub objects : ℕ
  pub free : ℕ
  pub colour_offset : ℕ
  pub inuse : ℕ
  pub bufctl : ℕ → ℕ

-- Of the name the code asks only whether it contains "ubxela".
pub record Cache : Type 0 where
  pub list_free : List Slab
  pub list_partial : List Slab
  pub list_full : List Slab
  pub is_ubxela : Bool
  pub order : ℕ
  pub slab_size : ℕ
  pub slab_objects : ℕ
  pub colour_next : ℕ
  pub colour_num : ℕ

abbrev pub page_size : ℕ
page_size = 4096

-- `sizeof(slab_t)` and `sizeof(kmem_objctl_t)`
abbrev pub slab_struct : ℕ
slab_struct = 28

abbrev pub objctl : ℕ
objctl = 4

-- `sizeof(slabcache_t)`
abbrev pub cache_struct : ℕ
cache_struct = 72

abbrev pub slab_max_size : ℕ
slab_max_size = 256

-- The first loop of `init_cache` on fuel: the bytes and the order.
unfoldable pub grow : ℕ → ℕ → ℕ → ℕ → ℕ × ℕ
grow zero need free order = (free, order)
grow (suc fuel) need free order =
    let rest = grow fuel need (free * 2) (order + 1) in
    if ltb free need then rest else (free, order)

-- The second loop on fuel: the bytes left and the number of objects.
unfoldable pub carve : ℕ → ℕ → ℕ → ℕ → ℕ × ℕ
carve zero each free count = (free, count)
carve (suc fuel) each free count =
    let rest = carve fuel each (free - each) (count + 1) in
    if leb each free then rest else (free, count)

-- The name is not set: it is empty in the static root cache, and kmalloc sets it in all others.
unfoldable pub init_cache : ℕ → Cache
unfolding grow carve
init_cache size =
    let (total, order) =
      grow (size + objctl + slab_struct) (size + objctl + slab_struct) page_size 0 in
    let (left, count) = carve total (size + objctl) (total - slab_struct) 0 in
    record {
      list_free = [];
      list_partial = [];
      list_full = [];
      is_ubxela = false;
      order = order;
      slab_size = size;
      slab_objects = count;
      colour_next = 0;
      colour_num = left / 64;
    }

-- The walk over the caches at place `k`, with the best one so far.
unfoldable pub best_fit : ℕ → List Cache → ℕ → ℕ → Option ℕ → Option ℕ
best_fit size [] k delta best = best
best_fit size (c ∷ rest) k delta best =
    let fits = leb size c.slab_size && leb (c.slab_size - size) delta in
    best_fit size rest (k + 1) (if fits then c.slab_size - size else delta)
      (if fits then some k else best)

-- The place of the cache, `none` for NULL.
unfoldable pub get_cache : ℕ → List Cache → Option ℕ
unfolding best_fit
get_cache size caches = best_fit size caches 0 slab_max_size none

-- The structure of a new slab at `addr`, with `bufctl[i] = i + 1`.
unfoldable pub new_slab : Cache → ℕ → Slab
new_slab c addr = record {
  addr = addr;
  objects = (addr + slab_struct + c.slab_objects * objctl + c.colour_next * 64) % 2 ^ 32;
  free = 0;
  colour_offset = c.colour_next * 64;
  inuse = 0;
  bufctl = λ i. if ltb i c.slab_objects then i + 1 else 0;
}

-- The object at the head of the slab's chain, and the slab without it.
unfoldable pub take_object : Cache → Slab → ℕ × Slab
take_object c s = (
  (s.objects + s.free * c.slab_size) % 2 ^ 32,
  record s { free = s.bufctl s.free; inuse = (s.inuse + 1) % 2 ^ 32 },
)

-- The state adjustment at the end of `cache_alloc`.
unfoldable pub file_slab : Cache → Slab → Cache
file_slab c s =
    if s.inuse == c.slab_objects
    then record c { list_full = s ∷ c.list_full }
    else (if s.inuse == 0
        then record c { list_free = s ∷ c.list_free }
        else record c { list_partial = s ∷ c.list_partial })

-- The slab that serves the request, and the cache without it. `addr` is where the page allocator
-- puts a new slab, in the kernel's address space.
unfoldable pub pick_slab : Cache → ℕ → Slab × Cache
unfolding new_slab
pick_slab c addr = elim c.list_partial [
  | s ∷ rest ↦ (s, record c { list_partial = rest })
  | [] ↦ elim c.list_free [
    | s ∷ rest ↦ (s, record c { list_free = rest })
    | [] ↦ (new_slab c addr, record c { colour_next = (c.colour_next + 1) % (c.colour_num + 1) })
  ]
]

-- `cache_alloc` in the cache that `get_cache` gives.
unfoldable pub alloc_in : Cache → ℕ → ℕ × Cache
unfolding pick_slab take_object file_slab
alloc_in c addr =
    let (s, c') = pick_slab c addr in let (ret, s') = take_object c' s in (ret, file_slab c' s')

-- `none` for NULL. `is_list` says that the page allocator is of the list type.
unfoldable pub cache_alloc : Bool → List Cache → ℕ → ℕ → Option ℕ × List Cache
unfolding get_cache alloc_in
cache_alloc is_list caches size addr =
    if is_list
    then elim (get_cache size caches) [
      | none ↦ (none, caches)
      | some k ↦ elim (get_elem? caches k) [
        | none ↦ (none, caches)
        | some c ↦ let (ret, c') = alloc_in c addr in (some ret, set caches k c')
      ]
    ]
    else (none, caches)

-- The new cache is linked behind the root.
unfoldable pub link_cache : ℕ → Option ℕ × List Cache → Option ℕ × List Cache
link_cache size (none, caches) = (none, caches)
link_cache size (some place, []) = (none, [])
link_cache size (some place, root ∷ rest) = (some 1, root ∷ init_cache size ∷ rest)

-- `new_cache`: the structure is an object of a cache.
unfoldable pub new_cache : Bool → List Cache → ℕ → ℕ → Option ℕ × List Cache
new_cache is_list caches size addr = link_cache size (cache_alloc is_list caches cache_struct addr)

-- IS_OBJECT_IN_SLAB
unfoldable pub is_object_in_slab : Cache → Slab → ℕ → Bool
is_object_in_slab c s o =
    leb o s.objects && leb o ((s.objects + c.slab_size * c.slab_objects) % 2 ^ 32)

-- The first slab of a list with the object, and the list without it.
unfoldable pub find_slab : Cache → ℕ → List Slab → Option (Slab × List Slab)
unfolding is_object_in_slab
find_slab c o [] = none
find_slab c o (s ∷ rest) =
    if is_object_in_slab c s o
    then some (s, rest)
    else elim (find_slab c o rest) [ none ↦ none | some (t, others) ↦ some (t, s ∷ others) ]

abbrev pub write_bufctl : (ℕ → ℕ) → ℕ → ℕ → ℕ → ℕ
write_bufctl b i v j = if j == i then v else b j

-- The object goes to the head of the slab's chain.
unfoldable pub put_object : Cache → Slab → ℕ → Slab
put_object c s o =
    let id = (o + 2 ^ 32 - s.objects) % 2 ^ 32 / c.slab_size in
    record s {
      bufctl = write_bufctl s.bufctl id s.free;
      free = id;
      inuse = (s.inuse + 2 ^ 32 - 1) % 2 ^ 32;
    }

-- A slab of the partial list that is found stays in its place unless it becomes empty.
unfoldable pub replace_slab : Cache → ℕ → List Slab → List Slab
unfolding is_object_in_slab put_object
replace_slab c o [] = []
replace_slab c o (s ∷ rest) =
    if is_object_in_slab c s o then put_object c s o ∷ rest else s ∷ replace_slab c o rest

unfoldable pub cache_free : Cache → ℕ → Cache
unfolding find_slab put_object replace_slab
cache_free c o = elim (find_slab c o c.list_full) [
  | some (s, rest) ↦ record c { list_full = rest; list_partial = put_object c s o ∷ c.list_partial }
  | none ↦ elim (find_slab c o c.list_partial) [
    | none ↦ c
    | some (s, rest) ↦
        if (put_object c s o).inuse == 0
        then record c { list_partial = rest; list_free = put_object c s o ∷ c.list_free }
        else record c { list_partial = replace_slab c o c.list_partial }
  ]
]
