-- ===== src/Slab/Kmalloc.antt =====
-- kmalloc, kfree and find_cache_kmalloc of core/mm/slab.cc, with next_pow2l of
-- lib/libc/include/math.h. `none` as an outer result is a write through NULL.
pub mod Power
pub mod Served
use liqui_dos.Common.{
  ℕ, zero, suc, ◌+◌, ◌-◌, ◌*◌, ◌/◌, ◌%◌, ◌^◌, Bool, true, false, not, ◌&&◌, ◌||◌, Option, none,
  some, List, [], ◌∷◌, ltb, ◌==◌, if◌then◌else◌, get_elem?, set,
}
use liqui_dos.Slab.{Cache, Slab, get_cache, new_cache, cache_alloc, cache_free, is_object_in_slab}

-- `__builtin_clzl` of a 32-bit word, with `left` bits to go.
unfoldable pub clz : ℕ → ℕ → ℕ
clz zero x = 0
clz (suc left) x = if x / 2 ^ left == 0 then suc (clz left x) else 0

-- An int as a uint64_t.
abbrev pub int_to_uint64 : ℕ → ℕ
int_to_uint64 v = if ltb v (2 ^ 31) then v else v + 2 ^ 64 - 2 ^ 32

-- A `long` has 32 bits here, so the count of the shift is 32 at least, and the processor takes it
-- modulo 32. The shift is one of ints.
unfoldable pub next_pow2l : ℕ → ℕ
next_pow2l x =
    int_to_uint64
      (if x == 1 then 1 else 2 ^ ((64 - clz 32 ((x + 2 ^ 64 - 1) % 2 ^ 64 % 2 ^ 32)) % 32))

-- `best == NULL || best->slab_size != j`
unfoldable pub is_missing : ℕ → List Cache → Bool
is_missing j caches = elim (get_cache j caches) [
  | none ↦ true
  | some k ↦ elim (get_elem? caches k) [ none ↦ true | some c ↦ not (c.slab_size == j) ]
]

-- `strcpy(best->name, "ubxela\0")`
unfoldable pub set_name : ℕ → List Cache → List Cache
set_name k caches = elim (get_elem? caches k) [
  | none ↦ caches
  | some c ↦ set caches k (record c { is_ubxela = true })
]

unfoldable pub name_cache : Option ℕ × List Cache → Option (List Cache)
unfolding set_name
name_cache (none, caches) = none
name_cache (some k, caches) = some (set_name k caches)

-- The caches after the cache of objects of `j` bytes is made where there is none.
unfoldable pub with_cache : Bool → ℕ → List Cache → ℕ → Option (List Cache)
with_cache is_list j caches addr = name_cache (new_cache is_list caches j addr)

-- `cache_alloc(j)` after it.
unfoldable pub alloc_after : Bool → ℕ → ℕ → Option (List Cache) → Option (Option ℕ × List Cache)
alloc_after is_list j addr none = none
alloc_after is_list j addr (some caches) = some (cache_alloc is_list caches j addr)

-- `addr` and `addr'` are where the page allocator puts a new slab in each call of cache_alloc.
unfoldable pub kmalloc : Bool → List Cache → ℕ → ℕ → ℕ → Option (Option ℕ × List Cache)
kmalloc is_list caches size addr addr' =
    let j = next_pow2l size % 2 ^ 32 in
    alloc_after is_list j addr'
      (if is_missing j caches then with_cache is_list j caches addr else some caches)

unfoldable pub is_object_in : Cache → List Slab → ℕ → Bool
unfolding is_object_in_slab
is_object_in c [] o = false
is_object_in c (s ∷ rest) o = is_object_in_slab c s o || is_object_in c rest o

-- The place of the cache, from place `k` on.
unfoldable pub find_cache_kmalloc : ℕ → List Cache → ℕ → Option ℕ
unfolding is_object_in
find_cache_kmalloc k [] o = none
find_cache_kmalloc k (c ∷ rest) o =
    if c.is_ubxela && (is_object_in c c.list_full o || is_object_in c c.list_partial o)
    then some k
    else find_cache_kmalloc (k + 1) rest o

unfoldable pub kfree : List Cache → ℕ → List Cache
unfolding find_cache_kmalloc
kfree caches o = elim (find_cache_kmalloc 0 caches o) [
  | none ↦ caches
  | some k ↦ elim (get_elem? caches k) [ none ↦ caches | some c ↦ set caches k (cache_free c o) ]
]
