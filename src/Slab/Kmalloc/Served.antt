-- ===== src/Slab/Kmalloc/Served.antt =====
-- kmalloc and the cache that it takes.
use liqui_dos.Common.{
  ℕ, zero, suc, ◌%◌, ◌^◌, ◌≡◌, inl, inr, refl, true, false, ap, ◌∙◌, arith, some, List, ◌∷◌,
  if◌then◌else◌, Bool-cases, Option-cases, get_elem?, set,
}
use liqui_dos.Slab.{
  Cache, cache_struct, init_cache, get_cache, alloc_in, cache_alloc, link_cache, new_cache,
}
use liqui_dos.Slab.Lookup.{get_cache-Searched}
use liqui_dos.Slab.Kmalloc.{is_missing, with_cache, name_cache, alloc_after, kmalloc, next_pow2l}

-- Where a cache has exactly the size, get_cache finds one of that size.
get_cache-exact :
    (size i : ℕ) (d : Cache) (caches : List Cache)
    → get_elem? caches i ≡ some d
    → d.slab_size ≡ size
    → (k : ℕ) × (c : Cache) × (get_cache size caches ≡ some k)
      × (get_elem? caches k ≡ some c)
      × (c.slab_size ≡ size)
get_cache-exact size i d caches there same = elim (get_cache-Searched size caches) [
  | inl (nothing, far) ↦ absurd (omega (arith, far i d there (omega (arith, same)), same))
  | inr (k, c, found, best) ↦ (
    k,
    c,
    found,
    best.place,
    omega (arith, best.serves, best.smallest i d there (omega (arith, same)), same),
  )
]

-- An allocation from a cache of exactly the size.
cache_alloc-exact :
    (size i addr : ℕ) (d : Cache) (caches : List Cache)
    → get_elem? caches i ≡ some d
    → d.slab_size ≡ size
    → (k : ℕ) × (c : Cache) × (get_elem? caches k ≡ some c)
      × (c.slab_size ≡ size)
      × (cache_alloc true caches size addr
          ≡ (some (alloc_in c addr).0, set caches k (alloc_in c addr).1))
unfolding cache_alloc
cache_alloc-exact size i addr d caches there same =
    let (k, c, found, place, equal) = get_cache-exact size i d caches there same in
    (k, c, place, equal, rw (found, place) refl)

init_cache-slab_size : (size : ℕ) → (init_cache size).slab_size ≡ size
unfolding init_cache
init_cache-slab_size size = refl

named_link :
    (j p k : ℕ) (v root : Cache) (rest : List Cache)
    → (mid : List Cache) × (i : ℕ) × (c : Cache) × (name_cache
          (link_cache j (some p, set (root ∷ rest) k v))
        ≡ some mid)
      × (get_elem? mid i ≡ some c)
      × (c.slab_size ≡ j)
unfolding name_cache link_cache
named_link j p zero v root rest = (
  v ∷ record (init_cache j) { is_ubxela = true } ∷ rest,
  1,
  record (init_cache j) { is_ubxela = true },
  refl,
  refl,
  init_cache-slab_size j,
)
named_link j p (suc k) v root rest = (
  root ∷ record (init_cache j) { is_ubxela = true } ∷ set rest k v,
  1,
  record (init_cache j) { is_ubxela = true },
  refl,
  refl,
  init_cache-slab_size j,
)

-- Where the root cache holds the structures of caches, a new cache can be made.
with_cache-some :
    (j addr : ℕ) (root : Cache) (rest : List Cache)
    → root.slab_size ≡ cache_struct
    → (mid : List Cache) × (i : ℕ) × (c : Cache) × (with_cache true j (root ∷ rest) addr ≡ some mid)
      × (get_elem? mid i ≡ some c)
      × (c.slab_size ≡ j)
unfolding with_cache new_cache
with_cache-some j addr root rest size =
    let (k, c, place, equal, taken) =
      cache_alloc-exact cache_struct 0 addr root (root ∷ rest) refl size in
    let (mid, i, d, made, there, same) =
      named_link j (alloc_in c addr).0 k (alloc_in c addr).1 root rest in
    (mid, i, d, ap (λ r. name_cache (link_cache j r)) taken ∙ made, there, same)

-- If no cache is missing, one of the size is there.
not_missing :
    (j : ℕ) (caches : List Cache)
    → is_missing j caches ≡ false
    → (i : ℕ) × (c : Cache) × (get_elem? caches i ≡ some c) × (c.slab_size ≡ j)
unfolding is_missing
not_missing j caches h = elim (Option-cases (get_cache j caches)) [
  | inl nothing ↦ cc
  | inr (k, found) ↦ elim (Option-cases (get_elem? caches k)) [
    | inl outside ↦ cc
    | inr (c, place) ↦ (k, c, place, ground arith)
  ]
]

kmalloc_from :
    (size addr addr' i : ℕ) (caches mid : List Cache) (d : Cache)
    → (if is_missing (next_pow2l size % 2 ^ 32) caches
        then with_cache true (next_pow2l size % 2 ^ 32) caches addr
        else some caches)
      ≡ some mid
    → get_elem? mid i ≡ some d
    → d.slab_size ≡ next_pow2l size % 2 ^ 32
    → (k : ℕ) × (c : Cache) × (get_elem? mid k ≡ some c)
      × (c.slab_size ≡ next_pow2l size % 2 ^ 32)
      × (kmalloc true caches size addr addr'
          ≡ some (some (alloc_in c addr').0, set mid k (alloc_in c addr').1))
unfolding kmalloc alloc_after
kmalloc_from size addr addr' i caches mid d made there same =
    let (k, c, place, equal, done) =
      cache_alloc-exact (next_pow2l size % 2 ^ 32) i addr' d mid there same in
    (
      k,
      c,
      place,
      equal,
      ap (alloc_after true (next_pow2l size % 2 ^ 32) addr') made ∙ ap (λ r. some r) done,
    )

-- Where the root cache holds the structures of caches, as kmem::init leaves it, and the page
-- allocator is of the list type, kmalloc gives an object, taken from a cache whose objects have
-- exactly the size rounded up by next_pow2l, cut to 32 bits: one of the caches that are there, or of
-- those with the new cache of that size. That cache is changed by the allocation and every other one
-- is kept.
pub kmalloc-served :
    (size addr addr' : ℕ) (root : Cache) (rest : List Cache)
    → root.slab_size ≡ cache_struct
    → (mid : List Cache) × (k : ℕ) × (c : Cache) × ((if is_missing
            (next_pow2l size % 2 ^ 32)
            (root ∷ rest)
          then with_cache true (next_pow2l size % 2 ^ 32) (root ∷ rest) addr
          else some (root ∷ rest))
        ≡ some mid)
      × (get_elem? mid k ≡ some c)
      × (c.slab_size ≡ next_pow2l size % 2 ^ 32)
      × (kmalloc true (root ∷ rest) size addr addr'
          ≡ some (some (alloc_in c addr').0, set mid k (alloc_in c addr').1))
kmalloc-served size addr addr' root rest sized =
    let j : ℕ = next_pow2l size % 2 ^ 32 in
    elim (Bool-cases (is_missing j (root ∷ rest))) [
      | inl missing ↦
          let (mid, i, d, made, there, same) = with_cache-some j addr root rest sized in
          let whole =
            ap (λ b. if b then with_cache true j (root ∷ rest) addr else some (root ∷ rest)) missing
            ∙ made in
          let (k, c, place, equal, done) =
            kmalloc_from size addr addr' i (root ∷ rest) mid d whole there same in
          (mid, k, c, whole, place, equal, done)
      | inr here ↦
          let (i, d, there, same) = not_missing j (root ∷ rest) here in
          let whole =
            ap (λ b. if b then with_cache true j (root ∷ rest) addr else some (root ∷ rest)) here in
          let (k, c, place, equal, done) =
            kmalloc_from size addr addr' i (root ∷ rest) (root ∷ rest) d whole there same in
          (root ∷ rest, k, c, whole, place, equal, done)
    ]
