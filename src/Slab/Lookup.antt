-- ===== src/Slab/Lookup.antt =====
-- get_cache and the search of cache_free.
use liqui_dos.Common.{
  ℕ, zero, suc, ◌+◌, ◌-◌, ◌≤◌, ◌<◌, ◌≡◌, ◌⊎◌, inl, inr, refl, false, ◌&&◌, ap, ◌∙◌, arith, Option,
  none, some, List, [], ◌∷◌, leb, Bool-cases, get_elem?, some_inj,
}
use mathlib.Core.Path.{subst}
use liqui_dos.Slab.{
  Cache, Slab, slab_max_size, best_fit, get_cache, is_object_in_slab, find_slab, cache_free,
}

-- Cache `c` stands at place `i`, serves the size within `delta` and is the smallest that serves it.
pub record IsBestAt (size delta : ℕ) (caches : List Cache) (i : ℕ) (c : Cache) : Type 0 where
  pub place : get_elem? caches i ≡ some c
  pub serves : size ≤ c.slab_size
  pub within : c.slab_size - size ≤ delta
  pub smallest :
      (j : ℕ) (d : Cache)
      → get_elem? caches j ≡ some d
      → size ≤ d.slab_size
      → c.slab_size ≤ d.slab_size

-- No cache serves the size within `delta`.
abbrev pub NoFit : ℕ → ℕ → List Cache → Type 0
NoFit size delta caches =
    (j : ℕ) (d : Cache)
    → get_elem? caches j ≡ some d
    → size ≤ d.slab_size
    → delta < d.slab_size - size

abbrev Searched : ℕ → ℕ → List Cache → ℕ → Option ℕ → Option ℕ → Type 0
Searched size delta caches k best r =
    ((r ≡ best) × NoFit size delta caches)
    ⊎ ((i : ℕ) × (c : Cache) × (r ≡ some (k + i)) × IsBestAt size delta caches i c)

-- What holds of the first cache and of every later one holds at every place.
everywhere :
    (P : Cache → Type 0) (c : Cache) (rest : List Cache)
    → P c
    → ((j : ℕ) (d : Cache) → get_elem? rest j ≡ some d → P d)
    → (j : ℕ) (d : Cache) → get_elem? (c ∷ rest) j ≡ some d
    → P d
everywhere P c rest first later zero d e = subst P (some_inj e) first
everywhere P c rest first later (suc j) d e = later j d e

module _ (size delta : ℕ) (c : Cache) (rest : List Cache) (k : ℕ) (best r : Option ℕ) where
  chosen :
      size ≤ c.slab_size
      → c.slab_size - size ≤ delta
      → Searched size (c.slab_size - size) rest (k + 1) (some k) r
      → Searched size delta (c ∷ rest) k best r
  chosen fit near (inl (same, worse)) = inr (
    0,
    c,
    same ∙ ap some (omega arith),
    record {
      place = refl;
      serves = fit;
      within = near;
      smallest =
          everywhere (λ d. size ≤ d.slab_size → c.slab_size ≤ d.slab_size) c rest (λ h. omega arith)
            (λ j d e h. omega (arith, worse j d e h, fit));
    },
  )
  chosen fit near (inr (i, b, same, h)) = inr (
    suc i,
    b,
    same ∙ ap some (omega arith),
    record {
      place = h.place;
      serves = h.serves;
      within = omega (arith, h.within);
      smallest =
          everywhere (λ d. size ≤ d.slab_size → b.slab_size ≤ d.slab_size) c rest
            (λ _. omega (arith, h.within, h.serves, fit)) h.smallest;
    },
  )

  passed_over :
      (size ≤ c.slab_size → delta < c.slab_size - size)
      → Searched size delta rest (k + 1) best r
      → Searched size delta (c ∷ rest) k best r
  passed_over worse (inl (same, others)) =
      inl (
        same,
        everywhere (λ d. size ≤ d.slab_size → delta < d.slab_size - size) c rest worse others,
      )
  passed_over worse (inr (i, b, same, h)) = inr (
    suc i,
    b,
    same ∙ ap some (omega arith),
    record {
      place = h.place;
      serves = h.serves;
      within = h.within;
      smallest =
          everywhere (λ d. size ≤ d.slab_size → b.slab_size ≤ d.slab_size) c rest
            (λ g. omega (arith, worse g, h.within, h.serves)) h.smallest;
    },
  )

best_fit-Searched :
    (size : ℕ) (caches : List Cache) (k delta : ℕ) (best : Option ℕ)
    → Searched size delta caches k best (best_fit size caches k delta best)
unfolding best_fit
best_fit-Searched size [] k delta best = inl (refl, λ j d e h. absurd cc)
best_fit-Searched size (c ∷ rest) k delta best =
    elim (Bool-cases (leb size c.slab_size && leb (c.slab_size - size) delta)) [
      | inl fits ↦ rw fits (
          chosen size delta c rest k best _ (ground arith) (ground arith)
            (best_fit-Searched size rest (k + 1) (c.slab_size - size) (some k)))
      | inr not_fit ↦ rw not_fit (
          passed_over size delta c rest k best _ (λ h. ground arith)
            (best_fit-Searched size rest (k + 1) delta best))
    ]

-- `get_cache` gives a cache that serves the size with at most 256 bytes to spare and that is the
-- smallest of all caches that serve it, and NULL exactly if no cache serves it so closely.
pub get_cache-Searched :
    (size : ℕ) (caches : List Cache)
    → ((get_cache size caches ≡ none) × NoFit size slab_max_size caches)
      ⊎ ((i : ℕ) × (c : Cache) × (get_cache size caches ≡ some i)
          × IsBestAt size slab_max_size caches i c)
unfolding get_cache
get_cache-Searched size caches = elim (best_fit-Searched size caches 0 slab_max_size none) [
  | inl nothing ↦ inl nothing
  | inr (i, c, same, h) ↦ inr (i, c, same ∙ ap some (omega arith), h)
]

find_slab-none :
    (c : Cache) (o : ℕ) (slabs : List Slab)
    → ((j : ℕ) (s : Slab) → get_elem? slabs j ≡ some s → s.objects < o)
    → find_slab c o slabs ≡ none
unfolding find_slab is_object_in_slab
find_slab-none c o [] above = refl
find_slab-none c o (s ∷ rest) above =
    let outside : leb o s.objects ≡ false = ground (arith, above 0 s refl) in
    rw outside (rw (find_slab-none c o rest (λ j t e. above (suc j) t e)) refl)

-- Where the object lies behind the first object of every full and every partial slab,
-- `cache_free` changes nothing: the object is lost.
pub cache_free-lost :
    (c : Cache) (o : ℕ)
    → ((j : ℕ) (s : Slab) → get_elem? c.list_full j ≡ some s → s.objects < o)
    → ((j : ℕ) (s : Slab) → get_elem? c.list_partial j ≡ some s → s.objects < o)
    → cache_free c o ≡ c
unfolding cache_free
cache_free-lost c o full partial =
    rw (find_slab-none c o c.list_full full, find_slab-none c o c.list_partial partial, cache_free)
      refl
