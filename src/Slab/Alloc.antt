-- ===== src/Slab/Alloc.antt =====
-- cache_alloc in one cache: the three lists stay consistent.
use liqui_dos.Common.{
  ℕ, zero, suc, ◌+◌, ◌*◌, ◌^◌, ◌<◌, ◌≡◌, inl, inr, refl, true, false, ◌&&◌, ap, ◌∙◌, arith, List,
  [], ◌∷◌, ltb, leb, ◌==◌, if◌then◌else◌, Bool-cases, length, All, count,
}
use liqui_dos.Slab.{
  Cache, Slab, slab_struct, objctl, take_object, new_slab, file_slab, pick_slab, alloc_in,
}
use liqui_dos.Slab.Object.{Chain, IsSlab, take_object-IsSlab}

-- A consistent slab with some number of objects in use.
abbrev pub InUse : ℕ → ℕ → (ℕ → Type 0) → Slab → Type 0
InUse n size P s = (chain : List ℕ) × IsSlab n size s chain × P s.inuse

-- Each slab is consistent and stands in the list of its state.
pub record IsCache (c : Cache) : Type 0 where
  pub some_object : 0 < c.slab_objects
  pub sized : 0 < c.slab_size
  pub free : All (InUse c.slab_objects c.slab_size (λ u. u ≡ 0)) c.list_free
  pub partial :
      All (InUse c.slab_objects c.slab_size (λ u. (0 < u) × (u < c.slab_objects))) c.list_partial
  pub full : All (InUse c.slab_objects c.slab_size (λ u. u ≡ c.slab_objects)) c.list_full

abbrev ascending : ℕ → ℕ → List ℕ
ascending zero k = []
ascending (suc left) k = k ∷ ascending left (k + 1)

count-ascending :
    (left k x : ℕ) → count x (ascending left k) ≡ (if leb k x && ltb x (k + left) then 1 else 0)
count-ascending zero k x = ground arith
count-ascending (suc left) k x = ground (arith, count-ascending left (k + 1) x)

length-ascending : (left k : ℕ) → length (ascending left k) ≡ left
length-ascending zero k = refl
length-ascending (suc left) k = omega (arith, length-ascending left (k + 1))

Chain-ascending :
    (n left k : ℕ) → k + left ≡ n → Chain n (λ i. if ltb i n then i + 1 else 0) k (ascending left k)
Chain-ascending n zero k e = omega arith
Chain-ascending n (suc left) k e =
    let below : ltb k n ≡ true = ground arith in
    (refl, omega arith, rw below (Chain-ascending n left (k + 1) (omega arith)))

-- The slab's pages and the last object's end lie in the address space.
abbrev pub Fits : Cache → ℕ → Type 0
Fits c addr =
    addr + slab_struct + c.slab_objects * objctl + c.colour_next * 64 + c.slab_objects * c.slab_size
    < 2 ^ 32

new_slab-IsSlab :
    (c : Cache) (addr : ℕ)
    → 0 < c.slab_size
    → Fits c addr
    → IsSlab c.slab_objects c.slab_size (new_slab c addr) (ascending c.slab_objects 0)
unfolding new_slab
new_slab-IsSlab c addr pos h = record {
  linked = Chain-ascending c.slab_objects c.slab_objects 0 (omega arith);
  distinct = λ x. ground (arith, count-ascending c.slab_objects 0 x);
  counted = omega (arith, length-ascending c.slab_objects 0);
  fits = omega (arith, h);
  sized = pos;
}

-- A slab with fewer objects in use than it has holds a free one.
free_object :
    (n size : ℕ) (s : Slab) (chain : List ℕ)
    → IsSlab n size s chain
    → s.inuse < n
    → (x : ℕ) × (rest : List ℕ) × IsSlab n size s (x ∷ rest)
free_object n size s [] h less = absurd (omega (arith, h.counted))
free_object n size s (x ∷ rest) h less = (x, rest, h)

-- The slab has a free object, and the cache is consistent and has the objects it had.
abbrev Picked : Cache → Slab × Cache → Type 0
Picked c (s, c') =
    ((x : ℕ) × (rest : List ℕ) × IsSlab c'.slab_objects c'.slab_size s (x ∷ rest))
    × IsCache c'
    × (c'.slab_objects ≡ c.slab_objects)
    × (c'.slab_size ≡ c.slab_size)

pick_slab-Picked :
    (c : Cache) (addr : ℕ) (ps fs : List Slab)
    → c.list_partial ≡ ps
    → c.list_free ≡ fs
    → IsCache c
    → Fits c addr
    → Picked c (pick_slab c addr)
unfolding pick_slab
pick_slab-Picked c addr (s ∷ rest) fs e f h fits =
    let ((chain, ok, (pos, less)), others) = rw e at h.partial in
    rw (e, pick_slab)
      (
        free_object c.slab_objects c.slab_size s chain ok less,
        record {
          some_object = h.some_object;
          sized = h.sized;
          free = h.free;
          partial = others;
          full = h.full;
        },
        refl,
        refl,
      )
pick_slab-Picked c addr [] (s ∷ rest) e f h fits =
    let ((chain, ok, unused), others) = rw f at h.free in
    rw (e, f, pick_slab)
      (
        free_object c.slab_objects c.slab_size s chain ok (omega (arith, unused, h.some_object)),
        record {
          some_object = h.some_object;
          sized = h.sized;
          free = others;
          partial = h.partial;
          full = h.full;
        },
        refl,
        refl,
      )
pick_slab-Picked c addr [] [] e f h fits =
    rw (e, f, pick_slab)
      (
        free_object c.slab_objects c.slab_size (new_slab c addr) _
            (new_slab-IsSlab c addr h.sized fits) h.some_object,
        record {
          some_object = h.some_object;
          sized = h.sized;
          free = h.free;
          partial = h.partial;
          full = h.full;
        },
        refl,
        refl,
      )

file_slab-IsCache :
    (c : Cache) (s : Slab) (chain : List ℕ)
    → IsCache c
    → IsSlab c.slab_objects c.slab_size s chain
    → 0 < s.inuse
    → IsCache (file_slab c s)
unfolding file_slab
file_slab-IsCache c s chain h ok used = elim (Bool-cases (s.inuse == c.slab_objects)) [
  | inl all ↦ rw all (record {
    some_object = h.some_object;
    sized = h.sized;
    free = h.free;
    partial = h.partial;
    full = ((chain, ok, ground arith), h.full);
  })
  | inr some_left ↦
      let busy : (s.inuse == 0) ≡ false = ground arith in
      rw (some_left, busy)
        (record {
          some_object = h.some_object;
          sized = h.sized;
          free = h.free;
          partial = ((chain, ok, (used, ground (arith, ok.counted))), h.partial);
          full = h.full;
        })
]

in_use :
    (c : Cache) (s : Slab) (x : ℕ) (rest : List ℕ)
    → IsSlab c.slab_objects c.slab_size s (x ∷ rest)
    → IsSlab c.slab_objects c.slab_size (take_object c s).1 rest
    → 0 < (take_object c s).1.inuse
in_use c s x rest ok left = omega (arith, ok.counted, left.counted)

served :
    (c : Cache) (s : Slab) (x : ℕ) (rest : List ℕ)
    → IsCache c
    → IsSlab c.slab_objects c.slab_size s (x ∷ rest)
    → IsCache (file_slab c (take_object c s).1)
      × (x < c.slab_objects)
      × ((take_object c s).0 ≡ s.objects + x * c.slab_size)
served c s x rest h ok =
    let (place, left) = take_object-IsSlab c s x rest ok in
    (
      file_slab-IsCache c (take_object c s).1 rest h left (in_use c s x rest ok left),
      (ok.linked).1,
      place,
    )

-- From a consistent cache, where a new slab at `addr` would lie in the address space, the call
-- gives the address of one of the objects of the slab it picks, and the cache stays consistent:
-- in each slab the chain holds the free objects, each once, `inuse` counts the others, and each
-- slab stands in the list of its state.
pub alloc_in-IsCache :
    (c : Cache) (addr : ℕ)
    → IsCache c
    → Fits c addr
    → IsCache (alloc_in c addr).1
      × ((x : ℕ) × (x < c.slab_objects)
          × ((alloc_in c addr).0 ≡ (pick_slab c addr).0.objects + x * c.slab_size))
unfolding alloc_in
alloc_in-IsCache c addr h fits =
    let ((x, rest, ok), kept, same_count, same_size) =
      pick_slab-Picked c addr _ _ refl refl h fits in
    let (after, below, place) = served (pick_slab c addr).1 (pick_slab c addr).0 x rest kept ok in
    (
      after,
      (
        x,
        omega (arith, below, same_count),
        place ∙ ap (λ n. (pick_slab c addr).0.objects + x * n) same_size,
      ),
    )
