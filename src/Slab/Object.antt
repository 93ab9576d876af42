-- ===== src/Slab/Object.antt =====
-- The objects of one slab: the chain of free objects through the bufctl array.
use liqui_dos.Common.{
  ℕ, zero, suc, ◌+◌, ◌-◌, ◌*◌, ◌/◌, ◌%◌, ◌^◌, ◌≤◌, ◌<◌, ◌≡◌, refl, arith, List, [], ◌∷◌, ==_refl,
  length, count, erase, count-erase_self, count-erase_ne, length-erase, length-erase_none,
}
use native.Mathlib.Decide.{dec_lt}
use native.Mathlib.Nat.{mul-div_cancel}
use liqui_dos.Slab.{Cache, Slab, write_bufctl, take_object, put_object}

-- The entries lead from object `k` through the objects of the list to the end, entry `n`.
abbrev pub Chain : ℕ → (ℕ → ℕ) → ℕ → List ℕ → Type 0
Chain n b k [] = k ≡ n
Chain n b k (x ∷ xs) = (k ≡ x) × (x < n) × Chain n b (b x) xs

-- A slab of `n` objects of `size` bytes: the free objects are a chain, each once, and the others
-- are counted in `inuse`.
pub record IsSlab (n size : ℕ) (s : Slab) (chain : List ℕ) : Type 0 where
  pub linked : Chain n s.bufctl s.free chain
  pub distinct : (x : ℕ) → count x chain ≤ 1
  pub counted : s.inuse + length chain ≡ n
  pub fits : s.objects + n * size < 2 ^ 32
  pub sized : 0 < size

-- A write outside the chain keeps it.
Chain-write :
    (n : ℕ) (b : ℕ → ℕ) (i v k : ℕ) (chain : List ℕ)
    → count i chain ≡ 0
    → Chain n b k chain
    → Chain n (write_bufctl b i v) k chain
Chain-write n b i v k [] none_here h = h
Chain-write n b i v k (x ∷ xs) none_here (same, below, rest) =
    let other : write_bufctl b i v x ≡ b x = ground arith in
    (same, below, rw other (Chain-write n b i v (b x) xs (omega arith) rest))

objects_small : (n size base : ℕ) → base + n * size < 2 ^ 32 → 0 < size → n < 2 ^ 32
objects_small n size base h pos = grind (arith, h, pos)

Chain-below :
    (n : ℕ) (b : ℕ → ℕ) (k : ℕ) (chain : List ℕ)
    → Chain n b k chain
    → (x : ℕ) → 0 < count x chain
    → x < n
Chain-below n b k [] h x there = absurd (omega arith)
Chain-below n b k (y ∷ ys) (same, below, rest) x there =
    ground (arith, below, Chain-below n b (b y) ys rest x)

-- Distinct numbers below `n` are at most `n` many.
pigeonhole :
    (n : ℕ) (xs : List ℕ)
    → ((x : ℕ) → count x xs ≤ 1)
    → ((x : ℕ) → 0 < count x xs → x < n)
    → length xs ≤ n
pigeonhole zero [] once below = omega arith
pigeonhole zero (x ∷ xs) once below = absurd (omega (arith, below x (ground arith)))
pigeonhole (suc n) xs once below =
    let fewer =
      pigeonhole n (erase n xs)
        (λ x. ground (arith, once x, count-erase_self n xs, count-erase_ne n x xs))
        (λ x h. ground (arith, below x, count-erase_self n xs, count-erase_ne n x xs, once n)) in
    elim (dec_lt 0 (count n xs)) [
      | yes there ↦ omega (arith, fewer, length-erase n xs there)
      | no gone ↦ omega (arith, fewer, length-erase_none n xs (omega arith))
    ]

in_area : (n size x : ℕ) → x < n → x * size + size ≤ n * size
in_area n size x h = grind (arith, h)

index_of :
    (base x size : ℕ)
    → base + x * size < 2 ^ 32
    → 0 < size
    → (base + x * size + 2 ^ 32 - base) % 2 ^ 32 / size ≡ x
index_of base x size h pos =
    let offset : (base + x * size + 2 ^ 32 - base) % 2 ^ 32 ≡ x * size = omega arith in
    rw offset (mul-div_cancel x pos)

module _ (c : Cache) (s : Slab) (x : ℕ) (chain : List ℕ) where
  -- From a slab with free objects the call gives the address of the first of the chain, and the
  -- slab stays consistent with the others free.
  pub take_object-IsSlab :
      IsSlab c.slab_objects c.slab_size s (x ∷ chain)
      → ((take_object c s).0 ≡ s.objects + x * c.slab_size)
        × IsSlab c.slab_objects c.slab_size (take_object c s).1 chain
  unfolding take_object
  take_object-IsSlab h = (
    rw (h.linked).0 (omega (arith, h.fits, in_area c.slab_objects c.slab_size x (h.linked).1)),
    record {
      linked = rw (h.linked).0 ((h.linked).2);
      distinct = λ y. ground (arith, h.distinct y);
      counted = omega (arith, h.counted, objects_small _ _ _ h.fits h.sized);
      fits = h.fits;
      sized = h.sized;
    },
  )

  -- An object in use that is given back becomes the first of the chain, and the slab stays
  -- consistent.
  pub put_object-IsSlab :
      IsSlab c.slab_objects c.slab_size s chain
      → x < c.slab_objects
      → count x chain ≡ 0
      → IsSlab c.slab_objects c.slab_size (put_object c s (s.objects + x * c.slab_size)) (x ∷ chain)
  unfolding put_object
  put_object-IsSlab h below used =
      let id : (s.objects + x * c.slab_size + 2 ^ 32 - s.objects) % 2 ^ 32 / c.slab_size ≡ x =
        index_of s.objects x c.slab_size
          (omega (arith, h.fits, in_area c.slab_objects c.slab_size x below)) h.sized in
      let once : ((y : ℕ) → count y (x ∷ chain) ≤ 1) = λ y. ground (arith, h.distinct y, used) in
      let room =
        pigeonhole c.slab_objects (x ∷ chain) once
          (λ y there. ground (arith, below, Chain-below _ _ _ chain h.linked y)) in
      rw id (record {
        linked = (
          refl,
          below,
          rw (==_refl x) (Chain-write c.slab_objects s.bufctl x s.free s.free chain used h.linked),
        );
        distinct = once;
        counted = omega (arith, h.counted, room, objects_small _ _ _ h.fits h.sized);
        fits = h.fits;
        sized = h.sized;
      })
