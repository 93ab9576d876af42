-- ===== src/Slab/Layout.antt =====
-- The layout that init_cache chooses.
use liqui_dos.Common.{
  false, ℕ, zero, suc, ◌+◌, ◌-◌, ◌*◌, ◌/◌, ◌^◌, ◌≤◌, ◌<◌, ◌≡◌, ◌⊎◌, inl, inr, refl, ap, ◌∙◌, arith,
  [], ltb, leb, Bool-cases,
}
use native.Mathlib.Nat.{pow-suc}
use liqui_dos.Slab.{Cache, page_size, slab_struct, objctl, grow, carve, init_cache}

pow_next : (k : ℕ) → 2 ^ (k + 1) ≡ 2 ^ k * 2
pow_next k = let next : k + 1 ≡ suc k = omega arith in ap (λ n. 2 ^ n) next ∙ pow-suc 2 k

zero_of_pow : (k : ℕ) → 2 ^ k ≡ 1 → k ≡ 0
zero_of_pow zero e = refl
zero_of_pow (suc k) e = absurd (omega (arith, pow-suc 2 k))

-- The bytes are the pages of the order, they suffice, and half of them would not.
abbrev IsGrown : ℕ → ℕ → ℕ × ℕ → Type 0
IsGrown need free r = (r.0 ≡ page_size * 2 ^ r.1) × (need ≤ r.0) × ((r.0 ≡ free) ⊎ (r.0 < need * 2))

grow-IsGrown :
    (fuel need free order : ℕ)
    → need ≤ free + fuel
    → 0 < free
    → free ≡ page_size * 2 ^ order
    → IsGrown need free (grow fuel need free order)
unfolding grow
grow-IsGrown zero need free order enough pos whole = (whole, omega arith, inl refl)
grow-IsGrown (suc fuel) need free order enough pos whole = elim (Bool-cases (ltb free need)) [
  | inl small ↦
      let doubled : free * 2 ≡ page_size * 2 ^ (order + 1) = omega (arith, whole, pow_next order) in
      let (pages, fits, least) =
        grow-IsGrown fuel need (free * 2) (order + 1) (omega arith) (omega arith) doubled in
      rw small (pages, fits, inr (ground (arith, least)))
  | inr big ↦ rw big (whole, ground arith, inl refl)
]

-- What is left is less than an object takes, and the objects take the rest.
carve_lem :
    (fuel each free count : ℕ)
    → free < fuel + each
    → 0 < each
    → ((carve fuel each free count).0 < each)
      × ((carve fuel each free count).0 + (carve fuel each free count).1 * each
          ≡ free + count * each)
unfolding carve
carve_lem zero each free count enough pos = (omega arith, refl)
carve_lem (suc fuel) each free count enough pos = elim (Bool-cases (leb each free)) [
  | inl more ↦
      let (less, all) = carve_lem fuel each (free - each) (count + 1) (ground arith) pos in
      rw more (less, grind (arith, all, more))
  | inr done ↦ rw done (ground arith, refl)
]

-- The layout of a cache for objects of `size` bytes, with `left` bytes at the end.
pub record IsLaidOut (size : ℕ) (c : Cache) : Type 0 where
  pub left : ℕ
  pub layout : slab_struct + c.slab_objects * (size + objctl) + left ≡ page_size * 2 ^ c.order
  pub no_more : left < size + objctl
  pub some_object : 0 < c.slab_objects
  pub least : (c.order ≡ 0) ⊎ (page_size * 2 ^ c.order < (size + objctl + slab_struct) * 2)
  pub colours : (c.colour_num * 64 ≤ left) × (left < c.colour_num * 64 + 64)

laid_out :
    (size total order left count : ℕ)
    → IsGrown (size + objctl + slab_struct) page_size (total, order)
    → left < size + objctl
    → left + count * (size + objctl) ≡ total - slab_struct
    → IsLaidOut size (record {
      list_free = [];
      list_partial = [];
      list_full = [];
      is_ubxela = false;
      order = order;
      slab_size = size;
      slab_objects = count;
      colour_next = 0;
      colour_num = left / 64;
    })
laid_out size total order left count (pages, fits, least) less all = record {
  left = left;
  layout = omega (arith, pages, fits, all);
  no_more = less;
  some_object = grind (arith, fits, less, all);
  least = elim least [
    | inl same ↦ inl (zero_of_pow order (omega (arith, pages, same)))
    | inr half ↦ inr (omega (arith, pages, half))
  ];
  colours = (omega arith, omega arith);
}

-- A slab of a new cache has room for its header, the objects with their entries and the last
-- colour's offset; it has at least one object, no further object would fit, and its pages are
-- the least power of two that holds an object.
pub init_cache-IsLaidOut : (size : ℕ) → size + 32 ≤ 2 ^ 30 → IsLaidOut size (init_cache size)
unfolding init_cache
init_cache-IsLaidOut size small =
    let grown =
      grow-IsGrown (size + objctl + slab_struct) (size + objctl + slab_struct) page_size 0
        (omega arith) (omega arith) refl in
    let total : ℕ =
      (grow (size + objctl + slab_struct) (size + objctl + slab_struct) page_size 0).0 in
    let carved =
      carve_lem total (size + objctl) (total - slab_struct) 0 (omega arith) (omega arith) in
    laid_out size _ _ _ _ grown carved.0 (omega (arith, carved.1))
