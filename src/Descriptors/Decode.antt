-- ===== src/Descriptors/Decode.antt =====
-- What the processor reads from a descriptor, and get_gate after set_gate.
use liqui_dos.Common.{
  ℕ, ◌+◌, ◌*◌, ◌/◌, ◌%◌, ◌^◌, ◌<◌, ◌≡◌, ◌≢◌, inl, inr, refl, false, ◌∙◌, arith, ◌==◌, if◌then◌else◌,
  Bool-cases, ==_refl,
}
use liqui_dos.Common.Bits.{bit_and-low, bit_or-disjoint}
use liqui_dos.Descriptors.{GdtEntry, IdtEntry, set_segment, set_gate, get_gate}

-- The base address that the processor takes from a segment descriptor.
abbrev pub segment_base : GdtEntry → ℕ
segment_base e = e.base_low + e.base_middle * 2 ^ 16 + e.base_high * 2 ^ 24

-- The interrupt gate that is set to a 32-bit address reads back as it, every other gate as before.
pub get_gate-set_gate :
    (idx base sel flags : ℕ) (entries : ℕ → IdtEntry) (j : ℕ)
    → base < 2 ^ 32
    → get_gate j (set_gate idx base sel flags entries)
      ≡ (if j == idx then base else get_gate j entries)
unfolding get_gate set_gate
get_gate-set_gate idx base sel flags entries j h = elim (Bool-cases (j == idx)) [
  | inl here ↦
      let high : base / 2 ^ 16 % 2 ^ 16 * 2 ^ 16 % 2 ^ 32 ≡ base / 2 ^ 16 * 2 ^ 16 = omega arith in
      rw (here, high)
        (bit_or-disjoint 16 (base / 2 ^ 16) (base % 2 ^ 16) (omega arith) ∙ omega arith)
  | inr elsewhere ↦ rw elsewhere refl
]

-- The segment descriptor that is set for a 32-bit base has the base address, the access byte and
-- the low 16 bits of the limit, and every other descriptor is as before.
pub set_segment_lem :
    (idx base limit access gran : ℕ) (entries : ℕ → GdtEntry)
    → base < 2 ^ 32
    → (segment_base (set_segment idx base limit access gran entries idx) ≡ base)
      × ((set_segment idx base limit access gran entries idx).access ≡ access)
      × ((set_segment idx base limit access gran entries idx).limit_low ≡ limit % 2 ^ 16)
      × ((j : ℕ) → j ≢ idx → set_segment idx base limit access gran entries j ≡ entries j)
unfolding set_segment
set_segment_lem idx base limit access gran entries h = rw (==_refl idx) (
  omega (arith, bit_and-low 16 base, bit_and-low 8 (base / 2 ^ 16), bit_and-low 8 (base / 2 ^ 24)),
  refl,
  bit_and-low 16 limit,
  λ j ne. let other : (j == idx) ≡ false = ground arith in rw other refl,
)
