-- ===== src/Paging/Laws.antt =====
-- The page macros as arithmetic.
use liqui_dos.Common.{ℕ, ◌+◌, ◌-◌, ◌*◌, ◌/◌, ◌%◌, ◌^◌, ◌≤◌, ◌<◌, ◌≡◌, ◌∙◌, arith}
use Prim.Native.Nat.{bit_and, bit_or}
use native.Mathlib.Nat.{mod-eq_of_lt}
use liqui_dos.Common.Bits.{bit_and_high, bit_and-low, bit_or-disjoint}
use liqui_dos.Paging.{
  page_size, page_align, page_align_down, get_virt, get_pd_idx, get_pt_idx, pae_get_virt,
  pae_get_pdpt_idx, pae_get_pd_idx, pae_get_pt_idx,
}

-- Aligning down drops the offset in the page.
pub page_align_down_lem : (w a : ℕ) → 12 ≤ w → a < 2 ^ w → page_align_down w a ≡ a - a % page_size
unfolding page_align_down
page_align_down_lem w a h l = bit_and_high w 12 a h l

-- Aligning up gives the least multiple of the page size that is not below the address, where the
-- rounded address fits the width.
pub page_align_lem :
    (w a : ℕ)
    → 12 ≤ w
    → a + 4095 < 2 ^ w
    → (page_align w a % page_size ≡ 0) × (a ≤ page_align w a) × (page_align w a < a + page_size)
unfolding page_align
page_align_lem w a h l =
    let fits : (a + 4095) % 2 ^ w ≡ a + 4095 = mod-eq_of_lt l in
    let down : bit_and ((a + 4095) % 2 ^ w) (2 ^ w - 1 - (2 ^ 12 - 1))
        ≡ (a + 4095) - (a + 4095) % 4096 =
      rw fits (bit_and_high w 12 (a + 4095) h l) in
    (omega (arith, down), omega (arith, down), omega (arith, down))

pub get_pd_idx_lem : (a : ℕ) → get_pd_idx a ≡ a / 2 ^ 22 % 1024
unfolding get_pd_idx
get_pd_idx_lem a = bit_and-low 10 (a / 2 ^ 22)

pub get_pt_idx_lem : (a : ℕ) → get_pt_idx a ≡ a / 2 ^ 12 % 1024
unfolding get_pt_idx
get_pt_idx_lem a = bit_and-low 10 (a / 2 ^ 12)

pub get_virt_lem : (pd pt : ℕ) → pd < 1024 → pt < 1024 → get_virt pd pt ≡ pd * 2 ^ 22 + pt * 2 ^ 12
unfolding get_virt
get_virt_lem pd pt h k =
    let high : pd * 2 ^ 22 % 2 ^ 32 ≡ pd * 2 ^ 22 = omega arith in
    let low : pt * 2 ^ 12 % 2 ^ 32 ≡ pt * 2 ^ 12 = omega arith in
    rw (high, low) (bit_or-disjoint 22 pd (pt * 2 ^ 12) (omega arith))

-- The two indices of an address make the address of its page, and the address made of two indices
-- has these indices.
pub get_virt-get_idx :
    (a pd pt : ℕ)
    → a < 2 ^ 32
    → pd < 1024
    → pt < 1024
    → (get_virt (get_pd_idx a) (get_pt_idx a) ≡ page_align_down 32 a)
      × (get_pd_idx (get_virt pd pt) ≡ pd)
      × (get_pt_idx (get_virt pd pt) ≡ pt)
get_virt-get_idx a pd pt h p q = (
  omega (
    arith,
    get_pd_idx_lem a,
    get_pt_idx_lem a,
    page_align_down_lem 32 a (omega arith) h,
    get_virt_lem (get_pd_idx a) (get_pt_idx a) (omega (arith, get_pd_idx_lem a))
        (omega (arith, get_pt_idx_lem a)),
  ),
  omega (arith, get_virt_lem pd pt p q, get_pd_idx_lem (get_virt pd pt)),
  omega (arith, get_virt_lem pd pt p q, get_pt_idx_lem (get_virt pd pt)),
)

pub pae_idx_lem :
    (a : ℕ)
    → a < 2 ^ 32
    → (pae_get_pdpt_idx a ≡ a / 2 ^ 30)
      × (pae_get_pd_idx a ≡ a / 2 ^ 21 % 512)
      × (pae_get_pt_idx a ≡ a / 2 ^ 12 % 512)
unfolding pae_get_pdpt_idx pae_get_pd_idx pae_get_pt_idx
pae_idx_lem a h = (
  omega (arith, bit_and-low 2 (a / 2 ^ 30)),
  bit_and-low 9 (a / 2 ^ 21),
  bit_and-low 9 (a / 2 ^ 12),
)

pub pae_get_virt_lem :
    (pp pd pt : ℕ)
    → pp < 4
    → pd < 512
    → pt < 512
    → pae_get_virt pp pd pt ≡ pp * 2 ^ 30 + pd * 2 ^ 21 + pt * 2 ^ 12
unfolding pae_get_virt
pae_get_virt_lem pp pd pt h k l =
    let top : pp * 2 ^ 30 % 2 ^ 32 ≡ pp * 2 ^ 30 = omega arith in
    let mid : pd * 2 ^ 21 % 2 ^ 32 ≡ pd * 2 ^ 21 = omega arith in
    let low : pt * 2 ^ 12 % 2 ^ 32 ≡ pt * 2 ^ 12 = omega arith in
    let upper : bit_or (pp * 2 ^ 30) (pd * 2 ^ 21) ≡ (pp * 512 + pd) * 2 ^ 21 =
      bit_or-disjoint 30 pp (pd * 2 ^ 21) (omega arith) ∙ omega arith in
    rw (top, mid, low, upper)
      (bit_or-disjoint 21 (pp * 512 + pd) (pt * 2 ^ 12) (omega arith) ∙ omega arith)

-- The three indices of an address under PAE make the address of its page.
pub pae_get_virt-get_idx :
    (a : ℕ)
    → a < 2 ^ 32
    → pae_get_virt (pae_get_pdpt_idx a) (pae_get_pd_idx a) (pae_get_pt_idx a) ≡ page_align_down 32 a
pae_get_virt-get_idx a h =
    let (pp, pd, pt) = pae_idx_lem a h in
    omega (
      arith,
      pp,
      pd,
      pt,
      page_align_down_lem 32 a (omega arith) h,
      pae_get_virt_lem (pae_get_pdpt_idx a) (pae_get_pd_idx a) (pae_get_pt_idx a)
          (omega (arith, pp)) (omega (arith, pd)) (omega (arith, pt)),
    )
