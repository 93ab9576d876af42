-- ===== src/PmmNode/Address.antt =====
-- PmmNode::page_to_physical.
use liqui_dos.Common.{
  ℕ, zero, suc, ◌+◌, ◌-◌, ◌*◌, ◌/◌, ◌^◌, ◌<◌, ◌≡◌, true, false, ap, ◌∙◌, arith, some, List, [], ◌∷◌,
  get_elem?, some_inj, All,
}
use mathlib.Core.Path.{subst}
use liqui_dos.PmmNode.{
  Arena, Memory, page_is_in_arena, address_from_arena, to_physical, page_to_physical, page_at,
  page_size, page_struct,
}
use liqui_dos.PmmNode.Invariant.{in_pages, IsPmmNode}
use liqui_dos.PmmNode.Allocate.{pmm}
use liqui_dos.PmmNode.GiveBack.{Both, in_arena-eq}

page_at-in_pages : (a : Arena) (i : ℕ) → i < a.size → in_pages a (page_at a i) ≡ true
page_at-in_pages a i l = ground arith

address-page_at :
    (a : Arena) (i : ℕ)
    → a.base + i * page_size < 2 ^ 64
    → address_from_arena (page_at a i) a ≡ a.base + i * page_size
unfolding address_from_arena
address-page_at a i fits =
    let place : (a.pages + i * 16 - a.pages) / 16 ≡ i = omega arith in
    omega (arith, ap (λ n. n * page_size) place)

All-get {ℓ} :
    (P : Arena → Type ℓ) (arenas : List Arena) (k : ℕ) (a : Arena)
    → All P arenas
    → get_elem? arenas k ≡ some a
    → P a
All-get P [] k a h at = cc
All-get P (b ∷ tail) zero a h at = subst P (some_inj at) h.0
All-get P (b ∷ tail) (suc k) a h at = All-get P tail k a h.1 at

-- `page_to_physical` of page `i` of an arena is the arena's base and `i` pages.
pub page_to_physical-page_at :
    (arenas : List Arena) (mem : Memory) (k i : ℕ) (a : Arena)
    → IsPmmNode (pmm arenas mem)
    → get_elem? arenas k ≡ some a
    → i < a.size
    → a.base + i * page_size < 2 ^ 64
    → page_to_physical (pmm arenas mem) (page_at a i) ≡ a.base + i * page_size
unfolding page_to_physical to_physical
page_to_physical-page_at [] mem k i a h at l fits = cc
page_to_physical-page_at (b ∷ tail) mem zero i a h at l fits =
    let same : b ≡ a = some_inj at in
    let here : page_is_in_arena (page_at a i) a ≡ true =
      in_arena-eq (page_at a i) a
        (subst (λ c. c.pages + c.size * page_struct < 2 ^ 32) same (h.arenas).0.fits)
      ∙ page_at-in_pages a i l in
    rw (same, here) (address-page_at a i fits)
page_to_physical-page_at (b ∷ tail) mem (suc k) i a h at l fits =
    let both : Both b a = All-get (Both b) tail k a (h.apart).0 at in
    let away : page_is_in_arena (page_at a i) b ≡ false =
      in_arena-eq (page_at a i) b (h.arenas).0.fits
      ∙ both.1 (page_at a i) (page_at-in_pages a i l) in
    rw away (
      page_to_physical-page_at tail mem k i a
        (record { arenas = (h.arenas).1; apart = (h.apart).1 }) at l fits)
