-- ===== src/PmmNode/Invariant.antt =====
-- The state of PmmNode is consistent: each arena's free list holds exactly its unoccupied pages.
use liqui_dos.Common.{
  ℕ, zero, suc, ◌+◌, ◌-◌, ◌*◌, ◌%◌, ◌^◌, ◌≤◌, ◌<◌, ◌≡◌, ◌≢◌, Bool, true, false, not, ◌&&◌, arith,
  List, [], ◌∷◌, ltb, leb, ◌==◌, length, All, count, erase, count-erase_self, count-erase_ne,
  length-erase, length-erase_none,
}
use native.Mathlib.Decide.{dec_lt}
use liqui_dos.Common.Bits.{bit_or_step, bit_and_step, bit_and-low}
use liqui_dos.PmmNode.{
  Arena, Page, Memory, PmmNode, page_struct, inc, dec, occupy, release, is_occupied,
}

-- `p` is the address of one of the arena's page structures.
abbrev pub is_page : Arena → ℕ → Bool
is_page a p =
    leb a.pages p && (ltb p (a.pages + a.size * page_struct) && ((p - a.pages) % page_struct == 0))

abbrev pub one_if : Bool → ℕ
one_if true = 1
one_if false = 0

pub record IsArena (mem : Memory) (a : Arena) : Type 0 where
  pub tracked : (p : ℕ) → count p a.free_list ≡ one_if (is_page a p && not (is_occupied (mem p)))
  pub counted : a.free ≡ length a.free_list
  pub fits : a.pages + a.size * page_struct < 2 ^ 32

-- `p` lies in the arena's page array.
abbrev pub in_pages : Arena → ℕ → Bool
in_pages a p = leb a.pages p && ltb p (a.pages + a.size * page_struct)

-- The page arrays do not overlap.
abbrev pub Apart : Arena → Arena → Type 0
Apart a b = (p : ℕ) → in_pages a p ≡ true → in_pages b p ≡ false

abbrev pub AllApart : List Arena → Type 0
AllApart [] = Unit
AllApart (a ∷ tail) = All (λ b. Apart a b × Apart b a) tail × AllApart tail

pub record IsPmmNode (s : PmmNode) : Type 0 where
  pub arenas : All (IsArena s.memory) s.arena_list
  pub apart : AllApart s.arena_list

occupied_odd : (p : Page) → is_occupied p ≡ (p.flags % 2 == 1)
unfolding is_occupied
occupied_odd p = ground (arith, bit_and-low 1 p.flags)

pub is_occupied-occupy : (p : ℕ) (mem : Memory) → is_occupied (occupy p mem p) ≡ true
unfolding occupy
is_occupied-occupy p mem =
    ground (arith, occupied_odd (occupy p mem p), bit_or_step (mem p).flags 1)

pub is_occupied-release : (p : ℕ) (mem : Memory) → is_occupied (release p mem p) ≡ false
unfolding release
is_occupied-release p mem =
    ground (arith, occupied_odd (release p mem p), bit_and_step (mem p).flags (2 ^ 32 - 1 - 1))

pub occupy_ne : (p q : ℕ) (mem : Memory) → q ≢ p → occupy p mem q ≡ mem q
unfolding occupy
occupy_ne p q mem ne = ground arith

pub release_ne : (p q : ℕ) (mem : Memory) → q ≢ p → release p mem q ≡ mem q
unfolding release
release_ne p q mem ne = ground arith

-- A memory that differs only at pages of other arenas keeps an arena consistent.
pub IsArena-frame :
    {mem mem' : Memory} {a : Arena}
    → ((p : ℕ) → is_page a p ≡ true → is_occupied (mem' p) ≡ is_occupied (mem p))
    → IsArena mem a
    → IsArena mem' a
IsArena-frame {mem} {mem'} {a} same h = record {
  tracked = λ p. ground (arith, same p, h.tracked p);
  counted = h.counted;
  fits = h.fits;
}

-- As many distinct page structures as the list is long.
pigeonhole :
    (n base : ℕ) (xs : List ℕ)
    → ((p : ℕ) → count p xs ≤ 1)
    → ((p : ℕ) → 0 < count p xs → (base ≤ p) × (p < base + n * 16) × ((p - base) % 16 ≡ 0))
    → length xs ≤ n
pigeonhole zero base [] once pages = omega arith
pigeonhole zero base (x ∷ xs) once pages =
    let x_page = pages x (ground arith) in absurd (omega (arith, x_page.0, x_page.1))
pigeonhole (suc n) base xs once pages =
    let last : ℕ = base + n * 16 in
    let fewer =
      pigeonhole n base (erase last xs)
        (λ p. ground (arith, once p, count-erase_self last xs, count-erase_ne last p xs))
        (λ p h.
          ground (arith, pages p, count-erase_self last xs, count-erase_ne last p xs, once last)) in
    elim (dec_lt 0 (count last xs)) [
      | yes there ↦ omega (arith, fewer, length-erase last xs there)
      | no gone ↦ omega (arith, fewer, length-erase_none last xs (omega arith))
    ]

length-le-size_of_tracked :
    (mem : Memory) (a : Arena) (xs : List ℕ)
    → ((p : ℕ) → count p xs ≡ one_if (is_page a p && not (is_occupied (mem p))))
    → length xs ≤ a.size
length-le-size_of_tracked mem a xs tracked =
    pigeonhole a.size a.pages xs (λ p. ground (arith, tracked p)) (λ p h. ground (arith, tracked p))

pub length-le-size : {mem : Memory} {a : Arena} → IsArena mem a → length a.free_list ≤ a.size
length-le-size {mem} {a} h = length-le-size_of_tracked mem a a.free_list h.tracked

module _ {mem : Memory} {a : Arena} (p : ℕ) (h : IsArena mem a) (free : is_page a p ≡ true) where
  -- An unoccupied page that is unlinked and marked.
  pub IsArena-occupy :
      is_occupied (mem p) ≡ false
      → IsArena (occupy p mem) (record a { free = dec a.free; free_list = erase p a.free_list })
  IsArena-occupy idle = record {
    tracked = λ q. ground (
      arith,
      h.tracked q,
      count-erase_self p a.free_list,
      count-erase_ne p q a.free_list,
      is_occupied-occupy p mem,
      occupy_ne p q mem,
    );
    counted = omega (
      arith,
      h.counted,
      length-erase p a.free_list (ground (arith, h.tracked p)),
      length-le-size h,
      h.fits,
    );
    fits = h.fits;
  }

  -- An occupied page that is marked free and linked at the head.
  pub IsArena-release :
      is_occupied (mem p) ≡ true
      → IsArena (release p mem) (record a { free = inc a.free; free_list = p ∷ a.free_list })
  IsArena-release busy = record {
    tracked = after;
    counted =
        omega (arith, h.counted, h.fits, length-le-size_of_tracked _ _ (p ∷ a.free_list) after);
    fits = h.fits;
  }
    where
      after :
          (q : ℕ)
          → count q (p ∷ a.free_list) ≡ one_if (is_page a q && not (is_occupied (release p mem q)))
      after q = ground (arith, h.tracked q, is_occupied-release p mem, release_ne p q mem)
