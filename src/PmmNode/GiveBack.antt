-- ===== src/PmmNode/GiveBack.antt =====
-- The loop of PmmNode::free that finds a page's arena.
use liqui_dos.Common.{
  ℕ, ◌+◌, ◌*◌, ◌%◌, ◌^◌, ◌<◌, ◌≡◌, inl, inr, refl, Bool, true, false, ◌||◌, arith, some, List, [],
  ◌∷◌, Bool-cases, All,
}
use liqui_dos.PmmNode.{
  Arena, Memory, inc, release, is_occupied, page_is_in_arena, give_back, free_page, page_struct,
}
use liqui_dos.PmmNode.Invariant.{
  is_page, in_pages, IsArena, Apart, AllApart, IsPmmNode, IsArena-frame, IsArena-release,
  release_ne,
}
use liqui_dos.PmmNode.Allocate.{pmm}

-- Some arena of the list has the page.
abbrev pub owned : ℕ → List Arena → Bool
owned p [] = false
owned p (a ∷ tail) = is_page a p || owned p tail

pub in_arena-eq :
    (p : ℕ) (a : Arena)
    → a.pages + a.size * page_struct < 2 ^ 32
    → page_is_in_arena p a ≡ in_pages a p
unfolding page_is_in_arena
in_arena-eq p a fits =
    let e : (a.pages + a.size * page_struct) % 2 ^ 32 ≡ a.pages + a.size * page_struct =
      omega arith in
    rw e

abbrev pub Both : Arena → Arena → Type 0
Both a b = Apart a b × Apart b a

-- The arenas after `p` is given back.
record IsGiven (p : ℕ) (arenas : List Arena) (mem : Memory) (arenas' : List Arena) : Type 0 where
  consistent : All (IsArena (release p mem)) arenas'
  apart : AllApart arenas'
  placed : (a : Arena) → All (Both a) arenas → All (Both a) arenas'
  owners : (q : ℕ) → owned q arenas' ≡ owned q arenas

not_in_pages :
    (p : ℕ) (a : Arena) (tail : List Arena)
    → All (Both a) tail
    → owned p tail ≡ true
    → in_pages a p ≡ false
not_in_pages p a [] h o = cc
not_in_pages p a (b ∷ tail) (ab, rest) o = ground (arith, ab.1 p, not_in_pages p a tail rest)

frame_release :
    (p : ℕ) (a : Arena) (mem : Memory)
    → in_pages a p ≡ false
    → IsArena mem a
    → IsArena (release p mem) a
frame_release p a mem out h =
    IsArena-frame (λ q e. rw (release_ne p q mem (λ same. ground (arith, same)))) h

frame_release-All :
    (p : ℕ) (a : Arena) (tail : List Arena) (mem : Memory)
    → in_pages a p ≡ true
    → All (Both a) tail
    → All (IsArena mem) tail
    → All (IsArena (release p mem)) tail
frame_release-All p a [] mem here k h = tt
frame_release-All p a (b ∷ tail) mem here (ab, rest) (hb, hs) =
    (frame_release p b mem (ab.0 p here) hb, frame_release-All p a tail mem here rest hs)

page_of_owned :
    (p : ℕ) (a : Arena) (tail : List Arena)
    → All (Both a) tail
    → in_pages a p ≡ true
    → owned p (a ∷ tail) ≡ true
    → is_page a p ≡ true
page_of_owned p a tail k here o = elim (Bool-cases (owned p tail)) [
  | inl later ↦ absurd (ground (arith, not_in_pages p a tail k later))
  | inr gone ↦ ground arith
]

give_back-IsGiven :
    (p : ℕ) (arenas : List Arena) (mem : Memory)
    → All (IsArena mem) arenas
    → AllApart arenas
    → owned p arenas ≡ true
    → is_occupied (mem p) ≡ true
    → (arenas' : List Arena) × (give_back p arenas ≡ some arenas') × IsGiven p arenas mem arenas'
unfolding give_back
give_back-IsGiven p [] mem h apart o busy = cc
give_back-IsGiven p (a ∷ tail) mem (ha, hs) (first, rest) o busy =
    elim (Bool-cases (in_pages a p)) [
      | inl here ↦ (
        record a { free = inc a.free; free_list = p ∷ a.free_list } ∷ tail,
        rw (in_arena-eq p a ha.fits, here),
        record {
          consistent = (
            IsArena-release p ha (page_of_owned p a tail first here o) busy,
            frame_release-All p a tail mem here first hs,
          );
          apart = (first, rest);
          placed = λ b k. k;
          owners = λ q. refl;
        },
      )
      | inr away ↦
          let (arenas', done, given) = give_back-IsGiven p tail mem hs rest (ground arith) busy in
          (
            a ∷ arenas',
            rw (in_arena-eq p a ha.fits, away, done),
            record {
              consistent = (frame_release p a mem away ha, given.consistent);
              apart = (given.placed a first, given.apart);
              placed = λ b k. (k.0, given.placed b k.1);
              owners = λ q. rw (given.owners q);
            },
          )
    ]

pub free_page_lem :
    (p : ℕ) (arenas : List Arena) (mem : Memory)
    → IsPmmNode (pmm arenas mem)
    → owned p arenas ≡ true
    → is_occupied (mem p) ≡ true
    → (arenas' : List Arena) × (free_page p (pmm arenas mem) ≡ some (pmm arenas' (release p mem)))
      × IsPmmNode (pmm arenas' (release p mem))
      × ((q : ℕ) → owned q arenas' ≡ owned q arenas)
unfolding free_page
free_page_lem p arenas mem h o busy =
    let (arenas', done, given) = give_back-IsGiven p arenas mem h.arenas h.apart o busy in
    (arenas', rw done, record { arenas = given.consistent; apart = given.apart }, given.owners)
