-- ===== src/PmmNode/Free.antt =====
-- PmmNode::free.
use liqui_dos.Common.{
  ℕ, ◌+◌, ◌≤◌, ◌<◌, ◌≡◌, refl, true, false, ap, ◌∙◌, arith, Option, some, List, [], ◌∷◌, length,
  count,
}
use liqui_dos.PmmNode.{
  Arena, Memory, PmmNode, release, is_occupied, free_page, free_loop, free, allocate, Answer,
}
use liqui_dos.PmmNode.Invariant.{is_page, IsPmmNode, is_occupied-release, release_ne}
use liqui_dos.PmmNode.Allocate.{pmm, answer, IsAllocated, with_list, allocate-IsAllocated}
use liqui_dos.PmmNode.GiveBack.{owned, free_page_lem}

-- The pages `ps` are back: unoccupied, and no other page has changed.
pub record IsFreed (ps : List ℕ) (arenas : List Arena) (mem : Memory) (arenas' : List Arena)
    (mem' : Memory) : Type 0 where
  pub released : (q : ℕ) → 0 < count q ps → is_occupied (mem' q) ≡ false
  pub untouched : (q : ℕ) → count q ps ≡ 0 → mem' q ≡ mem q
  pub owners : (q : ℕ) → owned q arenas' ≡ owned q arenas
  pub consistent : IsPmmNode (pmm arenas' mem')

-- Distinct pages, each of some arena and occupied.
pub record IsLent (ps : List ℕ) (arenas : List Arena) (mem : Memory) : Type 0 where
  pub distinct : (q : ℕ) → count q ps ≤ 1
  pub in_arena : (q : ℕ) → 0 < count q ps → owned q arenas ≡ true
  pub occupied : (q : ℕ) → 0 < count q ps → is_occupied (mem q) ≡ true

abbrev Freed : List ℕ → ℕ → List Arena → Memory → Type 0
Freed ps ret arenas mem =
    (arenas' : List Arena) × (mem' : Memory) × (free_loop ps ret (pmm arenas mem)
      ≡ (ret + length ps, pmm arenas' mem'))
    × IsFreed ps arenas mem arenas' mem'

IsLent-tail :
    (p : ℕ) (ps : List ℕ) (arenas mid : List Arena) (mem : Memory)
    → ((q : ℕ) → owned q mid ≡ owned q arenas)
    → IsLent (p ∷ ps) arenas mem
    → IsLent ps mid (release p mem)
IsLent-tail p ps arenas mid mem owners lent = record {
  distinct = λ q. omega (arith, lent.distinct q);
  in_arena = λ q k. owners q ∙ lent.in_arena q (omega arith);
  occupied = λ q k. ground (arith, lent.distinct q, lent.occupied q, release_ne p q mem);
}

Freed-cons :
    (p : ℕ) (ps : List ℕ) (ret : ℕ) (arenas mid : List Arena) (mem : Memory)
    → free_page p (pmm arenas mem) ≡ some (pmm mid (release p mem))
    → ((q : ℕ) → owned q mid ≡ owned q arenas)
    → Freed ps (ret + 1) mid (release p mem)
    → Freed (p ∷ ps) ret arenas mem
unfolding free_loop
Freed-cons p ps ret arenas mid mem done owners (arenas', mem', runs, rest) = (
  arenas',
  mem',
  rw (done, runs) (ap (λ n. let r : ℕ × PmmNode = (n, pmm arenas' mem') in r) (omega arith)),
  record {
    released = λ q k. ground (arith, rest.released q, rest.untouched q, is_occupied-release p mem);
    untouched = λ q k. ground (arith, rest.untouched q, release_ne p q mem);
    owners = λ q. rest.owners q ∙ owners q;
    consistent = rest.consistent;
  },
)

free_loop-IsFreed :
    (ps : List ℕ) (ret : ℕ) (arenas : List Arena) (mem : Memory)
    → IsPmmNode (pmm arenas mem)
    → IsLent ps arenas mem
    → Freed ps ret arenas mem
unfolding free_loop
free_loop-IsFreed [] ret arenas mem h lent = (
  arenas,
  mem,
  ap (λ n. let r : ℕ × PmmNode = (n, pmm arenas mem) in r) (omega arith),
  record {
    released = λ q k. absurd (omega arith);
    untouched = λ q k. refl;
    owners = λ q. refl;
    consistent = h;
  },
)
free_loop-IsFreed (p ∷ ps) ret arenas mem h lent =
    let (mid, done, mid_ok, owners) =
      free_page_lem p arenas mem h (lent.in_arena p (ground arith))
        (lent.occupied p (ground arith)) in
    Freed-cons p ps ret arenas mid mem done owners (
      free_loop-IsFreed ps (ret + 1) mid (release p mem) mid_ok
        (IsLent-tail p ps arenas mid mem owners lent))

abbrev pub freed : ℕ → PmmNode → Answer
freed n s = record { ret = n; pages = some []; node = s }

-- Given back pages that are distinct, occupied and each in some arena, the call counts them all,
-- marks each free, changes no other page, stores an empty list and keeps the state consistent.
pub free-IsFreed :
    (p : ℕ) (ps : List ℕ) (arenas : List Arena) (mem : Memory)
    → IsPmmNode (pmm arenas mem)
    → IsLent (p ∷ ps) arenas mem
    → (arenas' : List Arena) × (mem' : Memory) × (free (pmm arenas mem) (p ∷ ps)
        ≡ some (freed (length (p ∷ ps)) (pmm arenas' mem')))
      × IsFreed (p ∷ ps) arenas mem arenas' mem'
unfolding free
free-IsFreed p ps arenas mem h lent =
    let (arenas', mem', runs, ok) = free_loop-IsFreed (p ∷ ps) 0 arenas mem h lent in
    (
      arenas',
      mem',
      rw runs
          (ap (λ n. let r : Option Answer = some (freed n (pmm arenas' mem')) in r) (omega arith)),
      ok,
    )

abbrev pub Restored : ℕ → Arena → List Arena → Memory → List ℕ → PmmNode → Type 0
Restored cnt a tail mem got s' =
    (arenas' : List Arena) × (mem' : Memory) × (free s' got
      ≡ some (freed (length got) (pmm arenas' mem')))
    × IsPmmNode (pmm arenas' mem')
    × ((q : ℕ) → is_occupied (mem' q) ≡ is_occupied (mem q))

owned-first :
    (q : ℕ) (a : Arena) (tail : List Arena) → is_page a q ≡ true → owned q (a ∷ tail) ≡ true
owned-first q a tail e = ground arith

restore :
    (cnt : ℕ) (a a' : Arena) (tail : List Arena) (mem mem' : Memory) (got : List ℕ)
    → 0 < length got
    → IsAllocated cnt a a' mem mem' got
    → ((q : ℕ) → is_page a' q ≡ is_page a q)
    → IsPmmNode (pmm (a' ∷ tail) mem')
    → Restored cnt a tail mem got (pmm (a' ∷ tail) mem')
restore cnt a a' tail mem mem' [] pos ok same h = absurd (omega arith)
restore cnt a a' tail mem mem' (p ∷ ps) pos ok same h =
    let (arenas'', mem'', runs, done) = free-IsFreed p ps (a' ∷ tail) mem' h (record {
      distinct = ok.distinct;
      in_arena = λ q k. owned-first q a' tail (same q ∙ (ok.were_free q k).0);
      occupied = ok.now_occupied;
    }) in
    (
      arenas'',
      mem'',
      runs,
      done.consistent,
      λ q. ground (arith, done.released q, done.untouched q, ok.were_free q, ok.untouched q),
    )

-- Pages that `allocate` hands out can be given back at once: `free` counts every one, and which
-- pages are occupied is as before.
pub free-allocate :
    (cnt : ℕ) (a : Arena) (tail : List Arena) (mem : Memory)
    → IsPmmNode (pmm (a ∷ tail) mem)
    → 0 < cnt
    → 0 < a.free
    → (got : List ℕ) × (s' : PmmNode) × (allocate (pmm (a ∷ tail) mem) cnt ≡ some (answer got s'))
      × Restored cnt a tail mem got s'
free-allocate cnt a tail mem h pos some_free =
    let (got, n, list, mem', runs, ok, h') = allocate-IsAllocated cnt a tail mem h pos some_free in
    (
      got,
      pmm (with_list a n list ∷ tail) mem',
      runs,
      restore cnt a (with_list a n list) tail mem mem' got (omega (arith, ok.number)) ok (λ q. refl)
          h',
    )
