-- ===== src/PmmNode/Allocate.antt =====
-- PmmNode::allocate: what the loop over one arena takes, and what the call hands out.
use liqui_dos.Common.{
  ℕ, zero, suc, ◌+◌, ◌-◌, ◌≤◌, ◌<◌, ◌≡◌, inl, inr, refl, true, false, ◌∙◌, arith, none, some, List,
  [], ◌∷◌, ltb, ◌==◌, Bool-cases, ==_refl, length, count, All,
}
use Prim.Native.Nat.{min}
use liqui_dos.PmmNode.{
  Arena, Memory, PmmNode, dec, occupy, is_occupied, Taken, take_pages, alloc_arenas, hand_out,
  allocate, Answer,
}
use liqui_dos.PmmNode.Invariant.{
  is_page, IsArena, Apart, IsPmmNode, IsArena-frame, IsArena-occupy, occupy_ne,
}

abbrev pub with_list : Arena → ℕ → List ℕ → Arena
with_list a n list = record a { free = n; free_list = list }

-- What the loop leaves, from the arena with free list `list` and the pages `got` so far.
pub record IsTaken (left : ℕ) (a : Arena) (list : List ℕ) (mem : Memory) (got : List ℕ) (t : Taken)
    : Type 0 where
  pub arena : IsArena t.memory (with_list a t.free t.free_list)
  pub kept : (p : ℕ) → count p t.got + count p t.free_list ≡ count p got + count p list
  pub number : length t.got ≡ length got + min left (length list)
  pub stopped : t.stop ≡ ltb (length list) left
  pub untouched : (p : ℕ) → count p t.got ≡ count p got → t.memory p ≡ mem p
  pub grows : (p : ℕ) → count p got ≤ count p t.got
  pub elsewhere : (p : ℕ) → is_page a p ≡ false → t.memory p ≡ mem p

take_pages-IsTaken :
    (left : ℕ) (a : Arena) (free : ℕ) (list : List ℕ) (mem : Memory) (got : List ℕ)
    → IsArena mem (with_list a free list)
    → IsTaken left a list mem got (take_pages left free list mem got)
unfolding take_pages
take_pages-IsTaken zero a free list mem got h = record {
  arena = h;
  kept = λ p. refl;
  number = omega arith;
  stopped = ground arith;
  untouched = λ p e. refl;
  grows = λ p. omega arith;
  elsewhere = λ p e. refl;
}
take_pages-IsTaken (suc left) a free [] mem got h = record {
  arena = h;
  kept = λ p. refl;
  number = omega arith;
  stopped = ground arith;
  untouched = λ p e. refl;
  grows = λ p. omega arith;
  elsewhere = λ p e. refl;
}
take_pages-IsTaken (suc left) a free (p ∷ list) mem got h =
    let more : (free == 0) ≡ false = ground (arith, h.counted) in
    let page : is_page a p ≡ true = ground (arith, h.tracked p) in
    let idle : is_occupied (mem p) ≡ false = ground (arith, h.tracked p) in
    let next : IsArena (occupy p mem) (with_list a (dec free) list) =
      rw (==_refl p) at (IsArena-occupy p h page idle) in
    let rest = take_pages-IsTaken left a (dec free) list (occupy p mem) (p ∷ got) next in
    rw more (record {
      arena = rest.arena;
      kept = λ q. omega (arith, rest.kept q);
      number = omega (arith, rest.number);
      stopped = ground (arith, rest.stopped);
      untouched =
          λ q e. ground (arith, rest.untouched q, rest.grows q, rest.kept q, occupy_ne p q mem);
      grows = λ q. omega (arith, rest.grows q);
      elsewhere = λ q e. ground (arith, rest.elsewhere q, occupy_ne p q mem);
    })

-- Once enough pages are taken the loop over the arenas has no effect.
alloc_arenas-done :
    (cnt : ℕ) (tail : List Arena) (mem : Memory) (got : List ℕ)
    → cnt - length got ≡ 0
    → alloc_arenas cnt tail mem got ≡ record { arenas = tail; memory = mem; got = got }
unfolding alloc_arenas take_pages
alloc_arenas-done cnt [] mem got e = refl
alloc_arenas-done cnt (a ∷ tail) mem got e = rw (e, alloc_arenas-done cnt tail mem got e)

-- Whatever it takes, it takes from the first arena.
alloc_arenas-first :
    (cnt : ℕ) (a : Arena) (tail : List Arena) (mem : Memory)
    → IsArena mem a
    → alloc_arenas cnt (a ∷ tail) mem [] ≡ (
        let t = take_pages cnt a.free a.free_list mem [] in
        record { arenas = with_list a t.free t.free_list ∷ tail; memory = t.memory; got = t.got })
unfolding alloc_arenas
alloc_arenas-first cnt a tail mem h =
    let taken = take_pages-IsTaken cnt a a.free a.free_list mem [] h in
    let whole : cnt - 0 ≡ cnt = omega arith in
    rw whole (elim (Bool-cases (take_pages cnt a.free a.free_list mem []).stop) [
      | inl dry ↦ rw dry
      | inr full ↦
          let enough : cnt - length (take_pages cnt a.free a.free_list mem []).got ≡ 0 =
            ground (arith, taken.number, taken.stopped) in
          rw (full, alloc_arenas-done cnt tail _ _ enough)
    ])

abbrev pub pmm : List Arena → Memory → PmmNode
pmm arenas mem = record { arena_list = arenas; memory = mem }

abbrev pub answer : List ℕ → PmmNode → Answer
answer got s = record { ret = length got; pages = some got; node = s }

-- The pages `got` are taken from arena `a`, which becomes `a'`, in the memory `mem'`.
pub record IsAllocated (cnt : ℕ) (a a' : Arena) (mem mem' : Memory) (got : List ℕ) : Type 0 where
  pub number : length got ≡ min cnt a.free
  pub distinct : (p : ℕ) → count p got ≤ 1
  pub were_free : (p : ℕ) → 0 < count p got → (is_page a p ≡ true) × (is_occupied (mem p) ≡ false)
  pub now_occupied : (p : ℕ) → 0 < count p got → is_occupied (mem' p) ≡ true
  pub untouched : (p : ℕ) → count p got ≡ 0 → mem' p ≡ mem p
  pub unlinked : (p : ℕ) → count p a'.free_list + count p got ≡ count p a.free_list

taken-IsAllocated :
    (cnt : ℕ) (a : Arena) (mem : Memory) (t : Taken)
    → IsArena mem a
    → IsTaken cnt a a.free_list mem [] t
    → IsAllocated cnt a (with_list a t.free t.free_list) mem t.memory t.got
taken-IsAllocated cnt a mem t h k = record {
  number = omega (arith, k.number, h.counted);
  distinct = λ p. ground (arith, k.kept p, h.tracked p);
  were_free = λ p g. (ground (arith, k.kept p, h.tracked p), ground (arith, k.kept p, h.tracked p));
  now_occupied = λ p g. ground (arith, k.kept p, h.tracked p, k.arena.tracked p);
  untouched = λ p g. k.untouched p g;
  unlinked = λ p. omega (arith, k.kept p);
}

-- Arenas apart from `a` do not see a change at its pages.
pub All-IsArena-frame :
    (a : Arena) (tail : List Arena) (mem mem' : Memory)
    → ((p : ℕ) → is_page a p ≡ false → mem' p ≡ mem p)
    → All (λ b. Apart a b × Apart b a) tail
    → All (IsArena mem) tail
    → All (IsArena mem') tail
All-IsArena-frame a [] mem mem' same apart h = tt
All-IsArena-frame a (b ∷ tail) mem mem' same (ab, rest) (hb, hs) = (
  IsArena-frame (λ p e. rw (same p (ground (arith, ab.1 p)))) hb,
  All-IsArena-frame a tail mem mem' same rest hs,
)

pub hand_out-some :
    (arenas : List Arena) (mem : Memory) (got : List ℕ)
    → 0 < length got
    → hand_out (record { arenas = arenas; memory = mem; got = got })
      ≡ some (answer got (pmm arenas mem))
unfolding hand_out
hand_out-some arenas mem [] h = absurd (omega arith)
hand_out-some arenas mem (p ∷ ps) h = refl

hand_out-none :
    (arenas : List Arena) (mem : Memory) (got : List ℕ)
    → length got ≡ 0
    → hand_out (record { arenas = arenas; memory = mem; got = got }) ≡ none
unfolding hand_out
hand_out-none arenas mem [] h = refl
hand_out-none arenas mem (p ∷ ps) h = absurd (omega arith)

module _ (cnt : ℕ) (a : Arena) (tail : List Arena) (mem : Memory)
    (h : IsPmmNode (pmm (a ∷ tail) mem)) (pos : 0 < cnt) where
  first_taken : Taken
  first_taken = take_pages cnt a.free a.free_list mem []

  first_IsTaken : IsTaken cnt a a.free_list mem [] first_taken
  unfolding first_taken
  first_IsTaken = take_pages-IsTaken cnt a a.free a.free_list mem [] (h.arenas).0

  abbrev first_after : Arena
  first_after = with_list a (first_taken).free (first_taken).free_list

  first_kept : IsPmmNode (pmm (first_after ∷ tail) (first_taken).memory)
  first_kept = record {
    arenas = (
      first_IsTaken.arena,
      All-IsArena-frame a tail mem (first_taken).memory first_IsTaken.elsewhere (h.apart).0
          (h.arenas).1,
    );
    apart = h.apart;
  }

  allocate-walk :
      allocate (pmm (a ∷ tail) mem) cnt
      ≡ hand_out (record {
        arenas = first_after ∷ tail;
        memory = (first_taken).memory;
        got = (first_taken).got;
      })
  unfolding allocate first_taken
  allocate-walk =
      let more : (cnt == 0) ≡ false = ground arith in
      rw (more, alloc_arenas-first cnt a tail mem (h.arenas).0)

  -- With `cnt` above 0, all pages come from the first arena of the list: as many as are asked for
  -- or as it has free, each unoccupied before, marked occupied and unlinked now, and the state
  -- stays consistent. Later arenas are not touched, also where the first has too few pages.
  pub allocate-IsAllocated :
      0 < a.free
      → (got : List ℕ) × (n : ℕ) × (list : List ℕ) × (mem' : Memory) × (allocate
            (pmm (a ∷ tail) mem)
            cnt
          ≡ some (answer got (pmm (with_list a n list ∷ tail) mem')))
        × IsAllocated cnt a (with_list a n list) mem mem' got
        × IsPmmNode (pmm (with_list a n list ∷ tail) mem')
  allocate-IsAllocated some_free = (
    (first_taken).got,
    (first_taken).free,
    (first_taken).free_list,
    (first_taken).memory,
    allocate-walk ∙ hand_out-some _ _ _ (omega (arith, first_IsTaken.number, (h.arenas).0.counted)),
    taken-IsAllocated cnt a mem first_taken (h.arenas).0 first_IsTaken,
    first_kept,
  )

  -- Where the first arena has no free page, the call writes through NULL, whatever the others have.
  pub allocate-dry : a.free ≡ 0 → allocate (pmm (a ∷ tail) mem) cnt ≡ none
  allocate-dry dry =
      allocate-walk
      ∙ hand_out-none _ _ _ (omega (arith, first_IsTaken.number, (h.arenas).0.counted))
