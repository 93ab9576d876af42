-- ===== src/PmmNode/Init/Prepared.antt =====
-- What PmmNode::add_arena makes of an arena and of the arena list.
use liqui_dos.Common.{
  ℕ, zero, suc, ◌+◌, ◌-◌, ◌*◌, ◌/◌, ◌%◌, ◌^◌, ◌≤◌, ◌<◌, ◌≡◌, ◌≢◌, inl, inr, refl, true, false, ◌&&◌,
  ◌∙◌, arith, none, some, List, [], ◌∷◌, ltb, leb, ◌==◌, Bool-cases, length, count, erase, All,
}
use native.Mathlib.Decide.{dec_lt}
use liqui_dos.Bitmap.{Words, is_set}
use liqui_dos.PmmNode.{
  Arena, Memory, is_occupied, occupy, page_at, inc, dec, page_size, page_struct,
}
use liqui_dos.PmmNode.Invariant.{
  is_page, in_pages, one_if, IsArena, IsPmmNode, IsArena-occupy, is_occupied-occupy, occupy_ne,
}
use liqui_dos.PmmNode.Allocate.{with_list, pmm}
use liqui_dos.PmmNode.Init.{
  clear_pages, link_pages, mark_occupied, insert_before, int_less, insert_arena, prepare, add_arena,
}

link_count :
    (left i : ℕ) (a : Arena) (free p : ℕ)
    → count p (link_pages left i a free).0
      ≡ one_if (leb (page_at a i) p && (ltb p (page_at a (i + left)) && ((p - a.pages) % 16 == 0)))
unfolding link_pages
link_count zero i a free p = ground arith
link_count (suc left) i a free p = ground (arith, link_count left (i + 1) a (inc free) p)

link_total :
    (left i : ℕ) (a : Arena) (free : ℕ)
    → free + left < 2 ^ 32
    → ((link_pages left i a free).1 ≡ free + left) × (length (link_pages left i a free).0 ≡ left)
unfolding link_pages
link_total zero i a free l = (omega arith, refl)
link_total (suc left) i a free l =
    let rest = link_total left (i + 1) a (inc free) (omega arith) in
    (omega (arith, rest.0), omega (arith, rest.1))

abbrev linked : Arena → Arena
linked a = record a { free = (link_pages a.size 0 a 0).1; free_list = (link_pages a.size 0 a 0).0 }

unoccupied_zero :
    (a : Arena) (mem : Memory) (p : ℕ)
    → is_page a p ≡ true
    → is_occupied (clear_pages a mem p) ≡ false
unfolding clear_pages is_occupied
unoccupied_zero a mem p e = ground arith

cleared_ne : (a : Arena) (mem : Memory) (p : ℕ) → in_pages a p ≡ false → clear_pages a mem p ≡ mem p
unfolding clear_pages
cleared_ne a mem p e = rw e

linked-IsArena :
    (a : Arena) (mem : Memory)
    → a.pages + a.size * page_struct < 2 ^ 32
    → IsArena (clear_pages a mem) (linked a)
linked-IsArena a mem fits = record {
  tracked = λ p. ground (arith, link_count a.size 0 a 0 p, unoccupied_zero a mem p);
  counted = let t = link_total a.size 0 a 0 (omega arith) in omega (arith, t.0, t.1);
  fits = fits;
}

-- After the bitmap loop from index `i` on, over the arena `a`.
record IsMarked (bt : Words) (left i : ℕ) (a : Arena) (mem : Memory) (r : Arena × Memory)
    : Type 0 where
  n : ℕ
  list : List ℕ
  same : r.0 ≡ with_list a n list
  arena : IsArena r.1 (with_list a n list)
  marked : (j : ℕ) → i ≤ j → j < i + left → is_occupied (r.1 (page_at a j)) ≡ is_set bt j
  below : (j : ℕ) → j < i → r.1 (page_at a j) ≡ mem (page_at a j)
  elsewhere : (p : ℕ) → is_page a p ≡ false → r.1 p ≡ mem p

page_at-is_page : (a : Arena) (j : ℕ) → j < a.size → is_page a (page_at a j) ≡ true
page_at-is_page a j l = ground arith

abbrev Idle : Memory → Arena → ℕ → ℕ → Type 0
Idle mem a i n = (j : ℕ) → i ≤ j → j < n → is_occupied (mem (page_at a j)) ≡ false

mark_occupied-IsMarked :
    (bt : Words) (left i : ℕ) (a : Arena) (free : ℕ) (list : List ℕ) (mem : Memory)
    → i + left ≤ a.size
    → Idle mem a i (i + left)
    → IsArena mem (with_list a free list)
    → IsMarked bt left i a mem (mark_occupied bt left i (with_list a free list, mem))
unfolding mark_occupied
mark_occupied-IsMarked bt zero i a free list mem l idle h = record {
  n = free;
  list = list;
  same = refl;
  arena = h;
  marked = λ j p q. absurd (omega arith);
  below = λ j p. refl;
  elsewhere = λ p e. refl;
}
mark_occupied-IsMarked bt (suc left) i a free list mem l idle h = elim (Bool-cases (is_set bt i)) [
  | inl set_bit ↦
      let pg : ℕ = page_at a i in
      let busy =
        IsArena-occupy pg h (page_at-is_page a i (omega arith))
          (idle i (omega arith) (omega arith)) in
      let away : (j : ℕ) → j ≢ i → occupy pg mem (page_at a j) ≡ mem (page_at a j) =
        λ j ne. occupy_ne pg (page_at a j) mem (λ e. absurd (omega arith)) in
      let rest =
        mark_occupied-IsMarked bt left (i + 1) a (dec free) (erase pg list) (occupy pg mem)
          (omega arith)
          (λ j p q. rw (away j (λ e. omega arith)) (idle j (omega arith) (omega arith))) busy in
      rw set_bit (record {
        n = rest.n;
        list = rest.list;
        same = rest.same;
        arena = rest.arena;
        marked = λ j p q. elim (dec_lt i j) [
          | yes later ↦ rest.marked j (omega arith) (omega arith)
          | no first ↦
              let e : j ≡ i = omega arith in
              rw (e, rest.below i (omega arith), set_bit) (is_occupied-occupy pg mem)
        ];
        below = λ j p. rest.below j (omega arith) ∙ away j (λ e. omega arith);
        elsewhere = λ p e.
            rest.elsewhere p e
            ∙ occupy_ne pg p mem (λ same.
              let t : is_page a p ≡ true = rw same (page_at-is_page a i (omega arith)) in cc);
      })
  | inr clear_bit ↦
      let rest =
        mark_occupied-IsMarked bt left (i + 1) a free list mem (omega arith)
          (λ j p q. idle j (omega arith) (omega arith)) h in
      rw clear_bit (record {
        n = rest.n;
        list = rest.list;
        same = rest.same;
        arena = rest.arena;
        marked = λ j p q. elim (dec_lt i j) [
          | yes later ↦ rest.marked j (omega arith) (omega arith)
          | no first ↦
              let e : j ≡ i = omega arith in
              rw (e, rest.below i (omega arith), clear_bit) (idle i (omega arith) (omega arith))
        ];
        below = λ j p. rest.below j (omega arith);
        elsewhere = λ p e. rest.elsewhere p e;
      })
]

-- The arena as `add_arena` links it: its free list holds the pages whose bit is clear, each once,
-- and a page is occupied exactly if its bit is set.
pub record IsPrepared (a : Arena) (bt : Words) (mem : Memory) (r : Arena × Memory) : Type 0 where
  pub n : ℕ
  pub list : List ℕ
  pub same : r.0 ≡ with_list a n list
  pub consistent : IsArena r.1 (with_list a n list)
  pub marked : (j : ℕ) → j < a.size → is_occupied (r.1 (page_at a j)) ≡ is_set bt j
  pub elsewhere : (p : ℕ) → is_page a p ≡ false → in_pages a p ≡ false → r.1 p ≡ mem p

prepare-IsPrepared :
    (a : Arena) (bt : Words) (mem : Memory)
    → a.pages + a.size * page_struct < 2 ^ 32
    → a.base ≡ 0
    → IsPrepared a bt mem (prepare a (some bt) mem)
unfolding prepare
prepare-IsPrepared a bt mem fits zero_base =
    let m =
      mark_occupied-IsMarked bt a.size 0 a (linked a).free (linked a).free_list (clear_pages a mem)
        (omega arith)
        (λ j p q. unoccupied_zero a mem (page_at a j) (page_at-is_page a j (omega arith)))
        (linked-IsArena a mem fits) in
    let start : a.base / page_size ≡ 0 = omega arith in
    let rounds : a.size - 0 ≡ a.size = omega arith in
    rw (start, rounds)
      (record {
        n = m.n;
        list = m.list;
        same = m.same;
        consistent = m.arena;
        marked = λ j l. m.marked j (omega arith) (omega arith);
        elsewhere = λ p e out. m.elsewhere p e ∙ cleared_ne a mem p out;
      })

-- Into an empty arena list, `add_arena` with a bitmap puts the arena and leaves a consistent state:
-- page `j` is occupied exactly if bit `j` is set, and the free list holds the others, each once.
pub add_arena-IsPrepared :
    (a : Arena) (bt : Words) (mem : Memory)
    → a.pages + a.size * page_struct < 2 ^ 32
    → a.base ≡ 0
    → (r : Arena × Memory) × (add_arena (pmm [] mem) (some a) (some bt) ≡ pmm (r.0 ∷ []) r.1)
      × IsPrepared a bt mem r
      × IsPmmNode (pmm (r.0 ∷ []) r.1)
unfolding add_arena
add_arena-IsPrepared a bt mem fits zero_base =
    let ready = prepare-IsPrepared a bt mem fits zero_base in
    (
      prepare a (some bt) mem,
      refl,
      ready,
      record { arenas = (rw ready.same ready.consistent, tt); apart = (tt, tt) },
    )

insert_before-max :
    (a : Arena) (tail : List Arena)
    → All (λ b. int_less a.priority b.priority ≡ false) tail
    → insert_before a tail ≡ none
unfolding insert_before
insert_before-max a [] h = refl
insert_before-max a (b ∷ tail) h = rw (h.0, insert_before-max a tail h.1)

-- An arena whose priority value is the highest goes to the head of the list, where `allocate`
-- takes its pages first.
pub insert_arena-max :
    (a : Arena) (tail : List Arena)
    → All (λ b. int_less a.priority b.priority ≡ false) tail
    → insert_arena a tail ≡ a ∷ tail
unfolding insert_arena
insert_arena-max a tail h = rw (insert_before-max a tail h, insert_arena)
