-- ===== src/PmmNode/Init.antt =====
-- PmmNode::add_arena.
pub mod Prepared
use mathlib.Core.Option
use liqui_dos.Common.{
  ℕ, zero, suc, ◌+◌, ◌-◌, ◌*◌, ◌/◌, ◌%◌, ◌^◌, Bool, ◌&&◌, Option, none, some, List, [], ◌∷◌, ltb,
  leb, if◌then◌else◌, erase,
}
use liqui_dos.Bitmap.{Words, is_set}
use liqui_dos.PmmNode.{Arena, Memory, PmmNode, page_size, page_struct, page_at, inc, dec, occupy}

-- `memset(arena->pages, 0, arena->size*sizeof(page_t))`
unfoldable pub clear_pages : Arena → Memory → Memory
clear_pages a mem p =
    if leb a.pages p && ltb p (a.pages + a.size * page_struct)
    then record { flags = 0; ref = 0 }
    else mem p

-- Each page is linked behind the one before it, from page `i` on.
unfoldable pub link_pages : ℕ → ℕ → Arena → ℕ → List ℕ × ℕ
link_pages zero i a free = ([], free)
link_pages (suc left) i a free =
    let (list, total) = link_pages left (i + 1) a (inc free) in (page_at a i ∷ list, total)

-- The loop through the bitmap at index `i`, with `size - i` rounds left.
unfoldable pub mark_occupied : Words → ℕ → ℕ → Arena × Memory → Arena × Memory
mark_occupied bt zero i (a, mem) = (a, mem)
mark_occupied bt (suc left) i (a, mem) =
    let pg = page_at a i in
    mark_occupied bt left (i + 1) (
      if is_set bt i
      then (record a { free = dec a.free; free_list = erase pg a.free_list }, occupy pg mem)
      else (a, mem))

-- `<` of ints.
abbrev pub int_less : ℕ → ℕ → Bool
int_less x y = ltb ((x + 2 ^ 31) % 2 ^ 32) ((y + 2 ^ 31) % 2 ^ 32)

-- Before the first arena of a higher priority value, and at the head if there is none.
unfoldable pub insert_before : Arena → List Arena → Option (List Arena)
insert_before a [] = none
insert_before a (b ∷ bs) =
    if int_less a.priority b.priority
    then some (a ∷ b ∷ bs)
    else Option.map (λ rest. b ∷ rest) (insert_before a bs)

unfoldable pub insert_arena : Arena → List Arena → List Arena
unfolding insert_before
insert_arena a tail = elim (insert_before a tail) [ none ↦ a ∷ tail | some bs ↦ bs ]

-- The arena with its page array prepared, and the memory.
unfoldable pub prepare : Arena → Option Words → Memory → Arena × Memory
unfolding clear_pages link_pages mark_occupied
prepare a bt mem =
    let (list, total) = link_pages a.size 0 a 0 in
    let ready : Arena × Memory = (record a { free = total; free_list = list }, clear_pages a mem) in
    elim bt [
      | none ↦ ready
      | some bits ↦ mark_occupied bits (a.size - a.base / page_size) (a.base / page_size) ready
    ]

-- `none` is the null arena, which is logged and skipped.
unfoldable pub add_arena : PmmNode → Option Arena → Option Words → PmmNode
unfolding insert_arena prepare
add_arena s none bt = s
add_arena s (some a) bt =
    let (a', mem) = prepare a bt s.memory in
    record { arena_list = insert_arena a' s.arena_list; memory = mem }
