-- ===== src/PmmNode.antt =====
-- core/mm/pmm_node.cc: the page allocator over arenas (class PmmNode), with the types of
-- include/core/memory.h. A `page_t*` is its address, and all page structures lie in one memory.
-- An intrusive list is the list of its nodes' addresses, head first (LinkedList relates the two).
pub mod Init
pub mod Invariant
pub mod Allocate
pub mod GiveBack
pub mod Free
pub mod Address
pub mod Scan
pub mod Contiguous
use Prim.Native.Nat.{bit_and, bit_or}
use mathlib.Core.Option
use liqui_dos.Common.{
  ℕ, zero, suc, ◌+◌, ◌-◌, ◌*◌, ◌/◌, ◌%◌, ◌^◌, Bool, true, false, not, ◌&&◌, ◌||◌, Option, none,
  some, List, [], ◌∷◌, ltb, leb, ◌==◌, if◌then◌else◌, erase, length, get_elem?, set,
}
use liqui_dos.Bitmap.{Words, is_set}

-- The links of the node are in the lists that hold the page.
pub record Page : Type 0 where
  pub flags : ℕ
  pub ref : ℕ

-- The links of the node are in `arena_list`.
pub record Arena : Type 0 where
  pub flags : ℕ
  pub base : ℕ
  pub size : ℕ
  pub free : ℕ
  pub priority : ℕ
  pub pages : ℕ
  pub free_list : List ℕ

abbrev pub Memory : Type 0
Memory = ℕ → Page

pub record PmmNode : Type 0 where
  pub arena_list : List Arena
  pub memory : Memory

abbrev pub page_size : ℕ
page_size = 4096

-- `sizeof(page_t)`: two pointers and two `uint32_t`.
abbrev pub page_struct : ℕ
page_struct = 16

-- `size_t` increments and decrements.
abbrev pub inc : ℕ → ℕ
inc n = (n + 1) % 2 ^ 32

abbrev pub dec : ℕ → ℕ
dec n = (n + 2 ^ 32 - 1) % 2 ^ 32

-- `CHECK_MFLG(flags, CX_PAGE_OCCUPIED)`
unfoldable pub is_occupied : Page → Bool
is_occupied p = not (bit_and p.flags 1 == 0)

abbrev pub write_page : Memory → ℕ → Page → Memory
write_page mem a p b = if b == a then p else mem b

-- `pg->flags |= CX_PAGE_OCCUPIED`
unfoldable pub occupy : ℕ → Memory → Memory
occupy a mem = write_page mem a (record (mem a) { flags = bit_or (mem a).flags 1 })

-- `pg->flags &= ~CX_PAGE_OCCUPIED`
unfoldable pub release : ℕ → Memory → Memory
release a mem = write_page mem a (record (mem a) { flags = bit_and (mem a).flags (2 ^ 32 - 1 - 1) })

-- PAGE_IS_IN_ARENA
unfoldable pub page_is_in_arena : ℕ → Arena → Bool
page_is_in_arena p a = leb a.pages p && ltb p ((a.pages + a.size * page_struct) % 2 ^ 32)

-- ADDRESS_FROM_ARENA
unfoldable pub address_from_arena : ℕ → Arena → ℕ
address_from_arena p a = (a.base + (p - a.pages) / page_struct * page_size) % 2 ^ 64

-- `&arena->pages[i]`
abbrev pub page_at : Arena → ℕ → ℕ
page_at a i = a.pages + i * page_struct

unfoldable pub to_physical : List Arena → ℕ → ℕ
to_physical [] page = 0
to_physical (a ∷ tail) page =
    if page_is_in_arena page a then address_from_arena page a else to_physical tail page

unfoldable pub page_to_physical : PmmNode → ℕ → ℕ
unfolding to_physical
page_to_physical s page = to_physical s.arena_list page

-- What one arena's `while(ret < cnt)` loop leaves; `stop` is the jump to `end`.
pub record Taken : Type 0 where
  pub free : ℕ
  pub free_list : List ℕ
  pub memory : Memory
  pub got : List ℕ
  pub stop : Bool

-- The loop with `cnt - ret` rounds left. A removed node keeps its `prev`, which is never itself,
-- so the source's second test never jumps.
unfoldable pub take_pages : ℕ → ℕ → List ℕ → Memory → List ℕ → Taken
take_pages zero free list mem got = record {
  free = free;
  free_list = list;
  memory = mem;
  got = got;
  stop = false;
}
take_pages (suc left) free [] mem got = record {
  free = free;
  free_list = [];
  memory = mem;
  got = got;
  stop = true;
}
take_pages (suc left) free (p ∷ list) mem got =
    let rest = take_pages left (dec free) list (occupy p mem) (p ∷ got) in
    if free == 0
    then record { free = free; free_list = p ∷ list; memory = mem; got = got; stop = true }
    else rest

pub record Walk : Type 0 where
  pub arenas : List Arena
  pub memory : Memory
  pub got : List ℕ

-- The loop over the arenas.
unfoldable pub alloc_arenas : ℕ → List Arena → Memory → List ℕ → Walk
unfolding take_pages
alloc_arenas cnt [] mem got = record { arenas = []; memory = mem; got = got }
alloc_arenas cnt (a ∷ tail) mem got =
    let t = take_pages (cnt - length got) a.free a.free_list mem got in
    let a' = record a { free = t.free; free_list = t.free_list } in
    let rest = alloc_arenas cnt tail t.memory t.got in
    if t.stop
    then record { arenas = a' ∷ tail; memory = t.memory; got = t.got }
    else record { arenas = a' ∷ rest.arenas; memory = rest.memory; got = rest.got }

-- `pages` is what is stored through the argument, `none` where nothing is.
pub record Answer : Type 0 where
  pub ret : ℕ
  pub pages : Option (List ℕ)
  pub node : PmmNode

-- `*pages = head.next; (*pages) -> prev = *pages;`, a write through NULL if nothing was taken.
unfoldable pub hand_out : Walk → Option Answer
hand_out w = elim w.got [
  | [] ↦ none
  | p ∷ ps ↦ some (record {
    ret = length w.got;
    pages = some w.got;
    node = record { arena_list = w.arenas; memory = w.memory };
  })
]

abbrev pub no_pages : PmmNode → Answer
no_pages s = record { ret = 0; pages = none; node = s }

-- `none` is the write through NULL.
unfoldable pub allocate : PmmNode → ℕ → Option Answer
unfolding alloc_arenas hand_out
allocate s cnt =
    if cnt == 0 then some (no_pages s) else hand_out (alloc_arenas cnt s.arena_list s.memory [])

unfoldable pub allocate_single : PmmNode → Option Answer
unfolding allocate
allocate_single s = allocate s 1

-- The best run so far; `farena` is the arena's place in `arena_list`.
pub record Best : Type 0 where
  pub r1 : ℕ
  pub idx : ℕ
  pub farena : Option ℕ

abbrev pub better : ℕ → ℕ → ℕ → ℕ → Best → Best
better cnt k i r2 best =
    if leb r2 best.r1 && leb cnt r2 then record { r1 = r2; idx = i - 1; farena = some k } else best

-- The loop over the pages at page `i` of arena `k`; the second part is the jump to `done`.
unfoldable pub scan_run : ℕ → Memory → ℕ → Arena → ℕ → ℕ → ℕ → Best → Best × Bool
scan_run cnt mem k a zero i r2 best = (best, false)
scan_run cnt mem k a (suc left) i r2 best =
    let longer = scan_run cnt mem k a left (i + 1) (r2 + 1) best in
    let again = scan_run cnt mem k a left (i + 1) 0 (better cnt k i r2 best) in
    if not (is_occupied (mem (page_at a i))) && ltb r2 cnt
    then longer
    else (if r2 == cnt then (better cnt k i r2 best, true) else again)

-- `(int) arena->size`, as the number of rounds of `i < (int) arena->size`.
abbrev pub int_rounds : ℕ → ℕ
int_rounds n = if ltb n (2 ^ 31) then n else 0

unfoldable pub search_arenas : ℕ → Memory → ℕ → List Arena → Best → Best
unfolding scan_run
search_arenas cnt mem k [] best = best
search_arenas cnt mem k (a ∷ tail) best =
    let (found, done) = scan_run cnt mem k a (int_rounds a.size) 0 0 best in
    let rest = search_arenas cnt mem (k + 1) tail found in if done then found else rest

-- The run's pages from `idx - i` down, with `r1 - i` rounds left.
pub record Run : Type 0 where
  pub arena : Arena
  pub memory : Memory
  pub got : List ℕ

unfoldable pub take_run : ℕ → ℕ → ℕ → Run → Run
take_run zero idx i r = r
take_run (suc left) idx i r =
    let pg = page_at r.arena (idx - i) in
    take_run left idx (i + 1) (record {
      arena = record (r.arena) {
        free = dec (r.arena).free;
        free_list = erase pg (r.arena).free_list;
      };
      memory = occupy pg r.memory;
      got = pg ∷ r.got;
    })

unfoldable pub hand_out_run : PmmNode → ℕ → Best → Option ℕ → Option Answer
unfolding take_run hand_out
hand_out_run s cnt best none = some (no_pages s)
hand_out_run s cnt best (some k) = elim (get_elem? s.arena_list k) [
  | none ↦ none
  | some a ↦
      let r = take_run best.r1 best.idx 0 (record { arena = a; memory = s.memory; got = [] }) in
      hand_out (record { arenas = set s.arena_list k r.arena; memory = r.memory; got = r.got })
]

unfoldable pub allocate_contiguous : PmmNode → ℕ → Option Answer
unfolding search_arenas hand_out_run
allocate_contiguous s cnt =
    let best =
      search_arenas cnt s.memory 0 s.arena_list
        (record { r1 = 0x7FFFFFFF; idx = 0; farena = none }) in
    if cnt == 0
    then some (no_pages s)
    else (if best.r1 == cnt then hand_out_run s cnt best best.farena else some (no_pages s))

-- The loop over the arenas in `free`: the first that has the page takes it back.
unfoldable pub give_back : ℕ → List Arena → Option (List Arena)
give_back p [] = none
give_back p (a ∷ tail) =
    if page_is_in_arena p a
    then some (record a { free = inc a.free; free_list = p ∷ a.free_list } ∷ tail)
    else Option.map (λ rest. a ∷ rest) (give_back p tail)

unfoldable pub free_page : ℕ → PmmNode → Option PmmNode
unfolding give_back
free_page p s =
    Option.map (λ tail. record { arena_list = tail; memory = release p s.memory })
      (give_back p s.arena_list)

-- A page of no arena is dropped from the list and not counted.
unfoldable pub free_loop : List ℕ → ℕ → PmmNode → ℕ × PmmNode
unfolding free_page
free_loop [] ret s = (ret, s)
free_loop (p ∷ ps) ret s = elim (free_page p s) [
  | none ↦ free_loop ps ret s
  | some s' ↦ free_loop ps (ret + 1) s'
]

-- `none` is the write through a NULL list.
unfoldable pub free : PmmNode → List ℕ → Option Answer
unfolding free_loop
free s [] = none
free s (p ∷ ps) =
    let (ret, s') = free_loop (p ∷ ps) 0 s in
    some (record { ret = ret; pages = some []; node = s' })
