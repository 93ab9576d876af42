-- ===== src/Loader/Segment.antt =====
-- The mapping of a segment in loader/x86/loader.cc.
use liqui_dos.Common.{
  ℕ, zero, suc, ◌+◌, ◌*◌, ◌/◌, ◌%◌, ◌^◌, ◌≤◌, ◌<◌, ◌≡◌, refl, sym, true, ap, ◌∙◌, arith, Option,
  none, some, List, [], ◌∷◌, ◌++◌, ◌==◌, ==_refl, length, get_elem?,
}
use mathlib.Core.List.{append-nil, append_assoc}
use liqui_dos.Paging.{page_size}
use liqui_dos.Paging.Laws.{page_align_lem}
use liqui_dos.Elf.{Phdr}
use liqui_dos.Loader.{Machine, map_pages, load_segment, segment_flags, segment_size}

abbrev pub Calls : Type 0
Calls = List (ℕ × ℕ × ℕ)

-- A memory that lists the calls of `map`.
abbrev pub recorder : Machine Calls
recorder = record {
  map = λ v p flags calls. some (calls ++ (v, p, flags) ∷ []);
  alloc_page = λ calls. none;
  memset = λ a c n calls. none;
  memcpy = λ d s n calls. none;
}

-- The calls that map `n` pages from `v` on to those from `p` on.
record AreMapped (n v p flags : ℕ) (calls : Calls) : Type 0 where
  count : length calls ≡ n
  each :
      (i : ℕ)
      → i < n
      → get_elem? calls i ≡ some ((v + i * page_size) % 2 ^ 32, p + i * page_size, flags)

call_eq :
    (flags : ℕ) {a b c d : ℕ}
    → a ≡ b
    → c ≡ d
    → ◌≡◌ {A = Option (ℕ × ℕ × ℕ)} (some (a, c, flags)) (some (b, d, flags))
call_eq flags p q = λ i. some (p i, q i, flags)

each_next :
    (n v p flags : ℕ) (calls : Calls)
    → AreMapped n (v + page_size) (p + page_size) flags calls
    → (i : ℕ) → i < suc n
    → get_elem? ((v % 2 ^ 32, p, flags) ∷ calls) i
      ≡ some ((v + i * page_size) % 2 ^ 32, p + i * page_size, flags)
each_next n v p flags calls h zero l = call_eq flags (omega arith) (omega arith)
each_next n v p flags calls h (suc i) l =
    h.each i (omega arith) ∙ call_eq flags (omega arith) (omega arith)

map_pages-AreMapped :
    (n v p flags : ℕ) (before : Calls)
    → (calls : Calls) × (map_pages recorder n v p flags before ≡ some (before ++ calls))
      × AreMapped n v p flags calls
unfolding map_pages
map_pages-AreMapped zero v p flags before = (
  [],
  ap (λ c. some c) (sym (append-nil before)),
  record { count = refl; each = λ i l. absurd (omega arith) },
)
map_pages-AreMapped (suc n) v p flags before =
    let call : ℕ × ℕ × ℕ = (v % 2 ^ 32, p, flags) in
    let (calls, e, h) =
      map_pages-AreMapped n (v + page_size) (p + page_size) flags (before ++ call ∷ []) in
    (
      call ∷ calls,
      e ∙ ap (λ c. some c) (append_assoc before (call ∷ []) calls),
      record { count = ap suc h.count; each = each_next n v p flags calls h },
    )

-- A segment that is as long in the file as in memory, of at most 2 ^ 32 - 4096 bytes, is mapped
-- page by page: page `i` of its addresses to page `i` of the image from its offset on, with the
-- segment's flags. The pages hold the segment, and the last one is needed.
pub load_segment-AreMapped :
    (img : ℕ) (ph : Phdr) (before : Calls)
    → ph.p_filesz ≡ ph.p_memsz
    → ph.p_memsz + 4095 < 2 ^ 32
    → (calls : Calls) × (load_segment recorder img ph before ≡ some (before ++ calls))
      × ((i : ℕ)
          → i < length calls
          → get_elem? calls i
            ≡ some (
              (ph.p_vaddr + i * page_size) % 2 ^ 32,
              ph.p_offset + img + i * page_size,
              segment_flags ph,
            ))
      × (ph.p_memsz ≤ length calls * page_size)
      × (length calls * page_size < ph.p_memsz + page_size)
unfolding load_segment
load_segment-AreMapped img ph before same fits =
    let n : ℕ = segment_size ph / page_size in
    let (calls, e, h) =
      map_pages-AreMapped n ph.p_vaddr (ph.p_offset + img) (segment_flags ph) before in
    let (whole, above, below) = page_align_lem 32 ph.p_memsz (omega arith) fits in
    let equal : (ph.p_filesz == ph.p_memsz) ≡ true = rw same (==_refl ph.p_memsz) in
    (
      calls,
      rw equal e,
      (λ i l. h.each i (omega (arith, h.count))),
      omega (arith, h.count, whole, above),
      omega (arith, h.count, whole, below),
    )
