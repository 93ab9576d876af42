-- ===== src/PmmNode/Contiguous.antt =====
-- PmmNode::allocate_contiguous.
use liqui_dos.Common.{
  ℕ, zero, suc, ◌+◌, ◌-◌, ◌≤◌, ◌<◌, ◌≡◌, ◌⊎◌, inl, inr, refl, true, false, ap, ◌∙◌, arith, Option,
  none, some, List, [], ◌∷◌, ◌++◌, ◌==◌, if◌then◌else◌, Bool-cases, ==_refl, length, get_elem?, set,
  some_inj, erase, All,
}
use native.Mathlib.Decide.{dec_lt}
use mathlib.Core.Path.{subst}
use mathlib.Core.List.{append-nil}
use liqui_dos.PmmNode.{
  Arena, Memory, Answer, no_pages, is_occupied, occupy, dec, page_at, Best, int_rounds,
  search_arenas, Run, take_run, hand_out, hand_out_run, allocate_contiguous,
}
use liqui_dos.PmmNode.Invariant.{
  is_page, IsArena, Apart, AllApart, IsPmmNode, IsArena-frame, IsArena-occupy, is_occupied-occupy,
  occupy_ne,
}
use liqui_dos.PmmNode.Allocate.{pmm, answer, with_list, hand_out-some}
use liqui_dos.PmmNode.GiveBack.{Both}
use liqui_dos.PmmNode.Scan.{is_idle, IsRun, NoRun, found, Searched, search_arenas-Searched}

-- The `n` pages of the arena from page `i` on, in ascending order.
abbrev pub pages_from : Arena → ℕ → ℕ → List ℕ
pages_from a i zero = []
pages_from a i (suc n) = page_at a i ∷ pages_from a (i + 1) n

pages_from-snoc :
    (a : Arena) (i n : ℕ) (got : List ℕ)
    → pages_from a i n ++ page_at a (i + n) ∷ got ≡ pages_from a i (suc n) ++ got
pages_from-snoc a i zero got = let e : i + 0 ≡ i = omega arith in rw e
pages_from-snoc a i (suc n) got =
    let e : i + suc n ≡ i + 1 + n = omega arith in
    rw e (ap (λ l. page_at a i ∷ l) (pages_from-snoc a (i + 1) n got))

taken_step :
    (idx i left : ℕ) (a : Arena) (got : List ℕ)
    → i + suc left ≤ idx + 1
    → pages_from a (idx + 1 - (i + 1 + left)) left ++ page_at a (idx - i) ∷ got
      ≡ pages_from a (idx + 1 - (i + suc left)) (suc left) ++ got
taken_step idx i left a got starts =
    let first : idx + 1 - (i + 1 + left) ≡ idx + 1 - (i + suc left) = omega arith in
    let last : idx - i ≡ idx + 1 - (i + suc left) + left = omega arith in
    rw (first, last) (pages_from-snoc a (idx + 1 - (i + suc left)) left got)

length-pages_from : (a : Arena) (i n : ℕ) → length (pages_from a i n) ≡ n
length-pages_from a i zero = refl
length-pages_from a i (suc n) = ap suc (length-pages_from a (i + 1) n)

-- `take_run` with its three parts as results.
record IsTakenRun (left idx i : ℕ) (a : Arena) (mem : Memory) (got : List ℕ) (r : Run)
    : Type 0 where
  n : ℕ
  list : List ℕ
  same : r.arena ≡ with_list a n list
  arena : IsArena r.memory (with_list a n list)
  taken : r.got ≡ pages_from a (idx + 1 - (i + left)) left ++ got
  elsewhere : (p : ℕ) → is_page a p ≡ false → r.memory p ≡ mem p
  occupied : (m : ℕ) → i ≤ m → m < i + left → is_occupied (r.memory (page_at a (idx - m))) ≡ true
  stays : (p : ℕ) → is_occupied (mem p) ≡ true → is_occupied (r.memory p) ≡ true

page_at-is_page : (a : Arena) (j : ℕ) → j < a.size → is_page a (page_at a j) ≡ true
page_at-is_page a j l = ground arith

stays_occupy :
    (p q : ℕ) (mem : Memory) → is_occupied (mem q) ≡ true → is_occupied (occupy p mem q) ≡ true
stays_occupy p q mem busy = elim (Bool-cases (q == p)) [
  | inl same ↦ let e : q ≡ p = ground arith in rw e (is_occupied-occupy p mem)
  | inr other ↦ rw (occupy_ne p q mem (ground arith)) busy
]

take_run-IsTakenRun :
    (left idx i : ℕ) (a : Arena) (free : ℕ) (list : List ℕ) (mem : Memory) (got : List ℕ)
    → i + left ≤ idx + 1
    → idx < a.size
    → ((m : ℕ) → i ≤ m → m < i + left → is_idle mem a (idx - m) ≡ true)
    → IsArena mem (with_list a free list)
    → IsTakenRun left idx i a mem got
        (take_run left idx i (record { arena = with_list a free list; memory = mem; got = got }))
unfolding take_run
take_run-IsTakenRun zero idx i a free list mem got starts ends idle h = record {
  n = free;
  list = list;
  same = refl;
  arena = h;
  taken = refl;
  elsewhere = λ p e. refl;
  occupied = λ m l u. absurd (omega arith);
  stays = λ p busy. busy;
}
take_run-IsTakenRun (suc left) idx i a free list mem got starts ends idle h =
    let pg : ℕ = page_at a (idx - i) in
    let page : is_page a pg ≡ true = page_at-is_page a (idx - i) (omega arith) in
    let free_now : is_occupied (mem pg) ≡ false = ground (arith, idle i) in
    let next = IsArena-occupy pg h page free_now in
    let rest =
      take_run-IsTakenRun left idx (i + 1) a (dec free) (erase pg list) (occupy pg mem) (pg ∷ got)
        (omega arith) ends
        (λ m l u.
          rw (occupy_ne pg (page_at a (idx - m)) mem (λ e. absurd (omega arith)))
            (idle m (omega arith) (omega arith)))
        next in
    record {
      n = rest.n;
      list = rest.list;
      same = rest.same;
      arena = rest.arena;
      taken = rest.taken ∙ taken_step idx i left a got starts;
      elsewhere = λ p e. rest.elsewhere p e ∙ occupy_ne pg p mem (λ same. ground (arith, same));
      occupied = λ m l u. elim (dec_lt i m) [
        | yes later ↦ rest.occupied m (omega arith) (omega arith)
        | no first ↦ let e : m ≡ i = omega arith in rw e (rest.stays pg (is_occupied-occupy pg mem))
      ];
      stays = λ p busy. rest.stays p (stays_occupy pg p mem busy);
    }

-- The arenas with the one at place `k` replaced by itself with another free list.
record IsReplaced (a : Arena) (arenas : List Arena) (mem' : Memory) (arenas' : List Arena)
    : Type 0 where
  consistent : All (IsArena mem') arenas'
  apart : AllApart arenas'
  placed : (b : Arena) → All (Both b) arenas → All (Both b) arenas'

module _ (a : Arena) (n : ℕ) (list : List ℕ) (mem mem' : Memory)
    (h : IsArena mem' (with_list a n list))
    (same : (p : ℕ) → is_page a p ≡ false → mem' p ≡ mem p) where
  frame_one : (b : Arena) → Apart a b → IsArena mem b → IsArena mem' b
  frame_one b apart hb =
      IsArena-frame
        (λ p e. rw (
          same p (elim (Bool-cases (is_page a p)) [
            | inl there ↦ absurd (ground (arith, apart p))
            | inr away ↦ away
          ])))
        hb

  frame-All :
      (tail : List Arena) → All (Both a) tail → All (IsArena mem) tail → All (IsArena mem') tail
  frame-All [] k hs = tt
  frame-All (b ∷ tail) (ab, rest) (hb, hs) = (frame_one b ab.0 hb, frame-All tail rest hs)

  get-Both :
      (b : Arena) (tail : List Arena) (k : ℕ)
      → All (Both b) tail
      → get_elem? tail k ≡ some a
      → Both b a
  get-Both b [] k hs at = cc
  get-Both b (c ∷ tail) zero hs at = subst (Both b) (some_inj at) hs.0
  get-Both b (c ∷ tail) (suc k) hs at = get-Both b tail k hs.1 at

  set-IsReplaced :
      (arenas : List Arena) (k : ℕ)
      → get_elem? arenas k ≡ some a
      → All (IsArena mem) arenas
      → AllApart arenas
      → IsReplaced a arenas mem' (set arenas k (with_list a n list))
  set-IsReplaced [] k at hs apart = cc
  set-IsReplaced (b ∷ tail) zero at (hb, hs) (first, rest) =
      let is : b ≡ a = some_inj at in
      let first' : All (Both a) tail = subst (λ c. All (Both c) tail) is first in
      record {
        consistent = (h, frame-All tail first' hs);
        apart = (first', rest);
        placed = λ c k. (subst (Both c) is k.0, k.1);
      }
  set-IsReplaced (b ∷ tail) (suc k) at (hb, hs) (first, rest) =
      let ih = set-IsReplaced tail k at hs rest in
      record {
        consistent = (frame_one b (get-Both b tail k first at).1 hb, ih.consistent);
        apart = (ih.placed b first, ih.apart);
        placed = λ c l. (l.0, ih.placed c l.1);
      }

whole_run :
    (cnt idx : ℕ) (a : Arena)
    → pages_from a (idx + 1 - (0 + cnt)) cnt ++ [] ≡ pages_from a (idx + 1 - cnt) cnt
whole_run cnt idx a = let e : 0 + cnt ≡ cnt = omega arith in append-nil _ ∙ rw e

-- The run of `cnt` pages up to page `idx` of the arena at place `k` is handed out.
pub record IsRunTaken (cnt : ℕ) (arenas : List Arena) (mem : Memory) (r : Option Answer)
    : Type 0 where
  pub k : ℕ
  pub idx : ℕ
  pub arena : Arena
  pub place : get_elem? arenas k ≡ some arena
  pub run : IsRun cnt mem arena idx
  pub n : ℕ
  pub list : List ℕ
  pub memory : Memory
  pub returns :
      r
      ≡ some (
          answer
            (pages_from arena (idx + 1 - cnt) cnt)
            (pmm (set arenas k (with_list arena n list)) memory))
  pub occupied : (m : ℕ) → m < cnt → is_occupied (memory (page_at arena (idx - m))) ≡ true
  pub consistent : IsPmmNode (pmm (set arenas k (with_list arena n list)) memory)

abbrev no_best : Best
no_best = record { r1 = 0x7FFFFFFF; idx = 0; farena = none }

-- Either no arena has a run and nothing is changed, or a run is handed out.
abbrev pub Outcome : ℕ → List Arena → Memory → Option Answer → Type 0
Outcome cnt arenas mem r =
    ((r ≡ some (no_pages (pmm arenas mem)))
      × All (λ a. NoRun cnt mem a 0 (int_rounds a.size)) arenas)
    ⊎ IsRunTaken cnt arenas mem r

module _ (cnt : ℕ) (arenas : List Arena) (mem : Memory) (h : IsPmmNode (pmm arenas mem))
    (pos : 0 < cnt) where
  run_returns :
      (k idx : ℕ) (a : Arena) (r : Run) (t : IsTakenRun cnt idx 0 a mem [] r)
      → hand_out (record { arenas = set arenas k r.arena; memory = r.memory; got = r.got })
        ≡ some (
            answer
              (pages_from a (idx + 1 - cnt) cnt)
              (pmm (set arenas k (with_list a t.n t.list)) r.memory))
  run_returns k idx a r t =
      rw (t.same, t.taken ∙ whole_run cnt idx a)
        (hand_out-some _ _ _ (omega (arith, length-pages_from a (idx + 1 - cnt) cnt)))

  hand_out_run-IsRunTaken :
      (k idx : ℕ) (a : Arena)
      → get_elem? arenas k ≡ some a
      → IsArena mem a
      → IsRun cnt mem a idx
      → IsRunTaken cnt arenas mem (hand_out_run (pmm arenas mem) cnt (found cnt idx k) (some k))
  unfolding hand_out_run
  hand_out_run-IsRunTaken k idx a at ha run =
      let taken =
        take_run-IsTakenRun cnt idx 0 a a.free a.free_list mem [] (omega (arith, run.starts))
          (ground (arith, run.ends)) (λ m l u. run.idle m (omega arith)) ha in
      let replaced =
        set-IsReplaced a taken.n taken.list mem _ taken.arena taken.elsewhere arenas k at h.arenas
          h.apart in
      record {
        k = k;
        idx = idx;
        arena = a;
        place = at;
        run = run;
        n = taken.n;
        list = taken.list;
        memory = (take_run cnt idx 0 (record { arena = a; memory = mem; got = [] })).memory;
        returns = rw at (
            run_returns k idx a (take_run cnt idx 0 (record { arena = a; memory = mem; got = [] }))
              taken);
        occupied = λ m l. taken.occupied m (omega arith) (omega arith);
        consistent = record { arenas = replaced.consistent; apart = replaced.apart };
      }

  get-IsArena :
      (list : List Arena) (k : ℕ) (a : Arena)
      → All (IsArena mem) list
      → get_elem? list k ≡ some a
      → IsArena mem a
  get-IsArena [] k a hs at = cc
  get-IsArena (b ∷ tail) zero a hs at = subst (IsArena mem) (some_inj at) hs.0
  get-IsArena (b ∷ tail) (suc k) a hs at = get-IsArena tail k a hs.1 at

  abbrev pick : Best → Option Answer
  pick best =
      if best.r1 == cnt
      then hand_out_run (pmm arenas mem) cnt best best.farena
      else some (no_pages (pmm arenas mem))

  allocate_contiguous-pick :
      allocate_contiguous (pmm arenas mem) cnt ≡ pick (search_arenas cnt mem 0 arenas no_best)
  unfolding allocate_contiguous
  allocate_contiguous-pick = let more : (cnt == 0) ≡ false = ground arith in rw more

  pick_none : pick no_best ≡ some (no_pages (pmm arenas mem))
  unfolding hand_out_run
  pick_none = elim (Bool-cases (0x7FFFFFFF == cnt)) [ inl e ↦ rw e | inr e ↦ rw e ]

  pick-Outcome :
      (best : Best) → Searched cnt mem 0 arenas no_best best → Outcome cnt arenas mem (pick best)
  pick-Outcome best (inl (same, nowhere)) = inl (ap pick same ∙ pick_none, nowhere)
  pick-Outcome best (inr (k, idx, a, is, at, run)) =
      let is' : best ≡ found cnt idx k = is ∙ ap (found cnt idx) (omega arith) in
      rw (is', ==_refl cnt)
        (inr (hand_out_run-IsRunTaken k idx a at (get-IsArena arenas k a h.arenas at) run))

  -- For a count from 1 to 2^31 - 1 the call either changes nothing and answers 0, and then no arena
  -- has a run of that many free pages with another page behind it; or it hands out such a run, in
  -- ascending order, every page free before and occupied after, and the state stays consistent.
  pub allocate_contiguous-Outcome :
      cnt ≤ 0x7FFFFFFF → Outcome cnt arenas mem (allocate_contiguous (pmm arenas mem) cnt)
  allocate_contiguous-Outcome small =
      rw allocate_contiguous-pick
        (pick-Outcome _ (search_arenas-Searched cnt mem pos small arenas 0 no_best refl))
