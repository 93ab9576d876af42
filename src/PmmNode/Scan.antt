-- ===== src/PmmNode/Scan.antt =====
-- The search of PmmNode::allocate_contiguous for a run of free pages.
use liqui_dos.Common.{
  ℕ, zero, suc, ◌+◌, ◌-◌, ◌≤◌, ◌<◌, ◌≡◌, ◌⊎◌, inl, inr, refl, Bool, true, false, not, ap, ◌∙◌,
  arith, some, List, [], ◌∷◌, ◌==◌, if◌then◌else◌, Bool-cases, lt→ltb, get_elem?, All,
}
use native.Mathlib.Decide.{dec_lt}
use liqui_dos.PmmNode.{
  Arena, Memory, is_occupied, page_at, Best, better, scan_run, int_rounds, search_arenas,
}
use liqui_dos.PmmNode.Invariant.{}

-- Page `i` of the arena is free.
abbrev pub is_idle : Memory → Arena → ℕ → Bool
is_idle mem a i = not (is_occupied (mem (page_at a i)))

-- The `cnt` pages up to page `idx` are free, and there is a page behind them.
pub record IsRun (cnt : ℕ) (mem : Memory) (a : Arena) (idx : ℕ) : Type 0 where
  pub starts : cnt ≤ idx + 1
  pub ends : idx + 1 < int_rounds a.size
  pub idle : (m : ℕ) → m < cnt → is_idle mem a (idx - m) ≡ true

-- No `cnt` consecutive free pages from page `lo` on have a page behind them below `hi`.
abbrev pub NoRun : ℕ → Memory → Arena → ℕ → ℕ → Type 0
NoRun cnt mem a lo hi =
    (j : ℕ) → lo ≤ j → j + cnt < hi → ((m : ℕ) → m < cnt → is_idle mem a (j + m) ≡ true) → ⊥

abbrev pub found : ℕ → ℕ → ℕ → Best
found cnt idx k = record { r1 = cnt; idx = idx; farena = some k }

module _ (cnt : ℕ) (mem : Memory) (k : ℕ) (a : Arena) (pos : 0 < cnt) where
  abbrev Scanned : ℕ → ℕ → Best → Best × Bool → Type 0
  Scanned lo hi best r =
      ((r ≡ (best, false)) × NoRun cnt mem a lo hi)
      ⊎ ((idx : ℕ) × (r ≡ (found cnt idx k, true)) × IsRun cnt mem a idx)

  widen :
      (i r2 hi : ℕ) (best : Best) (r : Best × Bool)
      → is_idle mem a i ≡ false
      → r2 < cnt
      → r2 ≤ i
      → Scanned (i + 1) hi best r
      → Scanned (i - r2) hi best r
  widen i r2 hi best r busy less le (inr run) = inr run
  widen i r2 hi best r busy less le (inl (e, none_later)) = inl (
    e,
    λ j lo l all. elim (dec_lt i j) [
      | yes later ↦ none_later j (omega arith) l all
      | no over ↦
          let at : is_idle mem a (j + (i - j)) ≡ true = all (i - j) (omega arith) in
          let same : j + (i - j) ≡ i = omega arith in
          absurd (let t : is_idle mem a i ≡ true = rw same at at in cc)
    ],
  )

  next_idle :
      (i r2 : ℕ)
      → is_idle mem a i ≡ true
      → ((m : ℕ) → m < r2 → is_idle mem a (i - 1 - m) ≡ true)
      → (m : ℕ) → m < r2 + 1
      → is_idle mem a (i + 1 - 1 - m) ≡ true
  next_idle i r2 free idle zero l = let e : i + 1 - 1 - 0 ≡ i = omega arith in rw e free
  next_idle i r2 free idle (suc m) l =
      let e : i + 1 - 1 - suc m ≡ i - 1 - m = omega arith in rw e (idle m (omega arith))

  scan_stop :
      (left i r2 : ℕ) (best : Best)
      → best.r1 ≡ 0x7FFFFFFF
      → cnt ≤ 0x7FFFFFFF
      → r2 ≡ cnt
      → scan_run cnt mem k a (suc left) i r2 best ≡ (found cnt (i - 1) k, true)
  unfolding scan_run
  scan_stop left i r2 best big small e = ground arith

  scan_reset :
      (left i r2 : ℕ) (best : Best)
      → r2 < cnt
      → is_idle mem a i ≡ false
      → scan_run cnt mem k a (suc left) i r2 best ≡ scan_run cnt mem k a left (i + 1) 0 best
  unfolding scan_run
  scan_reset left i r2 best less busy =
      let same : better cnt k i r2 best ≡ best = ground arith in
      let differ : (r2 == cnt) ≡ false = ground arith in rw (busy, differ, same)

  scan_extend :
      (left i r2 : ℕ) (best : Best)
      → r2 < cnt
      → is_idle mem a i ≡ true
      → scan_run cnt mem k a (suc left) i r2 best ≡ scan_run cnt mem k a left (i + 1) (r2 + 1) best
  unfolding scan_run
  scan_extend left i r2 best less free = rw (free, lt→ltb r2 cnt less)

  scan_run-Scanned :
      (left i r2 : ℕ) (best : Best)
      → best.r1 ≡ 0x7FFFFFFF
      → cnt ≤ 0x7FFFFFFF
      → r2 ≤ cnt
      → r2 ≤ i
      → i + left ≡ int_rounds a.size
      → ((m : ℕ) → m < r2 → is_idle mem a (i - 1 - m) ≡ true)
      → Scanned (i - r2) (int_rounds a.size) best (scan_run cnt mem k a left i r2 best)
  unfolding scan_run
  scan_run-Scanned zero i r2 best big small le lei e idle =
      inl (refl, λ j lo l all. absurd (omega arith))
  scan_run-Scanned (suc left) i r2 best big small le lei e idle = elim (dec_lt r2 cnt) [
    | no full ↦
        let same : r2 ≡ cnt = omega arith in
        rw (scan_stop left i r2 best big small same) (
          inr (
            i - 1,
            refl,
            record { starts = omega arith; ends = omega arith; idle = λ m l. idle m (omega arith) },
          ))
    | yes less ↦ elim (Bool-cases (is_idle mem a i)) [
      | inl free ↦
          let start : i + 1 - (r2 + 1) ≡ i - r2 = omega arith in
          rw (scan_extend left i r2 best less free) (
            rw start at (
              scan_run-Scanned left (i + 1) (r2 + 1) best big small (omega arith) (omega arith)
                (omega arith) (next_idle i r2 free idle)))
      | inr busy ↦ rw (scan_reset left i r2 best less busy) (
          widen i r2 (int_rounds a.size) best _ busy less lei (
            let start : i + 1 - 0 ≡ i + 1 = omega arith in
            rw start at (
              scan_run-Scanned left (i + 1) 0 best big small (omega arith) (omega arith)
                (omega arith) (λ m l. absurd (omega arith)))))
    ]
  ]

-- The search ends with no run in any arena, or with a run of the arena at place `k`.
abbrev pub Searched : ℕ → Memory → ℕ → List Arena → Best → Best → Type 0
Searched cnt mem k0 arenas best r =
    ((r ≡ best) × All (λ a. NoRun cnt mem a 0 (int_rounds a.size)) arenas)
    ⊎ ((k : ℕ) × (idx : ℕ) × (a : Arena) × (r ≡ found cnt idx (k0 + k))
        × (get_elem? arenas k ≡ some a)
        × IsRun cnt mem a idx)

module _ (cnt : ℕ) (mem : Memory) (pos : 0 < cnt) (small : cnt ≤ 0x7FFFFFFF) where
  pub search_arenas-Searched :
      (arenas : List Arena) (k : ℕ) (best : Best)
      → best.r1 ≡ 0x7FFFFFFF
      → Searched cnt mem k arenas best (search_arenas cnt mem k arenas best)
  unfolding search_arenas
  search_arenas-Searched [] k best big = inl (refl, tt)
  search_arenas-Searched (a ∷ tail) k best big =
      step (scan_run cnt mem k a (int_rounds a.size) 0 0 best)
        (scan_run-Scanned cnt mem k a pos (int_rounds a.size) 0 0 best big small (omega arith)
          (omega arith) (omega arith) (λ m l. absurd (omega arith)))
        (search_arenas-Searched tail (k + 1) best big)
    where
      step :
          (r : Best × Bool)
          → Scanned cnt mem k a pos 0 (int_rounds a.size) best r
          → Searched cnt mem (k + 1) tail best (search_arenas cnt mem (k + 1) tail best)
          → Searched cnt mem k
              (a ∷ tail)
              best
              (if r.1 then r.0 else search_arenas cnt mem (k + 1) tail r.0)
      step r (inl (e, none_here)) (inl (same, none_later)) =
          rw e (inl (same, (none_here, none_later)))
      step r (inl (e, none_here)) (inr (j, idx, b, is, at, run)) =
          rw e (inr (suc j, idx, b, is ∙ ap (found cnt idx) (omega arith), at, run))
      step r (inr (idx, e, run)) later =
          rw e (inr (0, idx, a, ap (found cnt idx) (omega arith), refl, run))
