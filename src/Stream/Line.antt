-- ===== src/Stream/Line.antt =====
-- The out stream of lib/libc/printk.c, line by line.
use mathlib.Core.Path.{subst}
use liqui_dos.Strings.{Bytes, store}
use liqui_dos.Printf.Directive.{swrite_sbuf}
use liqui_dos.Printf.Run.{run}
use liqui_dos.Printf.Buffer.{AreAt, run-AreAt}
use liqui_dos.Stream.{
  Streams, Config, until_nul, flush_out, fflush, stream_out, buffer_size, log_org,
}
use liqui_dos.Common.{
  ℕ, zero, suc, ◌+◌, ◌≤◌, ◌<◌, ◌≡◌, inl, inr, refl, sym, Bool, true, false, not, ◌&&◌, ◌||◌, ap,
  ◌∙◌, arith, some, List, [], ◌∷◌, ◌++◌, ltb, ◌==◌, if◌then◌else◌, Bool-cases, some_inj, length,
  get_elem?, length-append,
}

-- No character of the list is `x`.
abbrev pub lacks : ℕ → List ℕ → Bool
lacks x [] = true
lacks x (c ∷ cs) = not (c == x) && lacks x cs

held : Config → List ℕ → Streams → Streams
held config cs s = record s {
  org = (run swrite_sbuf cs (s.org, s.out_ptr)).0;
  out_ptr = s.out_ptr + length cs;
}

kept : ℕ → Streams → Streams
kept c s = record s { org = store s.out_ptr c s.org; out_ptr = s.out_ptr + 1 }

stream_out-kept :
    (config : Config) (c : ℕ) (s : Streams)
    → (c == b'\n' || ltb 512 (s.out_ptr + 1)) ≡ false
    → stream_out config c s ≡ kept c s
unfolding stream_out kept
stream_out-kept config c s e = rw e refl

stream_out-flush_out :
    (config : Config) (c : ℕ) (s : Streams)
    → (c == b'\n' || ltb 512 (s.out_ptr + 1)) ≡ true
    → stream_out config c s ≡ flush_out config (kept c s)
unfolding stream_out kept fflush
stream_out-flush_out config c s e = rw e refl

run-held :
    (config : Config) (cs : List ℕ) (s : Streams)
    → lacks 10 cs ≡ true
    → s.out_ptr + length cs ≤ 512
    → run (stream_out config) cs s ≡ held config cs s
unfolding held run kept
run-held config [] s p l =
    ap (λ n. record s { out_ptr = n }) (let e : s.out_ptr ≡ s.out_ptr + 0 = omega arith in e)
run-held config (c ∷ cs) s p l =
    ap (run (stream_out config) cs) (stream_out-kept config c s (ground arith))
    ∙ run-held config cs (kept c s) (ground arith) (omega arith)
    ∙ ap (λ n. record (held config (c ∷ cs) s) { out_ptr = n })
        (let e : s.out_ptr + 1 + length cs ≡ s.out_ptr + suc (length cs) = omega arith in e)

-- What stands in memory up to a NUL is read.
until_nul_lem :
    (left : ℕ) (cs : List ℕ) (m : Bytes) (p : ℕ)
    → lacks 0 cs ≡ true
    → length cs ≤ left
    → ((i : ℕ) → i < length cs → get_elem? cs i ≡ some (m (p + i)))
    → (length cs < left → m (p + length cs) ≡ 0)
    → until_nul left m p ≡ cs
unfolding until_nul
until_nul_lem zero [] m p plain l at nul = refl
until_nul_lem zero (c ∷ cs) m p plain l at nul = absurd (omega arith)
until_nul_lem (suc left) [] m p plain l at nul =
    let end : m p ≡ 0 = ap m (let e : p ≡ p + 0 = omega arith in e) ∙ nul (omega arith) in
    rw (end, until_nul) refl
until_nul_lem (suc left) (c ∷ cs) m p plain l at nul =
    let here : c ≡ m p =
      some_inj (at 0 (omega arith)) ∙ ap m (let e : p + 0 ≡ p = omega arith in e) in
    let not_nul : (m p == 0) ≡ false = ground arith in
    let rest : until_nul left m (p + 1) ≡ cs =
      until_nul_lem left cs m (p + 1) (ground arith) (omega arith)
        (λ i u.
          at (suc i) (omega arith)
          ∙ ap (λ q. some (m q)) (let e : p + suc i ≡ p + 1 + i = omega arith in e))
        (λ u.
          ap m (let e : p + 1 + length cs ≡ p + suc (length cs) = omega arith in e)
          ∙ nul (omega arith)) in
    rw (not_nul, rest, sym here) refl

flushed :
    (config : Config) (s : Streams)
    → ((flush_out config s).emitted
        ≡ s.emitted ++ until_nul buffer_size (store s.out_ptr 0 s.org) 0)
      × ((flush_out config s).org ≡ store s.out_ptr 0 s.org)
      × ((flush_out config s).out_ptr ≡ 0)
unfolding flush_out
flushed config s = elim (Bool-cases config.log_all_output) [
  | inl all ↦ rw all (refl, refl, refl)
  | inr some_of_it ↦ rw some_of_it (refl, refl, refl)
]

-- The flush hands over the text in the buffer, up to the NUL or its end.
flushed_text :
    (config : Config) (cs : List ℕ) (s : Streams)
    → lacks 0 cs ≡ true
    → length cs ≤ 512
    → length cs ≤ s.out_ptr
    → (length cs < 512 → length cs ≡ s.out_ptr)
    → ((i : ℕ) → i < length cs → get_elem? cs i ≡ some (s.org (0 + i)))
    → (flush_out config s).emitted ≡ s.emitted ++ cs
flushed_text config cs s no_nul fits held_back full at =
    let text : until_nul 512 (store s.out_ptr 0 s.org) 0 ≡ cs =
      until_nul_lem 512 cs (store s.out_ptr 0 s.org) 0 no_nul fits
        (λ i l. at i l ∙ ap (λ b. some b) (ground arith)) (λ l. ground (arith, full l)) in
    (flushed config s).0 ∙ ap (λ t. s.emitted ++ t) text

run-append {ℓ} :
    {S : Type ℓ} (g : ℕ → S → S) (xs ys : List ℕ) (s : S)
    → run g (xs ++ ys) s ≡ run g ys (run g xs s)
unfolding run
run-append g [] ys s = refl
run-append g (x ∷ xs) ys s = run-append g xs ys (g x s)

get_elem?-front :
    (cs : List ℕ) (c i : ℕ) → i < length cs → get_elem? (cs ++ c ∷ []) i ≡ get_elem? cs i
get_elem?-front [] c i l = absurd (omega arith)
get_elem?-front (x ∷ xs) c zero l = refl
get_elem?-front (x ∷ xs) c (suc i) l = get_elem?-front xs c i (omega arith)

get_elem?-last : (cs : List ℕ) (c : ℕ) → get_elem? (cs ++ c ∷ []) (length cs) ≡ some c
get_elem?-last [] c = refl
get_elem?-last (x ∷ xs) c = get_elem?-last xs c

run-last : (c : ℕ) (r : Bytes × ℕ) → (run swrite_sbuf (c ∷ []) r).0 ≡ store r.1 c r.0
unfolding run
run-last c (m, p) = refl

run-place : (cs : List ℕ) (m : Bytes) (p : ℕ) → (run swrite_sbuf cs (m, p)).1 ≡ p + length cs
unfolding run
run-place [] m p = omega arith
run-place (c ∷ cs) m p = run-place cs (store p c m) (p + 1) ∙ omega arith

lacks-append :
    (x : ℕ) (xs ys : List ℕ) → lacks x xs ≡ true → lacks x ys ≡ true → lacks x (xs ++ ys) ≡ true
lacks-append x [] ys p q = q
lacks-append x (c ∷ cs) ys p q = ground (arith, lacks-append x cs ys (ground arith) q)

module _ (config : Config) (cs : List ℕ) (s : Streams) (no_newline : lacks 10 cs ≡ true)
    (no_nul : lacks 0 cs ≡ true) (empty : s.out_ptr ≡ 0) where
  -- The last character makes the buffer flush.
  last_flushes :
      (c : ℕ)
      → length cs ≤ 512
      → (c == b'\n' || ltb 512 (length cs + 1)) ≡ true
      → run (stream_out config) (cs ++ c ∷ []) s ≡ flush_out config (kept c (held config cs s))
  unfolding run held
  last_flushes c fits last =
      run-append (stream_out config) cs (c ∷ []) s
      ∙ ap (stream_out config c) (run-held config cs s no_newline (omega (arith, empty)))
      ∙ stream_out-flush_out config c (held config cs s)
          (let e : s.out_ptr + length cs + 1 ≡ length cs + 1 = omega (arith, empty) in rw e last)

  org-AreAt : (c : ℕ) → AreAt s.org 0 (cs ++ c ∷ []) (kept c (held config cs s)).org
  unfolding kept held
  org-AreAt c =
      let place : (run swrite_sbuf cs (s.org, 0)).1 ≡ 0 + length cs = run-place cs s.org 0 in
      let whole : (run swrite_sbuf (cs ++ c ∷ []) (s.org, 0)).0
          ≡ store (0 + length cs) c (run swrite_sbuf cs (s.org, 0)).0 =
        ap (λ r. r.0) (run-append swrite_sbuf cs (c ∷ []) (s.org, 0))
        ∙ run-last c (run swrite_sbuf cs (s.org, 0))
        ∙ ap (λ n. store n c (run swrite_sbuf cs (s.org, 0)).0) place in
      rw empty
        (subst (λ m. AreAt s.org 0 (cs ++ c ∷ []) m) whole (run-AreAt (cs ++ c ∷ []) s.org 0))

  kept_ptr : (c : ℕ) → (kept c (held config cs s)).out_ptr ≡ length cs + 1
  unfolding kept held
  kept_ptr c = omega (arith, empty)

  -- What the flush after `c` leaves in the memory.
  flushed_org :
      (c q : ℕ)
      → (flush_out config (kept c (held config cs s))).org q
        ≡ (if q == length cs + 1 then 0 else (kept c (held config cs s)).org q)
  flushed_org c q =
      ap (λ m. m q) (flushed config (kept c (held config cs s))).1 ∙ rw (kept_ptr c) refl

-- Into an empty out buffer, a line of at most 511 characters other than NUL, handed over one after
-- the other with its newline, goes to the console whole. The buffer is empty again, and no byte
-- behind the line and its NUL has changed.
pub stream_out-line :
    (config : Config) (cs : List ℕ) (s : Streams)
    → lacks b'\n' cs ≡ true
    → lacks 0 cs ≡ true
    → s.out_ptr ≡ 0
    → length cs ≤ 511
    → (s' : Streams) × (run (stream_out config) (cs ++ b'\n' ∷ []) s ≡ s')
      × (s'.emitted ≡ s.emitted ++ (cs ++ b'\n' ∷ []))
      × (s'.out_ptr ≡ 0)
      × ((q : ℕ) → length cs + 1 < q → s'.org q ≡ s.org q)
unfolding kept held
stream_out-line config cs s no_newline no_nul empty few =
    let t : Streams = kept 10 (held config cs s) in
    let at = org-AreAt config cs s no_newline no_nul empty 10 in
    let ptr : t.out_ptr ≡ length cs + 1 = kept_ptr config cs s no_newline no_nul empty 10 in
    let n : length (cs ++ 10 ∷ []) ≡ length cs + 1 = omega (arith, length-append cs (10 ∷ [])) in
    (
      flush_out config t,
      last_flushes config cs s no_newline no_nul empty 10 (omega arith) refl,
      flushed_text config (cs ++ 10 ∷ []) t (lacks-append 0 cs (10 ∷ []) no_nul refl)
          (omega (arith, n)) (omega (arith, n, ptr)) (λ l. omega (arith, n, ptr)) at.inside,
      (flushed config t).2,
      (λ q l.
          flushed_org config cs s no_newline no_nul empty 10 q ∙ ground (arith, n, at.outside q)),
    )

-- After 512 characters without a newline and a NUL, one more character flushes the buffer, but
-- does not go to the console. It and a NUL overwrite the first two bytes of the log's buffer.
pub stream_out-overflow :
    (config : Config) (cs : List ℕ) (c : ℕ) (s : Streams)
    → lacks b'\n' cs ≡ true
    → lacks 0 cs ≡ true
    → s.out_ptr ≡ 0
    → length cs ≡ 512
    → (s' : Streams) × (run (stream_out config) (cs ++ c ∷ []) s ≡ s')
      × (s'.emitted ≡ s.emitted ++ cs)
      × (s'.org log_org ≡ c)
      × (s'.org (log_org + 1) ≡ 0)
unfolding kept held
stream_out-overflow config cs c s no_newline no_nul empty full =
    let t : Streams = kept c (held config cs s) in
    let at = org-AreAt config cs s no_newline no_nul empty c in
    let ptr : t.out_ptr ≡ length cs + 1 = kept_ptr config cs s no_newline no_nul empty c in
    let n : length (cs ++ c ∷ []) ≡ length cs + 1 = omega (arith, length-append cs (c ∷ [])) in
    let last : t.org (0 + length cs) ≡ c =
      some_inj (sym (at.inside (length cs) (omega (arith, n))) ∙ get_elem?-last cs c) in
    (
      flush_out config t,
      last_flushes config cs s no_newline no_nul empty c (omega (arith, full))
          (ground (arith, full)),
      flushed_text config cs t no_nul (omega (arith, full)) (omega (arith, ptr))
          (λ l. omega (arith, full))
          (λ i l. sym (get_elem?-front cs c i l) ∙ at.inside i (omega (arith, n))),
      flushed_org config cs s no_newline no_nul empty c 512 ∙ ground (arith, full, last),
      flushed_org config cs s no_newline no_nul empty c 513 ∙ ground (arith, full),
    )
