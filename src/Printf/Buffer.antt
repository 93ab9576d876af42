-- ===== src/Printf/Buffer.antt =====
-- What characters handed to `__swrite_sbuf__` of lib/libc/vsprintf.c leave in memory.
use liqui_dos.Strings.{Bytes, store}
use liqui_dos.Printf.Directive.{swrite_sbuf}
use liqui_dos.Printf.Run.{run}
use liqui_dos.Common.{
  ℕ, zero, suc, ◌+◌, ◌≤◌, ◌<◌, ◌≡◌, ◌⊎◌, inl, refl, sym, ap, ◌∙◌, arith, some, List, [], ◌∷◌,
  length, get_elem?,
}

-- The characters of `cs` stand from `buf` on, and every other byte is as in `m`.
pub record AreAt (m : Bytes) (buf : ℕ) (cs : List ℕ) (m' : Bytes) : Type 0 where
  pub inside : (i : ℕ) → i < length cs → get_elem? cs i ≡ some (m' (buf + i))
  pub outside : (q : ℕ) → (q < buf) ⊎ (buf + length cs ≤ q) → m' q ≡ m q

inside_next :
    (c : ℕ) (cs : List ℕ) (m : Bytes) (buf : ℕ)
    → m buf ≡ c
    → ((i : ℕ) → i < length cs → get_elem? cs i ≡ some (m (buf + 1 + i)))
    → (i : ℕ) → i < length (c ∷ cs)
    → get_elem? (c ∷ cs) i ≡ some (m (buf + i))
inside_next c cs m buf first rest zero l =
    ap (λ b. some b) (sym first ∙ ap m (let e : buf ≡ buf + 0 = omega arith in e))
inside_next c cs m buf first rest (suc i) l =
    rest i (omega arith)
    ∙ ap (λ b. some (m b)) (let e : buf + 1 + i ≡ buf + suc i = omega arith in e)

pub run-AreAt : (cs : List ℕ) (m : Bytes) (buf : ℕ) → AreAt m buf cs (run swrite_sbuf cs (m, buf)).0
unfolding run
run-AreAt [] m buf = record { inside = λ i l. absurd (omega arith); outside = λ q o. refl }
run-AreAt (c ∷ cs) m buf =
    let rest = run-AreAt cs (store buf c m) (buf + 1) in
    let result : Bytes = (run swrite_sbuf cs (store buf c m, buf + 1)).0 in
    let first : result buf ≡ c = ground (arith, rest.outside buf (inl (omega arith))) in
    record {
      inside = inside_next c cs result buf first rest.inside;
      outside = λ q o. ground (arith, o, rest.outside q);
    }
