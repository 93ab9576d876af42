-- ===== src/Elf/Symbols.antt =====
-- Lemmas on get_symbol_addr32 and get_symbol_name32.
use liqui_dos.Common.{
  ℕ, zero, suc, ◌+◌, ◌%◌, ◌^◌, ◌≤◌, ◌<◌, ◌≡◌, ◌⊎◌, inl, inr, refl, sym, ◌&&◌, ap, arith, Option,
  none, some, ltb, leb, Bool-cases,
}
use native.Mathlib.Decide.{dec_lt}
use mathlib.Core.Option
use liqui_dos.Strings.{Bytes}
use liqui_dos.Elf.{
  Sym, Context, symbol, shdr_at, best_symbol, symbol_table, symbol_count, get_symbol_name32,
  get_symbol_addr32,
}

-- What the loop over symbols `i` to `i + left - 1` makes of the best so far.
record IsBest (left i addr : ℕ) (value : ℕ → ℕ) (sym : Option ℕ) (val : ℕ) (r : Option ℕ × ℕ)
    : Type 0 where
  grows : val ≤ r.1
  greatest : (k : ℕ) → i ≤ k → k < i + left → value k ≤ addr → value k ≤ r.1
  from :
      ((r.0 ≡ sym) × (r.1 ≡ val))
      ⊎ ((k : ℕ) × (k < i + left) × (r.0 ≡ some k) × (r.1 ≡ value k) × (val < r.1) × (r.1 ≤ addr))

module _ (left i addr : ℕ) (value : ℕ → ℕ) (sym : Option ℕ) (val : ℕ) (r : Option ℕ × ℕ) where
  taken :
      val < value i
      → value i ≤ addr
      → IsBest left (i + 1) addr value (some i) (value i) r
      → IsBest (suc left) i addr value sym val r
  taken above below h = record {
    grows = omega (arith, h.grows);
    greatest = λ k l u b. elim (dec_lt i k) [
      | yes later ↦ h.greatest k (omega arith) (omega arith) b
      | no same ↦ omega (arith, h.grows, ap value (is_i k l same))
    ];
    from = elim h.from [
      | inl (s, v) ↦ inr (i, omega arith, s, v, omega (arith, v), omega (arith, v))
      | inr (k, u, s, v, a, b) ↦ inr (k, omega arith, s, v, omega arith, b)
    ];
  }
    where
      is_i : (k : ℕ) → i ≤ k → ¬ (i < k) → k ≡ i
      is_i k l n = omega arith

  kept :
      (val < value i → addr < value i)
      → IsBest left (i + 1) addr value sym val r
      → IsBest (suc left) i addr value sym val r
  kept not_better h = record {
    grows = h.grows;
    greatest = λ k l u b. elim (dec_lt i k) [
      | yes later ↦ h.greatest k (omega arith) (omega arith) b
      | no same ↦ let e : k ≡ i = omega arith in grind (arith, ap value e, not_better, h.grows)
    ];
    from = elim h.from [
      | inl p ↦ inl p
      | inr (k, u, s, v, a, b) ↦ inr (k, omega arith, s, v, a, b)
    ];
  }

best_symbol-IsBest :
    (left i : ℕ) (m : Bytes) (tab addr : ℕ) (sym : Option ℕ) (val : ℕ)
    → IsBest left i addr
        (λ k. (symbol m tab k).st_value)
        sym
        val
        (best_symbol left i m tab addr (sym, val))
unfolding best_symbol
best_symbol-IsBest zero i m tab addr sym val = record {
  grows = omega arith;
  greatest = λ k l u b. absurd (omega arith);
  from = inl (refl, refl);
}
best_symbol-IsBest (suc left) i m tab addr sym val =
    let v : ℕ = (symbol m tab i).st_value in
    elim (Bool-cases (ltb val v && leb v addr)) [
      | inl better ↦ rw better (
          taken left i addr (λ k. (symbol m tab k).st_value) sym val _ (ground arith) (ground arith)
            (best_symbol-IsBest left (i + 1) m tab addr (some i) v))
      | inr worse ↦ rw worse (
          kept left i addr (λ k. (symbol m tab k).st_value) sym val _ (λ h. ground arith)
            (best_symbol-IsBest left (i + 1) m tab addr sym val))
    ]

-- The symbol of the image's table at index `k`.
abbrev pub table_symbol : Bytes → Context → ℕ → Sym
table_symbol m ctx k = symbol m (symbol_table m ctx) k

-- get_symbol_addr32 gives a value that no symbol value up to the address is above. Either it is 0
-- and get_symbol_name32 gives NULL, so that no symbol has a positive value up to the address, or it
-- is positive, not above the address and the value of a symbol whose name get_symbol_name32 gives.
pub get_symbol_lem :
    (m : Bytes) (addr : ℕ) (ctx : Context)
    → ((k : ℕ)
        → k < symbol_count m ctx
        → (table_symbol m ctx k).st_value ≤ addr
        → (table_symbol m ctx k).st_value ≤ get_symbol_addr32 m addr ctx)
      × (((get_symbol_addr32 m addr ctx ≡ 0) × (get_symbol_name32 m addr ctx ≡ none))
          ⊎ ((k : ℕ) × (k < symbol_count m ctx)
              × (get_symbol_addr32 m addr ctx ≡ (table_symbol m ctx k).st_value)
              × (0 < get_symbol_addr32 m addr ctx)
              × (get_symbol_addr32 m addr ctx ≤ addr)
              × (get_symbol_name32 m addr ctx
                  ≡ some (
                      ((shdr_at m ctx.strtab32).sh_offset
                        + ctx.img32
                        + (table_symbol m ctx k).st_name)
                      % 2 ^ 32))))
unfolding get_symbol_addr32 get_symbol_name32
get_symbol_lem m addr ctx =
    let h = best_symbol-IsBest (symbol_count m ctx) 0 m (symbol_table m ctx) addr none 0 in
    (
      (λ k l b. h.greatest k (omega arith) (omega arith) b),
      elim h.from [
        | inl (s, v) ↦ inl (v, ap (Option.map _) s)
        | inr (k, u, s, v, a, b) ↦ inr (k, omega arith, v, a, b, ap (Option.map _) s)
      ],
    )
