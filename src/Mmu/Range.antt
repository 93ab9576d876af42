-- ===== src/Mmu/Range.antt =====
-- Repeated calls of map without PAE, with an allocator that gives one page after the other.
use Prim.Native.Nat.{bit_and, bit_or}
use liqui_dos.Common.{
  ℕ, suc, ◌+◌, ◌-◌, ◌*◌, ◌/◌, ◌%◌, ◌^◌, ◌≤◌, ◌<◌, ◌≡◌, ◌≢◌, ◌⊎◌, inl, inr, refl, sym, true, ap, ◌∙◌,
  arith, Option, some, ltb, ◌==◌, Bool-cases,
}
use liqui_dos.Common.Bits.{bit_or-disjoint, bit_and-lt, bit_and_step}
use liqui_dos.Paging.{page_size, get_pd_idx, get_pt_idx}
use liqui_dos.Paging.Laws.{get_pd_idx_lem, get_pt_idx_lem}
use liqui_dos.Mmu.{Tables, frame_of, is_present, walk, map, flag_mask}
use liqui_dos.Mmu.Table.{IsRecursive, IsFresh, changed, changed-IsChanged, changed-IsFresh}
use liqui_dos.Mmu.Map.{map-changed, walk-eq-entry_at}

-- The allocator gives `page k` in state `st k`: `m` different pages below 4 GiB.
pub record Supplies {S : Type 0} (alloc : S → Option (ℕ × S)) (m : ℕ) (st : ℕ → S) (page : ℕ → ℕ)
    : Type 0 where
  pub gives : (k : ℕ) → k < m → alloc (st k) ≡ some (page k, st (suc k))
  pub small : (k : ℕ) → k < m → page k < 2 ^ 32
  pub apart : (k l : ℕ) → k < m → l < m → frame_of (page k + 3) ≡ frame_of (page l + 3) → k ≡ l

-- The pages from the one with number `k` on are in no use as tables.
pub record AreFresh (m k : ℕ) (page : ℕ → ℕ) (mem : Tables) (dir : ℕ) : Type 0 where
  pub each : (l : ℕ) → k ≤ l → l < m → IsFresh 1024 (page l) mem dir

-- The flags that `map` keeps.
abbrev pub kept : ℕ → ℕ
kept flags = bit_and (flags % 2 ^ 16) flag_mask

-- The `n` pages from `v` on translate to those from `p` on, and the rest as before.
pub record IsRange (n v p flags : ℕ) (mem mem' : Tables) (dir : ℕ) : Type 0 where
  pub translates :
      (w : ℕ)
      → v ≤ w
      → w < v + n * page_size
      → walk dir mem' w ≡ some (p + (w - v) / page_size * page_size + kept flags)
  pub same :
      (w : ℕ)
      → w < 2 ^ 32
      → get_pd_idx w ≢ 1023
      → (w < v) ⊎ (v + n * page_size ≤ w)
      → walk dir mem' w ≡ walk dir mem w
  pub recursive : IsRecursive 1024 1023 mem' dir

pub IsRange-zero :
    (v p flags : ℕ) (mem : Tables) (dir : ℕ)
    → IsRecursive 1024 1023 mem dir
    → IsRange 0 v p flags mem mem dir
IsRange-zero v p flags mem dir h = record {
  translates = λ w a b. absurd (omega arith);
  same = λ w a b c. refl;
  recursive = h;
}

pub walk-same_page :
    (dir : ℕ) (mem : Tables) (v w : ℕ) → v / 2 ^ 12 ≡ w / 2 ^ 12 → walk dir mem v ≡ walk dir mem w
walk-same_page dir mem v w e =
    let top : get_pd_idx v ≡ get_pd_idx w = omega (arith, e, get_pd_idx_lem v, get_pd_idx_lem w) in
    let low : get_pt_idx v ≡ get_pt_idx w = omega (arith, e, get_pt_idx_lem v, get_pt_idx_lem w) in
    walk-eq-entry_at dir mem v ∙ rw (top, low) (sym (walk-eq-entry_at dir mem w))

entry_lem :
    (p flags : ℕ)
    → p < 2 ^ 32
    → p % page_size ≡ 0
    → bit_or (p % 2 ^ 32) (kept flags) ≡ p + kept flags
entry_lem p flags l aligned =
    let whole : p % 2 ^ 32 ≡ p / 2 ^ 12 * 2 ^ 12 = omega arith in
    let bound : kept flags < 2 ^ 9 = bit_and-lt 9 (flags % 2 ^ 16) flag_mask (omega arith) in
    rw whole (bit_or-disjoint 12 (p / 2 ^ 12) (kept flags) (omega arith) ∙ omega arith)

old_table :
    (i : ℕ) (mem : Tables) (dir : ℕ)
    → IsRecursive 1024 1023 mem dir
    → i < 1024
    → i ≢ 1023
    → mem dir i ≢ 0
    → frame_of (mem dir i) ≢ dir
old_table i mem dir h below other full e =
    let there : is_present (mem dir i) ≡ true = ground (arith, (h.tables).entries i below) in
    other ((h.tables).apart i 1023 below h.inside there h.present (e ∙ sym h.itself))

-- What one change of the tables by `map` translates.
changed-IsRange :
    (page v p flags : ℕ) (mem : Tables) (dir : ℕ)
    → v % page_size ≡ 0
    → p % page_size ≡ 0
    → v + page_size ≤ 0xFFC00000
    → p < 2 ^ 32
    → flags % 2 ≡ 1
    → IsRecursive 1024 1023 mem dir
    → (mem dir (get_pd_idx v) ≡ 0 → IsFresh 1024 page mem dir)
    → IsRange 1 v p flags mem
        (changed dir (get_pd_idx v) (get_pt_idx v) page (bit_or (p % 2 ^ 32) (kept flags)) mem)
        dir
changed-IsRange page v p flags mem dir v_page p_page high low odd h fresh =
    let i : ℕ = get_pd_idx v in
    let e : ℕ = bit_or (p % 2 ^ 32) (kept flags) in
    let other : i ≢ 1023 = omega (arith, get_pd_idx_lem v) in
    let below : i < 1024 = omega (arith, get_pd_idx_lem v) in
    let done = changed-IsChanged 1024 1023 i (get_pt_idx v) page e mem dir h below other fresh in
    let mem' : Tables = changed dir i (get_pt_idx v) page e mem in
    let sum : e ≡ p + kept flags = entry_lem p flags low p_page in
    let bit : kept flags % 2 ≡ 1 = omega (arith, odd, bit_and_step (flags % 2 ^ 16) flag_mask) in
    let there : walk dir mem' v ≡ some e =
      walk-eq-entry_at dir mem' v ∙ done.written (ground (arith, sum, bit, p_page)) in
    record {
      translates = λ w a b.
          walk-same_page dir mem' w v (omega (arith, v_page))
          ∙ there
          ∙ ap (λ x. some x) (omega (arith, sum));
      same = λ w fits w_other outside.
          walk-eq-entry_at dir mem' w
          ∙ done.same (get_pd_idx w) (get_pt_idx w) (omega (arith, get_pd_idx_lem w)) w_other
              (λ (a, b). absurd (
                omega (
                  arith,
                  a,
                  b,
                  outside,
                  v_page,
                  get_pd_idx_lem v,
                  get_pt_idx_lem v,
                  get_pd_idx_lem w,
                  get_pt_idx_lem w,
                )))
          ∙ sym (walk-eq-entry_at dir mem w);
      recursive = done.recursive;
    }

module _ {S : Type 0} (alloc : S → Option (ℕ × S)) (m : ℕ) (st : ℕ → S) (page : ℕ → ℕ)
    (supply : Supplies alloc m st page) (dir : ℕ) where
  -- One call maps one page, and takes a page from the supply where it needs a table.
  pub map-IsRange :
      (k v p flags : ℕ) (mem : Tables)
      → k < m
      → v % page_size ≡ 0
      → p % page_size ≡ 0
      → v + page_size ≤ 0xFFC00000
      → p < 2 ^ 32
      → flags % 2 ≡ 1
      → IsRecursive 1024 1023 mem dir
      → AreFresh m k page mem dir
      → (k' : ℕ) × (mem' : Tables) × (map alloc dir v p flags (st k, mem) ≡ some (st k', mem'))
        × (k' ≤ suc k)
        × IsRange 1 v p flags mem mem' dir
        × AreFresh m k' page mem' dir
  map-IsRange k v p flags mem l v_page p_page high low odd h fresh =
      let i : ℕ = get_pd_idx v in
      let e : ℕ = bit_or (p % 2 ^ 32) (kept flags) in
      let new = λ (z : mem dir i ≡ 0). fresh.each k (omega arith) l in
      let other : i ≢ 1023 = omega (arith, get_pd_idx_lem v) in
      let below : i < 1024 = omega (arith, get_pd_idx_lem v) in
      let table = old_table i mem dir h below other in
      let done =
        map-changed alloc (st k) (st (suc k)) (page k) mem dir v p flags (omega arith) other h
          (λ _. supply.gives k l) (λ _. supply.small k l) new in
      let still =
        λ (q : ℕ) (f : IsFresh 1024 (page q) mem dir)
            (d : mem dir i ≡ 0 → frame_of (page k + 3) ≢ frame_of (page q + 3)).
          changed-IsFresh 1024 i (get_pt_idx v) (page k) e (page q) mem dir f new table d in
      elim (Bool-cases (mem dir i == 0)) [
        | inl empty ↦ (
          suc k,
          changed dir i (get_pt_idx v) (page k) e mem,
          done ∙ rw empty refl,
          omega arith,
          changed-IsRange (page k) v p flags mem dir v_page p_page high low odd h new,
          record {
            each = λ q a b.
                still q (fresh.each q (omega arith) b)
                  (λ z d. absurd (omega (arith, supply.apart k q l b d)));
          },
        )
        | inr full ↦ (
          k,
          changed dir i (get_pt_idx v) (page k) e mem,
          done ∙ rw full refl,
          omega arith,
          changed-IsRange (page k) v p flags mem dir v_page p_page high low odd h new,
          record { each = λ q a b. still q (fresh.each q a b) (λ z d. absurd (ground arith)) },
        )
      ]

  -- `n` calls for `n` pages in a row, by any loop that makes them.
  pub IsRange-suc :
      (n v p flags : ℕ) (mem mem1 mem2 : Tables)
      → v % page_size ≡ 0
      → v + suc n * page_size ≤ 0xFFC00000
      → IsRange 1 v p flags mem mem1 dir
      → IsRange n (v + page_size) (p + page_size) flags mem1 mem2 dir
      → IsRange (suc n) v p flags mem mem2 dir
  IsRange-suc n v p flags mem mem1 mem2 v_page high first rest = record {
    translates = λ w a b. elim (Bool-cases (ltb w (v + page_size))) [
      | inl low ↦
          rest.same w (omega arith) (omega (arith, get_pd_idx_lem w)) (inl (ground arith))
          ∙ first.translates w a (ground arith)
      | inr above ↦ rest.translates w (ground arith) (omega arith) ∙ ap (λ x. some x) (ground arith)
    ];
    same = λ w fits other outside.
        rest.same w fits other (ground arith) ∙ first.same w fits other (ground arith);
    recursive = rest.recursive;
  }
