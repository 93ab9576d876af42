-- ===== src/Mmu/Pae/Table.antt =====
-- One change of a page table with PAE. The four page directories stand in the frames `d 0` to `d 3`,
-- and the last four entries of the last one refer to them.
use liqui_dos.Common.{
  ℕ, ◌+◌, ◌*◌, ◌%◌, ◌^◌, ◌<◌, ◌≡◌, ◌≢◌, ◌⊎◌, inl, inr, refl, sym, true, ◌∙◌, arith, Option, none,
  some, ◌==◌, if◌then◌else◌, Bool-cases,
}
use mathlib.Core.Path.{subst}
use liqui_dos.Mmu.{Tables, frame_of, is_present, is_writable, write_entry, clear_frame}

-- Entry `i` of directory `c` is no entry that refers to a directory.
pub record IsOrdinary (c i : ℕ) : Type 0 where
  pub dir : c < 4
  pub place : i < 512
  pub other : c * 512 + i < 2044

-- An entry is 0, or present and writable, and no two refer to one table.
pub record ArePaeTables (d : ℕ → ℕ) (mem : Tables) : Type 0 where
  pub entries : (c i : ℕ) → c < 4 → i < 512 → (mem (d c) i ≡ 0) ⊎ (is_present (mem (d c) i) ≡ true)
  pub writable :
      (c i : ℕ)
      → c < 4
      → i < 512
      → is_present (mem (d c) i) ≡ true
      → is_writable (mem (d c) i) ≡ true
  pub apart :
      (c i b j : ℕ)
      → c < 4
      → i < 512
      → b < 4
      → j < 512
      → is_present (mem (d c) i) ≡ true
      → is_present (mem (d b) j) ≡ true
      → frame_of (mem (d c) i) ≡ frame_of (mem (d b) j)
      → (c ≡ b) × (i ≡ j)

pub record IsPaeRecursive (d : ℕ → ℕ) (mem : Tables) : Type 0 where
  pub tables : ArePaeTables d mem
  pub present : (c : ℕ) → c < 4 → is_present (mem (d 3) (508 + c)) ≡ true
  pub itself : (c : ℕ) → c < 4 → frame_of (mem (d 3) (508 + c)) ≡ d c

-- The page at `page` is in no use as a table.
pub record IsPaeFresh (page : ℕ) (d : ℕ → ℕ) (mem : Tables) : Type 0 where
  pub aligned : page % 2 ^ 12 ≡ 0
  pub not_dir : (c : ℕ) → c < 4 → frame_of (page + 3) ≢ d c
  pub not_table :
      (c i : ℕ)
      → c < 4
      → i < 512
      → is_present (mem (d c) i) ≡ true
      → frame_of (mem (d c) i) ≢ frame_of (page + 3)

unfoldable pub made : (ℕ → ℕ) → ℕ → ℕ → ℕ → Tables → Tables
made d c i page mem =
    if mem (d c) i == 0
    then clear_frame (frame_of (page + 3)) (write_entry (d c) i (page + 3) mem)
    else mem

-- What the directories and their tables translate three indices to.
unfoldable pub entry_at : (ℕ → ℕ) → Tables → ℕ → ℕ → ℕ → Option ℕ
entry_at d mem c i j =
    let pte = mem (frame_of (mem (d c) i)) j in
    if is_present (mem (d c) i) then (if is_present pte then some pte else none) else none

-- After a change the directories keep what they translate but at the place that is changed.
pub record IsPaeMade (d : ℕ → ℕ) (c i : ℕ) (mem mem' : Tables) : Type 0 where
  pub recursive : IsPaeRecursive d mem'
  pub there : is_present (mem' (d c) i) ≡ true
  pub elsewhere : (b : ℕ) → b < 4 → frame_of (mem' (d c) i) ≢ d b
  pub same : (b k l : ℕ) → IsOrdinary b k → entry_at d mem' b k l ≡ entry_at d mem b k l

module _ (d : ℕ → ℕ) (mem : Tables) (h : IsPaeRecursive d mem) where
  pub dirs_apart : (b c : ℕ) → b < 4 → c < 4 → d b ≡ d c → b ≡ c
  dirs_apart b c p q e = omega (
    arith,
    (h.tables).apart 3 (508 + b) 3 (508 + c) (omega arith) (omega arith) (omega arith) (omega arith)
        (h.present b p) (h.present c q) (h.itself b p ∙ e ∙ sym (h.itself c q)),
  )

  -- A present ordinary entry refers to no directory.
  pub not_dir :
      (c i b : ℕ)
      → IsOrdinary c i
      → b < 4
      → is_present (mem (d c) i) ≡ true
      → frame_of (mem (d c) i) ≢ d b
  not_dir c i b o p there e = absurd (
      omega (
        arith,
        o.other,
        (h.tables).apart c i 3 (508 + b) o.dir o.place (omega arith) (omega arith) there
            (h.present b p) (e ∙ sym (h.itself b p)),
      ))

module _ (d : ℕ → ℕ) (c i page : ℕ) (mem : Tables) (h : IsPaeRecursive d mem)
    (o : IsOrdinary c i) where
  IsPaeMade-new :
      mem (d c) i ≡ 0
      → IsPaeFresh page d mem
      → IsPaeMade d c i mem (clear_frame (frame_of (page + 3)) (write_entry (d c) i (page + 3) mem))
  unfolding entry_at
  IsPaeMade-new empty fresh =
      let odd : is_present (page + 3) ≡ true = ground (arith, fresh.aligned) in
      let allows : is_writable (page + 3) ≡ true = ground (arith, fresh.aligned) in
      let row = λ (b : ℕ) (p : b < 4). fresh.not_dir b p in
      let one = λ (b : ℕ) (p : b < 4). dirs_apart d mem h b c p o.dir in
      record {
        recursive = record {
          tables = record {
            entries = λ b k p q. ground (arith, odd, (h.tables).entries b k p q, row b p, one b p);
            writable =
                λ b k p q t. ground (arith, allows, (h.tables).writable b k p q, row b p, one b p);
            apart = λ b k a l p q r s t u e. ground (
              arith,
              odd,
              (h.tables).apart b k a l p q r s,
              row b p,
              row a r,
              one b p,
              one a r,
              fresh.not_table b k p q,
              fresh.not_table a l r s,
            );
          };
          present = λ b p.
              ground (arith, h.present b p, row 3 (omega arith), one 3 (omega arith), o.other);
          itself = λ b p.
              ground (arith, h.itself b p, row 3 (omega arith), one 3 (omega arith), o.other);
        };
        there = ground (arith, odd, row c o.dir);
        elsewhere = λ b p. ground (arith, odd, row c o.dir, row b p);
        same = λ b k l w. ground (
          arith,
          odd,
          row b w.dir,
          row c o.dir,
          one b w.dir,
          fresh.not_table b k w.dir w.place,
          not_dir d mem h b k c w o.dir,
        );
      }

  pub made-IsPaeMade :
      (mem (d c) i ≡ 0 → IsPaeFresh page d mem) → IsPaeMade d c i mem (made d c i page mem)
  unfolding made
  made-IsPaeMade fresh = elim (Bool-cases (mem (d c) i == 0)) [
    | inl empty ↦ rw empty (IsPaeMade-new (ground arith) (fresh (ground arith)))
    | inr old ↦
        let there : is_present (mem (d c) i) ≡ true =
          ground (arith, (h.tables).entries c i o.dir o.place) in
        rw old (record {
          recursive = h;
          there = there;
          elsewhere = λ b p. not_dir d mem h c i b o p there;
          same = λ b k l w. refl;
        })
  ]

-- The entry that a change writes is read back, every other ordinary place reads as before.
pub record IsPaeChanged (d : ℕ → ℕ) (c i j e : ℕ) (mem mem' : Tables) : Type 0 where
  pub recursive : IsPaeRecursive d mem'
  pub written : is_present e ≡ true → entry_at d mem' c i j ≡ some e
  pub same :
      (b k l : ℕ)
      → IsOrdinary b k
      → ¬ ((b ≡ c) × (k ≡ i) × (l ≡ j))
      → entry_at d mem' b k l ≡ entry_at d mem b k l

pub written_entry :
    (d : ℕ → ℕ) (c i j e : ℕ) (mem mem' : Tables)
    → IsOrdinary c i
    → IsPaeMade d c i mem mem'
    → IsPaeChanged d c i j e mem (write_entry (frame_of (mem' (d c) i)) j e mem')
unfolding entry_at
written_entry d c i j e mem mem' o h =
    let tables = (h.recursive).tables in
    record {
      recursive = record {
        tables = record {
          entries = λ b k p q. ground (arith, tables.entries b k p q, h.elsewhere b p);
          writable = λ b k p q t. ground (arith, tables.writable b k p q, h.elsewhere b p);
          apart = λ b k a l p q r s t u v.
              ground (arith, tables.apart b k a l p q r s, h.elsewhere b p, h.elsewhere a r);
        };
        present = λ b p. ground (arith, (h.recursive).present b p, h.elsewhere 3 (omega arith));
        itself = λ b p. ground (arith, (h.recursive).itself b p, h.elsewhere 3 (omega arith));
      };
      written = λ p. ground (arith, h.there, h.elsewhere c o.dir);
      same = λ b k l w ne.
          ground
            (arith, h.there, h.elsewhere b w.dir, tables.apart b k c i w.dir w.place o.dir o.place)
          ∙ h.same b k l w;
    }

-- Only the frames of the four directories matter.
module _ (d e : ℕ → ℕ) (mem : Tables) (same : (c : ℕ) → c < 4 → d c ≡ e c) where
  pub IsPaeRecursive-congr : IsPaeRecursive d mem → IsPaeRecursive e mem
  IsPaeRecursive-congr h = record {
    tables = record {
      entries = λ c i l m.
          subst (λ f. (mem f i ≡ 0) ⊎ (is_present (mem f i) ≡ true)) (same c l)
            ((h.tables).entries c i l m);
      writable = λ c i l m.
          subst (λ f. is_present (mem f i) ≡ true → is_writable (mem f i) ≡ true) (same c l)
            ((h.tables).writable c i l m);
      apart = λ c i b j l m p q.
          subst
            (λ f.
              is_present (mem f i) ≡ true
              → is_present (mem (e b) j) ≡ true
              → frame_of (mem f i) ≡ frame_of (mem (e b) j)
              → (c ≡ b) × (i ≡ j))
            (same c l)
            (subst
              (λ f.
                is_present (mem (d c) i) ≡ true
                → is_present (mem f j) ≡ true
                → frame_of (mem (d c) i) ≡ frame_of (mem f j)
                → (c ≡ b) × (i ≡ j))
              (same b p) ((h.tables).apart c i b j l m p q));
    };
    present = λ c l.
        subst (λ f. is_present (mem f (508 + c)) ≡ true) (same 3 (omega arith)) (h.present c l);
    itself = λ c l.
        subst (λ f. frame_of (mem f (508 + c)) ≡ e c) (same 3 (omega arith))
          (h.itself c l ∙ same c l);
  }
