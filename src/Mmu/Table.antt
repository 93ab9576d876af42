-- ===== src/Mmu/Table.antt =====
-- One change of a page table, with the table made where there is none.
use liqui_dos.Common.{
  ℕ, ◌+◌, ◌%◌, ◌^◌, ◌<◌, ◌≡◌, ◌≢◌, ◌⊎◌, inl, inr, refl, sym, true, ◌∙◌, arith, Option, none, some,
  ◌==◌, if◌then◌else◌, Bool-cases,
}
use liqui_dos.Mmu.{Tables, frame_of, is_present, is_writable, write_entry, clear_frame}

-- A page directory with `n` entries: an entry is 0, or present and writable, and no two refer to one
-- table.
pub record AreTables (n : ℕ) (mem : Tables) (dir : ℕ) : Type 0 where
  pub entries : (i : ℕ) → i < n → (mem dir i ≡ 0) ⊎ (is_present (mem dir i) ≡ true)
  pub writable : (i : ℕ) → i < n → is_present (mem dir i) ≡ true → is_writable (mem dir i) ≡ true
  pub apart :
      (i j : ℕ)
      → i < n
      → j < n
      → is_present (mem dir i) ≡ true
      → is_present (mem dir j) ≡ true
      → frame_of (mem dir i) ≡ frame_of (mem dir j)
      → i ≡ j

-- The table of entry `i`, made from the page at `page` if there is none, and then entry `j` of it.
unfoldable pub made : ℕ → ℕ → ℕ → Tables → Tables
made dir i page mem =
    if mem dir i == 0
    then clear_frame (frame_of (page + 3)) (write_entry dir i (page + 3) mem)
    else mem

unfoldable pub changed : ℕ → ℕ → ℕ → ℕ → ℕ → Tables → Tables
unfolding made
changed dir i j page e mem =
    write_entry (frame_of (made dir i page mem dir i)) j e (made dir i page mem)

-- What a directory and its tables translate an index pair to.
unfoldable pub entry_at : ℕ → Tables → ℕ → ℕ → Option ℕ
entry_at dir mem i j =
    let pte = mem (frame_of (mem dir i)) j in
    if is_present (mem dir i) then (if is_present pte then some pte else none) else none

-- A directory whose entry `r` refers to itself.
pub record IsRecursive (n r : ℕ) (mem : Tables) (dir : ℕ) : Type 0 where
  pub tables : AreTables n mem dir
  pub inside : r < n
  pub present : is_present (mem dir r) ≡ true
  pub itself : frame_of (mem dir r) ≡ dir

-- The page at `page` is in no use as a table.
pub record IsFresh (n page : ℕ) (mem : Tables) (dir : ℕ) : Type 0 where
  pub aligned : page % 2 ^ 12 ≡ 0
  pub not_dir : frame_of (page + 3) ≢ dir
  pub not_table :
      (k : ℕ) → k < n → is_present (mem dir k) ≡ true → frame_of (mem dir k) ≢ frame_of (page + 3)

-- The directory after a change keeps what it translates but at the pair that is changed.
pub record IsMade (n r i : ℕ) (mem mem' : Tables) (dir : ℕ) : Type 0 where
  pub recursive : IsRecursive n r mem' dir
  pub there : is_present (mem' dir i) ≡ true
  pub elsewhere : frame_of (mem' dir i) ≢ dir
  pub same : (k l : ℕ) → k < n → k ≢ r → entry_at dir mem' k l ≡ entry_at dir mem k l

module _ (n r i page : ℕ) (mem : Tables) (dir : ℕ) (h : IsRecursive n r mem dir) (below : i < n)
    (other : i ≢ r) where
  IsMade-new :
      mem dir i ≡ 0
      → IsFresh n page mem dir
      → IsMade n r i mem (clear_frame (frame_of (page + 3)) (write_entry dir i (page + 3) mem)) dir
  unfolding entry_at
  IsMade-new empty fresh =
      let odd : is_present (page + 3) ≡ true = ground (arith, fresh.aligned) in
      let allows : is_writable (page + 3) ≡ true = ground (arith, fresh.aligned) in
      record {
        recursive = record {
          tables = record {
            entries = λ k l. ground (arith, odd, (h.tables).entries k l, fresh.not_dir);
            writable = λ k l p. ground (arith, allows, (h.tables).writable k l, fresh.not_dir);
            apart = λ k l p q a b e. ground (
              arith,
              odd,
              (h.tables).apart k l,
              fresh.not_dir,
              fresh.not_table k p,
              fresh.not_table l q,
            );
          };
          inside = h.inside;
          present = ground (arith, h.present, fresh.not_dir);
          itself = ground (arith, h.itself, fresh.not_dir);
        };
        there = ground (arith, odd, fresh.not_dir);
        elsewhere = ground (arith, fresh.not_dir);
        same = λ k l p q. ground (
          arith,
          odd,
          fresh.not_dir,
          fresh.not_table k p,
          (h.tables).apart k r p h.inside,
          h.itself,
          h.present,
        );
      }

  pub made-IsMade :
      (mem dir i ≡ 0 → IsFresh n page mem dir) → IsMade n r i mem (made dir i page mem) dir
  unfolding made
  made-IsMade fresh = elim (Bool-cases (mem dir i == 0)) [
    | inl empty ↦ rw empty (IsMade-new (ground arith) (fresh (ground arith)))
    | inr old ↦
        let there : is_present (mem dir i) ≡ true = ground (arith, (h.tables).entries i below) in
        rw old (record {
          recursive = h;
          there = there;
          elsewhere =
              λ e. other ((h.tables).apart i r below h.inside there h.present (e ∙ sym h.itself));
          same = λ k l p q. refl;
        })
  ]

-- The entry that a change writes is read back, every other pair of indices outside the recursive
-- entry reads as before, and the directory is still recursive.
pub record IsChanged (n r i j e : ℕ) (mem mem' : Tables) (dir : ℕ) : Type 0 where
  pub recursive : IsRecursive n r mem' dir
  pub written : is_present e ≡ true → entry_at dir mem' i j ≡ some e
  pub same :
      (k l : ℕ)
      → k < n
      → k ≢ r
      → ¬ ((k ≡ i) × (l ≡ j))
      → entry_at dir mem' k l ≡ entry_at dir mem k l

written_entry :
    (n r i j e : ℕ) (mem mem' : Tables) (dir : ℕ)
    → i < n
    → IsMade n r i mem mem' dir
    → IsChanged n r i j e mem (write_entry (frame_of (mem' dir i)) j e mem') dir
unfolding entry_at
written_entry n r i j e mem mem' dir below h =
    let tables = (h.recursive).tables in
    record {
      recursive = record {
        tables = record {
          entries = λ k l. ground (arith, tables.entries k l, h.elsewhere);
          writable = λ k l p. ground (arith, tables.writable k l, h.elsewhere);
          apart = λ k l p q a b c. ground (arith, tables.apart k l, h.elsewhere);
        };
        inside = (h.recursive).inside;
        present = ground (arith, (h.recursive).present, h.elsewhere);
        itself = ground (arith, (h.recursive).itself, h.elsewhere);
      };
      written = λ p. ground (arith, h.there, h.elsewhere);
      same = λ k l p q ne.
          ground (arith, h.there, h.elsewhere, tables.apart k i p below) ∙ h.same k l p q;
    }

pub changed-IsChanged :
    (n r i j page e : ℕ) (mem : Tables) (dir : ℕ)
    → IsRecursive n r mem dir
    → i < n
    → i ≢ r
    → (mem dir i ≡ 0 → IsFresh n page mem dir)
    → IsChanged n r i j e mem (changed dir i j page e mem) dir
unfolding changed
changed-IsChanged n r i j page e mem dir h below other fresh =
    written_entry n r i j e mem (made dir i page mem) dir below
      (made-IsMade n r i page mem dir h below other fresh)

-- A page that is in no use as a table stays so when another one becomes a table.
pub changed-IsFresh :
    (n i j page e q : ℕ) (mem : Tables) (dir : ℕ)
    → IsFresh n q mem dir
    → (mem dir i ≡ 0 → IsFresh n page mem dir)
    → (mem dir i ≢ 0 → frame_of (mem dir i) ≢ dir)
    → (mem dir i ≡ 0 → frame_of (page + 3) ≢ frame_of (q + 3))
    → IsFresh n q (changed dir i j page e mem) dir
unfolding changed made
changed-IsFresh n i j page e q mem dir old fresh table differ = elim (Bool-cases (mem dir i == 0)) [
  | inl empty ↦
      let new = fresh (ground arith) in
      let other = differ (ground arith) in
      rw empty (record {
        aligned = old.aligned;
        not_dir = old.not_dir;
        not_table = λ k l p. ground (arith, old.not_table k l, new.not_dir, other);
      })
  | inr full ↦
      let apart : frame_of (mem dir i) ≢ dir = table (ground arith) in
      rw full (record {
        aligned = old.aligned;
        not_dir = old.not_dir;
        not_table = λ k l p. ground (arith, old.not_table k l, apart);
      })
]
