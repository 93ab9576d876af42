-- ===== src/Mmu/Kernel.antt =====
-- map without PAE of arch/x86/32/mmu.cc with the boot allocator of core/mm/bootalloc.cc.
use Prim.Native.Nat.{bit_and, bit_or}
use liqui_dos.Common.{
  ℕ, ◌+◌, ◌/◌, ◌%◌, ◌^◌, ◌≤◌, ◌<◌, ◌≡◌, ◌≢◌, ◌&&◌, inl, inr, refl, sym, true, Bool, ap, ◌∙◌, arith,
  Option, none, some, ◌==◌, if◌then◌else◌, Bool-cases,
}
use liqui_dos.Bitmap.{is_set}
use liqui_dos.Paging.{get_pd_idx, get_pt_idx}
use liqui_dos.Paging.Laws.{get_pd_idx_lem}
use liqui_dos.BootAlloc.{BootAllocator, allocate_single}
use liqui_dos.BootAlloc.Single.{IsBootAllocator, IsTaken, IsFull, Outcome, allocate_single-Outcome}
use liqui_dos.Mmu.{Tables, frame_of, is_present, walk, kernel_map, flag_mask}
use liqui_dos.Mmu.Table.{IsRecursive, IsFresh, made, changed}
use liqui_dos.Mmu.Map.{map-changed, changed-walk}

-- The directory and the page tables are in frames that are in use.
pub record AreMarked (used : ℕ → Bool) (mem : Tables) (dir : ℕ) : Type 0 where
  pub dir_marked : used dir ≡ true
  pub tables_marked :
      (k : ℕ) → k < 1024 → is_present (mem dir k) ≡ true → used (frame_of (mem dir k)) ≡ true

-- The boot allocator is consistent, with pages below 4 GiB, each entry of the directory is 0, or present
-- and writable, no two refer to the same table, the last one refers to the directory, and the pages of
-- the tables are marked in the allocator's bitmap.
pub record IsKernelState (s : BootAllocator) (mem : Tables) (dir : ℕ) : Type 0 where
  pub allocator : IsBootAllocator s
  pub small : (s.alloc_map).bit_count ≤ 2 ^ 20
  pub recursive : IsRecursive 1024 1023 mem dir
  pub marked : AreMarked (is_set (s.alloc_map).bitmap) mem dir

-- The directory's entries after a change.
changed-dir_new :
    (i j page e k : ℕ) (mem : Tables) (dir : ℕ)
    → mem dir i ≡ 0
    → frame_of (page + 3) ≢ dir
    → changed dir i j page e mem dir k ≡ (if k == i then page + 3 else mem dir k)
unfolding changed made
changed-dir_new i j page e k mem dir empty apart = ground (arith, empty, apart)

changed-dir_old :
    (i j page e k : ℕ) (mem : Tables) (dir : ℕ)
    → mem dir i ≢ 0
    → frame_of (mem dir i) ≢ dir
    → changed dir i j page e mem dir k ≡ mem dir k
unfolding changed made
changed-dir_old i j page e k mem dir full apart = ground (arith, full, apart)

changed-AreMarked :
    (used used' : ℕ → Bool) (i j page e : ℕ) (mem : Tables) (dir : ℕ)
    → AreMarked used mem dir
    → (mem dir i ≡ 0 → frame_of (page + 3) ≢ dir)
    → (mem dir i ≢ 0 → frame_of (mem dir i) ≢ dir)
    → ((f : ℕ) → used f ≡ true → used' f ≡ true)
    → (mem dir i ≡ 0 → used' (frame_of (page + 3)) ≡ true)
    → AreMarked used' (changed dir i j page e mem) dir
changed-AreMarked used used' i j page e mem dir old fresh table more new = record {
  dir_marked = more dir old.dir_marked;
  tables_marked = each;
}
  where
    each :
        (k : ℕ)
        → k < 1024
        → is_present (changed dir i j page e mem dir k) ≡ true
        → used' (frame_of (changed dir i j page e mem dir k)) ≡ true
    each k l p = elim (Bool-cases (mem dir i == 0 && k == i)) [
      | inl made_it ↦
          let empty : mem dir i ≡ 0 = ground arith in
          let entry : changed dir i j page e mem dir k ≡ page + 3 =
            changed-dir_new i j page e k mem dir empty (fresh empty) ∙ ground arith in
          ap (λ x. used' (frame_of x)) entry ∙ new empty
      | inr kept ↦
          let entry : changed dir i j page e mem dir k ≡ mem dir k =
            elim (Bool-cases (mem dir i == 0)) [
              | inl e0 ↦
                  let empty : mem dir i ≡ 0 = ground arith in
                  changed-dir_new i j page e k mem dir empty (fresh empty) ∙ ground arith
              | inr e1 ↦
                  let full : mem dir i ≢ 0 = ground arith in
                  changed-dir_old i j page e k mem dir full (table full)
            ] in
          ap (λ x. used' (frame_of x)) entry
          ∙ more _ (old.tables_marked k l (ap is_present (sym entry) ∙ p))
    ]

-- The page that the allocator takes is in no use as a table.
taken-IsFresh :
    (s s' : BootAllocator) (mem : Tables) (dir page k : ℕ)
    → IsKernelState s mem dir
    → IsTaken s page s' k
    → (page < 2 ^ 32) × (frame_of (page + 3) ≡ k) × IsFresh 1024 page mem dir
taken-IsFresh s s' mem dir page k st t =
    let frame : frame_of (page + 3) ≡ k = omega (arith, t.address, t.below, st.small) in
    (
      omega (arith, t.address, t.below, st.small),
      frame,
      record {
        aligned = omega (arith, t.address);
        not_dir = λ e. ground (arith, t.was_free, (st.marked).dir_marked, frame);
        not_table = λ i l p e. ground (arith, t.was_free, (st.marked).tables_marked i l p, frame);
      },
    )

table_apart :
    (i : ℕ) (mem : Tables) (dir : ℕ)
    → IsRecursive 1024 1023 mem dir
    → i < 1024
    → i ≢ 1023
    → mem dir i ≢ 0
    → frame_of (mem dir i) ≢ dir
table_apart i mem dir h below other full e = elim ((h.tables).entries i below) [
  | inl empty ↦ full empty
  | inr there ↦ other ((h.tables).apart i 1023 below h.inside there h.present (e ∙ sym h.itself))
]

-- Where a page is free, the allocator gives one.
allocated :
    (s : BootAllocator)
    → IsBootAllocator s
    → ¬ IsFull s
    → (page : ℕ) × (s' : BootAllocator) × (k : ℕ) × (allocate_single s ≡ some (page, s'))
      × IsTaken s page s' k
allocated s h free = by_outcome (allocate_single s) refl (allocate_single-Outcome s h)
  where
    by_outcome :
        (r : Option (ℕ × BootAllocator))
        → allocate_single s ≡ r
        → Outcome s r
        → (page : ℕ) × (s' : BootAllocator) × (k : ℕ) × (allocate_single s ≡ some (page, s'))
          × IsTaken s page s' k
    by_outcome none e full = absurd (free full)
    by_outcome (some (page, s')) e (k, t) = (page, s', k, e, t)

-- In a consistent state, with a free page where the address has no page table yet, kernel_map of an
-- address outside the last 4 MiB succeeds and leaves the state consistent: a new table is in a page
-- that the allocator has marked. The address then translates to the entry of the physical page
-- with the flags that are kept, if they include the present bit, and every other page outside the
-- last 4 MiB translates as before.
pub kernel_map-IsKernelState :
    (s : BootAllocator) (mem : Tables) (dir virt phys flags : ℕ)
    → IsKernelState s mem dir
    → (mem dir (get_pd_idx virt) ≡ 0 → ¬ IsFull s)
    → virt < 2 ^ 32
    → get_pd_idx virt ≢ 1023
    → (s' : BootAllocator) × (mem' : Tables) × (kernel_map dir virt phys flags (s, mem)
        ≡ some (s', mem'))
      × IsKernelState s' mem' dir
      × (flags % 2 ≡ 1
          → walk dir mem' virt ≡ some (bit_or (phys % 2 ^ 32) (bit_and (flags % 2 ^ 16) flag_mask)))
      × ((v : ℕ)
          → v < 2 ^ 32
          → get_pd_idx v ≢ 1023
          → v / 2 ^ 12 ≢ virt / 2 ^ 12
          → walk dir mem' v ≡ walk dir mem v)
kernel_map-IsKernelState s mem dir virt phys flags st free fits other =
    let i : ℕ = get_pd_idx virt in
    let j : ℕ = get_pt_idx virt in
    let e : ℕ = bit_or (phys % 2 ^ 32) (bit_and (flags % 2 ^ 16) flag_mask) in
    elim (Bool-cases (mem dir i == 0)) [
      | inl empty ↦
          let (page, s', k, gives, t) = allocated s st.allocator (free (ground arith)) in
          let (small, frame, new) = taken-IsFresh s s' mem dir page k st t in
          let (walks, same, recursive) =
            changed-walk page mem dir virt phys flags fits other st.recursive (λ _. new) in
          (
            s',
            changed dir i j page e mem,
            map-changed allocate_single s s' page mem dir virt phys flags fits other st.recursive
                  (λ _. gives) (λ _. small) (λ _. new)
                ∙ rw empty refl,
            record {
              allocator = t.consistent;
              small = omega (arith, t.same_count, st.small);
              recursive = recursive;
              marked =
                  changed-AreMarked _ (is_set (s'.alloc_map).bitmap) i j page e mem dir st.marked
                    (λ _. new.not_dir) (λ z. absurd (ground (arith, empty, z)))
                    (λ f b. ground (arith, t.bits f, b)) (λ _. ground (arith, frame, t.bits k));
            },
            walks,
            same,
          )
      | inr full ↦
          let there : mem dir i ≢ 0 = ground arith in
          let below : i < 1024 = omega (arith, get_pd_idx_lem virt) in
          let (walks, same, recursive) =
            changed-walk 0 mem dir virt phys flags fits other st.recursive
              (λ z. absurd (there z)) in
          (
            s,
            changed dir i j 0 e mem,
            map-changed allocate_single s s 0 mem dir virt phys flags fits other st.recursive
                  (λ z. absurd (there z)) (λ z. absurd (there z)) (λ z. absurd (there z))
                ∙ rw full refl,
            record {
              allocator = st.allocator;
              small = st.small;
              recursive = recursive;
              marked =
                  changed-AreMarked _ (is_set (s.alloc_map).bitmap) i j 0 e mem dir st.marked
                    (λ z. absurd (there z))
                    (λ _. table_apart i mem dir st.recursive below other there) (λ f b. b)
                    (λ z. absurd (there z));
            },
            walks,
            same,
          )
    ]
