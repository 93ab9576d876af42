-- ===== src/Platform/Linear.antt =====
-- A list of pages that follow one another in the kernel's window on physical memory.
use Prim.Native.Nat.{min}
use liqui_dos.Common.{
  ℕ, ◌+◌, ◌-◌, ◌*◌, ◌^◌, ◌≤◌, ◌<◌, ◌≡◌, ◌≢◌, ◌⊎◌, inl, inr, refl, sym, ap, ◌∙◌, arith, some, List,
  [], ◌∷◌, ◌++◌, ltb, Bool-cases, get_elem?, length, length-append, some_inj,
}
use mathlib.Core.Path.{subst}
use liqui_dos.Paging.{page_size, get_pd_idx}
use liqui_dos.Paging.Laws.{get_pd_idx_lem}
use liqui_dos.BootMem.{MmapEntry}
use liqui_dos.Mmu.{Tables, walk}
use liqui_dos.Mmu.Table.{IsRecursive}
use liqui_dos.Mmu.Range.{IsRange}
use liqui_dos.Platform.Pages.{
  area_pages, area_start, usable, room, mapped_pages, length-area_pages, get_elem?-area_pages,
  get_elem?-area_pages_behind, get_elem?-append, pages_fit,
}
use liqui_dos.Platform.{kmalloc_base, kmalloc_length}

-- From `va` on the kernel's window translates to the pages, and the rest as before.
pub record IsLinear (va : ℕ) (pages : List ℕ) (mem mem' : Tables) (dir : ℕ) : Type 0 where
  pub translates :
      (k p o : ℕ)
      → get_elem? pages k ≡ some p
      → o < page_size
      → walk dir mem' (kmalloc_base + va + k * page_size + o) ≡ some (p + 3)
  pub same :
      (w : ℕ)
      → w < 2 ^ 32
      → get_pd_idx w ≢ 1023
      → (w < kmalloc_base + va) ⊎ (kmalloc_base + va + length pages * page_size ≤ w)
      → walk dir mem' w ≡ walk dir mem w
  pub recursive : IsRecursive 1024 1023 mem' dir

pub IsLinear-nil :
    (va : ℕ) (mem : Tables) (dir : ℕ) → IsRecursive 1024 1023 mem dir → IsLinear va [] mem mem dir
IsLinear-nil va mem dir h = record {
  translates = λ k p o e l. absurd cc;
  same = λ w a b c. refl;
  recursive = h;
}

pub IsLinear-area :
    (n va pa : ℕ) (mem mem' : Tables) (dir : ℕ)
    → IsRange n (va + kmalloc_base) pa 3 mem mem' dir
    → IsLinear va (area_pages n pa) mem mem' dir
IsLinear-area n va pa mem mem' dir h =
    let count = length-area_pages n pa in
    record {
      translates = λ k p o e l. elim (Bool-cases (ltb k n)) [
        | inl inside ↦
            let page : pa + k * page_size ≡ p =
              some_inj (sym (get_elem?-area_pages n pa k (ground arith)) ∙ e) in
            h.translates (kmalloc_base + va + k * page_size + o) (omega arith) (ground arith)
            ∙ ap (λ x. some x) (omega (arith, page))
        | inr outside ↦ cc (e, get_elem?-area_pages_behind n pa k (ground arith))
      ];
      same = λ w a b c.
          h.same w a b
            (elim c [ inl below ↦ inl (omega arith) | inr above ↦ inr (omega (arith, count)) ]);
      recursive = h.recursive;
    }

pub IsLinear-append :
    (va : ℕ) (xs ys : List ℕ) (mem mem1 mem2 : Tables) (dir : ℕ)
    → kmalloc_base + va + (length xs + length ys) * page_size ≤ 0xFFC00000
    → IsLinear va xs mem mem1 dir
    → IsLinear (va + length xs * page_size) ys mem1 mem2 dir
    → IsLinear va (xs ++ ys) mem mem2 dir
IsLinear-append va xs ys mem mem1 mem2 dir low first rest =
    let total = length-append xs ys in
    record {
      translates = λ k p o e l. elim (Bool-cases (ltb k (length xs))) [
        | inl early ↦
            rest.same (kmalloc_base + va + k * page_size + o) (ground arith)
              (ground (arith, get_pd_idx_lem (kmalloc_base + va + k * page_size + o)))
              (inl (ground arith))
            ∙ first.translates k p o (ground (arith, get_elem?-append xs ys k)) l
        | inr late ↦
            let place : kmalloc_base + va + k * page_size + o
                ≡ kmalloc_base + (va + length xs * page_size) + (k - length xs) * page_size + o =
              ground arith in
            ap (walk dir mem2) place
            ∙ rest.translates (k - length xs) p o (ground (arith, get_elem?-append xs ys k)) l
      ];
      same = λ w a b c.
          rest.same w a b
            (elim c [ inl below ↦ inl (omega arith) | inr above ↦ inr (omega (arith, total)) ])
          ∙ first.same w a b
              (elim c [ inl below ↦ inl (omega arith) | inr above ↦ inr (omega (arith, total)) ]);
      recursive = rest.recursive;
    }

module _ (area : MmapEntry) (ms : List MmapEntry) (va : ℕ)
    (split : mapped_pages va (area ∷ ms)
      ≡ area_pages (min (usable area) (room va)) (area_start area)
        ++ mapped_pages (va + min (usable area) (room va) * page_size) ms) where
  pub area_count_lem :
      length (mapped_pages va (area ∷ ms))
      ≡ min (usable area) (room va)
        + length (mapped_pages (va + min (usable area) (room va) * page_size) ms)
  area_count_lem =
      let n : ℕ = min (usable area) (room va) in
      ap (λ ps. length ps) split
      ∙ length-append (area_pages n (area_start area)) (mapped_pages (va + n * page_size) ms)
      ∙ omega (arith, length-area_pages n (area_start area))

  -- The pages of one area and those of the later ones.
  pub area_and_rest :
      (mem mem1 mem2 : Tables) (dir : ℕ)
      → va + min (usable area) (room va) * page_size ≤ kmalloc_length
      → IsLinear va (area_pages (min (usable area) (room va)) (area_start area)) mem mem1 dir
      → IsLinear
          (va + min (usable area) (room va) * page_size)
          (mapped_pages (va + min (usable area) (room va) * page_size) ms)
          mem1
          mem2
          dir
      → IsLinear va (mapped_pages va (area ∷ ms)) mem mem2 dir
  area_and_rest mem mem1 mem2 dir fits head rest =
      let n : ℕ = min (usable area) (room va) in
      let pages : List ℕ = area_pages n (area_start area) in
      let later : List ℕ = mapped_pages (va + n * page_size) ms in
      let first_count = length-area_pages n (area_start area) in
      let count : va + length pages * page_size ≡ va + n * page_size = omega (arith, first_count) in
      subst (λ ps. IsLinear va ps mem mem2 dir) (sym split)
        (IsLinear-append va pages later mem mem1 mem2 dir
          (omega (arith, first_count, pages_fit ms (va + n * page_size) fits)) head
          (subst (λ x. IsLinear x later mem1 mem2 dir) (sym count) rest))
