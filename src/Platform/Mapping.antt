-- ===== src/Platform/Mapping.antt =====
-- The mapping of memory at start-up in platform/pc/platform.cc, over the page tables of
-- arch/x86/32/mmu.cc without PAE.
use Prim.Native.Nat.{min, max}
use liqui_dos.Common.{
  ℕ, zero, suc, ◌+◌, ◌*◌, ◌%◌, ◌^◌, ◌≤◌, ◌≡◌, inl, inr, refl, sym, true, false, ◌||◌, ap, ◌∙◌,
  arith, Option, some, List, [], ◌∷◌, leb, ◌==◌, Bool-cases, length, All,
}
use mathlib.Core.Path.{subst}
use liqui_dos.Paging.{page_size}
use liqui_dos.BootMem.{MmapEntry, memory_available}
use liqui_dos.Mmu.{Tables, map, ◌>>=◌}
use liqui_dos.Mmu.Table.{IsRecursive}
use liqui_dos.Mmu.Range.{Supplies, AreFresh, IsRange, IsRange-zero, IsRange-suc, map-IsRange}
use liqui_dos.Platform.Pages.{
  area_pages, area_start, usable, room, mapped_pages, mapped_pages-cons, mapped_pages-nil,
  mapped_pages-stop, room_lem, IsLow, usable_lem,
}
use liqui_dos.Platform.{map_area, map_memory, kmalloc_base, kmalloc_length}
use liqui_dos.Platform.Linear.{IsLinear, IsLinear-nil, IsLinear-area, area_count_lem, area_and_rest}

module _ {S : Type 0} (alloc : S → Option (ℕ × S)) (m : ℕ) (st : ℕ → S) (page : ℕ → ℕ)
    (supply : Supplies alloc m st page) (dir : ℕ) where
  abbrev mapping : ℕ → ℕ → ℕ → S × Tables → Option (S × Tables)
  mapping = map alloc dir

  map_area-IsRange :
      (n k pa va top : ℕ) (mem : Tables)
      → k + n ≤ m
      → va % page_size ≡ 0
      → pa % page_size ≡ 0
      → va + kmalloc_base + n * page_size ≤ 0xFFC00000
      → pa + n * page_size ≤ 2 ^ 32
      → IsRecursive 1024 1023 mem dir
      → AreFresh m k page mem dir
      → (k' : ℕ) × (mem' : Tables) × (top' : ℕ) × (map_area mapping n pa va top (st k, mem)
          ≡ some (va + n * page_size, top', (st k', mem')))
        × (k' ≤ k + n)
        × IsRange n (va + kmalloc_base) pa 3 mem mem' dir
        × AreFresh m k' page mem' dir
  unfolding map_area
  map_area-IsRange zero k pa va top mem l va_page pa_page va_high pa_high h fresh = (
    k,
    mem,
    top,
    ap (λ x. some (x, top, (st k, mem))) (omega arith),
    omega arith,
    IsRange-zero (va + kmalloc_base) pa 3 mem dir h,
    fresh,
  )
  map_area-IsRange (suc n) k pa va top mem l va_page pa_page va_high pa_high h fresh =
      let (k1, mem1, done, few, first, fresh1) =
        map-IsRange alloc m st page supply dir k (va + kmalloc_base) pa 3 mem (omega arith)
          (omega arith) pa_page (omega arith) (omega arith) (omega arith) h fresh in
      let (k2, mem2, top', done', few', rest, fresh2) =
        map_area-IsRange n k1 (pa + page_size) (va + page_size) (max top (pa + page_size)) mem1
          (omega (arith, few)) (omega arith) (omega arith) (omega arith) (omega arith)
          first.recursive fresh1 in
      let shift : va + page_size + kmalloc_base ≡ va + kmalloc_base + page_size = omega arith in
      (
        k2,
        mem2,
        top',
        ap
              (λ o.
                o
                >>= map_area mapping n (pa + page_size) (va + page_size) (max top (pa + page_size)))
              done
            ∙ done'
            ∙ ap (λ x. some (x, top', (st k2, mem2))) (omega arith),
        omega (arith, few, few'),
        IsRange-suc alloc m st page supply dir n (va + kmalloc_base) pa 3 mem mem1 mem2
            (omega arith) va_high first
            (subst (λ x. IsRange n x (pa + page_size) 3 mem1 mem2 dir) shift rest),
        fresh2,
      )

  map_memory-next :
      (area : MmapEntry) (ms : List MmapEntry) (va top : ℕ) (s : S × Tables)
      → (leb kmalloc_length va || leb 0xFFFFFFFF area.addr) ≡ false
      → map_memory mapping false (area ∷ ms) va top s ≡ (
          map_area mapping (min (usable area) (room va)) (area_start area) va top s
          >>= λ (va', top', s'). map_memory mapping false ms va' top' s')
  unfolding map_memory usable room
  map_memory-next area ms va top s h = elim (Bool-cases (area.kind == memory_available)) [
    | inl yes_kind ↦ rw (h, yes_kind) refl
    | inr no_kind ↦
        let e : 0 ≡ min 0 (room va) = omega arith in
        rw (h, no_kind)
          (ap
            (λ (n : ℕ). map_area mapping n (area_start area) va top s >>= λ (va', top', s').
              map_memory mapping false ms va' top' s')
            e)
  ]

  -- Nothing is left to be mapped.
  nothing_mapped :
      (ms : List MmapEntry) (k va top : ℕ) (mem : Tables)
      → mapped_pages va ms ≡ []
      → map_memory mapping false ms va top (st k, mem) ≡ some (va, top, (st k, mem))
      → IsRecursive 1024 1023 mem dir
      → AreFresh m k page mem dir
      → (k' : ℕ) × (mem' : Tables) × (top' : ℕ) × (map_memory mapping false ms va top (st k, mem)
          ≡ some (va + length (mapped_pages va ms) * page_size, top', (st k', mem')))
        × IsLinear va (mapped_pages va ms) mem mem' dir
        × AreFresh m k' page mem' dir
  nothing_mapped ms k va top mem none_left done h fresh =
      let count : length (mapped_pages va ms) ≡ 0 = ap (λ ps. length ps) none_left in
      let end : va ≡ va + length (mapped_pages va ms) * page_size = omega (arith, count) in
      (
        k,
        mem,
        top,
        done ∙ ap (λ x. some (x, top, (st k, mem))) end,
        subst (λ ps. IsLinear va ps mem mem dir) (sym none_left) (IsLinear-nil va mem dir h),
        fresh,
      )

  map_memory-stop :
      (area : MmapEntry) (ms : List MmapEntry) (va top : ℕ) (s : S × Tables)
      → (leb kmalloc_length va || leb 0xFFFFFFFF area.addr) ≡ true
      → map_memory mapping false (area ∷ ms) va top s ≡ some (va, top, s)
  unfolding map_memory
  map_memory-stop area ms va top s h = rw h refl

  map_memory-nil :
      (va top : ℕ) (s : S × Tables) → map_memory mapping false [] va top s ≡ some (va, top, s)
  unfolding map_memory
  map_memory-nil va top s = refl

  -- One area that is mapped.
  map_memory-area :
      (area : MmapEntry) (ms : List MmapEntry) (k va top : ℕ) (mem : Tables)
      → IsLow area
      → (leb kmalloc_length va || leb 0xFFFFFFFF area.addr) ≡ false
      → va + min (usable area) (room va) * page_size ≤ kmalloc_length
      → va % page_size ≡ 0
      → k + min (usable area) (room va) ≤ m
      → IsRecursive 1024 1023 mem dir
      → AreFresh m k page mem dir
      → (k' : ℕ) × (mem' : Tables) × (top' : ℕ) × (map_memory mapping false
            (area ∷ ms)
            va
            top
            (st k, mem)
          ≡ map_memory mapping false ms
              (va + min (usable area) (room va) * page_size)
              top'
              (st k', mem'))
        × (k' ≤ k + min (usable area) (room va))
        × IsLinear va (area_pages (min (usable area) (room va)) (area_start area)) mem mem' dir
        × AreFresh m k' page mem' dir
  map_memory-area area ms k va top mem low go fits va_page l h fresh =
      let n : ℕ = min (usable area) (room va) in
      let (start_page, start_high) = usable_lem area low (ground arith) in
      let (k1, mem1, top1, done, few, range, fresh1) =
        map_area-IsRange n k (area_start area) va top mem l va_page start_page (omega (arith, fits))
          (omega (arith, start_high)) h fresh in
      (
        k1,
        mem1,
        top1,
        map_memory-next area ms va top (st k, mem) go
            ∙ ap (λ o. o >>= λ (va', top', s'). map_memory mapping false ms va' top' s') done,
        few,
        IsLinear-area n va (area_start area) mem mem1 dir range,
        fresh1,
      )

  -- Given a page directory whose entries are each 0, or present and writable, of which no two refer
  -- to the same table, and whose last entry refers to the directory itself, an allocator that gives
  -- a page for each page to be mapped, all different, below 4 GiB and in no use as tables, areas
  -- within 4 GiB and a va at a page within the window, the mapping of memory without PAE succeeds.
  -- Then the window from C0000000h + va on translates, without holes, to the whole pages of the
  -- available areas in their order, up to the end of the window at E0000000h or the first area at 4
  -- GiB, present and writable. Outside the mapped part of the window and the last 4 MiB each
  -- address translates as before.
  pub map_memory-IsLinear :
      (ms : List MmapEntry) (k va top : ℕ) (mem : Tables)
      → All IsLow ms
      → va % page_size ≡ 0
      → va ≤ kmalloc_length
      → k + length (mapped_pages va ms) ≤ m
      → IsRecursive 1024 1023 mem dir
      → AreFresh m k page mem dir
      → (k' : ℕ) × (mem' : Tables) × (top' : ℕ) × (map_memory mapping false ms va top (st k, mem)
          ≡ some (va + length (mapped_pages va ms) * page_size, top', (st k', mem')))
        × IsLinear va (mapped_pages va ms) mem mem' dir
        × AreFresh m k' page mem' dir
  map_memory-IsLinear [] k va top mem low va_page va_high l h fresh =
      nothing_mapped [] k va top mem (mapped_pages-nil va) (map_memory-nil va top (st k, mem)) h
        fresh
  map_memory-IsLinear (area ∷ ms) k va top mem low va_page va_high l h fresh =
      elim (Bool-cases (leb kmalloc_length va || leb 0xFFFFFFFF area.addr)) [
        | inl stop ↦
            nothing_mapped (area ∷ ms) k va top mem (mapped_pages-stop va area ms stop)
              (map_memory-stop area ms va top (st k, mem) stop) h fresh
        | inr go ↦
            let next : ℕ = va + min (usable area) (room va) * page_size in
            let fits : next ≤ kmalloc_length =
              room_lem va (min (usable area) (room va)) va_page va_high (omega arith) in
            let split = mapped_pages-cons va area ms (ground arith) fits in
            let (k1, mem1, top1, done, few, head, fresh1) =
              map_memory-area area ms k va top mem low.0 go fits va_page
                (omega (arith, l, area_count_lem area ms va split)) h fresh in
            let (k2, mem2, top2, done2, rest, fresh2) =
              map_memory-IsLinear ms k1 next top1 mem1 low.1 (omega arith) fits
                (omega (arith, l, few, area_count_lem area ms va split)) head.recursive fresh1 in
            (
              k2,
              mem2,
              top2,
              done
                  ∙ done2
                  ∙ ap (λ x. some (x, top2, (st k2, mem2)))
                      (omega (arith, area_count_lem area ms va split)),
              area_and_rest area ms va split mem mem1 mem2 dir fits head rest,
              fresh2,
            )
      ]
