-- ===== src/Platform/Pages.antt =====
-- The pages that platform/pc/platform.cc maps at start-up, read off the memory map.
use Prim.Native.Nat.{min}
use liqui_dos.Common.{
  ℕ, zero, suc, ◌+◌, ◌-◌, ◌*◌, ◌/◌, ◌%◌, ◌^◌, ◌≤◌, ◌<◌, ◌≡◌, inl, inr, refl, true, false, ◌||◌, ap,
  ◌∙◌, arith, none, some, List, [], ◌∷◌, ◌++◌, ltb, leb, ◌==◌, if◌then◌else◌, Bool-cases, get_elem?,
  length,
}
use liqui_dos.Paging.{page_size, page_align, page_align_down}
use liqui_dos.Paging.Laws.{page_align_lem, page_align_down_lem}
use liqui_dos.BootMem.{MmapEntry, memory_available}
use liqui_dos.Platform.{kmalloc_length}

-- `n` pages in a row from `pa` on.
abbrev pub area_pages : ℕ → ℕ → List ℕ
area_pages zero pa = []
area_pages (suc n) pa = pa ∷ area_pages n (pa + page_size)

abbrev pub area_start : MmapEntry → ℕ
area_start m = page_align 64 m.addr

abbrev pub area_count : MmapEntry → ℕ
area_count m = (page_align_down 64 ((m.addr + m.len) % 2 ^ 64) - area_start m) / page_size

-- The whole pages of the available areas, up to the first area at 4 GiB.
unfoldable pub available_pages : List MmapEntry → List ℕ
available_pages [] = []
available_pages (m ∷ ms) =
    if leb 0xFFFFFFFF m.addr
    then []
    else (if m.kind == memory_available then area_pages (area_count m) (area_start m) else [])
      ++ available_pages ms

abbrev pub take : ℕ → List ℕ → List ℕ
take zero xs = []
take (suc n) [] = []
take (suc n) (x ∷ xs) = x ∷ take n xs

pub length-area_pages : (n pa : ℕ) → length (area_pages n pa) ≡ n
length-area_pages zero pa = refl
length-area_pages (suc n) pa = ap suc (length-area_pages n (pa + page_size))

pub get_elem?-area_pages :
    (n pa k : ℕ) → k < n → get_elem? (area_pages n pa) k ≡ some (pa + k * page_size)
get_elem?-area_pages zero pa k l = absurd (omega arith)
get_elem?-area_pages (suc n) pa zero l = ap (λ x. some x) (omega arith)
get_elem?-area_pages (suc n) pa (suc k) l =
    get_elem?-area_pages n (pa + page_size) k (omega arith) ∙ ap (λ x. some x) (omega arith)

pub get_elem?-area_pages_behind : (n pa k : ℕ) → n ≤ k → get_elem? (area_pages n pa) k ≡ none
get_elem?-area_pages_behind zero pa k l = refl
get_elem?-area_pages_behind (suc n) pa zero l = absurd (omega arith)
get_elem?-area_pages_behind (suc n) pa (suc k) l =
    get_elem?-area_pages_behind n (pa + page_size) k (omega arith)

take-area_pages : (l n pa : ℕ) → take l (area_pages n pa) ≡ area_pages (min n l) pa
take-area_pages zero n pa = let e : 0 ≡ min n 0 = omega arith in ap (λ x. area_pages x pa) e
take-area_pages (suc l) zero pa =
    let e : 0 ≡ min 0 (suc l) = omega arith in ap (λ x. area_pages x pa) e
take-area_pages (suc l) (suc n) pa =
    let e : suc (min n l) ≡ min (suc n) (suc l) = omega arith in
    ap (λ xs. pa ∷ xs) (take-area_pages l n (pa + page_size)) ∙ ap (λ x. area_pages x pa) e

take-append : (l : ℕ) (xs ys : List ℕ) → take l (xs ++ ys) ≡ take l xs ++ take (l - length xs) ys
take-append zero xs ys = let e : 0 ≡ 0 - length xs = omega arith in ap (λ x. take x ys) e
take-append (suc l) [] ys = let e : suc l ≡ suc l - 0 = omega arith in ap (λ x. take x ys) e
take-append (suc l) (x ∷ xs) ys =
    ap (λ zs. x ∷ zs) (take-append l xs ys ∙ ap (λ n. take l xs ++ take n ys) (omega arith))

pub get_elem?-append :
    (xs ys : List ℕ) (k : ℕ)
    → get_elem? (xs ++ ys) k
      ≡ (if ltb k (length xs) then get_elem? xs k else get_elem? ys (k - length xs))
get_elem?-append [] ys k = ground arith
get_elem?-append (x ∷ xs) ys zero = ground arith
get_elem?-append (x ∷ xs) ys (suc k) = get_elem?-append xs ys k ∙ ground arith

-- The pages of the area that the code maps, where it has room for them.
unfoldable pub usable : MmapEntry → ℕ
usable m = if m.kind == memory_available then area_count m else 0

unfoldable pub room : ℕ → ℕ
room va = (kmalloc_length - va) / page_size

-- The pages that are mapped from `va` on.
abbrev pub mapped_pages : ℕ → List MmapEntry → List ℕ
mapped_pages va ms = take ((kmalloc_length - va) / page_size) (available_pages ms)

take-nil : (n : ℕ) → take n [] ≡ []
take-nil zero = refl
take-nil (suc n) = refl

available_pages-cons :
    (m : MmapEntry) (ms : List MmapEntry)
    → leb 0xFFFFFFFF m.addr ≡ false
    → available_pages (m ∷ ms) ≡ area_pages (usable m) (area_start m) ++ available_pages ms
unfolding available_pages usable
available_pages-cons m ms h = elim (Bool-cases (m.kind == memory_available)) [
  | inl yes_kind ↦ rw (h, yes_kind) refl
  | inr no_kind ↦ rw (h, no_kind) refl
]

pub mapped_pages-cons :
    (va : ℕ) (m : MmapEntry) (ms : List MmapEntry)
    → leb 0xFFFFFFFF m.addr ≡ false
    → va + min (usable m) (room va) * page_size ≤ kmalloc_length
    → mapped_pages va (m ∷ ms)
      ≡ area_pages (min (usable m) (room va)) (area_start m)
        ++ mapped_pages (va + min (usable m) (room va) * page_size) ms
unfolding room
mapped_pages-cons va m ms h fits =
    let left : (kmalloc_length - va) / page_size - length (area_pages (usable m) (area_start m))
        ≡ (kmalloc_length - (va + min (usable m) (room va) * page_size)) / page_size =
      omega (arith, length-area_pages (usable m) (area_start m)) in
    ap (take (room va)) (available_pages-cons m ms h)
    ∙ take-append (room va) (area_pages (usable m) (area_start m)) (available_pages ms)
    ∙ ap
        (λ xs.
          xs ++ take (room va - length (area_pages (usable m) (area_start m))) (available_pages ms))
        (take-area_pages (room va) (usable m) (area_start m))
    ∙ ap
        (λ (n : ℕ).
          area_pages (min (usable m) (room va)) (area_start m) ++ take n (available_pages ms))
        left

pub mapped_pages-nil : (va : ℕ) → mapped_pages va [] ≡ []
unfolding available_pages
mapped_pages-nil va = take-nil ((kmalloc_length - va) / page_size)

pub room_lem :
    (va n : ℕ)
    → va % page_size ≡ 0
    → va ≤ kmalloc_length
    → n ≤ room va
    → va + n * page_size ≤ kmalloc_length
unfolding room
room_lem va n a l h = omega arith

length-take : (n : ℕ) (xs : List ℕ) → length (take n xs) ≤ n
length-take zero xs = omega arith
length-take (suc n) [] = omega arith
length-take (suc n) (x ∷ xs) = omega (arith, length-take n xs)

pub pages_fit :
    (ms : List MmapEntry) (va : ℕ)
    → va ≤ kmalloc_length
    → va + length (mapped_pages va ms) * page_size ≤ kmalloc_length
pages_fit ms va l =
    omega (arith, length-take ((kmalloc_length - va) / page_size) (available_pages ms))

pub mapped_pages-stop :
    (va : ℕ) (m : MmapEntry) (ms : List MmapEntry)
    → (leb kmalloc_length va || leb 0xFFFFFFFF m.addr) ≡ true
    → mapped_pages va (m ∷ ms) ≡ []
unfolding available_pages
mapped_pages-stop va m ms h = elim (Bool-cases (leb 0xFFFFFFFF m.addr)) [
  | inl high ↦ rw high (take-nil ((kmalloc_length - va) / page_size))
  | inr low ↦
      let full : (kmalloc_length - va) / page_size ≡ 0 = ground arith in
      ap (λ (n : ℕ). take n (available_pages (m ∷ ms))) full
]

-- The area ends within 4 GiB.
abbrev pub IsLow : MmapEntry → Type 0
IsLow m = m.addr + m.len ≤ 2 ^ 32

-- Where an area lies.
pub usable_lem :
    (m : MmapEntry)
    → IsLow m
    → leb 0xFFFFFFFF m.addr ≡ false
    → (area_start m % page_size ≡ 0) × (area_start m + usable m * page_size ≤ 2 ^ 32)
unfolding usable
usable_lem m low first =
    let under : m.addr < 0xFFFFFFFF = ground arith in
    let (whole, above, below) = page_align_lem 64 m.addr (omega arith) (omega arith) in
    let down = page_align_down_lem 64 ((m.addr + m.len) % 2 ^ 64) (omega arith) (omega arith) in
    (
      whole,
      elim (Bool-cases (m.kind == memory_available)) [
        | inl some_pages ↦ rw some_pages (omega (arith, down, under, whole, below))
        | inr no_pages ↦ rw no_pages (omega (arith, under, whole, below))
      ],
    )
