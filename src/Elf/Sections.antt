-- ===== src/Elf/Sections.antt =====
-- Lemmas on find_section32 and load_img.
use liqui_dos.Common.{
  ℕ, zero, suc, ◌+◌, ◌%◌, ◌^◌, ◌<◌, ◌≡◌, ◌≢◌, ◌⊎◌, ◌↔◌, inl, inr, refl, sym, arith, Bool, true,
  false, ◌==◌, Option, none, some, Bool-cases, ==_iff,
}
use liqui_dos.Strings.{Bytes}
use liqui_dos.Strings.Length.{IsText}
use liqui_dos.Strings.Compare.{IsBytes, Same}
use liqui_dos.Strings.Equal.{strcmp_lem}
use liqui_dos.Elf.{
  Context, Texts, read8, ehdr_at, shdr_at, section_header, read_section32, is_section, find_loop,
  find_section32, or_null, load_img32, is_valid_elf, load_img,
}

-- The address of the name of section `k`.
abbrev pub section_name : Bytes → Context → ℕ → ℕ
section_name m ctx k =
    (read_section32 m ctx (ehdr_at m ctx.img32).e_shstrndx
      + (shdr_at m (section_header ctx k)).sh_name)
    % 2 ^ 32

-- The names of the sections are texts of the lengths `len`, which end within the fuel.
pub record AreNamed (fuel : ℕ) (m : Bytes) (ctx : Context) (len : ℕ → ℕ) : Type 0 where
  pub text : (k : ℕ) → k < (ehdr_at m ctx.img32).e_shnum → IsText m (section_name m ctx k) (len k)
  pub ends : (k : ℕ) → k < (ehdr_at m ctx.img32).e_shnum → len k < fuel

-- Section `k` has the name that stands at `name`.
abbrev pub IsNamed : Bytes → Context → (ℕ → ℕ) → ℕ → ℕ → Type 0
IsNamed m ctx len name k = Same m (section_name m ctx k) name (suc (len k))

-- The header of the first section of the name, NULL where no section has it.
abbrev pub IsFirstNamed : Bytes → Context → (ℕ → ℕ) → ℕ → ℕ → Type 0
IsFirstNamed m ctx len name p =
    ((p ≡ 0) × ((k : ℕ) → k < (ehdr_at m ctx.img32).e_shnum → ¬ IsNamed m ctx len name k))
    ⊎ ((k : ℕ) × (k < (ehdr_at m ctx.img32).e_shnum)
        × (p ≡ section_header ctx k)
        × IsNamed m ctx len name k
        × ((j : ℕ) → j < k → ¬ IsNamed m ctx len name j))

module _ (fuel : ℕ) (m : Bytes) (ctx : Context) (len : ℕ → ℕ) (bytes : IsBytes m)
    (h : AreNamed fuel m ctx len) (dot_null name : ℕ) (given : read8 m name ≢ 0) where
  is_section_lem :
      (i : ℕ)
      → i < (ehdr_at m ctx.img32).e_shnum
      → (b : Bool) × (is_section fuel m ctx dot_null
            (read_section32 m ctx (ehdr_at m ctx.img32).e_shstrndx)
            name
            i
          ≡ some b)
        × ((b ≡ true) ↔ IsNamed m ctx len name i)
  unfolding is_section
  is_section_lem i l =
      let (d, e, iff) =
        strcmp_lem fuel (len i) m (section_name m ctx i) name bytes (h.text i l) (h.ends i l) in
      let plain : (read8 m name == 0) ≡ false = ground (arith, given) in
      (
        d == 0,
        rw (plain, e) refl,
        ((λ t. iff.0 ((==_iff _ _).0 t)), λ same. (==_iff _ _).1 (iff.1 same)),
      )

  -- The loop over sections `i` to `i + left - 1`.
  find_loop_lem :
      (left i : ℕ)
      → i + left ≡ (ehdr_at m ctx.img32).e_shnum
      → ((j : ℕ) → j < i → ¬ IsNamed m ctx len name j)
      → (r : Option ℕ) × (find_loop fuel left i m ctx dot_null
            (read_section32 m ctx (ehdr_at m ctx.img32).e_shstrndx)
            name
          ≡ some r)
        × IsFirstNamed m ctx len name (or_null r)
  unfolding find_loop
  find_loop_lem zero i all earlier = (none, refl, inl (refl, λ k l. earlier k (omega (arith, all))))
  find_loop_lem (suc left) i all earlier =
      let (b, e, iff) = is_section_lem i (omega (arith, all)) in
      elim (Bool-cases b) [
        | inl yes_it ↦ (
          some (section_header ctx i),
          rw (e, yes_it, find_loop) refl,
          inr (i, omega (arith, all), refl, iff.0 yes_it, earlier),
        )
        | inr not_it ↦
            let (r, found, first) =
              find_loop_lem left (i + 1) (omega (arith, all)) (up_to b iff not_it) in
            (r, rw (e, not_it, find_loop) found, first)
      ]
    where
      up_to :
          (b : Bool)
          → ((b ≡ true) ↔ IsNamed m ctx len name i)
          → b ≡ false
          → (j : ℕ) → j < i + 1
          → ¬ IsNamed m ctx len name j
      up_to b iff off j l = elim (Bool-cases (j == i)) [
        | inl same ↦
            let here : j ≡ i = (==_iff j i).0 same in
            λ n. absurd (ground (arith, off, iff.1 (rw (sym here) n)))
        | inr other ↦ earlier j (ground arith)
      ]

  find_section32_lem :
      (r : Option ℕ) × (find_section32 fuel m dot_null name ctx ≡ some r)
      × IsFirstNamed m ctx len name (or_null r)
  unfolding find_section32
  find_section32_lem =
      find_loop_lem (ehdr_at m ctx.img32).e_shnum 0 (omega arith) (λ j l. absurd (omega arith))

-- The context with the pointers to the parts of the image at `img`.
abbrev pub opened : Bytes → ℕ → Context → Context
opened m img ctx = record ctx {
  img32 = img;
  shdr32 = (img + (ehdr_at m img).e_shoff) % 2 ^ 32;
  phdr32 = (img + (ehdr_at m img).e_phoff) % 2 ^ 32;
}

-- For a valid 32-bit image whose sections' names are texts that end within the fuel, `load_img`
-- ends. `strtab32` and `symtab32` are then the headers of the first sections with the names
-- ".strtab" and ".symtab", NULL where there is none, and the image's headers are where it says.
pub load_img-finds :
    (fuel : ℕ) (m : Bytes) (texts : Texts) (img : ℕ) (ctx : Context) (len : ℕ → ℕ)
    → IsBytes m
    → is_valid_elf m img ≡ true
    → read8 m (img + 4) ≡ 1
    → AreNamed fuel m (opened m img ctx) len
    → read8 m texts.dot_strtab ≢ 0
    → read8 m texts.dot_symtab ≢ 0
    → (strtab : ℕ) × (symtab : ℕ) × (load_img fuel m texts img ctx
        ≡ some (record (opened m img ctx) { strtab32 = strtab; symtab32 = symtab }))
      × IsFirstNamed m (opened m img ctx) len texts.dot_strtab strtab
      × IsFirstNamed m (opened m img ctx) len texts.dot_symtab symtab
unfolding load_img load_img32 read_section32
load_img-finds fuel m texts img ctx len bytes valid class named str sm =
    let ctx1 : Context = opened m img ctx in
    let (strtab, found1, first1) =
      find_section32_lem fuel m ctx1 len bytes named texts.dot_null texts.dot_strtab str in
    let ctx2 : Context = record ctx1 { strtab32 = or_null strtab } in
    let (symtab, found2, first2) =
      find_section32_lem fuel m ctx2 len bytes (record { text = named.text; ends = named.ends })
        texts.dot_null texts.dot_symtab sm in
    let is_32 : (read8 m (img + 4) == 1) ≡ true = ground (arith, class) in
    (
      or_null strtab,
      or_null symtab,
      rw (valid, is_32) (rw (found1, load_img32) (rw (found2, load_img32) refl)),
      first1,
      first2,
    )
