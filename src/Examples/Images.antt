-- ===== src/Examples/Images.antt =====
-- An image whose symbol table at 1000 has two symbols, with the values 2000h and 2000h + 256, and
-- one with the two sections that load_img looks for.
use liqui_dos.Common.{
  ℕ, ◌+◌, ◌%◌, ◌^◌, ◌≤◌, ◌<◌, ◌≡◌, ◌⊎◌, ◌||◌, arith, none, some, ◌==◌, if◌then◌else◌, zero, suc,
  ◌/◌, ltb, refl, Bool,
}
use liqui_dos.Strings.{Bytes}
use liqui_dos.Strings.Length.{IsText}
use liqui_dos.Elf.{
  Context, Texts, read16, read32, is_valid_elf, ehdr_at, shdr_at, read_section32, symbol_count,
  get_symbol_addr32, get_symbol_name32, load_img,
}
use liqui_dos.Elf.Sections.{section_name, AreNamed, IsFirstNamed, opened, load_img-finds}
use liqui_dos.Elf.Symbols.{table_symbol, get_symbol_lem}

-- The section header at 100 has offset 1000 and 32 bytes.
abbrev image : Bytes
image a =
    if a == 116
    then 0xE8
    else (if a == 117
        then 0x03
        else (if a == 120
            then 32
            else (if a == 1005 || a == 1021 then 0x20 else (if a == 1020 then 1 else 0))))

abbrev context : Context
context = record { img32 = 0; shdr32 = 100; phdr32 = 0; symtab32 = 100; strtab32 = 200 }

get_symbol_lem_example :
    ((k : ℕ)
      → k < symbol_count image context
      → (table_symbol image context k).st_value ≤ 0x2005
      → (table_symbol image context k).st_value ≤ get_symbol_addr32 image 0x2005 context)
    × (((get_symbol_addr32 image 0x2005 context ≡ 0)
          × (get_symbol_name32 image 0x2005 context ≡ none))
        ⊎ ((k : ℕ) × (k < symbol_count image context)
            × (get_symbol_addr32 image 0x2005 context ≡ (table_symbol image context k).st_value)
            × (0 < get_symbol_addr32 image 0x2005 context)
            × (get_symbol_addr32 image 0x2005 context ≤ 0x2005)
            × (get_symbol_name32 image 0x2005 context
                ≡ some (
                    ((shdr_at image context.strtab32).sh_offset
                      + context.img32
                      + (table_symbol image context k).st_name)
                    % 2 ^ 32))))
get_symbol_lem_example = get_symbol_lem image 0x2005 context

-- The bytes of ".strtab" from 200 and 216 on, and of ".symtab" from 208 and 224 on.
abbrev letter : ℕ → Bool → ℕ
letter r odd =
    if r == 7
    then 0
    else (if r == 0
        then b'.'
        else (if r == 1
            then b's'
            else (if r == 2
                then (if odd then b't' else b'y')
                else (if r == 3
                    then (if odd then b'r' else b'm')
                    else (if r == 4 then b't' else (if r == 5 then b'a' else b'b'))))))

-- The header of an image with two sections.
abbrev header_byte : ℕ → ℕ
header_byte a =
    if a == 0
    then 0x7F
    else (if a == 1
        then b'E'
        else (if a == 2
            then b'L'
            else (if a == 3
                then b'F'
                else (if a == 4
                    then 1
                    else (if a == 32
                        then 52
                        else (if a == 48
                            then 2
                            else (if a == 68 then 200 else (if a == 92 then 8 else 0))))))))

abbrev two_sections : Bytes
two_sections a = if ltb a 200 then header_byte a else letter (a % 8) (a / 8 % 2 == 1)

abbrev texts : Texts
texts = record { dot_null = 240; dot_strtab = 216; dot_symtab = 224 }

strtab-IsText : IsText two_sections 200 7
strtab-IsText = record { before = λ i u. ground arith; nul = refl }

symtab-IsText : IsText two_sections 208 7
symtab-IsText = record { before = λ i u. ground arith; nul = refl }

two_sections-AreNamed : AreNamed 8 two_sections (opened two_sections 0 context) (λ k. 7)
unfolding ehdr_at shdr_at read_section32 read16 read32
two_sections-AreNamed = record { text = section_text; ends = λ k l. omega arith }
  where
    section_text :
        (k : ℕ)
        → k < 2
        → IsText two_sections (section_name two_sections (opened two_sections 0 context) k) 7
    section_text zero l = strtab-IsText
    section_text (suc zero) l = symtab-IsText
    section_text (suc (suc k)) l = absurd (omega arith)

load_img-finds_example :
    (strtab : ℕ) × (symtab : ℕ) × (load_img 8 two_sections texts 0 context
      ≡ some (record (opened two_sections 0 context) { symtab32 = symtab; strtab32 = strtab }))
    × IsFirstNamed two_sections (opened two_sections 0 context) (λ k. 7) texts.dot_strtab strtab
    × IsFirstNamed two_sections (opened two_sections 0 context) (λ k. 7) texts.dot_symtab symtab
unfolding is_valid_elf
load_img-finds_example =
    load_img-finds 8 two_sections texts 0 context (λ k. 7) (λ q. ground arith) refl refl
      two_sections-AreNamed (omega arith) (omega arith)
