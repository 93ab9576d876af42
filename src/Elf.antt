-- ===== src/Elf.antt =====
-- lib/elf/elf_parser.cc over an image in memory, with the structures of lib/elf/include/elf.h. A
-- pointer is a 32-bit address, NULL is 0, and numbers are stored lowest byte first.
pub mod Sections
pub mod Symbols
use Prim.Native.Nat.{bit_and}
use mathlib.Core.Option
use liqui_dos.Common.{
  ℕ, zero, suc, ◌+◌, ◌*◌, ◌/◌, ◌%◌, ◌^◌, Bool, true, false, ◌&&◌, Option, none, some, List, [], ◌∷◌,
  ltb, leb, ◌==◌, if◌then◌else◌,
}
use liqui_dos.Strings.{Bytes, strcmp}

pub record Ehdr : Type 0 where
  pub e_type : ℕ
  pub e_machine : ℕ
  pub e_version : ℕ
  pub e_entry : ℕ
  pub e_phoff : ℕ
  pub e_shoff : ℕ
  pub e_flags : ℕ
  pub e_ehsize : ℕ
  pub e_phentsize : ℕ
  pub e_phnum : ℕ
  pub e_shentsize : ℕ
  pub e_shnum : ℕ
  pub e_shstrndx : ℕ

pub record Phdr : Type 0 where
  pub p_type : ℕ
  pub p_offset : ℕ
  pub p_vaddr : ℕ
  pub p_paddr : ℕ
  pub p_filesz : ℕ
  pub p_memsz : ℕ
  pub p_flags : ℕ
  pub p_align : ℕ

pub record Shdr : Type 0 where
  pub sh_name : ℕ
  pub sh_type : ℕ
  pub sh_flags : ℕ
  pub sh_addr : ℕ
  pub sh_offset : ℕ
  pub sh_size : ℕ
  pub sh_link : ℕ
  pub sh_info : ℕ
  pub sh_addralign : ℕ
  pub sh_entsize : ℕ

pub record Sym : Type 0 where
  pub st_name : ℕ
  pub st_value : ℕ
  pub st_size : ℕ
  pub st_info : ℕ
  pub st_other : ℕ
  pub st_shndx : ℕ

pub record Context : Type 0 where
  pub img32 : ℕ
  pub shdr32 : ℕ
  pub phdr32 : ℕ
  pub symtab32 : ℕ
  pub strtab32 : ℕ

abbrev pub read8 : Bytes → ℕ → ℕ
read8 m a = m (a % 2 ^ 32)

unfoldable pub read16 : Bytes → ℕ → ℕ
read16 m a = read8 m a + read8 m (a + 1) * 2 ^ 8

unfoldable pub read32 : Bytes → ℕ → ℕ
unfolding read16
read32 m a = read16 m a + read16 m (a + 2) * 2 ^ 16

unfoldable pub ehdr_at : Bytes → ℕ → Ehdr
ehdr_at m p = record {
  e_type = read16 m (p + 16);
  e_machine = read16 m (p + 18);
  e_version = read32 m (p + 20);
  e_entry = read32 m (p + 24);
  e_phoff = read32 m (p + 28);
  e_shoff = read32 m (p + 32);
  e_flags = read32 m (p + 36);
  e_ehsize = read16 m (p + 40);
  e_phentsize = read16 m (p + 42);
  e_phnum = read16 m (p + 44);
  e_shentsize = read16 m (p + 46);
  e_shnum = read16 m (p + 48);
  e_shstrndx = read16 m (p + 50);
}

unfoldable pub phdr_at : Bytes → ℕ → Phdr
phdr_at m p = record {
  p_type = read32 m p;
  p_offset = read32 m (p + 4);
  p_vaddr = read32 m (p + 8);
  p_paddr = read32 m (p + 12);
  p_filesz = read32 m (p + 16);
  p_memsz = read32 m (p + 20);
  p_flags = read32 m (p + 24);
  p_align = read32 m (p + 28);
}

unfoldable pub shdr_at : Bytes → ℕ → Shdr
shdr_at m p = record {
  sh_name = read32 m p;
  sh_type = read32 m (p + 4);
  sh_flags = read32 m (p + 8);
  sh_addr = read32 m (p + 12);
  sh_offset = read32 m (p + 16);
  sh_size = read32 m (p + 20);
  sh_link = read32 m (p + 24);
  sh_info = read32 m (p + 28);
  sh_addralign = read32 m (p + 32);
  sh_entsize = read32 m (p + 36);
}

unfoldable pub sym_at : Bytes → ℕ → Sym
sym_at m p = record {
  st_name = read32 m p;
  st_value = read32 m (p + 4);
  st_size = read32 m (p + 8);
  st_info = read8 m (p + 12);
  st_other = read8 m (p + 13);
  st_shndx = read16 m (p + 14);
}

-- `sizeof(elf32_shdr_t)` and `sizeof(elf32_sym_t)`
abbrev pub shdr_size : ℕ
shdr_size = 40

abbrev pub sym_size : ℕ
sym_size = 16

-- `&ctx.shdr32[idx]`
abbrev pub section_header : Context → ℕ → ℕ
section_header ctx idx = (ctx.shdr32 + idx * shdr_size) % 2 ^ 32

unfoldable pub read_section32 : Bytes → Context → ℕ → ℕ
read_section32 m ctx idx = (ctx.img32 + (shdr_at m (section_header ctx idx)).sh_offset) % 2 ^ 32

abbrev pub flag_char : ℕ → ℕ → ℕ → ℕ
flag_char flag mask c = if bit_and flag mask == 0 then b'-' else c

unfoldable pub print_section_flags32 : ℕ → List ℕ
print_section_flags32 flag =
    flag_char flag 0x1 b'w'
    ∷ flag_char flag 0x2 b'a'
    ∷ flag_char flag 0x4 b'x'
    ∷ flag_char flag 0x10 b'm'
    ∷ flag_char flag 0x20 b's'
    ∷ flag_char flag 0x40 b'i'
    ∷ flag_char flag 0x80 b'l'
    ∷ flag_char flag 0x100 b'o'
    ∷ flag_char flag 0x200 b'g'
    ∷ flag_char flag 0x400 b't'
    ∷ 0
    ∷ []

unfoldable pub print_program_flags32 : ℕ → List ℕ
print_program_flags32 flag =
    flag_char flag 0x4 b'r' ∷ flag_char flag 0x2 b'w' ∷ flag_char flag 0x1 b'x' ∷ 0 ∷ []

abbrev pub symbol : Bytes → ℕ → ℕ → Sym
symbol m tab i = sym_at m ((tab + i * sym_size) % 2 ^ 32)

-- The loop of both searches, with the best symbol's index and its value.
unfoldable pub best_symbol : ℕ → ℕ → Bytes → ℕ → ℕ → Option ℕ × ℕ → Option ℕ × ℕ
best_symbol zero i m tab addr best = best
best_symbol (suc left) i m tab addr (sym, val) =
    let v = (symbol m tab i).st_value in
    best_symbol left (i + 1) m tab addr
      (if ltb val v && leb v addr then (some i, v) else (sym, val))

unfoldable pub symbol_table : Bytes → Context → ℕ
symbol_table m ctx = ((shdr_at m ctx.symtab32).sh_offset + ctx.img32) % 2 ^ 32

unfoldable pub symbol_count : Bytes → Context → ℕ
symbol_count m ctx = (shdr_at m ctx.symtab32).sh_size / sym_size

-- The address of the name, `none` for NULL.
unfoldable pub get_symbol_name32 : Bytes → ℕ → Context → Option ℕ
get_symbol_name32 m addr ctx =
    let tab = symbol_table m ctx in
    let best = best_symbol (symbol_count m ctx) 0 m tab addr (none, 0) in
    Option.map
      (λ i. ((shdr_at m ctx.strtab32).sh_offset + ctx.img32 + (symbol m tab i).st_name) % 2 ^ 32)
      best.0

unfoldable pub get_symbol_addr32 : Bytes → ℕ → Context → ℕ
get_symbol_addr32 m addr ctx =
    (best_symbol (symbol_count m ctx) 0 m (symbol_table m ctx) addr (none, 0)).1

-- The test of the loop of `find_section32` at section `i`; `dot_null` is where ".null" stands, and
-- `none` is a comparison that goes on.
unfoldable pub is_section : ℕ → Bytes → Context → ℕ → ℕ → ℕ → ℕ → Option Bool
is_section fuel m ctx dot_null sh_str name i =
    let named =
      strcmp fuel m ((sh_str + (shdr_at m (section_header ctx i)).sh_name) % 2 ^ 32) name in
    let plain = Option.map (λ d. d == 0) named in
    if read8 m name == 0
    then elim (strcmp fuel m dot_null name) [
      | none ↦ none
      | some d ↦ if d == 0 then some true else plain
    ]
    else plain

unfoldable pub find_loop : ℕ → ℕ → ℕ → Bytes → Context → ℕ → ℕ → ℕ → Option (Option ℕ)
find_loop fuel zero i m ctx dot_null sh_str name = some none
find_loop fuel (suc left) i m ctx dot_null sh_str name =
    elim (is_section fuel m ctx dot_null sh_str name i) [
      | none ↦ none
      | some true ↦ some (some (section_header ctx i))
      | some false ↦ find_loop fuel left (i + 1) m ctx dot_null sh_str name
    ]

-- The address of the section's header, with NULL as the inner `none`.
unfoldable pub find_section32 : ℕ → Bytes → ℕ → ℕ → Context → Option (Option ℕ)
unfolding find_loop
find_section32 fuel m dot_null name ctx =
    let sh_str = read_section32 m ctx (ehdr_at m ctx.img32).e_shstrndx in
    find_loop fuel (ehdr_at m ctx.img32).e_shnum 0 m ctx dot_null sh_str name

-- Where the texts of the file stand.
pub record Texts : Type 0 where
  pub dot_null : ℕ
  pub dot_strtab : ℕ
  pub dot_symtab : ℕ

abbrev pub or_null : Option ℕ → ℕ
or_null none = 0
or_null (some p) = p

unfoldable pub load_img32 : ℕ → Bytes → Texts → ℕ → Context → Option Context
load_img32 fuel m texts img ctx =
    let header = ehdr_at m img in
    let ctx1 = record ctx {
      img32 = img;
      shdr32 = (img + header.e_shoff) % 2 ^ 32;
      phdr32 = (img + header.e_phoff) % 2 ^ 32;
    } in
    elim (find_section32 fuel m texts.dot_null texts.dot_strtab ctx1) [
      | none ↦ none
      | some strtab ↦
          let ctx2 = record ctx1 { strtab32 = or_null strtab } in
          elim (find_section32 fuel m texts.dot_null texts.dot_symtab ctx2) [
            | none ↦ none
            | some symtab ↦ some (record ctx2 { symtab32 = or_null symtab })
          ]
    ]

unfoldable pub is_valid_elf : Bytes → ℕ → Bool
is_valid_elf m h =
    (read8 m h == 0x7F && read8 m (h + 1) == b'E')
    && (read8 m (h + 2) == b'L' && read8 m (h + 3) == b'F')

-- An image of another class, and a 64-bit one, leaves the context as it is.
unfoldable pub load_img : ℕ → Bytes → Texts → ℕ → Context → Option Context
load_img fuel m texts img ctx =
    if is_valid_elf m img && read8 m (img + 4) == 1
    then load_img32 fuel m texts img ctx
    else some ctx
