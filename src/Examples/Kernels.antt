-- ===== src/Examples/Kernels.antt =====
-- Boot information with one module, whose command line is at 32, where the name of the kernel
-- stands too, and a segment of two pages.
use liqui_dos.Common.{◌%◌, ◌^◌, ◌≡◌, refl, true, false, some, List, [], ◌∷◌}
use liqui_dos.Strings.{Bytes, memcmp}
use liqui_dos.Elf.{Phdr}
use liqui_dos.Loader.{MultibootInfo, Module, Names, init32, main, is_bootable, find_kernels, choose}
use liqui_dos.Loader.Choice.{is32, first_with, main-first_with}

abbrev bytes : Bytes
bytes a = a % 2 ^ 8

abbrev names : Names
names = record { cxkrnl32 = 32; cxkrnl64 = 64; exec32 = 96; exec64 = 128 }

abbrev kernel : Module
kernel = record { mod_start = 0x200000; mod_end = 0x280000; cmdline = 32 }

abbrev modules : List Module
modules = record { mod_start = 0x300000; mod_end = 0x400000; cmdline = 64 } ∷ kernel ∷ []

-- Flags 0, 3 and 6.
abbrev info : MultibootInfo
info = record { flags = 73; cmdline = 0; mods_count = 2; mods_addr = 0x1000 }

boots : main bytes names false 0x2BADB002 info modules ≡ init32 kernel
unfolding main is_bootable find_kernels choose memcmp
boots = refl

main-first_with_example :
    (is_bootable 0x2BADB002 info ≡ true) × (first_with (is32 bytes names) modules ≡ some kernel)
main-first_with_example = main-first_with bytes names false 0x2BADB002 info modules kernel boots

abbrev segment : Phdr
segment = record {
  p_type = 1;
  p_offset = 0x1000;
  p_vaddr = 0xE0100000;
  p_paddr = 0;
  p_filesz = 5000;
  p_memsz = 5000;
  p_flags = 5;
  p_align = 4096;
}
