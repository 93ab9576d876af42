-- ===== src/Startup.antt =====
-- arch/x86/32/init.cc with gdt::init of arch/x86/32/gdt.cc and idt::init of arch/x86/32/idt.cc,
-- and initgdt32 of loader/x86/gdt.cc. The stubs of the interrupts are assembly and a parameter. The
-- loading of the tables leaves them as they are.
pub mod Gates
use liqui_dos.Common.{
  ℕ, zero, suc, ◌+◌, ◌-◌, ◌*◌, ◌%◌, ◌^◌, ◌&&◌, Option, none, some, List, if◌then◌else◌,
}
use liqui_dos.BootMem.{MmapEntry, enough_memory}
use liqui_dos.Loader.{MultibootInfo, is_bootable}
use liqui_dos.Descriptors.{GdtEntry, IdtEntry, set_segment, set_gate}
use liqui_dos.Platform.{Irqs, install_handler}

-- The fields of the task state segment that are not 0.
pub record Tss : Type 0 where
  pub esp0 : ℕ
  pub ss0 : ℕ
  pub cs : ℕ
  pub ss : ℕ
  pub es : ℕ
  pub fs : ℕ
  pub gs : ℕ
  pub io_map_base : ℕ

-- The operand of `lgdt` and `lidt`.
pub record TablePtr : Type 0 where
  pub limit : ℕ
  pub base : ℕ

-- `sizeof(tss_t)`
abbrev pub tss_size : ℕ
tss_size = 104

abbrev pub gdt_ptr : ℕ → TablePtr
gdt_ptr base = record { limit = 8 * 6 - 1; base = base }

abbrev pub idt_ptr : ℕ → TablePtr
idt_ptr base = record { limit = 8 * 256 - 1; base = base }

-- The gates of `gdt::init`, with the task state segment at `tss_base`.
unfoldable pub init_gdt : ℕ → (ℕ → GdtEntry) → ℕ → GdtEntry
init_gdt tss_base entries =
    let tss_limit = (tss_base + tss_size) % 2 ^ 32 in
    set_segment 5 tss_base tss_limit 0xE9 0x00 (
      set_segment 4 0 0xFFFFFFFF 0xF2 0xCF (
        set_segment 3 0 0xFFFFFFFF 0xFA 0xCF (
          set_segment 2 0 0xFFFFFFFF 0x92 0xCF
            (set_segment 1 0 0xFFFFFFFF 0x9A 0xCF (set_segment 0 0 0 0 0 entries)))))

abbrev pub init_tss : Tss
init_tss = record {
  esp0 = 0;
  ss0 = 0x10;
  cs = 0x0B;
  ss = 0x13;
  es = 0x13;
  fs = 0x13;
  gs = 0x13;
  io_map_base = tss_size;
}

unfoldable pub set_tss_stack : ℕ → Tss → Tss
set_tss_stack stack tss = record tss { esp0 = stack }

-- `initgdt32` of the loader.
unfoldable pub initgdt32 : (ℕ → GdtEntry) → ℕ → GdtEntry
initgdt32 entries =
    set_segment 2 0 0xFFFFFFFF 0x92 0xCF
      (set_segment 1 0 0xFFFFFFFF 0x9A 0xCF (set_segment 0 0 0 0 0 entries))

-- The table that `idt::init` clears.
abbrev pub init_idt : ℕ → IdtEntry
init_idt i = record { base_lo = 0; sel = 0; always0 = 0; flags = 0; base_hi = 0 }

-- `set_gate(i, (&isr_stub_table)[i], 0x08, 0x8E)`, with `left` rounds to go.
unfoldable pub install_gates : ℕ → ℕ → (ℕ → ℕ) → (ℕ → IdtEntry) → ℕ → IdtEntry
install_gates zero i stubs entries = entries
install_gates (suc left) i stubs entries =
    install_gates left (i + 1) stubs (set_gate i (stubs i) 0x08 0x8E entries)

pub record ArchTables : Type 0 where
  pub gdt : ℕ → GdtEntry
  pub tss : Tss
  pub idt : ℕ → IdtEntry

-- `x86_32::early_init`; `none` is a failed assertion or a panic.
unfoldable pub early_init :
    ℕ → MultibootInfo → List MmapEntry → (ℕ → ℕ) → ℕ → (ℕ → GdtEntry) → Option ArchTables
unfolding init_gdt
early_init magic mbt mmaps stubs tss_base entries =
    if is_bootable magic mbt && enough_memory mmaps
    then some (record {
      gdt = init_gdt tss_base entries;
      tss = init_tss;
      idt = install_gates 256 0 stubs init_idt;
    })
    else none

-- `irq_install_handler(i, &exception_handler)`, with `left` rounds to go.
unfoldable pub install_handlers : ℕ → ℕ → ℕ → Irqs → Irqs
install_handlers zero i handler s = s
install_handlers (suc left) i handler s =
    install_handlers left (i + 1) handler (install_handler i handler s)

-- `x86_32::init`
unfoldable pub init : ℕ → Irqs → Irqs
init exception_handler s = install_handlers 32 0 exception_handler s
