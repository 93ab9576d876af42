-- ===== src/Examples/Devices.antt =====
-- Start-up tables, the serial port, a stack trace and kmalloc.
use liqui_dos.Common.{
  leb, ◌-◌, zero, suc, ℕ, ◌+◌, ◌-◌, ◌*◌, ◌%◌, ◌^◌, ◌≤◌, ◌<◌, ◌≡◌, ◌⊎◌, refl, true, false, ◌&&◌,
  arith, none, some, List, [], ◌∷◌, ◌++◌, ltb, ◌==◌, if◌then◌else◌, length, get_elem?, set,
}
use liqui_dos.Strings.{Bytes}
use liqui_dos.Strings.Length.{IsText}
use liqui_dos.BootMem.{MmapEntry, enough_memory}
use liqui_dos.Elf.{Context}
use liqui_dos.Loader.{MultibootInfo, is_bootable}
use liqui_dos.Descriptors.{GdtEntry, get_gate}
use liqui_dos.Platform
use liqui_dos.Platform.{Irqs, isr_handler}
use liqui_dos.Startup.{ArchTables, early_init, init}
use liqui_dos.Startup.Gates.{IsFlat, early_init-AreReady, isr_handler-init}
use liqui_dos.Serial.{Line, console_log}
use liqui_dos.Serial.Ready.{IsServed, sent, console_log-sent}
use liqui_dos.Trace.{Call, call_stack_trace}
use liqui_dos.Trace.Ends.{frame, IsAscending, call_stack_trace-ends}
use liqui_dos.Slab.{Cache, init_cache, cache_struct, alloc_in}
use liqui_dos.Slab.Kmalloc.{next_pow2l, is_missing, with_cache, kmalloc}
use liqui_dos.Slab.Kmalloc.Power.{next_pow2l-IsLeast}
use liqui_dos.Slab.Kmalloc.Served.{kmalloc-served}

abbrev irqs : Irqs
irqs = record { handlers = λ n. 0; ports = []; called = [] }

isr_handler-init_example :
    (isr_handler 14 (init 0xE0101000 (Platform.early_init 0xFF 0xFF irqs))).called
    ≡ (if ltb 14 32 then irqs.called ++ (0xE0101000, 14) ∷ [] else irqs.called)
isr_handler-init_example = isr_handler-init 0xFF 0xFF 0xE0101000 14 irqs (omega arith) (omega arith)

abbrev old_gdt : ℕ → GdtEntry
old_gdt i = record {
  limit_low = 0;
  base_low = 0;
  base_middle = 0;
  access = 0;
  granularity = 0;
  base_high = 0;
}

-- Flags 0, 3 and 6.
abbrev information : MultibootInfo
information = record { flags = 0x49; cmdline = 0; mods_count = 1; mods_addr = 0x9000 }

abbrev memory : List MmapEntry
memory = record { addr = 0x100000; len = 0x8000000; kind = 1 } ∷ []

abbrev stubs : ℕ → ℕ
stubs n = 0xE0100000 + n % 256 * 16

early_init-AreReady_example :
    ((is_bootable 0x2BADB002 information && enough_memory memory ≡ false)
      × (early_init 0x2BADB002 information memory stubs 0xE0108000 old_gdt ≡ none))
    ⊎ ((is_bootable 0x2BADB002 information && enough_memory memory ≡ true)
        × (t : ArchTables) × (early_init 0x2BADB002 information memory stubs 0xE0108000 old_gdt
            ≡ some t)
        × ((n : ℕ) → n < 256 → get_gate n t.idt ≡ stubs n)
        × ((k : ℕ) → 1 ≤ k → k ≤ 4 → IsFlat (t.gdt k)))
early_init-AreReady_example =
    early_init-AreReady 0x2BADB002 information memory stubs 0xE0108000 old_gdt (λ k. omega arith)

-- The transmitter is empty at every third read.
abbrev status : ℕ → ℕ
status t = if t % 3 == 0 then 0x20 else 0

status-IsServed : IsServed 3 status
status-IsServed t = ((3 - t % 3) % 3, omega arith, ground arith)

-- The text "ok" at 16.
abbrev text : Bytes
text a = if a == 16 then 111 else (if a == 17 then 107 else 0)

text-IsText : IsText text 16 2
text-IsText = record { before = λ i l. ground arith; nul = refl }

abbrev line : Line
line = record { reads = 0; ports = [] }

console_log-sent_example :
    (r : ℕ) × (console_log 3 3 status text 16 line
      ≡ some (record { reads = r; ports = [] ++ sent text 16 2 }))
console_log-sent_example =
    console_log-sent 2 3 status text 16 3 line status-IsServed text-IsText (omega arith)

-- Two frames, the outer one's caller without a frame, and the words between them below the window.
abbrev word : ℕ → ℕ
word a = if a == 0xFF7FFFC0 then 0xFF7FFFE0 else (if a == 0xFF7FFFE0 then 0 else 0xE0101000)

abbrev context : Context
context = record { img32 = 0; shdr32 = 100; phdr32 = 0; symtab32 = 100; strtab32 = 200 }

two_frames : IsAscending text context 64 word 0xFF7FFFC0
unfolding frame
two_frames zero all = omega arith
two_frames (suc n) all = absurd (ground (arith, all 2 (omega arith)))

call_stack_trace-ends_example :
    (cs : List Call) × (call_stack_trace 513 text context 64 word 0xFF7FFFC0 false 0 ≡ some cs)
    × (length cs ≤ 512)
call_stack_trace-ends_example =
    call_stack_trace-ends text context 64 word 0xFF7FFFC0 0 false two_frames

root_size : (init_cache cache_struct).slab_size ≡ cache_struct
unfolding init_cache
root_size = refl

kmalloc-served_example :
    (mid : List Cache) × (k : ℕ) × (c : Cache) × ((if is_missing
          (next_pow2l 100 % 2 ^ 32)
          (init_cache cache_struct ∷ [])
        then with_cache true (next_pow2l 100 % 2 ^ 32) (init_cache cache_struct ∷ []) 0xC0001000
        else some (init_cache cache_struct ∷ []))
      ≡ some mid)
    × (get_elem? mid k ≡ some c)
    × (c.slab_size ≡ next_pow2l 100 % 2 ^ 32)
    × (kmalloc true (init_cache cache_struct ∷ []) 100 0xC0001000 0xC0002000
        ≡ some (some (alloc_in c 0xC0002000).0, set mid k (alloc_in c 0xC0002000).1))
kmalloc-served_example =
    kmalloc-served 100 0xC0001000 0xC0002000 (init_cache cache_struct) [] root_size

next_pow2l-IsLeast_example :
    (k : ℕ) × (100 ≤ 2 ^ k)
    × (2 ^ k < 2 * 100)
    × (next_pow2l 100 ≡ (if leb 100 (2 ^ 30) then 2 ^ k else 2 ^ 64 - 2 ^ 31))
    × (next_pow2l 100 % 2 ^ 32 ≡ 2 ^ k)
next_pow2l-IsLeast_example = next_pow2l-IsLeast 100 (omega arith) (omega arith)
