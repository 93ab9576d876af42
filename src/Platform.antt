-- ===== src/Platform.antt =====
-- platform/pc/platform.cc, platform/pc/pic.cc, the set-up in platform/pc/serial.cc,
-- core/interrupts.cc and isr_handler of arch/x86/32/exceptions.cc. A device is seen by the writes to
-- its ports, oldest first; a handler is an address, with 0 for NULL.
pub mod Pages
pub mod Linear
pub mod Mapping
use Prim.Native.Nat.{min, max}
use liqui_dos.Common.{
  ℕ, zero, suc, ◌+◌, ◌-◌, ◌/◌, ◌%◌, ◌^◌, Bool, not, ◌&&◌, ◌||◌, Option, some, List, [], ◌∷◌, ◌++◌,
  ltb, leb, ◌==◌, if◌then◌else◌,
}
use liqui_dos.Paging.{page_size, page_align, page_align_down}
use liqui_dos.BootMem.{MmapEntry, memory_available}
use liqui_dos.Mmu.{◌>>=◌}
use liqui_dos.PmmNode.{Arena}

abbrev pub Ports : Type 0
Ports = List (ℕ × ℕ)

abbrev pub pic1_command : ℕ
pic1_command = 0x20

abbrev pub pic2_command : ℕ
pic2_command = 0xA0

abbrev pub pic1_data : ℕ
pic1_data = pic1_command + 1

abbrev pub pic2_data : ℕ
pic2_data = pic2_command + 1

abbrev pub pic_eoi : ℕ
pic_eoi = 0x20

-- The writes of `pc::pic`; `a1` and `a2` are the masks that remap reads.
unfoldable pub remap : ℕ → ℕ → ℕ → ℕ → Ports
remap offset1 offset2 a1 a2 =
    (pic1_command, 0x11)
    ∷ (pic2_command, 0x11)
    ∷ (pic1_data, offset1)
    ∷ (pic2_data, offset2)
    ∷ (pic1_data, 4)
    ∷ (pic2_data, 2)
    ∷ (pic1_data, 1)
    ∷ (pic2_data, 1)
    ∷ (pic1_data, a1)
    ∷ (pic2_data, a2)
    ∷ []

unfoldable pub mask : ℕ → ℕ → Ports
mask mask1 mask2 = (pic1_data, mask1) ∷ (pic2_data, mask2) ∷ []

unfoldable pub send_eoi : ℕ → Ports
send_eoi irq =
    if leb 8 irq
    then (pic2_command, pic_eoi) ∷ (pic1_command, pic_eoi) ∷ []
    else (pic1_command, pic_eoi) ∷ []

unfoldable pub ack : Ports
ack = (pic1_command, pic_eoi) ∷ []

unfoldable pub autoremap : Ports
autoremap =
    (0x20, 0x11)
    ∷ (0xA0, 0x11)
    ∷ (0x21, 0x20)
    ∷ (0xA1, 0x28)
    ∷ (0x21, 0x04)
    ∷ (0xA1, 0x02)
    ∷ (0x21, 0x01)
    ∷ (0xA1, 0x01)
    ∷ (0x21, 0x0)
    ∷ (0xA1, 0x0)
    ∷ []

abbrev pub com1 : ℕ
com1 = 0x3F8

-- `serial::init`
unfoldable pub serial_init : ℕ → Ports
serial_init port =
    (port + 1, 0x00)
    ∷ (port + 3, 0x80)
    ∷ (port + 0, 0x03)
    ∷ (port + 1, 0x00)
    ∷ (port + 3, 0x03)
    ∷ (port + 2, 0xC7)
    ∷ (port + 4, 0x0B)
    ∷ []

-- The handlers, and the memory behind them at a place of 255 and above.
pub record Irqs : Type 0 where
  pub handlers : ℕ → ℕ
  pub ports : Ports
  pub called : List (ℕ × ℕ)

abbrev pub write_handler : ℕ → ℕ → (ℕ → ℕ) → ℕ → ℕ
write_handler n h handlers k = if k == n then h else handlers k

unfoldable pub install_handler : ℕ → ℕ → Irqs → Irqs
install_handler n handler s = record s { handlers = write_handler n handler s.handlers }

unfoldable pub remove_handler : ℕ → Irqs → Irqs
remove_handler n s = record s { handlers = write_handler n 0 s.handlers }

unfoldable pub get_handler : ℕ → Irqs → ℕ
get_handler n s = s.handlers n

-- The vector goes to `send_eoi` as a byte. `called` lists the calls of handlers with their vector; a
-- handler is taken to return, which the one for exceptions, as it stands, does not.
unfoldable pub isr_handler : ℕ → Irqs → Irqs
unfolding get_handler send_eoi
isr_handler int_no s =
    let handler = get_handler int_no s in
    let s1 = if handler == 0 then s else record s { called = s.called ++ (handler, int_no) ∷ [] } in
    record s1 { ports = s1.ports ++ send_eoi (int_no % 2 ^ 8) }

abbrev pub irq0 : ℕ
irq0 = 32

unfoldable pub early_init : ℕ → ℕ → Irqs → Irqs
unfolding remap mask serial_init
early_init a1 a2 s = record s {
  handlers = λ n. if ltb n 255 then 0 else s.handlers n;
  ports = s.ports ++ remap irq0 (irq0 + 8) a1 a2 ++ mask 0xFF 0xFF ++ serial_init com1;
}

abbrev pub kmalloc_length : ℕ
kmalloc_length = 0x20000000

abbrev pub kmalloc_base : ℕ
kmalloc_base = 0xC0000000

-- `x86::g::max_mem`
unfoldable pub highest_memory : ℕ → List MmapEntry → ℕ
highest_memory top [] = top
highest_memory top (mmap ∷ mmaps) = highest_memory (max top ((mmap.addr + mmap.len) % 2 ^ 64)) mmaps

module _ {ℓ} {S : Type ℓ} (map : ℕ → ℕ → ℕ → S → Option S) where
  -- The loop over the pages of an area: `va`, `max_pa` and the state at its end. All addresses are
  -- multiples of the page size, so `left` is the smaller of the pages on both sides.
  unfoldable pub map_area : ℕ → ℕ → ℕ → ℕ → S → Option (ℕ × ℕ × S)
  map_area zero pa va max_pa s = some (va, max_pa, s)
  map_area (suc left) pa va max_pa s = do
    s1 ← map (va + kmalloc_base) pa 3 s
    map_area left (pa + page_size) (va + page_size) (max max_pa (pa + page_size)) s1

  unfoldable pub map_memory : Bool → List MmapEntry → ℕ → ℕ → S → Option (ℕ × ℕ × S)
  unfolding map_area
  map_memory has_pae [] va max_pa s = some (va, max_pa, s)
  map_memory has_pae (mmap ∷ mmaps) va max_pa s =
      let start_addr = page_align 64 mmap.addr in
      let end_addr = page_align_down 64 ((mmap.addr + mmap.len) % 2 ^ 64) in
      let left = min ((end_addr - start_addr) / page_size) ((kmalloc_length - va) / page_size) in
      if leb kmalloc_length va || (not has_pae && leb 0xFFFFFFFF mmap.addr)
      then some (va, max_pa, s)
      else (map_area (if mmap.kind == memory_available then left else 0) start_addr va max_pa s
          >>= λ (va', max_pa', s'). map_memory has_pae mmaps va' max_pa' s')

-- CX_ARENA_PRESENT, CX_ARENA_KERNEL
abbrev pub arena_present : ℕ
arena_present = 1

abbrev pub arena_kernel : ℕ
arena_kernel = 2

-- The arena that `meminit` adds to the allocator.
unfoldable pub kmap_arena : ℕ → ℕ → Arena
kmap_arena max_pa pps_start = record {
  flags = arena_present + arena_kernel;
  base = 0;
  size = max_pa / page_size;
  free = 0;
  priority = 2;
  pages = pps_start;
  free_list = [];
}
