-- ===== src/Examples/Tables.antt =====
-- The boot allocator and a page directory in page 1: pages 2 and 3 are free.
use Prim.Native.Nat.{bit_and, bit_or}
use liqui_dos.Common.{ℕ, ◌/◌, ◌%◌, ◌^◌, ◌<◌, ◌≡◌, ◌≢◌, refl, ◌&&◌, arith, some, ◌==◌, if◌then◌else◌}
use liqui_dos.Bitmap.{Words, tstbit}
use liqui_dos.Paging.{get_pd_idx}
use liqui_dos.BootAlloc.{BootAllocator}
use liqui_dos.BootAlloc.Single.{IsFull}
use liqui_dos.Mmu.{Tables, walk, kernel_map, flag_mask}
use liqui_dos.Mmu.Kernel.{IsKernelState, kernel_map-IsKernelState}

abbrev bits : Words
bits _ = 0xFFFFFFF3

abbrev boot : BootAllocator
boot = record { alloc_map = record { length = 1; bit_count = 32; bitmap = bits }; ptr = 0 }

abbrev first_tables : Tables
first_tables f i = if f == 1 && i == 1023 then 0x1003 else 0

boot-IsKernelState : IsKernelState boot first_tables 1
unfolding tstbit
boot-IsKernelState = record {
  allocator = record {
    words = λ i. omega arith;
    fits = omega arith;
    small = omega arith;
    padded = λ j h k. absurd (omega arith);
  };
  small = omega arith;
  recursive = record {
    tables = record {
      entries = λ i l. ground arith;
      writable = λ i l p. ground arith;
      apart = λ i j l k p q e. ground arith;
    };
    inside = omega arith;
    present = refl;
    itself = refl;
  };
  marked = record { dir_marked = refl; tables_marked = λ k l p. ground arith };
}

page_free : ¬ IsFull boot
unfolding tstbit
page_free full = ground (arith, full 2 (omega arith))

kernel_map-IsKernelState_example :
    (s' : BootAllocator) × (mem' : Tables) × (kernel_map 1 0xC0000000 0x5000 3 (boot, first_tables)
      ≡ some (s', mem'))
    × IsKernelState s' mem' 1
    × (3 % 2 ≡ 1
        → walk 1 mem' 0xC0000000 ≡ some (bit_or (0x5000 % 2 ^ 32) (bit_and (3 % 2 ^ 16) flag_mask)))
    × ((v : ℕ)
        → v < 2 ^ 32
        → get_pd_idx v ≢ 1023
        → v / 2 ^ 12 ≢ 0xC0000000 / 2 ^ 12
        → walk 1 mem' v ≡ walk 1 first_tables v)
unfolding get_pd_idx
kernel_map-IsKernelState_example =
    kernel_map-IsKernelState boot first_tables 1 0xC0000000 0x5000 3 boot-IsKernelState
      (λ e. page_free) (omega arith) (omega arith)
