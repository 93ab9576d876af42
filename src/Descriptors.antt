-- ===== src/Descriptors.antt =====
-- arch/x86/32/gdt.cc and arch/x86/32/idt.cc: the encoding of segment descriptors and interrupt
-- gates. A table is a function from index to entry.
pub mod Decode
use Prim.Native.Nat.{bit_and, bit_or}
use liqui_dos.Common.{ℕ, ◌*◌, ◌/◌, ◌%◌, ◌^◌, ◌==◌, if◌then◌else◌}

pub record GdtEntry : Type 0 where
  pub limit_low : ℕ
  pub base_low : ℕ
  pub base_middle : ℕ
  pub access : ℕ
  pub granularity : ℕ
  pub base_high : ℕ

pub record IdtEntry : Type 0 where
  pub base_lo : ℕ
  pub sel : ℕ
  pub always0 : ℕ
  pub flags : ℕ
  pub base_hi : ℕ

-- `gdt::set_gate`, in the order of its assignments.
unfoldable pub set_segment : ℕ → ℕ → ℕ → ℕ → ℕ → (ℕ → GdtEntry) → ℕ → GdtEntry
set_segment idx base limit access gran entries i =
    if i == idx
    then record {
      limit_low = bit_and limit 0xFFFF;
      base_low = bit_and base 0xFFFF;
      base_middle = bit_and (base / 2 ^ 16) 0xFF;
      access = access;
      granularity = bit_or (bit_and (limit / 2 ^ 16) 0x0F) (bit_and gran 0xF0);
      base_high = bit_and (base / 2 ^ 24) 0xFF;
    }
    else entries i

-- `idt::set_gate`
unfoldable pub set_gate : ℕ → ℕ → ℕ → ℕ → (ℕ → IdtEntry) → ℕ → IdtEntry
set_gate idx base sel flags entries i =
    if i == idx
    then record {
      base_lo = base % 2 ^ 16;
      sel = sel;
      always0 = 0;
      flags = flags;
      base_hi = base / 2 ^ 16 % 2 ^ 16;
    }
    else entries i

-- `idt::get_gate`
unfoldable pub get_gate : ℕ → (ℕ → IdtEntry) → ℕ
get_gate idx entries = bit_or ((entries idx).base_hi * 2 ^ 16 % 2 ^ 32) (entries idx).base_lo
