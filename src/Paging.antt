-- ===== src/Paging.antt =====
-- include/arch/x86/32/paging.h: page alignment and the indices of the page tables. An address has
-- the width `w` of its C type, 32 or 64 bits.
pub mod Laws
use Prim.Native.Nat.{bit_and, bit_or}
use liqui_dos.Common.{ℕ, ◌+◌, ◌-◌, ◌*◌, ◌/◌, ◌%◌, ◌^◌}

abbrev pub page_size : ℕ
page_size = 4096

-- `(TYPEOF (addr)) ARCH_PAGE_MASK`
abbrev pub page_mask : ℕ → ℕ
page_mask w = 2 ^ w - 1 - (2 ^ 12 - 1)

unfoldable pub page_align : ℕ → ℕ → ℕ
page_align w addr = bit_and ((addr + (page_size - 1)) % 2 ^ w) (page_mask w)

unfoldable pub page_align_down : ℕ → ℕ → ℕ
page_align_down w addr = bit_and addr (page_mask w)

-- ARCH_GET_VIRT over `uint32_t`
unfoldable pub get_virt : ℕ → ℕ → ℕ
get_virt pd pt = bit_or (pd * 2 ^ 22 % 2 ^ 32) (pt * 2 ^ 12 % 2 ^ 32)

unfoldable pub get_pd_idx : ℕ → ℕ
get_pd_idx a = bit_and (a / 2 ^ 22) 0x3FF

unfoldable pub get_pt_idx : ℕ → ℕ
get_pt_idx a = bit_and (a / 2 ^ 12) 0x3FF

-- ARCH_PAE_GET_VIRT over `uint32_t`
unfoldable pub pae_get_virt : ℕ → ℕ → ℕ → ℕ
pae_get_virt pp pd pt =
    bit_or (bit_or (pp * 2 ^ 30 % 2 ^ 32) (pd * 2 ^ 21 % 2 ^ 32)) (pt * 2 ^ 12 % 2 ^ 32)

unfoldable pub pae_get_pdpt_idx : ℕ → ℕ
pae_get_pdpt_idx a = bit_and (a / 2 ^ 30) 0x3

unfoldable pub pae_get_pd_idx : ℕ → ℕ
pae_get_pd_idx a = bit_and (a / 2 ^ 21) 0x1FF

unfoldable pub pae_get_pt_idx : ℕ → ℕ
pae_get_pt_idx a = bit_and (a / 2 ^ 12) 0x1FF
