-- ===== src/Cpu.antt =====
-- arch/x86/cpu.cc and the lookups of include/arch/x86/cpu.h. `cpuid` is what the processor returns
-- for a leaf (with subleaf 0), and a table is a function from place to entry.
pub mod Leaf
use Prim.Native.Nat.{bit_and}
use liqui_dos.Common.{
  ℕ, zero, suc, ◌+◌, ◌-◌, ◌*◌, ◌/◌, ◌%◌, ◌^◌, Bool, true, false, not, ◌&&◌, ◌||◌, Option, none,
  some, ltb, leb, ◌==◌, if◌then◌else◌,
}

pub record CpuidLeaf : Type 0 where
  pub a : ℕ
  pub b : ℕ
  pub c : ℕ
  pub d : ℕ

abbrev pub empty_leaf : CpuidLeaf
empty_leaf = record { a = 0; b = 0; c = 0; d = 0 }

pub data CpuVendor : Type 0 where
  vendor_intel : CpuVendor
  vendor_amd : CpuVendor
  vendor_unknown : CpuVendor

pub record Cpu : Type 0 where
  pub cpuid : ℕ → CpuidLeaf
  pub cpuid_ext : ℕ → CpuidLeaf
  pub max_cpuid : ℕ
  pub max_ext_cpuid : ℕ
  pub vendor : CpuVendor

abbrev pub max_supported_cpuid : ℕ
max_supported_cpuid = 0xD

abbrev pub max_supported_cpuid_ext : ℕ
max_supported_cpuid_ext = 0x8000001E

abbrev pub cpuid_ext_base : ℕ
cpuid_ext_base = 0x80000000

abbrev pub ext_addr_size : ℕ
ext_addr_size = 0x80000008

abbrev pub model_feat : ℕ
model_feat = 1

abbrev pub write_leaf : ℕ → CpuidLeaf → (ℕ → CpuidLeaf) → ℕ → CpuidLeaf
write_leaf i leaf table j = if j == i then leaf else table j

-- The loops over leaves `i` to `i + left - 1`; `base` is where the table starts.
unfoldable pub read_leaves : (ℕ → CpuidLeaf) → ℕ → ℕ → ℕ → (ℕ → CpuidLeaf) → ℕ → CpuidLeaf
read_leaves cpuid base zero i table = table
read_leaves cpuid base (suc left) i table =
    read_leaves cpuid base left (i + 1) (write_leaf i (cpuid ((i + base) % 2 ^ 32)) table)

-- The three words of a vendor's name.
abbrev pub is_vendor : ℕ → ℕ → ℕ → CpuidLeaf → CpuidLeaf → CpuidLeaf → Bool
is_vendor w0 w1 w2 leaf0 leaf1 leaf2 = leaf0.b == w0 && leaf1.c == w1 && leaf2.d == w2

-- The union takes a register of each of the first three leaves.
unfoldable pub vendor_of : (ℕ → CpuidLeaf) → CpuVendor
vendor_of table =
    if is_vendor 0x756E6547 0x49656E69 0x6C65746E (table 0) (table 1) (table 2)
    then vendor_intel
    else (if is_vendor 0x68747541 0x69746E65 0x444D4163 (table 0) (table 1) (table 2)
        then vendor_amd
        else vendor_unknown)

abbrev pub at_most : ℕ → ℕ → ℕ
at_most bound n = if ltb bound n then bound else n

unfoldable pub x86_cpuid_init : (ℕ → CpuidLeaf) → Cpu
unfolding read_leaves vendor_of
x86_cpuid_init cpuid =
    let top = at_most max_supported_cpuid (cpuid 0).a in
    let table = read_leaves cpuid 0 top 1 (write_leaf 0 (cpuid 0) (λ _. empty_leaf)) in
    let ext_top = at_most max_supported_cpuid_ext (cpuid cpuid_ext_base).a in
    let rounds = (ext_top + 2 ^ 32 - cpuid_ext_base) % 2 ^ 32 in
    record {
      cpuid = table;
      cpuid_ext =
          read_leaves cpuid cpuid_ext_base rounds 1
            (write_leaf 0 (cpuid cpuid_ext_base) (λ _. empty_leaf));
      max_cpuid = top;
      max_ext_cpuid = ext_top;
      vendor = vendor_of table;
    }

-- `none` for NULL.
unfoldable pub x86_cpuid_leaf : Cpu → ℕ → Option CpuidLeaf
x86_cpuid_leaf s leaf =
    if leb leaf s.max_cpuid
    then some (s.cpuid leaf)
    else (if leb cpuid_ext_base leaf && leb leaf s.max_ext_cpuid
        then some (s.cpuid_ext (leaf - cpuid_ext_base))
        else none)

pub record CpuidBit : Type 0 where
  pub leaf : ℕ
  pub word : ℕ
  pub bit : ℕ

-- The register that `word` names, below 4.
abbrev pub register : CpuidLeaf → ℕ → ℕ
register l word =
    if word == 0 then l.a else (if word == 1 then l.b else (if word == 2 then l.c else l.d))

unfoldable pub x86_feature_test : Cpu → CpuidBit → Bool
unfolding x86_cpuid_leaf
x86_feature_test s bit =
    if ltb 3 bit.word || ltb 31 bit.bit then false else elim (x86_cpuid_leaf s bit.leaf) [
      | none ↦ false
      | some l ↦ not (bit_and (2 ^ bit.bit) (register l bit.word) == 0)
    ]

unfoldable pub x86_linear_address_width : Cpu → ℕ
unfolding x86_cpuid_leaf
x86_linear_address_width s = elim (x86_cpuid_leaf s ext_addr_size) [
  | none ↦ 0
  | some l ↦ l.a / 2 ^ 8 % 2 ^ 8
]

unfoldable pub x86_physical_address_width : Cpu → ℕ
unfolding x86_cpuid_leaf
x86_physical_address_width s = elim (x86_cpuid_leaf s ext_addr_size) [
  | none ↦ 0
  | some l ↦ l.a % 2 ^ 8
]

unfoldable pub x86_get_clflush_line_size : Cpu → ℕ
unfolding x86_cpuid_leaf
x86_get_clflush_line_size s = elim (x86_cpuid_leaf s model_feat) [
  | none ↦ 0
  | some l ↦ l.a / 2 ^ 8 % 2 ^ 8 * 8 % 2 ^ 8
]
