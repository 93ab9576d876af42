-- ===== src/Cpu/Leaf.antt =====
-- Lemmas on the tables of arch/x86/cpu.cc.
use liqui_dos.Common.{
  ℕ, zero, suc, ◌+◌, ◌-◌, ◌%◌, ◌^◌, ◌≤◌, ◌≡◌, inl, inr, refl, sym, ◌&&◌, ◌||◌, ap, ◌∙◌, arith, none,
  some, ltb, leb, if◌then◌else◌, Bool-cases,
}
use liqui_dos.Cpu.{
  CpuidLeaf, empty_leaf, write_leaf, read_leaves, x86_cpuid_init, x86_cpuid_leaf, cpuid_ext_base,
  max_supported_cpuid, max_supported_cpuid_ext, at_most,
}

read_leaves_lem :
    (cpuid : ℕ → CpuidLeaf) (base left i : ℕ) (table : ℕ → CpuidLeaf) (j : ℕ)
    → base + i + left ≤ 2 ^ 32
    → read_leaves cpuid base left i table j
      ≡ (if leb i j && ltb j (i + left) then cpuid (j + base) else table j)
unfolding read_leaves
read_leaves_lem cpuid base zero i table j l = ground arith
read_leaves_lem cpuid base (suc left) i table j l =
    let here : (i + base) % 2 ^ 32 ≡ i + base = omega arith in
    read_leaves_lem cpuid base left (i + 1) (write_leaf i (cpuid ((i + base) % 2 ^ 32)) table) j
      (omega arith)
    ∙ rw here (ground arith)

basic_leaf :
    (cpuid : ℕ → CpuidLeaf) (top leaf : ℕ)
    → top ≤ 13
    → leaf ≤ top
    → read_leaves cpuid 0 top 1 (write_leaf 0 (cpuid 0) (λ _. empty_leaf)) leaf ≡ cpuid leaf
basic_leaf cpuid top leaf l m =
    let same : cpuid (leaf + 0) ≡ cpuid leaf = ap cpuid (omega arith) in
    let first : (leaf ≡ 0 → cpuid 0 ≡ cpuid leaf) = λ e. ap cpuid (sym e) in
    read_leaves_lem cpuid 0 top 1 _ leaf (omega arith) ∙ ground (arith, same, first)

extended_leaf :
    (cpuid : ℕ → CpuidLeaf) (top leaf : ℕ)
    → cpuid_ext_base ≤ top
    → top ≤ max_supported_cpuid_ext
    → cpuid_ext_base ≤ leaf
    → leaf ≤ top
    → read_leaves cpuid cpuid_ext_base
        ((top + 2 ^ 32 - cpuid_ext_base) % 2 ^ 32)
        1
        (write_leaf 0 (cpuid cpuid_ext_base) (λ _. empty_leaf))
        (leaf - cpuid_ext_base)
      ≡ cpuid leaf
extended_leaf cpuid top leaf low l p m =
    let same : cpuid (leaf - cpuid_ext_base + cpuid_ext_base) ≡ cpuid leaf =
      ap cpuid (omega arith) in
    let first : (leaf - cpuid_ext_base ≡ 0 → cpuid cpuid_ext_base ≡ cpuid leaf) =
      λ e. ap cpuid (omega arith) in
    read_leaves_lem cpuid cpuid_ext_base ((top + 2 ^ 32 - cpuid_ext_base) % 2 ^ 32) 1 _
      (leaf - cpuid_ext_base) (omega arith)
    ∙ ground (arith, same, first)

-- Where the processor's highest extended leaf is not below 80000000h, x86_cpuid_leaf gives what the
-- processor returned for each leaf up to the highest it has and the tables hold, basic or extended,
-- and NULL for every other.
x86_cpuid_leaf-x86_cpuid_init :
    (cpuid : ℕ → CpuidLeaf) (leaf : ℕ)
    → cpuid_ext_base ≤ (cpuid cpuid_ext_base).a
    → x86_cpuid_leaf (x86_cpuid_init cpuid) leaf ≡ (
        if leb leaf (at_most max_supported_cpuid (cpuid 0).a)
          || (leb cpuid_ext_base leaf
              && leb leaf (at_most max_supported_cpuid_ext (cpuid cpuid_ext_base).a))
        then some (cpuid leaf)
        else none)
unfolding x86_cpuid_leaf x86_cpuid_init
x86_cpuid_leaf-x86_cpuid_init cpuid leaf h =
    let top : ℕ = at_most max_supported_cpuid (cpuid 0).a in
    let ext_top : ℕ = at_most max_supported_cpuid_ext (cpuid cpuid_ext_base).a in
    elim (Bool-cases (leb leaf top)) [
      | inl basic ↦
          rw basic (ap (λ l. some l) (basic_leaf cpuid top leaf (ground arith) (ground arith)))
      | inr high ↦ elim (Bool-cases (leb cpuid_ext_base leaf && leb leaf ext_top)) [
        | inl extended ↦
            rw (high, extended)
              (ap (λ l. some l)
                (extended_leaf cpuid ext_top leaf (ground (arith, h)) (ground arith) (ground arith)
                  (ground arith)))
        | inr neither ↦ rw (high, neither) refl
      ]
    ]
