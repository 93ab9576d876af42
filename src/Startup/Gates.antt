-- ===== src/Startup/Gates.antt =====
-- The tables after start-up.
use liqui_dos.Common.{
  ◌⊎◌, none, false, ℕ, zero, suc, ◌+◌, ◌-◌, ◌*◌, ◌/◌, ◌%◌, ◌^◌, ◌<◌, ◌≤◌, ◌≡◌, ◌≢◌, inl, inr, refl,
  ap, true, List, [], ◌∷◌, ◌++◌, ◌&&◌, ◌∙◌, arith, some, ltb, leb, ◌==◌, if◌then◌else◌, Bool-cases,
}
use liqui_dos.Common.Bits.{bit_and-low, bit_or-zero}
use Prim.Native.Nat.{bit_and}
use liqui_dos.BootMem.{MmapEntry, enough_memory}
use liqui_dos.Loader.{MultibootInfo, is_bootable}
use liqui_dos.Descriptors.{GdtEntry, IdtEntry, set_segment, get_gate}
use liqui_dos.Descriptors.Decode.{segment_base, get_gate-set_gate}
use liqui_dos.Platform
use liqui_dos.Platform.{Irqs, get_handler, install_handler, isr_handler}
use liqui_dos.Startup.{
  ArchTables, init_gdt, init_tss, init_idt, install_gates, early_init, install_handlers, init,
}

-- The limit that the processor takes from a segment descriptor, in bytes or in pages.
abbrev pub segment_limit : GdtEntry → ℕ
segment_limit e = e.limit_low + e.granularity % 2 ^ 4 * 2 ^ 16

install_gates_lem :
    (left i : ℕ) (stubs : ℕ → ℕ) (entries : ℕ → IdtEntry) (n : ℕ)
    → ((k : ℕ) → stubs k < 2 ^ 32)
    → get_gate n (install_gates left i stubs entries)
      ≡ (if leb i n && ltb n (i + left) then stubs n else get_gate n entries)
unfolding install_gates
install_gates_lem zero i stubs entries n h = ground arith
install_gates_lem (suc left) i stubs entries n h =
    install_gates_lem left (i + 1) stubs _ n h
    ∙ ground (arith, get_gate-set_gate i (stubs i) 0x08 0x8E entries n (h i))

install_handlers_lem :
    (left i handler : ℕ) (s : Irqs) (n : ℕ)
    → get_handler n (install_handlers left i handler s)
      ≡ (if leb i n && ltb n (i + left) then handler else get_handler n s)
unfolding install_handlers install_handler get_handler
install_handlers_lem zero i handler s n = ground arith
install_handlers_lem (suc left) i handler s n =
    install_handlers_lem left (i + 1) handler _ n ∙ ground arith

-- A segment over the whole 32-bit address space: base 0 and the highest limit in pages.
pub record IsFlat (e : GdtEntry) : Type 0 where
  pub base : segment_base e ≡ 0
  pub limit : segment_limit e ≡ 2 ^ 20 - 1
  pub in_pages : e.granularity / 2 ^ 7 ≡ 1

init_gdt-IsFlat :
    (tss_base : ℕ) (entries : ℕ → GdtEntry) (k : ℕ)
    → 1 ≤ k
    → k ≤ 4
    → IsFlat (init_gdt tss_base entries k)
unfolding init_gdt set_segment
init_gdt-IsFlat tss_base entries zero l h = absurd (omega arith)
init_gdt-IsFlat tss_base entries (suc zero) l h = record {
  base = refl;
  limit = refl;
  in_pages = refl;
}
init_gdt-IsFlat tss_base entries (suc (suc zero)) l h = record {
  base = refl;
  limit = refl;
  in_pages = refl;
}
init_gdt-IsFlat tss_base entries (suc (suc (suc zero))) l h = record {
  base = refl;
  limit = refl;
  in_pages = refl;
}
init_gdt-IsFlat tss_base entries (suc (suc (suc (suc zero)))) l h = record {
  base = refl;
  limit = refl;
  in_pages = refl;
}
init_gdt-IsFlat tss_base entries (suc (suc (suc (suc (suc k))))) l h = absurd (omega arith)

-- The kernel's early_init fails where the boot information does not pass every check or the memory at
-- 1 MiB is too small. Otherwise it succeeds, each of the 256 interrupt gates leads to its stub, and
-- the four segments of code and data are flat.
pub early_init-AreReady :
    (magic : ℕ) (mbt : MultibootInfo) (mmaps : List MmapEntry) (stubs : ℕ → ℕ) (tss_base : ℕ)
    (entries : ℕ → GdtEntry)
    → ((k : ℕ) → stubs k < 2 ^ 32)
    → ((is_bootable magic mbt && enough_memory mmaps ≡ false)
        × (early_init magic mbt mmaps stubs tss_base entries ≡ none))
      ⊎ ((is_bootable magic mbt && enough_memory mmaps ≡ true)
          × (t : ArchTables) × (early_init magic mbt mmaps stubs tss_base entries ≡ some t)
          × ((n : ℕ) → n < 256 → get_gate n t.idt ≡ stubs n)
          × ((k : ℕ) → 1 ≤ k → k ≤ 4 → IsFlat (t.gdt k)))
unfolding early_init
early_init-AreReady magic mbt mmaps stubs tss_base entries h =
    elim (Bool-cases (is_bootable magic mbt && enough_memory mmaps)) [
      | inl good ↦ inr (
        good,
        record {
          gdt = init_gdt tss_base entries;
          tss = init_tss;
          idt = install_gates 256 0 stubs init_idt;
        },
        rw good refl,
        (λ n l. install_gates_lem 256 0 stubs init_idt n h ∙ ground arith),
        init_gdt-IsFlat tss_base entries,
      )
      | inr bad ↦ inl (bad, rw bad refl)
    ]

-- The limit of the task state segment holds its address: gdt::init adds the two.
init_gdt-tss_limit :
    (tss_base : ℕ) (entries : ℕ → GdtEntry)
    → tss_base + 104 < 2 ^ 32
    → (segment_base (init_gdt tss_base entries 5) ≡ tss_base)
      × (segment_limit (init_gdt tss_base entries 5) ≡ (tss_base + 104) % 2 ^ 20)
unfolding init_gdt set_segment
init_gdt-tss_limit tss_base entries l = (
  omega (
    arith,
    bit_and-low 16 tss_base,
    bit_and-low 8 (tss_base / 2 ^ 16),
    bit_and-low 8 (tss_base / 2 ^ 24),
  ),
  omega (
    arith,
    bit_and-low 16 ((tss_base + 104) % 2 ^ 32),
    bit_and-low 4 ((tss_base + 104) % 2 ^ 32 / 2 ^ 16),
    bit_or-zero (bit_and ((tss_base + 104) % 2 ^ 32 / 2 ^ 16) 0x0F),
  ),
)

isr_handler_lem :
    (n : ℕ) (s : Irqs)
    → (isr_handler n s).called
      ≡ (if get_handler n s == 0 then s.called else s.called ++ (get_handler n s, n) ∷ [])
unfolding isr_handler
isr_handler_lem n s = elim (Bool-cases (get_handler n s == 0)) [
  | inl e ↦ rw e refl
  | inr e ↦ rw e refl
]

install_handlers-called :
    (left i handler : ℕ) (s : Irqs) → (install_handlers left i handler s).called ≡ s.called
unfolding install_handlers install_handler
install_handlers-called zero i handler s = refl
install_handlers-called (suc left) i handler s =
    install_handlers-called left (i + 1) handler (install_handler i handler s)

early_init-get_handler :
    (a1 a2 n : ℕ) (s : Irqs) → n < 255 → get_handler n (Platform.early_init a1 a2 s) ≡ 0
unfolding Platform.early_init get_handler
early_init-get_handler a1 a2 n s l = ground arith

early_init-called : (a1 a2 : ℕ) (s : Irqs) → (Platform.early_init a1 a2 s).called ≡ s.called
unfolding Platform.early_init
early_init-called a1 a2 s = refl

-- After platform::early_init and then x86_32::init, an interrupt below 32 calls the exception
-- handler, and no other one up to 254 calls a handler.
pub isr_handler-init :
    (a1 a2 handler n : ℕ) (s : Irqs)
    → n < 255
    → handler ≢ 0
    → (isr_handler n (init handler (Platform.early_init a1 a2 s))).called
      ≡ (if ltb n 32 then s.called ++ (handler, n) ∷ [] else s.called)
unfolding init
isr_handler-init a1 a2 handler n s l given =
    let early : Irqs = Platform.early_init a1 a2 s in
    let ready : Irqs = install_handlers 32 0 handler early in
    let found : get_handler n ready ≡ (if ltb n 32 then handler else 0) =
      install_handlers_lem 32 0 handler early n
      ∙ ground (arith, early_init-get_handler a1 a2 n s l) in
    let calls : ℕ → List (ℕ × ℕ) → List (ℕ × ℕ) = λ h c. if h == 0 then c else c ++ (h, n) ∷ [] in
    isr_handler_lem n ready
    ∙ ap (λ (h : ℕ). calls h ready.called) found
    ∙ ap (λ (c : List (ℕ × ℕ)). calls (if ltb n 32 then handler else 0) c)
        (install_handlers-called 32 0 handler early ∙ early_init-called a1 a2 s)
    ∙ elim (Bool-cases (ltb n 32)) [ inl low ↦ rw low (ground arith) | inr high ↦ rw high refl ]
