-- ===== src/Loader/Choice.antt =====
-- The choice of the kernel in loader/x86/main.cc.
use liqui_dos.Common.{
  ℕ, ◌≡◌, inl, inr, refl, sym, Bool, true, false, not, ◌&&◌, ◌||◌, ap, ◌∙◌, Option, none, some,
  List, [], ◌∷◌, ◌==◌, if◌then◌else◌, Bool-cases,
}
use Prim.Native.Nat.{max}
use liqui_dos.Strings.{Bytes, memcmp}
use liqui_dos.Loader.{
  MultibootInfo, Module, Names, Kernels, or_first, take_module, find_kernels, Boot, init32, init64,
  panic, boot32, is_found, choose, main, is_bootable, check_flag,
}

abbrev pub is32 : Bytes → Names → Module → Bool
is32 m names entry = memcmp 8 m entry.cmdline names.cxkrnl32 == 0

abbrev pub is64 : Bytes → Names → Module → Bool
is64 m names entry = not (is32 m names entry) && memcmp 8 m entry.cmdline names.cxkrnl64 == 0

-- The first module that passes a test, and the highest end of a module.
unfoldable pub first_with : (Module → Bool) → List Module → Option Module
first_with test [] = none
first_with test (entry ∷ mods) = if test entry then some entry else first_with test mods

unfoldable pub highest_end : ℕ → List Module → ℕ
highest_end end [] = end
highest_end end (entry ∷ mods) = highest_end (max end entry.mod_end) mods

abbrev or_else : Option Module → Option Module → Option Module
or_else none o = o
or_else (some entry) o = some entry

record IsFound (m : Bytes) (names : Names) (mods : List Module) (k r : Kernels) : Type 0 where
  end : r.mods_end ≡ highest_end k.mods_end mods
  first32 : r.krnl32 ≡ or_else k.krnl32 (first_with (is32 m names) mods)
  first64 : r.krnl64 ≡ or_else k.krnl64 (first_with (is64 m names) mods)

or_none : (o : Option Module) → o ≡ or_else o none
or_none none = refl
or_none (some entry) = refl

or_else_if :
    (b : Bool) (o p : Option Module) (entry : Module)
    → or_else (if b then or_first o entry else o) p ≡ or_else o (if b then some entry else p)
or_else_if true none p entry = refl
or_else_if true (some first) p entry = refl
or_else_if false o p entry = refl

record IsTaken (m : Bytes) (names : Names) (entry : Module) (k r : Kernels) : Type 0 where
  end : r.mods_end ≡ max k.mods_end entry.mod_end
  taken32 : r.krnl32 ≡ (if is32 m names entry then or_first k.krnl32 entry else k.krnl32)
  taken64 : r.krnl64 ≡ (if is64 m names entry then or_first k.krnl64 entry else k.krnl64)

take_module-IsTaken :
    (m : Bytes) (names : Names) (entry : Module) (k : Kernels)
    → IsTaken m names entry k (take_module m names entry k)
unfolding take_module
take_module-IsTaken m names entry k = elim (Bool-cases (is32 m names entry)) [
  | inl yes32 ↦ rw yes32 (record { end = refl; taken32 = rw yes32 refl; taken64 = rw yes32 refl })
  | inr no32 ↦ elim (Bool-cases (memcmp 8 m entry.cmdline names.cxkrnl64 == 0)) [
    | inl yes64 ↦
        rw (no32, yes64)
          (record { end = refl; taken32 = rw no32 refl; taken64 = rw (no32, yes64) refl })
    | inr no64 ↦
        rw (no32, no64)
          (record { end = refl; taken32 = rw no32 refl; taken64 = rw (no32, no64) refl })
  ]
]

find_kernels-IsFound :
    (m : Bytes) (names : Names) (mods : List Module) (k : Kernels)
    → IsFound m names mods k (find_kernels m names mods k)
unfolding find_kernels highest_end first_with
find_kernels-IsFound m names [] k = record {
  end = refl;
  first32 = or_none k.krnl32;
  first64 = or_none k.krnl64;
}
find_kernels-IsFound m names (entry ∷ mods) k =
    let rest = find_kernels-IsFound m names mods (take_module m names entry k) in
    let taken = take_module-IsTaken m names entry k in
    record {
      end = rest.end ∙ ap (λ e. highest_end e mods) taken.end;
      first32 =
          rest.first32
          ∙ ap (λ o. or_else o (first_with (is32 m names) mods)) taken.taken32
          ∙ or_else_if (is32 m names entry) k.krnl32 _ entry;
      first64 =
          rest.first64
          ∙ ap (λ o. or_else o (first_with (is64 m names) mods)) taken.taken64
          ∙ or_else_if (is64 m names entry) k.krnl64 _ entry;
    }

-- The loop over the modules finds the first module whose command line starts with "cxkrnl32", the
-- first of the others whose command line starts with "cxkrnl64", and the highest end of a module.
pub find_kernels-first_with :
    (m : Bytes) (names : Names) (mods : List Module)
    → find_kernels m names mods (record { mods_end = 0; krnl32 = none; krnl64 = none }) ≡ record {
      mods_end = highest_end 0 mods;
      krnl32 = first_with (is32 m names) mods;
      krnl64 = first_with (is64 m names) mods;
    }
find_kernels-first_with m names mods =
    let found =
      find_kernels-IsFound m names mods (record { mods_end = 0; krnl32 = none; krnl64 = none }) in
    λ i. record { mods_end = found.end i; krnl32 = found.first32 i; krnl64 = found.first64 i }

init32_inj : (a b : Module) → init32 a ≡ init32 b → a ≡ b
init32_inj a b e = cc

boot32_inv : (o : Option Module) (entry : Module) → boot32 o ≡ init32 entry → o ≡ some entry
boot32_inv none entry e = cc
boot32_inv (some first) entry e = ap (λ k. some k) (init32_inj first entry e)

-- What starts a 32-bit kernel at all starts `krnl32`.
Only : Option Module → Boot → Type 0
Only krnl32 b = (entry : Module) → b ≡ init32 entry → krnl32 ≡ some entry

Only-if :
    (o : Option Module) (b : Bool) (x y : Boot) → Only o x → Only o y → Only o (if b then x else y)
Only-if o true x y p q = p
Only-if o false x y p q = q

Only-panic : (o : Option Module) → Only o panic
unfolding Only
Only-panic o entry e = absurd cc

Only-init64 : (o : Option Module) → Only o init64
unfolding Only
Only-init64 o entry e = absurd cc

Only-boot32 : (o : Option Module) → Only o (boot32 o)
unfolding Only
Only-boot32 o entry e = boot32_inv o entry e

choose-Only :
    (m : Bytes) (names : Names) (longmode : Bool) (mbt : MultibootInfo) (k : Kernels)
    → Only k.krnl32 (choose m names longmode mbt k)
unfolding choose
choose-Only m names longmode mbt k =
    let o : Option Module = k.krnl32 in
    let six : Bool = memcmp 6 m mbt.cmdline names.exec64 == 0 in
    Only-if o (not (is_found k.krnl32 || is_found k.krnl64)) _ _ (Only-panic o) (
      Only-if o (check_flag mbt.flags 2) _ _
        (Only-if o (memcmp 6 m mbt.cmdline names.exec32 == 0) _ _ (Only-boot32 o) (
          Only-if o six _ _
            (Only-if o (is_found k.krnl64 && longmode) _ _ (Only-init64 o) (Only-panic o))
            (Only-panic o)))
        (Only-if o (longmode && is_found k.krnl64) _ _ (Only-init64 o) (Only-boot32 o)))

main-Only :
    (bootable : Bool) (o : Option Module) (b : Boot) (entry : Module)
    → Only o b
    → (if bootable then b else panic) ≡ init32 entry
    → (bootable ≡ true) × (o ≡ some entry)
unfolding Only
main-Only true o b entry only e = (refl, only entry e)
main-Only false o b entry only e = absurd cc

-- If the loader starts a 32-bit kernel, the boot information has passed every check, and the
-- kernel is the first module whose command line starts with "cxkrnl32".
pub main-first_with :
    (m : Bytes) (names : Names) (longmode : Bool) (sig : ℕ) (mbt : MultibootInfo)
    (mods : List Module) (entry : Module)
    → main m names longmode sig mbt mods ≡ init32 entry
    → (is_bootable sig mbt ≡ true) × (first_with (is32 m names) mods ≡ some entry)
unfolding main
main-first_with m names longmode sig mbt mods entry e =
    let k : Kernels =
      find_kernels m names mods (record { mods_end = 0; krnl32 = none; krnl64 = none }) in
    let (bootable, first) =
      main-Only (is_bootable sig mbt) k.krnl32 _ entry (choose-Only m names longmode mbt k) e in
    (bootable, ap (λ r. r.krnl32) (sym (find_kernels-first_with m names mods)) ∙ first)
