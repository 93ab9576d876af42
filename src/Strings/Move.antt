-- ===== src/Strings/Move.antt =====
-- memmove: the bytes arrive also where the areas overlap.
use liqui_dos.Common.{
  ℕ, zero, suc, ◌+◌, ◌-◌, ◌≤◌, ◌<◌, ◌≡◌, inl, inr, Bool, ◌&&◌, ap, ◌∙◌, arith, ltb, leb,
  if◌then◌else◌, Bool-cases,
}
use liqui_dos.Strings.{Bytes, store, copy_up, copy_down, memmove}

-- Address `q` lies in the `len` bytes from `a` on.
abbrev pub covers : ℕ → ℕ → ℕ → Bool
covers a len q = leb a q && ltb q (a + len)

pub copy_up_lem :
    (len d s : ℕ) (m : Bytes) (q : ℕ)
    → d < s
    → copy_up len d s m q ≡ (if covers d len q then m (s + (q - d)) else m q)
unfolding copy_up
copy_up_lem zero d s m q h = ground arith
copy_up_lem (suc len) d s m q h =
    let later : (d < q → m (s + 1 + (q - (d + 1))) ≡ m (s + (q - d))) = λ l. ap m (omega arith) in
    let first : (q ≡ d → m s ≡ m (s + (q - d))) = λ e. ap m (omega arith) in
    copy_up_lem len (d + 1) (s + 1) (store d (m s) m) q (omega arith) ∙ ground (arith, later, first)

copy_down_lem :
    (len d s : ℕ) (m : Bytes) (q : ℕ)
    → s ≤ d
    → copy_down len d s m q ≡ (if covers d len q then m (s + (q - d)) else m q)
unfolding copy_down
copy_down_lem zero d s m q h = ground arith
copy_down_lem (suc len) d s m q h =
    let last : (q ≡ d + len → m (s + len) ≡ m (s + (q - d))) = λ e. ap m (omega arith) in
    copy_down_lem len d s (store (d + len) (m (s + len)) m) q h ∙ ground (arith, last)

-- After `memmove` byte `q` of the destination is what the byte at its place in the source was
-- before the call, also where the areas overlap, and every other byte is as before.
pub memmove_lem :
    (dest src len : ℕ) (m : Bytes) (q : ℕ)
    → memmove dest src len m q ≡ (if covers dest len q then m (src + (q - dest)) else m q)
unfolding memmove
memmove_lem dest src len m q = elim (Bool-cases (ltb dest src)) [
  | inl below ↦ rw below (copy_up_lem len dest src m q (ground arith))
  | inr above ↦ rw above (copy_down_lem len dest src m q (ground arith))
]
