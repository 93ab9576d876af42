-- ===== src/Strings/Copy.antt =====
-- Lemmas on strcpy and strcat of lib/libc/string.c.
use liqui_dos.Strings.{Bytes, store, copy_up, memcpy, strcpy, strcat}
use liqui_dos.Strings.Compare.{IsBytes}
use liqui_dos.Strings.Length.{IsText, strlen-IsText}
use liqui_dos.Strings.Move.{covers, copy_up_lem}
use liqui_dos.Common.{
  ℕ, zero, suc, ◌+◌, ◌-◌, ◌≤◌, ◌<◌, ◌≡◌, ◌⊎◌, inl, inr, refl, ap, ◌∙◌, arith, some, if◌then◌else◌,
}

copy_up_apart :
    (len d s : ℕ) (m : Bytes) (q : ℕ)
    → s + len ≤ d
    → copy_up len d s m q ≡ (if covers d len q then m (s + (q - d)) else m q)
unfolding copy_up
copy_up_apart zero d s m q h = ground arith
copy_up_apart (suc len) d s m q h =
    let later : (d < q → m (s + 1 + (q - (d + 1))) ≡ m (s + (q - d))) = λ l. ap m (omega arith) in
    let first : (q ≡ d → m s ≡ m (s + (q - d))) = λ e. ap m (omega arith) in
    copy_up_apart len (d + 1) (s + 1) (store d (m s) m) q (omega arith)
    ∙ ground (arith, later, first)

memcpy_lem :
    (dest src len : ℕ) (m : Bytes) (q : ℕ)
    → (dest < src) ⊎ (src + len ≤ dest)
    → memcpy dest src len m q ≡ (if covers dest len q then m (src + (q - dest)) else m q)
unfolding memcpy
memcpy_lem dest src len m q (inl below) = copy_up_lem len dest src m q below
memcpy_lem dest src len m q (inr apart) = copy_up_apart len dest src m q apart

-- strcpy of a text of `n` bytes to a place before it or behind its end copies the `n` bytes, and
-- no other byte changes, so the NUL is not copied.
pub strcpy-IsText :
    (fuel dest src n : ℕ) (m : Bytes)
    → IsBytes m
    → IsText m src n
    → n < fuel
    → (dest < src) ⊎ (src + n ≤ dest)
    → (m' : Bytes) × (strcpy fuel dest src m ≡ some m')
      × ((q : ℕ) → m' q ≡ (if covers dest n q then m (src + (q - dest)) else m q))
unfolding strcpy
strcpy-IsText fuel dest src n m bytes h l apart = (
  memcpy dest src n m,
  rw (strlen-IsText fuel m src n bytes h l) refl,
  (λ q. memcpy_lem dest src n m q apart),
)

-- strcat of a text of `k` bytes behind one of `n` bytes, to a place before the source or behind
-- its end, puts the `k` bytes over the NUL and behind it, and writes no NUL.
pub strcat-IsText :
    (fuel dest src n k : ℕ) (m : Bytes)
    → IsBytes m
    → IsText m dest n
    → IsText m src k
    → n < fuel
    → k < fuel
    → (dest + n < src) ⊎ (src + k ≤ dest + n)
    → (m' : Bytes) × (strcat fuel dest src m ≡ some m')
      × ((q : ℕ) → m' q ≡ (if covers (dest + n) k q then m (src + (q - (dest + n))) else m q))
unfolding strcat
strcat-IsText fuel dest src n k m bytes h t l u apart =
    let (m', e, bytes') = strcpy-IsText fuel (dest + n) src k m bytes t u apart in
    (m', rw (strlen-IsText fuel m dest n bytes h l, strcat) e, bytes')
