-- ===== src/LinkedList/PushFront.antt =====
-- list_push_front on a list with nodes.
use liqui_dos.Common.{ℕ, suc, ◌≡◌, ◌≢◌, refl, true, false, arith, some, List, ◌∷◌, ◌==◌, count}
use liqui_dos.LinkedList.{Heap, set_prev, set_next, list_push_front}
use liqui_dos.LinkedList.Shape.{Linked, IsList}

-- The heap after a single node `s` is pushed.
abbrev pushed : ℕ → ℕ → Heap → Heap
pushed head s h =
    let h1 = set_prev s head h in let h2 = set_next s (h1 head).next h1 in set_next head s h2

list_push_front-single :
    (fuel : ℕ) (h : Heap) (head s : ℕ)
    → s ≢ 0
    → (h s).prev ≡ s
    → (h s).next ≡ 0
    → list_push_front (suc fuel) head s h ≡ some (pushed head s h)
unfolding list_push_front
list_push_front-single fuel h head s valid start end =
    let real : (s == 0) ≡ false = ground (arith, valid) in
    let first : ((h s).prev == s) ≡ true = ground (arith, start) in
    let last : ((h s).next == 0) ≡ true = ground (arith, end) in
    rw (real, first, list_push_front) (rw (real, last) refl)

-- A single node that is pushed in front of a list with nodes is linked forwards only: the list's
-- old first node still has the head for its previous one, so the links are no list.
pub list_push_front-Linked :
    (fuel : ℕ) (h : Heap) (head s x : ℕ) (xs : List ℕ)
    → IsList h head (x ∷ xs)
    → s ≢ 0
    → (h s).prev ≡ s
    → (h s).next ≡ 0
    → count s (head ∷ x ∷ xs) ≡ 0
    → (h' : Heap) × (list_push_front (suc fuel) head s h ≡ some h')
      × ((h' head).next ≡ s)
      × ((h' s).next ≡ x)
      × ¬ Linked h' head (s ∷ x ∷ xs)
unfolding list_push_front
list_push_front-Linked fuel h head s x xs l valid start end fresh =
    let (link, some_x, back, rest) = l.links in
    (
      pushed head s h,
      list_push_front-single fuel h head s valid start end,
      ground (arith, link),
      ground (arith, link, fresh, start),
      λ links. ground (arith, links.3.2, back, fresh),
    )
