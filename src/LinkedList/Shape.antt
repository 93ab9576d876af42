-- ===== src/LinkedList/Shape.antt =====
-- What a list is in the heap: the nodes that the links lead through.
use liqui_dos.Common.{
  ℕ, ◌≤◌, ◌<◌, ◌≡◌, ◌≢◌, inl, inr, ◌∙◌, arith, List, [], ◌∷◌, ◌==◌, Bool-cases, count,
}
use liqui_dos.LinkedList.{Heap}

-- From node `p` the links lead through the nodes of the list, each linked back, to NULL.
abbrev pub Linked : Heap → ℕ → List ℕ → Type 0
Linked h p [] = (h p).next ≡ 0
Linked h p (x ∷ xs) = ((h p).next ≡ x) × (x ≢ 0) × ((h x).prev ≡ p) × Linked h x xs

-- The list of the nodes behind `head`, which is no node of it.
pub record IsList (h : Heap) (head : ℕ) (xs : List ℕ) : Type 0 where
  pub links : Linked h head xs
  pub start : (h head).prev ≡ head
  pub head_valid : head ≢ 0
  pub distinct : (q : ℕ) → count q (head ∷ xs) ≤ 1

-- A heap with the same links at the list's nodes has the list.
pub Linked-frame :
    (h h' : Heap) (p : ℕ) (xs : List ℕ)
    → ((q : ℕ) → 0 < count q (p ∷ xs) → (h' q).next ≡ (h q).next)
    → ((q : ℕ) → 0 < count q xs → (h' q).prev ≡ (h q).prev)
    → Linked h p xs
    → Linked h' p xs
Linked-frame h h' p [] nexts prevs l = nexts p (ground arith) ∙ l
Linked-frame h h' p (x ∷ xs) nexts prevs (link, valid, back, rest) = (
  nexts p (ground arith) ∙ link,
  valid,
  prevs x (ground arith) ∙ back,
  Linked-frame h h' x xs (λ q there. nexts q (ground arith)) (λ q there. prevs q (ground arith))
      rest,
)

pub Linked-valid :
    (h : Heap) (p : ℕ) (xs : List ℕ) → Linked h p xs → (q : ℕ) → 0 < count q xs → q ≢ 0
Linked-valid h p [] l q there = absurd (omega arith)
Linked-valid h p (x ∷ xs) (link, valid, back, rest) q there =
    ground (arith, valid, Linked-valid h x xs rest q)

-- The node before a node of the list is `p` or a node of the list.
pub prev_in_list :
    (h : Heap) (p : ℕ) (xs : List ℕ)
    → Linked h p xs
    → (q : ℕ) → 0 < count q xs
    → 0 < count (h q).prev (p ∷ xs)
prev_in_list h p [] l q there = absurd (omega arith)
prev_in_list h p (x ∷ xs) (link, valid, back, rest) q there = elim (Bool-cases (q == x)) [
  | inl same ↦ ground (arith, back)
  | inr other ↦ ground (arith, prev_in_list h x xs rest q)
]

-- The node behind `p` or a node of the list is NULL or a node of the list.
pub next_in_list :
    (h : Heap) (p : ℕ) (xs : List ℕ)
    → Linked h p xs
    → (q : ℕ) → 0 < count q (p ∷ xs)
    → ((h q).next ≢ 0)
    → 0 < count (h q).next xs
next_in_list h p [] l q there more = ground (arith, l)
next_in_list h p (x ∷ xs) (link, valid, back, rest) q there more = elim (Bool-cases (q == p)) [
  | inl same ↦ ground (arith, link)
  | inr other ↦ ground (arith, next_in_list h x xs rest q)
]
