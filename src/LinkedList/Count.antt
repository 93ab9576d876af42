-- ===== src/LinkedList/Count.antt =====
-- The loops of list_count and list_isempty end at the list's length.
use liqui_dos.Common.{
  ℕ, zero, suc, ◌+◌, ◌<◌, ◌≡◌, true, false, ◌&&◌, ap, ◌∙◌, arith, some, List, [], ◌∷◌, ◌==◌, length,
}
use liqui_dos.LinkedList.{Heap, count_from, list_count, list_isempty}
use liqui_dos.LinkedList.Shape.{Linked, IsList}

count_from_lem :
    (fuel : ℕ) (h : Heap) (p : ℕ) (xs : List ℕ) (ctr : ℕ)
    → Linked h p xs
    → length xs < fuel
    → count_from fuel h p ctr ≡ some (ctr + length xs)
unfolding count_from
count_from_lem zero h p xs ctr l enough = absurd (omega arith)
count_from_lem (suc fuel) h p [] ctr l enough = rw l (ap some (omega arith))
count_from_lem (suc fuel) h p (x ∷ xs) ctr (link, valid, back, rest) enough =
    let more : ((h p).next == 0) ≡ false = ground (arith, link, valid) in
    rw (more, link)
      (count_from_lem fuel h x xs (ctr + 1) rest (omega arith) ∙ ap some (omega arith))

-- With fuel for one round more than the list has nodes, `list_count` of the head is the number of
-- nodes, and `list_isempty` says whether there is none.
pub list_count_lem :
    (fuel : ℕ) (h : Heap) (head : ℕ) (xs : List ℕ)
    → IsList h head xs
    → length xs < fuel
    → (list_count fuel h head ≡ some (length xs))
      × (list_isempty fuel h head ≡ some (length xs == 0))
unfolding list_count list_isempty
list_count_lem zero h head xs l enough = absurd (omega arith)
list_count_lem (suc fuel) h head xs l enough =
    let valid : (head == 0) ≡ false = ground (arith, l.head_valid) in
    let here : ((h head).prev == head) ≡ true = ground (arith, l.start) in
    rw (valid, here)
      (
        count_from_lem (suc fuel) h head xs 0 l.links enough ∙ ap some (omega arith),
        ap some (ends xs l.links),
      )
  where
    ends :
        (ys : List ℕ)
        → Linked h head ys
        → ((h head).next == 0 && (h head).prev == head) ≡ (length ys == 0)
    ends [] e = ground (arith, e, l.start)
    ends (y ∷ ys) (link, some_y, back, rest) = ground (arith, link, some_y)
