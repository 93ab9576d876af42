-- ===== src/LinkedList/Change.antt =====
-- list_append, list_insert and list_remove on a list in the heap.
use liqui_dos.Common.{
  ℕ, ◌≤◌, ◌<◌, ◌≡◌, ◌≢◌, inl, inr, arith, List, [], ◌∷◌, ◌==◌, if◌then◌else◌, Bool-cases, ==_iff,
  count, erase, count-erase_self, count-erase_ne,
}
use mathlib.Core.Path.{subst}
use liqui_dos.LinkedList.{Heap, list_append, list_remove, init_llist, list_insert}
use liqui_dos.LinkedList.Shape.{Linked, IsList, Linked-frame, prev_in_list, next_in_list}

append_links :
    (h : Heap) (head node : ℕ) (xs : List ℕ)
    → Linked h head xs
    → ((q : ℕ) → count q (head ∷ xs) ≤ 1)
    → node ≢ 0
    → count node (head ∷ xs) ≡ 0
    → Linked (list_append head node h) head (node ∷ xs)
unfolding list_append
append_links h head node [] l once valid fresh =
    (ground arith, valid, ground arith, ground (arith, l))
append_links h head node (x ∷ xs) (link, some_x, back, rest) once valid fresh = (
  ground arith,
  valid,
  ground arith,
  (
    ground (arith, link),
    some_x,
    ground (arith, link, some_x),
    Linked-frame h _ x xs (λ q there. ground (arith, once q, once head, fresh, link))
        (λ q there. ground (arith, once q, once x, fresh, link)) rest,
  ),
)

-- `list_append` puts a node that is in no place of the list at its front, behind the head.
pub list_append-IsList :
    (h : Heap) (head node : ℕ) (xs : List ℕ)
    → IsList h head xs
    → node ≢ 0
    → count node (head ∷ xs) ≡ 0
    → IsList (list_append head node h) head (node ∷ xs)
unfolding list_append
list_append-IsList h head node xs l valid fresh = record {
  links = append_links h head node xs l.links l.distinct valid fresh;
  start = ground (arith, l.start, fresh, l.distinct head, next_in_list h head xs l.links head);
  head_valid = l.head_valid;
  distinct = λ q. ground (arith, l.distinct q, fresh);
}

remove_first :
    (h : Heap) (p x : ℕ) (xs : List ℕ)
    → (h p).next ≡ x
    → x ≢ 0
    → (h x).prev ≡ p
    → Linked h x xs
    → ((q : ℕ) → count q (p ∷ x ∷ xs) ≤ 1)
    → Linked (list_remove x h) p xs
unfolding list_remove
remove_first h p x [] link valid back rest once = ground (arith, link, back, rest)
remove_first h p x (y ∷ ys) link valid back (link', valid', back', rest) once = (
  ground (arith, back, link', valid'),
  valid',
  ground (arith, back, link', valid'),
  Linked-frame h _ y ys (λ q there. ground (arith, once q, once p, back, link'))
      (λ q there. ground (arith, once q, once y, back, link')) rest,
)

remove_links :
    (h : Heap) (p node : ℕ) (xs : List ℕ)
    → Linked h p xs
    → ((q : ℕ) → count q (p ∷ xs) ≤ 1)
    → 0 < count node xs
    → Linked (list_remove node h) p (erase node xs)
unfolding list_remove
remove_links h p node [] l once there = absurd (omega arith)
remove_links h p node (x ∷ xs) (link, valid, back, rest) once there =
    elim (Bool-cases (x == node)) [
      | inl same ↦ rw same (
          subst (λ n. Linked (list_remove n h) p xs) ((==_iff x node).0 same)
            (remove_first h p x xs link valid back rest once))
      | inr other ↦ rw other (
        ground (arith, link, once p, other, there, prev_in_list h x xs rest node),
        valid,
        ground (arith, back, once x, other, there, next_in_list h x xs rest node),
        remove_links h x node xs rest (λ q. ground (arith, once q)) (ground (arith, there)),
      )
    ]

-- `list_remove` takes a node of the list out of it and keeps the others in their order.
pub list_remove-IsList :
    (h : Heap) (head node : ℕ) (xs : List ℕ)
    → IsList h head xs
    → 0 < count node xs
    → IsList (list_remove node h) head (erase node xs)
unfolding list_remove
list_remove-IsList h head node xs l there = record {
  links = remove_links h head node xs l.links l.distinct there;
  start = ground (arith, l.start, l.distinct head, there, next_in_list h head xs l.links node);
  head_valid = l.head_valid;
  distinct = λ q. ground (arith, l.distinct q, count-erase_self node xs, count-erase_ne node q xs);
}

-- A head that is initialized has the empty list.
pub init_llist-IsList : (h : Heap) (head : ℕ) → head ≢ 0 → IsList (init_llist head h) head []
unfolding init_llist
init_llist-IsList h head valid = record {
  links = ground arith;
  start = ground arith;
  head_valid = valid;
  distinct = λ q. ground arith;
}

-- The list with `node` before the first occurrence of `place`.
abbrev pub insert_at : ℕ → ℕ → List ℕ → List ℕ
insert_at place node [] = []
insert_at place node (x ∷ xs) = if x == place then node ∷ x ∷ xs else x ∷ insert_at place node xs

count-insert_at :
    (place node q : ℕ) (xs : List ℕ)
    → 0 < count place xs
    → count q (insert_at place node xs) ≡ count q (node ∷ xs)
count-insert_at place node q [] there = absurd (omega arith)
count-insert_at place node q (x ∷ xs) there = ground (arith, count-insert_at place node q xs)

insert_links :
    (h : Heap) (p place node : ℕ) (xs : List ℕ)
    → Linked h p xs
    → ((q : ℕ) → count q (p ∷ xs) ≤ 1)
    → node ≢ 0
    → count node (p ∷ xs) ≡ 0
    → 0 < count place xs
    → Linked (list_insert place node h) p (insert_at place node xs)
unfolding list_insert
insert_links h p place node [] l once valid fresh there = absurd (omega arith)
insert_links h p place node (x ∷ xs) (link, some_x, back, rest) once valid fresh there =
    elim (Bool-cases (x == place)) [
      | inl same ↦ rw same (
          subst (λ n. Linked (list_insert n node h) p (node ∷ x ∷ xs)) ((==_iff x place).0 same)
            (
              ground (arith, back, fresh, once p),
              valid,
              ground (arith, back, fresh, once p),
              (
                ground (arith, fresh),
                some_x,
                ground (arith, fresh),
                Linked-frame h _ x xs (λ q t. ground (arith, once q, once p, back, fresh))
                    (λ q t. ground (arith, once q, once x, back, fresh)) rest,
              ),
            ))
      | inr other ↦ rw other (
        ground (arith, link, once p, fresh, other, there, prev_in_list h x xs rest place),
        some_x,
        ground (arith, back, once x, fresh, other, there),
        insert_links h x place node xs rest (λ q. ground (arith, once q)) valid
            (ground (arith, fresh)) (ground (arith, there)),
      )
    ]

-- `list_insert` at a node of the list puts the new node directly before it.
pub list_insert-IsList :
    (h : Heap) (head place node : ℕ) (xs : List ℕ)
    → IsList h head xs
    → 0 < count place xs
    → node ≢ 0
    → count node (head ∷ xs) ≡ 0
    → IsList (list_insert place node h) head (insert_at place node xs)
unfolding list_insert
list_insert-IsList h head place node xs l there valid fresh = record {
  links = insert_links h head place node xs l.links l.distinct valid fresh there;
  start = ground (arith, l.start, fresh, l.distinct head, there);
  head_valid = l.head_valid;
  distinct = λ q. ground (arith, l.distinct q, fresh, count-insert_at place node q xs there);
}
