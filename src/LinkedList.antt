-- ===== src/LinkedList.antt =====
-- lib/ebl/include/linked_list.h: the intrusive lists over a heap of nodes. A pointer is an address,
-- NULL is 0, and the loops that follow pointers run on fuel, with `none` where it is used up.
pub mod Shape
pub mod Change
pub mod Count
pub mod PushFront
use mathlib.Core.Option
use liqui_dos.Common.{
  ℕ, zero, suc, ◌+◌, Bool, true, false, not, ◌&&◌, Option, none, some, ◌==◌, if◌then◌else◌,
}

pub record Node : Type 0 where
  pub prev : ℕ
  pub next : ℕ

abbrev pub Heap : Type 0
Heap = ℕ → Node

unfoldable pub set_prev : ℕ → ℕ → Heap → Heap
set_prev a v h b = if b == a then record (h b) { prev = v } else h b

unfoldable pub set_next : ℕ → ℕ → Heap → Heap
set_next a v h b = if b == a then record (h b) { next = v } else h b

-- INIT_LLIST
unfoldable pub init_llist : ℕ → Heap → Heap
unfolding set_prev set_next
init_llist p h = set_prev p p (set_next p 0 h)

-- `none` is NULL or, where the fuel is used up, a loop that goes on.
unfoldable pub list_begin : ℕ → Heap → ℕ → Option ℕ
list_begin zero h a = none
list_begin (suc fuel) h a =
    let before = list_begin fuel h (h a).prev in
    if a == 0 then none else (if (h a).prev == a then some a else before)

unfoldable pub list_end : ℕ → Heap → ℕ → Option ℕ
list_end zero h a = none
list_end (suc fuel) h a =
    let after = list_end fuel h (h a).next in
    if a == 0 then none else (if (h a).next == 0 then some a else after)

unfoldable pub list_isempty : ℕ → Heap → ℕ → Option Bool
unfolding list_begin
list_isempty fuel h a =
    if a == 0
    then some true
    else Option.map (λ front. (h front).next == 0 && (h front).prev == front) (list_begin fuel h a)

-- `while(front -> next != NULL) front = front -> next, ctr++;`
unfoldable pub count_from : ℕ → Heap → ℕ → ℕ → Option ℕ
count_from zero h front ctr = none
count_from (suc fuel) h front ctr =
    let rest = count_from fuel h (h front).next (ctr + 1) in
    if (h front).next == 0 then some ctr else rest

unfoldable pub list_count : ℕ → Heap → ℕ → Option ℕ
unfolding list_begin count_from
list_count fuel h a =
    if a == 0
    then some 0
    else elim (list_begin fuel h a) [ none ↦ none | some front ↦ count_from fuel h front 0 ]

unfoldable pub list_append : ℕ → ℕ → Heap → Heap
unfolding set_prev set_next
list_append head node h =
    let h1 = if (h head).next == 0 then h else set_prev (h head).next node h in
    let h2 = set_next node (h1 head).next h1 in
    let h3 = set_prev node head h2 in set_next head node h3

unfoldable pub list_insert : ℕ → ℕ → Heap → Heap
unfolding set_prev set_next
list_insert head node h =
    let h1 = set_next node head h in
    let h2 = set_prev node (h1 head).prev h1 in
    let h3 =
      if (h2 head).prev == head then set_prev node node h2 else set_next (h2 head).prev node h2 in
    set_prev head node h3

unfoldable pub list_push_front : ℕ → ℕ → ℕ → Heap → Option Heap
unfolding set_prev set_next list_begin list_end
list_push_front fuel head list h = elim (list_begin fuel h list) [
  | none ↦ none
  | some s ↦ elim (list_end fuel h list) [
    | none ↦ none
    | some t ↦
        let h1 = set_prev s head h in
        let h2 = set_next t (h1 head).next h1 in some (set_next head s h2)
  ]
]

unfoldable pub list_remove : ℕ → Heap → Heap
unfolding set_prev set_next
list_remove node h =
    let h1 = set_next (h node).prev (h node).next h in
    if (h1 node).next == 0 then h1 else set_prev (h1 node).next (h1 node).prev h1
