-- ===== src/Examples/Links.antt =====
-- Lists in a heap with head 1 and the nodes 2 and 3.
use liqui_dos.Common.{refl, arith, [], ◌∷◌, ◌==◌, if◌then◌else◌}
use liqui_dos.LinkedList.{Heap, list_remove}
use liqui_dos.LinkedList.Shape.{IsList}
use liqui_dos.LinkedList.Change.{list_remove-IsList}

abbrev heap : Heap
heap b =
    if b == 1
    then record { prev = 1; next = 2 }
    else (if b == 2 then record { prev = 1; next = 3 } else record { prev = 2; next = 0 })

heap-IsList : IsList heap 1 (2 ∷ 3 ∷ [])
heap-IsList = record {
  links = (refl, omega arith, refl, (refl, omega arith, refl, refl));
  start = refl;
  head_valid = omega arith;
  distinct = λ q. ground arith;
}

list_remove-IsList_example : IsList (list_remove 2 heap) 1 (3 ∷ [])
list_remove-IsList_example = list_remove-IsList heap 1 2 (2 ∷ 3 ∷ []) heap-IsList (omega arith)
