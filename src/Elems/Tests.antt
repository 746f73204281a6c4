-- ===== src/Elems/Tests.antt =====
-- The theorems on linked lists at a heap with three elements, of which one is marked.
use bnetd.Prelude.{◌≡◌, refl, arith, [], ◌∷◌, ◌++◌, none, some, ◌==◌, true, false, if◌then◌else◌}
use bnetd.Elems.{
  Heap, LinkedList, list_purge, list_prepend_data, list_append_data, list_remove_elem,
}
use bnetd.Elems.Purge.{lies_in}
use bnetd.Elems.Purging.{live}
use bnetd.Elems.Represent.{IsList, IsPurged, list_purge-IsPurged, GivesList, add_data-GivesList}
use bnetd.Elems.Removal.{IsRemoved, list_remove_elem-IsRemoved}

abbrev memory : Heap
memory a =
    if a == 5
    then some (record { item = some 50; next = some 6 })
    else if a == 6
    then some (record { item = none; next = some 7 })
    else if a == 7
    then some (record { item = some 70; next = none })
    else none

abbrev chained : LinkedList
chained = record { len = 2; head = some 5; tail = some 7 }

chained-IsList : IsList memory chained ((5, some 50) ∷ (6, none) ∷ (7, some 70) ∷ [])
unfolding live lies_in
chained-IsList = record {
  chain = (refl, some 6, refl, (refl, some 7, refl, (refl, none, refl, refl)));
  last = refl;
  counted = refl;
  apart = (refl, (refl, (refl, tt)));
}

unused_address : lies_in 9 ((5, some 50) ∷ (6, none) ∷ (7, some 70) ∷ []) ≡ false
unfolding lies_in
unused_address = refl

list_purge-IsPurged_example :
    (heap' : Heap) × (list' : LinkedList) × (list_purge 4 memory chained ≡ some (heap', list'))
    × IsPurged memory ((5, some 50) ∷ (6, none) ∷ (7, some 70) ∷ []) heap' list'
list_purge-IsPurged_example =
    list_purge-IsPurged memory chained ((5, some 50) ∷ (6, none) ∷ (7, some 70) ∷ []) 4
      chained-IsList (omega arith)

add_data-GivesList_example :
    GivesList
      (list_append_data memory chained 9 90)
      (((5, some 50) ∷ (6, none) ∷ (7, some 70) ∷ []) ++ (9, some 90) ∷ [])
    × GivesList
        (list_prepend_data memory chained 9 90)
        ((9, some 90) ∷ (5, some 50) ∷ (6, none) ∷ (7, some 70) ∷ [])
add_data-GivesList_example =
    add_data-GivesList memory chained ((5, some 50) ∷ (6, none) ∷ (7, some 70) ∷ []) 9 90
      chained-IsList unused_address

list_remove_elem-IsRemoved_example :
    (heap' : Heap) × (list' : LinkedList) × (list_remove_elem memory chained 7
      ≡ some (true, heap', list'))
    × IsRemoved 7 70 [] ((5, some 50) ∷ (6, none) ∷ []) heap' list'
list_remove_elem-IsRemoved_example =
    list_remove_elem-IsRemoved 7 70 [] memory chained ((5, some 50) ∷ (6, none) ∷ []) chained-IsList
