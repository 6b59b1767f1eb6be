-- ===== src/BoxList/Tests.antt =====
-- The theorems on utils/list.c at a list of two nodes.
use projeto_so.Base.{
  ◌+◌, ◌-◌, ◌%◌, ◌^◌, refl, some, none, [], ◌∷◌, ◌++◌, pos, arith, ◌==◌, if◌then◌else◌,
}
use projeto_so.BoxList.{TfsFile, Nodes, BoxList, list_add, list_remove}
use projeto_so.BoxList.Counters.{
  increment_publishers, decrement_publishers, increment_subscribers, decrement_subscribers,
}
use projeto_so.BoxList.Chains.{Cells, Ends}
use projeto_so.BoxList.Sorting.{list_sort}
use projeto_so.BoxList.Sorting.Order.{SortedFrom, list_sort-IsSorted}
use projeto_so.BoxList.Lookup.{change_first, Changed, counters-Changed}
use projeto_so.BoxList.Removing.{Removed, list_remove-Removed}
use projeto_so.BoxList.Adding.{IsBoxList, list_add-IsBoxList}

abbrev first_file : TfsFile
first_file = record { box_name = b'a' ∷ []; n_publishers = 0; n_subscribers = 2; box_size = 5 }

abbrev second_file : TfsFile
second_file = record { box_name = b'b' ∷ []; n_publishers = 1; n_subscribers = 0; box_size = 0 }

abbrev two_cells : Cells
two_cells = (8, first_file) ∷ (16, second_file) ∷ []

abbrev nodes : Nodes
nodes p =
    if p == 8
    then some (record { file = first_file; next = 16 })
    else if p == 16
    then some (record { file = second_file; next = 0 })
    else none

abbrev two_boxes : BoxList
two_boxes = record { head = 8; tail = 16; size = pos 2 }

two_boxes-IsBoxList : IsBoxList nodes two_boxes two_cells
two_boxes-IsBoxList = record {
  chain = (
    16,
    refl,
    (λ e. absurd (omega arith)),
    refl,
    (0, refl, (λ e. absurd (omega arith)), refl, refl),
  );
  apart = (((λ e. absurd (omega arith)), tt), (tt, tt));
  tail_last = refl;
  count = refl;
}

counters-Changed_example :
    Ends
      (λ _. Changed nodes 8 two_cells (
        change_first
          (λ f. record f { n_publishers = (f.n_publishers + 1) % 2 ^ 64 })
          (b'b' ∷ [])
          two_cells))
      (increment_publishers 3 two_boxes (b'b' ∷ []) nodes)
    × Ends
        (λ _. Changed nodes 8 two_cells (
          change_first
            (λ f. record f { n_publishers = (f.n_publishers + 2 ^ 64 - 1) % 2 ^ 64 })
            (b'b' ∷ [])
            two_cells))
        (decrement_publishers 3 two_boxes (b'b' ∷ []) nodes)
    × Ends
        (λ _. Changed nodes 8 two_cells (
          change_first
            (λ f. record f { n_subscribers = (f.n_subscribers + 1) % 2 ^ 64 })
            (b'b' ∷ [])
            two_cells))
        (increment_subscribers 3 two_boxes (b'b' ∷ []) nodes)
    × Ends
        (λ _. Changed nodes 8 two_cells (
          change_first
            (λ f. record f { n_subscribers = (f.n_subscribers + 2 ^ 64 - 1) % 2 ^ 64 })
            (b'b' ∷ [])
            two_cells))
        (decrement_subscribers 3 two_boxes (b'b' ∷ []) nodes)
counters-Changed_example =
    counters-Changed (b'b' ∷ []) 3 nodes two_boxes two_cells two_boxes-IsBoxList.chain
      two_boxes-IsBoxList.apart (omega arith)

list_add-IsBoxList_example :
    Ends
      (λ l m. IsBoxList m l (two_cells ++ (24, first_file) ∷ []))
      (list_add 24 first_file two_boxes nodes)
list_add-IsBoxList_example =
    list_add-IsBoxList 24 first_file two_boxes nodes two_cells two_boxes-IsBoxList
      (λ e. absurd (omega arith)) refl

list_remove-Removed_example :
    Ends (λ l m. Removed two_boxes 16 ((8, first_file) ∷ []) l m) (list_remove 8 16 two_boxes nodes)
list_remove-Removed_example =
    list_remove-Removed nodes two_boxes 16 second_file ((8, first_file) ∷ []) [] two_boxes-IsBoxList

list_sort-IsSorted_example : Ends (λ l m. SortedFrom two_cells l m) (list_sort 20 two_boxes nodes)
list_sort-IsSorted_example =
    list_sort-IsSorted 20 two_boxes nodes two_cells two_boxes-IsBoxList (omega arith)
