-- ===== src/Manager/Shown.antt =====
-- The whole of `listBoxes` after the request: the boxes that a manager prints.
use projeto_so.Base.{
  ℕ, zero, suc, ◌+◌, ◌*◌, ◌≤◌, ◌<◌, ◌≡◌, refl, sym, ap, ◌∙◌, List, [], ◌∷◌, arith, length, ℤ, pos,
}
use mathlib.Core.Path.{subst}
use mathlib.Core.List.{Perm}
use projeto_so.Memory.Bytes.{Bytes}
use projeto_so.Process.{Ends, Ends-then, pure, and_then}
use projeto_so.Protocol.At
use projeto_so.BoxList.{TfsFile, BoxList, Nodes, Ptr, list_init, list_print, list_destroy}
use projeto_so.BoxList as Linked
use projeto_so.BoxList.Chains as Chains
use projeto_so.BoxList.Chains.{Cells, Fresh, files}
use projeto_so.BoxList.Adding.{IsBoxList}
use projeto_so.BoxList.Sorting.{list_sort}
use projeto_so.BoxList.Sorting.Order.{SortedFrom, list_sort-IsSorted}
use projeto_so.BoxList.Ending.{AllFree, lines_of, print_destroy}
use projeto_so.Broker.Sending.{Listing}
use projeto_so.Manager.{Desk, Setting, read_boxes, sort_and_show, show_boxes, from_nodes}
use projeto_so.Manager.Answers.{
  Delivers, HasRoom, AllNamed, Holds, SortedNames, IsSorted-files, Perm-files, Perm-length,
  read_boxes-Holds, Ends-in_list,
}

-- A line for each file, in the order of their names.
abbrev pub Shows : (ℕ → List ℕ) → List TfsFile → List (List ℕ) → Type 0
Shows decimal fs lines =
    (shown : List TfsFile) × (lines ≡ lines_of decimal shown) × SortedNames shown × Perm shown fs

empty_list : (m : Nodes) (l : BoxList) → l.size ≡ pos 0 → IsBoxList m (list_init l) []
unfolding list_init
empty_list m l e = record { chain = refl; apart = tt; tail_last = tt; count = e }

length-files : (cells : Cells) → length (files cells) ≡ length cells
length-files [] = refl
length-files (c ∷ cells) = ap suc (length-files cells)

destroyed_then :
    (P : Unit {0} → Nodes → Type 0) (Q : List (List ℕ) → Type 0) (shown : List (List ℕ)) (d : Desk)
    (r : Linked.Run (Unit {0}))
    → Chains.Ends P r
    → Q shown
    → Ends (λ a _. Q a) (and_then (from_nodes d r) λ _. pure shown)
destroyed_then P Q shown d (Linked.done a m) h q = q
destroyed_then P Q shown d Linked.fault h q = elim h [ ]
destroyed_then P Q shown d Linked.out_of_fuel h q = elim h [ ]

no_boxes-Holds :
    (s : Setting) (pipe : ℤ) (k : ℕ) (buffer : Bytes) (d : Desk) (p : Bytes)
    → IsBoxList d.nodes d.list []
    → ((b : Bytes) → s.os.read d.calls pipe b ≡ (pos 1_033, p))
    → p At.listed_box ≡ 0
    → 0 < k
    → Ends (λ _. Holds []) (read_boxes s k pipe buffer d)
unfolding read_boxes
no_boxes-Holds s pipe zero buffer d p w delivered no_name lt = absurd (omega arith)
no_boxes-Holds s pipe (suc k) buffer d p w delivered no_name lt =
    rw (delivered buffer, no_name) ([], w, refl)

sort_and_show-Shows :
    (s : Setting) (fs : List TfsFile) (d : Desk)
    → Holds fs d
    → length fs * length fs + 2 * length fs + 2 ≤ s.fuel
    → Ends (λ shown _. Shows s.decimal fs shown) (sort_and_show s d)
unfolding sort_and_show
sort_and_show-Shows s fs d (cells, w, e) fuel =
    Ends-in_list (SortedFrom cells) (λ shown _. Shows s.decimal fs shown) (list_sort s.fuel) _ d
      (list_sort-IsSorted s.fuel d.list d.nodes cells w
        (subst (λ n. n * n + 2 * n + 2 ≤ s.fuel) count fuel))
      λ l n (new, w', sorted, perm).
        let (printed, destroyed) =
          print_destroy s.decimal s.fuel n l new w'.chain w'.apart
            (omega (arith, Perm-length new cells perm, count)) in
        rw printed (
          destroyed_then (λ _ m'. AllFree m' new × ((x : Ptr) → Fresh x new → m' x ≡ n x))
            (Shows s.decimal fs) (lines_of s.decimal (files new)) (record d { list = l; nodes = n })
            (list_destroy s.fuel l n) destroyed
            (
              files new,
              refl,
              IsSorted-files new sorted,
              subst (Perm (files new)) e (Perm-files new cells perm),
            ))
  where
    count : length fs ≡ length cells
    count = ap length (sym e) ∙ length-files cells

-- The manager's part of `listBoxes`, if its reads from the pipe return the packets of an answer to
-- LIST_MAILBOXES one after the other, the boxes have names, `malloc` gives addresses that are not
-- in use, the list's size is 0 as that of a static variable, and with fuel for the sort: it ends,
-- and prints for each box of the answer one line with its name, its size and its numbers of
-- publishers and subscribers, no name coming after the next one.
pub show_boxes-Shows :
    (s : Setting) (pipe : ℤ) (d : Desk) (ps : List Bytes) (fs : List TfsFile)
    → Delivers s.os pipe ps d.calls
    → Listing ps fs
    → AllNamed fs
    → HasRoom s.malloc_node (length fs) d.nodes
    → d.list.size ≡ pos 0
    → length fs * length fs + 2 * length fs + 2 ≤ s.fuel
    → Ends (λ shown _. Shows s.decimal fs shown) (show_boxes s pipe d)
unfolding show_boxes
show_boxes-Shows s pipe d ps fs del listing named room size fuel =
    Ends-then (λ _. Holds fs) (λ shown _. Shows s.decimal fs shown)
      (read_boxes s s.fuel pipe s.stack (record d { list = list_init d.list })) _
      (reading ps fs del listing named room (omega arith))
      λ _ d' h. sort_and_show-Shows s fs d' h fuel
  where
    start : IsBoxList d.nodes (list_init d.list) []
    start = empty_list d.nodes d.list size

    reading :
        (ps : List Bytes) (fs : List TfsFile)
        → Delivers s.os pipe ps d.calls
        → Listing ps fs
        → AllNamed fs
        → HasRoom s.malloc_node (length fs) d.nodes
        → length fs < s.fuel
        → Ends
            (λ _. Holds fs)
            (read_boxes s s.fuel pipe s.stack (record d { list = list_init d.list }))
    reading ps [] del (p, e, no_name, last) named room le =
        no_boxes-Holds s pipe s.fuel s.stack (record d { list = list_init d.list }) p start
          (subst (λ ps. Delivers s.os pipe ps d.calls) e del).0 no_name (omega arith)
    reading [] (f ∷ fs) del listing named room le = elim listing [ ]
    reading (p ∷ ps) (f ∷ fs) del listing named room le =
        read_boxes-Holds s pipe s.fuel s.stack (record d { list = list_init d.list }) [] p ps f fs
          start del listing named room (omega arith)
