-- ===== src/BoxList/Sorting.antt =====
-- `list_sort` of utils/list.c: a bubble sort that relinks the nodes.
pub mod Bubble
pub mod Addresses
pub mod Swap
pub mod Order
use projeto_so.Base.{ℕ, zero, suc, Bool, true, false, ◌==◌, if◌then◌else◌}
use projeto_so.BoxList.{
  BoxList, Ptr, null, M, pure, out_of_fuel, load, set_next, name_after, ◌>>=◌, ◌>>◌,
}

-- `list_sort`: the two nodes `node` and `next` change places.
unfoldable pub swap_nodes : (prev node next : Ptr) → BoxList → M BoxList
swap_nodes prev node next l = do
  n ← load next
  set_next node n.next
  set_next next node
  if prev == null then pure tt else set_next prev next
  pure (record {
    head = if prev == null then next else l.head;
    tail = if next == l.tail then node else l.tail;
    size = l.size;
  })

-- The inner loop: the list after it, and whether no two nodes changed places.
unfoldable pub sort_pass : ℕ → (prev node : Ptr) → Bool → BoxList → M (BoxList × Bool)
sort_pass zero prev node ended l = λ m. out_of_fuel
sort_pass (suc k) prev node ended l = if node == null then pure (l, ended) else do
  n ← load node
  if n.next == null then sort_pass k node n.next ended l else do
    next ← load n.next
    if name_after n.file.box_name next.file.box_name
        then (do l' ← swap_nodes prev node n.next l; sort_pass k node n.next false l')
        else sort_pass k node n.next ended l

unfoldable pub sort_rounds : ℕ → ℕ → BoxList → M BoxList
sort_rounds zero fuel l = λ m. out_of_fuel
sort_rounds (suc k) fuel l = do
  (l', ended) ← sort_pass fuel null l.head true l
  if ended then pure l' else sort_rounds k fuel l'

unfoldable pub list_sort : ℕ → BoxList → M BoxList
list_sort fuel l = sort_rounds fuel fuel l
