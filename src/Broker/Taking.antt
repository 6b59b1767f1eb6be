-- ===== src/Broker/Taking.antt =====
-- REMOVE_MAILBOX after the file is deleted: the list of boxes.
use projeto_so.Base.{ℕ, ◌<◌, ◌≡◌, ◌≢◌, refl, ap, true, some, List, [], ◌∷◌, ◌++◌, arith, length, ℤ}
use projeto_so.Memory.Bytes.{Bytes}
use projeto_so.Process.{Ends, ok, and_then, Calls, writes, closes, broadcasts, ◌>>◌}
use projeto_so.Pipes.{pipe_write, pipe_close}
use projeto_so.BoxList as Linked
use projeto_so.BoxList.{
  TfsFile, Ptr, null, ListNode, Nodes, BoxList, search_node, search_prev_node, list_remove,
}
use projeto_so.BoxList.Chains as Chains
use projeto_so.BoxList.Chains.{Cells, Chain, differ, load-done}
use projeto_so.BoxList.Lookup.{search_node_lem, search_prev_node_lem}
use projeto_so.BoxList.Adding.{IsBoxList}
use projeto_so.BoxList.Removing.{Removed, last_address, list_remove-Removed}
use projeto_so.BoxList.Finding.{
  NoneNamed, first_named-here, first_named-absent, before_named-here, prev_named-absent, points_to,
}
use projeto_so.Broker.{World, Env, from_nodes, in_calls}
use projeto_so.Broker.Answers.{ok_answer, after_prev, remove_box}
use projeto_so.Broker.Sending.{Serves, pipe_write-done, pipe_close-done}
use projeto_so.BoxList.{same_name}

-- The box's node is gone from the list and the memory, the answer was written and the pipe closed.
pub record Taken (w : World) (pipe : ℤ) (answer : Bytes) (a : Ptr) (left : Cells) (calls : Calls)
    (w' : World) : Type 0 where
  pub list : Removed w.list a left w'.list w'.nodes
  pub fs : w'.fs ≡ w.fs
  pub calls_are : w'.calls ≡ closes pipe ∷ writes pipe answer ∷ calls

module _ (e : Env) (pipe : ℤ) (packet : Bytes) (serves : Serves e.os pipe) (w : World) (a : Ptr)
    (f : TfsFile) (after : Cells) where
  -- The end of the handler, from the call of `list_remove` on.
  take_out :
      (before : Cells) (calls : Calls)
      → IsBoxList w.nodes w.list (before ++ (a, f) ∷ after)
      → Ends
          (λ _. Taken w pipe (ok_answer packet) a (before ++ after) calls)
          (and_then
            (and_then
              (from_nodes
                (record w { calls = calls })
                (list_remove (last_address before) a w.list w.nodes))
              λ l w'. ok tt (record w' { list = l }))
            λ _. do
              in_calls (pipe_write e.os pipe (ok_answer packet))
              in_calls (pipe_close e.os pipe))
  take_out before calls boxes =
      go (list_remove (last_address before) a w.list w.nodes)
        (list_remove-Removed w.nodes w.list a f before after boxes)
    where
      go :
          (r : Linked.Run BoxList)
          → Chains.Ends (λ l m. Removed w.list a (before ++ after) l m) r
          → Ends
              (λ _. Taken w pipe (ok_answer packet) a (before ++ after) calls)
              (and_then
                (and_then
                  (from_nodes (record w { calls = calls }) r)
                  λ l w'. ok tt (record w' { list = l }))
                λ _. do
                  in_calls (pipe_write e.os pipe (ok_answer packet))
                  in_calls (pipe_close e.os pipe))
      go (Linked.done l m) h =
          rw
            (
              pipe_write-done e.os pipe (ok_answer packet) calls serves,
              pipe_close-done e.os pipe (writes pipe (ok_answer packet) ∷ calls) serves,
            )
            (record { list = h; fs = refl; calls_are = refl })
      go Linked.fault h = elim h [ ]
      go Linked.out_of_fuel h = elim h [ ]

  node_used : (before : Cells) → Chain w.nodes w.list.head (before ++ (a, f) ∷ after) → a ≢ null
  node_used before chain = used before w.list.head chain
    where
      used : (before : Cells) (p : Ptr) → Chain w.nodes p (before ++ (a, f) ∷ after) → a ≢ null
      used [] p (n, at, ne, holds, rest) = ne
      used ((b, g) ∷ before) p (n, at, ne, holds, rest) = used before n rest

  next_is_head : w.list.head ≡ a → after_prev e null w.list w.nodes ≡ Linked.done a w.nodes
  unfolding after_prev
  next_is_head h = ap (λ p. Linked.done p w.nodes) h

  next_is :
      (p : Ptr) (n : ListNode)
      → p ≢ null
      → w.nodes p ≡ some n
      → n.next ≡ a
      → after_prev e p w.list w.nodes ≡ Linked.done a w.nodes
  unfolding after_prev
  next_is p n ne holds h = rw (differ p null ne, load-done w.nodes p ne holds, h) refl

  module _ (name : List ℕ) (named : same_name f.box_name name ≡ true) where
    pub remove_box-Taken :
        (before : Cells)
        → NoneNamed name before
        → IsBoxList w.nodes w.list (before ++ (a, f) ∷ after)
        → length (before ++ (a, f) ∷ after) < e.fuel
        → Ends
            (λ _. Taken w pipe (ok_answer packet) a (before ++ after) (broadcasts a ∷ w.calls))
            (remove_box e pipe packet name w)
    unfolding remove_box
    remove_box-Taken [] fresh boxes le =
        rw
          (
            search_node_lem name e.fuel w.nodes w.list ((a, f) ∷ after) boxes.chain le,
            named,
            differ a null (node_used [] boxes.chain),
            search_prev_node_lem name e.fuel w.nodes w.list (a, f) after boxes.chain (omega arith),
            named,
            next_is_head boxes.chain.1,
          )
          (take_out [] (broadcasts a ∷ w.calls) boxes)
    remove_box-Taken (c ∷ before) fresh boxes le =
        let (n, ne, holds, next) = points_to w.nodes w.list.head c before a f after boxes.chain in
        rw
          (
            search_node_lem name e.fuel w.nodes w.list (c ∷ before ++ (a, f) ∷ after) boxes.chain
                le,
            first_named-here name a f after named (c ∷ before) fresh,
            differ a null (node_used (c ∷ before) boxes.chain),
            search_prev_node_lem name e.fuel w.nodes w.list c (before ++ (a, f) ∷ after) boxes.chain
                (omega arith),
            fresh.0,
            before_named-here name a f after named c before fresh.1,
            next_is (last_address (c ∷ before)) n ne holds next,
          )
          (take_out (c ∷ before) (broadcasts a ∷ w.calls) boxes)

-- After the file is deleted, if no box of the list has the name of the request, the handler of
-- REMOVE_MAILBOX takes the first box out of the list all the same, frees its node and answers 0.
-- (The list is well formed and not empty, and writing to the pipe and closing it do not fail.)
pub removes_other :
    (e : Env) (pipe : ℤ) (packet : Bytes) (w : World) (a : Ptr) (f : TfsFile) (after : Cells)
    (name : List ℕ)
    → Serves e.os pipe
    → NoneNamed name ((a, f) ∷ after)
    → IsBoxList w.nodes w.list ((a, f) ∷ after)
    → length ((a, f) ∷ after) < e.fuel
    → Ends (λ _. Taken w pipe (ok_answer packet) a after w.calls) (remove_box e pipe packet name w)
unfolding remove_box
removes_other e pipe packet w a f after name serves unnamed boxes le =
    rw
      (
        search_node_lem name e.fuel w.nodes w.list ((a, f) ∷ after) boxes.chain le,
        first_named-absent name ((a, f) ∷ after) unnamed,
        search_prev_node_lem name e.fuel w.nodes w.list (a, f) after boxes.chain (omega arith),
        prev_named-absent name (a, f) after unnamed,
        next_is_head e pipe packet serves w a f after boxes.chain.1,
      )
      (take_out e pipe packet serves w a f after [] w.calls boxes)
