-- ===== src/Broker/Adding.antt =====
-- The end of CREATE_MAILBOX that adds a box.
use projeto_so.Base.{ℕ, ◌≡◌, ◌≢◌, refl, none, List, [], ◌∷◌, ◌++◌, ℤ}
use projeto_so.Memory.Bytes.{Bytes}
use projeto_so.Process.{Ends, ok, and_then, ◌>>=◌, ◌>>◌, writes, closes}
use projeto_so.Pipes.{pipe_write, pipe_close}
use projeto_so.Fs.Types as Types
use projeto_so.Fs.Validity.{IsValid}
use projeto_so.Fs.Locking.{IsReliable}
use projeto_so.Fs.Operations.{tfs_close}
use projeto_so.BoxList.{TfsFile, Ptr, null, Nodes, BoxList, search_node, list_add}
use projeto_so.BoxList as Linked
use projeto_so.BoxList.Chains as Chains
use projeto_so.BoxList.Chains.{Cells}
use projeto_so.BoxList.Adding.{IsBoxList, list_add-IsBoxList}
use projeto_so.Broker.{World, Env, from_fs, from_nodes, in_calls, in_fs}
use projeto_so.Broker.Answers.{ok_answer, add_box, new_box}
use projeto_so.Broker.Sending.{Serves, pipe_write-done, pipe_close-done}
use projeto_so.Broker.Replies.{close-IsValid}

-- A server whose file system and list of boxes are well formed, with these boxes.
pub record IsServer (w : World) (cells : Cells) : Type 0 where
  pub files_valid : IsValid w.fs
  pub boxes : IsBoxList w.nodes w.list cells

module _ (e : Env) (pipe : ℤ) (serves : Serves e.os pipe) where
  -- The box is in the list, its file's handle has been given to `tfs_close`, whatever that
  -- returned.
  abbrev pub AddedBox : Cells → Bytes → ℤ → World → World → Type 0
  AddedBox cells p box w w' =
      IsServer w' cells
      × (w'.calls ≡ closes pipe ∷ writes pipe p ∷ w.calls)
      × (rc : ℤ) × (tfs_close e.pthread box w.fs ≡ Types.ok rc w'.fs)

  pub add_box-AddedBox :
      (packet : Bytes) (name : List ℕ) (box : ℤ) (w : World) (cells : Cells)
      → IsServer w cells
      → IsReliable e.pthread
      → e.malloc_node w.nodes ≢ null
      → w.nodes (e.malloc_node w.nodes) ≡ none
      → Ends
          (λ _.
            AddedBox (cells ++ (e.malloc_node w.nodes, new_box name) ∷ []) (ok_answer packet) box w)
          (add_box e pipe packet name box w)
  unfolding add_box
  add_box-AddedBox packet name box w cells server reliable ne unused =
      listed (list_add (e.malloc_node w.nodes) (new_box name) w.list w.nodes) (
        list_add-IsBoxList (e.malloc_node w.nodes) (new_box name) w.list w.nodes cells server.boxes
          ne unused)
    where
      more : Cells
      more = cells ++ (e.malloc_node w.nodes, new_box name) ∷ []

      answer : Bytes
      answer = ok_answer packet

      closed :
          (l : BoxList) (n : Nodes)
          → IsBoxList n l more
          → (r : Types.Run ℤ) → tfs_close e.pthread box w.fs ≡ r
          → Types.Ends (λ _ t. IsValid t) r
          → Ends
              (λ _. AddedBox more answer box w)
              (and_then
                (from_fs
                  (record { fs = w.fs; list = l; nodes = n; calls = writes pipe answer ∷ w.calls })
                  r)
                λ _. in_calls (pipe_close e.os pipe))
      closed l n h (Types.ok rc t) run valid =
          rw (pipe_close-done e.os pipe (writes pipe answer ∷ w.calls) serves)
            (record { files_valid = valid; boxes = h }, refl, rc, run)
      closed l n h Types.panic run valid = elim valid [ ]
      closed l n h Types.fault run valid = elim valid [ ]

      listed :
          (r : Linked.Run BoxList)
          → Chains.Ends (λ l n. IsBoxList n l more) r
          → Ends
              (λ _. AddedBox more answer box w)
              (and_then (and_then (from_nodes w r) λ l w'. ok tt (record w' { list = l })) λ _. do
                in_calls (pipe_write e.os pipe answer)
                _ ← in_fs (tfs_close e.pthread box)
                in_calls (pipe_close e.os pipe))
      listed (Linked.done l n) h = rw (pipe_write-done e.os pipe answer w.calls serves) (
          closed l n h (tfs_close e.pthread box w.fs) refl
            (close-IsValid e.pthread box server.files_valid reliable))
      listed Linked.fault h = elim h [ ]
      listed Linked.out_of_fuel h = elim h [ ]
