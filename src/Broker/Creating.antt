-- ===== src/Broker/Creating.antt =====
-- CREATE_MAILBOX on a well-formed server.
use projeto_so.Base.{
  ℕ, ◌+◌, ◌≡◌, ◌≢◌, true, false, some, none, List, [], ◌∷◌, ◌++◌, length, ℤ, pos, is_minus_one,
}
use projeto_so.Memory.Bytes.{Bytes}
use projeto_so.Process.{ok, Calls, writes, closes, allocates}
use projeto_so.Protocol.{write_byte, create_mailbox_answer}
use projeto_so.Protocol.At
use projeto_so.Fs.Types as Types
use projeto_so.Fs.Locking.{IsReliable}
use projeto_so.Fs.Operations.{tfs_open, tfs_close}
use projeto_so.BoxList.{null}
use projeto_so.BoxList.Chains.{Cells}
use projeto_so.BoxList.Lookup.{first_named}
use projeto_so.Broker.{World, Env}
use projeto_so.Broker.Answers.{new_box, box_already_exists, failed_to_create_box}
use projeto_so.Broker.Sending.{Serves}
use projeto_so.Broker.Replies.{Answers, Refuses}
use projeto_so.Broker.Adding.{IsServer}

-- What CREATE_MAILBOX leaves of the server: the answer is the last packet that it writes, and then
-- it closes the pipe.
pub data CreateOutcome (e : Env) (w : World) (cells : Cells) (name : List ℕ) (pipe : ℤ)
    (opened : Calls) : World → Type 0 where
  box_exists :
      (p : Bytes)
      → first_named name cells ≢ null
      → Refuses p create_mailbox_answer box_already_exists
      → CreateOutcome e w cells name pipe opened
          (record w { calls = closes pipe ∷ writes pipe p ∷ opened })
  not_created :
      (p : Bytes) (s : Types.State) (box : ℤ)
      → first_named name cells ≡ null
      → tfs_open e.pthread (some (b'/' ∷ name)) 1 w.fs ≡ Types.ok box s
      → is_minus_one box ≡ true
      → IsServer (record w { fs = s }) cells
      → Refuses p create_mailbox_answer failed_to_create_box
      → CreateOutcome e w cells name pipe opened (record w {
        fs = s;
        calls = closes pipe ∷ writes pipe p ∷ allocates (length name + 2) ∷ opened;
      })
  created :
      (p : Bytes) (s : Types.State) (box : ℤ) {w' : World}
      → first_named name cells ≡ null
      → tfs_open e.pthread (some (b'/' ∷ name)) 1 w.fs ≡ Types.ok box s
      → is_minus_one box ≡ false
      → (rc : ℤ) × (tfs_close e.pthread box s ≡ Types.ok rc w'.fs)
      → IsServer w' (cells ++ (e.malloc_node w.nodes, new_box name) ∷ [])
      → Answers p create_mailbox_answer (pos 0)
      → w'.calls ≡ closes pipe ∷ writes pipe p ∷ allocates (length name + 2) ∷ opened
      → CreateOutcome e w cells name pipe opened w'

module _ (e : Env) (w : World) (cells : Cells) (name : List ℕ) (pipe : ℤ) (opened : Calls)
    (serves : Serves e.os pipe) (server : IsServer w cells) (reliable : IsReliable e.pthread)
    (ne : e.malloc_node w.nodes ≢ null) (unused : w.nodes (e.malloc_node w.nodes) ≡ none) where
  abbrev packet : Bytes
  packet = write_byte e.stack 0 4

  abbrev asked : World
  asked = record w { calls = allocates (length name + 2) ∷ opened }
