-- ===== src/Broker/Removing.antt =====
-- REMOVE_MAILBOX on a well-formed server.
use projeto_so.Base.{
  ℕ, ◌+◌, ◌<◌, ◌≡◌, refl, inl, inr, true, false, Bool-cases, some, List, ◌∷◌, ◌++◌, arith, length,
  if◌then◌else◌, ℤ, pos, is_minus_one,
}
use mathlib.Core.Path.{subst}
use projeto_so.Memory.Bytes.{Bytes}
use projeto_so.Process.{
  Ends, Ends-map, ok, and_then, Calls, writes, broadcasts, allocates, write_only, or_fault, ◌>>=◌,
}
use projeto_so.Pipes.{pipe_open, pipe_write}
use projeto_so.Protocol.{c_string, write_byte, create_mailbox_answer}
use projeto_so.Protocol.At
use projeto_so.Protocol.Fields.{write_byte-here}
use projeto_so.Fs.Types as Types
use projeto_so.Fs.Validity.{IsValid}
use projeto_so.Fs.Locking.{IsReliable, IsReliable-Works}
use projeto_so.Fs.Unlinking.{NamesCleared, IsShortText, NotOpen, tfs_unlink-IsValid}
use projeto_so.Fs.Operations.{tfs_unlink, skip_slash}
use projeto_so.BoxList.{TfsFile, Ptr, same_name}
use projeto_so.BoxList.Chains.{Cells}
use projeto_so.BoxList.Adding.{IsBoxList}
use projeto_so.BoxList.Finding.{NoneNamed}
use projeto_so.Broker.{World, Env, format_box_name, from_fs, in_calls}
use projeto_so.Broker.Answers.{
  ok_answer, error_answer, handle_remove, remove_box, failed_to_delete_box,
}
use projeto_so.Broker.Sending.{Serves, pipe_write-done}
use projeto_so.Broker.Replies.{Answers, Refuses, error_answer-Refuses, ok_answer-Answers}
use projeto_so.Broker.Adding.{IsServer}
use projeto_so.Broker.Taking.{Taken, remove_box-Taken}

-- What REMOVE_MAILBOX leaves of a server whose first box of the name stands in the node `a`.
pub data RemoveOutcome (e : Env) (w : World) (name : List ℕ) (a : Ptr) (left : Cells) (pipe : ℤ)
    (opened : Calls) : World → Type 0 where
  not_deleted :
      (p : Bytes) (s : Types.State) (rc : ℤ)
      → tfs_unlink e.pthread (some (b'/' ∷ name)) w.fs ≡ Types.ok rc s
      → is_minus_one rc ≡ true
      → IsValid s
      → Refuses p create_mailbox_answer failed_to_delete_box
      → RemoveOutcome e w name a left pipe opened
          (record w { fs = s; calls = writes pipe p ∷ allocates (length name + 2) ∷ opened })
  deleted :
      (p : Bytes) (s : Types.State) (rc : ℤ) {w' : World}
      → tfs_unlink e.pthread (some (b'/' ∷ name)) w.fs ≡ Types.ok rc s
      → is_minus_one rc ≡ false
      → IsValid s
      → Answers p create_mailbox_answer (pos 0)
      → Taken
          (record w { fs = s })
          pipe
          p
          a
          left
          (broadcasts a ∷ allocates (length name + 2) ∷ opened)
          w'
      → RemoveOutcome e w name a left pipe opened w'

module _ (e : Env) (w : World) (name : List ℕ) (pipe : ℤ) (opened : Calls)
    (serves : Serves e.os pipe) (before : Cells) (a : Ptr) (f : TfsFile) (after : Cells)
    (fresh : NoneNamed name before) (named : same_name f.box_name name ≡ true)
    (boxes : IsBoxList w.nodes w.list (before ++ (a, f) ∷ after))
    (le : length (before ++ (a, f) ∷ after) < e.fuel) where
  abbrev packet : Bytes
  packet = write_byte e.stack 0 4

  abbrev asked : World
  asked = record w { calls = allocates (length name + 2) ∷ opened }

  unlinked_file :
      (r : Types.Run ℤ)
      → tfs_unlink e.pthread (some (b'/' ∷ name)) w.fs ≡ r
      → Types.Ends (λ _ t. IsValid t) r
      → Ends
          (λ _. RemoveOutcome e w name a (before ++ after) pipe opened)
          (and_then (from_fs asked r) λ rc.
            if is_minus_one rc
            then (do
              answer ← or_fault (error_answer packet failed_to_delete_box)
              in_calls (pipe_write e.os pipe answer))
            else remove_box e pipe packet name)
  unlinked_file (Types.ok rc s) run valid = elim (Bool-cases (is_minus_one rc)) [
    | inl bad ↦
        let (p, answered, refuses) =
          error_answer-Refuses packet failed_to_delete_box refl (omega arith) in
        rw
          (bad, answered, pipe_write-done e.os pipe p (allocates (length name + 2) ∷ opened) serves)
          (not_deleted p s rc run bad valid
            (subst (λ v. Refuses p v failed_to_delete_box) (write_byte-here e.stack 0 4) refuses))
    | inr good ↦ rw good (
        Ends-map _ (λ _. RemoveOutcome e w name a (before ++ after) pipe opened)
          (remove_box e pipe packet name (record asked { fs = s }))
          (remove_box-Taken e pipe packet serves (record asked { fs = s }) a f after name named
            before fresh boxes le)
          λ _ w' t.
            deleted (ok_answer packet) s rc run good valid
              (subst (λ v. Answers (ok_answer packet) v (pos 0)) (write_byte-here e.stack 0 4)
                (ok_answer-Answers packet))
              (record { list = t.list; fs = t.fs; calls_are = t.calls_are }))
  ]
  unlinked_file Types.panic run valid = elim valid [ ]
  unlinked_file Types.fault run valid = elim valid [ ]

-- REMOVE_MAILBOX on a well-formed server, for a box that is in the list and whose file no handle
-- is open on, with a name of at most 31 bytes, a directory whose empty entries have an empty name,
-- and if the request's pipe is opened, writing and closing it do not fail, `malloc` has memory and
-- the mutex of the file system works: the handler ends and leaves a valid file system. If
-- `tfs_unlink` returns -1 the list stays, the answer is -1 with "Failed to delete box", and the
-- pipe is left open. Otherwise the subscribers that wait for the box are woken, the first box of
-- the name leaves the list, its node is freed, the other boxes stay in their order, the answer is
-- 0 and the pipe is closed. In both cases the answer has the operation code of
-- CREATE_MAILBOX_ANSWER.
pub handle_remove-RemoveOutcome :
    (e : Env) (request : Bytes) (w : World) (name pipe_name : List ℕ) (pipe : ℤ) (opened : Calls)
    (before : Cells) (a : Ptr) (f : TfsFile) (after : Cells)
    → c_string request At.client_pipe 256 ≡ some pipe_name
    → c_string request At.registered_box 32 ≡ some name
    → pipe_open e.os pipe_name write_only w.calls ≡ ok pipe opened
    → Serves e.os pipe
    → ((c : Calls) (n : ℕ) → e.os.malloc c n ≡ true)
    → IsReliable e.pthread
    → IsServer w (before ++ (a, f) ∷ after)
    → NoneNamed name before
    → same_name f.box_name name ≡ true
    → NamesCleared w.fs
    → IsShortText name
    → NotOpen w.fs (some (b'/' ∷ name))
    → length (before ++ (a, f) ∷ after) < e.fuel
    → Ends (λ _. RemoveOutcome e w name a (before ++ after) pipe opened) (handle_remove e request w)
unfolding handle_remove format_box_name skip_slash
handle_remove-RemoveOutcome e request w name pipe_name pipe opened before a f after pipe_named
      box_named open_run serves memory reliable server fresh named cleared text closed le =
    rw (pipe_named, open_run, box_named, memory opened (length name + 2))
      (unlinked_file e w name pipe opened serves before a f after fresh named server.boxes le
        (tfs_unlink e.pthread (some (b'/' ∷ name)) w.fs) refl
        (tfs_unlink-IsValid e.pthread (some (b'/' ∷ name)) server.files_valid
          (IsReliable-Works w.fs reliable) cleared text closed))
