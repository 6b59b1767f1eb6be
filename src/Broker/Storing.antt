-- ===== src/Broker/Storing.antt =====
-- A publisher's messages: what reaches the file of the box.
use projeto_so.Base.{
  ℕ, ◌+◌, ◌<◌, ◌≡◌, ◌≢◌, refl, ap, sym, true, some, List, [], ◌∷◌, ◌++◌, arith, length, add_size,
}
use projeto_so.Process.{Ends, Calls, broadcasts, allocates}
use projeto_so.Fs.Validity.{IsValid}
use projeto_so.Fs.Locking.{IsReliable, IsReliable-Works}
use projeto_so.Fs.Allocation.{IsFirstFree}
use projeto_so.Fs.Closing.{tfs_close_lem}
use projeto_so.Fs.Contents.{LeadsTo}
use projeto_so.Fs.Contents.Appends.{Appended, HasRoom, tfs_write-Appended}
use projeto_so.Fs.Contents.Opens.{tfs_open-found}
use projeto_so.BoxList.{Ptr, null, Nodes, ListNode, put}
use projeto_so.BoxList as Linked
use projeto_so.BoxList.Chains.{load-done, save-done}
use projeto_so.Broker.{World, Env, format_box_name}
use projeto_so.Broker.Sessions.{store_message, grow_box}

-- The message as it is stored: its bytes and a NUL.
abbrev pub encoded : List ℕ → List ℕ
encoded message = message ++ 0 ∷ []

-- The node's file with `n` more bytes counted.
abbrev pub grown_node : ListNode → ℕ → ListNode
grown_node node n = record node {
  file = record node.file { box_size = add_size node.file.box_size n };
}

pub grow_box-done :
    (m : Nodes) (p : Ptr) (n : ℕ) {node : ListNode}
    → p ≢ null
    → m p ≡ some node
    → grow_box p n m ≡ Linked.done tt (put m p (some (grown_node node n)))
unfolding grow_box
grow_box-done m p n {node} ne e = rw (load-done m p ne e) (save-done m p (grown_node node n) ne e)

-- What a stored message leaves of the server.
pub record Stored (w : World) (name : List ℕ) (i : ℕ) (node : Ptr) (n : ListNode) (message : List ℕ)
    (w' : World) : Type 0 where
  pub files : Appended w.fs i (encoded message) w'.fs
  pub list : w'.list ≡ w.list
  pub counted : w'.nodes ≡ put w.nodes node (some (grown_node n (length message + 1)))
  pub calls_are : w'.calls ≡ broadcasts node ∷ allocates (length name + 2) ∷ w.calls

pub length-encoded : (message : List ℕ) → length (encoded message) ≡ length message + 1
length-encoded [] = refl
length-encoded (x ∷ message) = omega (arith, length-encoded message)

-- One message of a publisher: if the box's name leads to its file, a handle is free, and the file
-- has room for the message and its NUL, both are appended to the file, no other file and no name
-- changes, the handle is free again, the box's node counts the bytes, and the waiting subscribers
-- are woken after that.
pub store_message-Stored :
    (e : Env) (name message : List ℕ) (node : Ptr) (n : ListNode) (w : World) (i h : ℕ)
    → IsValid w.fs
    → IsReliable e.pthread
    → ((c : Calls) (k : ℕ) → e.os.malloc c k ≡ true)
    → 0 < length name
    → LeadsTo w.fs name i
    → IsFirstFree w.fs.free_open_file_entries w.fs.max_open_files_count h
    → HasRoom w.fs i (length message + 1)
    → length message < 1_024
    → node ≢ null
    → w.nodes node ≡ some n
    → Ends
        (λ goes_on w'. (goes_on ≡ true) × Stored w name i node n message w')
        (store_message e name node message w)
unfolding store_message format_box_name
store_message-Stored e name message node n w i h v reliable memory some_name leads first room short
      ne here =
    let (t, run, open_handle, valid, appended) =
      tfs_write-Appended e.pthread name i h (encoded message) v reliable leads first
        (record { fits = omega (arith, room.fits, length-encoded message); block = room.block })
        (omega (arith, length-encoded message)) in
    rw
      (
        memory w.calls (length name + 2),
        tfs_open-found e.pthread name i h 4 v (IsReliable-Works w.fs reliable) some_name leads refl
            first,
        sym (length-encoded message),
        run,
        grow_box-done w.nodes node (length (encoded message)) ne here,
        tfs_close_lem e.pthread h valid open_handle (IsReliable-Works t reliable),
      )
      (
        refl,
        record {
          files = appended;
          list = refl;
          counted = ap (λ k. put w.nodes node (some (grown_node n k))) (length-encoded message);
          calls_are = refl;
        },
      )
