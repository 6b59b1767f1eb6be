-- ===== src/Broker/Publishing.antt =====
-- REGISTER_PUBLISHER on a well-formed server.
pub mod Session
use projeto_so.Base.{
  ℕ, ◌+◌, ◌-◌, ◌<◌, ◌^◌, ◌%◌, ◌≡◌, ◌≢◌, refl, ap, ◌∙◌, sym, inl, inr, true, false, Bool-cases,
  Option, some, List, [], ◌∷◌, ◌++◌, arith, length, ltb, ltb→lt, ℤ, add_size,
}
use mathlib.Core.Path.{subst}
use projeto_so.Memory.Bytes.{Bytes}
use projeto_so.Process.{
  Ends, Ends-map, Ends-then, ok, Calls, Os, closes, read_only, is_negative, ◌>>=◌, ◌>>◌,
}
use projeto_so.Pipes.{pipe_open, pipe_close}
use projeto_so.Protocol.{c_string}
use projeto_so.Protocol.At
use projeto_so.Fs.Locking.{IsReliable}
use projeto_so.Fs.Allocation.{IsFirstFree}
use projeto_so.Fs.Contents.{LeadsTo}
use projeto_so.Fs.Contents.Appends.{Appended, HasRoom}
use projeto_so.BoxList as Linked
use projeto_so.BoxList.{TfsFile, Ptr, null, Nodes, ListNode, BoxList, same_name, search_node}
use projeto_so.BoxList.Counters.{
  increment_publishers, decrement_publishers, more_publishers, fewer_publishers,
}
use projeto_so.BoxList.Chains as Chains
use projeto_so.BoxList.Chains.{Cells, Chain, Fresh, differ, load-done}
use projeto_so.BoxList.Lookup.{search_node_lem, change_first, Changed, counters-Changed}
use projeto_so.BoxList.Adding.{IsBoxList}
use projeto_so.BoxList.Finding.{
  NoneNamed, Place, here, absent, place, first_named-here, first_named-absent,
}
use projeto_so.BoxList.Changing.{node_at, change-IsBoxList, Changed-IsBoxList, change_length}
use projeto_so.Broker.{World, Env, in_nodes, in_calls}
use projeto_so.Broker.Adding.{IsServer}
use projeto_so.Broker.Sessions.{handle_publisher, receive_messages, turn_away}
use projeto_so.Broker.Receiving.{
  Received, Feeds, Holds, encoded_all, count_reads, received, receive_messages-Received,
}
use projeto_so.Broker.Counting.{close-done}
use projeto_so.Broker.Publishing.Session.{AllCounted, Published, handle_publisher-Published}

pub data PublisherOutcome (w : World) (cells : Cells) (name : List ℕ) (i : ℕ) (pipe : ℤ)
    (opened : Calls) (ms : List (List ℕ)) : World → Type 0 where
  no_box :
      NoneNamed name cells
      → PublisherOutcome w cells name i pipe opened ms (record w { calls = closes pipe ∷ opened })
  has_publisher :
      (before : Cells) (a : Ptr) (f : TfsFile) (after : Cells)
      → cells ≡ before ++ (a, f) ∷ after
      → NoneNamed name before
      → same_name f.box_name name ≡ true
      → 0 < f.n_publishers
      → PublisherOutcome w cells name i pipe opened ms (record w { calls = closes pipe ∷ opened })
  published :
      (before : Cells) (a : Ptr) (f : TfsFile) (after : Cells) {w' : World}
      → cells ≡ before ++ (a, f) ∷ after
      → NoneNamed name before
      → same_name f.box_name name ≡ true
      → f.n_publishers ≡ 0
      → Published w name i before a f after pipe opened ms w'
      → PublisherOutcome w cells name i pipe opened ms w'

module _ (e : Env) (name pipe_name : List ℕ) (pipe : ℤ) (opened : Calls) (ps : List Bytes)
    (ms : List (List ℕ)) (i h : ℕ) (w : World)
    (open_run : pipe_open e.os pipe_name read_only w.calls ≡ ok pipe opened)
    (closing : (c : Calls) → is_negative (e.os.close c pipe) ≡ false)
    (memory : (c : Calls) (k : ℕ) → e.os.malloc c k ≡ true) (reliable : IsReliable e.pthread)
    (some_name : 0 < length name) (leads : LeadsTo w.fs name i)
    (first : IsFirstFree w.fs.free_open_file_entries w.fs.max_open_files_count h)
    (room : HasRoom w.fs i (length (encoded_all ms)))
    (feeds : Feeds e.os pipe (count_reads opened) ps) (holds : Holds ps ms)
    (enough : length ms < e.fuel) where
  turned_away :
      turn_away e pipe_name read_only w ≡ ok tt (record w { calls = closes pipe ∷ opened })
  unfolding turn_away
  turned_away = rw (open_run, close-done e.os pipe opened (closing opened)) refl

  module _ (request : Bytes) (pipe_named : c_string request At.client_pipe 256 ≡ some pipe_name)
      (box_named : c_string request At.registered_box 32 ≡ some name) where
    handled :
        (cells : Cells)
        → Place name cells
        → IsServer w cells
        → AllCounted cells
        → length cells < e.fuel
        → Ends
            (λ _ w'. PublisherOutcome w cells name i pipe opened ms w')
            (handle_publisher e request w)
    unfolding handle_publisher
    handled cells (absent _ none_named) server sizes le =
        rw
          (
            box_named,
            pipe_named,
            search_node_lem name e.fuel w.nodes w.list cells server.boxes.chain le,
            first_named-absent name cells none_named,
            turned_away,
          )
          (no_box none_named)
    handled cells (here before a f after fresh named) server sizes le =
        let (n, ne, at) = node_at a f f after w.nodes w.list.head before server.boxes.chain in
        elim (Bool-cases (ltb 0 f.n_publishers)) [
          | inl taken ↦
              rw
                (
                  box_named,
                  pipe_named,
                  search_node_lem name e.fuel w.nodes w.list (before ++ (a, f) ∷ after)
                      server.boxes.chain le,
                  first_named-here name a f after named before fresh,
                  differ a null ne,
                  load-done w.nodes a ne at,
                  taken,
                  turned_away,
                )
                (has_publisher before a f after refl fresh named (ltb→lt 0 f.n_publishers taken))
          | inr idle ↦
              Ends-map (λ _ w'. Published w name i before a f after pipe opened ms w')
                (λ _ w'. PublisherOutcome w (before ++ (a, f) ∷ after) name i pipe opened ms w')
                (handle_publisher e request w)
                (handle_publisher-Published e name pipe_name pipe opened ps ms i h w open_run
                  closing memory reliable some_name leads first room feeds holds enough before a f
                  after fresh named server sizes le (ground arith) request pipe_named box_named)
                λ _ w' done_all. published before a f after refl fresh named (ground arith) done_all
        ]

-- REGISTER_PUBLISHER on a well-formed server whose counters fit in 64 bits, if the names of the
-- request end in their fields, its pipe is opened and closing it does not fail, `malloc` has memory
-- and the mutex of the file system works, the box's name is not empty and leads to its file, a
-- handle is free, the packets that the pipe gives hold messages of less than 1024 bytes and the
-- file has room for them all with their NULs, and with fuel for the boxes and the messages: the
-- handler ends. If no box has the name, or the first one that has it has a publisher, the pipe is
-- opened and closed and nothing else changes. Otherwise the box's file has the messages appended,
-- in their order, each with its NUL, no other file and no name has changed; the list has the same
-- boxes, the box's size has grown by these bytes modulo 2 ^ 64 and its publisher is gone again;
-- after each message that was read the subscribers were woken, and the pipe is closed last.
pub handle_publisher-PublisherOutcome :
    (e : Env) (request : Bytes) (w : World) (cells : Cells) (name pipe_name : List ℕ) (pipe : ℤ)
    (opened : Calls) (ps : List Bytes) (ms : List (List ℕ)) (i h : ℕ)
    → c_string request At.client_pipe 256 ≡ some pipe_name
    → c_string request At.registered_box 32 ≡ some name
    → pipe_open e.os pipe_name read_only w.calls ≡ ok pipe opened
    → ((c : Calls) → is_negative (e.os.close c pipe) ≡ false)
    → ((c : Calls) (k : ℕ) → e.os.malloc c k ≡ true)
    → IsReliable e.pthread
    → IsServer w cells
    → AllCounted cells
    → length cells < e.fuel
    → 0 < length name
    → LeadsTo w.fs name i
    → IsFirstFree w.fs.free_open_file_entries w.fs.max_open_files_count h
    → HasRoom w.fs i (length (encoded_all ms))
    → Feeds e.os pipe (count_reads opened) ps
    → Holds ps ms
    → length ms < e.fuel
    → Ends
        (λ _ w'. PublisherOutcome w cells name i pipe opened ms w')
        (handle_publisher e request w)
handle_publisher-PublisherOutcome e request w cells name pipe_name pipe opened ps ms i h pipe_named
      box_named open_run closing memory reliable server sizes le some_name leads first room feeds
      holds enough =
    handled e name pipe_name pipe opened ps ms i h w open_run closing memory reliable some_name
      leads first room feeds holds enough request pipe_named box_named cells (place name cells)
      server sizes le
