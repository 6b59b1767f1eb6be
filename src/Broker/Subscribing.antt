-- ===== src/Broker/Subscribing.antt =====
-- REGISTER_SUBSCRIBER on a well-formed server, up to the first wait.
use projeto_so.Base.{
  ℕ, ◌+◌, ◌<◌, ◌≡◌, refl, ap, sym, true, Option, some, none, List, ◌∷◌, ◌++◌, arith, length, ℤ, pos,
}
use mathlib.Core.Path.{subst}
use projeto_so.Memory.Bytes.{Bytes, memcpy}
use projeto_so.Process.{
  Ends, Ends-map, ok, Calls, Os, closes, opens, allocates, write_only, OpenMode,
}
use projeto_so.Pipes.{pipe_open}
use projeto_so.Protocol.{c_string, send_message, write_byte}
use projeto_so.Protocol.At
use projeto_so.Protocol.Fields.{write_byte-here}
use projeto_so.Fs.Validity.{inode}
use projeto_so.Fs.Locking.{IsReliable, IsReliable-Works}
use projeto_so.Fs.Allocation.{IsFirstFree}
use projeto_so.Fs.Contents.{contents, LeadsTo}
use projeto_so.Fs.Contents.Opens.{tfs_open-found}
use projeto_so.Fs.Contents.Chaining.{length-contents}
use projeto_so.Fs.Contents.Reads.{AtEnd, tfs_read-AtEnd}
use projeto_so.BoxList.{TfsFile, Ptr, null, same_name}
use projeto_so.BoxList.Counters.{increment_subscribers, more_subscribers}
use projeto_so.BoxList.Chains.{Cells, differ}
use projeto_so.BoxList.Lookup.{search_node_lem, counters-Changed}
use projeto_so.BoxList.Adding.{IsBoxList}
use projeto_so.BoxList.Finding.{
  NoneNamed, Place, here, absent, place, first_named-here, first_named-absent,
}
use projeto_so.BoxList.Changing.{node_at}
use projeto_so.Broker.{World, Env, format_box_name}
use projeto_so.Broker.Adding.{IsServer}
use projeto_so.Broker.Sending.{Serves, sent, pipe_close-done}
use projeto_so.Broker.Sessions.{Subscription, handle_subscriber, turn_away}
use projeto_so.Broker.Receiving.{encoded_all}
use projeto_so.Broker.Stored.{Carries, send_stored-Carries}
use projeto_so.Broker.Encoded.{AreMessages, buffer-Messages}
use projeto_so.Broker.Counting.{counting}

-- The pipe can be opened at any time.
abbrev pub Opens : Os → List ℕ → OpenMode → ℤ → Type 0
Opens os name mode pipe = (c : Calls) → pipe_open os name mode c ≡ ok pipe (opens name mode ∷ c)

-- What a subscriber's session has done when it first waits.
pub record Joined (w : World) (name pipe_name : List ℕ) (i h : ℕ) (before : Cells) (a : Ptr)
    (f : TfsFile) (after : Cells) (pipe : ℤ) (ms : List (List ℕ)) (sub : Subscription) (w' : World)
    : Type 0 where
  pub name_is : sub.name ≡ name
  pub box : sub.box ≡ pos h
  pub pipe_is : sub.pipe ≡ pipe
  pub files : AtEnd w.fs i h w'.fs
  pub boxes : IsBoxList w'.nodes w'.list (before ++ (a, more_subscribers f) ∷ after)
  pub packets :
      (ps : List Bytes) × (w'.calls
        ≡ sent pipe ps (opens pipe_name write_only ∷ allocates (length name + 2) ∷ w.calls))
      × Carries send_message ps ms

pub data SubscriberOutcome (w : World) (cells : Cells) (name pipe_name : List ℕ) (i h : ℕ)
    (pipe : ℤ) (ms : List (List ℕ)) : Option Subscription → World → Type 0 where
  no_box :
      NoneNamed name cells
      → SubscriberOutcome w cells name pipe_name i h pipe ms none
          (record w { calls = closes pipe ∷ opens pipe_name write_only ∷ w.calls })
  joined :
      (before : Cells) (a : Ptr) (f : TfsFile) (after : Cells) {sub : Subscription} {w' : World}
      → cells ≡ before ++ (a, f) ∷ after
      → NoneNamed name before
      → same_name f.box_name name ≡ true
      → Joined w name pipe_name i h before a f after pipe ms sub w'
      → SubscriberOutcome w cells name pipe_name i h pipe ms (some sub) w'

module _ (e : Env) (request : Bytes) (w : World) (name pipe_name : List ℕ) (pipe : ℤ)
    (ms : List (List ℕ)) (i h : ℕ)
    (pipe_named : c_string request At.client_pipe 256 ≡ some pipe_name)
    (box_named : c_string request At.registered_box 32 ≡ some name)
    (opening : Opens e.os pipe_name write_only pipe) (serves : Serves e.os pipe)
    (memory : (c : Calls) (k : ℕ) → e.os.malloc c k ≡ true) (reliable : IsReliable e.pthread)
    (some_name : 0 < length name) (leads : LeadsTo w.fs name i)
    (first : IsFirstFree w.fs.free_open_file_entries w.fs.max_open_files_count h)
    (stored : contents w.fs i ≡ encoded_all ms) (texts : AreMessages ms)
    (room : length (encoded_all ms) < 1_024) (enough : length ms < e.fuel) where
  turned_away :
      turn_away e pipe_name write_only w
      ≡ ok tt (record w { calls = closes pipe ∷ opens pipe_name write_only ∷ w.calls })
  unfolding turn_away
  turned_away =
      rw (opening w.calls, pipe_close-done e.os pipe (opens pipe_name write_only ∷ w.calls) serves)
        refl

  size_small : (inode w.fs i).i_size < 1_024
  size_small = omega (arith, length-contents w.fs i, ap (λ c. length c) stored, room)

  module _ (before : Cells) (a : Ptr) (f : TfsFile) (after : Cells) (fresh : NoneNamed name before)
      (named : same_name f.box_name name ≡ true) (server : IsServer w (before ++ (a, f) ∷ after))
      (le : length (before ++ (a, f) ∷ after) < e.fuel) where
    pub handle_subscriber-Joined :
        Ends
          (λ r w'.
            (sub : Subscription) × (r ≡ some sub)
            × Joined w name pipe_name i h before a f after pipe ms sub w')
          (handle_subscriber e request w)
    unfolding handle_subscriber format_box_name
    handle_subscriber-Joined =
        let (n, ne, at) = node_at a f f after w.nodes w.list.head before server.boxes.chain in
        let (m1, run1, boxes1) =
          counting more_subscribers name before a f after w.nodes w.list
            (increment_subscribers e.fuel w.list name w.nodes) fresh named server.boxes
            (counters-Changed name e.fuel w.nodes w.list (before ++ (a, f) ∷ after)
              server.boxes.chain server.boxes.apart le).2 in
        let (t, read, at_end) =
          tfs_read-AtEnd e.pthread name i h 1_024 server.files_valid reliable leads first
            (omega (arith, size_small)) in
        let called = opens pipe_name write_only ∷ allocates (length name + 2) ∷ w.calls in
        let (ps, last, run, carries) =
          send_stored-Carries e pipe e.fuel (write_byte e.stack At.opcode send_message)
            (memcpy (λ _. 0) 0 (encoded_all ms)) 0 ms
            (record w { fs = t; nodes = m1; calls = called }) serves (buffer-Messages ms texts room)
            enough in
        rw
          (
            box_named,
            pipe_named,
            search_node_lem name e.fuel w.nodes w.list (before ++ (a, f) ∷ after) server.boxes.chain
                le,
            first_named-here name a f after named before fresh,
            differ a null ne,
            memory w.calls (length name + 2),
            tfs_open-found e.pthread name i h 0 server.files_valid (IsReliable-Works w.fs reliable)
                some_name leads refl first,
            run1,
            opening (allocates (length name + 2) ∷ w.calls),
            read,
            stored,
            run,
          )
          (
            _,
            refl,
            record {
              name_is = refl;
              box = refl;
              pipe_is = refl;
              files = at_end;
              boxes = boxes1;
              packets =
                  (ps, refl, subst (λ v. Carries v ps ms) (write_byte-here e.stack 0 10) carries);
            },
          )

  handled :
      (cells : Cells)
      → Place name cells
      → IsServer w cells
      → length cells < e.fuel
      → Ends (SubscriberOutcome w cells name pipe_name i h pipe ms) (handle_subscriber e request w)
  unfolding handle_subscriber
  handled cells (absent _ none_named) server le =
      rw
        (
          box_named,
          pipe_named,
          search_node_lem name e.fuel w.nodes w.list cells server.boxes.chain le,
          first_named-absent name cells none_named,
          turned_away,
        )
        (no_box none_named)
  handled cells (here before a f after fresh named) server le =
      Ends-map
        (λ r w'.
          (sub : Subscription) × (r ≡ some sub)
          × Joined w name pipe_name i h before a f after pipe ms sub w')
        (SubscriberOutcome w (before ++ (a, f) ∷ after) name pipe_name i h pipe ms)
        (handle_subscriber e request w)
        (handle_subscriber-Joined before a f after fresh named server le)
        λ r w' (sub, some_sub, session).
          subst
            (λ q. SubscriberOutcome w (before ++ (a, f) ∷ after) name pipe_name i h pipe ms q w')
            (sym some_sub) (joined before a f after refl fresh named session)

-- REGISTER_SUBSCRIBER on a well-formed server, if the names of the request end in their fields, its
-- pipe can be opened, writing and closing it do not fail, `malloc` has memory and the mutex of the
-- file system works, the box's name is not empty and leads to its file, a handle is free, the file
-- holds messages that are texts and not empty, each with its NUL, of less than 1024 bytes together,
-- and with fuel for the boxes and the messages: up to its first wait the handler ends. If no box
-- has the name, the pipe is opened and closed, nothing else changes and there is no session.
-- Otherwise the session's handle is open on the box's file, at its end; no file and no name has
-- changed; the list has the same boxes, the box's counter of subscribers is one higher; and all
-- messages of the file were sent, each in one packet, in their order, and nothing else.
pub handle_subscriber-SubscriberOutcome :
    (e : Env) (request : Bytes) (w : World) (cells : Cells) (name pipe_name : List ℕ) (pipe : ℤ)
    (ms : List (List ℕ)) (i h : ℕ)
    → c_string request At.client_pipe 256 ≡ some pipe_name
    → c_string request At.registered_box 32 ≡ some name
    → Opens e.os pipe_name write_only pipe
    → Serves e.os pipe
    → ((c : Calls) (k : ℕ) → e.os.malloc c k ≡ true)
    → IsReliable e.pthread
    → IsServer w cells
    → length cells < e.fuel
    → 0 < length name
    → LeadsTo w.fs name i
    → IsFirstFree w.fs.free_open_file_entries w.fs.max_open_files_count h
    → contents w.fs i ≡ encoded_all ms
    → AreMessages ms
    → length (encoded_all ms) < 1_024
    → length ms < e.fuel
    → Ends (SubscriberOutcome w cells name pipe_name i h pipe ms) (handle_subscriber e request w)
handle_subscriber-SubscriberOutcome e request w cells name pipe_name pipe ms i h pipe_named
      box_named opening serves memory reliable server le some_name leads first stored texts room
      enough =
    handled e request w name pipe_name pipe ms i h pipe_named box_named opening serves memory
      reliable some_name leads first stored texts room enough cells (place name cells) server le
