-- ===== src/Broker/Leaving.antt =====
-- The end of a subscriber's session: its loop breaks where its client has gone.
use projeto_so.Base.{
  ℕ, ◌+◌, ◌-◌, ◌%◌, ◌≤◌, ◌<◌, ◌^◌, ◌≡◌, ◌≢◌, refl, ap, ◌∙◌, false, true, Option, some, none, List,
  ◌∷◌, ◌++◌, arith, length, pos, minus_one,
}
use projeto_so.Memory.Bytes.{Bytes}
use projeto_so.Memory.Ints.{IsText}
use projeto_so.Process.{Ends, Ends-then, pure, Calls, writes, closes, is_negative}
use projeto_so.Protocol.{c_string}
use projeto_so.Protocol.At
use projeto_so.Fs.Types as Types
use projeto_so.Fs.Types.{State, free}
use projeto_so.Fs.Validity.{IsValid, IsOpen, entry}
use projeto_so.Fs.Locking.{IsReliable, IsReliable-Works, with_calls-IsValid}
use projeto_so.Fs.Handles.{releasing-IsValid}
use projeto_so.Fs.Closing.{tfs_close_lem}
use projeto_so.Fs.Operations.{tfs_close}
use projeto_so.Fs.Reading.{target}
use projeto_so.Fs.Contents.{contents, SameNames}
use projeto_so.BoxList.{TfsFile, Ptr, same_name}
use projeto_so.BoxList.Counters.{decrement_subscribers, fewer_subscribers}
use projeto_so.BoxList.Chains.{Cells}
use projeto_so.BoxList.Lookup.{counters-Changed}
use projeto_so.BoxList.Adding.{IsBoxList}
use projeto_so.BoxList.Finding.{NoneNamed}
use projeto_so.Broker.{World, Env}
use projeto_so.Broker.Adding.{IsServer}
use projeto_so.Broker.Sessions.{Subscription, leave_box, end_or_wait, wake_subscriber}
use projeto_so.Broker.Storing.{encoded}
use projeto_so.Broker.Waking.{served_round}
use projeto_so.Broker.Counting.{counting, close-done}

-- The files and names are as they were, the box has one subscriber less (modulo 2 ^ 64) and the
-- list is otherwise the same, handle `h` is free and the others are as they were.
pub record Left (w : World) (h : ℕ) (before : Cells) (a : Ptr) (f : TfsFile) (after : Cells)
    (w' : World) : Type 0 where
  pub valid : IsValid w'.fs
  pub files : (j : ℕ) → contents w'.fs j ≡ contents w.fs j
  pub names : SameNames w.fs w'.fs
  pub freed : w'.fs.free_open_file_entries.cell h ≡ free
  pub handles :
      (g : ℕ) → h ≢ g → w'.fs.free_open_file_entries.cell g ≡ w.fs.free_open_file_entries.cell g
  pub sizes : w'.fs.params ≡ w.fs.params
  pub boxes :
      IsBoxList w'.nodes w'.list (
        before ++ (a, record f { n_subscribers = (f.n_subscribers + 2 ^ 64 - 1) % 2 ^ 64 }) ∷ after)

-- The session has ended: the message was given to `write` in one packet, and the pipe was closed.
pub record Departed (w : World) (sub : Subscription) (h : ℕ) (message : List ℕ) (before : Cells)
    (a : Ptr) (f : TfsFile) (after : Cells) (r : Option Subscription) (w' : World) : Type 0 where
  pub no_session : r ≡ none
  pub packet : Bytes
  pub text : c_string packet At.message 1_024 ≡ some message
  pub calls_are : w'.calls ≡ closes sub.pipe ∷ writes sub.pipe packet ∷ w.calls
  pub left : Left w h before a f after w'

-- The end of a session on a well-formed server.
leave_box-Left :
    (e : Env) (w : World) (sub : Subscription) (h : ℕ) (before : Cells) (a : Ptr) (f : TfsFile)
    (after : Cells)
    → sub.box ≡ pos h
    → IsReliable e.pthread
    → IsServer w (before ++ (a, f) ∷ after)
    → IsOpen w.fs h
    → NoneNamed sub.name before
    → same_name f.box_name sub.name ≡ true
    → length (before ++ (a, f) ∷ after) < e.fuel
    → is_negative (e.os.close w.calls sub.pipe) ≡ false
    → Ends
        (λ _ w'. Left w h before a f after w' × (w'.calls ≡ closes sub.pipe ∷ w.calls))
        (leave_box e sub w)
unfolding leave_box
leave_box-Left e w sub h before a f after box reliable server o fresh named le closing =
    let (m, run, boxes) =
      counting fewer_subscribers sub.name before a f after w.nodes w.list
        (decrement_subscribers e.fuel w.list sub.name w.nodes) fresh named server.boxes
        (counters-Changed sub.name e.fuel w.nodes w.list (before ++ (a, f) ∷ after)
          server.boxes.chain server.boxes.apart le).3 in
    rw
      (
        run,
        ap (λ b. tfs_close e.pthread b w.fs) box
            ∙ tfs_close_lem e.pthread h server.files_valid o (IsReliable-Works w.fs reliable),
        close-done e.os sub.pipe w.calls closing,
      )
      (
        record {
          valid = with_calls-IsValid (Types.unlocks ∷ Types.locks ∷ w.fs.mutex_calls) (
              releasing-IsValid h
                (with_calls-IsValid (Types.locks ∷ w.fs.mutex_calls) server.files_valid));
          files = λ j. refl;
          names = record { entries = λ name. refl; inumbers = λ k lt. refl; as_many = refl };
          freed = ground arith;
          handles = λ g ne. ground arith;
          sizes = refl;
          boxes = boxes;
        },
        refl,
      )

-- A subscriber that is woken on a well-formed server, if its box is in the list, its handle is
-- open, the file holds behind the handle's offset a message that is a text of less than 1024 bytes
-- with its NUL, all that is behind the offset fits the buffer, the mutex of the file system works
-- and there is fuel for the boxes, but `write` to its pipe returns -1 and `close` does not fail:
-- the message was given to `write` in one packet, the pipe is closed and the session ends. The
-- first box of the name has one subscriber less (modulo 2 ^ 64) and the list is otherwise as it
-- was, the session's handle is free, the other handles, all files and all names are as they were,
-- and the file system is valid.
pub subscriber_leaves :
    (e : Env) (w : World) (sub : Subscription) (h : ℕ) (seen message rest : List ℕ) (before : Cells)
    (a : Ptr) (f : TfsFile) (after : Cells)
    → sub.box ≡ pos h
    → IsReliable e.pthread
    → IsServer w (before ++ (a, f) ∷ after)
    → IsOpen w.fs h
    → contents w.fs (target w.fs h) ≡ seen ++ (encoded message ++ rest)
    → (entry w.fs h).of_offset ≡ length seen
    → IsText message
    → length message < 1_024
    → length (encoded message ++ rest) ≤ 1_024
    → NoneNamed sub.name before
    → same_name f.box_name sub.name ≡ true
    → length (before ++ (a, f) ∷ after) < e.fuel
    → ((c : Calls) (p : Bytes) → e.os.write c sub.pipe p ≡ minus_one)
    → ((c : Calls) → is_negative (e.os.close c sub.pipe) ≡ false)
    → Ends (Departed w sub h message before a f after) (wake_subscriber e sub w)
unfolding wake_subscriber end_or_wait
subscriber_leaves e w sub h seen message rest before a f after box reliable server o holds at text
      short room fresh named le gone closing =
    let (t, p, run, reads, same, at_end) =
      served_round e w sub h seen message rest box server.files_valid reliable o holds at text short
        room in
    let left =
      leave_box-Left e (record w { fs = t; calls = writes sub.pipe p ∷ w.calls }) sub h before a f
        after box reliable (record { files_valid = at_end.valid; boxes = server.boxes })
        at_end.is_open fresh named le (closing (writes sub.pipe p ∷ w.calls)) in
    rw (run, gone w.calls p)
      (Ends-then _ (Departed w sub h message before a f after)
        (leave_box e sub (record w { fs = t; calls = writes sub.pipe p ∷ w.calls }))
        (λ _. pure none) left
        λ _ w' (l, calls_are). record {
          no_session = refl;
          packet = p;
          text = reads;
          calls_are = calls_are;
          left = record {
            valid = l.valid;
            files = λ j. l.files j ∙ at_end.files j;
            names = record {
              entries = λ name. l.names.entries name ∙ at_end.names.entries name;
              inumbers = λ k lt.
                  l.names.inumbers k (omega (arith, lt, at_end.names.as_many))
                  ∙ at_end.names.inumbers k lt;
              as_many = l.names.as_many ∙ at_end.names.as_many;
            };
            freed = l.freed;
            handles = λ g ne. l.handles g ne ∙ at_end.handles g ne;
            sizes = l.sizes ∙ at_end.sizes;
            boxes = l.boxes;
          };
        })
