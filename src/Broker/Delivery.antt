-- ===== src/Broker/Delivery.antt =====
-- A publisher's session, and a subscriber's after it.
use projeto_so.Base.{
  ℕ, ◌+◌, ◌<◌, ◌≡◌, ap, ◌∙◌, sym, true, false, Option, some, List, ◌∷◌, ◌++◌, arith, length,
  length-append, ℤ, pos,
}
use mathlib.Core.Path.{subst}
use projeto_so.Memory.Bytes.{Bytes}
use projeto_so.Process.{
  Ends, Ends-map, Ends-then, ok, Calls, opens, closes, allocates, write_only, read_only,
  is_negative, ◌>>=◌,
}
use projeto_so.Pipes.{pipe_open}
use projeto_so.Protocol.{c_string, send_message}
use projeto_so.Protocol.At
use projeto_so.Fs.Locking.{IsReliable}
use projeto_so.Fs.Allocation.{IsFirstFree}
use projeto_so.Fs.Contents.{contents, LeadsTo}
use projeto_so.Fs.Contents.Appends.{HasRoom}
use projeto_so.Fs.Contents.Chaining.{Appended-LeadsTo, Appended-IsFirstFree}
use projeto_so.BoxList.{TfsFile, Ptr, same_name}
use projeto_so.BoxList.Chains.{Cells}
use projeto_so.BoxList.Finding.{NoneNamed}
use projeto_so.BoxList.Changing.{change_length}
use projeto_so.Broker.{World, Env}
use projeto_so.Broker.Adding.{IsServer}
use projeto_so.Broker.Sending.{Serves, sent}
use projeto_so.Broker.Sessions.{Subscription, handle_publisher, handle_subscriber}
use projeto_so.Broker.Receiving.{encoded_all, received, Feeds, Holds, count_reads}
use projeto_so.Broker.Stored.{Carries}
use projeto_so.Broker.Encoded.{AreMessages, encoded_all-append, append-AreMessages}
use projeto_so.Broker.Publishing.Session.{
  AllCounted, Published, counted, handle_publisher-Published,
}
use projeto_so.Broker.Subscribing.{Opens, Joined, handle_subscriber-Joined}

-- The subscriber joined and was sent the messages.
abbrev pub SentAll :
    List ℕ → List ℕ → ℕ → ℤ → List (List ℕ) → Calls → Option Subscription → World → Type 0
SentAll name pipe_name h pipe ms c r w' =
    (sub : Subscription) × (r ≡ some sub)
    × (sub.box ≡ pos h)
    × (sub.pipe ≡ pipe)
    × (ps : List Bytes) × (w'.calls
        ≡ sent pipe ps (opens pipe_name write_only ∷ allocates (length name + 2) ∷ c))
    × Carries send_message ps ms

-- On a well-formed server whose counters fit in 64 bits, take the first box of a name that is not
-- empty, without a publisher, whose name leads to its file. If the names of both requests end in
-- their fields, the publisher's pipe is opened and closing it does not fail, the subscriber's can
-- be opened at any time and writing and closing it do not fail, `malloc` has memory and the mutex
-- of the file system works, a handle is free, the file holds messages, each with its NUL, and has
-- room for those of the packets that the publisher's pipe gives, all these messages are texts, not
-- empty, and with their NULs less than 1024 bytes together, and with fuel for the boxes and the
-- messages: the publisher's session and then the subscriber's up to its first wait end. The
-- subscriber was sent the messages that the file held before and then those of the publisher, each
-- in one packet with SEND_MESSAGE, in their order, and nothing else; its session has the handle and
-- the pipe.
pub publisher_to_subscriber :
    (e : Env) (publish subscribe : Bytes) (w : World) (before : Cells) (a : Ptr) (f : TfsFile)
    (after : Cells) (name pub_pipe sub_pipe : List ℕ) (in_pipe out_pipe : ℤ) (opened : Calls)
    (ps : List Bytes) (old ms : List (List ℕ)) (i h : ℕ)
    → c_string publish At.client_pipe 256 ≡ some pub_pipe
    → c_string publish At.registered_box 32 ≡ some name
    → c_string subscribe At.client_pipe 256 ≡ some sub_pipe
    → c_string subscribe At.registered_box 32 ≡ some name
    → pipe_open e.os pub_pipe read_only w.calls ≡ ok in_pipe opened
    → ((c : Calls) → is_negative (e.os.close c in_pipe) ≡ false)
    → Opens e.os sub_pipe write_only out_pipe
    → Serves e.os out_pipe
    → ((c : Calls) (k : ℕ) → e.os.malloc c k ≡ true)
    → IsReliable e.pthread
    → IsServer w (before ++ (a, f) ∷ after)
    → AllCounted (before ++ (a, f) ∷ after)
    → length (before ++ (a, f) ∷ after) < e.fuel
    → NoneNamed name before
    → same_name f.box_name name ≡ true
    → f.n_publishers ≡ 0
    → 0 < length name
    → LeadsTo w.fs name i
    → IsFirstFree w.fs.free_open_file_entries w.fs.max_open_files_count h
    → HasRoom w.fs i (length (encoded_all ms))
    → contents w.fs i ≡ encoded_all old
    → Feeds e.os in_pipe (count_reads opened) ps
    → Holds ps ms
    → AreMessages old
    → AreMessages ms
    → length (encoded_all (old ++ ms)) < 1_024
    → length (old ++ ms) < e.fuel
    → Ends
        (SentAll name sub_pipe h out_pipe
          (old ++ ms)
          (closes in_pipe ∷ received name a in_pipe ms opened))
        ((handle_publisher e publish >>= λ _. handle_subscriber e subscribe) w)
publisher_to_subscriber e publish subscribe w before a f after name pub_pipe sub_pipe in_pipe
      out_pipe opened ps old ms i h pub_piped pub_named sub_piped sub_named open_run closing opening
      serves memory reliable server sizes le fresh named no_publisher some_name leads first room
      stored feeds holds old_texts texts small enough =
    Ends-then (λ _ w1. Published w name i before a f after in_pipe opened ms w1)
      (SentAll name sub_pipe h out_pipe (old ++ ms)
        (closes in_pipe ∷ received name a in_pipe ms opened))
      (handle_publisher e publish w) (λ _. handle_subscriber e subscribe)
      (handle_publisher-Published e name pub_pipe in_pipe opened ps ms i h w open_run closing memory
        reliable some_name leads first room feeds holds
        (omega (arith, enough, length-append {0} old ms)) before a f after fresh named server sizes
        le no_publisher publish pub_piped pub_named)
      λ _ w1 p.
        Ends-map
          (λ r w'.
            (sub : Subscription) × (r ≡ some sub)
            × Joined w1 name sub_pipe i h before a (counted f (length (encoded_all ms))) after
                out_pipe (old ++ ms) sub w')
          (SentAll name sub_pipe h out_pipe (old ++ ms)
            (closes in_pipe ∷ received name a in_pipe ms opened))
          (handle_subscriber e subscribe w1)
          (handle_subscriber-Joined e subscribe w1 name sub_pipe out_pipe (old ++ ms) i h sub_piped
            sub_named opening serves memory reliable some_name
            (Appended-LeadsTo i (encoded_all ms) p.files name server.files_valid leads)
            (Appended-IsFirstFree i (encoded_all ms) p.files h first)
            (p.files.file ∙ ap (λ c. c ++ encoded_all ms) stored ∙ sym (encoded_all-append old ms))
            (append-AreMessages old ms old_texts texts) small enough before a
            (counted f (length (encoded_all ms))) after fresh named
            (record { files_valid = p.files.valid; boxes = p.boxes })
            (omega
              (arith, le, change_length a f (counted f (length (encoded_all ms))) after before)))
          λ r w' (sub, some_sub, j). (
            sub,
            some_sub,
            j.box,
            j.pipe_is,
            j.packets.0,
            subst
                (λ c.
                  w'.calls
                  ≡ sent out_pipe j.packets.0
                      (opens sub_pipe write_only ∷ allocates (length name + 2) ∷ c))
                p.calls_are j.packets.1,
            j.packets.2,
          )
