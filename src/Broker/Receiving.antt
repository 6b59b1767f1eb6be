-- ===== src/Broker/Receiving.antt =====
-- The loop over the messages of a publisher.
use projeto_so.Base.{
  ℕ, zero, suc, ◌+◌, ◌≤◌, ◌<◌, ◌^◌, ◌≡◌, ◌≢◌, refl, ap, ◌∙◌, sym, true, some, List, [], ◌∷◌, ◌++◌,
  arith, length, length-append, ℤ, pos, add_size, if◌then◌else◌,
}
use mathlib.Core.List.{append-nil}
use mathlib.Core.Path.{subst}
use projeto_so.Memory.Bytes.{Bytes}
use projeto_so.Process.{
  Ends, Ends-map, Ends-then, ok, Calls, Os, broadcasts, allocates, reads, opens, closes, unlinks,
  makes_fifo, writes, prints, accesses, pure,
}
use projeto_so.Protocol.{c_string}
use projeto_so.Protocol.At
use projeto_so.Fs.Validity.{IsValid}
use projeto_so.Fs.Locking.{IsReliable}
use projeto_so.Fs.Allocation.{IsFirstFree}
use projeto_so.Fs.Contents.{contents, LeadsTo}
use projeto_so.Fs.Types.{State}
use projeto_so.Fs.Contents.Appends.{Appended, HasRoom}
use projeto_so.Fs.Contents.Chaining.{
  Appended-trans, Appended-LeadsTo, Appended-IsFirstFree, Appended-HasRoom,
}
use projeto_so.BoxList.{Ptr, null, ListNode}
use projeto_so.BoxList.Chains.{put-same, put-other}
use projeto_so.Broker.{World, Env}
use projeto_so.Broker.Sessions.{store_message, receive_messages, try_read}
use projeto_so.Broker.Storing.{Stored, encoded, grown_node, length-encoded, store_message-Stored}

-- How many reads there were.
abbrev pub count_reads : Calls → ℕ
count_reads [] = 0
count_reads (reads fd ∷ c) = suc (count_reads c)
count_reads (opens name mode ∷ c) = count_reads c
count_reads (closes fd ∷ c) = count_reads c
count_reads (unlinks name ∷ c) = count_reads c
count_reads (makes_fifo name ∷ c) = count_reads c
count_reads (writes fd packet ∷ c) = count_reads c
count_reads (allocates n ∷ c) = count_reads c
count_reads (broadcasts node ∷ c) = count_reads c
count_reads (prints text ∷ c) = count_reads c
count_reads (accesses name ∷ c) = count_reads c

-- From the `k`-th read on, those from the pipe give the packets in order, then the end of the file.
abbrev pub Feeds : Os → ℤ → ℕ → List Bytes → Type 0
Feeds os pipe k [] = (c : Calls) (b : Bytes) → count_reads c ≡ k → (os.read c pipe b).0 ≡ pos 0
Feeds os pipe k (p ∷ ps) =
    ((c : Calls) (b : Bytes) → count_reads c ≡ k → os.read c pipe b ≡ (pos 1_033, p))
    × Feeds os pipe (suc k) ps

-- The packets hold the messages.
abbrev pub Holds : List Bytes → List (List ℕ) → Type 0
Holds [] [] = Unit {0}
Holds [] (m ∷ ms) = ⊥
Holds (p ∷ ps) [] = ⊥
Holds (p ∷ ps) (m ∷ ms) = (c_string p At.message 1_024 ≡ some m) × (length m < 1_024) × Holds ps ms

-- The messages as they are stored, one behind the other.
abbrev pub encoded_all : List (List ℕ) → List ℕ
encoded_all [] = []
encoded_all (m ∷ ms) = encoded m ++ encoded_all ms

-- The calls of the loop.
abbrev pub received : List ℕ → Ptr → ℤ → List (List ℕ) → Calls → Calls
received name node pipe [] c = reads pipe ∷ c
received name node pipe (m ∷ ms) c =
    received name node pipe ms (broadcasts node ∷ allocates (length name + 2) ∷ reads pipe ∷ c)

try_read-done :
    (os : Os) (k : ℕ) (pipe : ℤ) (b p : Bytes) (n : ℕ) (c : Calls)
    → 0 < k
    → os.read c pipe b ≡ (pos n, p)
    → try_read os k pipe b c ≡ ok (pos n, p) (reads pipe ∷ c)
unfolding try_read
try_read-done os zero pipe b p n c lt e = absurd (omega arith)
try_read-done os (suc k) pipe b p n c lt e = rw e refl

-- What the loop leaves of the server.
pub record Received (w : World) (name : List ℕ) (i : ℕ) (node : Ptr) (n : ListNode) (pipe : ℤ)
    (ms : List (List ℕ)) (w' : World) : Type 0 where
  pub files : Appended w.fs i (encoded_all ms) w'.fs
  pub list : w'.list ≡ w.list
  pub counted : w'.nodes node ≡ some (grown_node n (length (encoded_all ms)))
  pub others : (x : Ptr) → node ≢ x → w'.nodes x ≡ w.nodes x
  pub calls_are : w'.calls ≡ received name node pipe ms w.calls

nothing_appended : (s : State) (i : ℕ) → IsValid s → Appended s i [] s
nothing_appended s i v = record {
  valid = v;
  file = sym (append-nil (contents s i));
  kept = record {
    others = λ j ne u. refl;
    used = λ j u. u;
    names = record { entries = λ name. refl; inumbers = λ k lt. refl; as_many = refl };
  };
  handles = λ g. refl;
  sizes = refl;
}

grown_none : (n : ListNode) → n.file.box_size < 2 ^ 64 → grown_node n 0 ≡ n
grown_none n lt = ap (λ x. record n { file = record n.file { box_size = x } }) same
  where
    same : add_size n.file.box_size 0 ≡ n.file.box_size
    same = omega arith

grown_twice : (n : ListNode) (a b : ℕ) → grown_node (grown_node n a) b ≡ grown_node n (a + b)
grown_twice n a b = ap (λ x. record n { file = record n.file { box_size = x } }) same
  where
    same : add_size (add_size n.file.box_size a) b ≡ add_size n.file.box_size (a + b)
    same = omega arith

module _ {w w1 : World} {name : List ℕ} {i : ℕ} {node : Ptr} {n : ListNode} {pipe : ℤ} (m : List ℕ)
    (ms : List (List ℕ))
    (first : Stored (record w { calls = reads pipe ∷ w.calls }) name i node n m w1) where
  Received-cons :
      (w' : World)
      → Received w1 name i node (grown_node n (length m + 1)) pipe ms w'
      → Received w name i node n pipe (m ∷ ms) w'
  Received-cons w' rest = record {
    files =
        Appended-trans i (encoded m) (encoded_all ms)
          (record {
            valid = first.files.valid;
            file = first.files.file;
            kept = first.files.kept;
            handles = first.files.handles;
            sizes = first.files.sizes;
          })
          rest.files;
    list = rest.list ∙ first.list;
    counted =
        rest.counted
        ∙ ap some (grown_twice n (length m + 1) (length (encoded_all ms)) ∙ ap (grown_node n) sum);
    others = λ x ne. rest.others x ne ∙ ap (λ q. q x) first.counted ∙ put-other w.nodes node x _ ne;
    calls_are = rest.calls_are ∙ ap (received name node pipe ms) first.calls_are;
  }
    where
      sum : length m + 1 + length (encoded_all ms) ≡ length (encoded m ++ encoded_all ms)
      sum = omega (arith, length-encoded m, length-append {0} (encoded m) (encoded_all ms))

HasRoom-less : (s : State) (i a b : ℕ) → a ≤ b → HasRoom s i b → HasRoom s i a
HasRoom-less s i a b le room = record { fits = omega (arith, room.fits); block = room.block }

le_all : (m : List ℕ) (ms : List (List ℕ)) → length m + 1 ≤ length (encoded_all (m ∷ ms))
le_all m ms = omega (arith, length-encoded m, length-append {0} (encoded m) (encoded_all ms))

room_split :
    (s : State) (i : ℕ) (m : List ℕ) (ms : List (List ℕ))
    → HasRoom s i (length (encoded_all (m ∷ ms)))
    → HasRoom s i (length (encoded m) + length (encoded_all ms))
room_split s i m ms room =
    HasRoom-less s i _ _ (omega (arith, length-append {0} (encoded m) (encoded_all ms))) room

module _ (e : Env) (name : List ℕ) (node : Ptr) (pipe : ℤ) (i h : ℕ)
    (reliable : IsReliable e.pthread) (memory : (c : Calls) (k : ℕ) → e.os.malloc c k ≡ true)
    (some_name : 0 < length name) (ne : node ≢ null) (fuel : 0 < e.fuel) where
  -- If a box's name leads to its file, a handle is free, the packets that the pipe gives before
  -- its end hold messages of less than 1024 bytes, and the file has room for them all with their
  -- NULs, then with fuel for each of them the loop ends, and the file has the messages appended,
  -- in their order, each with its NUL. No other file and no name changes, the handle is free
  -- again, the box's node counts the bytes modulo 2 ^ 64, the other nodes and the list are as they
  -- were. For each message the loop reads once and then wakes the subscribers; the last call is
  -- the read that finds the end.
  pub receive_messages-Received :
      (k : ℕ) (packet : Bytes) (n : ListNode) (w : World) (ps : List Bytes) (ms : List (List ℕ))
      → IsValid w.fs
      → LeadsTo w.fs name i
      → IsFirstFree w.fs.free_open_file_entries w.fs.max_open_files_count h
      → HasRoom w.fs i (length (encoded_all ms))
      → Feeds e.os pipe (count_reads w.calls) ps
      → Holds ps ms
      → w.nodes node ≡ some n
      → n.file.box_size < 2 ^ 64
      → length ms < k
      → Ends
          (λ _ w'. Received w name i node n pipe ms w')
          (receive_messages e k name node pipe packet w)
  unfolding receive_messages
  receive_messages-Received zero packet n w ps ms v leads first room feeds holds here small le =
      absurd (omega arith)
  receive_messages-Received (suc k) packet n w [] [] v leads first room feeds holds here small le =
      rw
        (try_read-done e.os e.fuel pipe packet (e.os.read w.calls pipe packet).1 0 w.calls fuel
          (λ j. (feeds w.calls packet refl j, (e.os.read w.calls pipe packet).1)))
        (record {
          files = nothing_appended w.fs i v;
          list = refl;
          counted = here ∙ ap some (sym (grown_none n small));
          others = λ x ne. refl;
          calls_are = refl;
        })
  receive_messages-Received (suc k) packet n w [] (m ∷ ms) v leads first room feeds holds here small
        le =
      elim holds [ ]
  receive_messages-Received (suc k) packet n w (p ∷ ps) [] v leads first room feeds holds here small
        le =
      elim holds [ ]
  receive_messages-Received (suc k) packet n w (p ∷ ps) (m ∷ ms) v leads first room (feed, feeds)
        (held, short, holds) here small le =
      let w0 : World = record w { calls = reads pipe ∷ w.calls } in
      rw
        (
          try_read-done e.os e.fuel pipe packet p 1_033 w.calls fuel (feed w.calls packet refl),
          held,
        )
        (Ends-then (λ goes_on w'. (goes_on ≡ true) × Stored w0 name i node n m w')
          (λ _ w'. Received w name i node n pipe (m ∷ ms) w') (store_message e name node m w0)
          (λ goes_on. if goes_on then receive_messages e k name node pipe p else pure tt)
          (store_message-Stored e name m node n w0 i h v reliable memory some_name leads first
            (HasRoom-less w.fs i (length m + 1) (length (encoded_all (m ∷ ms))) (le_all m ms) room)
            short ne here)
          λ goes_on w1 (goes, st).
            let files : Appended w.fs i (encoded m) w1.fs = st.files in
            rw goes (
              Ends-map _ _ (receive_messages e k name node pipe p w1)
                (receive_messages-Received k p (grown_node n (length m + 1)) w1 ps ms files.valid
                  (Appended-LeadsTo i (encoded m) files name v leads)
                  (Appended-IsFirstFree i (encoded m) files h first)
                  (Appended-HasRoom i (encoded m) files (length (encoded_all ms))
                    (omega (arith, length-encoded m)) (room_split w.fs i m ms room))
                  (subst (λ j. Feeds e.os pipe j ps) (sym (ap count_reads st.calls_are)) feeds)
                  holds (ap (λ q. q node) st.counted ∙ put-same w.nodes node _) (omega arith)
                  (omega arith))
                λ _ w' rest. Received-cons m ms st w' rest))
