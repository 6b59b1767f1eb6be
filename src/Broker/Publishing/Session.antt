-- ===== src/Broker/Publishing/Session.antt =====
-- A publisher's session on its box.
use projeto_so.Base.{
  ℕ, ◌+◌, ◌-◌, ◌<◌, ◌^◌, ◌%◌, ◌≡◌, ◌≢◌, ap, ◌∙◌, sym, true, false, Option, some, List, [], ◌∷◌,
  ◌++◌, arith, length, ltb, ℤ, add_size,
}
use mathlib.Core.Path.{subst}
use projeto_so.Memory.Bytes.{Bytes}
use projeto_so.Process.{Ends, Ends-then, ok, Calls, closes, read_only, is_negative, ◌>>=◌, ◌>>◌}
use projeto_so.Pipes.{pipe_open, pipe_close}
use projeto_so.Protocol.{c_string}
use projeto_so.Protocol.At
use projeto_so.Fs.Locking.{IsReliable}
use projeto_so.Fs.Allocation.{IsFirstFree}
use projeto_so.Fs.Contents.{LeadsTo}
use projeto_so.Fs.Contents.Appends.{Appended, HasRoom}
use projeto_so.BoxList.{TfsFile, Ptr, null, Nodes, ListNode, same_name}
use projeto_so.BoxList.Counters.{
  increment_publishers, decrement_publishers, more_publishers, fewer_publishers,
}
use projeto_so.BoxList.Chains.{Cells, differ, load-done}
use projeto_so.BoxList.Lookup.{search_node_lem, counters-Changed}
use projeto_so.BoxList.Adding.{IsBoxList}
use projeto_so.BoxList.Finding.{NoneNamed, first_named-here}
use projeto_so.BoxList.Changing.{node_at, change-IsBoxList, change_length}
use projeto_so.Broker.{World, Env, in_nodes, in_calls}
use projeto_so.Broker.Adding.{IsServer}
use projeto_so.Broker.Sessions.{handle_publisher, receive_messages}
use projeto_so.Broker.Receiving.{
  Received, Feeds, Holds, encoded_all, count_reads, received, receive_messages-Received,
}
use projeto_so.Broker.Counting.{counting, close-done}

-- `box_size` is a `uint64_t`.
abbrev pub AllCounted : Cells → Type 0
AllCounted [] = Unit {0}
AllCounted ((a, f) ∷ cells) = (f.box_size < 2 ^ 64) × AllCounted cells

abbrev pub counted : TfsFile → ℕ → TfsFile
counted f n = record f { box_size = add_size f.box_size n }

-- What a publisher's session leaves of the server.
pub record Published (w : World) (name : List ℕ) (i : ℕ) (before : Cells) (a : Ptr) (f : TfsFile)
    (after : Cells) (pipe : ℤ) (opened : Calls) (ms : List (List ℕ)) (w' : World) : Type 0 where
  pub files : Appended w.fs i (encoded_all ms) w'.fs
  pub boxes :
      IsBoxList w'.nodes w'.list (before ++ (a, counted f (length (encoded_all ms))) ∷ after)
  pub calls_are : w'.calls ≡ closes pipe ∷ received name a pipe ms opened

size_counted :
    (before : Cells) (a : Ptr) (f : TfsFile) (after : Cells)
    → AllCounted (before ++ (a, f) ∷ after)
    → f.box_size < 2 ^ 64
size_counted [] a f after sizes = sizes.0
size_counted (c ∷ before) a f after sizes = size_counted before a f after sizes.1

-- The counter of publishers goes up and down again.
up_and_down :
    (f : TfsFile) (n : ℕ)
    → f.n_publishers ≡ 0
    → fewer_publishers (counted (more_publishers f) n) ≡ counted f n
up_and_down f n zero_publishers =
    ap
      (λ k. record {
        box_name = f.box_name;
        n_publishers = k;
        n_subscribers = f.n_subscribers;
        box_size = add_size f.box_size n;
      })
      same
  where
    same : ((f.n_publishers + 1) % 2 ^ 64 + 2 ^ 64 - 1) % 2 ^ 64 ≡ f.n_publishers
    same = omega (arith, zero_publishers)

module _ (e : Env) (name pipe_name : List ℕ) (pipe : ℤ) (opened : Calls) (ps : List Bytes)
    (ms : List (List ℕ)) (i h : ℕ) (w : World)
    (open_run : pipe_open e.os pipe_name read_only w.calls ≡ ok pipe opened)
    (closing : (c : Calls) → is_negative (e.os.close c pipe) ≡ false)
    (memory : (c : Calls) (k : ℕ) → e.os.malloc c k ≡ true) (reliable : IsReliable e.pthread)
    (some_name : 0 < length name) (leads : LeadsTo w.fs name i)
    (first : IsFirstFree w.fs.free_open_file_entries w.fs.max_open_files_count h)
    (room : HasRoom w.fs i (length (encoded_all ms)))
    (feeds : Feeds e.os pipe (count_reads opened) ps) (holds : Holds ps ms)
    (enough : length ms < e.fuel) where
  module _ (before : Cells) (a : Ptr) (f : TfsFile) (after : Cells) (fresh : NoneNamed name before)
      (named : same_name f.box_name name ≡ true) (server : IsServer w (before ++ (a, f) ∷ after))
      (sizes : AllCounted (before ++ (a, f) ∷ after))
      (le : length (before ++ (a, f) ∷ after) < e.fuel) (no_publisher : f.n_publishers ≡ 0) where
    abbrev gained : ℕ
    gained = length (encoded_all ms)

    -- The list behind the loop: the box has grown.
    grown-IsBoxList :
        (m1 : Nodes) (n : Ptr) (w2 : World)
        → m1 a ≡ some (record { file = more_publishers f; next = n })
        → IsBoxList m1 w.list (before ++ (a, more_publishers f) ∷ after)
        → Received
            (record w { nodes = m1; calls = opened })
            name
            i
            a
            (record { file = more_publishers f; next = n })
            pipe
            ms
            w2
        → IsBoxList w2.nodes w2.list (before ++ (a, counted (more_publishers f) gained) ∷ after)
    grown-IsBoxList m1 n w2 at boxes1 r =
        subst
          (λ l. IsBoxList w2.nodes l (before ++ (a, counted (more_publishers f) gained) ∷ after))
          (sym r.list)
          (change-IsBoxList a (more_publishers f) (counted (more_publishers f) gained) after m1
            w2.nodes r.others
            (λ q e'.
              r.counted
              ∙ ap (λ x. some (record { file = counted (more_publishers f) gained; next = x }))
                  (next_same (sym at ∙ e')))
            w.list before boxes1)
      where
        next_same :
            {g : TfsFile} {x y : Ptr}
            → ◌≡◌ {A = Option ListNode}
                (some (record { file = g; next = x }))
                (some (record { file = g; next = y }))
            → x ≡ y
        next_same q = cc

    -- The end of the session, behind the loop.
    session_end :
        (m1 : Nodes) (n : Ptr) (w2 : World)
        → a ≢ null
        → m1 a ≡ some (record { file = more_publishers f; next = n })
        → IsBoxList m1 w.list (before ++ (a, more_publishers f) ∷ after)
        → Received
            (record w { nodes = m1; calls = opened })
            name
            i
            a
            (record { file = more_publishers f; next = n })
            pipe
            ms
            w2
        → Ends
            (λ _ w'. Published w name i before a f after pipe opened ms w')
            ((in_calls (pipe_close e.os pipe) >> in_nodes (λ l. decrement_publishers e.fuel l name))
              w2)
    session_end m1 n w2 ne at boxes1 r =
        let boxes2 = grown-IsBoxList m1 n w2 at boxes1 r in
        let (m3, run3, boxes3) =
          counting fewer_publishers name before a (counted (more_publishers f) gained) after
            w2.nodes w2.list (decrement_publishers e.fuel w2.list name w2.nodes) fresh named boxes2
            (counters-Changed name e.fuel w2.nodes w2.list
              (before ++ (a, counted (more_publishers f) gained) ∷ after) boxes2.chain boxes2.apart
              (omega (
                arith,
                le,
                change_length a f (counted (more_publishers f) gained) after before,
              ))).1 in
        rw (close-done e.os pipe w2.calls (closing w2.calls), run3)
          (record {
            files = r.files;
            boxes =
                subst (λ g. IsBoxList m3 w2.list (before ++ (a, g) ∷ after))
                  (up_and_down f gained no_publisher) boxes3;
            calls_are = ap (λ c. closes pipe ∷ c) r.calls_are;
          })

    -- The session, from the counting of the publisher on.
    session-Published :
        Ends
          (λ _ w'. Published w name i before a f after pipe opened ms w')
          ((in_nodes (λ l. increment_publishers e.fuel l name) >>= λ _. do
            pipe' ← in_calls (pipe_open e.os pipe_name read_only)
            receive_messages e e.fuel name a pipe' e.stack
            in_calls (pipe_close e.os pipe')
            in_nodes λ l. decrement_publishers e.fuel l name)
            w)
    session-Published =
        let (m1, run1, boxes1) =
          counting more_publishers name before a f after w.nodes w.list
            (increment_publishers e.fuel w.list name w.nodes) fresh named server.boxes
            (counters-Changed name e.fuel w.nodes w.list (before ++ (a, f) ∷ after)
              server.boxes.chain server.boxes.apart le).0 in
        let (n, ne, at) =
          node_at a (more_publishers f) f after m1 w.list.head before boxes1.chain in
        rw (run1, open_run)
          (Ends-then
            (λ _ w2.
              Received (record w { nodes = m1; calls = opened }) name i a
                (record { file = more_publishers f; next = n }) pipe ms w2)
            _ _ _
            (receive_messages-Received e name a pipe i h reliable memory some_name ne (omega arith)
              e.fuel e.stack (record { file = more_publishers f; next = n })
              (record w { nodes = m1; calls = opened }) ps ms server.files_valid leads first room
              feeds holds at (size_counted before a f after sizes) enough)
            λ _ w2 r. session_end m1 n w2 ne at boxes1 r)

    module _ (request : Bytes) (pipe_named : c_string request At.client_pipe 256 ≡ some pipe_name)
        (box_named : c_string request At.registered_box 32 ≡ some name) where
      pub handle_publisher-Published :
          Ends
            (λ _ w'. Published w name i before a f after pipe opened ms w')
            (handle_publisher e request w)
      unfolding handle_publisher
      handle_publisher-Published =
          let (n, ne, at) = node_at a f f after w.nodes w.list.head before server.boxes.chain in
          rw
            (
              box_named,
              pipe_named,
              search_node_lem name e.fuel w.nodes w.list (before ++ (a, f) ∷ after)
                  server.boxes.chain le,
              first_named-here name a f after named before fresh,
              differ a null ne,
              load-done w.nodes a ne at,
              ap (ltb 0) no_publisher,
            )
            session-Published
