-- ===== src/Broker/Sessions.antt =====
-- The sessions of `session_worker`: a publisher's messages go to a box, a subscriber is sent them.
use projeto_so.Base.{
  ℕ, zero, suc, ◌+◌, ◌-◌, Bool, true, false, ◌&&◌, Option, none, some, List, [], ◌∷◌, ◌++◌, ◌==◌,
  if◌then◌else◌, ltb, not, length, ℤ, is_minus_one, is_zero, add_size,
}
use projeto_so.Memory.Bytes.{Bytes, memcpy, clear_bytes}
use projeto_so.Process.{
  M, pure, ◌>>=◌, ◌>>◌, out_of_fuel, or_fault, read_only, write_only, OpenMode, Calls, Os, reads,
  writes, is_negative, call,
}
use projeto_so.Pipes.{pipe_open, pipe_write, pipe_close, pipe_destroy}
use projeto_so.Protocol.{
  c_string, strcpy, write_byte, message_size, send_message, register_publisher, register_subscriber,
  create_mailbox, remove_mailbox, list_mailboxes,
}
use projeto_so.Protocol.At
use projeto_so.Fs.Operations.{tfs_open, tfs_write, tfs_read, tfs_close}
use projeto_so.BoxList as Linked
use projeto_so.BoxList.{TfsFile, Ptr, null, ListNode, BoxList, search_node}
use projeto_so.BoxList.Counters.{
  increment_publishers, decrement_publishers, increment_subscribers, decrement_subscribers,
}
use projeto_so.Broker.{
  World, Env, in_calls, in_fs, in_nodes, broadcast, pipe_name_of, box_name_of, format_box_name,
}
use projeto_so.Broker.Answers.{handle_create, handle_remove, handle_list}

-- `try_read`: the count that `read` returned, and the buffer.
unfoldable pub try_read : Os → ℕ → ℤ → Bytes → M Calls (ℤ × Bytes)
try_read os zero fd buffer = λ c. out_of_fuel
try_read os (suc k) fd buffer = do
  (n, buffer') ← call (reads fd) λ c. os.read c fd buffer
  interrupted ← λ c. pure (os.interrupted c) c
  if is_negative n && interrupted then try_read os k fd buffer' else pure (n, buffer')

-- `n <= 0`
abbrev pub is_positive : ℤ → Bool
is_positive n = not (is_negative n) && not (is_zero n)

-- `node->file.box_size += n`
unfoldable pub grow_box : Ptr → ℕ → Linked.M (Unit {0})
grow_box p n m = Linked.then_run (Linked.load p m) λ node.
    Linked.save p
      (record node { file = record node.file { box_size = add_size node.file.box_size n } })

-- A subscriber's session where it waits for the condition variable of its box.
pub record Subscription : Type 0 where
  pub name : List ℕ
  pub box : ℤ
  pub pipe : ℤ
  pub buffer : Bytes
  pub packet : Bytes

-- `memset` of the message, and `strcpy`.
unfoldable pub message_packet : Bytes → List ℕ → Option Bytes
message_packet packet text =
    strcpy (clear_bytes packet At.message message_size) At.message message_size text

module _ (e : Env) where
  -- A client that is not served: its pipe is opened and closed.
  unfoldable pub turn_away : List ℕ → OpenMode → M World (Unit {0})
  turn_away name mode = do
    pipe ← in_calls (pipe_open e.os name mode)
    in_calls (pipe_close e.os pipe)

  -- One message of a publisher, and whether the loop goes on.
  unfoldable pub store_message : List ℕ → Ptr → List ℕ → M World Bool
  store_message name node message = do
    path ← format_box_name e.os name
    box ← in_fs (tfs_open e.pthread path 4)
    if is_minus_one box then pure false else do
      written ← in_fs (tfs_write e.pthread box (message ++ 0 ∷ []) (length message + 1))
      if is_minus_one written then pure false else do
        in_nodes λ l. grow_box node (length message + 1)
        closed ← in_fs (tfs_close e.pthread box)
        if is_minus_one closed then pure false else do broadcast node; pure true

  unfoldable pub receive_messages : ℕ → List ℕ → Ptr → ℤ → Bytes → M World (Unit {0})
  receive_messages zero name node pipe packet = λ w. out_of_fuel
  receive_messages (suc k) name node pipe packet = do
    (n, packet') ← in_calls (try_read e.os e.fuel pipe packet)
    if not (is_positive n) then pure tt else do
      message ← or_fault (c_string packet' At.message message_size)
      goes_on ← store_message name node message
      if goes_on then receive_messages k name node pipe packet' else pure tt

  -- REGISTER_PUBLISHER
  unfoldable pub handle_publisher : Bytes → M World (Unit {0})
  handle_publisher request = do
    name ← box_name_of request
    pipe_name ← pipe_name_of request
    node ← in_nodes λ l. search_node e.fuel l name
    if node == null then turn_away pipe_name read_only else do
      n ← in_nodes λ l. Linked.load node
      if ltb 0 n.file.n_publishers then turn_away pipe_name read_only else do
        in_nodes λ l. increment_publishers e.fuel l name
        pipe ← in_calls (pipe_open e.os pipe_name read_only)
        receive_messages e.fuel name node pipe e.stack
        in_calls (pipe_close e.os pipe)
        in_nodes λ l. decrement_publishers e.fuel l name

  -- The messages that the buffer holds from address `a` on, up to an empty one; a message that does
  -- not end in the buffer is read outside it.
  unfoldable pub send_stored : ℕ → ℤ → Bytes → Bytes → ℕ → M World Bytes
  send_stored zero pipe packet buffer a = λ w. out_of_fuel
  send_stored (suc k) pipe packet buffer a = do
    text ← or_fault (c_string buffer a (message_size - a))
    if length text == 0 then pure packet else do
      packet' ← or_fault (message_packet packet text)
      in_calls (pipe_write e.os pipe packet')
      send_stored k pipe packet' buffer (a + (length text + 1))

  -- REGISTER_SUBSCRIBER up to the first wait, where there is a session.
  unfoldable pub handle_subscriber : Bytes → M World (Option Subscription)
  handle_subscriber request = do
    name ← box_name_of request
    pipe_name ← pipe_name_of request
    node ← in_nodes λ l. search_node e.fuel l name
    if node == null then (do turn_away pipe_name write_only; pure none) else do
      path ← format_box_name e.os name
      box ← in_fs (tfs_open e.pthread path 0)
      if is_minus_one box then (do turn_away pipe_name write_only; pure none) else do
        in_nodes λ l. increment_subscribers e.fuel l name
        pipe ← in_calls (pipe_open e.os pipe_name write_only)
        (_, bytes) ← in_fs (tfs_read e.pthread box message_size)
        let buffer = memcpy (λ _. 0) 0 bytes
        packet ← send_stored e.fuel pipe (write_byte e.stack At.opcode send_message) buffer 0
        pure (
            some (record { name = name; box = box; pipe = pipe; buffer = buffer; packet = packet }))

  -- What follows a wait: the session if its loop goes on.
  unfoldable pub serve_subscriber : Subscription → M World (Option Subscription)
  serve_subscriber sub = do
    (rc, bytes) ← in_fs (tfs_read e.pthread sub.box message_size)
    if is_minus_one rc then pure none else do
      let buffer = memcpy sub.buffer 0 bytes
      text ← or_fault (c_string buffer 0 message_size)
      packet ← or_fault (message_packet sub.packet text)
      written ← in_calls (call (writes sub.pipe packet) λ c. e.os.write c sub.pipe packet)
      if is_minus_one written
          then pure none
          else pure (some (record sub { buffer = buffer; packet = packet }))

  -- The end of a session; the pipe is closed whether the file could be or not.
  unfoldable pub leave_box : Subscription → M World (Unit {0})
  leave_box sub = do
    in_nodes λ l. decrement_subscribers e.fuel l sub.name
    _ ← in_fs (tfs_close e.pthread sub.box)
    in_calls (pipe_close e.os sub.pipe)

  unfoldable pub end_or_wait : Subscription → Option Subscription → M World (Option Subscription)
  end_or_wait sub none = do leave_box sub; pure none
  end_or_wait sub (some next) = pure (some next)

  -- A subscriber's session from one wake-up to the next wait, or to its end if the loop breaks.
  unfoldable pub wake_subscriber : Subscription → M World (Option Subscription)
  wake_subscriber sub = do next ← serve_subscriber sub; end_or_wait sub next

  -- The `switch` of `session_worker` on the operation code.
  unfoldable pub session_worker : Bytes → M World (Option Subscription)
  session_worker request =
      if opcode == register_publisher
      then (do handle_publisher request; pure none)
      else if opcode == register_subscriber
      then handle_subscriber request
      else if opcode == create_mailbox
      then (do handle_create e request; pure none)
      else if opcode == remove_mailbox
      then (do handle_remove e request; pure none)
      else if opcode == list_mailboxes
      then (do handle_list e request; pure none)
      else pure none
    where
      opcode : ℕ
      opcode = request At.opcode

-- `close_server`, up to `exit`.
unfoldable pub close_server : Env → ℤ → List ℕ → M World (Unit {0})
close_server e register_pipe register_name = do
  in_nodes (Linked.list_destroy e.fuel)
  in_calls (pipe_close e.os register_pipe)
  in_calls (pipe_destroy e.os register_name)
