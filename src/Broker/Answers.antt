-- ===== src/Broker/Answers.antt =====
-- The requests of a manager: CREATE_MAILBOX, REMOVE_MAILBOX and LIST_MAILBOXES of `session_worker`.
use projeto_so.Base.{
  ℕ, zero, suc, Bool, Option, map_option, List, ◌==◌, if◌then◌else◌, not, ℤ, pos, minus_one,
  is_minus_one, is_zero, codes,
}
use projeto_so.Memory.Bytes.{Bytes, write_int, clear_bytes}
use projeto_so.Process.{M, pure, ◌>>=◌, ◌>>◌, out_of_fuel, or_fault, write_only}
use projeto_so.Pipes.{pipe_open, pipe_write, pipe_close}
use projeto_so.Protocol.{
  strcpy, write_byte, write_long, message_size, box_name_size, create_mailbox_answer,
  list_mailboxes_answer,
}
use projeto_so.Protocol.At
use projeto_so.Fs.Operations.{tfs_open, tfs_close, tfs_unlink}
use projeto_so.BoxList as Linked
use projeto_so.BoxList.{
  TfsFile, Ptr, null, ListNode, BoxList, search_node, search_prev_node, list_add, list_remove,
}
use projeto_so.Broker.{
  World, Env, in_calls, in_fs, in_nodes, in_list, broadcast, pipe_name_of, box_name_of,
  format_box_name,
}

-- `new_packet.payload.answer_data` with return code -1 and a message.
unfoldable pub error_answer : Bytes → List ℕ → Option Bytes
error_answer packet text =
    strcpy (write_int packet At.return_code minus_one) At.error_message message_size text

unfoldable pub ok_answer : Bytes → Bytes
ok_answer packet = write_int packet At.return_code (pos 0)

abbrev pub box_already_exists : List ℕ
box_already_exists = codes "Box already exists"

abbrev pub failed_to_create_box : List ℕ
failed_to_create_box = codes "Failed to create box"

abbrev pub failed_to_delete_box : List ℕ
failed_to_delete_box = codes "Failed to delete box"

-- `new_file`
abbrev pub new_box : List ℕ → TfsFile
new_box name = record { box_name = name; n_publishers = 0; n_subscribers = 0; box_size = 0 }

-- The fields of LIST_MAILBOXES_ANSWER for a box.
unfoldable pub mailbox_answer : Bytes → TfsFile → Bool → Option Bytes
mailbox_answer packet file is_last =
    map_option
      (λ named.
        write_byte
          (write_long
            (write_long (write_long named At.n_publishers file.n_publishers) At.n_subscribers
              file.n_subscribers)
            At.box_size file.box_size)
          At.last (if is_last then 1 else 0))
      (strcpy packet At.listed_box box_name_size file.box_name)

-- The answer if there is no box.
unfoldable pub no_boxes : Bytes → Bytes
no_boxes packet = clear_bytes (write_byte packet At.last 1) At.listed_box box_name_size

module _ (e : Env) where
  -- The failing ends of CREATE_MAILBOX.
  unfoldable pub refuse : ℤ → Bytes → List ℕ → M World (Unit {0})
  refuse pipe packet text = do
    answer ← or_fault (error_answer packet text)
    in_calls (pipe_write e.os pipe answer)
    in_calls (pipe_close e.os pipe)

  unfoldable pub add_box : ℤ → Bytes → List ℕ → ℤ → M World (Unit {0})
  add_box pipe packet name box = do
    in_list λ l m. list_add (e.malloc_node m) (new_box name) l m
    in_calls (pipe_write e.os pipe (ok_answer packet))
    _ ← in_fs (tfs_close e.pthread box)
    in_calls (pipe_close e.os pipe)

  unfoldable pub handle_create : Bytes → M World (Unit {0})
  handle_create request = do
    pipe_name ← pipe_name_of request
    pipe ← in_calls (pipe_open e.os pipe_name write_only)
    let packet = write_byte e.stack At.opcode create_mailbox_answer
    name ← box_name_of request
    node ← in_nodes λ l. search_node e.fuel l name
    if not (node == null) then refuse pipe packet box_already_exists else do
      path ← format_box_name e.os name
      box ← in_fs (tfs_open e.pthread path 1)
      if is_minus_one box
          then refuse pipe packet failed_to_create_box
          else add_box pipe packet name box

  -- `prev->next`, or the head if `prev` is NULL.
  unfoldable pub after_prev : Ptr → BoxList → Linked.M Ptr
  after_prev prev l m =
      if prev == null
      then Linked.done l.head m
      else Linked.then_run (Linked.load prev m) λ n. Linked.done n.next

  -- REMOVE_MAILBOX after the file was deleted.
  unfoldable pub remove_box : ℤ → Bytes → List ℕ → M World (Unit {0})
  remove_box pipe packet name = do
    node ← in_nodes λ l. search_node e.fuel l name
    if node == null then pure tt else broadcast node
    prev ← in_nodes λ l. search_prev_node e.fuel l name
    next ← in_nodes (after_prev prev)
    in_list (list_remove prev next)
    in_calls (pipe_write e.os pipe (ok_answer packet))
    in_calls (pipe_close e.os pipe)

  -- The answer has the operation code of CREATE_MAILBOX_ANSWER. If the file is not deleted, the
  -- pipe stays open.
  unfoldable pub handle_remove : Bytes → M World (Unit {0})
  handle_remove request = do
    pipe_name ← pipe_name_of request
    pipe ← in_calls (pipe_open e.os pipe_name write_only)
    let packet = write_byte e.stack At.opcode create_mailbox_answer
    name ← box_name_of request
    path ← format_box_name e.os name
    rc ← in_fs (tfs_unlink e.pthread path)
    if is_minus_one rc
        then (do
          answer ← or_fault (error_answer packet failed_to_delete_box)
          in_calls (pipe_write e.os pipe answer))
        else remove_box pipe packet name

  -- The loop over the nodes; the packet of a box is filled over the one before.
  unfoldable pub send_boxes : ℕ → ℤ → Bytes → Ptr → M World (Unit {0})
  send_boxes zero pipe packet node = λ w. out_of_fuel
  send_boxes (suc k) pipe packet node = if node == null then pure tt else do
    n ← in_nodes λ l. Linked.load node
    answer ← or_fault (mailbox_answer packet n.file (n.next == null))
    in_calls (pipe_write e.os pipe answer)
    send_boxes k pipe answer n.next

  unfoldable pub handle_list : Bytes → M World (Unit {0})
  handle_list request = do
    pipe_name ← pipe_name_of request
    pipe ← in_calls (pipe_open e.os pipe_name write_only)
    let packet = write_byte e.stack At.opcode list_mailboxes_answer
    w ← λ w. pure w w
    if is_zero w.list.size
        then in_calls (pipe_write e.os pipe (no_boxes packet))
        else send_boxes e.fuel pipe packet w.list.head
    in_calls (pipe_close e.os pipe)
