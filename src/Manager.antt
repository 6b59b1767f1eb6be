-- ===== src/Manager.antt =====
-- manager/manager.c: the requests of a manager, and what it prints of the answers.
pub mod Answers
pub mod Shown
mod Tests
use projeto_so.Base.{
  ℕ, zero, suc, ◌+◌, Bool, true, false, ◌&&◌, ◌||◌, not, Option, none, some, map_option, List, [],
  ◌∷◌, ◌++◌, codes, ◌==◌, if◌then◌else◌, ltb, length, ℤ, is_zero, is_minus_one,
}
use projeto_so.Memory.Bytes.{Bytes, read_int}
use projeto_so.Process.{
  Run, ok, panic, fault, out_of_fuel, M, pure, ◌>>=◌, ◌>>◌, or_fault, Calls, Call, reads, prints,
  Os, call, is_negative, read_only, write_only, arg, exit_success, exit_failure, accesses,
}
use projeto_so.Pipes.{pipe_create, pipe_open, pipe_write, pipe_read, pipe_close, pipe_destroy}
use projeto_so.Protocol.{
  c_string, strcpy, then_strcpy, read_long, write_byte, pipe_name_size, box_name_size, message_size,
  create_mailbox, create_mailbox_answer, remove_mailbox, remove_mailbox_answer, list_mailboxes,
  list_mailboxes_answer,
}
use projeto_so.Protocol.At
use projeto_so.BoxList as Linked
use projeto_so.BoxList.{
  same_name, TfsFile, BoxList, Nodes, Ptr, list_init, list_add, list_print, list_destroy,
}
use projeto_so.BoxList.Sorting.{list_sort}

-- The manager's list with its nodes, and the calls made.
pub record Desk : Type 0 where
  pub list : BoxList
  pub nodes : Nodes
  pub calls : Calls

-- What is not the manager's own code (`decimal` is what `%zu` prints), and the names of the two
-- pipes.
pub record Setting : Type 0 where
  pub os : Os
  pub malloc_node : Nodes → Ptr
  pub stack : Bytes
  pub fuel : ℕ
  pub decimal : ℕ → List ℕ
  pub register_pipe_name : List ℕ
  pub client_pipe_name : List ℕ

module _ {A : Type 0} where
  abbrev pub from_calls : Desk → Run Calls A → Run Desk A
  from_calls d (ok a calls) = ok a (record d { calls = calls })
  from_calls d panic = panic
  from_calls d fault = fault
  from_calls d out_of_fuel = out_of_fuel

  abbrev pub in_calls : M Calls A → M Desk A
  in_calls m d = from_calls d (m d.calls)

  abbrev pub from_nodes : Desk → Linked.Run A → Run Desk A
  from_nodes d (Linked.done a m) = ok a (record d { nodes = m })
  from_nodes d Linked.fault = fault
  from_nodes d Linked.out_of_fuel = out_of_fuel

  abbrev pub in_nodes : (BoxList → Linked.M A) → M Desk A
  in_nodes m d = from_nodes d (m d.list d.nodes)

abbrev pub set_list : BoxList → M Desk (Unit {0})
set_list l d = ok tt (record d { list = l })

abbrev pub in_list : (BoxList → Linked.M BoxList) → M Desk (Unit {0})
in_list m = do l ← in_nodes m; set_list l

abbrev pub print : List ℕ → M Calls (Unit {0})
print text = call (prints text) λ c. tt

-- A request for a box: both names are copied with their NUL.
unfoldable pub box_request : Bytes → ℕ → List ℕ → List ℕ → Option Bytes
box_request stack opcode box_name client_pipe =
    then_strcpy
      (strcpy (write_byte stack At.opcode opcode) At.registered_box box_name_size box_name)
      At.client_pipe pipe_name_size client_pipe

unfoldable pub handle_response : Bytes → M Calls (Unit {0})
handle_response response =
    if not (opcode == create_mailbox_answer)
      && not (opcode == remove_mailbox_answer)
      && not (opcode == list_mailboxes_answer)
    then pure tt
    else if is_zero return_code
    then print (codes "OK\n")
    else if is_minus_one return_code
    then (do
      text ← or_fault (c_string response At.error_message message_size)
      print (codes "ERROR " ++ text ++ codes "\n"))
    else (λ c. panic)
  where
    opcode : ℕ
    opcode = response At.opcode

    return_code : ℤ
    return_code = read_int response At.return_code

module _ (s : Setting) where
  -- The descriptors of the server's pipe and the manager's.
  unfoldable pub send_packet : Bytes → M Calls (ℤ × ℤ)
  send_packet packet = do
    pipe_create s.os s.client_pipe_name
    register_pipe ← pipe_open s.os s.register_pipe_name write_only
    pipe_write s.os register_pipe packet
    client_pipe ← pipe_open s.os s.client_pipe_name read_only
    response ← pipe_read s.os client_pipe s.stack
    handle_response response
    pure (register_pipe, client_pipe)

  unfoldable pub close_manager : ℤ → ℤ → M Calls (Unit {0})
  close_manager register_pipe client_pipe = do
    pipe_close s.os register_pipe
    pipe_close s.os client_pipe
    pipe_destroy s.os s.client_pipe_name

  unfoldable pub send_request : ℕ → List ℕ → M Calls (Unit {0})
  send_request opcode box_name = do
    packet ← or_fault (box_request s.stack opcode box_name s.client_pipe_name)
    (register_pipe, client_pipe) ← send_packet packet
    close_manager register_pipe client_pipe

  -- `createBox`
  unfoldable pub create_box : List ℕ → M Calls (Unit {0})
  create_box box_name = send_request create_mailbox box_name

  -- `removeBox`
  unfoldable pub remove_box : List ℕ → M Calls (Unit {0})
  remove_box box_name = send_request remove_mailbox box_name

  -- `new_file` of a packet.
  unfoldable pub box_of_packet : Bytes → Option TfsFile
  box_of_packet p =
      map_option
        (λ name. record {
          box_name = name;
          n_publishers = read_long p At.n_publishers;
          n_subscribers = read_long p At.n_subscribers;
          box_size = read_long p At.box_size;
        })
        (c_string p At.listed_box box_name_size)

  -- The loop that reads the boxes.
  unfoldable pub read_boxes : ℕ → ℤ → Bytes → M Desk (Unit {0})
  read_boxes zero pipe buffer = λ d. out_of_fuel
  read_boxes (suc k) pipe buffer = do
    (n, response) ← in_calls (call (reads pipe) λ c. s.os.read c pipe buffer)
    if is_negative n || is_zero n
        then pure tt
        else if response At.listed_box == 0
        then in_calls (print (codes "NO BOXES FOUND\n"))
        else do
          file ← or_fault (box_of_packet response)
          in_list λ l m. list_add (s.malloc_node m) file l m
          if response At.last == 1 then pure tt else read_boxes k pipe response

  -- `listBoxes` from `list_sort` to `list_destroy`: the lines that are printed.
  unfoldable pub sort_and_show : M Desk (List (List ℕ))
  sort_and_show = do
    in_list (list_sort s.fuel)
    shown ← in_nodes (list_print s.decimal s.fuel)
    in_nodes (list_destroy s.fuel)
    pure shown

  -- `listBoxes` from `list_init` on.
  unfoldable pub show_boxes : ℤ → M Desk (List (List ℕ))
  show_boxes client_pipe = do
    d ← λ d. pure d d
    set_list (list_init d.list)
    read_boxes s.fuel client_pipe s.stack
    sort_and_show

  -- `listBoxes`
  unfoldable pub list_boxes : M Desk (List (List ℕ))
  list_boxes = do
    packet ← or_fault (
        strcpy (write_byte s.stack At.opcode list_mailboxes) At.client_pipe pipe_name_size
          s.client_pipe_name)
    in_calls (pipe_create s.os s.client_pipe_name)
    register_pipe ← in_calls (pipe_open s.os s.register_pipe_name write_only)
    in_calls (pipe_write s.os register_pipe packet)
    client_pipe ← in_calls (pipe_open s.os s.client_pipe_name read_only)
    shown ← show_boxes client_pipe
    in_calls (close_manager register_pipe client_pipe)
    pure shown

-- What `main` ends with: a status, and the lines of the boxes if it shows them.
abbrev pub shows_nothing : M Calls (Unit {0}) → M Desk (ℕ × Option (List (List ℕ)))
shows_nothing request = do in_calls request; pure (exit_success, none)

-- `main`; the usage goes to `stderr`. `s` has the names of the pipes replaced by those of the call.
unfoldable pub main : Setting → List (List ℕ) → M Desk (ℕ × Option (List (List ℕ)))
main s argv = if ltb (length argv) 4 then pure (exit_failure, none) else do
  register_pipe_name ← or_fault (arg argv 1)
  client_pipe_name ← or_fault (arg argv 2)
  operation ← or_fault (arg argv 3)
  let own = record s {
    register_pipe_name = register_pipe_name;
    client_pipe_name = client_pipe_name;
  }
  in_use ← in_calls (call (accesses client_pipe_name) λ c. s.os.access c client_pipe_name)
  if not (is_minus_one in_use)
      then pure (exit_failure, none)
      else if same_name operation (codes "create")
      then (if ltb (length argv) 5
          then pure (exit_failure, none)
          else do box_name ← or_fault (arg argv 4); shows_nothing (create_box own box_name))
      else if same_name operation (codes "remove")
      then (if ltb (length argv) 5
          then pure (exit_failure, none)
          else do box_name ← or_fault (arg argv 4); shows_nothing (remove_box own box_name))
      else if same_name operation (codes "list")
      then (do shown ← list_boxes own; pure (exit_success, some shown))
      else pure (exit_failure, none)
