-- ===== src/Clients.antt =====
-- publisher/pub.c and subscriber/sub.c.
pub mod Requests
pub mod Lines
pub mod Sessions
pub mod Programs
mod Tests
use projeto_so.Base.{
  ℕ, zero, suc, ◌+◌, Bool, true, false, ◌||◌, not, Option, none, some, List, [], ◌∷◌, ◌++◌, codes,
  ◌==◌, if◌then◌else◌, ltb, length, ℤ, is_zero, is_minus_one,
}
use projeto_so.Memory.Bytes.{Bytes, memcpy, clear_bytes}
use projeto_so.Process.{
  M, pure, ◌>>=◌, ◌>>◌, out_of_fuel, or_fault, Calls, Call, reads, accesses, prints, Os, call,
  is_negative, read_only, write_only, arg, exit_success, exit_failure,
}
use projeto_so.Pipes.{pipe_create, pipe_open, pipe_write, pipe_close, pipe_destroy}
use projeto_so.Protocol.{
  c_string, strcpy, then_strcpy, write_byte, pipe_name_size, box_name_size, message_size,
  register_publisher, register_subscriber, publish_message,
}
use projeto_so.Protocol.At

abbrev is_some : Option ℕ → Bool
is_some none = false
is_some (some n) = true

-- `registration_data` in a packet: the two names are copied with their NULs.
unfoldable pub registration : Bytes → ℕ → List ℕ → List ℕ → Option Bytes
registration stack opcode client_pipe box_name =
    then_strcpy
      (strcpy (write_byte stack At.opcode opcode) At.client_pipe pipe_name_size client_pipe)
      At.registered_box box_name_size box_name

-- The first `strcspn(line, "\n")` bytes.
unfoldable pub without_newline : List ℕ → List ℕ
without_newline [] = []
without_newline (c ∷ line) = let rest = without_newline line in if c == b'\n' then [] else c ∷ rest

-- `message_data`: `memset` and `memcpy`.
unfoldable pub line_packet : Bytes → List ℕ → Option Bytes
line_packet stack line =
    if ltb message_size (length (without_newline line))
    then none
    else some (
        memcpy (clear_bytes (write_byte stack At.opcode publish_message) At.message message_size)
          At.message (without_newline line))

-- A name that was not given is NULL.
module _ (os : Os) (stack : Bytes) (register_pipe_name client_pipe_name : List ℕ)
    (argument : Option (List ℕ)) where
  -- `close_publisher`, up to `exit`.
  unfoldable pub close_client : ℤ → ℤ → M Calls (Unit {0})
  close_client register_pipe client_pipe = do
    pipe_close os register_pipe
    pipe_close os client_pipe
    pipe_destroy os client_pipe_name

  -- The lines are what `fgets` gives one after the other.
  unfoldable pub send_lines : ℤ → List (List ℕ) → M Calls (Unit {0})
  send_lines pipe [] = pure tt
  send_lines pipe (line ∷ lines) = do
    packet ← or_fault (line_packet stack line)
    pipe_write os pipe packet
    send_lines pipe lines

  -- `main` of the publisher from the check of the pipe's name on: whether it got past the check of
  -- the pipe's name.
  unfoldable pub run_publisher : List (List ℕ) → M Calls Bool
  run_publisher lines = do
    in_use ← call (accesses client_pipe_name) λ c. os.access c client_pipe_name
    if not (is_minus_one in_use) then pure false else do
      register_pipe ← pipe_open os register_pipe_name write_only
      box_name ← or_fault argument
      packet ← or_fault (registration stack register_publisher client_pipe_name box_name)
      pipe_create os client_pipe_name
      pipe_write os register_pipe packet
      client_pipe ← pipe_open os client_pipe_name write_only
      send_lines client_pipe lines
      close_client register_pipe client_pipe
      pure true

  -- The loop of the subscriber: how many messages it received.
  unfoldable pub receive : ℕ → ℤ → Bytes → ℕ → M Calls ℕ
  receive zero pipe buffer received = λ c. out_of_fuel
  receive (suc k) pipe buffer received = do
    (n, packet) ← call (reads pipe) λ c. os.read c pipe buffer
    if is_negative n || is_zero n then pure received else do
      message ← or_fault (c_string packet At.message message_size)
      call (prints (message ++ codes "\n")) λ c. tt
      receive k pipe stack (received + 1)

  -- `close_subscriber`, up to `exit`. `decimal` is what `%d` prints.
  unfoldable pub close_subscriber : (ℕ → List ℕ) → ℕ → ℤ → ℤ → M Calls (Unit {0})
  close_subscriber decimal received register_pipe client_pipe = do
    call (prints (codes "Received " ++ decimal received ++ codes " messages\n")) λ c. tt
    pipe_close os register_pipe
    pipe_close os client_pipe
    pipe_destroy os client_pipe_name

  -- `main` of the subscriber from the check of the pipe's name on: how many messages it received,
  -- if it got past the check.
  unfoldable pub run_subscriber : (ℕ → List ℕ) → ℕ → M Calls (Option ℕ)
  run_subscriber decimal fuel = do
    in_use ← call (accesses client_pipe_name) λ c. os.access c client_pipe_name
    if not (is_minus_one in_use) then pure none else do
      register_pipe ← pipe_open os register_pipe_name write_only
      box_name ← or_fault argument
      packet ← or_fault (registration stack register_subscriber client_pipe_name box_name)
      pipe_create os client_pipe_name
      pipe_write os register_pipe packet
      client_pipe ← pipe_open os client_pipe_name read_only
      received ← receive fuel client_pipe stack 0
      close_subscriber decimal received register_pipe client_pipe
      pure (some received)

module _ (os : Os) (stack : Bytes) (argv : List (List ℕ)) where
  -- `main` of the publisher; the usage goes to `stderr`.
  unfoldable pub publisher_main : List (List ℕ) → M Calls ℕ
  publisher_main lines = if ltb (length argv) 3 then pure exit_failure else do
    register_pipe_name ← or_fault (arg argv 1)
    client_pipe_name ← or_fault (arg argv 2)
    published ← run_publisher os stack register_pipe_name client_pipe_name (arg argv 3) lines
    pure (if published then exit_success else exit_failure)

  -- `main` of the subscriber: its status, and the messages received if it started.
  unfoldable pub subscriber_main : (ℕ → List ℕ) → ℕ → M Calls (ℕ × Option ℕ)
  subscriber_main decimal fuel = if ltb (length argv) 3 then pure (exit_failure, none) else do
    register_pipe_name ← or_fault (arg argv 1)
    client_pipe_name ← or_fault (arg argv 2)
    received ← run_subscriber os stack register_pipe_name client_pipe_name (arg argv 3) decimal fuel
    pure (if is_some received then exit_success else exit_failure, received)
