-- ===== src/Broker.antt =====
-- mbroker/mbroker.c: the requests that a worker of the server handles, over the file system, the
-- list of boxes and the pipes. A handler is one run here, without another thread in between; a
-- subscriber's handler is cut where it waits.
pub mod Answers
pub mod Sessions
pub mod Listing
mod Tests
pub mod Sending
pub mod Replies
pub mod Adding
pub mod Creating
pub mod Storing
pub mod Counting
pub mod Publishing
pub mod Receiving
pub mod Stored
pub mod Encoded
pub mod Subscribing
pub mod Delivery
pub mod Main
pub mod Requests
pub mod Launching
pub mod Waking
pub mod Leaving
pub mod Taking
pub mod Removing
use projeto_so.Base.{
  ℕ, Bool, Option, none, some, List, [], ◌∷◌, ◌++◌, ◌+◌, length, if◌then◌else◌, ℤ,
}
use projeto_so.Memory.Bytes.{Bytes}
use projeto_so.Process.{
  Run, ok, panic, fault, out_of_fuel, M, pure, ◌>>=◌, ◌>>◌, or_fault, Call, allocates, broadcasts,
  Calls, Os, call,
}
use projeto_so.Protocol.{c_string, pipe_name_size, box_name_size}
use projeto_so.Protocol.At
use projeto_so.Fs.Types as Types
use projeto_so.Fs.Operations.{Pthread}
use projeto_so.BoxList as Linked
use projeto_so.BoxList.{BoxList, Nodes, Ptr}

-- The server: the file system, the list of boxes with its nodes, and the calls made.
pub record World : Type 0 where
  pub fs : Types.State
  pub list : BoxList
  pub nodes : Nodes
  pub calls : Calls

-- What is not the server's own code: the operating system, the mutex of the file system, the
-- address that `malloc` gives a new node, and what an uninitialised packet holds. `fuel` is for
-- each loop.
pub record Env : Type 0 where
  pub os : Os
  pub pthread : Pthread
  pub malloc_node : Nodes → Ptr
  pub stack : Bytes
  pub fuel : ℕ

module _ {A : Type 0} where
  abbrev pub from_calls : World → Run Calls A → Run World A
  from_calls w (ok a calls) = ok a (record w { calls = calls })
  from_calls w panic = panic
  from_calls w fault = fault
  from_calls w out_of_fuel = out_of_fuel

  abbrev pub in_calls : M Calls A → M World A
  in_calls m w = from_calls w (m w.calls)

  abbrev pub from_fs : World → Types.Run A → Run World A
  from_fs w (Types.ok a s) = ok a (record w { fs = s })
  from_fs w Types.panic = panic
  from_fs w Types.fault = fault

  abbrev pub in_fs : Types.M A → M World A
  in_fs m w = from_fs w (m w.fs)

  abbrev pub from_nodes : World → Linked.Run A → Run World A
  from_nodes w (Linked.done a m) = ok a (record w { nodes = m })
  from_nodes w Linked.fault = fault
  from_nodes w Linked.out_of_fuel = out_of_fuel

  -- Code that reads or changes nodes, given the list.
  abbrev pub in_nodes : (BoxList → Linked.M A) → M World A
  in_nodes m w = from_nodes w (m w.list w.nodes)

-- A function that changes the list itself.
abbrev pub in_list : (BoxList → Linked.M BoxList) → M World (Unit {0})
in_list m = do l ← in_nodes m; λ w. ok tt (record w { list = l })

abbrev pub broadcast : Ptr → M World (Unit {0})
broadcast node = in_calls (call (broadcasts node) λ c. tt)

-- The fields of a request, read as strings.
abbrev pub pipe_name_of : Bytes → M World (List ℕ)
pipe_name_of packet = or_fault (c_string packet At.client_pipe pipe_name_size)

abbrev pub box_name_of : Bytes → M World (List ℕ)
box_name_of packet = or_fault (c_string packet At.registered_box box_name_size)

-- `formatBoxName`: writes through the result of `malloc` without a test.
unfoldable pub format_box_name : Os → List ℕ → M World (Option (List ℕ))
format_box_name os name = do
  given ← in_calls (call (allocates (length name + 2)) λ c. os.malloc c (length name + 2))
  if given then pure (some (b'/' ∷ name)) else (λ w. fault)
