-- ===== src/Broker/Tests/Launching.antt =====
-- The start of the server, and a request that it has received.
use projeto_so.Base.{ℕ, ◌+◌, ◌≤◌, ◌≡◌, refl, some, none, List, [], ◌∷◌, arith, pos, true, false}
use projeto_so.Memory.{Array, store}
use projeto_so.Memory.Bytes.{Bytes}
use projeto_so.Process as Process
use projeto_so.Process.{Ends, ok, arg}
use projeto_so.Pipes.{pipe_create, pipe_open, retry, open_once}
use projeto_so.Fs.Types.{State, t_file, free}
use projeto_so.Fs.Starting.Requirements.{Succeeds}
use projeto_so.Fs.Tests.Example.{supplying, supplying-GivesRoom}
use projeto_so.Queue as Queue
use projeto_so.Queue.{Elem, PcQueue, pcq_create, pcq_enqueue, pcq_dequeue}
use projeto_so.Queue.Refinement.{CanHold}
use projeto_so.Queue.Calls.{Holds}
use projeto_so.Broker.{World, Env}
use projeto_so.Broker.Sessions.{try_read}
use projeto_so.Broker.Main.{
  Server, Reach, started, one_received, received, one_enqueued, enqueued, packet_at, main, params,
}
use projeto_so.Broker.Requests.{copies, created-Queued, reached-Queued}
use projeto_so.Broker.Launching.{Launched, main-Launched}
use projeto_so.Broker.Tests.Server.{ready_os, no_fs, env}

-- Memory for the parameters of the server.
abbrev memory : State
memory = record no_fs {
  params = params;
  allocated = true;
  inode_table = record {
    size = 64;
    cell = λ i. record { i_node_type = t_file; i_size = 7; i_data_block = pos 7 };
  };
  freeinode_ts = record { size = 64; cell = λ i. free };
  fs_data = record { size = 1_048_576; cell = λ i. 255 };
  free_blocks = record { size = 1024; cell = λ i. free };
  open_file_table = record {
    size = 2048;
    cell = λ i. record { of_inumber = pos 7; of_offset = 7 };
  };
  free_open_file_entries = record { size = 2048; cell = λ i. free };
}

memory-Succeeds : Succeeds (supplying memory) memory
memory-Succeeds = record {
  inode_table = refl;
  freeinode_ts = refl;
  fs_data = refl;
  free_blocks = refl;
  open_file_table = refl;
  free_open_file_entries = refl;
}

abbrev buffer : Array Elem
buffer = record { size = 2; cell = λ i. 0 }

buffer-CanHold : CanHold buffer 2
buffer-CanHold = record { positive = omega arith; small = omega arith; room = omega arith }

abbrev before : World
before = record {
  fs = no_fs;
  list = record { head = 5; tail = 5; size = pos 0 };
  nodes = λ p. none;
  calls = [];
}

abbrev two : List ℕ → ℕ
two digits = 2

main-Launched_example :
    Ends
      (Launched (b's' ∷ []) (pos 4) 2 before)
      (main env two (supplying memory) (λ n. buffer) ([] ∷ (b's' ∷ []) ∷ (b'2' ∷ []) ∷ []) before)
unfolding pipe_create pipe_open retry open_once
main-Launched_example =
    main-Launched env two (supplying memory) memory (λ n. buffer) [] (b's' ∷ []) (b'2' ∷ []) []
      (pos 4) before refl refl refl (supplying-GivesRoom memory) memory-Succeeds buffer-CanHold
      (λ c. refl) (λ c. refl) (λ c. refl)

abbrev request : Bytes
request x = 7

abbrev asked : Env
asked = record env { os = record ready_os { read = λ c fd b. (pos 1_033, request) } }

abbrev waiting : Server
waiting = record {
  world = before;
  register_pipe = pos 4;
  queue = pcq_create (λ n. buffer) 2;
  packet = λ x. 0;
  to_enqueue = false;
}

abbrev with_request : PcQueue
with_request = record {
  pcq_buffer = store buffer 0 99;
  pcq_capacity = 2;
  pcq_current_size = 1;
  pcq_head = 0;
  pcq_tail = 1;
}

one_request : Reach asked (b's' ∷ []) 99 waiting 1 0 (record waiting {
  world = record before { calls = Process.reads (pos 4) ∷ [] };
  queue = with_request;
  packet = request;
})
unfolding try_read pcq_enqueue pcq_create Queue.store_elem Queue.advance_tail Queue.count_up
one_request =
    one_enqueued
      (one_received request started
        (received (pos 1_033) request (Process.reads (pos 4) ∷ []) refl refl refl))
      (enqueued with_request refl refl)

reached-Queued_example :
    (n : ℕ) × (1 ≡ 0 + n + 0)
    × (n ≤ 2)
    × Holds with_request (copies n 99)
    × ((item : Elem) (q : PcQueue)
        → pcq_dequeue with_request ≡ Queue.done (item, q)
        → packet_at 99 request item ≡ some request)
reached-Queued_example =
    reached-Queued (created-Queued 99 (λ n. buffer) 2 buffer-CanHold) refl one_request
