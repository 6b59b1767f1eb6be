-- ===== src/Broker/Main.antt =====
-- `main` of mbroker/mbroker.c: the start, and the loop that queues requests for the workers. The
-- threads are the steps of a relation: `main` receives a request, or a worker handles one.
use projeto_so.Base.{
  Bool, ℕ, suc, ◌≡◌, true, false, not, Option, some, none, List, ltb, length, ◌==◌, if◌then◌else◌,
  ℤ, is_zero,
}
use projeto_so.Memory.{Array}
use projeto_so.Memory.Bytes.{Bytes}
use projeto_so.Process.{M, pure, ◌>>=◌, ◌>>◌, ok, or_fault, Calls, arg, read_only}
use projeto_so.Pipes.{pipe_create, pipe_open, pipe_close}
use projeto_so.Fs.Types.{Params}
use projeto_so.Fs.Init.{Mallocs, tfs_init}
use projeto_so.BoxList.{list_init}
use projeto_so.Queue as Queue
use projeto_so.Queue.{Elem, PcQueue, pcq_create, pcq_enqueue, pcq_dequeue}
use projeto_so.Broker.{World, Env, in_calls, in_fs}
use projeto_so.Broker.Sessions.{Subscription, try_read, is_positive, session_worker}

-- `params`
abbrev pub params : Params
params = record {
  max_inode_count = 64;
  max_block_count = 1024;
  max_open_files_count = 2048;
  block_size = 1024;
}

abbrev pub init_list : M World (Unit {0})
init_list w = ok tt (record w { list = list_init w.list })

-- What the loop works on: the descriptor of the server's pipe, and the queue.
pub record Listening : Type 0 where
  pub register_pipe : ℤ
  pub queue : PcQueue

module _ (e : Env) where
  -- The server's pipe is opened and closed again.
  unfoldable pub reopen : List ℕ → M World (Unit {0})
  reopen name = do
    temp_pipe ← in_calls (pipe_open e.os name read_only)
    in_calls (pipe_close e.os temp_pipe)

  -- `main` up to the first read; nothing is returned if it exits with EXIT_FAILURE. `strtoul` is
  -- of the C library, `mallocs` and `queue_malloc` are what `malloc` returns.
  unfoldable pub main :
      (List ℕ → ℕ) → Mallocs → (ℕ → Array Elem) → List (List ℕ) → M World (Option Listening)
  main strtoul mallocs queue_malloc argv = if ltb (length argv) 2 then pure none else do
    register_pipe_name ← or_fault (arg argv 1)
    digits ← or_fault (arg argv 2)
    init_list
    started ← in_fs (tfs_init mallocs (some params))
    if not (is_zero started) then pure none else do
      in_calls (pipe_create e.os register_pipe_name)
      register_pipe ← in_calls (pipe_open e.os register_pipe_name read_only)
      reopen register_pipe_name
      pure (
          some (record {
            register_pipe = register_pipe;
            queue = pcq_create queue_malloc (strtoul digits);
          }))

-- The running server. `packet` is the variable of `main` that every request is read into; where
-- `to_enqueue` holds, `main` has read a request and is in `pcq_enqueue` with it.
pub record Server : Type 0 where
  pub world : World
  pub register_pipe : ℤ
  pub queue : PcQueue
  pub packet : Bytes
  pub to_enqueue : Bool

-- What a worker finds at an address that it was given, if `main`'s packet stands at `address`.
abbrev pub packet_at : Elem → Bytes → Elem → Option Bytes
packet_at address packet item = if item == address then some packet else none

pub data Event : Type 0 where
  receives handles : Bytes → Event
  enqueues reopens : Event

-- `name` is the server's pipe, `address` that of `main`'s packet.
pub data ServerStep (e : Env) (name : List ℕ) (address : Elem) (s : Server)
    : Event → Server → Type 0 where
  received :
      (n : ℤ) (packet : Bytes) (calls : Calls)
      → s.to_enqueue ≡ false
      → try_read e.os e.fuel s.register_pipe s.packet s.world.calls ≡ ok (n, packet) calls
      → is_positive n ≡ true
      → ServerStep e name address s (receives packet) (record s {
        world = record s.world { calls = calls };
        packet = packet;
        to_enqueue = true;
      })
  enqueued :
      (q : PcQueue)
      → s.to_enqueue ≡ true
      → pcq_enqueue address s.queue ≡ Queue.done q
      → ServerStep e name address s enqueues (record s { queue = q; to_enqueue = false })
  handled :
      (item : Elem) (q : PcQueue) (request : Bytes) (session : Option Subscription) (w : World)
      → pcq_dequeue s.queue ≡ Queue.done (item, q)
      → packet_at address s.packet item ≡ some request
      → session_worker e request s.world ≡ ok session w
      → ServerStep e name address s (handles request) (record s { world = w; queue = q })
  reopened :
      (n : ℤ) (packet : Bytes) (calls : Calls) (w : World)
      → s.to_enqueue ≡ false
      → try_read e.os e.fuel s.register_pipe s.packet s.world.calls ≡ ok (n, packet) calls
      → is_positive n ≡ false
      → reopen e name (record s.world { calls = calls }) ≡ ok tt w
      → ServerStep e name address s reopens (record s { world = w; packet = packet })

-- The states that the server reaches, with how many requests were received and handled.
pub data Reach (e : Env) (name : List ℕ) (address : Elem) (s : Server)
    : ℕ → ℕ → Server → Type 0 where
  started : Reach e name address s 0 0 s
  one_received :
      {r h : ℕ} {t u : Server} (packet : Bytes)
      → Reach e name address s r h t
      → ServerStep e name address t (receives packet) u
      → Reach e name address s (suc r) h u
  one_enqueued :
      {r h : ℕ} {t u : Server}
      → Reach e name address s r h t
      → ServerStep e name address t enqueues u
      → Reach e name address s r h u
  one_handled :
      {r h : ℕ} {t u : Server} (request : Bytes)
      → Reach e name address s r h t
      → ServerStep e name address t (handles request) u
      → Reach e name address s r (suc h) u
  one_reopened :
      {r h : ℕ} {t u : Server}
      → Reach e name address s r h t
      → ServerStep e name address t reopens u
      → Reach e name address s r h u
