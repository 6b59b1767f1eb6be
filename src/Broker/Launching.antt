-- ===== src/Broker/Launching.antt =====
-- The start of the server.
use projeto_so.Base.{
  ℕ, ◌*◌, ◌%◌, ◌^◌, ◌≡◌, refl, sym, false, some, none, Option, List, [], ◌∷◌, arith, length, ltb, ℤ,
  pos, is_zero, not, if◌then◌else◌,
}
use mathlib.Core.Path.{subst}
use projeto_so.Memory.{Array}
use projeto_so.Process.{
  Ends, ok, Calls, opens, closes, makes_fifo, unlinks, read_only, arg, is_negative, pure, ◌>>=◌,
  ◌>>◌, and_then,
}
use projeto_so.Pipes.{pipe_create, pipe_open}
use projeto_so.Fs.Types as Types
use projeto_so.Fs.Types.{State}
use projeto_so.Fs.Validity.{IsValid}
use projeto_so.Fs.Init.{Mallocs, tfs_init}
use projeto_so.Fs.Starting.{IsEmpty, tfs_init-IsValid}
use projeto_so.Fs.Starting.Requirements.{GivesRoom, Succeeds, CanStart}
use projeto_so.BoxList.{list_init}
use projeto_so.Queue.{Elem, pcq_create, pointer_size}
use projeto_so.Queue.Refinement.{CanHold}
use projeto_so.Broker.{World, Env, from_fs, in_calls}
use projeto_so.Broker.Adding.{IsServer}
use projeto_so.Broker.Main.{params, main, reopen, Listening}
use projeto_so.Broker.Counting.{close-done}
use projeto_so.Broker.Requests.{Queued, created-Queued}
use projeto_so.Broker.Subscribing.{Opens}

-- A server that waits for its first request.
pub record Launched (name : List ℕ) (pipe : ℤ) (capacity : ℕ) (w : World) (r : Option Listening)
    (w' : World) : Type 0 where
  pub listening : Listening
  pub result : r ≡ some listening
  pub pipe_is : listening.register_pipe ≡ pipe
  pub queue_empty : (address : Elem) → Queued address 0 listening.queue
  pub capacity_is : listening.queue.pcq_capacity ≡ capacity
  pub server : IsServer w' []
  pub files : IsEmpty w'.fs
  pub calls_are :
      w'.calls
      ≡ closes pipe
        ∷ opens name read_only
        ∷ opens name read_only
        ∷ makes_fifo name
        ∷ unlinks name
        ∷ w.calls

module _ (e : Env) (strtoul : List ℕ → ℕ) (queue_malloc : ℕ → Array Elem)
    (program name digits : List ℕ) (more : List (List ℕ)) (pipe : ℤ) (w : World)
    (fresh : w.list.size ≡ pos 0)
    (can_hold : CanHold (queue_malloc (strtoul digits * pointer_size % 2 ^ 64)) (strtoul digits))
    (creating : (c : Calls) → pipe_create e.os name c ≡ ok tt (makes_fifo name ∷ unlinks name ∷ c))
    (opening : Opens e.os name read_only pipe)
    (closing : (c : Calls) → is_negative (e.os.close c pipe) ≡ false) where
  given : ltb (length (program ∷ name ∷ digits ∷ more)) 2 ≡ false
  given = ground arith

  reopened :
      (u : World)
      → reopen e name u ≡ ok tt (record u { calls = closes pipe ∷ opens name read_only ∷ u.calls })
  unfolding reopen
  reopened u =
      rw
        (
          opening u.calls,
          close-done e.os pipe (opens name read_only ∷ u.calls)
              (closing (opens name read_only ∷ u.calls)),
        )
        refl

  after_start :
      (r : Types.Run ℤ)
      → Types.Ends (λ rc u. (rc ≡ pos 0) × IsValid u × IsEmpty u) r
      → Ends (Launched name pipe (strtoul digits) w) (
          and_then (from_fs (record w { list = list_init w.list }) r) λ started.
            if not (is_zero started) then pure none else do
              in_calls (pipe_create e.os name)
              register_pipe ← in_calls (pipe_open e.os name read_only)
              reopen e name
              pure (
                  some (record {
                    register_pipe = register_pipe;
                    queue = pcq_create queue_malloc (strtoul digits);
                  })))
  unfolding list_init pcq_create
  after_start (Types.ok rc u) (zero_rc, valid, empty) =
      rw
        (
          zero_rc,
          creating w.calls,
          opening (makes_fifo name ∷ unlinks name ∷ w.calls),
          reopened (record {
            fs = u;
            list = list_init w.list;
            nodes = w.nodes;
            calls = opens name read_only ∷ makes_fifo name ∷ unlinks name ∷ w.calls;
          }),
        )
        (record {
          listening = record {
            register_pipe = pipe;
            queue = pcq_create queue_malloc (strtoul digits);
          };
          result = refl;
          pipe_is = refl;
          queue_empty = λ address. created-Queued address queue_malloc (strtoul digits) can_hold;
          capacity_is = refl;
          server = record {
            files_valid = valid;
            boxes = record { chain = refl; apart = tt; tail_last = tt; count = fresh };
          };
          files = empty;
          calls_are = refl;
        })
  after_start Types.panic h = elim h [ ]
  after_start Types.fault h = elim h [ ]

params-CanStart : CanStart params
params-CanStart = record {
  some_inode = omega arith;
  some_block = omega arith;
  sized = omega arith;
  inode_limit = omega arith;
  block_limit = omega arith;
  open_limit = omega arith;
  size_limit = omega arith;
  data_limit = omega arith;
}

-- mbroker, called with the name of its pipe and a number of sessions for which the queue's buffer
-- has room (the number being at least 1 and below 2 ^ 64), if the file system is not initialised
-- and its six calls of `malloc` succeed with room for the bytes asked for, its pipe can be made,
-- opened and closed, and the size of the static list is zero: `main` comes to its loop with a
-- valid file system without open handles and with an empty directory, an empty list of boxes and
-- an empty queue of that capacity, after it made its pipe, opened it, and opened and closed it
-- once more.
pub main-Launched :
    (e : Env) (strtoul : List ℕ → ℕ) (m : Mallocs) (t : State) (queue_malloc : ℕ → Array Elem)
    (program name digits : List ℕ) (more : List (List ℕ)) (pipe : ℤ) (w : World)
    → w.list.size ≡ pos 0
    → w.fs.allocated ≡ false
    → t.params ≡ params
    → GivesRoom m
    → Succeeds m t
    → CanHold (queue_malloc (strtoul digits * pointer_size % 2 ^ 64)) (strtoul digits)
    → ((c : Calls) → pipe_create e.os name c ≡ ok tt (makes_fifo name ∷ unlinks name ∷ c))
    → Opens e.os name read_only pipe
    → ((c : Calls) → is_negative (e.os.close c pipe) ≡ false)
    → Ends
        (Launched name pipe (strtoul digits) w)
        (main e strtoul m queue_malloc (program ∷ name ∷ digits ∷ more) w)
unfolding main arg
main-Launched e strtoul m t queue_malloc program name digits more pipe w fresh not_started sizes
      gives done can_hold creating opening closing =
    rw
      (given e strtoul queue_malloc program name digits more pipe w fresh can_hold creating opening
        closing)
      (after_start e strtoul queue_malloc program name digits more pipe w fresh can_hold creating
        opening closing (tfs_init m (some params) w.fs)
        (subst
          (λ p.
            Types.Ends (λ rc u. (rc ≡ pos 0) × IsValid u × IsEmpty u) (tfs_init m (some p) w.fs))
          sizes
          (tfs_init-IsValid m t w.fs not_started gives done
            (subst CanStart (sym sizes) params-CanStart))))
