-- ===== src/Queue.antt =====
-- The queue of requests, of producer-consumer/producer-consumer.c: a ring of pointers, and the two
-- calls on it as sequences of accesses.
pub mod Ring
pub mod Calls
pub mod Threads
pub mod Invariant
pub mod Contents
pub mod Steps
pub mod Refinement
pub mod Waiting
mod Tests
use projeto_so.Base.{
  ℕ, ◌*◌, ◌^◌, ◌%◌, Bool, true, false, Option, none, some, ltb, ◌==◌, if◌then◌else◌, add_size,
  sub_size,
}
use projeto_so.Memory.{Array, store}

-- A `void *`: an address.
abbrev pub Elem : Type 0
Elem = ℕ

-- `pc_queue_t`, without its mutexes and condition variables.
pub record PcQueue : Type 0 where
  pub pcq_buffer : Array Elem
  pub pcq_capacity : ℕ
  pub pcq_current_size : ℕ
  pub pcq_head : ℕ
  pub pcq_tail : ℕ

-- `sizeof(void *)`
abbrev pub pointer_size : ℕ
pointer_size = 8

-- `malloc` gives the array that the call returns for a number of bytes.
unfoldable pub pcq_create : (ℕ → Array Elem) → ℕ → PcQueue
pcq_create malloc capacity = record {
  pcq_buffer = malloc (capacity * pointer_size % 2 ^ 64);
  pcq_capacity = capacity;
  pcq_current_size = 0;
  pcq_head = 0;
  pcq_tail = 0;
}

-- The buffer is freed: no access to it is in bounds.
unfoldable pub pcq_destroy : PcQueue → PcQueue
pcq_destroy q = record q { pcq_buffer = record { size = 0; cell = q.pcq_buffer.cell } }

-- The tests of the two loops that wait.
abbrev pub is_full : PcQueue → Bool
is_full q = q.pcq_current_size == q.pcq_capacity

abbrev pub is_empty : PcQueue → Bool
is_empty q = q.pcq_current_size == 0

-- `pcq_buffer[pcq_tail] = elem`; `none` is an access out of bounds.
unfoldable pub store_elem : Elem → PcQueue → Option PcQueue
store_elem elem q =
    if ltb q.pcq_tail q.pcq_buffer.size
    then some (record q { pcq_buffer = store q.pcq_buffer q.pcq_tail elem })
    else none

unfoldable pub advance_tail : PcQueue → PcQueue
advance_tail q = record q { pcq_tail = add_size q.pcq_tail 1 % q.pcq_capacity }

unfoldable pub count_up : PcQueue → PcQueue
count_up q = record q { pcq_current_size = add_size q.pcq_current_size 1 }

-- `pcq_buffer[pcq_head]`
unfoldable pub fetch_elem : PcQueue → Option Elem
fetch_elem q =
    if ltb q.pcq_head q.pcq_buffer.size then some (q.pcq_buffer.cell q.pcq_head) else none

unfoldable pub advance_head : PcQueue → PcQueue
advance_head q = record q { pcq_head = add_size q.pcq_head 1 % q.pcq_capacity }

unfoldable pub count_down : PcQueue → PcQueue
count_down q = record q { pcq_current_size = sub_size q.pcq_current_size 1 }

-- A call that no other thread interrupts: it is done, or waits for another thread, or accesses
-- memory out of bounds.
pub data Call {ℓ} (A : Type ℓ) : Type ℓ where
  done : A → Call A
  waits : Call A
  fault : Call A

abbrev pub after_store : Option PcQueue → Call PcQueue
after_store none = fault
after_store (some q) = done (count_up (advance_tail q))

unfoldable pub pcq_enqueue : Elem → PcQueue → Call PcQueue
pcq_enqueue elem q = if is_full q then waits else after_store (store_elem elem q)

abbrev pub after_fetch : PcQueue → Option Elem → Call (Elem × PcQueue)
after_fetch q none = fault
after_fetch q (some item) = done (item, count_down (advance_head q))

unfoldable pub pcq_dequeue : PcQueue → Call (Elem × PcQueue)
pcq_dequeue q = if is_empty q then waits else after_fetch q (fetch_elem q)
