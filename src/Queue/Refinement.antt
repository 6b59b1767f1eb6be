-- ===== src/Queue/Refinement.antt =====
-- The states that the threads reach from an empty queue.
use projeto_so.Base.{ℕ, ◌^◌, ◌≤◌, ◌<◌, ◌≡◌, refl, sym, ◌∙◌, some, ◌++◌, arith, length, lt→ltb}
use projeto_so.Memory.{Array}
use projeto_so.Queue.{Elem, pcq_create, store_elem, fetch_elem}
use projeto_so.Queue.Ring.{length-window}
use projeto_so.Queue.Threads.{
  push_store, push_advance, pop_fetch, System, init, Step, Reach, start, later,
}
use projeto_so.Queue.Invariant.{
  level, contents, IsSafe, with_elem, store_elem-ok, uncounted-le-claim, tail_in,
}
use projeto_so.Queue.Contents.{ring-stored}
use projeto_so.Queue.Steps.{QueueStep, Step-Refines, pusher_at, was_pushing}

-- The buffer has room for the capacity, which is at least 1 and fits in a `size_t`.
pub record CanHold (buffer : Array Elem) (capacity : ℕ) : Type 0 where
  pub positive : 0 < capacity
  pub small : capacity < 2 ^ 64
  pub room : capacity ≤ buffer.size

pub init-IsSafe :
    (buffer : Array Elem) (capacity : ℕ) → CanHold buffer capacity → IsSafe (init buffer capacity)
unfolding pcq_create
init-IsSafe buffer capacity h = record {
  inv = record {
    small = h.small;
    room = h.room;
    head_in = h.positive;
    tail_at = ground (arith, h);
    push_room = omega arith;
    pop_room = omega arith;
    push_held = λ x e. cc;
    pop_held = λ x e. cc;
  };
  fifo = refl;
}

pub Reach-IsSafe :
    {buffer : Array Elem} {capacity : ℕ} {s : System}
    → CanHold buffer capacity
    → Reach buffer capacity s
    → IsSafe s
Reach-IsSafe h start = init-IsSafe _ _ h
Reach-IsSafe h (later {s} r st) = (Step-Refines s (Reach-IsSafe h r) st).0

module _ {buffer : Array Elem} {capacity : ℕ} {s : System} (h : CanHold buffer capacity)
    (r : Reach buffer capacity s) where
  -- If the buffer has room for the capacity, which is at least 1 and fits in a `size_t`, then,
  -- however the threads are interleaved, each access of `pcq_enqueue` and `pcq_dequeue` inserts
  -- one element at the end of a list of fewer elements than the capacity, or removes its first
  -- element, or leaves it as it is.
  pub Step-refines-QueueStep :
      {t : System} → Step s t → QueueStep s.queue.pcq_capacity (contents s) (contents t)
  Step-refines-QueueStep st = (Step-Refines s (Reach-IsSafe h r) st).1

  -- If the buffer has room for the capacity, which is at least 1 and fits in a `size_t`, then,
  -- however the threads are interleaved, the elements inserted so far are those removed so far,
  -- followed by those in the ring, in this order, and the ring holds at most the capacity.
  pub first_in_first_out :
      (s.inserted ≡ s.removed ++ contents s) × (length (contents s) ≤ s.queue.pcq_capacity)
  first_in_first_out =
      let v = Reach-IsSafe h r in
      (
        v.fifo,
        omega (
          arith,
          length-window s.queue.pcq_capacity s.queue.pcq_buffer.cell s.queue.pcq_head (level s),
          v.inv.push_room,
          uncounted-le-claim s.pusher,
        ),
      )

  -- If the buffer has room for the capacity, which is at least 1 and fits in a `size_t`
  -- (`pcq_create` tests neither, nor what `malloc` returned), then, however the threads are
  -- interleaved, a thread about to store an element, or to read one, does so inside the buffer,
  -- and the place that it stores to holds no element of the ring.
  pub accesses_in_bounds :
      ((x : Elem)
        → s.pusher ≡ push_store x
        → (store_elem x s.queue ≡ some (with_elem s.queue x))
          × (contents (record s { queue = with_elem s.queue x; pusher = push_advance x })
              ≡ contents s))
      × (s.popper ≡ pop_fetch
          → fetch_elem s.queue ≡ some (s.queue.pcq_buffer.cell s.queue.pcq_head))
  unfolding fetch_elem
  accesses_in_bounds =
      let v = Reach-IsSafe h r in
      (
        λ x e. (
          store_elem-ok s.queue x
              (omega (arith, tail_in s.queue s.pusher s.popper v.inv, v.inv.room)),
          ring-stored s.queue s.popper x (pusher_at s v e) ∙ sym (was_pushing s v e),
        ),
        λ e. rw (
            lt→ltb s.queue.pcq_head s.queue.pcq_buffer.size
              (omega (arith, v.inv.head_in, v.inv.room))),
      )
