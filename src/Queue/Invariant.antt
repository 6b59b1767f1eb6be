-- ===== src/Queue/Invariant.antt =====
-- What holds between any two accesses.
use projeto_so.Base.{
  ℕ, ◌+◌, ◌-◌, ◌%◌, ◌^◌, ◌≤◌, ◌<◌, ◌≡◌, refl, ap, ◌∙◌, Option, none, some, List, ◌++◌, arith,
  add_size, sub_size,
}
use projeto_so.Memory.{store}
use projeto_so.Queue.{
  Elem, PcQueue, store_elem, advance_tail, count_up, fetch_elem, advance_head, count_down,
}
use projeto_so.Queue.Ring.{slot, window, next_slot}
use projeto_so.Queue.Threads.{
  Pusher, push_free, push_count, push_signal, push_leave, push_test, push_sleep, push_store,
  push_advance, Popper, pop_free, pop_test, pop_sleep, pop_fetch, pop_advance, pop_count,
  pop_signal, pop_leave, System,
}

-- An element that is in the ring and not yet counted, or counted and no longer in the ring.
abbrev pub uncounted : Pusher → ℕ
uncounted push_count = 1
uncounted _ = 0

abbrev pub overcounted : Popper → ℕ
overcounted (pop_count x) = 1
overcounted _ = 0

-- How many elements the ring holds.
abbrev pub level : System → ℕ
level s = s.queue.pcq_current_size + uncounted s.pusher - overcounted s.popper

-- The elements in the ring, oldest first.
abbrev pub contents : System → List Elem
contents s = window s.queue.pcq_capacity s.queue.pcq_buffer.cell s.queue.pcq_head (level s)

-- The place that the thread inside `pcq_enqueue` may rely on since its test, and the element that
-- it has stored at the tail.
abbrev pub push_claim : Pusher → ℕ
push_claim (push_store x) = 1
push_claim (push_advance x) = 1
push_claim push_count = 1
push_claim _ = 0

abbrev pub push_holds : Pusher → Option Elem
push_holds (push_advance x) = some x
push_holds _ = none

-- The element that the thread inside `pcq_dequeue` may rely on since its test, and the one that it
-- has read at the head.
abbrev pub pop_claim : Popper → ℕ
pop_claim pop_fetch = 1
pop_claim (pop_advance x) = 1
pop_claim (pop_count x) = 1
pop_claim _ = 0

abbrev pub pop_holds : Popper → Option Elem
pop_holds (pop_advance x) = some x
pop_holds _ = none

-- The invariant of the queue, at the places of the threads inside.
pub record Inv (q : PcQueue) (pusher : Pusher) (popper : Popper) : Type 0 where
  pub small : q.pcq_capacity < 2 ^ 64
  pub room : q.pcq_capacity ≤ q.pcq_buffer.size
  pub head_in : q.pcq_head < q.pcq_capacity
  pub tail_at :
      q.pcq_tail
      ≡ slot q.pcq_capacity q.pcq_head (q.pcq_current_size + uncounted pusher - overcounted popper)
  pub push_room : q.pcq_current_size + push_claim pusher ≤ q.pcq_capacity
  pub pop_room : pop_claim popper ≤ q.pcq_current_size
  pub push_held : (x : Elem) → push_holds pusher ≡ some x → q.pcq_buffer.cell q.pcq_tail ≡ x
  pub pop_held : (x : Elem) → pop_holds popper ≡ some x → q.pcq_buffer.cell q.pcq_head ≡ x

-- The elements inserted are those removed and those in the ring, in that order.
abbrev pub Fifo : System → Type 0
Fifo s = s.inserted ≡ s.removed ++ contents s

pub record IsSafe (s : System) : Type 0 where
  pub inv : Inv s.queue s.pusher s.popper
  pub fifo : Fifo s

pub uncounted-le-claim : (p : Pusher) → uncounted p ≤ push_claim p
uncounted-le-claim push_free = omega arith
uncounted-le-claim push_count = omega arith
uncounted-le-claim push_signal = omega arith
uncounted-le-claim push_leave = omega arith
uncounted-le-claim (push_test x) = omega arith
uncounted-le-claim (push_sleep x) = omega arith
uncounted-le-claim (push_store x) = omega arith
uncounted-le-claim (push_advance x) = omega arith

pub overcounted-le-claim : (p : Popper) → overcounted p ≤ pop_claim p
overcounted-le-claim pop_free = omega arith
overcounted-le-claim pop_test = omega arith
overcounted-le-claim pop_sleep = omega arith
overcounted-le-claim pop_fetch = omega arith
overcounted-le-claim (pop_advance x) = omega arith
overcounted-le-claim (pop_count x) = omega arith
overcounted-le-claim (pop_signal x) = omega arith
overcounted-le-claim (pop_leave x) = omega arith

holding : (p : Popper) (x : Elem) → pop_holds p ≡ some x → (overcounted p ≡ 0) × (pop_claim p ≡ 1)
holding pop_free x e = cc
holding pop_test x e = cc
holding pop_sleep x e = cc
holding pop_fetch x e = cc
holding (pop_advance y) x e = (refl, refl)
holding (pop_count y) x e = cc
holding (pop_signal y) x e = cc
holding (pop_leave y) x e = cc

-- The queue after each access.
module _ (q : PcQueue) where
  abbrev pub with_elem : Elem → PcQueue
  with_elem x = record q { pcq_buffer = store q.pcq_buffer q.pcq_tail x }

  pub store_elem-ok :
      (x : Elem) → q.pcq_tail < q.pcq_buffer.size → store_elem x q ≡ some (with_elem x)
  unfolding store_elem
  store_elem-ok x lt = ground arith

  pub store_elem-inv : (x : Elem) (q' : PcQueue) → store_elem x q ≡ some q' → q' ≡ with_elem x
  unfolding store_elem
  store_elem-inv x q' e = ground arith

  pub fetch_elem-inv : (x : Elem) → fetch_elem q ≡ some x → q.pcq_buffer.cell q.pcq_head ≡ x
  unfolding fetch_elem
  fetch_elem-inv x e = ground arith

  pub tail_in :
      (pusher : Pusher) (popper : Popper) → Inv q pusher popper → q.pcq_tail < q.pcq_capacity
  tail_in pusher popper v = ground (arith, v)

  module _ (popper : Popper) where
    pub stored-Inv :
        (x : Elem) → Inv q (push_store x) popper → Inv (with_elem x) (push_advance x) popper
    stored-Inv x v = record {
      small = v.small;
      room = v.room;
      head_in = v.head_in;
      tail_at = v.tail_at;
      push_room = v.push_room;
      pop_room = v.pop_room;
      push_held = λ y e. ground arith;
      pop_held = λ y e. ground (arith, v, v.pop_held y e, holding popper y e);
    }

    pub advanced-Inv :
        (x : Elem) → Inv q (push_advance x) popper → Inv (advance_tail q) push_count popper
    unfolding advance_tail
    advanced-Inv x v = record {
      small = v.small;
      room = v.room;
      head_in = v.head_in;
      tail_at =
          next_slot q.pcq_capacity v.small q.pcq_tail (tail_in (push_advance x) popper v)
          ∙ ground (arith, v, overcounted-le-claim popper);
      push_room = v.push_room;
      pop_room = v.pop_room;
      push_held = λ y e. cc;
      pop_held = v.pop_held;
    }

    pub counted-Inv : Inv q push_count popper → Inv (count_up q) push_signal popper
    unfolding count_up
    counted-Inv v = record {
      small = v.small;
      room = v.room;
      head_in = v.head_in;
      tail_at = rw no_wrap (v.tail_at ∙ ap (slot q.pcq_capacity q.pcq_head) (omega arith));
      push_room = rw no_wrap (omega (arith, v.push_room));
      pop_room = rw no_wrap (omega (arith, v.pop_room));
      push_held = λ y e. cc;
      pop_held = v.pop_held;
    }
      where
        no_wrap : add_size q.pcq_current_size 1 ≡ q.pcq_current_size + 1
        no_wrap = omega (arith, v.push_room, v.small)

  module _ (pusher : Pusher) where
    pub fetched-Inv :
        (x : Elem)
        → Inv q pusher pop_fetch
        → q.pcq_buffer.cell q.pcq_head ≡ x
        → Inv q pusher (pop_advance x)
    fetched-Inv x v e = record {
      small = v.small;
      room = v.room;
      head_in = v.head_in;
      tail_at = v.tail_at;
      push_room = v.push_room;
      pop_room = v.pop_room;
      push_held = v.push_held;
      pop_held = λ y p. ground arith;
    }

    pub removed-Inv :
        (x : Elem) → Inv q pusher (pop_advance x) → Inv (advance_head q) pusher (pop_count x)
    unfolding advance_head
    removed-Inv x v = record {
      small = v.small;
      room = v.room;
      head_in = rw moved (ground (arith, v));
      tail_at = rw moved (ground (arith, v, uncounted-le-claim pusher));
      push_room = v.push_room;
      pop_room = v.pop_room;
      push_held = v.push_held;
      pop_held = λ y e. cc;
    }
      where
        moved : add_size q.pcq_head 1 % q.pcq_capacity ≡ slot q.pcq_capacity q.pcq_head 1
        moved = next_slot q.pcq_capacity v.small q.pcq_head v.head_in

    pub discounted-Inv :
        (x : Elem) → Inv q pusher (pop_count x) → Inv (count_down q) pusher (pop_signal x)
    unfolding count_down
    discounted-Inv x v = record {
      small = v.small;
      room = v.room;
      head_in = v.head_in;
      tail_at =
          rw no_wrap (v.tail_at ∙ ap (slot q.pcq_capacity q.pcq_head) (omega (arith, v.pop_room)));
      push_room = rw no_wrap (omega (arith, v.push_room));
      pop_room = rw no_wrap (omega arith);
      push_held = v.push_held;
      pop_held = λ y e. cc;
    }
      where
        no_wrap : sub_size q.pcq_current_size 1 ≡ q.pcq_current_size - 1
        no_wrap = omega (arith, v.push_room, v.pop_room, v.small)

  -- A thread inside that only goes on.
  pub pusher-Inv :
      (pusher pusher' : Pusher) (popper : Popper)
      → uncounted pusher' ≡ uncounted pusher
      → q.pcq_current_size + push_claim pusher' ≤ q.pcq_capacity
      → push_holds pusher' ≡ none
      → Inv q pusher popper
      → Inv q pusher' popper
  pusher-Inv pusher pusher' popper e room_left nothing v = record {
    small = v.small;
    room = v.room;
    head_in = v.head_in;
    tail_at = v.tail_at ∙ ap (slot q.pcq_capacity q.pcq_head) (omega (arith, e));
    push_room = room_left;
    pop_room = v.pop_room;
    push_held = λ x h. cc;
    pop_held = v.pop_held;
  }

  pub popper-Inv :
      (pusher : Pusher) (popper popper' : Popper)
      → overcounted popper' ≡ overcounted popper
      → pop_claim popper' ≤ q.pcq_current_size
      → pop_holds popper' ≡ none
      → Inv q pusher popper
      → Inv q pusher popper'
  popper-Inv pusher popper popper' e some_left nothing v = record {
    small = v.small;
    room = v.room;
    head_in = v.head_in;
    tail_at = v.tail_at ∙ ap (slot q.pcq_capacity q.pcq_head) (omega (arith, e));
    push_room = v.push_room;
    pop_room = some_left;
    push_held = v.push_held;
    pop_held = λ x h. cc;
  }
