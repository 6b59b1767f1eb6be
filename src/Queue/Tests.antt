-- ===== src/Queue/Tests.antt =====
-- The theorems on producer-consumer/producer-consumer.c at a queue of two places.
use projeto_so.Base.{◌<◌, ◌≤◌, ◌≡◌, refl, some, List, [], ◌∷◌, ◌++◌, arith, length}
use projeto_so.Memory.{Array}
use projeto_so.Queue.{
  Elem, PcQueue, pcq_create, pcq_enqueue, pcq_dequeue, store_elem, fetch_elem, waits,
}
use projeto_so.Queue.Threads.{
  push_enters, push_goes_on, push_test, push_store, push_advance, pop_fetch, System, init, push,
  Reach, start, later,
}
use projeto_so.Queue.Invariant.{contents, with_elem}
use projeto_so.Queue.Steps.{QueueStep}
use projeto_so.Queue.Refinement.{
  CanHold, Step-refines-QueueStep, first_in_first_out, accesses_in_bounds,
}
use projeto_so.Queue.Calls.{Holds, Returns, calls-Holds}
use projeto_so.Queue.Waiting.{IsStuck, wake_up_lost}

abbrev buffer : Array Elem
buffer = record { size = 2; cell = λ i. 0 }

buffer-CanHold : CanHold buffer 2
buffer-CanHold = record { positive = omega arith; small = omega arith; room = omega arith }

-- A thread has passed the test of `pcq_enqueue` with the element 7.
abbrev about_to_store : System
about_to_store = record (init buffer 2) { pusher = push_store 7 }

reached : Reach buffer 2 about_to_store
unfolding pcq_create
reached = later (later start (push (push_enters 7 refl))) (push (push_goes_on 7 refl refl))

-- Element 5 stands in the second place, and the tail has wrapped.
abbrev one_item : PcQueue
one_item = record {
  pcq_buffer = record { size = 2; cell = λ i. 5 };
  pcq_capacity = 2;
  pcq_current_size = 1;
  pcq_head = 1;
  pcq_tail = 0;
}

abbrev items : List Elem
items = 5 ∷ []

one_item-Holds : Holds one_item (5 ∷ [])
one_item-Holds = record {
  inv = record {
    small = omega arith;
    room = omega arith;
    head_in = omega arith;
    tail_at = refl;
    push_room = omega arith;
    pop_room = omega arith;
    push_held = λ x e. cc;
    pop_held = λ x e. cc;
  };
  held = refl;
}

Step-refines-QueueStep_example :
    QueueStep 2
      (contents (init buffer 2))
      (contents (record (init buffer 2) { pusher = push_test 7 }))
unfolding pcq_create
Step-refines-QueueStep_example =
    Step-refines-QueueStep buffer-CanHold start (push (push_enters 7 refl))

first_in_first_out_example :
    (about_to_store.inserted ≡ about_to_store.removed ++ contents about_to_store)
    × (length (contents about_to_store) ≤ about_to_store.queue.pcq_capacity)
first_in_first_out_example = first_in_first_out buffer-CanHold reached

accesses_in_bounds_example :
    ((x : Elem)
      → about_to_store.pusher ≡ push_store x
      → (store_elem x about_to_store.queue ≡ some (with_elem about_to_store.queue x))
        × (contents (record about_to_store {
          queue = with_elem about_to_store.queue x;
          pusher = push_advance x;
        })
            ≡ contents about_to_store))
    × (about_to_store.popper ≡ pop_fetch
        → fetch_elem about_to_store.queue
          ≡ some (about_to_store.queue.pcq_buffer.cell about_to_store.queue.pcq_head))
accesses_in_bounds_example = accesses_in_bounds buffer-CanHold reached

calls-Holds_example :
    (length items ≡ one_item.pcq_capacity → pcq_enqueue 9 one_item ≡ waits)
    × (length items < one_item.pcq_capacity
        → Returns (λ r. Holds r (items ++ 9 ∷ [])) (pcq_enqueue 9 one_item))
    × (items ≡ [] → pcq_dequeue one_item ≡ waits)
    × ((y : Elem) (rest : List Elem)
        → items ≡ y ∷ rest
        → Returns (λ r. (r.0 ≡ y) × Holds r.1 rest) (pcq_dequeue one_item))
calls-Holds_example = calls-Holds one_item items 9 one_item-Holds

wake_up_lost_example :
    (s : System) × Reach buffer 2 s × IsStuck s × (s.inserted ≡ 7 ∷ []) × (s.removed ≡ [])
wake_up_lost_example = wake_up_lost buffer 2 7 buffer-CanHold
