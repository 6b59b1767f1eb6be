-- ===== src/Queue/Waiting.antt =====
-- A wake-up that is lost: `pcq_enqueue` signals without the lock that `pcq_dequeue` holds between
-- its test and its wait.
use projeto_so.Base.{ℕ, ◌≡◌, refl, false, [], ◌∷◌, arith}
use projeto_so.Memory.{Array}
use projeto_so.Queue.{Elem, PcQueue, pcq_create, is_empty, advance_tail, count_up}
use projeto_so.Queue.Threads.{
  push_free, pop_free, System, init, push_enters, push_goes_on, push_stores, push_advances,
  push_counts, push_signals_nobody, push_leaves, pop_enters, pop_waits, pop_sleeps, push, pop,
  Reach, start, later,
}
use projeto_so.Queue.Invariant.{with_elem, store_elem-ok}
use projeto_so.Queue.Refinement.{CanHold}

-- A thread waits in `pcq_dequeue`, no other thread is in a call, none is woken, and the queue is
-- not empty.
pub record IsStuck (s : System) : Type 0 where
  pub one_waits : s.pop_asleep ≡ 1
  pub not_woken : s.pop_woken ≡ 0
  pub no_pusher_waits : s.push_asleep ≡ []
  pub no_pusher_woken : s.push_woken ≡ []
  pub no_pusher : s.pusher ≡ push_free
  pub no_popper : s.popper ≡ pop_free
  pub not_empty : is_empty s.queue ≡ false

module _ (buffer : Array Elem) (capacity : ℕ) (x : Elem) (h : CanHold buffer capacity) where
  abbrev first : PcQueue
  first = pcq_create (λ n. buffer) capacity

  abbrev inserted_one : PcQueue
  inserted_one = count_up (advance_tail (with_elem first x))

  abbrev stuck : System
  stuck = record (init buffer capacity) { queue = inserted_one; pop_asleep = 1; inserted = x ∷ [] }

  stuck_reached : Reach buffer capacity stuck
  unfolding pcq_create
  stuck_reached =
      later
        (later
          (later
            (later
              (later
                (later
                  (later
                    (later (later (later start (pop (pop_enters refl))) (pop (pop_waits refl refl)))
                      (push (push_enters x refl)))
                    (push (push_goes_on x refl (ground (arith, h)))))
                  (push (
                    push_stores x (with_elem first x) refl
                      (store_elem-ok first x (omega (arith, h.positive, h.room))))))
                (push (push_advances x refl)))
              (push (push_counts refl)))
            (push (push_signals_nobody refl refl)))
          (push (push_leaves refl)))
        (pop (pop_sleeps refl))

  -- For each element, and each capacity of at least 1 that fits in a `size_t` and for which the
  -- buffer has room, the threads can get to where that element was inserted, none was removed, and
  -- one thread waits in `pcq_dequeue` although the queue is not empty. No thread has been woken,
  -- and none is in another call, which could wake it.
  pub wake_up_lost :
      (s : System) × Reach buffer capacity s × IsStuck s × (s.inserted ≡ x ∷ []) × (s.removed ≡ [])
  unfolding count_up pcq_create advance_tail
  wake_up_lost = (
    stuck,
    stuck_reached,
    record {
      one_waits = refl;
      not_woken = refl;
      no_pusher_waits = refl;
      no_pusher_woken = refl;
      no_pusher = refl;
      no_popper = refl;
      not_empty = refl;
    },
    refl,
    refl,
  )
