-- ===== src/Queue/Threads.antt =====
-- The calls of the threads, interleaved at every access to the shared queue. `pcq_enqueue` holds
-- `pcq_pusher_condvar_lock` from its test to its end and `pcq_dequeue` holds
-- `pcq_popper_condvar_lock`, except while they wait, so at most one thread is inside each. Neither
-- holds the lock of the condition variable that it signals.
use projeto_so.Base.{ℕ, ◌+◌, ◌≡◌, true, false, some, List, [], ◌∷◌, ◌++◌}
use projeto_so.Memory.{Array}
use projeto_so.Queue.{
  Elem, PcQueue, pcq_create, is_full, is_empty, store_elem, advance_tail, count_up, fetch_elem,
  advance_head, count_down,
}

-- Where the thread inside `pcq_enqueue` stands: the next access, with the element it inserts.
pub data Pusher : Type 0 where
  push_free push_count push_signal push_leave : Pusher
  push_test push_sleep push_store push_advance : Elem → Pusher

-- Where the thread inside `pcq_dequeue` stands, with the element that it has read.
pub data Popper : Type 0 where
  pop_free pop_test pop_sleep pop_fetch : Popper
  pop_advance pop_count pop_signal pop_leave : Elem → Popper

-- The threads that wait on a condition variable, and those that have been woken and wait for the
-- lock. `inserted` and `removed` are the elements whose insertion and removal have moved the tail
-- and the head, in that order.
pub record System : Type 0 where
  pub queue : PcQueue
  pub pusher : Pusher
  pub popper : Popper
  pub push_asleep : List Elem
  pub push_woken : List Elem
  pub pop_asleep : ℕ
  pub pop_woken : ℕ
  pub inserted : List Elem
  pub removed : List Elem

-- After `pcq_create`, where `malloc` returned `buffer`.
abbrev pub init : Array Elem → ℕ → System
init buffer capacity = record {
  queue = pcq_create (λ n. buffer) capacity;
  pusher = push_free;
  popper = pop_free;
  push_asleep = [];
  push_woken = [];
  pop_asleep = 0;
  pop_woken = 0;
  inserted = [];
  removed = [];
}

-- One step of the thread inside `pcq_enqueue`, or of one that enters it or waits.
pub data PushStep (s : System) : System → Type 0 where
  push_enters : (x : Elem) → s.pusher ≡ push_free → PushStep s (record s { pusher = push_test x })
  push_waits :
      (x : Elem)
      → s.pusher ≡ push_test x
      → is_full s.queue ≡ true
      → PushStep s (record s { pusher = push_sleep x })
  push_sleeps :
      (x : Elem)
      → s.pusher ≡ push_sleep x
      → PushStep s (record s { pusher = push_free; push_asleep = x ∷ s.push_asleep })
  push_goes_on :
      (x : Elem)
      → s.pusher ≡ push_test x
      → is_full s.queue ≡ false
      → PushStep s (record s { pusher = push_store x })
  push_stores :
      (x : Elem) (q : PcQueue)
      → s.pusher ≡ push_store x
      → store_elem x s.queue ≡ some q
      → PushStep s (record s { queue = q; pusher = push_advance x })
  push_advances :
      (x : Elem)
      → s.pusher ≡ push_advance x
      → PushStep s (record s {
        queue = advance_tail s.queue;
        pusher = push_count;
        inserted = s.inserted ++ x ∷ [];
      })
  push_counts :
      s.pusher ≡ push_count
      → PushStep s (record s { queue = count_up s.queue; pusher = push_signal })
  push_signals :
      (n : ℕ)
      → s.pusher ≡ push_signal
      → s.pop_asleep ≡ n + 1
      → PushStep s (record s { pusher = push_leave; pop_asleep = n; pop_woken = s.pop_woken + 1 })
  push_signals_nobody :
      s.pusher ≡ push_signal → s.pop_asleep ≡ 0 → PushStep s (record s { pusher = push_leave })
  push_leaves : s.pusher ≡ push_leave → PushStep s (record s { pusher = push_free })
  push_wakes :
      (x : Elem) (before after : List Elem)
      → s.push_asleep ≡ before ++ x ∷ after
      → PushStep s (record s { push_asleep = before ++ after; push_woken = x ∷ s.push_woken })
  push_returns :
      (x : Elem) (before after : List Elem)
      → s.push_woken ≡ before ++ x ∷ after
      → s.pusher ≡ push_free
      → PushStep s (record s { pusher = push_test x; push_woken = before ++ after })

-- The same for `pcq_dequeue`. A thread that waits may also wake by itself.
pub data PopStep (s : System) : System → Type 0 where
  pop_enters : s.popper ≡ pop_free → PopStep s (record s { popper = pop_test })
  pop_waits :
      s.popper ≡ pop_test → is_empty s.queue ≡ true → PopStep s (record s { popper = pop_sleep })
  pop_sleeps :
      s.popper ≡ pop_sleep
      → PopStep s (record s { popper = pop_free; pop_asleep = s.pop_asleep + 1 })
  pop_goes_on :
      s.popper ≡ pop_test → is_empty s.queue ≡ false → PopStep s (record s { popper = pop_fetch })
  pop_fetches :
      (x : Elem)
      → s.popper ≡ pop_fetch
      → fetch_elem s.queue ≡ some x
      → PopStep s (record s { popper = pop_advance x })
  pop_advances :
      (x : Elem)
      → s.popper ≡ pop_advance x
      → PopStep s (record s {
        queue = advance_head s.queue;
        popper = pop_count x;
        removed = s.removed ++ x ∷ [];
      })
  pop_counts :
      (x : Elem)
      → s.popper ≡ pop_count x
      → PopStep s (record s { queue = count_down s.queue; popper = pop_signal x })
  pop_signals :
      (x y : Elem) (before after : List Elem)
      → s.popper ≡ pop_signal x
      → s.push_asleep ≡ before ++ y ∷ after
      → PopStep s (record s {
        popper = pop_leave x;
        push_asleep = before ++ after;
        push_woken = y ∷ s.push_woken;
      })
  pop_signals_nobody :
      (x : Elem)
      → s.popper ≡ pop_signal x
      → s.push_asleep ≡ []
      → PopStep s (record s { popper = pop_leave x })
  pop_leaves : (x : Elem) → s.popper ≡ pop_leave x → PopStep s (record s { popper = pop_free })
  pop_wakes :
      (n : ℕ)
      → s.pop_asleep ≡ n + 1
      → PopStep s (record s { pop_asleep = n; pop_woken = s.pop_woken + 1 })
  pop_returns :
      (n : ℕ)
      → s.pop_woken ≡ n + 1
      → s.popper ≡ pop_free
      → PopStep s (record s { popper = pop_test; pop_woken = n })

pub data Step (s : System) : System → Type 0 where
  push : {t : System} → PushStep s t → Step s t
  pop : {t : System} → PopStep s t → Step s t

pub data Reach (buffer : Array Elem) (capacity : ℕ) : System → Type 0 where
  start : Reach buffer capacity (init buffer capacity)
  later : {s t : System} → Reach buffer capacity s → Step s t → Reach buffer capacity t
