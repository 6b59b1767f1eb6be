-- ===== src/Broker/Requests.antt =====
-- The requests in the queue.
use projeto_so.Base.{
  Bool, true, false, ℕ, zero, suc, ◌+◌, ◌*◌, ◌%◌, ◌^◌, ◌≤◌, ◌≡◌, refl, ap, ◌∙◌, sym, some, List, [],
  ◌∷◌, ◌++◌, arith, length, ◌≢◌,
}
use mathlib.Core.Path.{subst}
use native.Mathlib.Decide.{dec_lt}
use projeto_so.Queue as Queue
use projeto_so.Queue.{Elem, PcQueue, Call, pcq_enqueue, pcq_dequeue}
use projeto_so.Memory.{Array}
use projeto_so.Queue.Refinement.{CanHold, init-IsSafe}
use projeto_so.Queue.Calls.{Holds, Returns, calls-Holds}
use projeto_so.Broker.{Env}
use projeto_so.Broker.Main.{
  Server, received, enqueued, handled, reopened, Reach, started, one_received, one_enqueued,
  one_handled, one_reopened, packet_at,
}

-- `n` times the same address.
abbrev pub copies : ℕ → Elem → List Elem
copies zero a = []
copies (suc n) a = a ∷ copies n a

length-copies : (n : ℕ) (a : Elem) → length (copies n a) ≡ n
length-copies zero a = refl
length-copies (suc n) a = ap suc (length-copies n a)

copies_end : (n : ℕ) (a : Elem) → copies n a ++ a ∷ [] ≡ copies (suc n) a
copies_end zero a = refl
copies_end (suc n) a = ap (◌∷◌ a) (copies_end n a)

-- The queue holds `n` requests: `n` times the address of the one packet.
pub record Queued (address : Elem) (n : ℕ) (q : PcQueue) : Type 0 where
  pub held : Holds q (copies n address)
  pub within : n ≤ q.pcq_capacity

returned : {A : Type 0} (P : A → Type 0) (c : Call A) (a : A) → Returns P c → c ≡ Queue.done a → P a
returned P (Queue.done b) a p e = subst P (cc) p
returned P Queue.waits a p e = elim p [ ]
returned P Queue.fault a p e = elim p [ ]

-- Neither call changes the capacity.
enqueue_capacity :
    (q r : PcQueue) (x : Elem) → pcq_enqueue x q ≡ Queue.done r → r.pcq_capacity ≡ q.pcq_capacity
unfolding pcq_enqueue Queue.store_elem Queue.advance_tail Queue.count_up
enqueue_capacity q r x run = ground arith

dequeue_capacity :
    (q r : PcQueue) (x : Elem) → pcq_dequeue q ≡ Queue.done (x, r) → r.pcq_capacity ≡ q.pcq_capacity
unfolding pcq_dequeue Queue.fetch_elem Queue.advance_head Queue.count_down
dequeue_capacity q r x run = ground arith

waits-ne-done : {A : Type 0} {a : A} → Queue.waits ≢ Queue.done a
waits-ne-done e = cc

enqueue-Queued :
    (address : Elem) (n : ℕ) (q r : PcQueue)
    → Queued address n q
    → pcq_enqueue address q ≡ Queue.done r
    → Queued address (suc n) r
enqueue-Queued address n q r queued run = elim (dec_lt n q.pcq_capacity) [
  | yes lt ↦ record {
    held = subst (Holds r) (copies_end n address) (
        returned (λ t. Holds t (copies n address ++ address ∷ [])) (pcq_enqueue address q) r
          ((calls-Holds q (copies n address) address queued.held).1
            (omega (arith, lt, length-copies n address)))
          run);
    within = omega (arith, lt, enqueue_capacity q r address run);
  }
  | no ge ↦ absurd (
      waits-ne-done (
        sym (
          (calls-Holds q (copies n address) address queued.held).0
            (omega (arith, ge, queued.within, length-copies n address)))
        ∙ run))
]

dequeue-Queued :
    (address : Elem) (n : ℕ) (q : PcQueue) (item : Elem) (r : PcQueue)
    → Queued address n q
    → pcq_dequeue q ≡ Queue.done (item, r)
    → (m : ℕ) × (n ≡ suc m) × (item ≡ address) × Queued address m r
dequeue-Queued address zero q item r queued run =
    absurd (waits-ne-done (sym ((calls-Holds q [] address queued.held).2 refl) ∙ run))
dequeue-Queued address (suc n) q item r queued run =
    let (first, rest) =
      returned (λ t. (t.0 ≡ address) × Holds t.1 (copies n address)) (pcq_dequeue q) (item, r)
        ((calls-Holds q (copies (suc n) address) address queued.held).3 address (copies n address)
          refl)
        run in
    (
      n,
      refl,
      first,
      record { held = rest; within = omega (arith, queued.within, dequeue_capacity q r item run) },
    )

-- The request that `main` has read and not yet put into the queue.
abbrev pub pending : Bool → ℕ
pending false = 0
pending true = 1

pending-false : {b : Bool} → b ≡ false → pending b ≡ 0
pending-false e = rw e refl

pending-true : {b : Bool} → b ≡ true → pending b ≡ 1
pending-true e = rw e refl

-- After `r` requests were received and `h` handled.
Reach-Queued :
    {e : Env} {name : List ℕ} {address : Elem} {s : Server}
    → Queued address 0 s.queue
    → s.to_enqueue ≡ false
    → (r h : ℕ) (t : Server) → Reach e name address s r h t
    → (n : ℕ) × (r ≡ h + n + pending t.to_enqueue) × Queued address n t.queue
Reach-Queued empty idle _ _ _ started = (0, omega (arith, pending-false idle), empty)
Reach-Queued empty idle _ h _
      (one_received {r} packet before (received n p calls free read positive)) =
    let (n, sum, queued) = Reach-Queued empty idle r h _ before in
    (n, omega (arith, sum, pending-false free), queued)
Reach-Queued empty idle r h _ (one_enqueued before (enqueued q busy run)) =
    let (n, sum, queued) = Reach-Queued empty idle r h _ before in
    (suc n, omega (arith, sum, pending-true busy), enqueue-Queued _ n _ q queued run)
Reach-Queued empty idle r _ _
      (one_handled {h = h} request before (handled item q p session w run found work)) =
    let (n, sum, queued) = Reach-Queued empty idle r h _ before in
    let (m, one_less, same, rest) = dequeue-Queued _ n _ item q queued run in
    (m, omega (arith, sum, one_less), rest)
Reach-Queued empty idle r h _ (one_reopened before (reopened n p calls w free read none_left run)) =
    Reach-Queued empty idle r h _ before

pub created-Queued :
    (address : Elem) (malloc : ℕ → Array Elem) (capacity : ℕ)
    → CanHold (malloc (capacity * Queue.pointer_size % 2 ^ 64)) capacity
    → Queued address 0 (Queue.pcq_create malloc capacity)
unfolding Queue.pcq_create
created-Queued address malloc capacity can = record {
  held = record {
    inv = (init-IsSafe (malloc (capacity * Queue.pointer_size % 2 ^ 64)) capacity can).inv;
    held = refl;
  };
  within = omega arith;
}

-- Once a server whose queue was empty, with no request read, has received `r` requests and handled
-- `h`, its queue holds `r - h` times the address of the one packet that all requests are read
-- into, or once less while `main` is in `pcq_enqueue`, and that is at most its capacity; a worker
-- that takes an address from it finds what that packet holds then, whichever request the address
-- was queued for.
pub reached-Queued :
    {e : Env} {name : List ℕ} {address : Elem} {s t : Server} {r h : ℕ}
    → Queued address 0 s.queue
    → s.to_enqueue ≡ false
    → Reach e name address s r h t
    → (n : ℕ) × (r ≡ h + n + pending t.to_enqueue)
      × (n ≤ t.queue.pcq_capacity)
      × Holds t.queue (copies n address)
      × ((item : Elem) (q : PcQueue)
          → pcq_dequeue t.queue ≡ Queue.done (item, q)
          → packet_at address t.packet item ≡ some t.packet)
reached-Queued {address = address} {t = t} {r} {h} empty idle reach =
    let (n, sum, queued) = Reach-Queued empty idle r h t reach in
    (
      n,
      sum,
      queued.within,
      queued.held,
      λ item q run.
          let (m, one_less, same, rest) = dequeue-Queued address n t.queue item q queued run in
          ground (arith, same),
    )
