-- ===== src/Queue/Calls.antt =====
-- The calls on the queue with no other thread inside: their refinement of a list.
use projeto_so.Base.{
  ◌+◌, ◌-◌, ◌<◌, ◌≡◌, refl, sym, ap, ◌∙◌, true, false, ltb, List, [], ◌∷◌, ◌++◌, arith, length,
  lt→ltb,
}
use projeto_so.Queue.{
  Elem, PcQueue, Call, done, waits, fault, pcq_enqueue, pcq_dequeue, is_full, is_empty, fetch_elem,
  advance_tail, advance_head,
}
use projeto_so.Queue.Ring.{length-window}
use projeto_so.Queue.Threads.{push_free, push_signal, push_store, pop_free, pop_fetch, pop_signal}
use projeto_so.Queue.Invariant.{
  Inv, with_elem, store_elem-ok, tail_in, stored-Inv, advanced-Inv, counted-Inv, fetched-Inv,
  removed-Inv, discounted-Inv, pusher-Inv, popper-Inv,
}
use projeto_so.Queue.Contents.{
  ring, ring-stored, ring-advanced, ring-counted, ring-removed, ring-discounted,
}

∷-eq : {x y : Elem} {xs ys : List Elem} → x ∷ xs ≡ y ∷ ys → (x ≡ y) × (xs ≡ ys)
∷-eq e = (cc, cc)

-- No thread is inside, and the ring holds the items.
pub record Holds (q : PcQueue) (items : List Elem) : Type 0 where
  pub inv : Inv q push_free pop_free
  pub held : ring q push_free pop_free ≡ items

-- What the call of a thread comes to.
abbrev pub Returns : {A : Type 0} → (A → Type 0) → Call A → Type 0
Returns P (done a) = P a
Returns P waits = ⊥
Returns P fault = ⊥

module _ {q : PcQueue} {items : List Elem} (h : Holds q items) where
  counted : length items ≡ q.pcq_current_size
  counted = omega (
    arith,
    ap length h.held,
    length-window q.pcq_capacity q.pcq_buffer.cell q.pcq_head (q.pcq_current_size + 0 - 0),
  )

  enqueued :
      (x : Elem)
      → length items < q.pcq_capacity
      → Returns (λ r. Holds r (items ++ x ∷ [])) (pcq_enqueue x q)
  unfolding pcq_enqueue
  enqueued x lt =
      let v1 =
        pusher-Inv q push_free (push_store x) pop_free refl (omega (arith, counted)) refl h.inv in
      let v2 = stored-Inv q pop_free x v1 in
      let v3 = advanced-Inv (with_elem q x) pop_free x v2 in
      let v4 = counted-Inv (advance_tail (with_elem q x)) pop_free v3 in
      rw (room, store_elem-ok q x (omega (arith, tail_in q push_free pop_free h.inv, h.inv.room)))
        (record {
          inv = pusher-Inv _ push_signal push_free pop_free refl v4.push_room refl v4;
          held =
              ring-counted (advance_tail (with_elem q x)) pop_free v3
              ∙ ring-advanced (with_elem q x) pop_free x v2
              ∙ ap (λ l. l ++ x ∷ []) (ring-stored q pop_free x v1 ∙ h.held);
        })
    where
      room : is_full q ≡ false
      room = ground (arith, counted)

  dequeued :
      (x : Elem) (rest : List Elem)
      → items ≡ x ∷ rest
      → Returns (λ r. (r.0 ≡ x) × Holds r.1 rest) (pcq_dequeue q)
  unfolding pcq_dequeue fetch_elem
  dequeued x rest e =
      let v1 =
        popper-Inv q push_free pop_free pop_fetch refl (omega (arith, counted, ap length e)) refl
          h.inv in
      let v2 = fetched-Inv q push_free first v1 refl in
      let v3 = removed-Inv q push_free first v2 in
      let v4 = discounted-Inv (advance_head q) push_free first v3 in
      let split = sym (ring-removed q push_free first v2) ∙ h.held ∙ e in
      rw (some_left, inside)
        (
          (∷-eq split).0,
          record {
            inv = popper-Inv _ push_free (pop_signal first) pop_free refl v4.pop_room refl v4;
            held = ring-discounted (advance_head q) push_free first v3 ∙ (∷-eq split).1;
          },
        )
    where
      first : Elem
      first = q.pcq_buffer.cell q.pcq_head

      some_left : is_empty q ≡ false
      some_left = ground (arith, counted, ap length e)

      inside : ltb q.pcq_head q.pcq_buffer.size ≡ true
      inside = lt→ltb q.pcq_head q.pcq_buffer.size (omega (arith, h.inv.head_in, h.inv.room))

-- On a queue that holds a list of items and that no other thread is inside, `pcq_enqueue` waits if
-- their number is the capacity and appends the element if it is less; `pcq_dequeue` waits if there
-- are none and otherwise returns the first and keeps the rest.
pub calls-Holds :
    (q : PcQueue) (items : List Elem) (x : Elem)
    → Holds q items
    → (length items ≡ q.pcq_capacity → pcq_enqueue x q ≡ waits)
      × (length items < q.pcq_capacity → Returns (λ r. Holds r (items ++ x ∷ [])) (pcq_enqueue x q))
      × (items ≡ [] → pcq_dequeue q ≡ waits)
      × ((y : Elem) (rest : List Elem)
          → items ≡ y ∷ rest
          → Returns (λ r. (r.0 ≡ y) × Holds r.1 rest) (pcq_dequeue q))
unfolding pcq_enqueue pcq_dequeue
calls-Holds q items x h = (
  λ full. ground (arith, counted h),
  λ room. enqueued h x room,
  λ none_left. ground (arith, counted h, ap length none_left),
  λ y rest e. dequeued h y rest e,
)
