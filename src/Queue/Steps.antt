-- ===== src/Queue/Steps.antt =====
-- The abstract queue, a list of bounded length, and each step of the threads as a step of it.
use projeto_so.Base.{ℕ, ◌+◌, ◌-◌, ◌<◌, ◌≡◌, refl, sym, ap, ◌∙◌, List, [], ◌∷◌, ◌++◌, arith, length}
use mathlib.Core.Path.{subst}
use mathlib.Core.List.{append_assoc}
use projeto_so.Queue.{Elem}
use projeto_so.Queue.Ring.{length-window}
use projeto_so.Queue.Threads.{
  Pusher, push_free, push_signal, push_leave, push_test, push_sleep, push_store, push_advance,
  Popper, pop_free, pop_test, pop_sleep, pop_fetch, pop_signal, pop_leave, System, PushStep,
  push_enters, push_waits, push_sleeps, push_goes_on, push_stores, push_advances, push_counts,
  push_signals, push_signals_nobody, push_leaves, push_wakes, push_returns, PopStep, pop_enters,
  pop_waits, pop_sleeps, pop_goes_on, pop_fetches, pop_advances, pop_counts, pop_signals,
  pop_signals_nobody, pop_leaves, pop_wakes, pop_returns, Step, push, pop,
}
use projeto_so.Queue.Invariant.{
  overcounted, contents, Inv, IsSafe, Fifo, store_elem-inv, fetch_elem-inv, stored-Inv,
  advanced-Inv, counted-Inv, fetched-Inv, removed-Inv, discounted-Inv, pusher-Inv, popper-Inv,
}
use projeto_so.Queue.Contents.{
  ring, ring-stored, ring-advanced, ring-counted, ring-removed, ring-discounted,
}

-- What the queue promises: at most `cap` elements, first in, first out.
pub data QueueStep (cap : ℕ) (items : List Elem) : List Elem → Type 0 where
  inserts : (x : Elem) → length items < cap → QueueStep cap items (items ++ x ∷ [])
  removes : (x : Elem) (rest : List Elem) → items ≡ x ∷ rest → QueueStep cap items rest
  rests : QueueStep cap items items

-- What a step from `s` to `t` comes to.
abbrev pub Refines : System → System → Type 0
Refines s t = IsSafe t × QueueStep s.queue.pcq_capacity (contents s) (contents t)

unchanged :
    (s t : System)
    → Fifo s
    → s.inserted ≡ t.inserted
    → s.removed ≡ t.removed
    → Inv t.queue t.pusher t.popper
    → contents t ≡ contents s
    → Refines s t
unchanged s t fifo ins rem inv same = (
  record {
    inv = inv;
    fifo = sym ins ∙ fifo ∙ ap (λ l. l ++ contents s) rem ∙ ap (λ l. t.removed ++ l) (sym same);
  },
  subst (QueueStep s.queue.pcq_capacity (contents s)) (sym same) rests,
)

module _ (s : System) (v : IsSafe s) where
  pub pusher_at : {p : Pusher} → s.pusher ≡ p → Inv s.queue p s.popper
  pusher_at e = subst (λ p. Inv s.queue p s.popper) e v.inv

  popper_at : {p : Popper} → s.popper ≡ p → Inv s.queue s.pusher p
  popper_at e = subst (λ p. Inv s.queue s.pusher p) e v.inv

  pub was_pushing : {p : Pusher} → s.pusher ≡ p → contents s ≡ ring s.queue p s.popper
  was_pushing e = ap (λ p. ring s.queue p s.popper) e

  was_popping : {p : Popper} → s.popper ≡ p → contents s ≡ ring s.queue s.pusher p
  was_popping e = ap (λ p. ring s.queue s.pusher p) e

  push-Refines : {t : System} → PushStep s t → Refines s t
  push-Refines (push_enters x e) =
      unchanged s _ v.fifo refl refl
        (pusher-Inv s.queue push_free (push_test x) s.popper refl (pusher_at e).push_room refl
          (pusher_at e))
        (sym (was_pushing e))
  push-Refines (push_waits x e full) =
      unchanged s _ v.fifo refl refl
        (pusher-Inv s.queue (push_test x) (push_sleep x) s.popper refl (pusher_at e).push_room refl
          (pusher_at e))
        (sym (was_pushing e))
  push-Refines (push_sleeps x e) =
      unchanged s _ v.fifo refl refl
        (pusher-Inv s.queue (push_sleep x) push_free s.popper refl (pusher_at e).push_room refl
          (pusher_at e))
        (sym (was_pushing e))
  push-Refines (push_goes_on x e room) =
      unchanged s _ v.fifo refl refl
        (pusher-Inv s.queue (push_test x) (push_store x) s.popper refl
          (ground (arith, (pusher_at e).push_room)) refl (pusher_at e))
        (sym (was_pushing e))
  push-Refines (push_stores x q e done) =
      subst (λ r. Refines s (record s { queue = r; pusher = push_advance x }))
        (sym (store_elem-inv s.queue x q done))
        (unchanged s _ v.fifo refl refl (stored-Inv s.queue s.popper x (pusher_at e))
          (ring-stored s.queue s.popper x (pusher_at e) ∙ sym (was_pushing e)))
  push-Refines (push_advances x e) =
      let w = pusher_at e in
      let grown =
        ring-advanced s.queue s.popper x w ∙ ap (λ l. l ++ x ∷ []) (sym (was_pushing e)) in
      (
        record {
          inv = advanced-Inv s.queue s.popper x w;
          fifo =
              ap (λ l. l ++ x ∷ []) v.fifo
              ∙ append_assoc s.removed (contents s) (x ∷ [])
              ∙ ap (λ l. s.removed ++ l) (sym grown);
        },
        subst (QueueStep s.queue.pcq_capacity (contents s)) (sym grown) (
            inserts x (
              omega (
                arith,
                ap length (was_pushing e),
                length-window s.queue.pcq_capacity s.queue.pcq_buffer.cell s.queue.pcq_head
                    (s.queue.pcq_current_size + 0 - overcounted s.popper),
                w.push_room,
              ))),
      )
  push-Refines (push_counts e) =
      unchanged s _ v.fifo refl refl (counted-Inv s.queue s.popper (pusher_at e))
        (ring-counted s.queue s.popper (pusher_at e) ∙ sym (was_pushing e))
  push-Refines (push_signals n e some_one) =
      unchanged s _ v.fifo refl refl
        (pusher-Inv s.queue push_signal push_leave s.popper refl (pusher_at e).push_room refl
          (pusher_at e))
        (sym (was_pushing e))
  push-Refines (push_signals_nobody e nobody) =
      unchanged s _ v.fifo refl refl
        (pusher-Inv s.queue push_signal push_leave s.popper refl (pusher_at e).push_room refl
          (pusher_at e))
        (sym (was_pushing e))
  push-Refines (push_leaves e) =
      unchanged s _ v.fifo refl refl
        (pusher-Inv s.queue push_leave push_free s.popper refl (pusher_at e).push_room refl
          (pusher_at e))
        (sym (was_pushing e))
  push-Refines (push_wakes x before after e) = unchanged s _ v.fifo refl refl v.inv refl
  push-Refines (push_returns x before after woken e) =
      unchanged s _ v.fifo refl refl
        (pusher-Inv s.queue push_free (push_test x) s.popper refl (pusher_at e).push_room refl
          (pusher_at e))
        (sym (was_pushing e))

  pop-Refines : {t : System} → PopStep s t → Refines s t
  pop-Refines (pop_enters e) =
      unchanged s _ v.fifo refl refl
        (popper-Inv s.queue s.pusher pop_free pop_test refl (popper_at e).pop_room refl
          (popper_at e))
        (sym (was_popping e))
  pop-Refines (pop_waits e empty) =
      unchanged s _ v.fifo refl refl
        (popper-Inv s.queue s.pusher pop_test pop_sleep refl (popper_at e).pop_room refl
          (popper_at e))
        (sym (was_popping e))
  pop-Refines (pop_sleeps e) =
      unchanged s _ v.fifo refl refl
        (popper-Inv s.queue s.pusher pop_sleep pop_free refl (popper_at e).pop_room refl
          (popper_at e))
        (sym (was_popping e))
  pop-Refines (pop_goes_on e some_left) =
      unchanged s _ v.fifo refl refl
        (popper-Inv s.queue s.pusher pop_test pop_fetch refl (ground arith) refl (popper_at e))
        (sym (was_popping e))
  pop-Refines (pop_fetches x e done) =
      unchanged s _ v.fifo refl refl
        (fetched-Inv s.queue s.pusher x (popper_at e) (fetch_elem-inv s.queue x done))
        (sym (was_popping e))
  pop-Refines (pop_advances x e) =
      let w = popper_at e in
      let shrunk = was_popping e ∙ ring-removed s.queue s.pusher x w in
      (
        record {
          inv = removed-Inv s.queue s.pusher x w;
          fifo = v.fifo ∙ ap (λ l. s.removed ++ l) shrunk ∙ sym (append_assoc s.removed (x ∷ []) _);
        },
        removes x _ shrunk,
      )
  pop-Refines (pop_counts x e) =
      unchanged s _ v.fifo refl refl (discounted-Inv s.queue s.pusher x (popper_at e))
        (ring-discounted s.queue s.pusher x (popper_at e) ∙ sym (was_popping e))
  pop-Refines (pop_signals x y before after e some_one) =
      unchanged s _ v.fifo refl refl
        (popper-Inv s.queue s.pusher (pop_signal x) (pop_leave x) refl (popper_at e).pop_room refl
          (popper_at e))
        (sym (was_popping e))
  pop-Refines (pop_signals_nobody x e nobody) =
      unchanged s _ v.fifo refl refl
        (popper-Inv s.queue s.pusher (pop_signal x) (pop_leave x) refl (popper_at e).pop_room refl
          (popper_at e))
        (sym (was_popping e))
  pop-Refines (pop_leaves x e) =
      unchanged s _ v.fifo refl refl
        (popper-Inv s.queue s.pusher (pop_leave x) pop_free refl (popper_at e).pop_room refl
          (popper_at e))
        (sym (was_popping e))
  pop-Refines (pop_wakes n e) = unchanged s _ v.fifo refl refl v.inv refl
  pop-Refines (pop_returns n woken e) =
      unchanged s _ v.fifo refl refl
        (popper-Inv s.queue s.pusher pop_free pop_test refl (popper_at e).pop_room refl
          (popper_at e))
        (sym (was_popping e))

  pub Step-Refines : {t : System} → Step s t → Refines s t
  Step-Refines (push st) = push-Refines st
  Step-Refines (pop st) = pop-Refines st
