-- ===== src/Queue/Contents.antt =====
-- What each access does to the elements in the ring.
use projeto_so.Base.{
  ℕ, suc, ◌+◌, ◌-◌, ◌≡◌, refl, sym, ap, ◌∙◌, List, [], ◌∷◌, ◌++◌, arith, add_size, sub_size,
}
use projeto_so.Queue.{Elem, PcQueue, advance_tail, count_up, advance_head, count_down}
use projeto_so.Queue.Ring.{slot, window, window-update, window-pop, next_slot}
use projeto_so.Queue.Threads.{
  Pusher, push_count, push_signal, push_store, push_advance, Popper, pop_advance, pop_count,
  pop_signal,
}
use projeto_so.Queue.Invariant.{
  uncounted, overcounted, Inv, with_elem, uncounted-le-claim, overcounted-le-claim,
}

abbrev pub ring : PcQueue → Pusher → Popper → List Elem
ring q pusher popper =
    window q.pcq_capacity q.pcq_buffer.cell q.pcq_head
      (q.pcq_current_size + uncounted pusher - overcounted popper)

module _ (q : PcQueue) (popper : Popper) where
  pub ring-stored :
      (x : Elem)
      → Inv q (push_store x) popper
      → ring (with_elem q x) (push_advance x) popper ≡ ring q (push_store x) popper
  ring-stored x v =
      window-update q.pcq_capacity q.pcq_buffer.cell q.pcq_head q.pcq_tail
        (q.pcq_current_size + 0 - overcounted popper) (q.pcq_current_size + 0 - overcounted popper)
        x v.head_in (omega (arith, v.push_room)) (omega arith) v.tail_at

  pub ring-advanced :
      (x : Elem)
      → Inv q (push_advance x) popper
      → ring (advance_tail q) push_count popper ≡ ring q (push_advance x) popper ++ x ∷ []
  unfolding advance_tail
  ring-advanced x v =
      ap (window q.pcq_capacity q.pcq_buffer.cell q.pcq_head) one_more
      ∙ ap (λ y. ring q (push_advance x) popper ++ y ∷ [])
          (ap q.pcq_buffer.cell (sym v.tail_at) ∙ v.push_held x refl)
    where
      one_more :
          q.pcq_current_size + 1 - overcounted popper
          ≡ suc (q.pcq_current_size + 0 - overcounted popper)
      one_more = omega (arith, v.pop_room, overcounted-le-claim popper)

  pub ring-counted :
      Inv q push_count popper → ring (count_up q) push_signal popper ≡ ring q push_count popper
  unfolding count_up
  ring-counted v = ap (window q.pcq_capacity q.pcq_buffer.cell q.pcq_head) same_level
    where
      same_level :
          add_size q.pcq_current_size 1 + 0 - overcounted popper
          ≡ q.pcq_current_size + 1 - overcounted popper
      same_level = omega (arith, v.push_room, v.small)

module _ (q : PcQueue) (pusher : Pusher) where
  pub ring-removed :
      (x : Elem)
      → Inv q pusher (pop_advance x)
      → ring q pusher (pop_advance x) ≡ x ∷ ring (advance_head q) pusher (pop_count x)
  unfolding advance_head
  ring-removed x v =
      ap (window q.pcq_capacity q.pcq_buffer.cell q.pcq_head) one_more
      ∙ window-pop q.pcq_capacity q.pcq_buffer.cell q.pcq_head n v.head_in
          (omega (arith, v.push_room, v.pop_room, uncounted-le-claim pusher))
      ∙ ap (λ y. y ∷ window q.pcq_capacity q.pcq_buffer.cell (slot q.pcq_capacity q.pcq_head 1) n)
          (v.pop_held x refl)
      ∙ ap (λ h. x ∷ window q.pcq_capacity q.pcq_buffer.cell h n)
          (sym (next_slot q.pcq_capacity v.small q.pcq_head v.head_in))
    where
      n : ℕ
      n = q.pcq_current_size + uncounted pusher - 1

      one_more : q.pcq_current_size + uncounted pusher - 0 ≡ suc n
      one_more = omega (arith, v.pop_room)

  pub ring-discounted :
      (x : Elem)
      → Inv q pusher (pop_count x)
      → ring (count_down q) pusher (pop_signal x) ≡ ring q pusher (pop_count x)
  unfolding count_down
  ring-discounted x v = ap (window q.pcq_capacity q.pcq_buffer.cell q.pcq_head) same_level
    where
      same_level :
          sub_size q.pcq_current_size 1 + uncounted pusher - 0
          ≡ q.pcq_current_size + uncounted pusher - 1
      same_level = omega (arith, v.pop_room, v.push_room, v.small)
