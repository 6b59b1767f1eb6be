-- ===== src/BoxList/Removing.antt =====
-- `list_remove` on a well-formed list.
use projeto_so.Base.{
  ◌≡◌, ◌≢◌, refl, sym, ap, ◌∙◌, some, none, [], ◌∷◌, ◌++◌, arith, length, length-append, pos,
}
use projeto_so.BoxList.{
  TfsFile, Ptr, null, ListNode, Nodes, BoxList, done, put, free, list_remove, int_pred,
}
use projeto_so.BoxList.Chains.{
  Cells, Chain, Fresh, Apart, Ends, load-done, put-same, put-other, put-Chain, differ,
}
use projeto_so.BoxList.Adding.{IsBoxList, set_next-done}

-- The address of the last cell, or NULL.
abbrev pub last_address : Cells → Ptr
last_address [] = null
last_address ((b, g) ∷ []) = b
last_address (c ∷ d ∷ cells) = last_address (d ∷ cells)

pub free-done :
    (m : Nodes) (a : Ptr) {n : ListNode}
    → a ≢ null
    → m a ≡ some n
    → free a m ≡ done tt (put m a none)
unfolding free
free-done m a ne e = rw (differ a null ne, load-done m a ne e) refl

module _ (a : Ptr) (f : TfsFile) (after : Cells) where
  not_here : (x : Ptr) (cells : Cells) → Fresh x (cells ++ (a, f) ∷ after) → x ≢ a
  not_here x [] away = away.0
  not_here x (c ∷ cells) away = not_here x cells away.1

  not_last :
      (x : Ptr) (c : Ptr × TfsFile) (cells : Cells)
      → Fresh x ((c ∷ cells) ++ (a, f) ∷ after)
      → x ≢ last_address (c ∷ cells)
  not_last x c [] away = away.0
  not_last x c (d ∷ cells) away = not_last x d cells away.1

  -- The memory with node `b` linked to `n` and node `a` freed.
  abbrev bypassed : Nodes → Ptr → ListNode → Ptr → Nodes
  bypassed m b node n = put (put m b (some (record node { next = n }))) a none

  bypassed_other :
      (m : Nodes) (b x : Ptr) (node : ListNode) (n : Ptr)
      → x ≢ b
      → x ≢ a
      → bypassed m b node n x ≡ m x
  bypassed_other m b x node n ne ne' =
      put-other (put m b _) a x none (λ e. ne' (sym e)) ∙ put-other m b x _ (λ e. ne (sym e))

  bypass :
      (m : Nodes) (p : Ptr) (c : Ptr × TfsFile) (before : Cells)
      → Chain m p ((c ∷ before) ++ (a, f) ∷ after)
      → Apart ((c ∷ before) ++ (a, f) ∷ after)
      → (node : ListNode) × (n : Ptr) × (last_address (c ∷ before) ≢ null)
        × (m (last_address (c ∷ before)) ≡ some node)
        × (a ≢ null)
        × (m a ≡ some (record { file = f; next = n }))
        × (last_address (c ∷ before) ≢ a)
        × Chain (bypassed m (last_address (c ∷ before)) node n) p ((c ∷ before) ++ after)
  bypass m p (b, g) [] (nb, here, b_ne, b_holds, (n, at, a_ne, a_holds, rest)) apart = (
    record { file = g; next = nb },
    n,
    b_ne,
    b_holds,
    a_ne,
    a_holds,
    apart.0.0,
    (
      n,
      here,
      b_ne,
      put-other (put m b _) a b none (λ e. apart.0.0 (sym e)) ∙ put-same m b _,
      put-Chain (put m b _) a none n after apart.1.0 (put-Chain m b _ n after apart.0.1 rest),
    ),
  )
  bypass m p (x, g) (d ∷ before) (nx, here, x_ne, x_holds, rest) apart =
      let (node, n, b_ne, b_holds, a_ne, a_holds, b_a, chain) = bypass m nx d before rest apart.1 in
      (
        node,
        n,
        b_ne,
        b_holds,
        a_ne,
        a_holds,
        b_a,
        (
          nx,
          here,
          x_ne,
          bypassed_other m (last_address (d ∷ before)) x node n (not_last x d before apart.0)
                (not_here x (d ∷ before) apart.0)
              ∙ x_holds,
          chain,
        ),
      )

-- What removing the node `a` leaves: the other cells in their order, the node freed, the size one
-- lower, and the tail as it was.
pub record Removed (l : BoxList) (a : Ptr) (cells : Cells) (l' : BoxList) (m' : Nodes)
    : Type 0 where
  pub chain : Chain m' l'.head cells
  pub freed : m' a ≡ none
  pub count : l'.size ≡ pos (length cells)
  pub tail_kept : l'.tail ≡ l.tail

module _ (m : Nodes) (l : BoxList) (a : Ptr) (f : TfsFile) (after : Cells) where
  removed :
      (before : Cells)
      → IsBoxList m l (before ++ (a, f) ∷ after)
      → Ends
          (λ l' m'. Removed l a (before ++ after) l' m')
          (list_remove (last_address before) a l m)
  unfolding list_remove
  removed [] w =
      let (n, here, a_ne, a_holds, rest) = w.chain in
      rw (differ a null a_ne, load-done m a a_ne a_holds, free-done m a a_ne a_holds)
        (record {
          chain = put-Chain m a none n after w.apart.0 rest;
          freed = put-same m a none;
          count = ap int_pred w.count;
          tail_kept = refl;
        })
  removed (c ∷ before) w =
      let (node, n, b_ne, b_holds, a_ne, a_holds, b_a, chain) =
        bypass a f after m l.head c before w.chain w.apart in
      rw
        (
          differ a null a_ne,
          load-done m a a_ne a_holds,
          differ (last_address (c ∷ before)) null b_ne,
          set_next-done m (last_address (c ∷ before)) n b_ne b_holds,
          free-done (put m (last_address (c ∷ before)) (some (record node { next = n }))) a a_ne
              (put-other m (last_address (c ∷ before)) a _ b_a ∙ a_holds),
        )
        (record {
          chain = chain;
          freed = put-same _ a none;
          count =
              ap int_pred w.count
              ∙ ap pos (
                  omega (arith, length-append before ((a, f) ∷ after), length-append before after));
          tail_kept = refl;
        })

-- `list_remove` of a node and the node before it, or NULL if the node is the head, ends without an
-- invalid access, leads through the other nodes in their order, has freed the node, and counts one
-- node less. The tail stays as it was, also if the node was the last.
pub list_remove-Removed :
    (m : Nodes) (l : BoxList) (a : Ptr) (f : TfsFile) (before after : Cells)
    → IsBoxList m l (before ++ (a, f) ∷ after)
    → Ends (λ l' m'. Removed l a (before ++ after) l' m') (list_remove (last_address before) a l m)
list_remove-Removed m l a f before after w = removed m l a f after before w
