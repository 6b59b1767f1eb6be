-- ===== src/BoxList/Adding.antt =====
-- A well-formed list, and `list_add`.
use projeto_so.Base.{
  ◌≡◌, ◌≢◌, refl, sym, ap, ◌∙◌, some, none, [], ◌∷◌, ◌++◌, arith, length, length-append, pos,
}
use mathlib.Core.Path.{subst}
use projeto_so.BoxList.{
  TfsFile, Ptr, null, ListNode, Nodes, BoxList, done, put, set_next, new_node, list_add,
}
use projeto_so.BoxList.Chains.{
  Cells, Chain, Fresh, Apart, Ends, step, load-done, save-done, put-same, put-other, put-Chain,
  differ,
}

-- The last cell, if there is one, has the address.
abbrev pub EndsAt : Ptr → Cells → Type 0
EndsAt t [] = Unit {0}
EndsAt t ((a, f) ∷ []) = t ≡ a
EndsAt t (c ∷ d ∷ cells) = EndsAt t (d ∷ cells)

-- The list has the cells: its pointers lead through different nodes, the tail is the last, and the
-- size is their number.
pub record IsBoxList (m : Nodes) (l : BoxList) (cells : Cells) : Type 0 where
  pub chain : Chain m l.head cells
  pub apart : Apart cells
  pub tail_last : EndsAt l.tail cells
  pub count : l.size ≡ pos (length cells)

unallocated-Fresh :
    (m : Nodes) (a p : Ptr) (cells : Cells) → m a ≡ none → Chain m p cells → Fresh a cells
unallocated-Fresh m a p [] e chain = tt
unallocated-Fresh m a p ((b, f) ∷ cells) e (n, here, ne, holds, rest) =
    (λ same. absurd (none_some (sym e ∙ ap m same ∙ holds)), unallocated-Fresh m a n cells e rest)
  where
    none_some : {c : ListNode} → none ≢ some c
    none_some q = cc

append-Fresh :
    (b a : Ptr) (f : TfsFile) (cells : Cells)
    → b ≢ a
    → Fresh b cells
    → Fresh b (cells ++ (a, f) ∷ [])
append-Fresh b a f [] ne away = (ne, tt)
append-Fresh b a f (c ∷ cells) ne away = (away.0, append-Fresh b a f cells ne away.1)

append-Apart :
    (a : Ptr) (f : TfsFile) (cells : Cells)
    → Fresh a cells
    → Apart cells
    → Apart (cells ++ (a, f) ∷ [])
append-Apart a f [] away apart = (tt, tt)
append-Apart a f ((b, g) ∷ cells) away apart =
    (append-Fresh b a f cells (λ e. away.0 (sym e)) apart.0, append-Apart a f cells away.1 apart.1)

append-EndsAt : (a : Ptr) (f : TfsFile) (cells : Cells) → EndsAt a (cells ++ (a, f) ∷ [])
append-EndsAt a f [] = refl
append-EndsAt a f (c ∷ []) = refl
append-EndsAt a f (c ∷ d ∷ cells) = append-EndsAt a f (d ∷ cells)

last_differs :
    (a t : Ptr) (c : Ptr × TfsFile) (cells : Cells)
    → Fresh a (c ∷ cells)
    → EndsAt t (c ∷ cells)
    → t ≢ a
last_differs a t c [] away last = λ e. away.0 (sym e ∙ last)
last_differs a t c (d ∷ cells) away last = last_differs a t d cells away.1 last

-- The last node's pointer set to a node behind the list appends that node.
module _ (m : Nodes) (fresh : Ptr) (file : TfsFile) (ne : fresh ≢ null)
    (there : m fresh ≡ some (record { file = file; next = null })) where
  appended :
      (p t : Ptr) (c : Ptr × TfsFile) (cells : Cells)
      → Chain m p (c ∷ cells)
      → Apart (c ∷ cells)
      → Fresh fresh (c ∷ cells)
      → EndsAt t (c ∷ cells)
      → (n : ListNode) × (t ≢ null)
        × (m t ≡ some n)
        × Chain (put m t (some (record n { next = fresh }))) p ((c ∷ cells) ++ (fresh, file) ∷ [])
  appended p t (a, f) [] (n, here, some_a, holds, rest) apart away last = rw last (
    record { file = f; next = n },
    some_a,
    holds,
    (
      fresh,
      here,
      some_a,
      put-same m a _,
      (null, refl, ne, put-other m a fresh _ (λ e. away.0 (sym e)) ∙ there, refl),
    ),
  )
  appended p t (a, f) (d ∷ cells) (n, here, some_a, holds, rest) apart away last =
      let (node, t_ne, t_holds, chain) = appended n t d cells rest apart.1 away.1 last in
      (
        node,
        t_ne,
        t_holds,
        (n, here, some_a, put-other m t a _ (last_differs a t d cells apart.0 last) ∙ holds, chain),
      )

pub set_next-done :
    (m : Nodes) (p q : Ptr) {n : ListNode}
    → p ≢ null
    → m p ≡ some n
    → set_next p q m ≡ done tt (put m p (some (record n { next = q })))
unfolding set_next
set_next-done m p q ne e = step _ (load-done m p ne e) (save-done m p _ ne e)

module _ (m : Nodes) (fresh : Ptr) (file : TfsFile) (ne : fresh ≢ null)
    (unused : m fresh ≡ none) where
  with_node : Nodes
  with_node = put m fresh (some (record { file = file; next = null }))

  made : new_node fresh file m ≡ done tt with_node
  unfolding new_node with_node
  made = rw (differ fresh null ne) refl

  there : with_node fresh ≡ some (record { file = file; next = null })
  unfolding with_node
  there = put-same m fresh _

  kept : (p : Ptr) (cells : Cells) → Fresh fresh cells → Chain m p cells → Chain with_node p cells
  unfolding with_node
  kept p cells away chain = put-Chain m fresh _ p cells away chain

  added :
      (l : BoxList) (cells : Cells)
      → IsBoxList m l cells
      → Ends (λ l' m'. IsBoxList m' l' (cells ++ (fresh, file) ∷ [])) (list_add fresh file l m)
  unfolding list_add
  added l [] w =
      rw (made, w.chain)
        (record {
          chain = (null, refl, ne, there, refl);
          apart = (tt, tt);
          tail_last = refl;
          count = rw w.count refl;
        })
  added l ((a, f) ∷ cells) w =
      let away = unallocated-Fresh m fresh l.head ((a, f) ∷ cells) unused w.chain in
      let (node, t_ne, t_holds, chain) =
        appended with_node fresh file ne there l.head l.tail (a, f) cells
          (kept l.head ((a, f) ∷ cells) away w.chain) w.apart away w.tail_last in
      rw
        (
          made,
          differ l.head null (subst (λ p. p ≢ null) (sym w.chain.1) w.chain.2),
          set_next-done with_node l.tail fresh t_ne t_holds,
        )
        (record {
          chain = chain;
          apart = append-Apart fresh file ((a, f) ∷ cells) away w.apart;
          tail_last = append-EndsAt fresh file ((a, f) ∷ cells);
          count = rw (w.count, length-append cells ((fresh, file) ∷ [])) (ap pos (omega arith));
        })

-- `list_add` on a well-formed list (the pointers lead from the head through different nodes to
-- NULL, the tail is the last node if there is one, the size is their number), if `malloc` returns
-- an unused address, ends without an invalid access, and leaves a well-formed list with the file
-- in a new last node behind the nodes that were there.
pub list_add-IsBoxList :
    (fresh : Ptr) (file : TfsFile) (l : BoxList) (m : Nodes) (cells : Cells)
    → IsBoxList m l cells
    → fresh ≢ null
    → m fresh ≡ none
    → Ends (λ l' m'. IsBoxList m' l' (cells ++ (fresh, file) ∷ [])) (list_add fresh file l m)
list_add-IsBoxList fresh file l m cells w ne unused = added m fresh file ne unused l cells w
