-- ===== src/BoxList/Lookup.antt =====
-- Looking a box up by its name, and changing its counters, on a list in memory.
use projeto_so.Base.{
  ℕ, zero, suc, ◌+◌, ◌-◌, ◌%◌, ◌^◌, ◌<◌, ◌≡◌, ◌≢◌, refl, ap, sym, ◌∙◌, Bool-cases, inl, inr, some,
  List, [], ◌∷◌, arith, length, if◌then◌else◌,
}
use mathlib.Core.Path.{subst}
use projeto_so.BoxList.{
  TfsFile, Ptr, null, ListNode, Nodes, BoxList, M, done, save, same_name, search_node, search_from,
  search_prev_node, search_prev_from,
}
use projeto_so.BoxList.Counters.{
  change_from, more_publishers, fewer_publishers, more_subscribers, fewer_subscribers,
  increment_publishers, decrement_publishers, increment_subscribers, decrement_subscribers,
}
use projeto_so.BoxList.Chains.{
  Cells, Chain, Fresh, Apart, Ends, step, load-done, save-done, put-same, put-other, put-Chain,
  Ends-map, differ,
}

-- The address of the first cell with the name, or NULL.
abbrev pub first_named : List ℕ → Cells → Ptr
first_named name [] = null
first_named name ((a, f) ∷ cells) = if same_name f.box_name name then a else first_named name cells

-- The cells with the first file of the name changed.
abbrev pub change_first : (TfsFile → TfsFile) → List ℕ → Cells → Cells
change_first change name [] = []
change_first change name ((a, f) ∷ cells) =
    if same_name f.box_name name
    then (a, change f) ∷ cells
    else (a, f) ∷ change_first change name cells

search_from-done :
    (name : List ℕ) (k : ℕ) (m : Nodes) (p : Ptr) (cells : Cells)
    → Chain m p cells
    → length cells < k
    → search_from name k p m ≡ done (first_named name cells) m
unfolding search_from
search_from-done name zero m p cells chain le = absurd (omega arith)
search_from-done name (suc k) m p [] chain le = rw (chain, search_from) refl
search_from-done name (suc k) m p ((a, f) ∷ cells) (n, here, ne, holds, rest) le =
    rw (here, search_from, differ a null ne)
      (step _ (load-done m a ne holds) (elim (Bool-cases (same_name f.box_name name)) [
        | inl e ↦ rw e refl
        | inr e ↦ rw e (search_from-done name k m n cells rest (omega arith))
      ]))

-- With fuel for each node and the end of the list, `search_node` ends without an invalid access
-- and changes nothing. It returns the address of the first node with the name, or NULL if there is
-- none.
pub search_node_lem :
    (name : List ℕ) (k : ℕ) (m : Nodes) (l : BoxList) (cells : Cells)
    → Chain m l.head cells
    → length cells < k
    → search_node k l name m ≡ done (first_named name cells) m
unfolding search_node
search_node_lem name k m l cells chain le = search_from-done name k m l.head cells chain le

-- The memory holds the changed cells, and a node outside the list is as it was.
abbrev pub Changed : Nodes → Ptr → Cells → Cells → Nodes → Type 0
Changed m p cells new m' = Chain m' p new × ((a : Ptr) → Fresh a cells → m' a ≡ m a)

module _ (change : TfsFile → TfsFile) (name : List ℕ) where
  change_from-Changed :
      (k : ℕ) (m : Nodes) (p : Ptr) (cells : Cells)
      → Chain m p cells
      → Apart cells
      → length cells < k
      → Ends
          (λ _ m'. Changed m p cells (change_first change name cells) m')
          (change_from change name k p m)
  unfolding change_from
  change_from-Changed zero m p cells chain apart le = absurd (omega arith)
  change_from-Changed (suc k) m p [] chain apart le = rw (chain, change_from) (refl, λ a away. refl)
  change_from-Changed (suc k) m p ((a, f) ∷ cells) (n, here, ne, holds, rest) apart le =
      subst
        (Ends λ _ m'. Changed m p ((a, f) ∷ cells) (change_first change name ((a, f) ∷ cells)) m')
        (sym run)
        (elim (Bool-cases (same_name f.box_name name)) [
          | inl e ↦
              rw (e, save-done m a (record { file = change f; next = n }) ne holds)
                (
                  (n, here, ne, put-same m a _, put-Chain m a _ n cells apart.0 rest),
                  λ b away. put-other m a b _ (λ e'. away.0 (sym e')),
                )
          | inr e ↦ rw e (
              Ends-map (change_from change name k n m)
                (change_from-Changed k m n cells rest apart.1 (omega arith))
                λ _ m' done_rest. (
                  (n, here, ne, done_rest.1 a apart.0 ∙ holds, done_rest.0),
                  λ b away. done_rest.1 b away.1,
                ))
        ])
    where
      go : ListNode → M (Unit {0})
      go c =
          if same_name c.file.box_name name
          then save a (record c { file = change c.file })
          else change_from change name k c.next

      run : change_from change name (suc k) p m ≡ go (record { file = f; next = n }) m
      run = rw (here, change_from, differ a null ne) (step go (load-done m a ne holds) refl)

-- Each of the four counting functions, with fuel for each node and the end of a list of different
-- nodes, ends without an invalid access. Afterwards the list has the same nodes in the same order;
-- the first file of the name, if there is one, has that counter one higher or lower (modulo 2 ^
-- 64) and its other fields as they were; all other files and all nodes outside the list are as
-- they were.
pub counters-Changed :
    (name : List ℕ) (k : ℕ) (m : Nodes) (l : BoxList) (cells : Cells)
    → Chain m l.head cells
    → Apart cells
    → length cells < k
    → Ends
        (λ _. Changed m l.head cells (
          change_first (λ f. record f { n_publishers = (f.n_publishers + 1) % 2 ^ 64 }) name cells))
        (increment_publishers k l name m)
      × Ends
          (λ _. Changed m l.head cells (
            change_first
              (λ f. record f { n_publishers = (f.n_publishers + 2 ^ 64 - 1) % 2 ^ 64 })
              name
              cells))
          (decrement_publishers k l name m)
      × Ends
          (λ _. Changed m l.head cells (
            change_first
              (λ f. record f { n_subscribers = (f.n_subscribers + 1) % 2 ^ 64 })
              name
              cells))
          (increment_subscribers k l name m)
      × Ends
          (λ _. Changed m l.head cells (
            change_first
              (λ f. record f { n_subscribers = (f.n_subscribers + 2 ^ 64 - 1) % 2 ^ 64 })
              name
              cells))
          (decrement_subscribers k l name m)
unfolding increment_publishers decrement_publishers increment_subscribers decrement_subscribers
counters-Changed name k m l cells chain apart le = (
  change_from-Changed more_publishers name k m l.head cells chain apart le,
  change_from-Changed fewer_publishers name k m l.head cells chain apart le,
  change_from-Changed more_subscribers name k m l.head cells chain apart le,
  change_from-Changed fewer_subscribers name k m l.head cells chain apart le,
)

-- The address of the cell before the first one with the name; NULL if that is the first cell, and
-- if no cell has the name.
abbrev pub before_named : List ℕ → Ptr × TfsFile → Cells → Ptr
before_named name c [] = null
before_named name c (d ∷ cells) =
    if same_name d.1.box_name name then c.0 else before_named name d cells

abbrev pub prev_named : List ℕ → Ptr × TfsFile → Cells → Ptr
prev_named name c cells = if same_name c.1.box_name name then null else before_named name c cells

search_prev_from-done :
    (name : List ℕ) (k : ℕ) (m : Nodes) (p : Ptr) (c : Ptr × TfsFile) (cells : Cells)
    → Chain m p (c ∷ cells)
    → length cells < k
    → search_prev_from name k p m ≡ done (before_named name c cells) m
unfolding search_prev_from
search_prev_from-done name zero m p c cells chain le = absurd (omega arith)
search_prev_from-done name (suc k) m p (a, f) [] (n, here, ne, holds, rest) le =
    rw here (step _ (load-done m a ne holds) (rw rest refl))
search_prev_from-done name (suc k) m p (a, f) ((b, g) ∷ cells)
      (n, here, ne, holds, (n', at, b_ne, b_holds, rest)) le =
    rw here (
      step _ (load-done m a ne (holds ∙ ap (λ q. some (record { file = f; next = q })) at)) (
        rw (differ b null b_ne) (
          step _ (load-done m b b_ne b_holds) (elim (Bool-cases (same_name g.box_name name)) [
            | inl e ↦ rw e refl
            | inr e ↦ rw e (
                search_prev_from-done name k m b (b, g) cells (n', refl, b_ne, b_holds, rest)
                  (omega arith))
          ]))))

-- On a list that is not empty, with fuel for each node, `search_prev_node` ends without an invalid
-- access and changes nothing. It returns the address of the node before the first one with the
-- name, or NULL: if the head has the name, and also if no node has it.
pub search_prev_node_lem :
    (name : List ℕ) (k : ℕ) (m : Nodes) (l : BoxList) (c : Ptr × TfsFile) (cells : Cells)
    → Chain m l.head (c ∷ cells)
    → length cells < k
    → search_prev_node k l name m ≡ done (prev_named name c cells) m
unfolding search_prev_node
search_prev_node_lem name k m l (a, f) cells chain le =
    let (n, here, ne, holds, rest) = chain in
    step _ (load-done m l.head (subst (λ p. p ≢ null) (sym here) ne) (ap m here ∙ holds))
      (elim (Bool-cases (same_name f.box_name name)) [
        | inl e ↦ rw e refl
        | inr e ↦ rw e (search_prev_from-done name k m l.head (a, f) cells chain le)
      ])
