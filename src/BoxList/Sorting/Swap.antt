-- ===== src/BoxList/Sorting/Swap.antt =====
-- `swap_nodes` on a list in memory: two neighbours change places.
use projeto_so.Base.{
  suc, ◌≡◌, ◌≢◌, refl, sym, ap, ◌∙◌, some, [], ◌∷◌, ◌++◌, arith, length-append, pos, if◌then◌else◌,
  ◌==◌,
}
use mathlib.Core.Path.{subst}
use projeto_so.BoxList.{
  Ptr, null, ListNode, Nodes, BoxList, done, put, set_next, load, M, ◌>>=◌, ◌>>◌,
}
use projeto_so.BoxList.Chains.{
  Cells, Chain, Fresh, Apart, step, load-done, put-same, put-other, put-Chain, differ,
}
use projeto_so.BoxList.Adding.{IsBoxList, EndsAt, set_next-done}
use projeto_so.BoxList.Removing.{last_address}
use projeto_so.BoxList.Sorting.{swap_nodes}
use projeto_so.BoxList.Sorting.Bubble.{Cell}
use projeto_so.BoxList.Sorting.Addresses.{
  Apart-left, Apart-right, right-Fresh, last-Fresh, Apart-swap, EndsAt-right, EndsAt-left,
}

-- From `p` the `next` pointers lead through the cells to `q`.
abbrev pub Lead : Nodes → Ptr → Cells → Ptr → Type 0
Lead m p [] q = p ≡ q
Lead m p ((a, f) ∷ cells) q =
    (n : Ptr) × (p ≡ a)
    × (a ≢ null)
    × (m a ≡ some (record { file = f; next = n }))
    × Lead m n cells q

pub split-Chain :
    (m : Nodes) (p : Ptr) (xs ys : Cells)
    → Chain m p (xs ++ ys)
    → (q : Ptr) × Lead m p xs q × Chain m q ys
split-Chain m p [] ys chain = (p, refl, chain)
split-Chain m p ((a, f) ∷ xs) ys (n, here, ne, holds, rest) =
    let (q, lead, chain) = split-Chain m n xs ys rest in (q, (n, here, ne, holds, lead), chain)

join-Chain :
    (m : Nodes) (p q : Ptr) (xs ys : Cells) → Lead m p xs q → Chain m q ys → Chain m p (xs ++ ys)
join-Chain m p q [] ys lead chain = subst (λ r. Chain m r ys) (sym lead) chain
join-Chain m p q ((a, f) ∷ xs) ys (n, here, ne, holds, lead) chain =
    (n, here, ne, holds, join-Chain m n q xs ys lead chain)

put-Lead :
    (m : Nodes) (a : Ptr) (node : ListNode) (p q : Ptr) (xs : Cells)
    → Fresh a xs
    → Lead m p xs q
    → Lead (put m a (some node)) p xs q
put-Lead m a node p q [] away lead = lead
put-Lead m a node p q ((b, f) ∷ xs) away (n, here, ne, holds, lead) =
    (n, here, ne, put-other m a b _ away.0 ∙ holds, put-Lead m a node n q xs away.1 lead)

-- The last cell's pointer set to another node.
redirect :
    (m : Nodes) (p q q' : Ptr) (c : Cell) (xs : Cells)
    → Apart (c ∷ xs)
    → Lead m p (c ∷ xs) q
    → (node : ListNode) × (last_address (c ∷ xs) ≢ null)
      × (m (last_address (c ∷ xs)) ≡ some node)
      × Lead (put m (last_address (c ∷ xs)) (some (record node { next = q' }))) p (c ∷ xs) q'
redirect m p q q' (a, f) [] apart (n, here, ne, holds, lead) =
    (record { file = f; next = n }, ne, holds, (q', here, ne, put-same m a _, refl))
redirect m p q q' (a, f) (d ∷ xs) apart (n, here, ne, holds, lead) =
    let (node, last_ne, last_holds, tail) = redirect m n q q' d xs apart.1 lead in
    (
      node,
      last_ne,
      last_holds,
      (n, here, ne, put-other m (last_address (d ∷ xs)) a _ (differs a d xs apart.0) ∙ holds, tail),
    )
  where
    differs : (x : Ptr) (y : Cell) (ys : Cells) → Fresh x (y ∷ ys) → last_address (y ∷ ys) ≢ x
    differs x y [] away = λ e. away.0 (sym e)
    differs x y (z ∷ ys) away = differs x z ys away.1

-- The list after `c` and `d` behind `xs` have changed places.
abbrev pub Swapped : Cells → Cell → Cell → Cells → BoxList → Nodes → Type 0
Swapped xs c d ys l m =
    (l' : BoxList) × (m' : Nodes) × (swap_nodes (last_address xs) c.0 d.0 l m ≡ done l' m')
    × IsBoxList m' l' (xs ++ d ∷ c ∷ ys)

end_differs : (a t : Ptr) (y : Cell) (ys : Cells) → Fresh a (y ∷ ys) → EndsAt t (y ∷ ys) → a ≢ t
end_differs a t y [] away e = λ h. away.0 (h ∙ e)
end_differs a t y (z ∷ ys) away e = end_differs a t z ys away.1 e

tail_after :
    (t : Ptr) (xs : Cells) (c d : Cell) (ys : Cells)
    → Apart (xs ++ c ∷ d ∷ ys)
    → EndsAt t (xs ++ c ∷ d ∷ ys)
    → EndsAt (if d.0 == t then c.0 else t) (xs ++ d ∷ c ∷ ys)
tail_after t xs c d [] apart e =
    EndsAt-left _ xs d (c ∷ []) (ground (arith, EndsAt-right t xs c (d ∷ []) e))
tail_after t xs c d (y ∷ ys) apart e =
    EndsAt-left _ xs d (c ∷ y ∷ ys) (subst (λ u. EndsAt u (y ∷ ys)) (sym kept) ends)
  where
    ends : EndsAt t (y ∷ ys)
    ends = EndsAt-right t xs c (d ∷ y ∷ ys) e

    kept : (if d.0 == t then c.0 else t) ≡ t
    kept =
        rw (differ d.0 t (end_differs d.0 t y ys (Apart-right xs (c ∷ d ∷ y ∷ ys) apart).1.0 ends))
          refl

-- The two nodes relinked to one another, for the chain from `c` on.
module _ (m : Nodes) (c d : Cell) (ys : Cells) (n1 n2 : Ptr) (c_ne : c.0 ≢ null) (d_ne : d.0 ≢ null)
    (c_holds : m c.0 ≡ some (record { file = c.1; next = n1 }))
    (d_holds : m d.0 ≡ some (record { file = d.1; next = n2 })) (rest : Chain m n2 ys)
    (apart : Apart (c ∷ d ∷ ys)) where
  first_put : Nodes
  first_put = put m c.0 (some (record { file = c.1; next = n2 }))

  both_put : Nodes
  unfolding first_put
  both_put = put first_put d.0 (some (record { file = d.1; next = c.0 }))

  c_after : both_put c.0 ≡ some (record { file = c.1; next = n2 })
  unfolding first_put both_put
  c_after = put-other first_put d.0 c.0 _ (λ e. apart.0.0 (sym e)) ∙ put-same m c.0 _

  d_after : both_put d.0 ≡ some (record { file = d.1; next = c.0 })
  unfolding first_put both_put
  d_after = put-same first_put d.0 _

  rest_after : Chain both_put n2 ys
  unfolding first_put both_put
  rest_after = put-Chain first_put d.0 _ n2 ys apart.1.0 (put-Chain m c.0 _ n2 ys apart.0.1 rest)

  -- The first three statements of `swap_nodes`.
  relinked_run :
      {A : Type 0} (f : ListNode → M A)
      → (do n ← load d.0; set_next c.0 n.next; set_next d.0 c.0; f n) m
        ≡ f (record { file = d.1; next = n2 }) both_put
  unfolding first_put both_put
  relinked_run f = step _ (load-done m d.0 d_ne d_holds) (
      step _ (set_next-done m c.0 n2 c_ne c_holds) (
        step _ (set_next-done first_put d.0 c.0 d_ne (put-other m c.0 d.0 _ apart.0.0 ∙ d_holds))
          refl))

  relinked : Chain both_put d.0 (d ∷ c ∷ ys)
  relinked = (c.0, refl, d_ne, d_after, (n2, refl, c_ne, c_after, rest_after))

  both_put-Lead :
      (p q : Ptr) (xs : Cells) → Fresh c.0 xs → Fresh d.0 xs → Lead m p xs q → Lead both_put p xs q
  unfolding first_put both_put
  both_put-Lead p q xs c_away d_away lead =
      put-Lead first_put d.0 _ p q xs d_away (put-Lead m c.0 _ p q xs c_away lead)

pub swapped :
    (m : Nodes) (l : BoxList) (xs : Cells) (c d : Cell) (ys : Cells)
    → IsBoxList m l (xs ++ c ∷ d ∷ ys)
    → Swapped xs c d ys l m
unfolding swap_nodes
swapped m l [] c d ys w =
    let (n1, at, c_ne, c_holds, (n2, at2, d_ne, d_holds, rest)) = w.chain in
    (
      _,
      _,
      relinked_run m c d ys n1 n2 c_ne d_ne c_holds d_holds rest w.apart _,
      record {
        chain = relinked m c d ys n1 n2 c_ne d_ne c_holds d_holds rest w.apart;
        apart = Apart-swap [] c d ys w.apart;
        tail_last = tail_after l.tail [] c d ys w.apart w.tail_last;
        count = w.count;
      },
    )
swapped m l (x ∷ xs) c d ys w =
    let (q, lead, chain) = split-Chain m l.head (x ∷ xs) (c ∷ d ∷ ys) w.chain in
    let (n1, at, c_ne, c_holds, (n2, at2, d_ne, d_holds, rest)) = chain in
    let apart = Apart-right (x ∷ xs) (c ∷ d ∷ ys) w.apart in
    let new_apart = Apart-swap (x ∷ xs) c d ys w.apart in
    let m2 = both_put m c d ys n1 n2 c_ne d_ne c_holds d_holds rest apart in
    let lead2 =
      both_put-Lead m c d ys n1 n2 c_ne d_ne c_holds d_holds rest apart l.head q (x ∷ xs)
        (right-Fresh (x ∷ xs) c (d ∷ ys) w.apart) (right-Fresh (x ∷ xs) d (c ∷ ys) new_apart)
        lead in
    let (node, p_ne, p_holds, lead3) =
      redirect m2 l.head q d.0 x xs (Apart-left (x ∷ xs) (c ∷ d ∷ ys) w.apart) lead2 in
    (
      _,
      put m2 (last_address (x ∷ xs)) (some (record node { next = d.0 })),
      relinked_run m c d ys n1 n2 c_ne d_ne c_holds d_holds rest apart _
          ∙ rw
              (
                differ (last_address (x ∷ xs)) null p_ne,
                set_next-done m2 (last_address (x ∷ xs)) d.0 p_ne p_holds,
              )
              refl,
      record {
        chain = join-Chain _ l.head d.0 (x ∷ xs) (d ∷ c ∷ ys) lead3 (
            put-Chain m2 (last_address (x ∷ xs)) _ d.0 (d ∷ c ∷ ys)
              (last-Fresh x xs (d ∷ c ∷ ys) new_apart)
              (relinked m c d ys n1 n2 c_ne d_ne c_holds d_holds rest apart));
        apart = new_apart;
        tail_last = tail_after l.tail (x ∷ xs) c d ys w.apart w.tail_last;
        count =
            w.count
            ∙ ap pos (
                ap suc
                  (omega (arith, length-append xs (c ∷ d ∷ ys), length-append xs (d ∷ c ∷ ys))));
      },
    )
