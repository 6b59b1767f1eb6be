-- ===== src/BoxList/Allocated.antt =====
-- Which nodes are allocated after a list function that does not free any.
use projeto_so.Base.{
  ◌≡◌, ◌≢◌, refl, sym, ap, ◌∙◌, Bool-cases, Option-cases, inl, inr, none, some, [], ◌∷◌, ◌++◌, ◌==◌,
  ==_iff, if◌then◌else◌,
}
use mathlib.Core.Path.{subst}
use projeto_so.BoxList.{
  TfsFile, Ptr, null, ListNode, Nodes, BoxList, Run, done, fault, out_of_fuel, load, put, save,
  set_next, new_node, list_add, then_run,
}
use projeto_so.BoxList.Chains.{Cells, Ends, differ}
use projeto_so.BoxList.Adding.{IsBoxList, list_add-IsBoxList}

-- The same addresses are in use.
abbrev SameAddresses : Nodes → Nodes → Type 0
SameAddresses m m' = ((x : Ptr) → m x ≡ none → m' x ≡ none) × ((x : Ptr) → m x ≢ none → m' x ≢ none)

-- If the run ends, then as stated.
abbrev IfEnds : {A : Type 0} → (Nodes → Type 0) → Run A → Type 0
IfEnds P (done a m) = P m
IfEnds P fault = Unit {0}
IfEnds P out_of_fuel = Unit {0}

put-SameAddresses :
    (m : Nodes) (p : Ptr) (old new : ListNode)
    → m p ≡ some old
    → SameAddresses m (put m p (some new))
unfolding put
put-SameAddresses m p old new holds = (unused, used)
  where
    unused : (x : Ptr) → m x ≡ none → (if p == x then some new else m x) ≡ none
    unused x e = elim (Bool-cases (p == x)) [
      | inl same ↦ absurd (some_none (sym holds ∙ ap m ((==_iff p x).0 same) ∙ e))
      | inr other ↦ rw other e
    ]
      where
        some_none : {n : ListNode} → some n ≢ none
        some_none q = cc

    used : (x : Ptr) → m x ≢ none → (if p == x then some new else m x) ≢ none
    used x ne e = elim (Bool-cases (p == x)) [
      | inl same ↦ some_none (subst (λ b. (if b then some new else m x) ≡ none) same e)
      | inr other ↦ ne (subst (λ b. (if b then some new else m x) ≡ none) other e)
    ]
      where
        some_none : {n : ListNode} → some n ≢ none
        some_none q = cc

set_next-SameAddresses : (m : Nodes) (p q : Ptr) → IfEnds (SameAddresses m) (set_next p q m)
unfolding set_next save load
set_next-SameAddresses m p q = elim (Bool-cases (p == null)) [
  | inl e ↦ rw e tt
  | inr e ↦ elim (Option-cases (m p)) [
    | inl n ↦ rw (e, n) tt
    | inr (node, h) ↦ rw (e, h, e, h) (put-SameAddresses m p node (record node { next = q }) h)
  ]
]

-- `list_add` allocates the new node and no other.
abbrev pub OneMore : Ptr → Nodes → Nodes → Type 0
OneMore fresh m m' = ((x : Ptr) → x ≢ fresh → m x ≡ none → m' x ≡ none) × (m' fresh ≢ none)

put-OneMore :
    (m : Nodes) (fresh : Ptr) (node : ListNode) → OneMore fresh m (put m fresh (some node))
unfolding put
put-OneMore m fresh node = (unused, used)
  where
    unused : (x : Ptr) → x ≢ fresh → m x ≡ none → (if fresh == x then some node else m x) ≡ none
    unused x ne e = rw (differ fresh x (λ same. ne (sym same)), e) refl

    used : (if fresh == fresh then some node else m fresh) ≢ none
    used e =
        some_none
          (subst (λ b. (if b then some node else m fresh) ≡ none) ((==_iff fresh fresh).1 refl) e)
      where
        some_none : {n : ListNode} → some n ≢ none
        some_none q = cc

IfEnds-then :
    {A B : Type 0} (P Q : Nodes → Type 0) (r : Run A) (b : B)
    → IfEnds P r
    → ((m : Nodes) → P m → Q m)
    → IfEnds Q (then_run r λ _ m. done b m)
IfEnds-then P Q (done a m) b p f = f m p
IfEnds-then P Q fault b p f = tt
IfEnds-then P Q out_of_fuel b p f = tt

Ends-both :
    {A : Type 0} (P : A → Nodes → Type 0) (Q : Nodes → Type 0) (r : Run A)
    → Ends P r
    → IfEnds Q r
    → Ends (λ a m. P a m × Q m) r
Ends-both P Q (done a m) p q = (p, q)
Ends-both P Q fault p q = elim p [ ]
Ends-both P Q out_of_fuel p q = elim p [ ]

module _ (fresh : Ptr) (file : TfsFile) (l : BoxList) (m : Nodes) (ne : fresh ≢ null) where
  abbrev first_node : ListNode
  first_node = record { file = file; next = null }

  add-OneMore : IfEnds (OneMore fresh m) (list_add fresh file l m)
  unfolding list_add new_node
  add-OneMore = elim (Bool-cases (l.head == null)) [
    | inl e ↦ rw (differ fresh null ne, e) (put-OneMore m fresh first_node)
    | inr e ↦
        rw (differ fresh null ne, e)
          (IfEnds-then _ _ (set_next l.tail fresh (put m fresh (some first_node))) _
            (set_next-SameAddresses (put m fresh (some first_node)) l.tail fresh) grown)
  ]
    where
      grown : (m' : Nodes) → SameAddresses (put m fresh (some first_node)) m' → OneMore fresh m m'
      grown m' same =
          let (unused, used) = put-OneMore m fresh first_node in
          ((λ x other e. same.0 x (unused x other e)), same.1 fresh used)

  pub list_add-OneMore :
      (cells : Cells)
      → IsBoxList m l cells
      → m fresh ≡ none
      → Ends
          (λ l' m'. IsBoxList m' l' (cells ++ (fresh, file) ∷ []) × OneMore fresh m m')
          (list_add fresh file l m)
  list_add-OneMore cells w unused =
      Ends-both _ _ (list_add fresh file l m) (list_add-IsBoxList fresh file l m cells w ne unused)
        add-OneMore
