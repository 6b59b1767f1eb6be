-- ===== src/BoxList/Sorting/Order.antt =====
-- `list_sort` on a well-formed list: the list that it leaves, and the fuel that it needs.
use projeto_so.Base.{
  ℕ, zero, suc, ◌+◌, ◌*◌, ◌≤◌, ◌<◌, ◌≡◌, ◌≢◌, refl, sym, ap, ◌∙◌, Bool, true, false, ◌&&◌,
  Bool-cases, inl, inr, some, [], ◌∷◌, ◌++◌, arith, length,
}
use mathlib.Core.Path.{subst}
use mathlib.Core.List.{Perm, append_assoc}
use mathlib.Core.List.Perm
use projeto_so.BoxList.{Ptr, null, Nodes, BoxList, done}
use projeto_so.BoxList.Chains.{Cells, Chain, Ends, Ends-map, step, load-done, differ}
use projeto_so.BoxList.Adding.{IsBoxList}
use projeto_so.BoxList.Removing.{last_address}
use projeto_so.BoxList.Sorting.{swap_nodes, sort_pass, sort_rounds, list_sort}
use projeto_so.BoxList.Sorting.Bubble.{
  Cell, after, high, carry, settled, IsSorted, after_asym, carry-perm, settled-IsSorted,
  settled-carry, inversions, inversions-carry_lt, inversions-le,
}
use projeto_so.BoxList.Sorting.Swap.{split-Chain, swapped}

last_address-append : (xs : Cells) (c : Cell) → last_address (xs ++ c ∷ []) ≡ c.0
last_address-append [] c = refl
last_address-append (x ∷ []) c = refl
last_address-append (x ∷ y ∷ xs) c = last_address-append (y ∷ xs) c

-- What a pass from the cell `c` behind `xs` on leaves.
abbrev Passed : ℕ → Ptr → Cells → Cell → Cells → Bool → BoxList → Nodes → Type 0
Passed k prev xs c cells ended l m =
    (l' : BoxList) × (m' : Nodes) × (sort_pass k prev c.0 ended l m
      ≡ done (l', ended && settled c cells) m')
    × IsBoxList m' l' (xs ++ carry c cells)

-- The node `c` behind `xs`, and the pointer to the next one.
node_at :
    (m : Nodes) (l : BoxList) (xs : Cells) (c : Cell) (cells : Cells)
    → IsBoxList m l (xs ++ c ∷ cells)
    → (n : Ptr) × (c.0 ≢ null) × (m c.0 ≡ some (record { file = c.1; next = n })) × Chain m n cells
node_at m l xs c cells w =
    let (q, lead, (n, at, ne, holds, rest)) = split-Chain m l.head xs (c ∷ cells) w.chain in
    (n, ne, holds, rest)

-- One step of a pass, at a node with a node behind it.
module _ (k : ℕ) (prev : Ptr) (c d : Cell) (ended : Bool) (l : BoxList) (m : Nodes) (n : Ptr)
    (c_ne : c.0 ≢ null) (c_holds : m c.0 ≡ some (record { file = c.1; next = d.0 }))
    (d_ne : d.0 ≢ null) (d_holds : m d.0 ≡ some (record { file = d.1; next = n })) where
  stays : after c d ≡ false → sort_pass (suc k) prev c.0 ended l m ≡ sort_pass k c.0 d.0 ended l m
  unfolding sort_pass
  stays e = rw (differ c.0 null c_ne) (
      step _ (load-done m c.0 c_ne c_holds)
        (rw (differ d.0 null d_ne) (step _ (load-done m d.0 d_ne d_holds) (rw e refl))))

  moves :
      (l' : BoxList) (m' : Nodes)
      → after c d ≡ true
      → swap_nodes prev c.0 d.0 l m ≡ done l' m'
      → sort_pass (suc k) prev c.0 ended l m ≡ sort_pass k c.0 d.0 false l' m'
  unfolding sort_pass
  moves l' m' e run = rw (differ c.0 null c_ne) (
      step _ (load-done m c.0 c_ne c_holds) (
        rw (differ d.0 null d_ne) (step _ (load-done m d.0 d_ne d_holds) (rw e (step _ run refl)))))

ended_pass :
    (k : ℕ) (prev : Ptr) (c : Cell) (ended : Bool) (l : BoxList) (m : Nodes)
    → c.0 ≢ null
    → m c.0 ≡ some (record { file = c.1; next = null })
    → sort_pass (suc (suc k)) prev c.0 ended l m ≡ done (l, ended) m
unfolding sort_pass
ended_pass k prev c ended l m ne holds =
    rw (differ c.0 null ne) (step _ (load-done m c.0 ne holds) refl)

and_true : (b : Bool) → b ≡ b && true
and_true true = refl
and_true false = refl

and_false : (b : Bool) → b && false ≡ false
and_false true = refl
and_false false = refl

passed :
    (cells : Cells) (k : ℕ) (xs : Cells) (c : Cell) (ended : Bool) (l : BoxList) (m : Nodes)
    → IsBoxList m l (xs ++ c ∷ cells)
    → 2 * length cells + 2 ≤ k
    → Passed k (last_address xs) xs c cells ended l m
unfolding carry settled
passed cells zero xs c ended l m w le = absurd (omega arith)
passed cells (suc zero) xs c ended l m w le = absurd (omega arith)
passed [] (suc (suc k)) xs c ended l m w le =
    let (n, ne, holds, at_end) = node_at m l xs c [] w in
    (
      l,
      m,
      ended_pass k (last_address xs) c ended l m ne
            (holds ∙ ap (λ p. some (record { file = c.1; next = p })) at_end)
          ∙ ap (λ b. done (l, b) m) (and_true ended),
      w,
    )
passed (d ∷ cells) (suc (suc k)) xs c ended l m w le =
    let (n, c_ne, c_holds, (n2, at, d_ne, d_holds, rest)) = node_at m l xs c (d ∷ cells) w in
    let to_d = c_holds ∙ ap (λ p. some (record { file = c.1; next = p })) at in
    elim (Bool-cases (after c d)) [
      | inr e ↦
          let (l', m', run, w') =
            passed cells (suc k) (xs ++ c ∷ []) d ended l m
              (subst (IsBoxList m l) (sym (append_assoc xs (c ∷ []) (d ∷ cells))) w)
              (omega arith) in
          rw e (
            l',
            m',
            stays (suc k) (last_address xs) c d ended l m n2 c_ne to_d d_ne d_holds e
                ∙ ap (λ p. sort_pass (suc k) p d.0 ended l m) (sym (last_address-append xs c))
                ∙ run,
            subst (IsBoxList m' l') (append_assoc xs (c ∷ []) (carry d cells)) w',
          )
      | inl e ↦
          let (l1, m1, swap_run, w1) = swapped m l xs c d cells w in
          let (n', d_ne', d_holds', (n3, at', c_ne', c_holds', rest')) =
            node_at m1 l1 xs d (c ∷ cells) w1 in
          let to_c = d_holds' ∙ ap (λ p. some (record { file = d.1; next = p })) at' in
          let (l', m', run, w') =
            passed cells k (xs ++ d ∷ []) c false l1 m1
              (subst (IsBoxList m1 l1) (sym (append_assoc xs (d ∷ []) (c ∷ cells))) w1)
              (omega arith) in
          rw e (
            l',
            m',
            moves (suc k) (last_address xs) c d ended l m n2 c_ne to_d d_ne d_holds l1 m1 e swap_run
                ∙ stays k c.0 d c false l1 m1 n3 d_ne' to_c c_ne' c_holds' (after_asym c d e)
                ∙ ap (λ p. sort_pass k p c.0 false l1 m1) (sym (last_address-append xs d))
                ∙ run
                ∙ ap (λ b. done (l', b) m') (sym (and_false ended)),
            subst (IsBoxList m' l') (append_assoc xs (d ∷ []) (carry c cells)) w',
          )
    ]

length-carry : (c : Cell) (cells : Cells) → length (carry c cells) ≡ suc (length cells)
unfolding carry
length-carry c [] = refl
length-carry c (d ∷ cells) = ap suc (length-carry (high c d) cells)

-- One round: the list is sorted if nothing changed, and has fewer inversions if something did.
record RoundDone (cells : Cells) (b : Bool) (new : Cells) : Type 0 where
  same_cells : Perm new cells
  same_length : length new ≡ length cells
  if_ended : b ≡ true → IsSorted new
  if_not : b ≡ false → inversions new < inversions cells

Round : ℕ → Cells → BoxList → Nodes → Type 0
Round fuel cells l m =
    (l' : BoxList) × (m' : Nodes) × (b : Bool) × (new : Cells) × (sort_pass fuel null l.head true l
        m
      ≡ done (l', b) m')
    × IsBoxList m' l' new
    × RoundDone cells b new

one-Round :
    (fuel : ℕ) (cells : Cells) (l : BoxList) (m : Nodes)
    → IsBoxList m l cells
    → 2 * length cells + 2 ≤ fuel
    → Round fuel cells l m
unfolding Round sort_pass
one-Round zero cells l m w le = absurd (omega arith)
one-Round (suc k) [] l m w le = (
  l,
  m,
  true,
  [],
  rw w.chain refl,
  w,
  record { same_cells = Perm.refl []; same_length = refl; if_ended = λ e. tt; if_not = λ e. cc },
)
one-Round (suc k) (c ∷ cells) l m w le =
    let (l', m', run, w') = passed cells (suc k) [] c true l m w (omega arith) in
    (
      l',
      m',
      settled c cells,
      carry c cells,
      ap (λ p. sort_pass (suc k) null p true l m) w.chain.1 ∙ run,
      w',
      record {
        same_cells = carry-perm c cells;
        same_length = length-carry c cells;
        if_ended = λ e. subst IsSorted (sym (settled-carry c cells e)) (settled-IsSorted c cells e);
        if_not = λ e. inversions-carry_lt c cells e;
      },
    )

-- What `list_sort` leaves: the same cells in order.
abbrev pub SortedFrom : Cells → BoxList → Nodes → Type 0
SortedFrom cells l m = (new : Cells) × IsBoxList m l new × IsSorted new × Perm new cells

rounds :
    (k fuel : ℕ) (cells : Cells) (l : BoxList) (m : Nodes)
    → IsBoxList m l cells
    → 2 * length cells + 2 ≤ fuel
    → inversions cells < k
    → Ends (λ l' m'. SortedFrom cells l' m') (sort_rounds k fuel l m)
unfolding sort_rounds Round
rounds zero fuel cells l m w le lt = absurd (omega arith)
rounds (suc k) fuel cells l m w le lt =
    let (l', m', b, new, run, w', r) = one-Round fuel cells l m w le in
    elim (Bool-cases b) [
      | inl e ↦ rw (run, e) (new, w', r.if_ended e, r.same_cells)
      | inr e ↦
          rw (run, e)
            (Ends-map (sort_rounds k fuel l' m')
              (rounds k fuel new l' m' w' (omega (arith, r.same_length))
                (omega (arith, r.if_not e)))
              λ l'' m'' s. (s.0, s.1, s.2, Perm.trans s.3 r.same_cells))
    ]

-- With enough fuel for a round of all nodes and for a round for each inversion, `list_sort` of a
-- well-formed list ends without an invalid access, and leaves a well-formed list of the same nodes
-- in which no name comes after the next one.
pub list_sort-IsSorted :
    (fuel : ℕ) (l : BoxList) (m : Nodes) (cells : Cells)
    → IsBoxList m l cells
    → length cells * length cells + 2 * length cells + 2 ≤ fuel
    → Ends (λ l' m'. SortedFrom cells l' m') (list_sort fuel l m)
unfolding list_sort
list_sort-IsSorted fuel l m cells w le =
    rounds fuel fuel cells l m w (omega arith) (omega (arith, inversions-le cells))
