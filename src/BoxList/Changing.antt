-- ===== src/BoxList/Changing.antt =====
-- A list in which one box has changed.
use projeto_so.Base.{
  ℕ, ◌≡◌, ◌≢◌, refl, sym, ap, ◌∙◌, true, some, List, [], ◌∷◌, ◌++◌, length, arith, pos,
  length-append,
}
use mathlib.Core.Path.{subst}
use projeto_so.BoxList.{TfsFile, Ptr, null, Nodes, BoxList, same_name}
use projeto_so.BoxList.Chains.{Cells, Chain, Fresh, Apart}
use projeto_so.BoxList.Adding.{IsBoxList, EndsAt}
use projeto_so.BoxList.Lookup.{change_first, Changed}
use projeto_so.BoxList.Finding.{NoneNamed}

pub change_first-here :
    (change : TfsFile → TfsFile) (name : List ℕ) (a : Ptr) (f : TfsFile) (after : Cells)
    → same_name f.box_name name ≡ true
    → (before : Cells) → NoneNamed name before
    → change_first change name (before ++ (a, f) ∷ after) ≡ before ++ (a, change f) ∷ after
change_first-here change name a f after named [] fresh = rw named refl
change_first-here change name a f after named (c ∷ before) (ne, fresh) =
    rw ne (ap (◌∷◌ c) (change_first-here change name a f after named before fresh))

module _ (a : Ptr) (f g : TfsFile) (after : Cells) where
  pub node_at :
      (m : Nodes) (p : Ptr) (before : Cells)
      → Chain m p (before ++ (a, f) ∷ after)
      → (n : Ptr) × (a ≢ null) × (m a ≡ some (record { file = f; next = n }))
  node_at m p [] (n, at, ne, holds, rest) = (n, ne, holds)
  node_at m p ((b, h) ∷ before) (n, at, ne, holds, rest) = node_at m n before rest

  Fresh-other : (x : Ptr) (before : Cells) → Fresh x (before ++ (a, f) ∷ after) → x ≢ a
  Fresh-other x [] away = away.0
  Fresh-other x (c ∷ before) away = Fresh-other x before away.1

  change-Fresh :
      (x : Ptr) (before : Cells)
      → Fresh x (before ++ (a, f) ∷ after)
      → Fresh x (before ++ (a, g) ∷ after)
  change-Fresh x [] away = away
  change-Fresh x (c ∷ before) away = (away.0, change-Fresh x before away.1)

  change-Apart :
      (before : Cells) → Apart (before ++ (a, f) ∷ after) → Apart (before ++ (a, g) ∷ after)
  change-Apart [] apart = apart
  change-Apart ((b, h) ∷ before) apart =
      (change-Fresh b before apart.0, change-Apart before apart.1)

  change_tail : (t : Ptr) (after : Cells) → EndsAt t ((a, f) ∷ after) → EndsAt t ((a, g) ∷ after)
  change_tail t [] e = e
  change_tail t (c ∷ after) e = e

  change-EndsAt :
      (t : Ptr) (before : Cells)
      → EndsAt t (before ++ (a, f) ∷ after)
      → EndsAt t (before ++ (a, g) ∷ after)
  change-EndsAt t [] e = change_tail t after e
  change-EndsAt t (c ∷ []) e = change_tail t after e
  change-EndsAt t (c ∷ d ∷ before) e = change-EndsAt t (d ∷ before) e

  pub change_length :
      (before : Cells) → length (before ++ (a, g) ∷ after) ≡ length (before ++ (a, f) ∷ after)
  change_length before =
      omega (
        arith,
        length-append {0} before ((a, f) ∷ after),
        length-append {0} before ((a, g) ∷ after),
      )

  module _ (m m' : Nodes) (others : (x : Ptr) → a ≢ x → m' x ≡ m x) where
    same-Chain : (p : Ptr) (cells : Cells) → Fresh a cells → Chain m p cells → Chain m' p cells
    same-Chain p [] away e = e
    same-Chain p ((b, h) ∷ cells) away (n, at, ne, holds, rest) =
        (n, at, ne, others b away.0 ∙ holds, same-Chain n cells away.1 rest)

    module _
        (changed : (n : Ptr)
          → m a ≡ some (record { file = f; next = n })
          → m' a ≡ some (record { file = g; next = n })) where
      change-Chain :
          (p : Ptr) (before : Cells)
          → Apart (before ++ (a, f) ∷ after)
          → Chain m p (before ++ (a, f) ∷ after)
          → Chain m' p (before ++ (a, g) ∷ after)
      change-Chain p [] apart (n, at, ne, holds, rest) =
          (n, at, ne, changed n holds, same-Chain n after apart.0 rest)
      change-Chain p ((b, h) ∷ before) apart (n, at, ne, holds, rest) = (
        n,
        at,
        ne,
        others b (λ e. Fresh-other b before apart.0 (sym e)) ∙ holds,
        change-Chain n before apart.1 rest,
      )

      -- If the node `a` holds another file, the list holds that file in its place.
      pub change-IsBoxList :
          (l : BoxList) (before : Cells)
          → IsBoxList m l (before ++ (a, f) ∷ after)
          → IsBoxList m' l (before ++ (a, g) ∷ after)
      change-IsBoxList l before boxes = record {
        chain = change-Chain l.head before boxes.apart boxes.chain;
        apart = change-Apart before boxes.apart;
        tail_last = change-EndsAt l.tail before boxes.tail_last;
        count = boxes.count ∙ ap pos (sym (change_length before));
      }

-- A list whose first box of a name was changed in its node.
pub Changed-IsBoxList :
    (change : TfsFile → TfsFile) (name : List ℕ) (before : Cells) (a : Ptr) (f : TfsFile)
    (after : Cells) (m m' : Nodes) (l : BoxList)
    → NoneNamed name before
    → same_name f.box_name name ≡ true
    → IsBoxList m l (before ++ (a, f) ∷ after)
    → Changed m l.head
        (before ++ (a, f) ∷ after)
        (change_first change name (before ++ (a, f) ∷ after))
        m'
    → IsBoxList m' l (before ++ (a, change f) ∷ after)
Changed-IsBoxList change name before a f after m m' l fresh named boxes changed = record {
  chain =
      subst (Chain m' l.head) (change_first-here change name a f after named before fresh)
        changed.0;
  apart = change-Apart a f (change f) after before boxes.apart;
  tail_last = change-EndsAt a f (change f) after l.tail before boxes.tail_last;
  count = boxes.count ∙ ap pos (sym (change_length a f (change f) after before));
}
