-- ===== src/BoxList/Finding.antt =====
-- Where the first box of a name stands in a list, as the two searches see it.
use projeto_so.Base.{
  ℕ, ◌≡◌, ◌≢◌, refl, true, false, Bool-cases, inl, inr, some, List, [], ◌∷◌, ◌++◌,
}
use projeto_so.BoxList.{TfsFile, Ptr, null, ListNode, Nodes, same_name}
use projeto_so.BoxList.Chains.{Cells, Chain}
use projeto_so.BoxList.Lookup.{first_named, before_named, prev_named}
use projeto_so.BoxList.Removing.{last_address}

abbrev pub NoneNamed : List ℕ → Cells → Type 0
NoneNamed name [] = Unit {0}
NoneNamed name (c ∷ cells) = (same_name c.1.box_name name ≡ false) × NoneNamed name cells

-- The first cell of the name and the cells before and after it, or there is none.
pub data Place (name : List ℕ) : Cells → Type 0 where
  here :
      (before : Cells) (a : Ptr) (f : TfsFile) (after : Cells)
      → NoneNamed name before
      → same_name f.box_name name ≡ true
      → Place name (before ++ (a, f) ∷ after)
  absent : (cells : Cells) → NoneNamed name cells → Place name cells

pub place : (name : List ℕ) (cells : Cells) → Place name cells
place name [] = absent [] tt
place name ((a, f) ∷ cells) = elim (Bool-cases (same_name f.box_name name)) [
  | inl e ↦ here [] a f cells tt e
  | inr e ↦ later (place name cells) e
]
  where
    later :
        {cells : Cells}
        → Place name cells
        → same_name f.box_name name ≡ false
        → Place name ((a, f) ∷ cells)
    later (here before b g after none e) ne = here ((a, f) ∷ before) b g after (ne, none) e
    later (absent cells none) ne = absent ((a, f) ∷ cells) (ne, none)

module _ (name : List ℕ) where
  pub first_named-absent : (cells : Cells) → NoneNamed name cells → first_named name cells ≡ null
  first_named-absent [] none = refl
  first_named-absent ((a, f) ∷ cells) (ne, none) = rw ne (first_named-absent cells none)

  before_named-absent :
      (c : Ptr × TfsFile) (cells : Cells) → NoneNamed name cells → before_named name c cells ≡ null
  before_named-absent c [] none = refl
  before_named-absent c (d ∷ cells) (ne, none) = rw ne (before_named-absent d cells none)

  pub prev_named-absent :
      (c : Ptr × TfsFile) (cells : Cells)
      → NoneNamed name (c ∷ cells)
      → prev_named name c cells ≡ null
  prev_named-absent c cells (ne, none) = rw ne (before_named-absent c cells none)

  module _ (a : Ptr) (f : TfsFile) (after : Cells) (named : same_name f.box_name name ≡ true) where
    pub first_named-here :
        (before : Cells) → NoneNamed name before → first_named name (before ++ (a, f) ∷ after) ≡ a
    first_named-here [] none = rw named refl
    first_named-here (c ∷ before) (ne, none) = rw ne (first_named-here before none)

    pub before_named-here :
        (c : Ptr × TfsFile) (before : Cells)
        → NoneNamed name before
        → before_named name c (before ++ (a, f) ∷ after) ≡ last_address (c ∷ before)
    before_named-here c [] none = rw named refl
    before_named-here c (d ∷ before) (ne, none) = rw ne (before_named-here d before none)

-- The node of the last cell before another points to it.
pub points_to :
    (m : Nodes) (p : Ptr) (c : Ptr × TfsFile) (before : Cells) (a : Ptr) (f : TfsFile)
    (after : Cells)
    → Chain m p (c ∷ before ++ (a, f) ∷ after)
    → (n : ListNode) × (last_address (c ∷ before) ≢ null)
      × (m (last_address (c ∷ before)) ≡ some n)
      × (n.next ≡ a)
points_to m p (b, g) [] a f after (n, at, ne, holds, (n', at', _, _, _)) =
    (record { file = g; next = n }, ne, holds, at')
points_to m p (b, g) (d ∷ before) a f after (n, at, ne, holds, rest) =
    points_to m n d before a f after rest
