-- ===== src/BoxList/Sorting/Bubble.antt =====
-- One round of a bubble sort on the cells of a list: order, content, and the inversions left.
use projeto_so.Base.{
  ℕ, ◌+◌, ◌*◌, ◌≤◌, ◌<◌, ◌≡◌, refl, ap, Bool, true, false, ◌&&◌, not, Bool-cases, inl, inr,
  if◌then◌else◌, List, [], ◌∷◌, arith, length,
}
use mathlib.Core.List.{Perm}
use mathlib.Core.List.Perm
use projeto_so.BoxList.{TfsFile, Ptr, name_after}
use projeto_so.BoxList.Chains.{Cells}

abbrev pub Cell : Type 0
Cell = Ptr × TfsFile

-- The name of the first cell comes after that of the second.
abbrev pub after : Cell → Cell → Bool
after c d = name_after c.1.box_name d.1.box_name

-- No name comes after the next one.
abbrev pub IsSorted : Cells → Type 0
IsSorted [] = Unit {0}
IsSorted (c ∷ []) = Unit {0}
IsSorted (c ∷ d ∷ cells) = (after c d ≡ false) × IsSorted (d ∷ cells)

abbrev pub low : Cell → Cell → Cell
low c d = if after c d then d else c

abbrev pub high : Cell → Cell → Cell
high c d = if after c d then c else d

-- The cells after a round that carries `c` along, and whether it leaves them as they are.
unfoldable pub carry : Cell → Cells → Cells
carry c [] = c ∷ []
carry c (d ∷ cells) = low c d ∷ carry (high c d) cells

unfoldable pub settled : Cell → Cells → Bool
settled c [] = true
settled c (d ∷ cells) = not (after c d) && settled (high c d) cells

name_after_asym : (s t : List ℕ) → name_after s t ≡ true → name_after t s ≡ false
unfolding name_after
name_after_asym [] t h = cc
name_after_asym (c ∷ s) [] h = refl
name_after_asym (c ∷ s) (d ∷ t) h = ground (arith, name_after_asym s t)

pub after_asym : (c d : Cell) → after c d ≡ true → after d c ≡ false
after_asym c d h = name_after_asym c.1.box_name d.1.box_name h

pub carry-perm : (c : Cell) (cells : Cells) → Perm (carry c cells) (c ∷ cells)
unfolding carry
carry-perm c [] = Perm.refl (c ∷ [])
carry-perm c (d ∷ cells) = elim (Bool-cases (after c d)) [
  | inl e ↦ rw e (Perm.trans (Perm.cons d (carry-perm c cells)) (Perm.swap c d cells))
  | inr e ↦ rw e (Perm.cons c (carry-perm d cells))
]

pub settled-IsSorted : (c : Cell) (cells : Cells) → settled c cells ≡ true → IsSorted (c ∷ cells)
unfolding settled
settled-IsSorted c [] h = tt
settled-IsSorted c (d ∷ cells) h = elim (Bool-cases (after c d)) [
  | inl e ↦ absurd (ground arith)
  | inr e ↦ (e, settled-IsSorted d cells (ground arith))
]

pub settled-carry : (c : Cell) (cells : Cells) → settled c cells ≡ true → carry c cells ≡ c ∷ cells
unfolding settled carry
settled-carry c [] h = refl
settled-carry c (d ∷ cells) h = elim (Bool-cases (after c d)) [
  | inl e ↦ absurd (ground arith)
  | inr e ↦ rw e (ap (λ l. c ∷ l) (settled-carry d cells (ground arith)))
]

-- How many of the cells the name of `x` comes after, and how many pairs stand the wrong way.
abbrev bit : Bool → ℕ
bit true = 1
bit false = 0

pub above : Cell → Cells → ℕ
above x [] = 0
above x (d ∷ cells) = bit (after x d) + above x cells

pub inversions : Cells → ℕ
inversions [] = 0
inversions (c ∷ cells) = above c cells + inversions cells

above-carry : (x c : Cell) (cells : Cells) → above x (carry c cells) ≡ above x (c ∷ cells)
unfolding above carry
above-carry x c [] = refl
above-carry x c (d ∷ cells) = elim (Bool-cases (after c d)) [
  | inl e ↦ rw e (omega (arith, above-carry x c cells))
  | inr e ↦ rw e (omega (arith, above-carry x d cells))
]

above-cons : (x d : Cell) (cells : Cells) → above x (d ∷ cells) ≡ bit (after x d) + above x cells
unfolding above
above-cons x d cells = refl

-- A round that changes something leaves fewer inversions.
inversions-carry :
    (c : Cell) (cells : Cells)
    → inversions (carry c cells) + bit (not (settled c cells)) ≤ inversions (c ∷ cells)
unfolding inversions carry settled
inversions-carry c [] = omega arith
inversions-carry c (d ∷ cells) = elim (Bool-cases (after c d)) [
  | inl e ↦ rw e (
      omega (
        arith,
        above-carry d c cells,
        above-cons d c cells,
        above-cons c d cells,
        ap bit e,
        ap bit (after_asym c d e),
        inversions-carry c cells,
      ))
  | inr e ↦
      rw e (omega (arith, above-carry c d cells, above-cons c d cells, inversions-carry d cells))
]

pub inversions-carry_lt :
    (c : Cell) (cells : Cells)
    → settled c cells ≡ false
    → inversions (carry c cells) < inversions (c ∷ cells)
inversions-carry_lt c cells e = omega (arith, inversions-carry c cells, ap (λ b. bit (not b)) e)

above-le : (x : Cell) (cells : Cells) → above x cells ≤ length cells
unfolding above
above-le x [] = omega arith
above-le x (d ∷ cells) = ground (arith, above-le x cells)

pub inversions-le : (cells : Cells) → inversions cells ≤ length cells * length cells
unfolding inversions
inversions-le [] = omega arith
inversions-le (c ∷ cells) = grind (arith, inversions-le cells, above-le c cells)
