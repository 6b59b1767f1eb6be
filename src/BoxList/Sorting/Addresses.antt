-- ===== src/BoxList/Sorting/Addresses.antt =====
-- The addresses of the parts of a list.
use projeto_so.Base.{sym, [], ◌∷◌, ◌++◌}
use projeto_so.BoxList.{Ptr}
use projeto_so.BoxList.Chains.{Cells, Fresh, Apart}
use projeto_so.BoxList.Adding.{EndsAt}
use projeto_so.BoxList.Removing.{last_address}
use projeto_so.BoxList.Sorting.Bubble.{Cell}

-- The addresses of two parts of a list.
pub Fresh-left : (a : Ptr) (xs ys : Cells) → Fresh a (xs ++ ys) → Fresh a xs
Fresh-left a [] ys away = tt
Fresh-left a (x ∷ xs) ys away = (away.0, Fresh-left a xs ys away.1)

pub Fresh-right : (a : Ptr) (xs ys : Cells) → Fresh a (xs ++ ys) → Fresh a ys
Fresh-right a [] ys away = away
Fresh-right a (x ∷ xs) ys away = Fresh-right a xs ys away.1

pub Apart-left : (xs ys : Cells) → Apart (xs ++ ys) → Apart xs
Apart-left [] ys apart = tt
Apart-left ((a, f) ∷ xs) ys apart = (Fresh-left a xs ys apart.0, Apart-left xs ys apart.1)

pub Apart-right : (xs ys : Cells) → Apart (xs ++ ys) → Apart ys
Apart-right [] ys apart = apart
Apart-right ((a, f) ∷ xs) ys apart = Apart-right xs ys apart.1

-- A cell of the right part is none of the left part, and the last of the left none of the right.
pub right-Fresh : (xs : Cells) (c : Cell) (ys : Cells) → Apart (xs ++ c ∷ ys) → Fresh c.0 xs
right-Fresh [] c ys apart = tt
right-Fresh ((a, f) ∷ xs) c ys apart =
    ((λ e. (Fresh-right a xs (c ∷ ys) apart.0).0 (sym e)), right-Fresh xs c ys apart.1)

pub last-Fresh :
    (c : Cell) (xs ys : Cells) → Apart ((c ∷ xs) ++ ys) → Fresh (last_address (c ∷ xs)) ys
last-Fresh c [] ys apart = apart.0
last-Fresh c (d ∷ xs) ys apart = last-Fresh d xs ys apart.1

pub Fresh-swap :
    (a : Ptr) (xs : Cells) (c d : Cell) (ys : Cells)
    → Fresh a (xs ++ c ∷ d ∷ ys)
    → Fresh a (xs ++ d ∷ c ∷ ys)
Fresh-swap a [] c d ys away = (away.1.0, (away.0, away.1.1))
Fresh-swap a (x ∷ xs) c d ys away = (away.0, Fresh-swap a xs c d ys away.1)

pub Apart-swap :
    (xs : Cells) (c d : Cell) (ys : Cells) → Apart (xs ++ c ∷ d ∷ ys) → Apart (xs ++ d ∷ c ∷ ys)
Apart-swap [] c d ys apart = (((λ e. apart.0.0 (sym e)), apart.1.0), (apart.0.1, apart.1.1))
Apart-swap ((a, f) ∷ xs) c d ys apart =
    (Fresh-swap a xs c d ys apart.0, Apart-swap xs c d ys apart.1)

pub EndsAt-right :
    (t : Ptr) (xs : Cells) (c : Cell) (ys : Cells) → EndsAt t (xs ++ c ∷ ys) → EndsAt t (c ∷ ys)
EndsAt-right t [] c ys e = e
EndsAt-right t (x ∷ []) c ys e = e
EndsAt-right t (x ∷ y ∷ xs) c ys e = EndsAt-right t (y ∷ xs) c ys e

pub EndsAt-left :
    (t : Ptr) (xs : Cells) (c : Cell) (ys : Cells) → EndsAt t (c ∷ ys) → EndsAt t (xs ++ c ∷ ys)
EndsAt-left t [] c ys e = e
EndsAt-left t (x ∷ []) c ys e = e
EndsAt-left t (x ∷ y ∷ xs) c ys e = EndsAt-left t (y ∷ xs) c ys e
