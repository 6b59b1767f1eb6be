-- ===== src/Memory.antt =====
-- C arrays as `malloc` returns them, and the bytes of a block: integers and strings in memory.
pub mod Bytes
pub mod Frame
pub mod Ints
pub mod Segments
use projeto_so.Base.{ℕ, ◌+◌, ◌-◌, ◌*◌, ◌<◌, Bool, Option, none, some, ltb, ◌==◌, if◌then◌else◌}

-- An array with room for `size` elements and what its elements hold. A NULL pointer is an array of
-- size 0: every access to it is out of bounds.
pub record Array {ℓ} (A : Type ℓ) : Type ℓ where
  pub size : ℕ
  pub cell : ℕ → A

module _ {ℓ} {A : Type ℓ} where
  -- The function `f` with the value `v` at `i`.
  abbrev pub update : (ℕ → A) → ℕ → A → ℕ → A
  update f i v j = if i == j then v else f j

  abbrev pub store : Array A → ℕ → A → Array A
  store a i v = record a { cell = update a.cell i v }
