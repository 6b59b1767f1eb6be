-- ===== src/Memory/Frame.antt =====
-- What a write to memory leaves alone, and what it puts where.
use projeto_so.Base.{
  ℕ, zero, suc, ◌+◌, ◌-◌, ◌*◌, ◌≤◌, ◌<◌, ◌≡◌, ◌≢◌, refl, ap, ◌∙◌, ◌⊎◌, inl, inr, List, [], ◌∷◌,
  arith, length, get_or, get_or-cons,
}
use mathlib.Core.Path.{ap₂}
use native.Mathlib.Decide.{dec_lt}
use projeto_so.Memory.Bytes.{Bytes, memcpy, read_int, word_at, read_bytes}

module _ (b : Bytes) (a : ℕ) (src : List ℕ) where
  pub memcpy-outside : (x : ℕ) → (x < a) ⊎ (a + length src ≤ x) → memcpy b a src x ≡ b x
  unfolding memcpy
  memcpy-outside x h = ground arith

  pub memcpy-inside : (x : ℕ) → a ≤ x → x < a + length src → memcpy b a src x ≡ get_or src (x - a) 0
  unfolding memcpy
  memcpy-inside x h k = ground arith

-- Two memories that agree on the four bytes hold the same `int` there.
pub read_int-cong :
    (b c : Bytes) (a : ℕ) → ((x : ℕ) → a ≤ x → x < a + 4 → b x ≡ c x) → read_int b a ≡ read_int c a
unfolding read_int word_at
read_int-cong b c a h = ground (
  arith,
  h a (omega arith) (omega arith),
  h (a + 1) (omega arith) (omega arith),
  h (a + 2) (omega arith) (omega arith),
  h (a + 3) (omega arith) (omega arith),
)

-- A block of `m` bytes lies inside `n` of them.
pub block_in_range : (b n m : ℕ) → b < n → b * m + m ≤ n * m
block_in_range b n m h = grind arith

-- Two blocks of `m` bytes do not overlap.
pub block_apart : (b c x m : ℕ) → b ≢ c → x < m → (b * m + x < c * m) ⊎ (c * m + m ≤ b * m + x)
block_apart b c x m ne h = elim (dec_lt b c) [
  | yes p ↦ inl (omega (arith, block_in_range b c m p))
  | no p ↦ inr (omega (arith, block_in_range c b m (omega arith)))
]

-- Reading `n` bytes reads what each address holds.
pub read_bytes-cong :
    (b c : Bytes) (a n : ℕ)
    → ((x : ℕ) → a ≤ x → x < a + n → b x ≡ c x)
    → read_bytes b a n ≡ read_bytes c a n
unfolding read_bytes
read_bytes-cong b c a zero h = refl
read_bytes-cong b c a (suc n) h =
    ap₂ ◌∷◌ (h a (omega arith) (omega arith))
      (read_bytes-cong b c (a + 1) n λ x lo hi. h x (omega arith) (omega arith))

-- The bytes that were copied are read back.
pub read_bytes-memcpy :
    (b : Bytes) (a : ℕ) (src : List ℕ) → read_bytes (memcpy b a src) a (length src) ≡ src
unfolding read_bytes memcpy
read_bytes-memcpy b a [] = refl
read_bytes-memcpy b a (c ∷ src) = ap₂ ◌∷◌ (ground arith) (
    read_bytes-cong (memcpy b a (c ∷ src)) (memcpy b (a + 1) src) (a + 1) (length src)
      (λ x lo hi. ground (arith, get_or-cons c src (x - a) 0, ap (λ k. get_or src k 0) (rest x)))
    ∙ read_bytes-memcpy b (a + 1) src)
  where
    rest : (x : ℕ) → x - a - 1 ≡ x - (a + 1)
    rest x = omega arith
