-- ===== src/Memory/Ints.antt =====
-- Integers and names in memory: what is written is read back.
use projeto_so.Base.{
  ℕ, zero, suc, ◌+◌, ◌-◌, ◌%◌, ◌^◌, ◌≤◌, ◌<◌, ◌≡◌, ◌≢◌, refl, ap, ◌∙◌, ◌⊎◌, List, [], ◌∷◌, arith,
  length, get_or, true, ℤ, pos, minus_one,
}
use projeto_so.Memory.Bytes.{
  Bytes, memcpy, read_int, word_at, clear_bytes, write_int, word_bytes, strncpy, strncpy_bytes,
  str_eq, strn_eq,
}
use projeto_so.Memory.Frame.{memcpy-outside, memcpy-inside}

pub memcpy-at :
    (b : Bytes) (a k x : ℕ) (src : List ℕ)
    → x ≡ a + k
    → k < length src
    → memcpy b a src x ≡ get_or src k 0
memcpy-at b a k x src e h =
    memcpy-inside b a src x (omega arith) (omega arith) ∙ ap (λ j. get_or src j 0) (omega arith)

word_at-memcpy : (b : Bytes) (a w : ℕ) → w < 2 ^ 32 → word_at (memcpy b a (word_bytes w)) a ≡ w
unfolding word_at word_bytes
word_at-memcpy b a w h = omega (
  arith,
  byte 0 a (omega arith) (omega arith),
  byte 1 (a + 1) refl (omega arith),
  byte 2 (a + 2) refl (omega arith),
  byte 3 (a + 3) refl (omega arith),
)
  where
    byte : (k x : ℕ) → x ≡ a + k → k < 4 → memcpy b a (word_bytes w) x ≡ get_or (word_bytes w) k 0
    byte k x e lt = memcpy-at b a k x (word_bytes w) e lt

-- An index and -1 are read back.
pub read_int-write_int :
    (b : Bytes) (a n : ℕ) → n < 2 ^ 31 → read_int (write_int b a (pos n)) a ≡ pos n
unfolding read_int write_int
read_int-write_int b a n h = rw (word_at-memcpy b a (n % 2 ^ 32) (omega arith)) (ground arith)

pub read_int-write_minus_one :
    (b : Bytes) (a : ℕ) → read_int (write_int b a minus_one) a ≡ minus_one
unfolding read_int write_int
read_int-write_minus_one b a = rw (word_at-memcpy b a (2 ^ 32 - 1) (omega arith)) refl

pub write_int-outside :
    (b : Bytes) (a : ℕ) (v : ℤ) (x : ℕ) → (x < a) ⊎ (a + 4 ≤ x) → write_int b a v x ≡ b x
unfolding write_int memcpy word_bytes
write_int-outside b a v x h = ground arith

pub length-strncpy_bytes : (s : List ℕ) (n : ℕ) → length (strncpy_bytes s n) ≡ n
unfolding strncpy_bytes
length-strncpy_bytes s zero = refl
length-strncpy_bytes [] (suc n) = ap suc (length-strncpy_bytes [] n)
length-strncpy_bytes (c ∷ s) (suc n) = ap suc (length-strncpy_bytes s n)

pub strncpy-outside :
    (b : Bytes) (a : ℕ) (s : List ℕ) (n x : ℕ) → (x < a) ⊎ (a + n ≤ x) → strncpy b a s n x ≡ b x
unfolding strncpy
strncpy-outside b a s n x h =
    memcpy-outside b a (strncpy_bytes s n) x (rw (length-strncpy_bytes s n) h)

pub clear_bytes-outside :
    (b : Bytes) (a n x : ℕ) → (x < a) ⊎ (a + n ≤ x) → clear_bytes b a n x ≡ b x
unfolding clear_bytes
clear_bytes-outside b a n x h = ground arith

-- No byte of a C string is NUL.
abbrev pub IsText : List ℕ → Type 0
IsText [] = Unit {0}
IsText (c ∷ s) = (c ≢ 0) × IsText s

-- Memory that spells the name, NUL included, compares equal to it.
abbrev pub Spells : Bytes → ℕ → List ℕ → Type 0
Spells b a [] = b a ≡ 0
Spells b a (c ∷ s) = (b a ≡ c) × Spells b (a + 1) s

pub strn_eq-Spells :
    (b : Bytes) (a : ℕ) (s : List ℕ) (n : ℕ) → Spells b a s → strn_eq b a s n ≡ true
unfolding strn_eq
strn_eq-Spells b a s zero h = refl
strn_eq-Spells b a [] (suc n) h = ground arith
strn_eq-Spells b a (c ∷ s) (suc n) h = ground (arith, strn_eq-Spells b (a + 1) s n h.1)

pub str_eq-Spells : (b : Bytes) (a : ℕ) (s : List ℕ) → str_eq b a s ≡ true → Spells b a s
unfolding str_eq
str_eq-Spells b a [] h = ground arith
str_eq-Spells b a (c ∷ s) h = ground (arith, str_eq-Spells b (a + 1) s)

-- `strncmp` over more bytes than the name has is `strcmp`.
pub str_eq-eq-strn_eq :
    (b : Bytes) (a : ℕ) (s : List ℕ) (n : ℕ) → length s < n → strn_eq b a s n ≡ str_eq b a s
unfolding str_eq strn_eq
str_eq-eq-strn_eq b a s zero h = absurd (omega arith)
str_eq-eq-strn_eq b a [] (suc n) h = refl
str_eq-eq-strn_eq b a (c ∷ s) (suc n) h = ground (arith, str_eq-eq-strn_eq b (a + 1) s n)

pub get_or-strncpy_bytes :
    (s : List ℕ) (n j : ℕ) → j < n → get_or (strncpy_bytes s n) j 0 ≡ get_or s j 0
unfolding strncpy_bytes
get_or-strncpy_bytes s zero j h = absurd (omega arith)
get_or-strncpy_bytes [] (suc n) zero h = refl
get_or-strncpy_bytes [] (suc n) (suc j) h = get_or-strncpy_bytes [] n j (omega arith)
get_or-strncpy_bytes (c ∷ s) (suc n) zero h = refl
get_or-strncpy_bytes (c ∷ s) (suc n) (suc j) h = get_or-strncpy_bytes s n j (omega arith)

pub Spells-of_bytes :
    (b : Bytes) (a : ℕ) (s : List ℕ)
    → ((j x : ℕ) → x ≡ a + j → j ≤ length s → b x ≡ get_or s j 0)
    → Spells b a s
Spells-of_bytes b a [] h = h 0 a (omega arith) (omega arith)
Spells-of_bytes b a (c ∷ s) h = (
  h 0 a (omega arith) (omega arith),
  Spells-of_bytes b (a + 1) s λ j x e le. h (suc j) x (omega arith) (omega arith),
)
