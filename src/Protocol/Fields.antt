-- ===== src/Protocol/Fields.antt =====
-- Fields of a packet: what is written into one is read back, and stays when another is written.
use projeto_so.Base.{
  ℕ, zero, suc, ◌+◌, ◌/◌, ◌%◌, ◌^◌, ◌≤◌, ◌<◌, ◌≡◌, ◌≢◌, refl, ◌∙◌, ◌⊎◌, inl, List, [], ◌∷◌, ◌++◌,
  some, arith, length, get_or, length-append, lt→ltb,
}
use projeto_so.Memory.Bytes.{Bytes, memcpy, word_at, word_bytes}
use projeto_so.Memory.Frame.{memcpy-outside}
use projeto_so.Memory.Ints.{IsText, Spells, Spells-of_bytes, memcpy-at}
use projeto_so.Protocol.{c_string, strcpy, read_long, write_long, write_byte}

pub c_string-Spells :
    (b : Bytes) (a n : ℕ) (s : List ℕ)
    → Spells b a s
    → IsText s
    → length s < n
    → c_string b a n ≡ some s
unfolding c_string
c_string-Spells b a zero s spelled text le = absurd (omega arith)
c_string-Spells b a (suc n) [] spelled text le = rw spelled refl
c_string-Spells b a (suc n) (c ∷ s) (here, rest) (ne, text) le =
    rw (c_string-Spells b (a + 1) n s rest text (omega arith), here) (ground arith)

get_or-ended : (s : List ℕ) (j : ℕ) → get_or (s ++ 0 ∷ []) j 0 ≡ get_or s j 0
get_or-ended [] zero = refl
get_or-ended [] (suc j) = refl
get_or-ended (c ∷ s) zero = refl
get_or-ended (c ∷ s) (suc j) = get_or-ended s j

pub memcpy-Spells : (b : Bytes) (a : ℕ) (s : List ℕ) → Spells (memcpy b a (s ++ 0 ∷ [])) a s
memcpy-Spells b a s = Spells-of_bytes (memcpy b a (s ++ 0 ∷ [])) a s λ j x e le.
    memcpy-at b a j x (s ++ 0 ∷ []) e (omega (arith, length-append s (0 ∷ []))) ∙ get_or-ended s j

-- A string is the same in memory that has the same bytes there.
pub Spells-same :
    (b b' : Bytes) (a : ℕ) (s : List ℕ)
    → ((x : ℕ) → a ≤ x → x ≤ a + length s → b' x ≡ b x)
    → Spells b a s
    → Spells b' a s
Spells-same b b' a [] same h = same a (omega arith) (omega arith) ∙ h
Spells-same b b' a (c ∷ s) same (here, rest) = (
  same a (omega arith) (omega arith) ∙ here,
  Spells-same b b' (a + 1) s (λ x ge le. same x (omega arith) (omega arith)) rest,
)

word_at-bytes :
    (b : Bytes) (a w : ℕ)
    → ((k x : ℕ) → x ≡ a + k → k < 4 → b x ≡ get_or (word_bytes w) k 0)
    → word_at b a ≡ w % 2 ^ 32
unfolding word_at word_bytes
word_at-bytes b a w h = omega (
  arith,
  h 0 a (omega arith) (omega arith),
  h 1 (a + 1) refl (omega arith),
  h 2 (a + 2) refl (omega arith),
  h 3 (a + 3) refl (omega arith),
)

length-word_bytes : (w : ℕ) → length (word_bytes w) ≡ 4
unfolding word_bytes
length-word_bytes w = refl

pub read_long-write_long : (b : Bytes) (a v : ℕ) → v < 2 ^ 64 → read_long (write_long b a v) a ≡ v
unfolding read_long write_long
read_long-write_long b a v lt = omega (
  arith,
  word_at-bytes (memcpy (memcpy b a (word_bytes v)) (a + 4) (word_bytes (v / 2 ^ 32))) a v low,
  word_at-bytes (memcpy (memcpy b a (word_bytes v)) (a + 4) (word_bytes (v / 2 ^ 32))) (a + 4)
      (v / 2 ^ 32) high,
)
  where
    low :
        (k x : ℕ)
        → x ≡ a + k
        → k < 4
        → memcpy (memcpy b a (word_bytes v)) (a + 4) (word_bytes (v / 2 ^ 32)) x
          ≡ get_or (word_bytes v) k 0
    low k x e le =
        memcpy-outside (memcpy b a (word_bytes v)) (a + 4) (word_bytes (v / 2 ^ 32)) x
          (inl (omega arith))
        ∙ memcpy-at b a k x (word_bytes v) e (rw (length-word_bytes v) le)

    high :
        (k x : ℕ)
        → x ≡ a + 4 + k
        → k < 4
        → memcpy (memcpy b a (word_bytes v)) (a + 4) (word_bytes (v / 2 ^ 32)) x
          ≡ get_or (word_bytes (v / 2 ^ 32)) k 0
    high k x e le =
        memcpy-at (memcpy b a (word_bytes v)) (a + 4) k x (word_bytes (v / 2 ^ 32)) e
          (rw (length-word_bytes (v / 2 ^ 32)) le)

pub write_long-outside : (b : Bytes) (a v x : ℕ) → (x < a) ⊎ (a + 8 ≤ x) → write_long b a v x ≡ b x
unfolding write_long memcpy word_bytes
write_long-outside b a v x h = ground arith

pub read_long-same :
    (b b' : Bytes) (a : ℕ)
    → ((x : ℕ) → a ≤ x → x < a + 8 → b' x ≡ b x)
    → read_long b' a ≡ read_long b a
unfolding read_long word_at
read_long-same b b' a same =
    rw
      (
        at 0 a (omega arith) (omega arith),
        at 1 (a + 1) (omega arith) (omega arith),
        at 2 (a + 2) (omega arith) (omega arith),
        at 3 (a + 3) (omega arith) (omega arith),
        at 4 (a + 4) (omega arith) (omega arith),
        at 5 (a + 4 + 1) (omega arith) (omega arith),
        at 6 (a + 4 + 2) (omega arith) (omega arith),
        at 7 (a + 4 + 3) (omega arith) (omega arith),
      )
      refl
  where
    at : (k x : ℕ) → x ≡ a + k → k < 8 → b' x ≡ b x
    at k x e le = same x (omega arith) (omega arith)

pub write_byte-here : (b : Bytes) (a v : ℕ) → write_byte b a v a ≡ v
unfolding write_byte memcpy
write_byte-here b a v = ground arith

pub write_byte-outside : (b : Bytes) (a v x : ℕ) → x ≢ a → write_byte b a v x ≡ b x
unfolding write_byte memcpy
write_byte-outside b a v x ne = ground arith

pub strcpy-fits :
    (b : Bytes) (a n : ℕ) (s : List ℕ)
    → length s < n
    → strcpy b a n s ≡ some (memcpy b a (s ++ 0 ∷ []))
unfolding strcpy
strcpy-fits b a n s short = rw (lt→ltb (length s) n short) refl
