-- ===== src/Memory/Bytes.antt =====
-- Bytes at addresses. An `int` takes four bytes, the lowest first, in two's complement.
use projeto_so.Base.{
  ℕ, zero, suc, ◌+◌, ◌-◌, ◌*◌, ◌/◌, ◌%◌, ◌^◌, Bool, true, ◌&&◌, List, [], ◌∷◌, ltb, leb, ◌==◌,
  if◌then◌else◌, ℤ, pos, negsuc, length, get_or,
}

abbrev pub Bytes : Type 0
Bytes = ℕ → ℕ

-- `(uint32_t)` of an `int`, and back.
abbrev pub to_word : ℤ → ℕ
to_word (pos n) = n % 2 ^ 32
to_word (negsuc n) = 2 ^ 32 - 1 - n % 2 ^ 32

abbrev pub of_word : ℕ → ℤ
of_word n = if ltb n (2 ^ 31) then pos n else negsuc (2 ^ 32 - 1 - n)

unfoldable pub word_at : Bytes → ℕ → ℕ
word_at b a = b a + 256 * b (a + 1) + 65_536 * b (a + 2) + 16_777_216 * b (a + 3)

unfoldable pub read_int : Bytes → ℕ → ℤ
read_int b a = of_word (word_at b a)

-- `memcpy(a, src, length src)`
unfoldable pub memcpy : Bytes → ℕ → List ℕ → Bytes
memcpy b a src x = if leb a x && ltb x (a + length src) then get_or src (x - a) 0 else b x

-- The four bytes of a word.
unfoldable pub word_bytes : ℕ → List ℕ
word_bytes w = w % 256 ∷ w / 256 % 256 ∷ w / 65_536 % 256 ∷ w / 16_777_216 % 256 ∷ []

unfoldable pub write_int : Bytes → ℕ → ℤ → Bytes
write_int b a v = memcpy b a (word_bytes (to_word v))

-- The `n` bytes from address `a` on.
unfoldable pub read_bytes : Bytes → ℕ → ℕ → List ℕ
read_bytes b a zero = []
read_bytes b a (suc n) = b a ∷ read_bytes b (a + 1) n

-- `memset(a, 0, n)`
unfoldable pub clear_bytes : Bytes → ℕ → ℕ → Bytes
clear_bytes b a n x = if leb a x && ltb x (a + n) then 0 else b x

-- `strcmp(a, s) == 0`, where the list holds the bytes of `s` before its NUL.
unfoldable pub str_eq : Bytes → ℕ → List ℕ → Bool
str_eq b a [] = b a == 0
str_eq b a (c ∷ s) = b a == c && str_eq b (a + 1) s

-- `strncmp(a, s, n) == 0`
unfoldable pub strn_eq : Bytes → ℕ → List ℕ → ℕ → Bool
strn_eq b a s zero = true
strn_eq b a [] (suc n) = b a == 0
strn_eq b a (c ∷ s) (suc n) = b a == c && strn_eq b (a + 1) s n

-- The bytes that `strncpy(_, s, n)` writes: `s`, cut at `n` bytes or padded with NULs.
unfoldable pub strncpy_bytes : List ℕ → ℕ → List ℕ
strncpy_bytes s zero = []
strncpy_bytes [] (suc n) = 0 ∷ strncpy_bytes [] n
strncpy_bytes (c ∷ s) (suc n) = c ∷ strncpy_bytes s n

unfoldable pub strncpy : Bytes → ℕ → List ℕ → ℕ → Bytes
strncpy b a s n = memcpy b a (strncpy_bytes s n)
