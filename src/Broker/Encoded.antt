-- ===== src/Broker/Encoded.antt =====
-- A file that holds messages with their NULs, read into a cleared buffer.
use projeto_so.Base.{
  ℕ, zero, suc, ◌+◌, ◌-◌, ◌≤◌, ◌<◌, ◌≡◌, refl, ap, ◌∙◌, sym, inl, inr, Bool-cases, List, [], ◌∷◌,
  ◌++◌, arith, length, length-append, get_or, get_or-outside, ltb,
}
use mathlib.Core.List.{append_assoc}
use projeto_so.Memory.Bytes.{Bytes, memcpy}
use projeto_so.Memory.Ints.{IsText, Spells-of_bytes}
use projeto_so.Broker.Storing.{encoded, length-encoded}
use projeto_so.Broker.Receiving.{encoded_all}
use projeto_so.Broker.Stored.{Messages}

-- Messages that are texts and not empty.
abbrev pub AreMessages : List (List ℕ) → Type 0
AreMessages [] = Unit {0}
AreMessages (m ∷ ms) = IsText m × (0 < length m) × AreMessages ms

pub encoded_all-append :
    (ms ns : List (List ℕ)) → encoded_all (ms ++ ns) ≡ encoded_all ms ++ encoded_all ns
encoded_all-append [] ns = refl
encoded_all-append (m ∷ ms) ns =
    ap (λ r. encoded m ++ r) (encoded_all-append ms ns)
    ∙ sym (append_assoc (encoded m) (encoded_all ms) (encoded_all ns))

pub append-AreMessages :
    (ms ns : List (List ℕ)) → AreMessages ms → AreMessages ns → AreMessages (ms ++ ns)
append-AreMessages [] ns a b = b
append-AreMessages (m ∷ ms) ns (text, some_byte, rest) b =
    (text, some_byte, append-AreMessages ms ns rest b)

-- The byte `j` of a stored message.
pub encoded_byte :
    (m rest : List ℕ) (j : ℕ) → j ≤ length m → get_or (encoded m ++ rest) j 0 ≡ get_or m j 0
encoded_byte [] rest zero le = refl
encoded_byte [] rest (suc j) le = absurd (omega arith)
encoded_byte (x ∷ m) rest zero le = refl
encoded_byte (x ∷ m) rest (suc j) le = encoded_byte m rest j (omega arith)

behind : (xs ys : List ℕ) (j k : ℕ) → k ≡ length xs + j → get_or (xs ++ ys) k 0 ≡ get_or ys j 0
behind [] ys j k e = ap (λ q. get_or ys q 0) (omega (arith, e))
behind (x ∷ xs) ys j zero e = absurd (omega (arith, e))
behind (x ∷ xs) ys j (suc k) e = behind xs ys j k (omega (arith, e))

bytes-Messages :
    (b : Bytes) (a : ℕ) (ms : List (List ℕ))
    → ((j x : ℕ) → x ≡ a + j → b x ≡ get_or (encoded_all ms) j 0)
    → AreMessages ms
    → a + length (encoded_all ms) < 1_024
    → Messages b a ms
bytes-Messages b a [] bytes texts room = (bytes 0 a (omega arith), omega arith)
bytes-Messages b a (m ∷ ms) bytes (text, some_byte, texts) room = (
  Spells-of_bytes b a m (λ j x e le. bytes j x e ∙ encoded_byte m (encoded_all ms) j le),
  text,
  some_byte,
  omega (arith, sum),
  bytes-Messages b (a + (length m + 1)) ms
      (λ j x e.
        bytes (length m + 1 + j) x (omega (arith, e))
        ∙ behind (encoded m) (encoded_all ms) j (length m + 1 + j)
            (omega (arith, length-encoded m)))
      texts (omega (arith, sum)),
)
  where
    sum : length (encoded_all (m ∷ ms)) ≡ length m + 1 + length (encoded_all ms)
    sum = omega (arith, length-encoded m, length-append {0} (encoded m) (encoded_all ms))

cleared_byte : (bytes : List ℕ) (x : ℕ) → memcpy (λ _. 0) 0 bytes x ≡ get_or bytes x 0
unfolding memcpy
cleared_byte bytes x = elim (Bool-cases (ltb x (length bytes))) [
  | inl lt ↦ ground (arith, ap (λ q. get_or bytes q 0) (from_start x))
  | inr ge ↦ ground (arith, get_or-outside bytes x 0)
]
  where
    from_start : (y : ℕ) → y - 0 ≡ y
    from_start y = omega arith

-- A buffer of NULs into which the stored messages were read holds them, and a NUL behind them.
pub buffer-Messages :
    (ms : List (List ℕ))
    → AreMessages ms
    → length (encoded_all ms) < 1_024
    → Messages (memcpy (λ _. 0) 0 (encoded_all ms)) 0 ms
buffer-Messages ms texts room =
    bytes-Messages (memcpy (λ _. 0) 0 (encoded_all ms)) 0 ms
      (λ j x e.
        cleared_byte (encoded_all ms) x ∙ ap (λ q. get_or (encoded_all ms) q 0) (omega (arith, e)))
      texts (omega (arith, room))
