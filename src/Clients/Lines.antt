-- ===== src/Clients/Lines.antt =====
-- A line of the publisher's input in its packet.
use projeto_so.Base.{
  ℕ, ◌+◌, ◌≤◌, ◌<◌, ◌≡◌, refl, sym, ◌∙◌, inl, inr, some, List, [], ◌∷◌, false, Bool-cases, arith,
  length, ltb, ◌==◌, get_or, get_or-outside,
}
use projeto_so.Memory.Bytes.{Bytes, memcpy, clear_bytes}
use projeto_so.Memory.Frame.{memcpy-outside}
use projeto_so.Memory.Ints.{IsText, Spells, Spells-of_bytes, memcpy-at, clear_bytes-outside}
use projeto_so.Protocol.{c_string, write_byte, publish_message}
use projeto_so.Protocol.At
use projeto_so.Protocol.Fields.{c_string-Spells, write_byte-here}
use projeto_so.Clients.{without_newline, line_packet}

without_newline-IsText : (line : List ℕ) → IsText line → IsText (without_newline line)
unfolding without_newline
without_newline-IsText [] h = tt
without_newline-IsText (c ∷ line) (ne, rest) = elim (Bool-cases (c == b'\n')) [
  | inl e ↦ rw e tt
  | inr e ↦ rw e (ne, without_newline-IsText line rest)
]

pub without_newline-length : (line : List ℕ) → length (without_newline line) ≤ length line
unfolding without_newline
without_newline-length [] = omega arith
without_newline-length (c ∷ line) = ground (arith, without_newline-length line)

cleared-zero : (b : Bytes) (a n x : ℕ) → a ≤ x → x < a + n → clear_bytes b a n x ≡ 0
unfolding clear_bytes
cleared-zero b a n x ge lt = ground arith

message-Spells :
    (b : Bytes) (a n : ℕ) (text : List ℕ)
    → length text < n
    → Spells (memcpy (clear_bytes b a n) a text) a text
message-Spells b a n text short = Spells-of_bytes (memcpy (clear_bytes b a n) a text) a text byte
  where
    byte :
        (j x : ℕ)
        → x ≡ a + j
        → j ≤ length text
        → memcpy (clear_bytes b a n) a text x ≡ get_or text j 0
    byte j x e le = elim (Bool-cases (ltb j (length text))) [
      | inl lt ↦ memcpy-at (clear_bytes b a n) a j x text e (ground arith)
      | inr ge ↦
          memcpy-outside (clear_bytes b a n) a text x (inr (ground arith))
          ∙ cleared-zero b a n x (omega arith) (omega arith)
          ∙ sym (get_or-outside text j 0 (ground arith))
    ]

-- For a line of at most 1023 bytes without a NUL, as `fgets` gives it, the packet of the publisher
-- has its operation code, and the server reads from it the bytes of the line before the newline.
pub line_packet-Publishes :
    (stack : Bytes) (line : List ℕ)
    → IsText line
    → length line < 1_024
    → (p : Bytes) × (line_packet stack line ≡ some p)
      × (p At.opcode ≡ publish_message)
      × (c_string p At.message 1_024 ≡ some (without_newline line))
unfolding line_packet
line_packet-Publishes stack line text short = (
  packet,
  rw fits refl,
  memcpy-outside (clear_bytes base 1 1_024) 1 (without_newline line) 0 (inl (omega arith))
      ∙ clear_bytes-outside base 1 1_024 0 (inl (omega arith))
      ∙ write_byte-here stack 0 9,
  c_string-Spells packet 1 1_024 (without_newline line)
      (message-Spells base 1 1_024 (without_newline line) cut) (without_newline-IsText line text)
      cut,
)
  where
    base : Bytes
    base = write_byte stack 0 9

    packet : Bytes
    packet = memcpy (clear_bytes base 1 1_024) 1 (without_newline line)

    cut : length (without_newline line) < 1_024
    cut = omega (arith, without_newline-length line)

    fits : ltb 1_024 (length (without_newline line)) ≡ false
    fits = ground (arith, cut)
