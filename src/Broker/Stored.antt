-- ===== src/Broker/Stored.antt =====
-- The messages of a box that a new subscriber is sent.
use projeto_so.Base.{
  ℕ, zero, suc, ◌+◌, ◌-◌, ◌<◌, ◌≡◌, refl, ◌∙◌, inl, false, some, List, [], ◌∷◌, ◌++◌, arith, length,
  ◌==◌, ℤ,
}
use mathlib.Core.Path.{subst}
use projeto_so.Memory.Bytes.{Bytes, memcpy, clear_bytes}
use projeto_so.Memory.Frame.{memcpy-outside}
use projeto_so.Memory.Ints.{IsText, Spells, clear_bytes-outside}
use projeto_so.Process.{ok, writes}
use projeto_so.Protocol.{c_string}
use projeto_so.Protocol.At
use projeto_so.Protocol.Fields.{c_string-Spells, memcpy-Spells, strcpy-fits}
use projeto_so.Broker.{World, Env}
use projeto_so.Broker.Sessions.{message_packet, send_stored}
use projeto_so.Broker.Sending.{Serves, sent, pipe_write-done}

-- The buffer holds the messages one behind the other from address `a` on, each with its NUL, and
-- then another NUL, all within its 1024 bytes.
abbrev pub Messages : Bytes → ℕ → List (List ℕ) → Type 0
Messages b a [] = (b a ≡ 0) × (a < 1_024)
Messages b a (m ∷ ms) =
    Spells b a m
    × IsText m
    × (0 < length m)
    × (a + length m < 1_024)
    × Messages b (a + (length m + 1)) ms

-- The packets carry the messages, in this order.
abbrev pub Carries : ℕ → List Bytes → List (List ℕ) → Type 0
Carries opcode [] [] = Unit {0}
Carries opcode [] (m ∷ ms) = ⊥
Carries opcode (p ∷ ps) [] = ⊥
Carries opcode (p ∷ ps) (m ∷ ms) =
    (p At.opcode ≡ opcode) × (c_string p At.message 1_024 ≡ some m) × Carries opcode ps ms

pub carried :
    (packet : Bytes) (text : List ℕ)
    → IsText text
    → length text < 1_024
    → (p : Bytes) × (message_packet packet text ≡ some p)
      × (p 0 ≡ packet 0)
      × (c_string p 1 1_024 ≡ some text)
unfolding message_packet
carried packet text plain short = (
  memcpy cleared 1 (text ++ 0 ∷ []),
  strcpy-fits cleared 1 1_024 text short,
  memcpy-outside cleared 1 (text ++ 0 ∷ []) 0 (inl (omega arith))
      ∙ clear_bytes-outside packet 1 1_024 0 (inl (omega arith)),
  c_string-Spells (memcpy cleared 1 (text ++ 0 ∷ [])) 1 1_024 text (memcpy-Spells cleared 1 text)
      plain short,
)
  where
    cleared : Bytes
    cleared = clear_bytes packet 1 1_024

is_empty_text : (text : List ℕ) → 0 < length text → (length text == 0) ≡ false
is_empty_text text lt = ground arith

-- If the buffer holds messages that are not empty, and behind them a NUL that is still in the
-- buffer, and writing to the pipe does not fail, then with fuel for each message a new subscriber
-- is sent them all, each in one packet, in their order, and nothing else; no byte outside the
-- buffer is read.
pub send_stored-Carries :
    (e : Env) (pipe : ℤ) (k : ℕ) (packet buffer : Bytes) (a : ℕ) (ms : List (List ℕ)) (w : World)
    → Serves e.os pipe
    → Messages buffer a ms
    → length ms < k
    → (ps : List Bytes) × (last : Bytes) × (send_stored e k pipe packet buffer a w
        ≡ ok last (record w { calls = sent pipe ps w.calls }))
      × Carries (packet At.opcode) ps ms
unfolding send_stored
send_stored-Carries e pipe zero packet buffer a ms w serves held le = absurd (omega arith)
send_stored-Carries e pipe (suc k) packet buffer a [] w serves (nul, room) le =
    ([], packet, rw (c_string-Spells buffer a (1_024 - a) [] nul tt (omega arith)) refl, tt)
send_stored-Carries e pipe (suc k) packet buffer a (m ∷ ms) w serves
      (spelled, text, some_byte, room, rest) le =
    let (p, made, same, reads) = carried packet m text (omega arith) in
    let (ps, last, run, carries) =
      send_stored-Carries e pipe k p buffer (a + (length m + 1)) ms
        (record w { calls = writes pipe p ∷ w.calls }) serves rest (omega arith) in
    (
      p ∷ ps,
      last,
      rw
          (
            c_string-Spells buffer a (1_024 - a) m spelled text (omega arith),
            is_empty_text m some_byte,
            made,
            pipe_write-done e.os pipe p w.calls serves,
          )
          run,
      (same, reads, subst (λ v. Carries v ps ms) same carries),
    )
