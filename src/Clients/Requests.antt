-- ===== src/Clients/Requests.antt =====
-- The requests and messages of the clients, as the server reads them.
use projeto_so.Base.{
  ℕ, ◌+◌, ◌<◌, ◌≡◌, ◌∙◌, inl, inr, some, List, [], ◌∷◌, ◌++◌, arith, length, length-append,
}
use projeto_so.Memory.Bytes.{Bytes, memcpy}
use projeto_so.Memory.Frame.{memcpy-outside}
use projeto_so.Memory.Ints.{IsText}
use projeto_so.Protocol.{c_string, write_byte}
use projeto_so.Protocol.At
use projeto_so.Protocol.Fields.{
  c_string-Spells, memcpy-Spells, Spells-same, strcpy-fits, write_byte-here,
}
use projeto_so.Manager.{box_request}
use projeto_so.Clients.{registration}

-- What the server reads from a request.
pub record Requests (p : Bytes) (opcode : ℕ) (client_pipe box_name : List ℕ) : Type 0 where
  pub opcode_is : p At.opcode ≡ opcode
  pub pipe_is : c_string p At.client_pipe 256 ≡ some client_pipe
  pub box_is : c_string p At.registered_box 32 ≡ some box_name

module _ (base : Bytes) (pipe box : List ℕ) (pipe_text : IsText pipe)
    (pipe_short : length pipe < 256) (box_text : IsText box) (box_short : length box < 32) where
  abbrev pipe_first : Bytes
  pipe_first = memcpy (memcpy base 1 (pipe ++ 0 ∷ [])) 257 (box ++ 0 ∷ [])

  abbrev box_first : Bytes
  box_first = memcpy (memcpy base 257 (box ++ 0 ∷ [])) 1 (pipe ++ 0 ∷ [])

  copied : (n : List ℕ) → length (n ++ 0 ∷ []) ≡ length n + 1
  copied n = length-append n (0 ∷ [])

  pub registered : (v : ℕ) → base 0 ≡ v → Requests pipe_first v pipe box
  registered v e = record {
    opcode_is =
        memcpy-outside (memcpy base 1 (pipe ++ 0 ∷ [])) 257 (box ++ 0 ∷ []) 0 (inl (omega arith))
        ∙ memcpy-outside base 1 (pipe ++ 0 ∷ []) 0 (inl (omega arith))
        ∙ e;
    pipe_is =
        c_string-Spells pipe_first 1 256 pipe
          (Spells-same (memcpy base 1 (pipe ++ 0 ∷ [])) pipe_first 1 pipe
            (λ x ge le.
              memcpy-outside (memcpy base 1 (pipe ++ 0 ∷ [])) 257 (box ++ 0 ∷ []) x
                (inl (omega arith)))
            (memcpy-Spells base 1 pipe))
          pipe_text pipe_short;
    box_is =
        c_string-Spells pipe_first 257 32 box
          (memcpy-Spells (memcpy base 1 (pipe ++ 0 ∷ [])) 257 box) box_text box_short;
  }

  pub requested : (v : ℕ) → base 0 ≡ v → Requests box_first v pipe box
  requested v e = record {
    opcode_is =
        memcpy-outside (memcpy base 257 (box ++ 0 ∷ [])) 1 (pipe ++ 0 ∷ []) 0 (inl (omega arith))
        ∙ memcpy-outside base 257 (box ++ 0 ∷ []) 0 (inl (omega arith))
        ∙ e;
    pipe_is =
        c_string-Spells box_first 1 256 pipe
          (memcpy-Spells (memcpy base 257 (box ++ 0 ∷ [])) 1 pipe) pipe_text pipe_short;
    box_is =
        c_string-Spells box_first 257 32 box
          (Spells-same (memcpy base 257 (box ++ 0 ∷ [])) box_first 257 box
            (λ x ge le.
              memcpy-outside (memcpy base 257 (box ++ 0 ∷ [])) 1 (pipe ++ 0 ∷ []) x
                (inr (omega (arith, copied pipe))))
            (memcpy-Spells base 257 box))
          box_text box_short;
  }

-- For a pipe name of at most 255 bytes and a box name of at most 31, neither with a NUL inside,
-- the requests that a manager, a publisher and a subscriber build are read by the server as the
-- operation code and the two names that went in, whatever the packet held before.
pub registration-Requests :
    (stack : Bytes) (opcode : ℕ) (pipe box : List ℕ)
    → IsText pipe
    → length pipe < 256
    → IsText box
    → length box < 32
    → ((p : Bytes) × (registration stack opcode pipe box ≡ some p) × Requests p opcode pipe box)
      × ((p : Bytes) × (box_request stack opcode box pipe ≡ some p) × Requests p opcode pipe box)
unfolding registration box_request
registration-Requests stack opcode pipe box pipe_text pipe_short box_text box_short = (
  (
    pipe_first base pipe box pipe_text pipe_short box_text box_short,
    rw (strcpy-fits base 1 256 pipe pipe_short)
        (strcpy-fits (memcpy base 1 (pipe ++ 0 ∷ [])) 257 32 box box_short),
    registered base pipe box pipe_text pipe_short box_text box_short opcode
        (write_byte-here stack 0 opcode),
  ),
  (
    box_first base pipe box pipe_text pipe_short box_text box_short,
    rw (strcpy-fits base 257 32 box box_short)
        (strcpy-fits (memcpy base 257 (box ++ 0 ∷ [])) 1 256 pipe pipe_short),
    requested base pipe box pipe_text pipe_short box_text box_short opcode
        (write_byte-here stack 0 opcode),
  ),
)
  where
    base : Bytes
    base = write_byte stack 0 opcode
