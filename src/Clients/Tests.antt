-- ===== src/Clients/Tests.antt =====
-- A publisher's requests.
mod Programs
use projeto_so.Base.{◌≡◌, some, [], ◌∷◌, arith}
use projeto_so.Memory.Bytes.{Bytes}
use projeto_so.Protocol.{c_string, register_publisher}
use projeto_so.Manager.{box_request}
use projeto_so.Clients.{registration, without_newline, line_packet}
use projeto_so.Clients.Requests.{Requests, registration-Requests}
use projeto_so.Clients.Lines.{line_packet-Publishes}

abbrev stack : Bytes
stack x = 77

registration-Requests_example :
    ((p : Bytes) × (registration stack register_publisher (b'p' ∷ b'1' ∷ []) (b'b' ∷ []) ≡ some p)
      × Requests p register_publisher (b'p' ∷ b'1' ∷ []) (b'b' ∷ []))
    × ((p : Bytes) × (box_request stack register_publisher (b'b' ∷ []) (b'p' ∷ b'1' ∷ []) ≡ some p)
        × Requests p register_publisher (b'p' ∷ b'1' ∷ []) (b'b' ∷ []))
registration-Requests_example =
    registration-Requests stack register_publisher (b'p' ∷ b'1' ∷ []) (b'b' ∷ [])
      ((λ e. absurd (omega arith)), ((λ e. absurd (omega arith)), tt)) (omega arith)
      ((λ e. absurd (omega arith)), tt) (omega arith)
