-- ===== src/Protocol.antt =====
-- utils/protocol.h: packets of 1033 bytes, the operation code first and the payload behind it.
pub mod At
pub mod Fields
use projeto_so.Base.{
  ℕ, zero, suc, ◌+◌, ◌*◌, ◌/◌, ◌^◌, List, [], ◌∷◌, ◌++◌, Option, none, some, map_option, ltb, leb,
  ◌==◌, if◌then◌else◌, length, ℤ,
}
use projeto_so.Memory.Bytes.{Bytes, memcpy, word_at, word_bytes, read_int, write_int}

abbrev pub pipe_name_size : ℕ
pipe_name_size = 256

abbrev pub box_name_size : ℕ
box_name_size = 32

abbrev pub message_size : ℕ
message_size = 1024

-- `packet_opcode_t`
abbrev pub register_publisher : ℕ
register_publisher = 1

abbrev pub register_subscriber : ℕ
register_subscriber = 2

abbrev pub create_mailbox : ℕ
create_mailbox = 3

abbrev pub create_mailbox_answer : ℕ
create_mailbox_answer = 4

abbrev pub remove_mailbox : ℕ
remove_mailbox = 5

abbrev pub remove_mailbox_answer : ℕ
remove_mailbox_answer = 6

abbrev pub list_mailboxes : ℕ
list_mailboxes = 7

abbrev pub list_mailboxes_answer : ℕ
list_mailboxes_answer = 8

abbrev pub publish_message : ℕ
publish_message = 9

abbrev pub send_message : ℕ
send_message = 10

-- The bytes before the NUL of a `char` array of `n` bytes; `none` if it has no NUL.
unfoldable pub c_string : Bytes → ℕ → ℕ → Option (List ℕ)
c_string b a zero = none
c_string b a (suc n) =
    let rest = c_string b (a + 1) n in if b a == 0 then some [] else map_option (λ s. b a ∷ s) rest

-- `strcpy(a, s)` into a `char` array of `n` bytes.
unfoldable pub strcpy : Bytes → ℕ → ℕ → List ℕ → Option Bytes
strcpy b a n s = if ltb (length s) n then some (memcpy b a (s ++ 0 ∷ [])) else none

unfoldable pub write_byte : Bytes → ℕ → ℕ → Bytes
write_byte b a v = memcpy b a (v ∷ [])

-- A `uint64_t`, the lowest byte first.
unfoldable pub read_long : Bytes → ℕ → ℕ
read_long b a = word_at b a + 2 ^ 32 * word_at b (a + 4)

unfoldable pub write_long : Bytes → ℕ → ℕ → Bytes
write_long b a v = memcpy (memcpy b a (word_bytes v)) (a + 4) (word_bytes (v / 2 ^ 32))

-- A second `strcpy` into the packet.
abbrev pub then_strcpy : Option Bytes → ℕ → ℕ → List ℕ → Option Bytes
then_strcpy none a n s = none
then_strcpy (some b) a n s = strcpy b a n s
