-- ===== src/Protocol/At.antt =====
-- The places of the fields of utils/protocol.h in a packet. The payload starts at 1; a `uint64_t`
-- stands at a multiple of eight of its struct.
use projeto_so.Base.{ℕ}

abbrev pub opcode : ℕ
opcode = 0

abbrev pub client_pipe : ℕ
client_pipe = 1

abbrev pub registered_box : ℕ
registered_box = 257

abbrev pub return_code : ℕ
return_code = 1

abbrev pub error_message : ℕ
error_message = 5

abbrev pub last : ℕ
last = 1

abbrev pub listed_box : ℕ
listed_box = 2

abbrev pub box_size : ℕ
box_size = 41

abbrev pub n_subscribers : ℕ
n_subscribers = 49

abbrev pub n_publishers : ℕ
n_publishers = 57

abbrev pub message : ℕ
message = 1
