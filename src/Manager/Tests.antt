-- ===== src/Manager/Tests.antt =====
-- A manager that is sent the packets of two boxes.
use projeto_so.Base.{
  ℕ, ◌+◌, ◌%◌, List, ◌≡◌, refl, ap, ◌∙◌, true, false, Option, none, some, [], ◌∷◌, ◌==◌,
  if◌then◌else◌, length, pos, minus_one, arith, Option-cases, inl, inr,
}
use projeto_so.Memory.Bytes.{Bytes}
use projeto_so.Process.{Os, Ends}
use projeto_so.BoxList.{TfsFile, ListNode, Nodes, Ptr}
use projeto_so.BoxList.Allocated.{OneMore}
use projeto_so.Broker.Listing.{IsSendable, mailbox_answer-Tells}
use projeto_so.Manager.{Desk, Setting, show_boxes}
use projeto_so.Manager.Answers.{HasRoom}
use projeto_so.Manager.Shown.{Shows, show_boxes-Shows}

abbrev news : TfsFile
news = record { box_name = b'n' ∷ []; n_publishers = 1; n_subscribers = 300; box_size = 70_000 }

abbrev chat : TfsFile
chat = record { box_name = b'c' ∷ []; n_publishers = 0; n_subscribers = 0; box_size = 0 }

news-IsSendable : IsSendable news
news-IsSendable = record {
  text = ((λ e. absurd (omega arith)), tt);
  short = omega arith;
  publishers = omega arith;
  subscribers = omega arith;
  bytes = omega arith;
}

chat-IsSendable : IsSendable chat
chat-IsSendable = record {
  text = ((λ e. absurd (omega arith)), tt);
  short = omega arith;
  publishers = omega arith;
  subscribers = omega arith;
  bytes = omega arith;
}

abbrev stack : Bytes
stack x = 8

abbrev first_packet : Bytes
first_packet = (mailbox_answer-Tells stack news false news-IsSendable).0

abbrev second_packet : Bytes
second_packet = (mailbox_answer-Tells stack chat true chat-IsSendable).0

abbrev os : Os
os = record {
  open_fd = λ c name mode. pos 4;
  close = λ c fd. pos 0;
  unlink = λ c name. pos 0;
  not_found = λ c. false;
  mkfifo = λ c name. pos 0;
  write = λ c fd packet. pos 1_033;
  read = λ c fd buffer. (pos 1_033, if length c == 0 then first_packet else second_packet);
  interrupted = λ c. false;
  malloc = λ c n. true;
  access = λ c name. minus_one;
}

abbrev next_address : Option ListNode → Ptr
next_address none = 8
next_address (some n) = 16

abbrev malloc_node : Nodes → Ptr
malloc_node m = next_address (m 8)

-- The last digit of a number.
abbrev digit : ℕ → List ℕ
digit n = (b'0' + n % 10) ∷ []

abbrev setting : Setting
setting = record {
  os = os;
  malloc_node = malloc_node;
  stack = stack;
  fuel = 10;
  decimal = digit;
  register_pipe_name = b'r' ∷ [];
  client_pipe_name = b'm' ∷ [];
}

abbrev desk : Desk
desk = record { list = record { head = 0; tail = 0; size = pos 0 }; nodes = λ p. none; calls = [] }

second_address : (m : Nodes) → OneMore 8 desk.nodes m → malloc_node m ≡ 16
second_address m more = elim (Option-cases (m 8)) [
  | inl e ↦ absurd (more.1 e)
  | inr (n, e) ↦ ap next_address e
]

second_room : (m : Nodes) → OneMore 8 desk.nodes m → HasRoom malloc_node 1 m
second_room m more =
    let at_16 = second_address m more in
    (
      (λ z. absurd (omega (arith, at_16, z))),
      ap m at_16 ∙ more.0 16 (λ z. absurd (omega arith)) refl,
      λ m' h. tt,
    )

show_boxes-Shows_example :
    Ends (λ shown _. Shows digit (news ∷ chat ∷ []) shown) (show_boxes setting (pos 4) desk)
show_boxes-Shows_example =
    show_boxes-Shows setting (pos 4) desk (first_packet ∷ second_packet ∷ []) (news ∷ chat ∷ [])
      ((λ b. refl), ((λ b. refl), tt))
      (
        (mailbox_answer-Tells stack news false news-IsSendable).2,
        ((mailbox_answer-Tells stack chat true chat-IsSendable).2, tt),
      )
      ((λ e. cc), ((λ e. cc), tt)) ((λ e. absurd (omega arith)), refl, second_room) refl
      (omega arith)
