-- ===== src/Clients/Tests/Programs.antt =====
-- The programs of the publisher and the subscriber at a concrete call.
use projeto_so.Base.{
  ◌+◌, ℕ, ◌≡◌, refl, true, false, some, List, [], ◌∷◌, ◌==◌, if◌then◌else◌, arith, pos, minus_one,
}
use projeto_so.Memory.Bytes.{Bytes}
use projeto_so.Process.{Os, ok, fault, opens, read_only, write_only, exit_success}
use projeto_so.Pipes.{pipe_open, retry, open_once, pipe_create, pipe_destroy}
use projeto_so.Protocol.{c_string, register_publisher, register_subscriber}
use projeto_so.Clients.{publisher_main, subscriber_main}
use projeto_so.Clients.Requests.{Requests}
use projeto_so.Clients.Sessions.{Makes, messages_of, AllPublish, registered, ended, tells, shown}
use projeto_so.Clients.Programs.{
  argv, publisher_main-Publishes, subscriber_main-Shows, missing_box_name,
}
use projeto_so.Broker.Sending.{Serves, sent}
use projeto_so.Broker.Subscribing.{Opens}
use projeto_so.Broker.Receiving.{Holds, count_reads}

abbrev yo : Bytes
yo x = if x == 1 then b'y' else if x == 2 then b'o' else 0

abbrev os : Os
os = record {
  open_fd = λ c name mode. pos 4;
  close = λ c fd. pos 0;
  unlink = λ c name. pos 0;
  not_found = λ c. false;
  mkfifo = λ c name. pos 0;
  write = λ c fd packet. pos 1_033;
  read = λ c fd b. if count_reads c == 0 then (pos 1_033, yo) else (pos 0, b);
  interrupted = λ c. false;
  malloc = λ c n. true;
  access = λ c name. minus_one;
}

-- `%d` on a number below 10.
abbrev digit : ℕ → List ℕ
digit n = (b'0' + n) ∷ []

abbrev stack : Bytes
stack x = 77

-- The names are "s", "p" and "b".
abbrev server : List ℕ
server = b's' ∷ []

abbrev own : List ℕ
own = b'p' ∷ []

abbrev box : List ℕ
box = b'b' ∷ []

server-Opens : Opens os server write_only (pos 4)
unfolding pipe_open retry open_once
server-Opens c = refl

writing-Opens : Opens os own write_only (pos 4)
unfolding pipe_open retry open_once
writing-Opens c = refl

reading-Opens : Opens os own read_only (pos 4)
unfolding pipe_open retry open_once
reading-Opens c = refl

os-Serves : Serves os (pos 4)
os-Serves = record { write = λ c p. refl; close = λ c. refl }

own-Makes : Makes os own
unfolding pipe_create pipe_destroy
own-Makes = record { unused = λ c. refl; create = λ c. refl; destroy = λ c. refl }

abbrev lines : List (List ℕ)
lines = (b'h' ∷ b'i' ∷ b'\n' ∷ []) ∷ []

publisher_main-Publishes_example :
    (p : Bytes) × (ps : List Bytes) × (publisher_main os stack (argv [] server own box []) lines []
      ≡ ok exit_success (
          ended own
            (pos 4)
            (pos 4)
            (sent (pos 4) ps (opens own write_only ∷ registered server own (pos 4) p []))))
    × Requests p register_publisher own box
    × Holds ps (messages_of lines)
    × AllPublish ps
publisher_main-Publishes_example =
    publisher_main-Publishes os stack [] server own box [] (pos 4) (pos 4) lines [] server-Opens
      os-Serves own-Makes os-Serves writing-Opens ((λ e. absurd (omega arith)), tt) (omega arith)
      ((λ e. absurd (omega arith)), tt) (omega arith)
      (
        (
          (λ e. absurd (omega arith)),
          ((λ e. absurd (omega arith)), ((λ e. absurd (omega arith)), tt)),
        ),
        omega arith,
        tt,
      )

yo_held : c_string yo 1 1_024 ≡ some (b'y' ∷ b'o' ∷ [])
unfolding c_string
yo_held = refl

subscriber_main-Shows_example :
    (p : Bytes) × (subscriber_main os stack (argv [] server own box []) digit 2 []
      ≡ ok
          (exit_success, some 1)
          (ended own (pos 4) (pos 4) (
            tells digit 1 (
              shown
                (pos 4)
                ((b'y' ∷ b'o' ∷ []) ∷ [])
                (opens own read_only ∷ registered server own (pos 4) p [])))))
    × Requests p register_subscriber own box
subscriber_main-Shows_example =
    subscriber_main-Shows os stack [] server own box [] (pos 4) (pos 4) digit 2 (yo ∷ [])
      ((b'y' ∷ b'o' ∷ []) ∷ []) [] server-Opens os-Serves own-Makes os-Serves reading-Opens
      ((λ e. absurd (omega arith)), tt) (omega arith) ((λ e. absurd (omega arith)), tt)
      (omega arith) (λ c b e. rw e refl, λ c b e. rw e refl) (yo_held, omega arith, tt)
      (omega arith)

missing_box_name_example :
    (publisher_main os stack ([] ∷ server ∷ own ∷ []) lines [] ≡ fault)
    × (subscriber_main os stack ([] ∷ server ∷ own ∷ []) digit 2 [] ≡ fault)
missing_box_name_example =
    missing_box_name os stack [] server own (pos 4) lines digit 2 [] server-Opens refl
