-- ===== src/Clients/Programs.antt =====
-- `main` of the publisher and of the subscriber, and of the manager where it refuses its arguments.
use projeto_so.Base.{
  ℕ, ◌<◌, ◌≡◌, refl, false, some, List, [], ◌∷◌, arith, length, ltb, ℤ, minus_one,
}
use projeto_so.Memory.Bytes.{Bytes}
use projeto_so.Memory.Ints.{IsText}
use projeto_so.Process.{
  Calls, Os, ok, fault, opens, accesses, read_only, write_only, arg, exit_success,
}
use projeto_so.Protocol.{register_publisher, register_subscriber}
use projeto_so.Clients.{publisher_main, subscriber_main, run_publisher, run_subscriber}
use projeto_so.Clients.Requests.{Requests}
use projeto_so.Clients.Sessions.{
  Makes, AreLines, messages_of, AllPublish, registered, ended, tells, shown, run_sent, run_shown,
}
use projeto_so.Broker.Sending.{Serves, sent}
use projeto_so.Broker.Subscribing.{Opens}
use projeto_so.Broker.Receiving.{Feeds, Holds, count_reads}

module _ (program register client box : List ℕ) (more : List (List ℕ)) where
  abbrev pub argv : List (List ℕ)
  argv = program ∷ register ∷ client ∷ box ∷ more

  enough : ltb (length argv) 3 ≡ false
  enough = ground arith

-- The publisher, called with the names of the server's pipe, of its own and of a box, which have
-- no NUL inside and fit their fields, and if its own pipe does not exist and can be made, opened
-- and removed, and opening the server's pipe and writing and closing both do not fail: it
-- registers with a request that the server reads as REGISTER_PUBLISHER with the two names, then
-- sends one packet for each line of its input (at most 1023 bytes without a NUL), in their order,
-- from which the server reads the bytes before the newline; then it closes both pipes, removes its
-- own and exits with EXIT_SUCCESS. It makes no other calls.
pub publisher_main-Publishes :
    (os : Os) (stack : Bytes) (program register client box : List ℕ) (more : List (List ℕ))
    (register_fd client_fd : ℤ) (lines : List (List ℕ)) (c : Calls)
    → Opens os register write_only register_fd
    → Serves os register_fd
    → Makes os client
    → Serves os client_fd
    → Opens os client write_only client_fd
    → IsText client
    → length client < 256
    → IsText box
    → length box < 32
    → AreLines lines
    → (p : Bytes) × (ps : List Bytes) × (publisher_main os stack
          (argv program register client box more)
          lines
          c
        ≡ ok exit_success (
            ended client register_fd client_fd (
              sent client_fd ps
                (opens client write_only ∷ registered register client register_fd p c))))
      × Requests p register_publisher client box
      × Holds ps (messages_of lines)
      × AllPublish ps
unfolding publisher_main arg
publisher_main-Publishes os stack program register client box more register_fd client_fd lines c
      to_server server_serves makes serves opened client_text client_short box_text box_short fit =
    let (p, ps, run, requests, holds, all) =
      run_sent os stack register client box register_fd client_fd to_server server_serves makes
        serves client_text client_short box_text box_short opened lines c fit in
    (p, ps, rw (enough program register client box more, run) refl, requests, holds, all)

-- The subscriber, called with the names of the server's pipe, of its own and of a box, which have
-- no NUL inside and fit their fields, if its own pipe does not exist and can be made, opened and
-- removed, opening the server's pipe and writing and closing both do not fail, and its own pipe
-- gives packets that hold messages of less than 1024 bytes and then its end, with fuel for each of
-- them: it registers with a request that the server reads as REGISTER_SUBSCRIBER with the two
-- names, then reads and prints each message with a newline, in their order; then it prints
-- "Received", the number of these messages as `%d` prints it, and "messages", closes both pipes,
-- removes its own and exits with EXIT_SUCCESS. Besides what it writes to `stderr`, it makes no
-- other calls.
pub subscriber_main-Shows :
    (os : Os) (stack : Bytes) (program register client box : List ℕ) (more : List (List ℕ))
    (register_fd client_fd : ℤ) (decimal : ℕ → List ℕ) (fuel : ℕ) (ps : List Bytes)
    (ms : List (List ℕ)) (c : Calls)
    → Opens os register write_only register_fd
    → Serves os register_fd
    → Makes os client
    → Serves os client_fd
    → Opens os client read_only client_fd
    → IsText client
    → length client < 256
    → IsText box
    → length box < 32
    → Feeds os client_fd (count_reads c) ps
    → Holds ps ms
    → length ms < fuel
    → (p : Bytes) × (subscriber_main os stack (argv program register client box more) decimal fuel c
        ≡ ok
            (exit_success, some (length ms))
            (ended client register_fd client_fd (
              tells decimal (length ms) (
                shown client_fd ms
                  (opens client read_only ∷ registered register client register_fd p c)))))
      × Requests p register_subscriber client box
unfolding subscriber_main arg
subscriber_main-Shows os stack program register client box more register_fd client_fd decimal fuel
      ps ms c to_server server_serves makes serves opened client_text client_short box_text
      box_short feeds holds le =
    let (p, run, requests) =
      run_shown os stack register client box register_fd client_fd to_server server_serves makes
        serves client_text client_short box_text box_short opened decimal fuel ps ms c feeds holds
        le in
    (p, rw (enough program register client box more, run) refl, requests)

-- Called with two arguments, both programs pass the test of `argc`, and if their pipe does not
-- exist and the server's pipe is opened, they read the missing name of the box through NULL.
pub missing_box_name :
    (os : Os) (stack : Bytes) (program register client : List ℕ) (register_fd : ℤ)
    (lines : List (List ℕ)) (decimal : ℕ → List ℕ) (fuel : ℕ) (c : Calls)
    → Opens os register write_only register_fd
    → os.access c client ≡ minus_one
    → (publisher_main os stack (program ∷ register ∷ client ∷ []) lines c ≡ fault)
      × (subscriber_main os stack (program ∷ register ∷ client ∷ []) decimal fuel c ≡ fault)
unfolding publisher_main subscriber_main run_publisher run_subscriber arg
missing_box_name os stack program register client register_fd lines decimal fuel c to_server
      unused =
    (
      rw (unused, to_server (accesses client ∷ c)) refl,
      rw (unused, to_server (accesses client ∷ c)) refl,
    )
