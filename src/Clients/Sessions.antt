-- ===== src/Clients/Sessions.antt =====
-- The publisher's and the subscriber's programs where their pipes work.
use projeto_so.Base.{
  ℕ, zero, suc, ◌+◌, ◌<◌, ◌≡◌, refl, ap, ◌∙◌, true, some, List, [], ◌∷◌, ◌++◌, codes, arith, length,
  ℤ, pos, minus_one,
}
use projeto_so.Memory.Bytes.{Bytes}
use projeto_so.Memory.Ints.{IsText}
use projeto_so.Process.{
  Calls, Os, ok, opens, accesses, makes_fifo, unlinks, closes, writes, reads, prints, read_only,
  write_only,
}
use projeto_so.Pipes.{pipe_create, pipe_destroy}
use projeto_so.Protocol.{register_publisher, register_subscriber, publish_message}
use projeto_so.Protocol.At
use projeto_so.Clients.{
  without_newline, send_lines, run_publisher, run_subscriber, receive, close_client,
  close_subscriber,
}
use projeto_so.Clients.Requests.{Requests, registration-Requests}
use projeto_so.Clients.Lines.{line_packet-Publishes, without_newline-length}
use projeto_so.Broker.Sending.{Serves, sent, pipe_write-done, pipe_close-done}
use projeto_so.Broker.Subscribing.{Opens}
use projeto_so.Broker.Receiving.{Feeds, Holds, count_reads}

-- The pipe of the name can be made and removed.
pub record Makes (os : Os) (name : List ℕ) : Type 0 where
  pub unused : (c : Calls) → os.access c name ≡ minus_one
  pub create : (c : Calls) → pipe_create os name c ≡ ok tt (makes_fifo name ∷ unlinks name ∷ c)
  pub destroy : (c : Calls) → pipe_destroy os name c ≡ ok tt (unlinks name ∷ c)

-- Lines as `fgets` gives them into a buffer of 1024 bytes.
abbrev pub AreLines : List (List ℕ) → Type 0
AreLines [] = Unit {0}
AreLines (line ∷ lines) = IsText line × (length line < 1_024) × AreLines lines

abbrev pub messages_of : List (List ℕ) → List (List ℕ)
messages_of [] = []
messages_of (line ∷ lines) = without_newline line ∷ messages_of lines

abbrev pub AllPublish : List Bytes → Type 0
AllPublish [] = Unit {0}
AllPublish (p ∷ ps) = (p At.opcode ≡ publish_message) × AllPublish ps

-- The calls up to the registration.
abbrev pub registered : List ℕ → List ℕ → ℤ → Bytes → Calls → Calls
registered register client fd p c =
    writes fd p
    ∷ makes_fifo client
    ∷ unlinks client
    ∷ opens register write_only
    ∷ accesses client
    ∷ c

-- The calls at the end.
abbrev pub ended : List ℕ → ℤ → ℤ → Calls → Calls
ended client register_fd client_fd c = unlinks client ∷ closes client_fd ∷ closes register_fd ∷ c

-- The subscriber's last line; `decimal` is what `%d` prints.
abbrev pub tells : (ℕ → List ℕ) → ℕ → Calls → Calls
tells decimal n c = prints (codes "Received " ++ decimal n ++ codes " messages\n") ∷ c

-- The calls of the subscriber's loop: each message is printed with a newline once it was read.
abbrev pub shown : ℤ → List (List ℕ) → Calls → Calls
shown fd [] c = reads fd ∷ c
shown fd (m ∷ ms) c = shown fd ms (prints (m ++ codes "\n") ∷ reads fd ∷ c)

module _ (os : Os) (stack : Bytes) (register client box : List ℕ) (register_fd client_fd : ℤ)
    (to_server : Opens os register write_only register_fd) (server_serves : Serves os register_fd)
    (makes : Makes os client) (serves : Serves os client_fd) (client_text : IsText client)
    (client_short : length client < 256) (box_text : IsText box) (box_short : length box < 32) where
  closed :
      (c : Calls)
      → close_client os stack register client (some box) register_fd client_fd c
        ≡ ok tt (ended client register_fd client_fd c)
  unfolding close_client
  closed c =
      rw
        (
          pipe_close-done os register_fd c server_serves,
          pipe_close-done os client_fd (closes register_fd ∷ c) serves,
          makes.destroy (closes client_fd ∷ closes register_fd ∷ c),
        )
        refl

  told :
      (decimal : ℕ → List ℕ) (n : ℕ) (c : Calls)
      → close_subscriber os stack register client (some box) decimal n register_fd client_fd c
        ≡ ok tt (ended client register_fd client_fd (tells decimal n c))
  unfolding close_subscriber close_client
  told decimal n c = closed (tells decimal n c)

  send_lines-Holds :
      (lines : List (List ℕ)) (c : Calls)
      → AreLines lines
      → (ps : List Bytes) × (send_lines os stack register client (some box) client_fd lines c
          ≡ ok tt (sent client_fd ps c))
        × Holds ps (messages_of lines)
        × AllPublish ps
  unfolding send_lines
  send_lines-Holds [] c fit = ([], refl, tt, tt)
  send_lines-Holds (line ∷ lines) c (text, short, fit) =
      let (p, made, code, reads_back) = line_packet-Publishes stack line text short in
      let (ps, run, holds, all) = send_lines-Holds lines (writes client_fd p ∷ c) fit in
      (
        p ∷ ps,
        rw (made, pipe_write-done os client_fd p c serves) run,
        (reads_back, omega (arith, short, without_newline-length line), holds),
        (code, all),
      )

  module _ (opened : Opens os client write_only client_fd) where
    pub run_sent :
        (lines : List (List ℕ)) (c : Calls)
        → AreLines lines
        → (p : Bytes) × (ps : List Bytes) × (run_publisher os stack register client
              (some box)
              lines
              c
            ≡ ok true (
                ended client register_fd client_fd (
                  sent client_fd ps
                    (opens client write_only ∷ registered register client register_fd p c))))
          × Requests p register_publisher client box
          × Holds ps (messages_of lines)
          × AllPublish ps
    unfolding run_publisher
    run_sent lines c fit =
        let (p, made, requests) =
          (registration-Requests stack register_publisher client box client_text client_short
            box_text box_short).0 in
        let (ps, run, holds, all) =
          send_lines-Holds lines
            (opens client write_only ∷ registered register client register_fd p c) fit in
        (
          p,
          ps,
          rw
              (
                makes.unused c,
                to_server (accesses client ∷ c),
                made,
                makes.create (opens register write_only ∷ accesses client ∷ c),
                pipe_write-done os register_fd p
                    (makes_fifo client
                      ∷ unlinks client
                      ∷ opens register write_only
                      ∷ accesses client
                      ∷ c)
                    server_serves,
                opened (registered register client register_fd p c),
                run,
                closed (
                    sent client_fd ps
                      (opens client write_only ∷ registered register client register_fd p c)),
              )
              refl,
          requests,
          holds,
          all,
        )

  receive-done :
      (k n : ℕ) (b : Bytes) (ps : List Bytes) (ms : List (List ℕ)) (c : Calls)
      → Feeds os client_fd (count_reads c) ps
      → Holds ps ms
      → length ms < k
      → receive os stack register client (some box) k client_fd b n c
        ≡ ok (n + length ms) (shown client_fd ms c)
  unfolding receive
  receive-done zero n b ps ms c feeds holds le = absurd (omega arith)
  receive-done (suc k) n b [] [] c feeds holds le =
      rw (ends c b (feeds c b refl)) (ap (λ j. ok j (shown client_fd [] c)) (omega arith))
    where
      ends :
          (c : Calls) (b : Bytes)
          → (os.read c client_fd b).0 ≡ pos 0
          → os.read c client_fd b ≡ (pos 0, (os.read c client_fd b).1)
      ends c b e i = (e i, (os.read c client_fd b).1)
  receive-done (suc k) n b [] (m ∷ ms) c feeds holds le = elim holds [ ]
  receive-done (suc k) n b (p ∷ ps) [] c feeds holds le = elim holds [ ]
  receive-done (suc k) n b (p ∷ ps) (m ∷ ms) c (feed, feeds) (held, short, holds) le =
      rw (feed c b refl, held)
        (receive-done k (n + 1) stack ps ms (prints (m ++ codes "\n") ∷ reads client_fd ∷ c) feeds
            holds (omega arith)
          ∙ ap (λ j. ok j (shown client_fd (m ∷ ms) c)) (omega arith))

  module _ (opened : Opens os client read_only client_fd) where
    pub run_shown :
        (decimal : ℕ → List ℕ) (fuel : ℕ) (ps : List Bytes) (ms : List (List ℕ)) (c : Calls)
        → Feeds os client_fd (count_reads c) ps
        → Holds ps ms
        → length ms < fuel
        → (p : Bytes) × (run_subscriber os stack register client (some box) decimal fuel c
            ≡ ok (some (length ms)) (
                ended client register_fd client_fd (
                  tells decimal (length ms) (
                    shown client_fd ms
                      (opens client read_only ∷ registered register client register_fd p c)))))
          × Requests p register_subscriber client box
    unfolding run_subscriber
    run_shown decimal fuel ps ms c feeds holds le =
        let (p, made, requests) =
          (registration-Requests stack register_subscriber client box client_text client_short
            box_text box_short).0 in
        (
          p,
          rw
              (
                makes.unused c,
                to_server (accesses client ∷ c),
                made,
                makes.create (opens register write_only ∷ accesses client ∷ c),
                pipe_write-done os register_fd p
                    (makes_fifo client
                      ∷ unlinks client
                      ∷ opens register write_only
                      ∷ accesses client
                      ∷ c)
                    server_serves,
                opened (registered register client register_fd p c),
                receive-done fuel 0 stack ps ms
                    (opens client read_only ∷ registered register client register_fd p c) feeds
                    holds le,
                told decimal (0 + length ms) (
                    shown client_fd ms
                      (opens client read_only ∷ registered register client register_fd p c)),
              )
              (ap
                (λ n. ok (some n) (
                  ended client register_fd client_fd (
                    tells decimal n (
                      shown client_fd ms
                        (opens client read_only ∷ registered register client register_fd p c)))))
                (omega arith)),
          requests,
        )
