-- ===== src/Broker/Tests/Sessions.antt =====
-- Sessions on a server with the box "a", whose file holds the message "h".
use projeto_so.Base.{
  ℕ, ◌<◌, ◌≡◌, refl, some, List, [], ◌∷◌, ◌++◌, ◌==◌, if◌then◌else◌, pos, minus_one, arith, zero,
  suc,
}
use projeto_so.Memory.Bytes.{Bytes, read_bytes, read_int, word_at, str_eq, strn_eq}
use projeto_so.Process.{Ends, opens, Calls, ok, read_only, write_only, closes, ◌>>=◌}
use projeto_so.Pipes.{pipe_open, retry, open_once}
use projeto_so.Protocol.{c_string}
use projeto_so.Fs.Types.{taken}
use projeto_so.Fs.Contents.{LeadsTo}
use projeto_so.Fs.Contents.Appends.{HasRoom}
use projeto_so.Fs.Directory.{find_entry}
use projeto_so.Fs.Tests.Example.{example, example-IsValid, pthread-IsReliable}
use projeto_so.Broker.{World, Env}
use projeto_so.Broker.Adding.{IsServer}
use projeto_so.Broker.Sessions.{
  Subscription, handle_publisher, handle_subscriber, serve_subscriber, wake_subscriber,
}
use projeto_so.Broker.Sending.{Serves}
use projeto_so.Broker.Encoded.{AreMessages}
use projeto_so.Broker.Subscribing.{Opens, SubscriberOutcome, handle_subscriber-SubscriberOutcome}
use projeto_so.Broker.Waking.{Served, serve_subscriber-Served}
use projeto_so.Broker.Leaving.{Departed, subscriber_leaves}
use projeto_so.Broker.Delivery.{SentAll, publisher_to_subscriber}
use projeto_so.Fs.Contents.{contents}
use projeto_so.Broker.Receiving.{count_reads, encoded_all, received}
use projeto_so.Broker.Publishing.{PublisherOutcome, handle_publisher-PublisherOutcome}
use projeto_so.Broker.Tests.Server.{
  ready_os, news, archive, removing, removing-IsServer, env, ready, news_differs, archive_named,
}

abbrev in_use : World
in_use = record removing { fs = example }

in_use-IsServer : IsServer in_use ((8, news) ∷ (16, archive) ∷ [])
in_use-IsServer = record { files_valid = example-IsValid; boxes = removing-IsServer.boxes }

a_leads : LeadsTo example (b'a' ∷ []) 1
unfolding find_entry read_int word_at str_eq strn_eq
a_leads = record { at = 0; found = refl; leads = refl }

-- The publisher's packet with "yo".
abbrev yo : Bytes
yo x = if x == 1 then b'y' else if x == 2 then b'o' else 0

-- The first read gives the packet, the others the end of the file.
abbrev feeding : Env
feeding = record env {
  os = record ready_os {
    read = λ c fd b. if count_reads c == 0 then (pos 1_033, yo) else (pos 0, b);
  };
}

abbrev publish_request : Bytes
publish_request x = if x == 0 then 1 else if x == 1 then b'p' else if x == 257 then b'a' else 0

publish_pipe : c_string publish_request 1 256 ≡ some (b'p' ∷ [])
unfolding c_string
publish_pipe = refl

publish_name : c_string publish_request 257 32 ≡ some (b'a' ∷ [])
unfolding c_string
publish_name = refl

yo_held : c_string yo 1 1_024 ≡ some (b'y' ∷ b'o' ∷ [])
unfolding c_string
yo_held = refl

abbrev to_read : Calls
to_read = opens (b'p' ∷ []) read_only ∷ []

to_read_run : pipe_open feeding.os (b'p' ∷ []) read_only [] ≡ ok (pos 4) to_read
unfolding pipe_open retry open_once
to_read_run = refl

example_room : HasRoom example 1 3
example_room = record { fits = omega arith; block = λ e. absurd (omega (arith, e)) }

first_two : (l : ℕ) → l < 2 → example.free_open_file_entries.cell l ≡ taken
first_two zero lt = refl
first_two (suc zero) lt = refl
first_two (suc (suc l)) lt = absurd (omega (arith, lt))

handle_publisher-PublisherOutcome_example :
    Ends
      (λ _ w'.
        PublisherOutcome in_use
          ((8, news) ∷ (16, archive) ∷ [])
          (b'a' ∷ [])
          1
          (pos 4)
          to_read
          ((b'y' ∷ b'o' ∷ []) ∷ [])
          w')
      (handle_publisher feeding publish_request in_use)
handle_publisher-PublisherOutcome_example =
    handle_publisher-PublisherOutcome feeding publish_request in_use
      ((8, news) ∷ (16, archive) ∷ []) (b'a' ∷ []) (b'p' ∷ []) (pos 4) to_read (yo ∷ [])
      ((b'y' ∷ b'o' ∷ []) ∷ []) 1 2 publish_pipe publish_name to_read_run (λ c. refl) (λ c k. refl)
      pthread-IsReliable in_use-IsServer (omega arith, (omega arith, tt)) (omega arith)
      (omega arith) a_leads (record { in_range = omega arith; is_free = refl; first = first_two })
      example_room (λ c b e. rw e refl, λ c b e. rw e refl) (yo_held, omega arith, tt) (omega arith)

abbrev subscribe_request : Bytes
subscribe_request x = if x == 0 then 2 else if x == 1 then b'q' else if x == 257 then b'a' else 0

subscribe_pipe : c_string subscribe_request 1 256 ≡ some (b'q' ∷ [])
unfolding c_string
subscribe_pipe = refl

subscribe_name : c_string subscribe_request 257 32 ≡ some (b'a' ∷ [])
unfolding c_string
subscribe_name = refl

ready_os-Opens : Opens ready_os (b'q' ∷ []) write_only (pos 4)
unfolding pipe_open retry open_once
ready_os-Opens c = refl

feeding-Opens : Opens feeding.os (b'q' ∷ []) write_only (pos 4)
unfolding pipe_open retry open_once
feeding-Opens c = refl

feeding-Serves : Serves feeding.os (pos 4)
feeding-Serves = record { write = λ c p. refl; close = λ c. refl }

abbrev held : List (List ℕ)
held = (b'h' ∷ []) ∷ []

abbrev published : List (List ℕ)
published = (b'y' ∷ b'o' ∷ []) ∷ []

file_held : contents example 1 ≡ encoded_all held
unfolding read_bytes
file_held = refl

held-AreMessages : AreMessages held
held-AreMessages = (((λ e. absurd (omega arith)), tt), omega arith, tt)

published-AreMessages : AreMessages published
published-AreMessages =
    (((λ e. absurd (omega arith)), ((λ e. absurd (omega arith)), tt)), omega arith, tt)

handle_subscriber-SubscriberOutcome_example :
    Ends
      (SubscriberOutcome in_use
        ((8, news) ∷ (16, archive) ∷ [])
        (b'a' ∷ [])
        (b'q' ∷ [])
        1
        2
        (pos 4)
        held)
      (handle_subscriber env subscribe_request in_use)
handle_subscriber-SubscriberOutcome_example =
    handle_subscriber-SubscriberOutcome env subscribe_request in_use
      ((8, news) ∷ (16, archive) ∷ []) (b'a' ∷ []) (b'q' ∷ []) (pos 4) held 1 2 subscribe_pipe
      subscribe_name ready_os-Opens ready (λ c k. refl) pthread-IsReliable in_use-IsServer
      (omega arith) (omega arith) a_leads
      (record { in_range = omega arith; is_free = refl; first = first_two }) file_held
      held-AreMessages (omega arith) (omega arith)

publisher_to_subscriber_example :
    Ends
      (SentAll
        (b'a' ∷ [])
        (b'q' ∷ [])
        2
        (pos 4)
        (held ++ published)
        (closes (pos 4) ∷ received (b'a' ∷ []) 16 (pos 4) published to_read))
      ((handle_publisher feeding publish_request >>= λ _.
          handle_subscriber feeding subscribe_request)
        in_use)
publisher_to_subscriber_example =
    publisher_to_subscriber feeding publish_request subscribe_request in_use ((8, news) ∷ []) 16
      archive [] (b'a' ∷ []) (b'p' ∷ []) (b'q' ∷ []) (pos 4) (pos 4) to_read (yo ∷ []) held
      published 1 2 publish_pipe publish_name subscribe_pipe subscribe_name to_read_run (λ c. refl)
      feeding-Opens feeding-Serves (λ c k. refl) pthread-IsReliable in_use-IsServer
      (omega arith, (omega arith, tt)) (omega arith) (news_differs, tt) archive_named refl
      (omega arith) a_leads (record { in_range = omega arith; is_free = refl; first = first_two })
      example_room file_held (λ c b e. rw e refl, λ c b e. rw e refl) (yo_held, omega arith, tt)
      held-AreMessages published-AreMessages (omega arith) (omega arith)

-- A session on handle 0, whose offset is 0.
abbrev session : Subscription
session = record { name = b'a' ∷ []; box = pos 0; pipe = pos 4; buffer = λ x. 0; packet = λ x. 10 }

serve_subscriber-Served_example :
    Ends (Served in_use session 0 (b'h' ∷ [])) (serve_subscriber env session in_use)
serve_subscriber-Served_example =
    serve_subscriber-Served env in_use session 0 [] (b'h' ∷ []) [] refl example-IsValid
      pthread-IsReliable (omega arith, refl) file_held refl held-AreMessages.0 (omega arith)
      (omega arith) ready

-- The session's client has gone.
abbrev deserted : Env
deserted = record env { os = record ready_os { write = λ c fd packet. minus_one } }

subscriber_leaves_example :
    Ends
      (Departed in_use session 0 (b'h' ∷ []) ((8, news) ∷ []) 16 archive [])
      (wake_subscriber deserted session in_use)
subscriber_leaves_example =
    subscriber_leaves deserted in_use session 0 [] (b'h' ∷ []) [] ((8, news) ∷ []) 16 archive []
      refl pthread-IsReliable in_use-IsServer (omega arith, refl) file_held refl held-AreMessages.0
      (omega arith) (omega arith) (news_differs, tt) archive_named (omega arith) (λ c p. refl)
      (λ c. refl)
