-- ===== src/Broker/Tests.antt =====
-- The server's answers for two boxes, on an operating system whose calls succeed.
mod Server
mod Sessions
mod Launching
use projeto_so.Base.{
  ◌≡◌, refl, true, false, none, some, List, [], ◌∷◌, ◌==◌, if◌then◌else◌, pos, minus_one, arith,
}
use projeto_so.Memory.Bytes.{Bytes}
use projeto_so.Process.{Ends, Os, opens, closes, Calls, ok, write_only}
use projeto_so.BoxList.{same_name, TfsFile, Nodes}
use projeto_so.BoxList.Chains.{Cells, files}
use projeto_so.BoxList.Adding.{IsBoxList}
use projeto_so.Fs.Types.{State, t_file, free}
use projeto_so.Pipes.{pipe_open, retry, open_once}
use projeto_so.Protocol.{c_string}
use projeto_so.Broker.{World, Env}
use projeto_so.Broker.Answers.{handle_list, handle_remove, remove_box, ok_answer}
use projeto_so.Broker.Sessions.{send_stored}
use projeto_so.Broker.Stored.{Carries, send_stored-Carries}
use projeto_so.Broker.Taking.{Taken, removes_other}
use projeto_so.Broker.Removing.{RemoveOutcome, handle_remove-RemoveOutcome}
use projeto_so.Broker.Adding.{IsServer}
use projeto_so.Fs.Tests.Example.{
  example, unopened, unopened-IsValid, unopened-NamesCleared, unopened-NotOpen, pthread,
  pthread-IsReliable,
}
use projeto_so.Broker.Listing.{IsSendable}
use projeto_so.Broker.Sending.{Serves, sent, Listing, handle_list-Listing}
use projeto_so.Broker.Tests.Server.{
  ready_os, news, chat, cells, nodes, request, no_fs, world, env, boxes-IsBoxList, ready,
  news-IsSendable, chat-IsSendable, opened, named, open_run, archive, removing, removing-IsServer,
  news_differs, archive_named,
}

handle_list-Listing_example :
    (ps : List Bytes) × (handle_list env request world
      ≡ ok tt (record world { calls = closes (pos 4) ∷ sent (pos 4) ps opened }))
    × Listing ps (files cells)
handle_list-Listing_example =
    handle_list-Listing env request world cells (b'p' ∷ []) (pos 4) opened named open_run ready
      boxes-IsBoxList (news-IsSendable, (chat-IsSendable, tt)) (omega arith)

-- The server with a file system in use, and a request for the box "x".
abbrev served : World
served = record world { fs = example }

abbrev create_request : Bytes
create_request x = if x == 0 then 3 else if x == 1 then b'p' else if x == 257 then b'x' else 0

-- A request to remove the box "a".
abbrev remove_request : Bytes
remove_request x = if x == 0 then 5 else if x == 1 then b'p' else if x == 257 then b'a' else 0

remove_pipe : c_string remove_request 1 256 ≡ some (b'p' ∷ [])
unfolding c_string
remove_pipe = refl

remove_name : c_string remove_request 257 32 ≡ some (b'a' ∷ [])
unfolding c_string
remove_name = refl

handle_remove-RemoveOutcome_example :
    Ends
      (λ _. RemoveOutcome env removing (b'a' ∷ []) 16 ((8, news) ∷ []) (pos 4) opened)
      (handle_remove env remove_request removing)
handle_remove-RemoveOutcome_example =
    handle_remove-RemoveOutcome env remove_request removing (b'a' ∷ []) (b'p' ∷ []) (pos 4) opened
      ((8, news) ∷ []) 16 archive [] remove_pipe remove_name open_run ready (λ c n. refl)
      pthread-IsReliable removing-IsServer (news_differs, tt) archive_named unopened-NamesCleared
      (((λ e. absurd (omega arith)), tt), omega arith) unopened-NotOpen (omega arith)

-- No box is named "a" here.
chat_differs : same_name chat.box_name (b'a' ∷ []) ≡ false
unfolding same_name
chat_differs = refl

removes_other_example :
    Ends
      (λ _. Taken world (pos 4) (ok_answer (λ x. 4)) 8 ((16, chat) ∷ []) [])
      (remove_box env (pos 4) (λ x. 4) (b'a' ∷ []) world)
removes_other_example =
    removes_other env (pos 4) (λ x. 4) world 8 news ((16, chat) ∷ []) (b'a' ∷ []) ready
      (news_differs, (chat_differs, tt)) boxes-IsBoxList (omega arith)
