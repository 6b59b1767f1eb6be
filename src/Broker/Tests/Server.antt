-- ===== src/Broker/Tests/Server.antt =====
-- A server with two boxes, on an operating system whose calls succeed.
use projeto_so.Base.{
  ◌≡◌, refl, true, false, none, some, [], ◌∷◌, ◌==◌, if◌then◌else◌, pos, minus_one, arith,
}
use projeto_so.Memory.Bytes.{Bytes}
use projeto_so.Process.{Os, opens, Calls, ok, write_only}
use projeto_so.BoxList.{TfsFile, Nodes}
use projeto_so.BoxList.Chains.{Cells}
use projeto_so.BoxList.Adding.{IsBoxList}
use projeto_so.Fs.Types.{State, t_file, free}
use projeto_so.Pipes.{pipe_open, retry, open_once}
use projeto_so.Protocol.{c_string}
use projeto_so.Broker.{World, Env}
use projeto_so.Fs.Tests.Example.{pthread, unopened, unopened-IsValid}
use projeto_so.Broker.Adding.{IsServer}
use projeto_so.BoxList.{same_name}
use projeto_so.Broker.Listing.{IsSendable}
use projeto_so.Broker.Sending.{Serves}

abbrev pub ready_os : Os
ready_os = record {
  open_fd = λ c name mode. pos 4;
  close = λ c fd. pos 0;
  unlink = λ c name. pos 0;
  not_found = λ c. false;
  mkfifo = λ c name. pos 0;
  write = λ c fd packet. pos 1_033;
  read = λ c fd buffer. (pos 0, buffer);
  interrupted = λ c. false;
  malloc = λ c n. true;
  access = λ c name. minus_one;
}

abbrev pub news : TfsFile
news = record { box_name = b'n' ∷ []; n_publishers = 1; n_subscribers = 300; box_size = 70_000 }

abbrev pub chat : TfsFile
chat = record { box_name = b'c' ∷ []; n_publishers = 0; n_subscribers = 0; box_size = 0 }

abbrev pub cells : Cells
cells = (8, news) ∷ (16, chat) ∷ []

abbrev pub nodes : Nodes
nodes p =
    if p == 8
    then some (record { file = news; next = 16 })
    else if p == 16
    then some (record { file = chat; next = 0 })
    else none

-- The request's pipe is named "p".
abbrev pub request : Bytes
request x = if x == 0 then 7 else if x == 1 then b'p' else 0

abbrev pub no_fs : State
no_fs = record {
  params = record {
    max_inode_count = 0;
    max_block_count = 0;
    max_open_files_count = 0;
    block_size = 0;
  };
  allocated = false;
  inode_table = record {
    size = 0;
    cell = λ i. record { i_node_type = t_file; i_size = 0; i_data_block = pos 0 };
  };
  freeinode_ts = record { size = 0; cell = λ i. free };
  fs_data = record { size = 0; cell = λ i. 0 };
  free_blocks = record { size = 0; cell = λ i. free };
  open_file_table = record { size = 0; cell = λ i. record { of_inumber = pos 0; of_offset = 0 } };
  free_open_file_entries = record { size = 0; cell = λ i. free };
  mutex_calls = [];
}

abbrev pub world : World
world = record {
  fs = no_fs;
  list = record { head = 8; tail = 16; size = pos 2 };
  nodes = nodes;
  calls = [];
}

abbrev pub env : Env
env = record { os = ready_os; pthread = pthread; malloc_node = λ m. 24; stack = λ x. 255; fuel = 5 }

pub boxes-IsBoxList : IsBoxList nodes world.list cells
boxes-IsBoxList = record {
  chain = (
    16,
    refl,
    (λ e. absurd (omega arith)),
    refl,
    (0, refl, (λ e. absurd (omega arith)), refl, refl),
  );
  apart = (((λ e. absurd (omega arith)), tt), (tt, tt));
  tail_last = refl;
  count = refl;
}

pub ready : Serves ready_os (pos 4)
ready = record { write = λ c p. refl; close = λ c. refl }

pub news-IsSendable : IsSendable news
news-IsSendable = record {
  text = ((λ e. absurd (omega arith)), tt);
  short = omega arith;
  publishers = omega arith;
  subscribers = omega arith;
  bytes = omega arith;
}

pub chat-IsSendable : IsSendable chat
chat-IsSendable = record {
  text = ((λ e. absurd (omega arith)), tt);
  short = omega arith;
  publishers = omega arith;
  subscribers = omega arith;
  bytes = omega arith;
}

abbrev pub opened : Calls
opened = opens (b'p' ∷ []) write_only ∷ []

pub named : c_string request 1 256 ≡ some (b'p' ∷ [])
unfolding c_string
named = refl

pub open_run : pipe_open ready_os (b'p' ∷ []) write_only [] ≡ ok (pos 4) opened
unfolding pipe_open retry open_once
open_run = refl

-- The server with a box "a", whose file is closed.
abbrev pub archive : TfsFile
archive = record { box_name = b'a' ∷ []; n_publishers = 0; n_subscribers = 0; box_size = 2 }

abbrev pub removing : World
removing = record {
  fs = unopened;
  list = record { head = 8; tail = 16; size = pos 2 };
  nodes = λ p.
      if p == 8
      then some (record { file = news; next = 16 })
      else if p == 16
      then some (record { file = archive; next = 0 })
      else none;
  calls = [];
}

pub removing-IsServer : IsServer removing ((8, news) ∷ (16, archive) ∷ [])
removing-IsServer = record {
  files_valid = unopened-IsValid;
  boxes = record {
    chain = (
      16,
      refl,
      (λ e. absurd (omega arith)),
      refl,
      (0, refl, (λ e. absurd (omega arith)), refl, refl),
    );
    apart = (((λ e. absurd (omega arith)), tt), (tt, tt));
    tail_last = refl;
    count = refl;
  };
}

pub news_differs : same_name news.box_name (b'a' ∷ []) ≡ false
unfolding same_name
news_differs = refl

pub archive_named : same_name archive.box_name (b'a' ∷ []) ≡ true
unfolding same_name
archive_named = refl
