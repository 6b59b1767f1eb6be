-- ===== src/Pipes/Tests.antt =====
-- The retries with an operating system on which each third call succeeds.
use projeto_so.Base.{◌≡◌, refl, true, false, [], ◌∷◌, ◌==◌, if◌then◌else◌, length, pos, minus_one}
use projeto_so.Memory.Bytes.{Bytes}
use projeto_so.Process.{Os, opens, writes, reads, ok, read_only}
use projeto_so.Pipes.{pipe_open, pipe_write, pipe_read, retry, open_once}
use projeto_so.Pipes.Retry.{Tried, retries-Tried}

abbrev busy_os : Os
busy_os = record {
  open_fd = λ c name mode. if length c == 2 then pos 4 else minus_one;
  close = λ c fd. pos 0;
  unlink = λ c name. pos 0;
  not_found = λ c. false;
  mkfifo = λ c name. pos 0;
  write = λ c fd packet. if length c == 2 then pos 1_033 else minus_one;
  read = λ c fd buffer. if length c == 2 then (pos 1_033, buffer) else (minus_one, buffer);
  interrupted = λ c. false;
  malloc = λ c n. true;
  access = λ c name. minus_one;
}

abbrev zeros : Bytes
zeros x = 0

retries-Tried_example :
    Tried 10
      (opens (b'p' ∷ []) read_only)
      (λ c. (busy_os.open_fd c (b'p' ∷ []) read_only, busy_os.open_fd c (b'p' ∷ []) read_only))
      []
      (pipe_open busy_os (b'p' ∷ []) read_only [])
    × Tried 10
        (writes (pos 4) zeros)
        (λ c. (busy_os.write c (pos 4) zeros, tt))
        []
        (pipe_write busy_os (pos 4) zeros [])
    × Tried 10
        (reads (pos 4))
        (λ c. busy_os.read c (pos 4) zeros)
        []
        (pipe_read busy_os (pos 4) zeros [])
retries-Tried_example = retries-Tried busy_os (b'p' ∷ []) read_only (pos 4) zeros []

third_open :
    pipe_open busy_os (b'p' ∷ []) read_only []
    ≡ ok (pos 4) (
        opens (b'p' ∷ []) read_only
        ∷ opens (b'p' ∷ []) read_only
        ∷ opens (b'p' ∷ []) read_only
        ∷ [])
unfolding pipe_open retry open_once
third_open = refl
