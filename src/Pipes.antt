-- ===== src/Pipes.antt =====
-- utils/pipes.c: named pipes. A failed call is tried again, ten times at most; the pause between
-- two attempts is left out.
pub mod Retry
mod Tests
use projeto_so.Base.{ℕ, zero, suc, Bool, true, false, ◌&&◌, not, List, ℤ, is_zero, if◌then◌else◌}
use projeto_so.Memory.Bytes.{Bytes}
use projeto_so.Process.{
  M, pure, ◌>>=◌, ◌>>◌, panic, OpenMode, Call, opens, closes, unlinks, makes_fifo, writes, reads,
  Calls, Os, is_negative, call,
}

-- `RETRY_COUNT`
abbrev pub retry_count : ℕ
retry_count = 10

-- The loop that the functions below share: `k` more attempts.
unfoldable pub retry : {A : Type 0} → ℕ → M Calls (ℤ × A) → M Calls A
retry zero attempt = λ calls. panic
retry (suc k) attempt = do (r, a) ← attempt; if is_negative r then retry k attempt else pure a

module _ (os : Os) where
  unfoldable pub pipe_create : List ℕ → M Calls (Unit {0})
  pipe_create name = do
    r ← call (unlinks name) λ c. os.unlink c name
    missing ← λ c. pure (os.not_found c) c
    if not (is_zero r) && not missing then (λ c. panic) else do
      made ← call (makes_fifo name) λ c. os.mkfifo c name
      if is_negative made then (λ c. panic) else pure tt

  unfoldable pub open_once : List ℕ → OpenMode → M Calls (ℤ × ℤ)
  open_once name mode = call (opens name mode) λ c. (os.open_fd c name mode, os.open_fd c name mode)

  unfoldable pub pipe_open : List ℕ → OpenMode → M Calls ℤ
  pipe_open name mode = retry retry_count (open_once name mode)

  unfoldable pub write_once : ℤ → Bytes → M Calls (ℤ × Unit {0})
  write_once pipe packet = call (writes pipe packet) λ c. (os.write c pipe packet, tt)

  unfoldable pub pipe_write : ℤ → Bytes → M Calls (Unit {0})
  pipe_write pipe packet = retry retry_count (write_once pipe packet)

  -- `packet` is what the buffer holds before it is read into.
  unfoldable pub read_once : ℤ → Bytes → M Calls (ℤ × Bytes)
  read_once pipe packet = call (reads pipe) λ c. os.read c pipe packet

  unfoldable pub pipe_read : ℤ → Bytes → M Calls Bytes
  pipe_read pipe packet = retry retry_count (read_once pipe packet)

  unfoldable pub pipe_close : ℤ → M Calls (Unit {0})
  pipe_close pipe = do
    r ← call (closes pipe) λ c. os.close c pipe
    if is_negative r then (λ c. panic) else pure tt

  unfoldable pub pipe_destroy : List ℕ → M Calls (Unit {0})
  pipe_destroy name = do
    r ← call (unlinks name) λ c. os.unlink c name
    if is_zero r then pure tt else (λ c. panic)
