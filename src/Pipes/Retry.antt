-- ===== src/Pipes/Retry.antt =====
-- The ten attempts of `pipe_open`, `pipe_write` and `pipe_read`.
use projeto_so.Base.{
  ℕ, zero, suc, ◌<◌, ◌+◌, ◌≡◌, sym, true, false, List, ◌∷◌, ℤ, arith, Bool-cases, ==_iff, ◌==◌, inl,
  inr,
}
use mathlib.Core.Path.{subst}
use projeto_so.Memory.Bytes.{Bytes}
use projeto_so.Process.{
  Run, ok, panic, OpenMode, Call, opens, writes, reads, Calls, Os, is_negative, call,
}
use projeto_so.Pipes.{retry, pipe_open, pipe_write, pipe_read, open_once, write_once, read_once}

-- The history after the call was made `i` times more.
abbrev pub again : ℕ → Call → Calls → Calls
again zero c calls = calls
again (suc i) c calls = c ∷ again i c calls

-- The first `j` attempts fail.
abbrev pub FailUntil : {A : Type 0} → Call → (Calls → ℤ × A) → Calls → ℕ → Type 0
FailUntil c result calls j = (i : ℕ) → i < j → is_negative (result (again i c calls)).0 ≡ true

-- The run makes the call until it succeeds and returns what that attempt gives, or makes it `k`
-- times in vain and panics.
pub data Tried {A : Type 0} (k : ℕ) (c : Call) (result : Calls → ℤ × A) (calls : Calls)
    : Run Calls A → Type 0 where
  succeeds :
      (j : ℕ)
      → j < k
      → FailUntil c result calls j
      → is_negative (result (again j c calls)).0 ≡ false
      → Tried k c result calls (ok (result (again j c calls)).1 (again (suc j) c calls))
  gives_up : FailUntil c result calls k → Tried k c result calls panic

module _ {A : Type 0} (c : Call) (result : Calls → ℤ × A) (calls : Calls) where
  FailUntil-suc :
      (j : ℕ)
      → FailUntil c result calls j
      → is_negative (result (again j c calls)).0 ≡ true
      → FailUntil c result calls (suc j)
  FailUntil-suc j before now i lt = elim (Bool-cases (i == j)) [
    | inl e ↦
        subst (λ n. is_negative (result (again n c calls)).0 ≡ true) (sym ((==_iff i j).0 e)) now
    | inr e ↦ before i (ground arith)
  ]

  from_attempt :
      (k i n : ℕ)
      → n ≡ i + k
      → FailUntil c result calls i
      → Tried n c result calls (retry k (call c result) (again i c calls))
  unfolding retry
  from_attempt zero i n e failed = gives_up λ j lt. failed j (omega arith)
  from_attempt (suc k) i n e failed = elim (Bool-cases (is_negative (result (again i c calls)).0)) [
    | inl bad ↦ rw bad (from_attempt k (suc i) n (omega arith) (FailUntil-suc i failed bad))
    | inr good ↦ rw good (succeeds i (omega arith) failed good)
  ]

  pub retry-Tried : (k : ℕ) → Tried k c result calls (retry k (call c result) calls)
  retry-Tried k = from_attempt k 0 k (omega arith) λ i lt. absurd (omega arith)

-- `pipe_open`, `pipe_write` and `pipe_read` make their call again with the same arguments until it
-- does not fail, and make no other call; `pipe_open` and `pipe_read` return the descriptor or
-- packet of the first attempt that did not fail. They panic after exactly ten failures.
pub retries-Tried :
    (os : Os) (name : List ℕ) (mode : OpenMode) (pipe : ℤ) (packet : Bytes) (calls : Calls)
    → Tried 10
        (opens name mode)
        (λ c. (os.open_fd c name mode, os.open_fd c name mode))
        calls
        (pipe_open os name mode calls)
      × Tried 10
          (writes pipe packet)
          (λ c. (os.write c pipe packet, tt))
          calls
          (pipe_write os pipe packet calls)
      × Tried 10 (reads pipe) (λ c. os.read c pipe packet) calls (pipe_read os pipe packet calls)
unfolding pipe_open pipe_write pipe_read open_once write_once read_once
retries-Tried os name mode pipe packet calls = (
  retry-Tried (opens name mode) (λ c. (os.open_fd c name mode, os.open_fd c name mode)) calls 10,
  retry-Tried (writes pipe packet) (λ c. (os.write c pipe packet, tt)) calls 10,
  retry-Tried (reads pipe) (λ c. os.read c pipe packet) calls 10,
)
