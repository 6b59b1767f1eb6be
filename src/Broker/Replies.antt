-- ===== src/Broker/Replies.antt =====
-- The answers to CREATE_MAILBOX and REMOVE_MAILBOX, and the closing of a box.
use projeto_so.Base.{
  ℕ, ◌<◌, ◌≡◌, refl, sym, ◌∙◌, inl, inr, Bool, true, false, ◌&&◌, not, Bool-cases, some, List, [],
  ◌∷◌, ◌++◌, arith, length, ◌==◌, ℤ, pos, negsuc, minus_one, ltb, ltb→lt, ◌⊎◌,
}
use mathlib.Core.Path.{subst}
use projeto_so.Memory.Bytes.{Bytes, memcpy, read_int, write_int}
use projeto_so.Memory.Frame.{memcpy-outside, read_int-cong}
use projeto_so.Memory.Ints.{IsText, read_int-write_int, read_int-write_minus_one, write_int-outside}
use projeto_so.Process.{ok, writes, closes}
use projeto_so.Protocol.{c_string}
use projeto_so.Protocol.At
use projeto_so.Protocol.Fields.{c_string-Spells, memcpy-Spells, strcpy-fits}
use projeto_so.Fs.Types as Types
use projeto_so.Fs.Validity.{IsValid}
use projeto_so.Fs.Locking.{IsReliable, IsReliable-Works, with_calls-IsValid}
use projeto_so.Fs.Closing.{IsClosed, closed_handle, read_close-IsValid}
use projeto_so.Fs.Operations.{Pthread, tfs_close}
use projeto_so.Broker.{World, Env}
use projeto_so.Broker.Answers.{error_answer, ok_answer, refuse}
use projeto_so.Broker.Sending.{Serves, pipe_write-done, pipe_close-done}

-- An answer as a manager reads it.
pub record Answers (p : Bytes) (opcode : ℕ) (code : ℤ) : Type 0 where
  pub opcode_is : p At.opcode ≡ opcode
  pub code_is : read_int p At.return_code ≡ code

-- An answer with an error message.
pub record Refuses (p : Bytes) (opcode : ℕ) (text : List ℕ) : Type 0 where
  pub answer : Answers p opcode minus_one
  pub text_is : c_string p At.error_message 1_024 ≡ some text

abbrev pub no_nul : List ℕ → Bool
no_nul [] = true
no_nul (c ∷ s) = not (c == 0) && no_nul s

no_nul-IsText : (s : List ℕ) → no_nul s ≡ true → IsText s
no_nul-IsText [] h = tt
no_nul-IsText (c ∷ s) h = elim (Bool-cases (c == 0)) [
  | inl e ↦ absurd (ground arith)
  | inr e ↦ (ground arith, no_nul-IsText s (ground arith))
]

pub error_answer-Refuses :
    (packet : Bytes) (text : List ℕ)
    → no_nul text ≡ true
    → length text < 1_024
    → (p : Bytes) × (error_answer packet text ≡ some p) × Refuses p (packet 0) text
unfolding error_answer
error_answer-Refuses packet text plain short = (
  answer,
  strcpy-fits coded 5 1_024 text short,
  record {
    answer = record {
      opcode_is =
          memcpy-outside coded 5 (text ++ 0 ∷ []) 0 (inl (omega arith))
          ∙ write_int-outside packet 1 minus_one 0 (inl (omega arith));
      code_is =
          read_int-cong answer coded 1
            (λ x ge lt. memcpy-outside coded 5 (text ++ 0 ∷ []) x (inl (omega arith)))
          ∙ read_int-write_minus_one packet 1;
    };
    text_is =
        c_string-Spells answer 5 1_024 text (memcpy-Spells coded 5 text) (no_nul-IsText text plain)
          short;
  },
)
  where
    coded : Bytes
    coded = write_int packet 1 minus_one

    answer : Bytes
    answer = memcpy coded 5 (text ++ 0 ∷ [])

pub ok_answer-Answers : (packet : Bytes) → Answers (ok_answer packet) (packet 0) (pos 0)
unfolding ok_answer
ok_answer-Answers packet = record {
  opcode_is = write_int-outside packet 1 (pos 0) 0 (inl (omega arith));
  code_is = read_int-write_int packet 1 0 (omega arith);
}

allocation_cases : (a : Types.AllocationState) → (a ≡ Types.free) ⊎ (a ≡ Types.taken)
allocation_cases Types.free = inl refl
allocation_cases Types.taken = inr refl

closing_closed :
    (p : Pthread) {s : Types.State} (h : ℤ)
    → IsValid s
    → IsReliable p
    → IsClosed s h
    → Types.Ends (λ _ t. IsValid t) (tfs_close p h s)
closing_closed p {s} h v reliable closed =
    subst (Types.Ends λ _ t. IsValid t)
      (sym (closed_handle p h [] 0 v closed (IsReliable-Works s reliable)).0)
      (with_calls-IsValid _ v)

-- Closing any handle keeps the file system valid.
pub close-IsValid :
    (p : Pthread) {s : Types.State} (h : ℤ)
    → IsValid s
    → IsReliable p
    → Types.Ends (λ _ t. IsValid t) (tfs_close p h s)
close-IsValid p (negsuc h) v reliable = closing_closed p (negsuc h) v reliable (λ e. cc)
close-IsValid p {s} (pos h) v reliable = elim (Bool-cases (ltb h s.max_open_files_count)) [
  | inr e ↦ closing_closed p (pos h) v reliable (λ e'. absurd (clash e' e))
  | inl e ↦ elim (allocation_cases (s.free_open_file_entries.cell h)) [
    | inl f ↦ closing_closed p (pos h) v reliable (λ _. f)
    | inr t ↦ (read_close-IsValid p h 0 v (ltb→lt h _ e, t) (IsReliable-Works s reliable)).1
  ]
]
  where
    clash : {b : Bool} → b ≡ true → b ≡ false → ⊥
    clash x y = cc

module _ (e : Env) (pipe : ℤ) (serves : Serves e.os pipe) where
  pub refuse-Refuses :
      (packet : Bytes) (text : List ℕ) (w : World)
      → no_nul text ≡ true
      → length text < 1_024
      → (p : Bytes) × (refuse e pipe packet text w
          ≡ ok tt (record w { calls = closes pipe ∷ writes pipe p ∷ w.calls }))
        × Refuses p (packet 0) text
  unfolding refuse
  refuse-Refuses packet text w plain short =
      let (p, answered, refuses) = error_answer-Refuses packet text plain short in
      (
        p,
        rw
            (
              answered,
              pipe_write-done e.os pipe p w.calls serves,
              pipe_close-done e.os pipe (writes pipe p ∷ w.calls) serves,
            )
            refl,
        refuses,
      )
