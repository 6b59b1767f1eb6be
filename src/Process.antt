-- ===== src/Process.antt =====
-- Runs of the programs mbroker, manager, pub and sub: what they may end in, and the calls of the
-- operating system that they make. What the system answers is a parameter, a function of the calls
-- made before.
use projeto_so.Base.{
  ℕ, zero, suc, ◌≡◌, Bool, true, false, List, [], ◌∷◌, Option, none, some, ℤ, pos, negsuc,
}
use projeto_so.Memory.Bytes.{Bytes}

-- A run over a state ends with a value, by PANIC, with an access out of bounds, or it has used up
-- the fuel of a loop.
pub data Run {ℓ} (S A : Type ℓ) : Type ℓ where
  ok : A → S → Run S A
  panic : Run S A
  fault : Run S A
  out_of_fuel : Run S A

abbrev pub M : Type 0 → Type 0 → Type 0
M S A = S → Run S A

module _ {S : Type 0} where
  abbrev pub pure : {A : Type 0} → A → M S A
  pure a s = ok a s

  abbrev pub and_then : {A B : Type 0} → Run S A → (A → M S B) → Run S B
  and_then (ok a s) f = f a s
  and_then panic f = panic
  and_then fault f = fault
  and_then out_of_fuel f = out_of_fuel

  infixl 5 ◌>>=◌ ◌>>◌
  abbrev pub ◌>>=◌ : {A B : Type 0} → M S A → (A → M S B) → M S B
  ◌>>=◌ m f s = and_then (m s) f

  abbrev pub ◌>>◌ : {B : Type 0} → M S (Unit {0}) → M S B → M S B
  m >> k = m >>= λ _. k

  -- An access outside an object.
  abbrev pub or_fault : {A : Type 0} → Option A → M S A
  or_fault none s = fault
  or_fault (some a) s = ok a s

  -- The run ends in a value, and the value and the state are as stated.
  abbrev pub Ends : {A : Type 0} → (A → S → Type 0) → Run S A → Type 0
  Ends P (ok a s) = P a s
  Ends P panic = ⊥
  Ends P fault = ⊥
  Ends P out_of_fuel = ⊥

-- `O_RDONLY` and `O_WRONLY`
pub data OpenMode : Type 0 where
  read_only write_only : OpenMode

-- A call of the operating system, or of a function that tells other threads something.
pub data Call : Type 0 where
  opens : List ℕ → OpenMode → Call
  closes : ℤ → Call
  unlinks : List ℕ → Call
  makes_fifo : List ℕ → Call
  writes : ℤ → Bytes → Call
  reads : ℤ → Call
  allocates : ℕ → Call
  broadcasts : ℕ → Call
  prints : List ℕ → Call
  accesses : List ℕ → Call

-- The calls made, newest first.
abbrev pub Calls : Type 0
Calls = List Call

-- What the calls return, by the calls made before. `read` also has the buffer as it is afterwards,
-- `not_found` and `interrupted` tell whether `errno` is ENOENT or EINTR, `malloc` whether there was
-- memory.
pub record Os : Type 0 where
  pub open_fd : Calls → List ℕ → OpenMode → ℤ
  pub close : Calls → ℤ → ℤ
  pub unlink : Calls → List ℕ → ℤ
  pub not_found : Calls → Bool
  pub mkfifo : Calls → List ℕ → ℤ
  pub write : Calls → ℤ → Bytes → ℤ
  pub read : Calls → ℤ → Bytes → ℤ × Bytes
  pub interrupted : Calls → Bool
  pub malloc : Calls → ℕ → Bool
  pub access : Calls → List ℕ → ℤ

-- The test `r < 0`.
abbrev pub is_negative : ℤ → Bool
is_negative (pos n) = false
is_negative (negsuc n) = true

-- A call that leaves a record and returns a value.
abbrev pub call : {A : Type 0} → Call → (Calls → A) → M Calls A
call c result calls = ok (result calls) (c ∷ calls)

-- A run that begins with a step that ends.
pub step :
    {S A B : Type 0} {r : Run S A} {a : A} {s : S} (f : A → M S B) {t : Run S B}
    → r ≡ ok a s
    → f a s ≡ t
    → and_then r f ≡ t
step f {t} e g = rw e g

pub Ends-then :
    {S A B : Type 0} (P : A → S → Type 0) (Q : B → S → Type 0) (r : Run S A) (f : A → M S B)
    → Ends P r
    → ((a : A) (s : S) → P a s → Ends Q (f a s))
    → Ends Q (and_then r f)
Ends-then P Q (ok a s) f h g = g a s h
Ends-then P Q panic f h g = elim h [ ]
Ends-then P Q fault f h g = elim h [ ]
Ends-then P Q out_of_fuel f h g = elim h [ ]

pub Ends-map :
    {S A : Type 0} (P Q : A → S → Type 0) (r : Run S A)
    → Ends P r
    → ((a : A) (s : S) → P a s → Q a s)
    → Ends Q r
Ends-map P Q (ok a s) h g = g a s h
Ends-map P Q panic h g = elim h [ ]
Ends-map P Q fault h g = elim h [ ]
Ends-map P Q out_of_fuel h g = elim h [ ]

-- `argv[k]`; it is NULL at `argc`.
unfoldable pub arg : List (List ℕ) → ℕ → Option (List ℕ)
arg [] k = none
arg (a ∷ argv) zero = some a
arg (a ∷ argv) (suc k) = arg argv k

-- What a `main` returns or exits with.
abbrev pub exit_success : ℕ
exit_success = 0

abbrev pub exit_failure : ℕ
exit_failure = 1
