-- ===== src/Fs/Locking.antt =====
-- The mutex around an operation: what taking and releasing it leaves of the state, and that a file
-- system stays valid under both.
use projeto_so.Base.{ℕ, ◌≡◌, false, List, ◌∷◌, ℤ, is_minus_one, arith}
use projeto_so.Fs.Types.{State, MutexCall, locks, unlocks, M, ok}
use projeto_so.Fs.Validity.{IsValid, IsUsed}
use projeto_so.Fs.Operations.{
  Pthread, with_lock, unlock_return, unlock_read, mutex_lock, mutex_unlock,
}

abbrev pub with_calls : List MutexCall → State → State
with_calls c s = record s { mutex_calls = c }

abbrev pub locked : State → State
locked s = with_calls (locks ∷ s.mutex_calls) s

abbrev pub unlocked : State → State
unlocked s = with_calls (unlocks ∷ s.mutex_calls) s

-- The next call of `pthread_mutex_lock` and the call of `pthread_mutex_unlock` after it do not
-- return -1; POSIX has them return 0 or a positive error number.
pub record Works (p : Pthread) (s : State) : Type 0 where
  pub lock : is_minus_one (p.lock s.mutex_calls) ≡ false
  pub unlock : is_minus_one (p.unlock (locks ∷ s.mutex_calls)) ≡ false

module _ (p : Pthread) (s : State) where
  pub unlock_return-ok :
      (r : ℤ)
      → is_minus_one (p.unlock s.mutex_calls) ≡ false
      → unlock_return p r s ≡ ok r (unlocked s)
  unfolding unlock_return mutex_unlock
  unlock_return-ok r h = rw h

  pub unlock_read-ok :
      (r : ℤ) (bytes : List ℕ)
      → is_minus_one (p.unlock s.mutex_calls) ≡ false
      → unlock_read p r bytes s ≡ ok (r, bytes) (unlocked s)
  unfolding unlock_read unlock_return mutex_unlock
  unlock_read-ok r bytes h = rw h

  pub with_lock-ok :
      {A : Type 0} (failed : A) (body : M A)
      → is_minus_one (p.lock s.mutex_calls) ≡ false
      → with_lock p failed body s ≡ body (locked s)
  unfolding with_lock mutex_lock
  with_lock-ok failed body h = rw h

module _ {s : State} (c : List MutexCall) where
  IsUsed-drop : {i : ℕ} → IsUsed (with_calls c s) i → IsUsed s i
  IsUsed-drop u = record { in_range = u.in_range; is_taken = u.is_taken }

  pub with_calls-IsValid : IsValid s → IsValid (with_calls c s)
  with_calls-IsValid v = record {
    fits = omega arith;
    root = ground arith;
    inodes = λ i u. ground (arith, v.inodes i (IsUsed-drop u));
    apart = λ i j ne a b. v.apart i j ne (IsUsed-drop a.0, a.1) (IsUsed-drop b.0, b.1);
    handles = λ h o. ground (arith, v.handles h o);
    entries = λ k o. ground (arith, v.entries k o);
    linked_once = v.linked_once;
  }

-- No call of the mutex returns -1.
pub record IsReliable (p : Pthread) : Type 0 where
  pub lock : (c : List MutexCall) → is_minus_one (p.lock c) ≡ false
  pub unlock : (c : List MutexCall) → is_minus_one (p.unlock c) ≡ false

pub IsReliable-Works : {p : Pthread} (s : State) → IsReliable p → Works p s
IsReliable-Works s r = record { lock = r.lock _; unlock = r.unlock _ }
