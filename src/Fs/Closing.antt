-- ===== src/Fs/Closing.antt =====
-- `tfs_close`, and the operations through a handle that is not open.
use projeto_so.Base.{
  ℕ, ◌<◌, ◌≡◌, refl, sym, ◌∙◌, Bool-cases, inl, inr, true, none, List, [], ◌∷◌, ltb, arith, ℤ, pos,
  negsuc, minus_one,
}
use mathlib.Core.Path.{subst}
use projeto_so.Fs.Reading.{tfs_read_lem}
use projeto_so.Fs.Types.{State, locks, ok, to_size, Ends, taken, free}
use projeto_so.Fs.Validity.{IsValid, IsOpen}
use projeto_so.Fs.Access.{get_open-ok, get_open-invalid, get_open-free, step}
use projeto_so.Fs.Locking.{
  Works, locked, unlocked, with_lock-ok, unlock_return-ok, unlock_read-ok, with_calls-IsValid,
}
use projeto_so.Fs.Handles.{after_read-IsValid, releasing, releasing-IsValid}
use projeto_so.Fs.OpenFiles.{
  valid_file_handle, remove_from_open_file_table, get_open_file_entry, check_handle,
  load_handle_state, set_handle_state,
}
use projeto_so.Fs.Operations.{
  Pthread, tfs_close, tfs_read, tfs_write, close_entry, read_entry, write_entry,
}

remove-ok :
    (s : State) (h : ℕ)
    → h < s.max_open_files_count
    → h < s.free_open_file_entries.size
    → s.free_open_file_entries.cell h ≡ taken
    → remove_from_open_file_table (pos h) s ≡ ok tt (releasing s h)
unfolding remove_from_open_file_table check_handle load_handle_state set_handle_state
remove-ok s h a b t = ground arith

-- `tfs_close` of an open handle returns 0, frees exactly that handle, and releases the mutex.
pub tfs_close_lem :
    (p : Pthread) {s : State} (h : ℕ)
    → IsValid s
    → IsOpen s h
    → Works p s
    → tfs_close p (pos h) s ≡ ok (pos 0) (unlocked (releasing (locked s) h))
unfolding tfs_close close_entry
tfs_close_lem p {s} h v o works =
    with_lock-ok p s _ _ works.lock
    ∙ step _ (get_open-ok (locked s) h o.0 (omega (arith, o.0, v.fits.handle_room)) o.1) (
        step _ (remove-ok (locked s) h o.0 (omega (arith, o.0, v.fits.handle_room)) o.1)
          (unlock_return-ok p (releasing (locked s) h) (pos 0) works.unlock))

-- The handle is out of range, or its entry is free.
abbrev pub IsClosed : State → ℤ → Type 0
IsClosed s h = valid_file_handle s h ≡ true → s.free_open_file_entries.cell (to_size h) ≡ free

get_closed : (s : State) (h : ℤ) → IsValid s → IsClosed s h → get_open_file_entry h s ≡ ok none s
get_closed s (pos h) v c = elim (Bool-cases (ltb h s.max_open_files_count)) [
  | inl e ↦ get_open-free s h (ground (arith, v.fits.handle_room)) (c e)
  | inr e ↦ get_open-invalid s (pos h) e
]
get_closed s (negsuc h) v c = get_open-invalid s (negsuc h) refl

-- Through a handle that is not open, `tfs_close`, `tfs_write` and `tfs_read` return -1 and change
-- nothing but the mutex's history: they take the mutex and release it.
pub closed_handle :
    (p : Pthread) {s : State} (h : ℤ) (buffer : List ℕ) (n : ℕ)
    → IsValid s
    → IsClosed s h
    → Works p s
    → (tfs_close p h s ≡ ok minus_one (unlocked (locked s)))
      × (tfs_write p h buffer n s ≡ ok minus_one (unlocked (locked s)))
      × (tfs_read p h n s ≡ ok (minus_one, []) (unlocked (locked s)))
unfolding tfs_close tfs_read tfs_write close_entry read_entry write_entry
closed_handle p {s} h buffer n v c works = (
  with_lock-ok p s _ _ works.lock
      ∙ step _ nothing (unlock_return-ok p (locked s) minus_one works.unlock),
  with_lock-ok p s _ _ works.lock
      ∙ step _ nothing (unlock_return-ok p (locked s) minus_one works.unlock),
  with_lock-ok p s _ _ works.lock
      ∙ step _ nothing (unlock_read-ok p (locked s) minus_one [] works.unlock),
)
  where
    nothing : get_open_file_entry h (locked s) ≡ ok none (locked s)
    nothing = get_closed (locked s) h (with_calls-IsValid _ v) c

-- `tfs_read` and `tfs_close` through an open handle neither panic nor access memory out of bounds,
-- and keep the file system valid.
pub read_close-IsValid :
    (p : Pthread) {s : State} (h len : ℕ)
    → IsValid s
    → IsOpen s h
    → Works p s
    → Ends (λ _ t. IsValid t) (tfs_read p (pos h) len s)
      × Ends (λ _ t. IsValid t) (tfs_close p (pos h) s)
read_close-IsValid p {s} h len v o works = (
  subst (Ends λ _ t. IsValid t) (sym (tfs_read_lem p h len v o works)) (
      with_calls-IsValid _
        (after_read-IsValid (with_calls-IsValid (locks ∷ s.mutex_calls) v) h len o)),
  subst (Ends λ _ t. IsValid t) (sym (tfs_close_lem p h v o works))
      (with_calls-IsValid _ (releasing-IsValid h (with_calls-IsValid (locks ∷ s.mutex_calls) v))),
)
