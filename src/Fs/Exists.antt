-- ===== src/Fs/Exists.antt =====
-- `tfs_file_exists`: it looks the name up in the root directory.
use projeto_so.Base.{
  ℕ, ◌<◌, ◌≡◌, refl, sym, ap, ◌∙◌, Bool-cases, inl, inr, true, false, Option, List, ℤ, pos,
  minus_one, is_minus_one, arith, lt→ltb,
}
use mathlib.Core.Path.{subst}
use projeto_so.Fs.Types.{State, Run, ok, ◌>>=◌, max_dir_entries}
use projeto_so.Fs.Validity.{IsValid, InUse, IsUsed, block_base, entry_inumber}
use projeto_so.Fs.Access.{inode_get-ok, step}
use projeto_so.Fs.Locking.{
  Works, locked, unlocked, with_lock-ok, unlock_return-ok, with_calls-IsValid,
}
use projeto_so.Fs.Directory.{found_inumber}
use projeto_so.Fs.Directory.Scans.{entry_matches}
use projeto_so.Fs.Root.{
  root_entry, root_lookup, find_in_dir-root, root_entry-LookupOutcome, LookupOutcome, hit, miss,
}
use projeto_so.Fs.Operations.{
  Pthread, unlock_return, tfs_lookup, tfs_file_exists, valid_pathname, skip_slash,
}

-- An entry in use of the root directory matches the path's name and holds the inumber, or the path
-- is not valid or no entry matches and the inumber is -1.
pub data ExistsOutcome (s : State) (path : Option (List ℕ)) : Run ℤ → Type 0 where
  exists :
      (i k : ℕ)
      → valid_pathname path ≡ true
      → InUse s k
      → entry_matches (block_base s 0) s.fs_data.cell (skip_slash path) k ≡ true
      → entry_inumber s k ≡ pos i
      → IsUsed s i
      → ExistsOutcome s path (ok (pos i) (unlocked s))
  unknown_name :
      valid_pathname path ≡ true
      → ((k : ℕ)
          → k < max_dir_entries s
          → entry_matches (block_base s 0) s.fs_data.cell (skip_slash path) k ≡ false)
      → ExistsOutcome s path (ok minus_one (unlocked s))
  bad_path : valid_pathname path ≡ false → ExistsOutcome s path (ok minus_one (unlocked s))

module _ (p : Pthread) (s : State) (works : is_minus_one (p.unlock s.mutex_calls) ≡ false)
    (w : IsValid s) (path : Option (List ℕ)) where
  rest : Run ℤ
  rest = (tfs_lookup path 0 >>= λ inum. unlock_return p inum) s

  looked_up : (d : ℤ) → tfs_lookup path 0 s ≡ ok d s → rest ≡ ok d (unlocked s)
  unfolding rest
  looked_up d e = step _ e (unlock_return-ok p s d works)

  found_root :
      (d : ℤ)
      → valid_pathname path ≡ true
      → root_lookup s (skip_slash path) ≡ d
      → tfs_lookup path 0 s ≡ ok d s
  unfolding tfs_lookup
  found_root d valid e = rw valid (find_in_dir-root s w (skip_slash path) ∙ ap (λ c. ok c s) e)

  from :
      valid_pathname path ≡ true
      → (r : Option ℕ) → LookupOutcome s (skip_slash path) r
      → root_entry s (skip_slash path) ≡ r
      → ExistsOutcome s path rest
  unfolding found_inumber
  from valid _ (hit i k used matches e) found =
      subst (ExistsOutcome s path)
        (sym (looked_up (pos i) (found_root (pos i) valid (rw (found, found_inumber) e))))
        (exists i k valid used matches e (record {
          in_range = ground (arith, (w.entries k used).inumber_valid, e);
          is_taken = ground (arith, (w.entries k used).inode_taken, e);
        }))
  from valid _ (miss no_match) found =
      subst (ExistsOutcome s path)
        (sym (looked_up minus_one (found_root minus_one valid (rw (found, found_inumber)))))
        (unknown_name valid no_match)

  rest-ExistsOutcome : ExistsOutcome s path rest
  unfolding tfs_lookup
  rest-ExistsOutcome = elim (Bool-cases (valid_pathname path)) [
    | inr bad ↦ subst (ExistsOutcome s path) (sym (looked_up minus_one (rw bad))) (bad_path bad)
    | inl valid ↦
        from valid (root_entry s (skip_slash path)) (root_entry-LookupOutcome s w (skip_slash path))
          refl
  ]

-- `tfs_file_exists` returns the inumber, not negative, in the entry of the root directory that
-- matches the path's name, and its inode is used; if the path is not valid or no entry in use
-- matches, it returns -1. It changes nothing but the mutex's history.
pub tfs_file_exists-ExistsOutcome :
    (p : Pthread) {s : State} (path : Option (List ℕ))
    → IsValid s
    → Works p s
    → ExistsOutcome (locked s) path (tfs_file_exists p path s)
unfolding tfs_file_exists rest
tfs_file_exists-ExistsOutcome p {s} path v works =
    subst (ExistsOutcome (locked s) path)
      (sym (
        with_lock-ok p s _ _ works.lock
        ∙ step _ (inode_get-ok (locked s) (pos 0) (lt→ltb 0 _ v.root.used.in_range)) refl))
      (rest-ExistsOutcome p (locked s) works.unlock (with_calls-IsValid _ v) path)
