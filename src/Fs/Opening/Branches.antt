-- ===== src/Fs/Opening/Branches.antt =====
-- The run of `tfs_open`, branch by branch.
use projeto_so.Base.{
  ℕ, ◌≡◌, refl, sym, ap, ◌∙◌, true, false, Bool-cases, lt→ltb, if◌then◌else◌, inl, inr, Option,
  none, List, ℤ, pos, minus_one, is_minus_one,
}
use mathlib.Core.Path.{subst}
use projeto_so.Fs.Types.{◌>>=◌, State, M, ok}
use projeto_so.Fs.Validity.{IsValid}
use projeto_so.Fs.Access.{step, inode_get-ok}
use projeto_so.Fs.Locking.{Works, locked, with_lock-ok, unlock_return-ok, with_calls-IsValid}
use projeto_so.Fs.Directory.{found_inumber}
use projeto_so.Fs.Root.{
  root_entry, root_entry-Finds, root_lookup, find_in_dir-root, root_entry-LookupOutcome,
  LookupOutcome, hit, miss,
}
use projeto_so.Fs.Operations.{
  Pthread, valid_pathname, skip_slash, has_creat, tfs_lookup, tfs_open, open_existing, is_natural,
  unlock_return, open_new,
}
use projeto_so.Fs.Opening.{OpenOutcome, bad_path, missing}
use projeto_so.Fs.Opening.Existing.{existing-Outcome}
use projeto_so.Fs.Opening.Creating.{new-Outcome}

module _ (p : Pthread) (s : State) (works : is_minus_one (p.unlock s.mutex_calls) ≡ false) where
  module _ (v : IsValid s) (path : Option (List ℕ)) (mode : ℕ) where
    missing-Outcome :
        valid_pathname path ≡ true
        → root_entry s (skip_slash path) ≡ none
        → OpenOutcome s path mode
            ((if has_creat mode then open_new p path 0 else unlock_return p minus_one) s)
    missing-Outcome valid not_found = elim (Bool-cases (has_creat mode)) [
      | inl creat ↦ rw creat (new-Outcome p s works v path mode valid not_found creat)
      | inr plain ↦ rw plain (
          subst (OpenOutcome s path mode) (sym (unlock_return-ok p s minus_one works))
            (missing valid (root_entry-Finds s _ none not_found) plain))
    ]

    -- From the lookup on.
    open_found : M ℤ
    open_found = do
      inum ← tfs_lookup path 0
      if is_natural inum
          then open_existing p mode inum
          else (if has_creat mode then open_new p path 0 else unlock_return p minus_one)

    found-Outcome : valid_pathname path ≡ true → OpenOutcome s path mode (open_found s)
    unfolding open_found tfs_lookup found_inumber
    found-Outcome valid =
        from (root_entry s (skip_slash path)) (root_entry-LookupOutcome s v (skip_slash path)) refl
      where
        looked_up : (r : ℤ) → root_lookup s (skip_slash path) ≡ r → tfs_lookup path 0 s ≡ ok r s
        looked_up r e = rw valid (find_in_dir-root s v (skip_slash path) ∙ ap (λ d. ok d s) e)

        from :
            (r : Option ℕ)
            → LookupOutcome s (skip_slash path) r
            → root_entry s (skip_slash path) ≡ r
            → OpenOutcome s path mode (open_found s)
        from _ (hit i k used matches e) found =
            subst (OpenOutcome s path mode)
              (sym (step _ (looked_up (pos i) (rw (found, found_inumber) e)) refl))
              (existing-Outcome p s works v path mode i k valid found used e)
        from _ (miss no_match) found =
            subst (OpenOutcome s path mode)
              (sym (step _ (looked_up minus_one (rw (found, found_inumber))) refl))
              (missing-Outcome valid found)

-- `tfs_open` on a valid file system with a mutex that works, by cases. It returns -1 and changes
-- nothing for an invalid path, for a name that is not in the directory if TFS_O_CREAT is not
-- given, and if no inode is free; if the new name's length is not accepted or the directory is
-- full it returns -1 and has deleted the inode that it had created. Otherwise the file is created
-- in the first free inode and the first empty entry, which then holds the inumber and the name
-- with a NUL at its end, the other entries being as they were, or truncated if it exists, has data
-- and TFS_O_TRUNC is given, and `tfs_open` returns the first free handle, now at the file's end
-- with TFS_O_APPEND for an existing file and at 0 otherwise, or -1 if no handle is free. The mutex
-- is released in each case.
pub tfs_open-OpenOutcome :
    (p : Pthread) {s : State} (path : Option (List ℕ)) (mode : ℕ)
    → IsValid s
    → Works p s
    → OpenOutcome (locked s) path mode (tfs_open p path mode s)
unfolding tfs_open open_found
tfs_open-OpenOutcome p {s} path mode v works =
    subst (OpenOutcome (locked s) path mode) (sym (with_lock-ok p s _ _ works.lock))
      (elim (Bool-cases (valid_pathname path)) [
        | inl valid ↦ rw valid (
            subst (OpenOutcome (locked s) path mode)
              (sym
                (step _ (inode_get-ok (locked s) (pos 0) (lt→ltb 0 _ v.root.used.in_range)) refl))
              (found-Outcome p (locked s) works.unlock (with_calls-IsValid _ v) path mode valid))
        | inr bad ↦ rw bad (
            subst (OpenOutcome (locked s) path mode)
              (sym (unlock_return-ok p (locked s) minus_one works.unlock)) (bad_path bad))
      ])
