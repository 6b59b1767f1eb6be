-- ===== src/Fs/Opening/Existing.antt =====
-- The end of `tfs_open`, and its branch for a file that exists.
use projeto_so.Base.{
  ℕ, ◌<◌, ◌≡◌, refl, sym, true, false, Bool-cases, ◌&&◌, ltb, lt→ltb, inl, inr, Option, some, List,
  arith, pos, minus_one, is_minus_one,
}
use mathlib.Core.Path.{subst}
use projeto_so.Fs.Types.{State, ok}
use projeto_so.Fs.Validity.{IsValid, Fits, IsUsed, InodeOk, inode, entry_inumber, InUse}
use projeto_so.Fs.Access.{
  step, load_inode-ok, store_inode-ok, inode_get-ok, data_block_free-ok, valid_block-lt,
}
use projeto_so.Fs.Allocation.{taking_handle, add_to_open_file_table_cases}
use projeto_so.Fs.Locking.{unlock_return-ok}
use projeto_so.Fs.Root.{root_entry, root_entry-Finds}
use projeto_so.Fs.Operations.{
  Pthread, valid_pathname, skip_slash, has_trunc, open_existing, truncate, finish_open,
}
use projeto_so.Fs.Opening.{
  truncated, initial_offset, FinishOutcome, opened, no_handle, OpenOutcome, existing,
}

truncate-ok :
    (s : State) (mode i : ℕ)
    → Fits s
    → IsUsed s i
    → InodeOk s i
    → truncate mode i s ≡ ok tt (truncated s i mode)
unfolding truncate
truncate-ok s mode i f u o =
    step _ (load_inode-ok s i (omega (arith, f.inode_room, u)))
      (elim (Bool-cases (has_trunc mode && ltb 0 (inode s i).i_size)) [
        | inl e ↦ rw e (
            step _
              (data_block_free-ok s _ (o.block_valid (some_data e))
                (omega (arith, f.block_room, valid_block-lt s _ (o.block_valid (some_data e)))))
              (store_inode-ok _ i _ (omega (arith, f.inode_room, u))))
        | inr e ↦ rw e
      ])
  where
    some_data : (has_trunc mode && ltb 0 (inode s i).i_size) ≡ true → 0 < (inode s i).i_size
    some_data e = ground arith

module _ (p : Pthread) (s : State) (works : is_minus_one (p.unlock s.mutex_calls) ≡ false) where
  pub finish_open-Outcome :
      (i offset : ℕ) → Fits s → FinishOutcome s i offset (finish_open p (pos i) offset s)
  unfolding finish_open
  finish_open-Outcome i offset f = elim (add_to_open_file_table_cases s f (pos i) offset) [
    | inl (h, e, first) ↦
        subst (FinishOutcome s i offset)
          (sym (step _ e (unlock_return-ok p (taking_handle s h (pos i) offset) (pos h) works)))
          (opened h first)
    | inr (e, all) ↦
        subst (FinishOutcome s i offset) (sym (step _ e (unlock_return-ok p s minus_one works)))
          (no_handle all)
  ]

module _ (p : Pthread) (s : State) (works : is_minus_one (p.unlock s.mutex_calls) ≡ false) where
  module _ (v : IsValid s) (path : Option (List ℕ)) (mode : ℕ) where
    pub existing-Outcome :
        (i k : ℕ)
        → valid_pathname path ≡ true
        → root_entry s (skip_slash path) ≡ some k
        → InUse s k
        → entry_inumber s k ≡ pos i
        → OpenOutcome s path mode (open_existing p mode (pos i) s)
    unfolding open_existing
    existing-Outcome i k valid found used e = subst (OpenOutcome s path mode) (sym run) (
        existing i k valid (root_entry-Finds s _ (some k) found) used e
          (finish_open-Outcome p (truncated s i mode) works i _ (ground (arith, v.fits))))
      where
        in_use : IsUsed s i
        in_use = record {
          in_range = ground (arith, (v.entries k used).inumber_valid, e);
          is_taken = ground (arith, (v.entries k used).inode_taken, e);
        }

        run :
            open_existing p mode (pos i) s
            ≡ finish_open p
                (pos i)
                (initial_offset (truncated s i mode) i mode)
                (truncated s i mode)
        run = step _ (inode_get-ok s (pos i) (lt→ltb i _ in_use.in_range)) (
            step _ (truncate-ok s mode i v.fits in_use (v.inodes i in_use)) (
              step _
                (load_inode-ok (truncated s i mode) i (ground (arith, v.fits.inode_room, in_use)))
                refl))
