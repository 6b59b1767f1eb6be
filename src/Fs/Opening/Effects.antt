-- ===== src/Fs/Opening/Effects.antt =====
-- The file systems that the outcomes of `tfs_open` leave.
use projeto_so.Base.{
  ℕ, ◌≤◌, ◌<◌, ◌≡◌, ◌≢◌, true, Bool-cases, inl, inr, Option, some, List, arith, ℤ, pos,
}
use projeto_so.Fs.Types.{State, Run, Ends}
use projeto_so.Fs.Validity.{IsValid, IsUsed, HasBlock, IsOpen, inode, entry, entry_inumber}
use projeto_so.Fs.Handles.{taking_handle-IsValid}
use projeto_so.Fs.Locking.{Works, with_calls-IsValid}
use projeto_so.Fs.Reading.{target}
use projeto_so.Fs.Blocks.{with_inode, with_table-IsValid, with_blocks-IsValid}
use projeto_so.Fs.Inodes.{
  fresh-IsValid, fresh_not_root, fresh-IsUnreferenced, fresh-IsUsed, deleted-IsValid,
}
use projeto_so.Fs.Root.{root_entry}
use projeto_so.Fs.Root.Entry.{filled-IsValid}
use projeto_so.Fs.Operations.{Pthread, skip_slash, tfs_open}
use projeto_so.Fs.Opening.{
  truncated, drops_data, FinishOutcome, opened, no_handle, OpenOutcome, bad_path, missing, no_inode,
  no_entry, created, existing,
}
use projeto_so.Fs.Opening.Branches.{tfs_open-OpenOutcome}

-- No open handle of the inode stands behind its beginning.
abbrev pub IsRewound : State → ℕ → Type 0
IsRewound s i = (h : ℕ) → IsOpen s h → target s h ≡ i → (entry s h).of_offset ≡ 0

module _ {s : State} (v : IsValid s) (i mode : ℕ) (u : IsUsed s i) (root : 0 < i)
    (safe : drops_data s i mode ≡ true → IsRewound s i) where
  abbrev emptied : State
  emptied = with_inode i (record (inode s i) { i_size = 0 }) s

  kept_block : (j : ℕ) → HasBlock emptied j → HasBlock s j × (i ≢ j)
  kept_block j b = ground (arith, b.0)

  emptied-IsValid : IsRewound s i → IsValid emptied
  emptied-IsValid rewound =
      with_table-IsValid s _ (ground arith) v v.fits.inode_room
        (λ j w.
          ground (arith, v.inodes j (record { in_range = w.in_range; is_taken = w.is_taken })))
        (λ j l ne a b. ground (
          arith,
          v.apart j l ne (kept_block j a).0 (kept_block l b).0,
          (kept_block j a).1,
          (kept_block l b).1,
        ))
        (λ h o. ground (arith, v.handles h o, rewound h o))

  truncated-IsValid : IsValid (truncated s i mode)
  truncated-IsValid = elim (Bool-cases (drops_data s i mode)) [
    | inr e ↦ rw e v
    | inl e ↦ rw e (
        with_blocks-IsValid emptied _ (emptied-IsValid (safe e)) v.fits.block_room λ j b.
          let had : 0 < (inode s i).i_size = ground arith in
          let kept = kept_block j b in
          ground (
            arith,
            v.apart i j kept.1 (u, had) kept.0,
            (v.inodes j kept.0.0).block_taken kept.0.1,
            kept.1,
          ))
  ]

FinishOutcome-IsValid :
    {t : State} (i offset : ℕ) (r : Run ℤ)
    → IsValid t
    → IsUsed t i
    → 0 < i
    → offset ≤ (inode t i).i_size
    → FinishOutcome t i offset r
    → Ends (λ _ w. IsValid w) r
FinishOutcome-IsValid i offset _ v u root le (opened h first) =
    with_calls-IsValid _ (taking_handle-IsValid v h i offset u root le)
FinishOutcome-IsValid i offset _ v u root le (no_handle all) = with_calls-IsValid _ v

-- A file that the call truncates has no open handle behind its beginning.
abbrev pub MayTruncate : State → Option (List ℕ) → ℕ → Type 0
MayTruncate s path mode =
    (i k : ℕ)
    → root_entry s (skip_slash path) ≡ some k
    → entry_inumber s k ≡ pos i
    → drops_data s i mode ≡ true
    → IsRewound s i

OpenOutcome-IsValid :
    {s : State} (path : Option (List ℕ)) (mode : ℕ) (r : Run ℤ)
    → IsValid s
    → MayTruncate s path mode
    → OpenOutcome s path mode r
    → Ends (λ _ t. IsValid t) r
OpenOutcome-IsValid path mode _ v safe (bad_path e) = with_calls-IsValid _ v
OpenOutcome-IsValid path mode _ v safe (missing e f g) = with_calls-IsValid _ v
OpenOutcome-IsValid path mode _ v safe (no_inode e f g h) = with_calls-IsValid _ v
OpenOutcome-IsValid path mode _ v safe (no_entry i e f g first why) = with_calls-IsValid _ (
    deleted-IsValid (fresh-IsValid v i first) i (fresh_not_root v i first) (fresh-IsUsed v i first)
      (fresh-IsUnreferenced v i first))
OpenOutcome-IsValid path mode r v safe (created i k e f g first named empty holds finish) =
    FinishOutcome-IsValid i 0 r
      (filled-IsValid (fresh-IsValid v i first) k (skip_slash path) i (fresh-IsUsed v i first)
        (fresh_not_root v i first) (fresh-IsUnreferenced v i first).no_entry)
      (record { in_range = first.in_range; is_taken = (fresh-IsUsed v i first).is_taken })
      (fresh_not_root v i first) (omega arith) finish
OpenOutcome-IsValid {s} path mode r v safe (existing i k valid found used e finish) =
    FinishOutcome-IsValid i _ r (truncated-IsValid v i mode in_use root (safe i k found.0 e))
      (record { in_range = in_use.in_range; is_taken = in_use.is_taken }) root (ground arith) finish
  where
    in_use : IsUsed s i
    in_use = record {
      in_range = ground (arith, (v.entries k used).inumber_valid, e);
      is_taken = ground (arith, (v.entries k used).inode_taken, e);
    }

    root : 0 < i
    root = ground (arith, (v.entries k used).not_root, e)

-- `tfs_open` neither panics nor accesses memory out of bounds, and keeps the file system valid
-- whatever branch it takes, provided that no handle stands behind the beginning of a file that the
-- call truncates.
pub tfs_open-IsValid :
    (p : Pthread) {s : State} (path : Option (List ℕ)) (mode : ℕ)
    → IsValid s
    → Works p s
    → MayTruncate s path mode
    → Ends (λ _ t. IsValid t) (tfs_open p path mode s)
tfs_open-IsValid p path mode v works safe =
    OpenOutcome-IsValid path mode _ (with_calls-IsValid _ v) safe
      (tfs_open-OpenOutcome p path mode v works)
