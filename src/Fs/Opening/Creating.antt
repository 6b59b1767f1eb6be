-- ===== src/Fs/Opening/Creating.antt =====
-- The branch of `tfs_open` that creates a file.
use projeto_so.Base.{
  ℕ, ◌*◌, ◌<◌, ◌≡◌, refl, sym, ap, ◌∙◌, true, false, Bool-cases, ◌&&◌, length, leb, ltb, lt→ltb,
  ◌⊎◌, inl, inr, Option, Option-cases, none, some, List, arith, pos, minus_one, is_minus_one,
}
use mathlib.Core.Path.{subst}
use projeto_so.Fs.Types.{Inode, State, ok, to_size, max_dir_entries}
use projeto_so.Memory.Bytes.{read_int}
use projeto_so.Fs.Directory.Scans.{IsFirst, find_empty-IsFirst}
use projeto_so.Fs.Tables.{d_inumber, store_bytes, inode_alloc}
use projeto_so.Fs.Validity.{block_base, IsValid, IsUsed, inode, entry_inumber}
use projeto_so.Fs.Access.{step}
use projeto_so.Fs.Allocation.{IsFirstFree, taking_inode, inode_alloc_cases}
use projeto_so.Fs.Locking.{unlocked, unlock_return-ok}
use projeto_so.Fs.Directory.{find_empty, fill_found, add_dir_entry}
use projeto_so.Fs.Inodes.{
  fresh, deleted, inode_create-file, inode_create-failed, inode_delete-ok, fresh-IsValid,
  fresh_not_root,
}
use projeto_so.Fs.Root.{
  root_entry, root_entry-Finds, IsNameable, add_dir_entry-root, add_dir_entry-unnameable,
}
use projeto_so.Fs.Root.Entry.{IsFilled, filled-IsFilled, filled}
use projeto_so.Fs.Operations.{Pthread, valid_pathname, skip_slash, has_creat, open_new, finish_open}
use projeto_so.Fs.Opening.{FirstEmpty, OpenOutcome, no_inode, no_entry, created}
use projeto_so.Fs.Opening.Existing.{finish_open-Outcome}

IsNameable-cases : (name : List ℕ) → IsNameable name ⊎ (¬ (IsNameable name))
IsNameable-cases name = elim (Bool-cases (ltb 0 (length name) && leb (length name) 39)) [
  | inl good ↦ inl (ground arith, ground arith)
  | inr bad ↦ inr (λ n. ground (arith, n.0, n.1))
]

module _ (p : Pthread) (s : State) (works : is_minus_one (p.unlock s.mutex_calls) ≡ false) where
  module _ (v : IsValid s) (path : Option (List ℕ)) (mode : ℕ) where
    no_inode_left : inode_alloc s ≡ ok minus_one s → open_new p path 0 s ≡ ok minus_one (unlocked s)
    unfolding open_new
    no_inode_left e = step _ (inode_create-failed s e) (unlock_return-ok p s minus_one works)

    module _ (i : ℕ) (e : inode_alloc s ≡ ok (pos i) (taking_inode s i))
        (first : IsFirstFree s.freeinode_ts s.max_inode_count i) where
      abbrev new : State
      new = fresh s i

      new-IsValid : IsValid new
      new-IsValid = fresh-IsValid v i first

      -- The root's inode is as it was, and so is the place of its block.
      same_base : block_base new 0 ≡ block_base s 0
      same_base = ap (λ (n : Inode). to_size n.i_data_block * s.block_size) same_root
        where
          same_root : inode new 0 ≡ inode s 0
          same_root = ground (arith, fresh_not_root v i first)

      abbrev empty_entry : Option ℕ
      empty_entry = find_empty (block_base new 0) (max_dir_entries s) 0 s.fs_data.cell

      first_empty : (r : Option ℕ) → empty_entry ≡ r → FirstEmpty s r
      first_empty r q =
          subst
            (λ a.
              IsFirst (λ l. is_minus_one (read_int s.fs_data.cell (d_inumber a l))) 0
                (max_dir_entries s) r)
            same_base
            (subst (IsFirst (λ l. is_minus_one (entry_inumber new l)) 0 (max_dir_entries s)) q (
              find_empty-IsFirst (block_base new 0) s.fs_data.cell (max_dir_entries s) 0
                (max_dir_entries s) (omega arith)))

      is_filled :
          (k : ℕ)
          → IsNameable (skip_slash path)
          → IsFilled
              (block_base s 0)
              k
              (skip_slash path)
              i
              s.fs_data.cell
              (filled new k (skip_slash path) i).fs_data.cell
      is_filled k good =
          subst
            (λ a.
              IsFilled a k (skip_slash path) i s.fs_data.cell
                (filled new k (skip_slash path) i).fs_data.cell)
            same_base
            (filled-IsFilled new k (skip_slash path) i good.1
              (omega (arith, first.in_range, v.fits.inode_limit)))

      room : i < s.inode_table.size
      room = omega (arith, v.fits.inode_room, first.in_range)

      taken_new : IsUsed new i
      taken_new = record { in_range = first.in_range; is_taken = ground arith }

      undone :
          add_dir_entry 0 (skip_slash path) (pos i) new ≡ ok minus_one new
          → open_new p path 0 s ≡ ok minus_one (unlocked (deleted new i))
      unfolding open_new
      undone failed = step _ (inode_create-file s i room e) (
          step _ failed (
            step _
              (inode_delete-ok new (pos i) new-IsValid.fits (lt→ltb i _ first.in_range) taken_new
                (new-IsValid.inodes i taken_new))
              (unlock_return-ok p (deleted new i) minus_one works)))

      filled_in :
          (k : ℕ)
          → add_dir_entry 0 (skip_slash path) (pos i) new
            ≡ ok (pos 0) (filled new k (skip_slash path) i)
          → open_new p path 0 s ≡ finish_open p (pos i) 0 (filled new k (skip_slash path) i)
      unfolding open_new
      filled_in k added = step _ (inode_create-file s i room e) (step _ added refl)

      named-Outcome :
          valid_pathname path ≡ true
          → root_entry s (skip_slash path) ≡ none
          → has_creat mode ≡ true
          → OpenOutcome s path mode (open_new p path 0 s)
      unfolding fill_found store_bytes
      named-Outcome valid not_found creat = elim (IsNameable-cases (skip_slash path)) [
        | inr bad ↦
            subst (OpenOutcome s path mode)
              (sym (undone (add_dir_entry-unnameable new new-IsValid (skip_slash path) i bad)))
              (no_entry i valid (root_entry-Finds s _ none not_found) creat first (inl bad))
        | inl good ↦ elim (Option-cases empty_entry) [
          | inl full ↦
              subst (OpenOutcome s path mode)
                (sym
                  (undone (add_dir_entry-root new new-IsValid (skip_slash path) i good ∙ rw full)))
                (no_entry i valid (root_entry-Finds s _ none not_found) creat first
                  (inr (first_empty none full)))
          | inr (k, empty) ↦
              subst (OpenOutcome s path mode)
                (sym (
                  filled_in k
                    (add_dir_entry-root new new-IsValid (skip_slash path) i good ∙ rw empty)))
                (created i k valid (root_entry-Finds s _ none not_found) creat first good
                  (first_empty (some k) empty) (is_filled k good)
                  (finish_open-Outcome p (filled new k (skip_slash path) i) works i 0
                    (ground (arith, v.fits))))
        ]
      ]

    pub new-Outcome :
        valid_pathname path ≡ true
        → root_entry s (skip_slash path) ≡ none
        → has_creat mode ≡ true
        → OpenOutcome s path mode (open_new p path 0 s)
    new-Outcome valid not_found creat = elim (inode_alloc_cases s v.fits) [
      | inl (i, e, first) ↦ named-Outcome i e first valid not_found creat
      | inr (e, all) ↦
          subst (OpenOutcome s path mode) (sym (no_inode_left e))
            (no_inode valid (root_entry-Finds s _ none not_found) creat all)
    ]
