-- ===== src/Fs/Opening.antt =====
-- `tfs_open` on a valid file system: its outcomes, on every branch.
pub mod Branches
pub mod Creating
pub mod Effects
pub mod Existing
use projeto_so.Base.{
  ℕ, ◌+◌, ◌≤◌, ◌<◌, ◌≡◌, ◌≢◌, Bool, true, false, ◌&&◌, ltb, if◌then◌else◌, ◌⊎◌, Option, none, some,
  List, ℤ, pos, minus_one, is_minus_one,
}
use projeto_so.Memory.{store}
use projeto_so.Fs.Types.{State, Run, ok, free, to_size, max_dir_entries}
use projeto_so.Fs.Validity.{inode, block_base, entry_inumber, InUse}
use projeto_so.Fs.Allocation.{IsFirstFree, AllTaken, taking_handle}
use projeto_so.Fs.Locking.{unlocked}
use projeto_so.Fs.Directory.Scans.{IsFirst}
use projeto_so.Fs.Inodes.{fresh, deleted}
use projeto_so.Fs.Root.{Finds, IsNameable}
use projeto_so.Fs.Root.Entry.{IsFilled, filled}
use projeto_so.Fs.Operations.{valid_pathname, skip_slash, has_creat, has_trunc, has_append}

-- The file's data dropped, if the mode asks for it and there is any.
abbrev pub drops_data : State → ℕ → ℕ → Bool
drops_data s i mode = has_trunc mode && ltb 0 (inode s i).i_size

abbrev pub truncated : State → ℕ → ℕ → State
truncated s i mode = record s {
  free_blocks =
      if drops_data s i mode
      then store s.free_blocks (to_size (inode s i).i_data_block) free
      else s.free_blocks;
  inode_table =
      if drops_data s i mode
      then store s.inode_table i (record (inode s i) { i_size = 0 })
      else s.inode_table;
}

abbrev pub initial_offset : State → ℕ → ℕ → ℕ
initial_offset s i mode = if has_append mode then (inode s i).i_size else 0

-- The first entry of the root directory whose inumber is -1, if there is one.
abbrev pub FirstEmpty : State → Option ℕ → Type 0
FirstEmpty s = IsFirst (λ l. is_minus_one (entry_inumber s l)) 0 (max_dir_entries s)

-- The last part of `tfs_open`: a handle for inode `i` at an offset, or -1 with the state as it is.
pub data FinishOutcome (t : State) (i offset : ℕ) : Run ℤ → Type 0 where
  opened :
      (h : ℕ)
      → IsFirstFree t.free_open_file_entries t.max_open_files_count h
      → FinishOutcome t i offset (ok (pos h) (unlocked (taking_handle t h (pos i) offset)))
  no_handle :
      AllTaken t.free_open_file_entries t.max_open_files_count
      → FinishOutcome t i offset (ok minus_one (unlocked t))

pub data OpenOutcome (s : State) (path : Option (List ℕ)) (mode : ℕ) : Run ℤ → Type 0 where
  bad_path : valid_pathname path ≡ false → OpenOutcome s path mode (ok minus_one (unlocked s))
  missing :
      valid_pathname path ≡ true
      → Finds s (skip_slash path) none
      → has_creat mode ≡ false
      → OpenOutcome s path mode (ok minus_one (unlocked s))
  no_inode :
      valid_pathname path ≡ true
      → Finds s (skip_slash path) none
      → has_creat mode ≡ true
      → AllTaken s.freeinode_ts s.max_inode_count
      → OpenOutcome s path mode (ok minus_one (unlocked s))
  no_entry :
      (i : ℕ)
      → valid_pathname path ≡ true
      → Finds s (skip_slash path) none
      → has_creat mode ≡ true
      → IsFirstFree s.freeinode_ts s.max_inode_count i
      → (¬ (IsNameable (skip_slash path))) ⊎ FirstEmpty s none
      → OpenOutcome s path mode (ok minus_one (unlocked (deleted (fresh s i) i)))
  created :
      (i k : ℕ) {r : Run ℤ}
      → valid_pathname path ≡ true
      → Finds s (skip_slash path) none
      → has_creat mode ≡ true
      → IsFirstFree s.freeinode_ts s.max_inode_count i
      → IsNameable (skip_slash path)
      → FirstEmpty s (some k)
      → IsFilled
          (block_base s 0)
          k
          (skip_slash path)
          i
          s.fs_data.cell
          (filled (fresh s i) k (skip_slash path) i).fs_data.cell
      → FinishOutcome (filled (fresh s i) k (skip_slash path) i) i 0 r
      → OpenOutcome s path mode r
  existing :
      (i k : ℕ) {r : Run ℤ}
      → valid_pathname path ≡ true
      → Finds s (skip_slash path) (some k)
      → InUse s k
      → entry_inumber s k ≡ pos i
      → FinishOutcome (truncated s i mode) i (initial_offset (truncated s i mode) i mode) r
      → OpenOutcome s path mode r
