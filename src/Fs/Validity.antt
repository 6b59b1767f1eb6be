-- ===== src/Fs/Validity.antt =====
-- The well-formedness of a started file system: what fs/state.c and fs/operations.c rely on
-- between two operations.
use projeto_so.Base.{ℕ, ◌+◌, ◌*◌, ◌^◌, ◌≤◌, ◌<◌, ◌≡◌, ◌≢◌, true, false, ℤ, is_minus_one}
use projeto_so.Memory.Bytes.{read_int}
use projeto_so.Fs.Types.{State, Inode, t_directory, taken, max_dir_entries, to_size, OpenFileEntry}
use projeto_so.Fs.Tables.{valid_inumber, valid_block_number, d_name, d_inumber}

abbrev pub inode : State → ℕ → Inode
inode s i = s.inode_table.cell i

abbrev pub entry : State → ℕ → OpenFileEntry
entry s h = s.open_file_table.cell h

-- The address of an inode's data block.
abbrev pub block_base : State → ℕ → ℕ
block_base s i = to_size (inode s i).i_data_block * s.block_size

-- The `int` in entry `k` of the root directory.
abbrev pub entry_inumber : State → ℕ → ℤ
entry_inumber s k = read_int s.fs_data.cell (d_inumber (block_base s 0) k)

-- The parameters are within the range of `int` and `ssize_t`, and the arrays are as large as asked.
pub record Fits (s : State) : Type 0 where
  pub inode_limit : s.max_inode_count ≤ 2 ^ 31
  pub block_limit : s.max_block_count ≤ 2 ^ 31
  pub open_limit : s.max_open_files_count ≤ 2 ^ 31
  pub size_limit : s.block_size ≤ 2 ^ 62
  pub inode_room : s.max_inode_count ≤ s.inode_table.size
  pub freeinode_room : s.max_inode_count ≤ s.freeinode_ts.size
  pub data_room : s.max_block_count * s.block_size ≤ s.fs_data.size
  pub block_room : s.max_block_count ≤ s.free_blocks.size
  pub open_room : s.max_open_files_count ≤ s.open_file_table.size
  pub handle_room : s.max_open_files_count ≤ s.free_open_file_entries.size

pub record IsUsed (s : State) (i : ℕ) : Type 0 where
  pub in_range : i < s.max_inode_count
  pub is_taken : s.freeinode_ts.cell i ≡ taken

-- The inode has a size within a block, and a block of its own if it is not empty.
pub record InodeOk (s : State) (i : ℕ) : Type 0 where
  pub small : (inode s i).i_size ≤ s.block_size
  pub block_valid : 0 < (inode s i).i_size → valid_block_number s (inode s i).i_data_block ≡ true
  pub block_taken :
      0 < (inode s i).i_size → s.free_blocks.cell (to_size (inode s i).i_data_block) ≡ taken

abbrev pub HasBlock : State → ℕ → Type 0
HasBlock s i = IsUsed s i × (0 < (inode s i).i_size)

-- The handle leads to a used inode that is not the root, at an offset within the file.
pub record HandleOk (s : State) (h : ℕ) : Type 0 where
  pub inumber_valid : valid_inumber s (entry s h).of_inumber ≡ true
  pub inode_taken : s.freeinode_ts.cell (to_size (entry s h).of_inumber) ≡ taken
  pub not_root : 0 < to_size (entry s h).of_inumber
  pub within : (entry s h).of_offset ≤ (inode s (to_size (entry s h).of_inumber)).i_size

-- An entry in use names a used inode that is not the root, and its name ends in the entry.
pub record EntryOk (s : State) (k : ℕ) : Type 0 where
  pub inumber_valid : valid_inumber s (entry_inumber s k) ≡ true
  pub inode_taken : s.freeinode_ts.cell (to_size (entry_inumber s k)) ≡ taken
  pub not_root : 0 < to_size (entry_inumber s k)
  pub ends : s.fs_data.cell (d_name (block_base s 0) k + 39) ≡ 0

abbrev pub IsOpen : State → ℕ → Type 0
IsOpen s h = (h < s.max_open_files_count) × (s.free_open_file_entries.cell h ≡ taken)

abbrev pub InUse : State → ℕ → Type 0
InUse s k = (k < max_dir_entries s) × (is_minus_one (entry_inumber s k) ≡ false)

pub record RootOk (s : State) : Type 0 where
  pub used : IsUsed s 0
  pub directory : (inode s 0).i_node_type ≡ t_directory
  pub sized : 0 < s.block_size
  pub full : (inode s 0).i_size ≡ s.block_size

pub record IsValid (s : State) : Type 0 where
  pub fits : Fits s
  pub root : RootOk s
  pub inodes : (i : ℕ) → IsUsed s i → InodeOk s i
  pub apart :
      (i j : ℕ)
      → i ≢ j
      → HasBlock s i
      → HasBlock s j
      → to_size (inode s i).i_data_block ≢ to_size (inode s j).i_data_block
  pub handles : (h : ℕ) → IsOpen s h → HandleOk s h
  pub entries : (k : ℕ) → InUse s k → EntryOk s k
  pub linked_once :
      (k l : ℕ)
      → k ≢ l
      → InUse s k
      → InUse s l
      → to_size (entry_inumber s k) ≢ to_size (entry_inumber s l)
