-- ===== src/Fs/Starting/Requirements.antt =====
-- What `tfs_init` needs of `malloc` and of the parameters.
use projeto_so.Base.{ℕ, ◌*◌, ◌^◌, Option, ◌≤◌, ◌<◌, ◌≡◌, some, arith}
use projeto_so.Memory.{Array}
use projeto_so.Fs.Types.{Params, State}
use projeto_so.Fs.Init.{
  Mallocs, inode_size, allocation_state_size, open_file_entry_size, asked_inode_table,
  asked_freeinode_ts, asked_fs_data, asked_free_blocks, asked_open_file_table,
  asked_free_open_file_entries,
}
use projeto_so.Fs.Validity.{Fits}

-- The six calls of `malloc` succeed: they return the arrays of `t`.
pub record Succeeds (m : Mallocs) (t : State) : Type 0 where
  pub inode_table : m.inode_table (asked_inode_table t.params) ≡ some t.inode_table
  pub freeinode_ts : m.freeinode_ts (asked_freeinode_ts t.params) ≡ some t.freeinode_ts
  pub fs_data : m.fs_data (asked_fs_data t.params) ≡ some t.fs_data
  pub free_blocks : m.free_blocks (asked_free_blocks t.params) ≡ some t.free_blocks
  pub open_file_table : m.open_file_table (asked_open_file_table t.params) ≡ some t.open_file_table
  pub free_open_file_entries :
      m.free_open_file_entries (asked_free_open_file_entries t.params)
      ≡ some t.free_open_file_entries

-- An array that `malloc` returns for elements of `size` bytes has room for the bytes asked for.
abbrev pub GivesBytes {ℓ} : {A : Type ℓ} → ℕ → (ℕ → Option (Array A)) → Type ℓ
GivesBytes {A = A} size malloc = (n : ℕ) (a : Array A) → malloc n ≡ some a → n ≤ a.size * size

pub record GivesRoom (m : Mallocs) : Type 0 where
  pub inode_table : GivesBytes inode_size m.inode_table
  pub freeinode_ts : GivesBytes allocation_state_size m.freeinode_ts
  pub fs_data : GivesBytes 1 m.fs_data
  pub free_blocks : GivesBytes allocation_state_size m.free_blocks
  pub open_file_table : GivesBytes open_file_entry_size m.open_file_table
  pub free_open_file_entries : GivesBytes allocation_state_size m.free_open_file_entries

-- There are an inode, a block and a byte in it for the root, inumbers, blocks and handles are
-- within `int`, and the bytes of all blocks within `size_t`.
pub record CanStart (p : Params) : Type 0 where
  pub some_inode : 0 < p.max_inode_count
  pub some_block : 0 < p.max_block_count
  pub sized : 0 < p.block_size
  pub inode_limit : p.max_inode_count ≤ 2 ^ 31
  pub block_limit : p.max_block_count ≤ 2 ^ 31
  pub open_limit : p.max_open_files_count ≤ 2 ^ 31
  pub size_limit : p.block_size ≤ 2 ^ 62
  pub data_limit : p.max_block_count * p.block_size < 2 ^ 64

-- The products that the code gives to `malloc` do not wrap around, so the tables fit.
pub started-Fits :
    (m : Mallocs) (t : State) → GivesRoom m → Succeeds m t → CanStart t.params → Fits t
started-Fits m t gives done can = record {
  inode_limit = can.inode_limit;
  block_limit = can.block_limit;
  open_limit = can.open_limit;
  size_limit = can.size_limit;
  inode_room = omega (arith, gives.inode_table _ _ done.inode_table, can.inode_limit);
  freeinode_room = omega (arith, gives.freeinode_ts _ _ done.freeinode_ts, can.inode_limit);
  data_room = omega (arith, gives.fs_data _ _ done.fs_data, can.data_limit);
  block_room = omega (arith, gives.free_blocks _ _ done.free_blocks, can.block_limit);
  open_room = omega (arith, gives.open_file_table _ _ done.open_file_table, can.open_limit);
  handle_room =
      omega (arith, gives.free_open_file_entries _ _ done.free_open_file_entries, can.open_limit);
}
