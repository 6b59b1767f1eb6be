-- ===== src/Fs/Tests.antt =====
-- Runs of the file system at concrete inputs.
pub mod Example
mod Witnesses
use projeto_so.Base.{
  ◌/◌, ℕ, ◌≡◌, refl, Option, none, some, List, [], ◌∷◌, ℤ, pos, negsuc, minus_one, true, false,
  arith, ◌==◌,
}
use projeto_so.Memory.{Array}
use projeto_so.Fs.Init.{Mallocs, no_inode, no_entry}
use projeto_so.Fs.Operations.{Pthread}
use projeto_so.Fs.Init.{state_init, free_all, all_allocated, allocate, clear_tables, tfs_init}
use projeto_so.Fs.Tables.{
  inode_create, inode_alloc, scan_free, load_inode, store_inode, data_block_alloc, state_block_size,
  data_block_get, load_bytes, store_bytes, inode_get, data_block_free, empty_entries,
  abandon_directory, fill_directory, free_data, free_inode, init_inode, inode_delete,
  load_freeinode, set_type,
}
use projeto_so.Fs.Directory.{
  find_in_dir, find_entry, add_dir_entry, fill_entry, fill_found, find_empty, found_inumber,
  open_directory, clear_dir_entry, clear_found, clear_entry, find_name,
}
use projeto_so.Fs.OpenFiles.{
  add_to_open_file_table, check_handle, get_open_file_entry, load_entry, load_handle_state,
  remove_from_open_file_table, set_handle_state, store_entry, take_entry,
}
use projeto_so.Fs.Operations.{
  valid_pathname, tfs_lookup, clamp_read, clamp_write, close_entry, finish_open, fs_bytes,
  mutex_lock, mutex_unlock, open_existing, open_new, read_block, read_entry, skip_slash, truncate,
  unlock_read, unlock_return, with_lock, write_block, write_entry, write_some, tfs_open, tfs_close,
  tfs_write, tfs_read, tfs_unlink, tfs_file_exists,
}
use projeto_so.Memory.Bytes.{
  memcpy, read_bytes, read_int, strn_eq, str_eq, clear_bytes, strncpy, strncpy_bytes, word_at,
  word_bytes, write_int,
}
use projeto_so.Fs.Types.{
  Params, State, Run, ok, panic, fault, M, pure, ◌>>=◌, ◌>>◌, AllocationState, free, taken,
}

abbrev params : Params
params = record {
  max_inode_count = 3;
  max_block_count = 3;
  max_open_files_count = 2;
  block_size = 100;
}

-- An array of elements of `size` bytes.
abbrev filled {ℓ} : {A : Type ℓ} → ℕ → A → ℕ → Option (Array A)
filled size a n = some (record { size = n / size; cell = λ i. a })

abbrev mallocs : Mallocs
mallocs = record {
  inode_table = filled 24 no_inode;
  freeinode_ts = filled 4 taken;
  fs_data = filled 1 7;
  free_blocks = filled 4 taken;
  open_file_table = filled 16 no_entry;
  free_open_file_entries = filled 4 taken;
}

abbrev nothing {ℓ} : {A : Type ℓ} → A → Array A
nothing a = record { size = 0; cell = λ i. a }

abbrev before : State
before = record {
  params = params;
  allocated = false;
  inode_table = nothing no_inode;
  freeinode_ts = nothing free;
  fs_data = nothing 0;
  free_blocks = nothing free;
  open_file_table = nothing no_entry;
  free_open_file_entries = nothing free;
  mutex_calls = [];
}

abbrev pthread : Pthread
pthread = record { lock = λ h. pos 0; unlock = λ h. pos 0 }

abbrev path : Option (List ℕ)
path = some (b'/' ∷ b'a' ∷ [])

abbrev value : {A : Type 0} → Run A → Option A
value (ok a s) = some a
value panic = none
value fault = none

-- init; open; write; close; open; read
session : M (ℤ × List ℕ)
session = do
  rc ← tfs_init mallocs (some params)
  h ← tfs_open pthread path 1
  n ← tfs_write pthread h (b'h' ∷ b'i' ∷ []) 2
  rc' ← tfs_close pthread h
  g ← tfs_open pthread path 0
  tfs_read pthread g 10

-- Opens all of the code for a test.
code : Unit {0}
unfolding state_init free_all all_allocated allocate clear_tables tfs_init inode_create inode_alloc
    scan_free load_inode store_inode data_block_alloc state_block_size data_block_get load_bytes
    store_bytes inode_get data_block_free empty_entries abandon_directory fill_directory free_data
    free_inode init_inode inode_delete load_freeinode set_type find_in_dir find_entry add_dir_entry
    fill_entry fill_found find_empty found_inumber open_directory clear_dir_entry clear_found
    clear_entry find_name add_to_open_file_table check_handle get_open_file_entry load_entry
    load_handle_state remove_from_open_file_table set_handle_state store_entry take_entry
    valid_pathname tfs_lookup clamp_read clamp_write close_entry finish_open fs_bytes mutex_lock
    mutex_unlock open_existing open_new read_block read_entry skip_slash truncate unlock_read
    unlock_return with_lock write_block write_entry write_some tfs_open tfs_close tfs_write tfs_read
    tfs_unlink tfs_file_exists memcpy read_bytes read_int strn_eq str_eq clear_bytes strncpy
    strncpy_bytes word_at word_bytes write_int
code = tt

session-value : value (session before) ≡ some (pos 2, b'h' ∷ b'i' ∷ [])
unfolding session code
session-value = refl
