-- ===== src/Fs/Init.antt =====
-- Starting and ending the file system: `state_init` and `state_destroy` of fs/state.c, `tfs_init`
-- and `tfs_destroy` of fs/operations.c.
use projeto_so.Base.{
  ℕ, zero, suc, ◌+◌, ◌*◌, ◌%◌, ◌^◌, Bool, true, false, ◌&&◌, not, Option, none, some, if◌then◌else◌,
  ℤ, pos, negsuc, minus_one, ◌==◌,
}
use projeto_so.Memory.{Array, update}
use projeto_so.Fs.Types.{
  Params, State, Inode, OpenFileEntry, AllocationState, free, t_directory, ok, M, pure, ◌>>=◌,
  root_dir_inum,
}
use projeto_so.Fs.Tables.{inode_create}

-- What the six calls of `malloc` return for the number of bytes that they are given: an array with
-- any contents, or NULL.
pub record Mallocs : Type 0 where
  pub inode_table : ℕ → Option (Array Inode)
  pub freeinode_ts : ℕ → Option (Array AllocationState)
  pub fs_data : ℕ → Option (Array ℕ)
  pub free_blocks : ℕ → Option (Array AllocationState)
  pub open_file_table : ℕ → Option (Array OpenFileEntry)
  pub free_open_file_entries : ℕ → Option (Array AllocationState)

-- A NULL pointer is an array of size 0, whose elements are never read.
abbrev pub array_or {ℓ} : {A : Type ℓ} → A → Option (Array A) → Array A
array_or d none = record { size = 0; cell = λ i. d }
array_or d (some a) = a

abbrev pub is_some {ℓ} : {A : Type ℓ} → Option A → Bool
is_some none = false
is_some (some a) = true

-- `for (i = i; i < i + n; i++) ts[i] = FREE;`
unfoldable pub free_all : ℕ → ℕ → (ℕ → AllocationState) → ℕ → AllocationState
free_all zero i f = f
free_all (suc n) i f = free_all n (i + 1) (update f i free)

abbrev pub free_array : ℕ → Array AllocationState → Array AllocationState
free_array n a = record a { cell = free_all n 0 a.cell }

abbrev pub no_inode : Inode
no_inode = record { i_node_type = t_directory; i_size = 0; i_data_block = minus_one }

abbrev pub no_entry : OpenFileEntry
no_entry = record { of_inumber = minus_one; of_offset = 0 }

-- A product of `size_t`, which wraps around.
abbrev pub mul_size : ℕ → ℕ → ℕ
mul_size a b = a * b % 2 ^ 64

-- `sizeof(inode_t)`, `sizeof(allocation_state_t)` and `sizeof(open_file_entry_t)`
abbrev pub inode_size : ℕ
inode_size = 24

abbrev pub allocation_state_size : ℕ
allocation_state_size = 4

abbrev pub open_file_entry_size : ℕ
open_file_entry_size = 16

-- The arguments of the six calls of `malloc`.
abbrev pub asked_inode_table : Params → ℕ
asked_inode_table p = mul_size p.max_inode_count inode_size

abbrev pub asked_freeinode_ts : Params → ℕ
asked_freeinode_ts p = mul_size p.max_inode_count allocation_state_size

abbrev pub asked_fs_data : Params → ℕ
asked_fs_data p = mul_size p.max_block_count p.block_size

abbrev pub asked_free_blocks : Params → ℕ
asked_free_blocks p = mul_size p.max_block_count allocation_state_size

abbrev pub asked_open_file_table : Params → ℕ
asked_open_file_table p = mul_size p.max_open_files_count open_file_entry_size

abbrev pub asked_free_open_file_entries : Params → ℕ
asked_free_open_file_entries p = mul_size p.max_open_files_count allocation_state_size

-- The six pointers after the calls of `malloc`.
unfoldable pub allocate : Mallocs → State → State
allocate m s = record s {
  allocated = is_some (m.inode_table (asked_inode_table s.params));
  inode_table = array_or no_inode (m.inode_table (asked_inode_table s.params));
  freeinode_ts = array_or free (m.freeinode_ts (asked_freeinode_ts s.params));
  fs_data = array_or 0 (m.fs_data (asked_fs_data s.params));
  free_blocks = array_or free (m.free_blocks (asked_free_blocks s.params));
  open_file_table = array_or no_entry (m.open_file_table (asked_open_file_table s.params));
  free_open_file_entries =
      array_or free (m.free_open_file_entries (asked_free_open_file_entries s.params));
}

unfoldable pub all_allocated : Mallocs → Params → Bool
all_allocated m p =
    is_some (m.inode_table (asked_inode_table p))
    && is_some (m.freeinode_ts (asked_freeinode_ts p))
    && is_some (m.fs_data (asked_fs_data p))
    && is_some (m.free_blocks (asked_free_blocks p))
    && is_some (m.open_file_table (asked_open_file_table p))
    && is_some (m.free_open_file_entries (asked_free_open_file_entries p))

unfoldable pub clear_tables : State → State
clear_tables s = record s {
  freeinode_ts = free_array s.max_inode_count s.freeinode_ts;
  free_blocks = free_array s.max_block_count s.free_blocks;
  free_open_file_entries = free_array s.max_open_files_count s.free_open_file_entries;
}

-- The parameters are stored before the test.
unfoldable pub state_init : Mallocs → Params → M ℤ
state_init m params s =
    if s.allocated
    then ok minus_one (record s { params = params })
    else if not (all_allocated m params)
    then ok minus_one (allocate m (record s { params = params }))
    else ok (pos 0) (clear_tables (allocate m (record s { params = params })))

-- All six pointers are NULL again.
unfoldable pub state_destroy : M ℤ
state_destroy s = ok (pos 0) (allocate nothing s)
  where
    nothing : Mallocs
    nothing = record {
      inode_table = λ n. none;
      freeinode_ts = λ n. none;
      fs_data = λ n. none;
      free_blocks = λ n. none;
      open_file_table = λ n. none;
      free_open_file_entries = λ n. none;
    }

abbrev pub tfs_default_params : Params
tfs_default_params = record {
  max_inode_count = 64;
  max_block_count = 1024;
  max_open_files_count = 16;
  block_size = 1024;
}

abbrev pub params_or_default : Option Params → Params
params_or_default none = tfs_default_params
params_or_default (some p) = p

abbrev pub equals_int : ℤ → ℕ → Bool
equals_int (pos n) k = n == k
equals_int (negsuc n) k = false

unfoldable pub tfs_init : Mallocs → Option Params → M ℤ
tfs_init m params_ptr = do
  rc ← state_init m (params_or_default params_ptr)
  if not (equals_int rc 0) then pure minus_one else do
    root ← inode_create t_directory
    pure (if equals_int root root_dir_inum then pos 0 else minus_one)

unfoldable pub tfs_destroy : M ℤ
tfs_destroy = do rc ← state_destroy; pure (if equals_int rc 0 then pos 0 else minus_one)
