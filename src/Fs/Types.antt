-- ===== src/Fs/Types.antt =====
-- The data of fs/state.h, fs/config.h and fs/operations.h, the static variables of fs/state.c as
-- one record, and runs of code over it.
use projeto_so.Base.{ℕ, ◌-◌, ◌/◌, ◌%◌, ◌^◌, Bool, true, false, List, ℤ, pos, negsuc}
use projeto_so.Memory.{Array}

-- `tfs_params`
pub record Params : Type 0 where
  pub max_inode_count : ℕ
  pub max_block_count : ℕ
  pub max_open_files_count : ℕ
  pub block_size : ℕ

abbrev pub root_dir_inum : ℕ
root_dir_inum = 0

abbrev pub max_file_name : ℕ
max_file_name = 40

-- `sizeof(dir_entry_t)`: the name, and an `int` behind it.
abbrev pub dir_entry_size : ℕ
dir_entry_size = 44

pub data InodeType : Type 0 where
  t_file t_directory : InodeType

pub record Inode : Type 0 where
  pub i_node_type : InodeType
  pub i_size : ℕ
  pub i_data_block : ℤ

pub data AllocationState : Type 0 where
  free taken : AllocationState

pub record OpenFileEntry : Type 0 where
  pub of_inumber : ℤ
  pub of_offset : ℕ

-- The calls made on `g_library_mutex`.
pub data MutexCall : Type 0 where
  locks unlocks : MutexCall

-- The static variables. `allocated` is `inode_table != NULL`, the one pointer that the code tests
-- again after its own allocations. `mutex_calls` is the history of the mutex, newest first.
pub record State : Type 0 where
  pub params : Params
  pub open params use *
  pub allocated : Bool
  pub inode_table : Array Inode
  pub freeinode_ts : Array AllocationState
  pub fs_data : Array ℕ
  pub free_blocks : Array AllocationState
  pub open_file_table : Array OpenFileEntry
  pub free_open_file_entries : Array AllocationState
  pub mutex_calls : List MutexCall

abbrev pub max_dir_entries : State → ℕ
max_dir_entries s = s.block_size / dir_entry_size

-- A run ends with a value, or by PANIC, which exits the process, or in an access outside an array.
pub data Run {ℓ} (A : Type ℓ) : Type ℓ where
  ok : A → State → Run A
  panic : Run A
  fault : Run A

abbrev pub M : Type 0 → Type 0
M A = State → Run A

abbrev pub pure : {A : Type 0} → A → M A
pure a s = ok a s

abbrev pub and_then : {A B : Type 0} → Run A → (A → M B) → Run B
and_then (ok a s) f = f a s
and_then panic f = panic
and_then fault f = fault

infixl 5 ◌>>=◌ ◌>>◌
abbrev pub ◌>>=◌ : {A B : Type 0} → M A → (A → M B) → M B
◌>>=◌ m f s = and_then (m s) f

abbrev pub ◌>>◌ : {B : Type 0} → M (Unit {0}) → M B → M B
m >> k = m >>= λ _. k

-- `ALWAYS_ASSERT`
abbrev pub always_assert : Bool → M (Unit {0})
always_assert true s = ok tt s
always_assert false s = panic

-- An access that is out of bounds unless the test passes.
abbrev pub in_bounds : Bool → M (Unit {0})
in_bounds true s = ok tt s
in_bounds false s = fault

-- An `int` used as an index or converted to `size_t`: a negative one wraps.
abbrev pub to_size : ℤ → ℕ
to_size (pos n) = n
to_size (negsuc n) = 2 ^ 64 - 1 - n % 2 ^ 64

-- The run ends in a value, without a panic or a fault, and the value and state are as stated.
abbrev pub Ends : {A : Type 0} → (A → State → Type 0) → Run A → Type 0
Ends P (ok a s) = P a s
Ends P panic = ⊥
Ends P fault = ⊥
