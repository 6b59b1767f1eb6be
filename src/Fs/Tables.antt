-- ===== src/Fs/Tables.antt =====
-- The inode table and the data blocks, of fs/state.c. `insert_delay` changes no state and is left
-- out. A pointer to an inode is its index, and a pointer into a block its address in `fs_data`.
use projeto_so.Base.{
  ℕ, zero, suc, ◌+◌, ◌*◌, ◌/◌, Bool, true, false, ltb, leb, if◌then◌else◌, ℤ, pos, negsuc,
  minus_one, is_minus_one, to_int,
}
use projeto_so.Memory.{Array, store}
use projeto_so.Memory.Bytes.{Bytes, write_int}
use projeto_so.Fs.Types.{
  State, Inode, InodeType, t_file, t_directory, AllocationState, free, taken, ok, panic, fault, M,
  pure, ◌>>=◌, ◌>>◌, always_assert, to_size, dir_entry_size,
}

pub data Scan : Type 0 where
  found : ℕ → Scan
  exhausted overrun : Scan

-- The loop that `inode_alloc`, `data_block_alloc` and `add_to_open_file_table` share: the first
-- free entry among the `n` entries from `i` on.
unfoldable pub scan_free : ℕ → ℕ → Array AllocationState → Scan
scan_free zero i ts = exhausted
scan_free (suc n) i ts = elim (ltb i ts.size) [
  | true ↦ elim (ts.cell i) [ free ↦ found i | taken ↦ scan_free n (i + 1) ts ]
  | false ↦ overrun
]

abbrev pub valid_inumber : State → ℤ → Bool
valid_inumber s (pos n) = ltb n s.max_inode_count
valid_inumber s (negsuc n) = false

abbrev pub valid_block_number : State → ℤ → Bool
valid_block_number s (pos n) = ltb n s.max_block_count
valid_block_number s (negsuc n) = false

unfoldable pub state_block_size : M ℕ
state_block_size s = ok s.block_size s

unfoldable pub inode_alloc : M ℤ
inode_alloc s = elim (scan_free s.max_inode_count 0 s.freeinode_ts) [
  | found i ↦ ok (to_int i) (record s { freeinode_ts = store s.freeinode_ts i taken })
  | exhausted ↦ ok minus_one s
  | overrun ↦ fault
]

unfoldable pub data_block_alloc : M ℤ
data_block_alloc s = elim (scan_free s.max_block_count 0 s.free_blocks) [
  | found i ↦ ok (to_int i) (record s { free_blocks = store s.free_blocks i taken })
  | exhausted ↦ ok minus_one s
  | overrun ↦ fault
]

unfoldable pub data_block_free : ℤ → M (Unit {0})
data_block_free b s =
    if valid_block_number s b
    then (if ltb (to_size b) s.free_blocks.size
        then ok tt (record s { free_blocks = store s.free_blocks (to_size b) free })
        else fault)
    else panic

-- The address of the block's first byte.
unfoldable pub data_block_get : ℤ → M ℕ
data_block_get b s = if valid_block_number s b then ok (to_size b * s.block_size) s else panic

unfoldable pub inode_get : ℤ → M ℕ
inode_get inumber s = if valid_inumber s inumber then ok (to_size inumber) s else panic

-- A read and a write through a pointer to an inode.
unfoldable pub load_inode : ℕ → M Inode
load_inode i s = if ltb i s.inode_table.size then ok (s.inode_table.cell i) s else fault

unfoldable pub store_inode : ℕ → Inode → M (Unit {0})
store_inode i node s =
    if ltb i s.inode_table.size
    then ok tt (record s { inode_table = store s.inode_table i node })
    else fault

-- The bytes, if the block at address `a` lies inside `fs_data`, and a write of such bytes.
unfoldable pub load_bytes : ℕ → M Bytes
load_bytes a s = if leb (a + s.block_size) s.fs_data.size then ok s.fs_data.cell s else fault

unfoldable pub store_bytes : Bytes → M (Unit {0})
store_bytes b s = ok tt (record s { fs_data = record { size = s.fs_data.size; cell = b } })

abbrev pub is_taken : AllocationState → Bool
is_taken free = false
is_taken taken = true

unfoldable pub load_freeinode : ℕ → M AllocationState
load_freeinode i s = if ltb i s.freeinode_ts.size then ok (s.freeinode_ts.cell i) s else fault

unfoldable pub free_inode : ℕ → M (Unit {0})
free_inode i s = ok tt (record s { freeinode_ts = store s.freeinode_ts i free })

-- `if (i_size > 0) data_block_free(i_data_block);`
unfoldable pub free_data : Inode → M (Unit {0})
free_data node = if ltb 0 node.i_size then data_block_free node.i_data_block else pure tt

unfoldable pub inode_delete : ℤ → M (Unit {0})
inode_delete inumber = do
  i ← inode_get inumber
  state ← load_freeinode i
  always_assert (is_taken state)
  node ← load_inode i
  free_data node
  free_inode i

-- The address of entry `i` of the directory at address `a`, and of its fields.
abbrev pub d_name : ℕ → ℕ → ℕ
d_name a i = a + dir_entry_size * i

abbrev pub d_inumber : ℕ → ℕ → ℕ
d_inumber a i = a + dir_entry_size * i + 40

-- `for (i = i; i < i + n; i++) dir_entry[i].d_inumber = -1;`
unfoldable pub empty_entries : ℕ → ℕ → ℕ → Bytes → Bytes
empty_entries a zero i b = b
empty_entries a (suc n) i b = empty_entries a n (i + 1) (write_int b (d_inumber a i) minus_one)

-- No data block is left: the fields are initialised, and the inode goes through its deletion.
unfoldable pub abandon_directory : ℤ → M ℤ
abandon_directory inumber = do
  node ← load_inode (to_size inumber)
  store_inode (to_size inumber) (record node { i_size = 0; i_data_block = minus_one })
  inode_delete inumber
  pure minus_one

-- The new directory's block is filled with empty entries.
unfoldable pub fill_directory : ℤ → ℤ → M ℤ
fill_directory inumber b = do
  node ← load_inode (to_size inumber)
  size ← state_block_size
  store_inode (to_size inumber) (record node { i_size = size; i_data_block = b })
  a ← data_block_get b
  bytes ← load_bytes a
  store_bytes (empty_entries a (size / dir_entry_size) 0 bytes)
  pure inumber

-- The `switch` of `inode_create`.
unfoldable pub init_inode : InodeType → ℤ → M ℤ
init_inode t_directory inumber = do
  b ← data_block_alloc
  if is_minus_one b then abandon_directory inumber else fill_directory inumber b
init_inode t_file inumber = do
  node ← load_inode (to_size inumber)
  store_inode (to_size inumber) (record node { i_size = 0; i_data_block = minus_one })
  pure inumber

-- `inode->i_node_type = i_type;`
unfoldable pub set_type : InodeType → ℤ → M (Unit {0})
set_type t inumber = do
  node ← load_inode (to_size inumber)
  store_inode (to_size inumber) (record node { i_node_type = t })

unfoldable pub inode_create : InodeType → M ℤ
inode_create t = do
  inumber ← inode_alloc
  if is_minus_one inumber then pure minus_one else do set_type t inumber; init_inode t inumber
