-- ===== src/Fs/OpenFiles.antt =====
-- The table of open files, of fs/state.c. A pointer to an entry is its index, and NULL is `none`.
use projeto_so.Base.{
  ℕ, Bool, false, not, Option, none, some, ltb, if◌then◌else◌, ℤ, pos, negsuc, minus_one, to_int,
}
use projeto_so.Memory.{store}
use projeto_so.Fs.Types.{
  State, OpenFileEntry, AllocationState, free, taken, ok, fault, M, pure, ◌>>=◌, ◌>>◌,
  always_assert, to_size,
}
use projeto_so.Fs.Tables.{Scan, found, exhausted, overrun, scan_free, is_taken}

abbrev pub valid_file_handle : State → ℤ → Bool
valid_file_handle s (pos n) = ltb n s.max_open_files_count
valid_file_handle s (negsuc n) = false

unfoldable pub load_entry : ℕ → M OpenFileEntry
load_entry i s = if ltb i s.open_file_table.size then ok (s.open_file_table.cell i) s else fault

unfoldable pub store_entry : ℕ → OpenFileEntry → M (Unit {0})
store_entry i e s =
    if ltb i s.open_file_table.size
    then ok tt (record s { open_file_table = store s.open_file_table i e })
    else fault

unfoldable pub load_handle_state : ℕ → M AllocationState
load_handle_state i s =
    if ltb i s.free_open_file_entries.size then ok (s.free_open_file_entries.cell i) s else fault

unfoldable pub set_handle_state : ℕ → AllocationState → M (Unit {0})
set_handle_state i v s =
    ok tt (record s { free_open_file_entries = store s.free_open_file_entries i v })

-- What the loop does at the free entry that it finds.
unfoldable pub take_entry : ℤ → ℕ → Scan → M ℤ
take_entry inumber offset (found i) = do
  set_handle_state i taken
  store_entry i (record { of_inumber = inumber; of_offset = offset })
  pure (to_int i)
take_entry inumber offset exhausted = pure minus_one
take_entry inumber offset overrun = λ s. fault

unfoldable pub add_to_open_file_table : ℤ → ℕ → M ℤ
add_to_open_file_table inumber offset s =
    take_entry inumber offset (scan_free s.max_open_files_count 0 s.free_open_file_entries) s

unfoldable pub check_handle : ℤ → M Bool
check_handle fhandle s = ok (valid_file_handle s fhandle) s

unfoldable pub remove_from_open_file_table : ℤ → M (Unit {0})
remove_from_open_file_table fhandle = do
  valid ← check_handle fhandle
  always_assert valid
  state ← load_handle_state (to_size fhandle)
  always_assert (is_taken state)
  set_handle_state (to_size fhandle) free

unfoldable pub get_open_file_entry : ℤ → M (Option ℕ)
get_open_file_entry fhandle = do
  valid ← check_handle fhandle
  if not valid then pure none else do
    state ← load_handle_state (to_size fhandle)
    pure (if is_taken state then some (to_size fhandle) else none)
