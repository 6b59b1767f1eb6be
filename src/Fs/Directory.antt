-- ===== src/Fs/Directory.antt =====
-- Directory entries, of fs/state.c: the loops over the entries of a directory's block. A name is
-- the list of its bytes, without the NUL at its end.
pub mod Scans
pub mod Entries
use projeto_so.Base.{
  ℕ, zero, suc, ◌+◌, ◌-◌, ◌/◌, Bool, true, false, ◌&&◌, ◌||◌, not, Option, none, some, List, [],
  ◌∷◌, ltb, ◌==◌, if◌then◌else◌, ℤ, minus_one, is_minus_one, length,
}
use projeto_so.Memory.Bytes.{
  Bytes, read_int, write_int, str_eq, strn_eq, strncpy, clear_bytes, memcpy,
}
use projeto_so.Fs.Types.{
  Inode, t_file, t_directory, M, pure, ◌>>=◌, ◌>>◌, dir_entry_size, max_file_name,
}
use projeto_so.Fs.Tables.{
  load_inode, data_block_get, load_bytes, store_bytes, state_block_size, d_name, d_inumber,
}

abbrev pub is_directory : Inode → Bool
is_directory node = elim node.i_node_type [ t_file ↦ false | t_directory ↦ true ]

-- The index of the first entry in use that has the name.
unfoldable pub find_entry : ℕ → List ℕ → ℕ → ℕ → Bytes → Option ℕ
find_entry a name zero i b = none
find_entry a name (suc n) i b =
    let rest = find_entry a name n (i + 1) b in
    if not (is_minus_one (read_int b (d_inumber a i))) && strn_eq b (d_name a i) name max_file_name
    then some i
    else rest

-- The index of the first entry that has the name, in use or not.
unfoldable pub find_name : ℕ → List ℕ → ℕ → ℕ → Bytes → Option ℕ
find_name a name zero i b = none
find_name a name (suc n) i b =
    let rest = find_name a name n (i + 1) b in if str_eq b (d_name a i) name then some i else rest

-- The index of the first empty entry.
unfoldable pub find_empty : ℕ → ℕ → ℕ → Bytes → Option ℕ
find_empty a zero i b = none
find_empty a (suc n) i b =
    let rest = find_empty a n (i + 1) b in
    if is_minus_one (read_int b (d_inumber a i)) then some i else rest

-- The address of a directory's block, and the block's bytes.
unfoldable pub open_directory : Inode → M (ℕ × Bytes)
open_directory node = do a ← data_block_get node.i_data_block; b ← load_bytes a; pure (a, b)

unfoldable pub found_inumber : ℕ → Bytes → Option ℕ → ℤ
found_inumber a b none = minus_one
found_inumber a b (some i) = read_int b (d_inumber a i)

unfoldable pub find_in_dir : ℕ → List ℕ → M ℤ
find_in_dir inode sub_name = do
  node ← load_inode inode
  if not (is_directory node) then pure minus_one else do
    (a, b) ← open_directory node
    size ← state_block_size
    pure (found_inumber a b (find_entry a sub_name (size / dir_entry_size) 0 b))

-- The bytes after an entry has been cleared.
unfoldable pub clear_entry : ℕ → ℕ → Bytes → Bytes
clear_entry a i b = clear_bytes (write_int b (d_inumber a i) minus_one) (d_name a i) max_file_name

unfoldable pub clear_found : ℕ → Bytes → Option ℕ → M ℤ
clear_found a b none = pure minus_one
clear_found a b (some i) = do store_bytes (clear_entry a i b); pure (ℤ.pos 0)

unfoldable pub clear_dir_entry : ℕ → List ℕ → M ℤ
clear_dir_entry inode sub_name = do
  node ← load_inode inode
  if not (is_directory node) then pure minus_one else do
    (a, b) ← open_directory node
    size ← state_block_size
    clear_found a b (find_name a sub_name (size / dir_entry_size) 0 b)

-- The bytes after an entry has been filled: the inumber, 39 bytes by `strncpy`, and a NUL.
unfoldable pub fill_entry : ℕ → List ℕ → ℤ → ℕ → Bytes → Bytes
fill_entry a name inumber i b =
    memcpy (strncpy (write_int b (d_inumber a i) inumber) (d_name a i) name (max_file_name - 1))
      (d_name a i + (max_file_name - 1)) (0 ∷ [])

unfoldable pub fill_found : ℕ → List ℕ → ℤ → Bytes → Option ℕ → M ℤ
fill_found a name inumber b none = pure minus_one
fill_found a name inumber b (some i) = do
  store_bytes (fill_entry a name inumber i b)
  pure (ℤ.pos 0)

unfoldable pub add_dir_entry : ℕ → List ℕ → ℤ → M ℤ
add_dir_entry inode sub_name sub_inumber =
    if length sub_name == 0 || ltb (max_file_name - 1) (length sub_name) then pure minus_one else do
      node ← load_inode inode
      if not (is_directory node) then pure minus_one else do
        (a, b) ← open_directory node
        size ← state_block_size
        fill_found a sub_name sub_inumber b (find_empty a (size / dir_entry_size) 0 b)
