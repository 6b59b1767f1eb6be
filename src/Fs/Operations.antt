-- ===== src/Fs/Operations.antt =====
-- The operations of fs/operations.c. Each takes the library's mutex, works on the state, and
-- releases the mutex on the path that it leaves by.
use projeto_so.Base.{
  ℕ, suc, ◌+◌, ◌/◌, ◌%◌, Bool, true, false, ◌&&◌, not, Option, none, some, List, [], ◌∷◌, ltb, leb,
  ◌==◌, if◌then◌else◌, ℤ, pos, negsuc, minus_one, is_minus_one, to_ssize, add_size, sub_size,
  length, take,
}
use projeto_so.Memory.Bytes.{memcpy, read_bytes, Bytes}
use projeto_so.Fs.Types.{
  Inode, OpenFileEntry, t_file, MutexCall, locks, unlocks, ok, fault, M, pure, ◌>>=◌, ◌>>◌,
  in_bounds, root_dir_inum,
}
use projeto_so.Fs.Tables.{
  inode_get, load_inode, store_inode, inode_create, inode_delete, data_block_alloc, data_block_free,
  data_block_get, state_block_size, store_bytes,
}
use projeto_so.Fs.Directory.{find_in_dir, add_dir_entry, clear_dir_entry}
use projeto_so.Fs.OpenFiles.{
  get_open_file_entry, remove_from_open_file_table, add_to_open_file_table, load_entry, store_entry,
}

-- What the calls of `pthread_mutex_lock` and `pthread_mutex_unlock` return, by the calls made
-- before. POSIX: 0, or a positive error number.
pub record Pthread : Type 0 where
  pub lock : List MutexCall → ℤ
  pub unlock : List MutexCall → ℤ

-- `tfs_file_mode_t`, tested by `mode & flag`.
abbrev pub has_creat : ℕ → Bool
has_creat mode = mode % 2 == 1

abbrev pub has_trunc : ℕ → Bool
has_trunc mode = mode / 2 % 2 == 1

abbrev pub has_append : ℕ → Bool
has_append mode = mode / 4 % 2 == 1

-- `none` is NULL.
unfoldable pub valid_pathname : Option (List ℕ) → Bool
valid_pathname none = false
valid_pathname (some []) = false
valid_pathname (some (c ∷ name)) = ltb 1 (suc (length name)) && c == b'/'

-- `name + 1`
unfoldable pub skip_slash : Option (List ℕ) → List ℕ
skip_slash none = []
skip_slash (some []) = []
skip_slash (some (c ∷ name)) = name

unfoldable pub tfs_lookup : Option (List ℕ) → ℕ → M ℤ
tfs_lookup name root_inode =
    if not (valid_pathname name) then pure minus_one else find_in_dir root_inode (skip_slash name)

unfoldable pub fs_bytes : ℕ → ℕ → M Bytes
fs_bytes a n s = if leb (a + n) s.fs_data.size then ok s.fs_data.cell s else fault

-- `if (to_write + offset > block_size) to_write = block_size - offset;`
unfoldable pub clamp_write : ℕ → ℕ → ℕ → ℕ
clamp_write size offset n = if ltb size (add_size n offset) then sub_size size offset else n

-- `to_read = i_size - offset; if (to_read > len) to_read = len;`
unfoldable pub clamp_read : ℕ → ℕ → ℕ → ℕ
clamp_read size offset len = if ltb len (sub_size size offset) then len else sub_size size offset

-- `inum >= 0`
abbrev pub is_natural : ℤ → Bool
is_natural (pos n) = true
is_natural (negsuc n) = false

-- The truncation of an existing file.
unfoldable pub truncate : ℕ → ℕ → M (Unit {0})
truncate mode i = do
  node ← load_inode i
  if has_trunc mode && ltb 0 node.i_size
      then (do data_block_free node.i_data_block; store_inode i (record node { i_size = 0 }))
      else pure tt

module _ (p : Pthread) where
  unfoldable pub mutex_lock : M ℤ
  mutex_lock s = ok (p.lock s.mutex_calls) (record s { mutex_calls = locks ∷ s.mutex_calls })

  unfoldable pub mutex_unlock : M ℤ
  mutex_unlock s = ok (p.unlock s.mutex_calls) (record s { mutex_calls = unlocks ∷ s.mutex_calls })

  -- `if (pthread_mutex_unlock(...) == -1) return -1; return r;`
  unfoldable pub unlock_return : ℤ → M ℤ
  unlock_return r = do rc ← mutex_unlock; pure (if is_minus_one rc then minus_one else r)

  -- `if (pthread_mutex_lock(...) == -1) return failed;` before the rest.
  unfoldable pub with_lock : {A : Type 0} → A → M A → M A
  with_lock failed body = do rc ← mutex_lock; if is_minus_one rc then pure failed else body

  unfoldable pub tfs_file_exists : Option (List ℕ) → M ℤ
  tfs_file_exists path =
      with_lock minus_one
        do root ← inode_get (pos root_dir_inum); inum ← tfs_lookup path root; unlock_return inum

  unfoldable pub finish_open : ℤ → ℕ → M ℤ
  finish_open inum offset = do ret ← add_to_open_file_table inum offset; unlock_return ret

  unfoldable pub open_existing : ℕ → ℤ → M ℤ
  open_existing mode inum = do
    i ← inode_get inum
    truncate mode i
    node ← load_inode i
    finish_open inum (if has_append mode then node.i_size else 0)

  unfoldable pub open_new : Option (List ℕ) → ℕ → M ℤ
  open_new name root = do
    inum ← inode_create t_file
    if is_minus_one inum then unlock_return minus_one else do
      rc ← add_dir_entry root (skip_slash name) inum
      if is_minus_one rc
          then (do inode_delete inum; unlock_return minus_one)
          else finish_open inum 0

  unfoldable pub tfs_open : Option (List ℕ) → ℕ → M ℤ
  tfs_open name mode = with_lock minus_one (
      if not (valid_pathname name) then unlock_return minus_one else do
        root ← inode_get (pos root_dir_inum)
        inum ← tfs_lookup name root
        if is_natural inum
            then open_existing mode inum
            else (if has_creat mode then open_new name root else unlock_return minus_one))

  unfoldable pub close_entry : ℤ → Option ℕ → M ℤ
  close_entry fhandle none = unlock_return minus_one
  close_entry fhandle (some h) = do remove_from_open_file_table fhandle; unlock_return (pos 0)

  unfoldable pub tfs_close : ℤ → M ℤ
  tfs_close fhandle =
      with_lock minus_one do file ← get_open_file_entry fhandle; close_entry fhandle file

  -- From the `memcpy` of `tfs_write` on: `n` bytes of the buffer go to the inode's block.
  unfoldable pub write_block : ℕ → ℕ → List ℕ → ℕ → M ℤ
  write_block h i buffer n = do
    node ← load_inode i
    a ← data_block_get node.i_data_block
    file ← load_entry h
    in_bounds (leb n (length buffer))
    bytes ← fs_bytes (a + file.of_offset) n
    store_bytes (memcpy bytes (a + file.of_offset) (take n buffer))
    let offset = add_size file.of_offset n
    store_entry h (record file { of_offset = offset })
    if ltb node.i_size offset then store_inode i (record node { i_size = offset }) else pure tt
    unlock_return (to_ssize n)

  -- The body of `if (to_write > 0)`: an empty file is given a block first.
  unfoldable pub write_some : ℕ → ℕ → List ℕ → ℕ → M ℤ
  write_some h i buffer n = do
    node ← load_inode i
    if node.i_size == 0
        then (do
          b ← data_block_alloc
          if is_minus_one b
              then unlock_return minus_one
              else do store_inode i (record node { i_data_block = b }); write_block h i buffer n)
        else write_block h i buffer n

  unfoldable pub write_entry : List ℕ → ℕ → Option ℕ → M ℤ
  write_entry buffer to_write none = unlock_return minus_one
  write_entry buffer to_write (some h) = do
    file ← load_entry h
    i ← inode_get file.of_inumber
    size ← state_block_size
    let n = clamp_write size file.of_offset to_write
    if ltb 0 n then write_some h i buffer n else unlock_return (to_ssize n)

  unfoldable pub tfs_write : ℤ → List ℕ → ℕ → M ℤ
  tfs_write fhandle buffer to_write =
      with_lock minus_one do file ← get_open_file_entry fhandle; write_entry buffer to_write file

  -- The reply of `tfs_read`: what it returns, and the bytes that it copied to the buffer.
  unfoldable pub unlock_read : ℤ → List ℕ → M (ℤ × List ℕ)
  unlock_read r bytes = do rc ← unlock_return r; pure (rc, bytes)

  unfoldable pub read_block : ℕ → OpenFileEntry → Inode → ℕ → M (ℤ × List ℕ)
  read_block h file node n = do
    a ← data_block_get node.i_data_block
    bytes ← fs_bytes (a + file.of_offset) n
    store_entry h (record file { of_offset = add_size file.of_offset n })
    unlock_read (to_ssize n) (read_bytes bytes (a + file.of_offset) n)

  unfoldable pub read_entry : ℕ → Option ℕ → M (ℤ × List ℕ)
  read_entry len none = unlock_read minus_one []
  read_entry len (some h) = do
    file ← load_entry h
    i ← inode_get file.of_inumber
    node ← load_inode i
    let n = clamp_read node.i_size file.of_offset len
    if ltb 0 n then read_block h file node n else unlock_read (to_ssize n) []

  unfoldable pub tfs_read : ℤ → ℕ → M (ℤ × List ℕ)
  tfs_read fhandle len =
      with_lock (minus_one, []) do file ← get_open_file_entry fhandle; read_entry len file

  unfoldable pub tfs_unlink : Option (List ℕ) → M ℤ
  tfs_unlink target = with_lock minus_one (
      if not (valid_pathname target) then unlock_return minus_one else do
        root ← inode_get (pos root_dir_inum)
        inum ← tfs_lookup target root
        if is_minus_one inum then unlock_return minus_one else do
          inode_delete inum
          rc ← clear_dir_entry root (skip_slash target)
          unlock_return (if is_minus_one rc then minus_one else pos 0))
