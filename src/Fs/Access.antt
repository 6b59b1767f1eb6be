-- ===== src/Fs/Access.antt =====
-- Reads and writes that are in bounds, and assertions that hold: what each returns.
use projeto_so.Base.{
  Bool, if◌then◌else◌, none, ℕ, ◌+◌, ◌*◌, ◌≤◌, ◌<◌, ◌≡◌, refl, true, false, lt→ltb, le→leb, arith,
  ℤ, pos, negsuc, some,
}
use projeto_so.Memory.{store}
use projeto_so.Fs.Types.{State, Inode, OpenFileEntry, free, taken, ok, Run, M, and_then, to_size}
use projeto_so.Fs.Tables.{
  load_inode, store_inode, inode_get, data_block_get, data_block_free, load_bytes, valid_inumber,
  valid_block_number,
}
use projeto_so.Fs.OpenFiles.{
  load_entry, store_entry, check_handle, load_handle_state, get_open_file_entry, valid_file_handle,
}
use projeto_so.Fs.Operations.{fs_bytes}

-- One statement of a `do` block returns, and the rest is run.
pub step :
    {A B : Type 0} {x : Run A} (f : A → M B) {a : A} {t : State} {r : Run B}
    → x ≡ ok a t
    → f a t ≡ r
    → and_then x f ≡ r
step f e k = rw e k

-- A test in front of two ways to go on.
pub branch :
    {A : Type 0} (b : Bool) (x y : M A) {s : State} {r : Run A}
    → (b ≡ true → x s ≡ r)
    → (b ≡ false → y s ≡ r)
    → (if b then x else y) s ≡ r
branch true x y k l = k refl
branch false x y k l = l refl

module _ (s : State) where
  pub load_inode-ok :
      (i : ℕ) → i < s.inode_table.size → load_inode i s ≡ ok (s.inode_table.cell i) s
  unfolding load_inode
  load_inode-ok i h = rw (lt→ltb i s.inode_table.size h)

  pub store_inode-ok :
      (i : ℕ) (node : Inode)
      → i < s.inode_table.size
      → store_inode i node s ≡ ok tt (record s { inode_table = store s.inode_table i node })
  unfolding store_inode
  store_inode-ok i node h = rw (lt→ltb i s.inode_table.size h)

  pub load_entry-ok :
      (i : ℕ) → i < s.open_file_table.size → load_entry i s ≡ ok (s.open_file_table.cell i) s
  unfolding load_entry
  load_entry-ok i h = rw (lt→ltb i s.open_file_table.size h)

  pub store_entry-ok :
      (i : ℕ) (e : OpenFileEntry)
      → i < s.open_file_table.size
      → store_entry i e s ≡ ok tt (record s { open_file_table = store s.open_file_table i e })
  unfolding store_entry
  store_entry-ok i e h = rw (lt→ltb i s.open_file_table.size h)

  pub inode_get-ok : (i : ℤ) → valid_inumber s i ≡ true → inode_get i s ≡ ok (to_size i) s
  unfolding inode_get
  inode_get-ok i h = rw h

  pub data_block_get-ok :
      (b : ℤ) → valid_block_number s b ≡ true → data_block_get b s ≡ ok (to_size b * s.block_size) s
  unfolding data_block_get
  data_block_get-ok b h = rw h

  pub data_block_free-ok :
      (b : ℤ)
      → valid_block_number s b ≡ true
      → to_size b < s.free_blocks.size
      → data_block_free b s
        ≡ ok tt (record s { free_blocks = store s.free_blocks (to_size b) free })
  unfolding data_block_free
  data_block_free-ok b v h = rw (v, lt→ltb (to_size b) s.free_blocks.size h)

  pub load_bytes-ok :
      (a : ℕ) → a + s.block_size ≤ s.fs_data.size → load_bytes a s ≡ ok s.fs_data.cell s
  unfolding load_bytes
  load_bytes-ok a h = rw (le→leb (a + s.block_size) s.fs_data.size h)

  pub fs_bytes-ok : (a n : ℕ) → a + n ≤ s.fs_data.size → fs_bytes a n s ≡ ok s.fs_data.cell s
  unfolding fs_bytes
  fs_bytes-ok a n h = rw (le→leb (a + n) s.fs_data.size h)

  pub valid_block-lt : (b : ℤ) → valid_block_number s b ≡ true → to_size b < s.max_block_count
  valid_block-lt (pos b) h = ground arith
  valid_block-lt (negsuc b) h = absurd (cc)

  pub valid_inumber-lt : (i : ℤ) → valid_inumber s i ≡ true → to_size i < s.max_inode_count
  valid_inumber-lt (pos i) h = ground arith
  valid_inumber-lt (negsuc i) h = absurd (cc)

  pub valid_handle-lt : (h : ℤ) → valid_file_handle s h ≡ true → to_size h < s.max_open_files_count
  valid_handle-lt (pos i) h = ground arith
  valid_handle-lt (negsuc i) h = absurd (cc)

-- An open handle has an entry, and a handle that is out of range or free has none.
pub get_open-ok :
    (s : State) (h : ℕ)
    → h < s.max_open_files_count
    → h < s.free_open_file_entries.size
    → s.free_open_file_entries.cell h ≡ taken
    → get_open_file_entry (pos h) s ≡ ok (some h) s
unfolding get_open_file_entry check_handle load_handle_state
get_open-ok s h a b t = ground arith

pub get_open-invalid :
    (s : State) (h : ℤ) → valid_file_handle s h ≡ false → get_open_file_entry h s ≡ ok none s
unfolding get_open_file_entry check_handle load_handle_state
get_open-invalid s h e = rw e

pub get_open-free :
    (s : State) (h : ℕ)
    → h < s.free_open_file_entries.size
    → s.free_open_file_entries.cell h ≡ free
    → get_open_file_entry (pos h) s ≡ ok none s
unfolding get_open_file_entry check_handle load_handle_state
get_open-free s h b t = ground arith
