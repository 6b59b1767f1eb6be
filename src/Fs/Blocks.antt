-- ===== src/Fs/Blocks.antt =====
-- Data blocks: an inode that owns its block, and changes to inodes and bytes that keep the file
-- system valid.
use projeto_so.Base.{
  ℕ, ◌+◌, ◌*◌, ◌≤◌, ◌<◌, ◌≡◌, ◌≢◌, sym, ap, true, ltb, if◌then◌else◌, inl, inr, Bool-cases, arith,
  pos, ◌∙◌,
}
use native.Mathlib.Decide.{ℕ_discrete}
use projeto_so.Memory.{Array, store}
use projeto_so.Memory.Bytes.{Bytes, read_int}
use projeto_so.Memory.Frame.{read_int-cong}
use projeto_so.Fs.Types.{State, Inode, AllocationState, taken, to_size, max_dir_entries}
use projeto_so.Fs.Tables.{valid_block_number, d_inumber, d_name}
use projeto_so.Fs.Allocation.{IsFirstFree, taking_block}
use projeto_so.Fs.Validity.{
  IsValid, IsUsed, InodeOk, HandleOk, EntryOk, HasBlock, IsOpen, InUse, inode, block_base,
  entry_inumber,
}

abbrev pub with_bytes : Bytes → State → State
with_bytes b s = record s { fs_data = record { size = s.fs_data.size; cell = b } }

abbrev pub SameRoot : Bytes → State → Type 0
SameRoot b s =
    (x : ℕ) → block_base s 0 ≤ x → x < block_base s 0 + s.block_size → b x ≡ s.fs_data.cell x

module _ (s : State) (b : Bytes) (same : SameRoot b s) where
  same_entry :
      (k : ℕ) → k < max_dir_entries s → entry_inumber (with_bytes b s) k ≡ entry_inumber s k
  same_entry k h =
      read_int-cong b s.fs_data.cell (d_inumber (block_base s 0) k)
        λ x lo hi. same x (omega arith) (omega arith)

  InUse-drop : (k : ℕ) → InUse (with_bytes b s) k → InUse s k
  InUse-drop k u = (u.0, rw (← same_entry k u.0) u.1)

  IsUsed-drop : {i : ℕ} → IsUsed (with_bytes b s) i → IsUsed s i
  IsUsed-drop u = record { in_range = u.in_range; is_taken = u.is_taken }

  with_bytes-EntryOk : (k : ℕ) → k < max_dir_entries s → EntryOk s k → EntryOk (with_bytes b s) k
  with_bytes-EntryOk k h o =
      ground (
        arith,
        o,
        same_entry k h,
        same (d_name (block_base s 0) k + 39) (omega arith) (omega arith),
      )

  -- Bytes outside the root directory's block may change.
  pub with_bytes-IsValid : IsValid s → IsValid (with_bytes b s)
  with_bytes-IsValid v = record {
    fits = ground (arith, v.fits);
    root = ground (arith, v.root);
    inodes = λ i u. ground (arith, v.inodes i (IsUsed-drop u));
    apart = λ i j ne a b. v.apart i j ne (IsUsed-drop a.0, a.1) (IsUsed-drop b.0, b.1);
    handles = λ h o. ground (arith, v.handles h o);
    entries = λ k u. with_bytes-EntryOk k u.0 (v.entries k (InUse-drop k u));
    linked_once = λ k l ne a b.
        rw (same_entry k a.0, same_entry l b.0)
          (v.linked_once k l ne (InUse-drop k a) (InUse-drop l b));
  }

abbrev pub with_table : Array Inode → State → State
with_table t s = record s { inode_table = t }

module _ (s : State) (t : Array Inode) (same : t.cell 0 ≡ inode s 0) where
  table_entry : (k : ℕ) → entry_inumber (with_table t s) k ≡ entry_inumber s k
  table_entry k =
      ap
        (λ (n : Inode).
          read_int s.fs_data.cell (d_inumber (to_size n.i_data_block * s.block_size) k))
        same

  table-InUse : (k : ℕ) → InUse (with_table t s) k → InUse s k
  table-InUse k u = (u.0, rw (← table_entry k) u.1)

  table-EntryOk : (k : ℕ) → EntryOk s k → EntryOk (with_table t s) k
  table-EntryOk k o = ground (arith, o, table_entry k, same)

  -- Inodes other than the root may change: they and the handles have to be looked at again.
  pub with_table-IsValid :
      IsValid s
      → s.max_inode_count ≤ t.size
      → ((i : ℕ) → IsUsed (with_table t s) i → InodeOk (with_table t s) i)
      → ((i j : ℕ)
          → i ≢ j
          → HasBlock (with_table t s) i
          → HasBlock (with_table t s) j
          → to_size (t.cell i).i_data_block ≢ to_size (t.cell j).i_data_block)
      → ((h : ℕ) → IsOpen s h → HandleOk (with_table t s) h)
      → IsValid (with_table t s)
  with_table-IsValid v room inodes apart handles = record {
    fits = ground (arith, v.fits);
    root = ground (arith, v.root, same);
    inodes = inodes;
    apart = apart;
    handles = handles;
    entries = λ k u. table-EntryOk k (v.entries k (table-InUse k u));
    linked_once = λ k l ne a b.
        rw (table_entry k, table_entry l)
          (v.linked_once k l ne (table-InUse k a) (table-InUse l b));
  }

-- The inode has a valid block that no other inode has.
pub record Owns (s : State) (i : ℕ) : Type 0 where
  pub block_valid : valid_block_number s (inode s i).i_data_block ≡ true
  pub block_taken : s.free_blocks.cell (to_size (inode s i).i_data_block) ≡ taken
  pub alone :
      (j : ℕ)
      → j ≢ i
      → HasBlock s j
      → to_size (inode s j).i_data_block ≢ to_size (inode s i).i_data_block

abbrev pub with_inode : ℕ → Inode → State → State
with_inode i node s = record s { inode_table = store s.inode_table i node }

-- The inode's size raised to at least `k`, as `tfs_write` does.
abbrev pub grown : State → ℕ → ℕ → State
grown s i k = record s {
  inode_table =
      if ltb (inode s i).i_size k
      then store s.inode_table i (record (inode s i) { i_size = k })
      else s.inode_table;
}

module _ (s : State) (i k : ℕ) where
  pub grown_block : (j : ℕ) → (inode (grown s i k) j).i_data_block ≡ (inode s j).i_data_block
  grown_block j = ground arith

  pub grown_size : k ≤ (inode (grown s i k) i).i_size
  grown_size = ground arith

  pub grown_other : (j : ℕ) → j ≢ i → inode (grown s i k) j ≡ inode s j
  grown_other j ne = ground arith

module _ (s : State) (v : IsValid s) (i : ℕ) (root : 0 < i) where
  pub HasBlock-Owns : HasBlock s i → Owns s i
  HasBlock-Owns h = record {
    block_valid = (v.inodes i h.0).block_valid h.1;
    block_taken = (v.inodes i h.0).block_taken h.1;
    alone = λ j ne g. v.apart j i ne g h;
  }

  module _ (o : Owns s i) (k : ℕ) (le : k ≤ s.block_size) (u : IsUsed s i)
      (more : (inode s i).i_size ≤ k) where
    raised : State
    raised = with_inode i (record (inode s i) { i_size = k }) s

    raised-HasBlock : (j : ℕ) → j ≢ i → HasBlock raised j → HasBlock s j
    unfolding raised
    raised-HasBlock j ne h = ground (arith, h.0)

    raised-apart :
        (j l : ℕ)
        → j ≢ l
        → HasBlock raised j
        → HasBlock raised l
        → to_size (inode raised j).i_data_block ≢ to_size (inode raised l).i_data_block
    unfolding raised
    raised-apart j l ne a b = elim (ℕ_discrete j i) [
      | yes e ↦ ground (arith, o.alone l, raised-HasBlock l (λ e'. ne (e ∙ sym e')) b)
      | no j_ne ↦ elim (ℕ_discrete l i) [
        | yes e ↦ ground (arith, o.alone j, raised-HasBlock j j_ne a)
        | no l_ne ↦
            ground (arith, v.apart j l ne (raised-HasBlock j j_ne a) (raised-HasBlock l l_ne b))
      ]
    ]

    raised-IsValid : IsValid raised
    unfolding raised
    raised-IsValid =
        with_table-IsValid s _ (ground arith) v v.fits.inode_room
          (λ j w.
            ground (arith, o, v.inodes j (record { in_range = w.in_range; is_taken = w.is_taken })))
          raised-apart (λ h p. ground (arith, v.handles h p))

  -- The size of an inode that owns a block may grow up to the block's size.
  pub grown-IsValid : Owns s i → (k : ℕ) → k ≤ s.block_size → IsUsed s i → IsValid (grown s i k)
  unfolding raised
  grown-IsValid o k le u = elim (Bool-cases (ltb (inode s i).i_size k)) [
    | inl e ↦ rw e (raised-IsValid o k le u (ground arith))
    | inr e ↦ rw e v
  ]

-- The blocks' states may change while the blocks of the non-empty inodes stay taken.
pub with_blocks-IsValid :
    (s : State) (f : Array AllocationState)
    → IsValid s
    → s.max_block_count ≤ f.size
    → ((i : ℕ) → HasBlock s i → f.cell (to_size (inode s i).i_data_block) ≡ taken)
    → IsValid (record s { free_blocks = f })
with_blocks-IsValid s f v room still = record {
  fits = ground (arith, v.fits);
  root = ground (arith, v.root);
  inodes = λ i u.
      let w : IsUsed s i = record { in_range = u.in_range; is_taken = u.is_taken } in
      record {
        small = (v.inodes i w).small;
        block_valid = λ h. ground (arith, v.inodes i w);
        block_taken = λ h. still i (w, h);
      };
  apart = λ i j ne a b. v.apart i j ne (used a.0, a.1) (used b.0, b.1);
  handles = λ h p. ground (arith, v.handles h p);
  entries = λ k u. ground (arith, v.entries k u);
  linked_once = v.linked_once;
}
  where
    used : {i : ℕ} → IsUsed (record s { free_blocks = f }) i → IsUsed s i
    used u = record { in_range = u.in_range; is_taken = u.is_taken }

-- An inode without data is given a free block.
abbrev pub giving : State → ℕ → ℕ → State
giving s i b = with_inode i (record (inode s i) { i_data_block = pos b }) (taking_block s b)

module _ (s : State) (v : IsValid s) (i b : ℕ) (root : 0 < i) (u : IsUsed s i)
    (empty : (inode s i).i_size ≡ 0) (first : IsFirstFree s.free_blocks s.max_block_count b) where
  other_block : (j : ℕ) → HasBlock s j → to_size (inode s j).i_data_block ≢ b
  other_block j h e = ground (arith, (v.inodes j h.0).block_taken h.1, first)

  taking_block-IsValid : IsValid (taking_block s b)
  taking_block-IsValid =
      with_blocks-IsValid s _ v v.fits.block_room
        λ j h. ground (arith, (v.inodes j h.0).block_taken h.1)

  HasBlock-drop : (j : ℕ) → HasBlock (giving s i b) j → HasBlock s j × (i ≢ j)
  HasBlock-drop j h = ground arith

  pub giving-Owns : Owns (giving s i b) i
  giving-Owns = record {
    block_valid = ground (arith, first);
    block_taken = ground arith;
    alone = λ j ne h. ground (arith, other_block j (HasBlock-drop j h).0);
  }

  pub giving-IsValid : IsValid (giving s i b)
  giving-IsValid =
      with_table-IsValid (taking_block s b) _ (ground arith) taking_block-IsValid v.fits.inode_room
        (λ j w. ground (
          arith,
          u,
          empty,
          taking_block-IsValid.inodes j (record { in_range = w.in_range; is_taken = w.is_taken }),
        ))
        (λ j l ne a c. ground (
          arith,
          empty,
          v.apart j l ne (HasBlock-drop j a).0 (HasBlock-drop l c).0,
          (HasBlock-drop j a).1,
          (HasBlock-drop l c).1,
        ))
        (λ h p. ground (arith, v.handles h p))
