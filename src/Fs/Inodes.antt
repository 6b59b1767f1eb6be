-- ===== src/Fs/Inodes.antt =====
-- Creating a file's inode and deleting an inode: the states that they leave, and their validity.
use projeto_so.Base.{
  ℕ, ◌*◌, ◌≤◌, ◌<◌, ◌≡◌, ◌≢◌, refl, sym, ap, ◌∙◌, true, ltb, if◌then◌else◌, inl, inr, Bool-cases,
  arith, ℤ, pos, minus_one, ltb→lt, lt→ltb,
}
use mathlib.Core.Path.{subst}
use native.Mathlib.Decide.{ℕ_discrete}
use projeto_so.Memory.{Array, store}
use projeto_so.Memory.Bytes.{read_int}
use projeto_so.Fs.Types.{State, Ends, Inode, AllocationState, taken, free, t_file, to_size, ok}
use projeto_so.Fs.Tables.{
  valid_inumber, d_inumber, inode_create, inode_delete, inode_alloc, init_inode, set_type,
  load_freeinode, free_inode, free_data,
}
use projeto_so.Fs.Access.{
  step, load_inode-ok, store_inode-ok, inode_get-ok, data_block_free-ok, valid_block-lt,
}
use projeto_so.Fs.Allocation.{IsFirstFree, taking_inode}
use projeto_so.Fs.Validity.{
  IsValid, Fits, IsUsed, InodeOk, HandleOk, EntryOk, HasBlock, IsOpen, InUse, entry, inode,
  entry_inumber,
}
use projeto_so.Fs.Blocks.{with_inode, with_blocks-IsValid}

abbrev pub with_nodes : Array Inode → Array AllocationState → State → State
with_nodes t f s = record s { inode_table = t; freeinode_ts = f }

module _ (s : State) (t : Array Inode) (f : Array AllocationState)
    (same : t.cell 0 ≡ inode s 0) where
  abbrev after : State
  after = with_nodes t f s

  nodes_entry : (k : ℕ) → entry_inumber after k ≡ entry_inumber s k
  nodes_entry k =
      ap
        (λ (n : Inode).
          read_int s.fs_data.cell (d_inumber (to_size n.i_data_block * s.block_size) k))
        same

  pub nodes-InUse : (k : ℕ) → InUse after k → InUse s k
  nodes-InUse k u = (u.0, rw (← nodes_entry k) u.1)

  nodes-EntryOk :
      (k : ℕ) → f.cell (to_size (entry_inumber s k)) ≡ taken → EntryOk s k → EntryOk after k
  nodes-EntryOk k tk o = ground (arith, o, nodes_entry k, same)

  -- The inodes other than the root and their states may change: they, the handles and the entries
  -- have to be looked at again.
  pub with_nodes-IsValid :
      IsValid s
      → s.max_inode_count ≤ t.size
      → s.max_inode_count ≤ f.size
      → f.cell 0 ≡ taken
      → ((i : ℕ) → IsUsed after i → InodeOk after i)
      → ((i j : ℕ)
          → i ≢ j
          → HasBlock after i
          → HasBlock after j
          → to_size (t.cell i).i_data_block ≢ to_size (t.cell j).i_data_block)
      → ((h : ℕ) → IsOpen s h → HandleOk after h)
      → ((k : ℕ) → InUse s k → f.cell (to_size (entry_inumber s k)) ≡ taken)
      → IsValid after
  with_nodes-IsValid v t_room f_room root inodes apart handles entries = record {
    fits = ground (arith, v.fits);
    root = ground (arith, v.root, same);
    inodes = inodes;
    apart = apart;
    handles = handles;
    entries = λ k u. nodes-EntryOk k (entries k (nodes-InUse k u)) (v.entries k (nodes-InUse k u));
    linked_once = λ k l ne a b.
        rw (nodes_entry k, nodes_entry l)
          (v.linked_once k l ne (nodes-InUse k a) (nodes-InUse l b));
  }

-- The inode taken and typed, and then emptied, as `inode_create(T_FILE)` leaves it.
abbrev pub typed : State → ℕ → State
typed s i = with_inode i (record (inode s i) { i_node_type = t_file }) (taking_inode s i)

abbrev pub fresh : State → ℕ → State
fresh s i =
    with_inode i (record (inode (typed s i) i) { i_size = 0; i_data_block = minus_one }) (typed s i)

pub inode_create-file :
    (s : State) (i : ℕ)
    → i < s.inode_table.size
    → inode_alloc s ≡ ok (pos i) (taking_inode s i)
    → inode_create t_file s ≡ ok (pos i) (fresh s i)
unfolding inode_create init_inode set_type
inode_create-file s i h e = step _ e (
    step _ (step _ (load_inode-ok (taking_inode s i) i h) (store_inode-ok (taking_inode s i) i _ h))
      (step _ (load_inode-ok (typed s i) i h) (step _ (store_inode-ok (typed s i) i _ h) refl)))

pub inode_create-failed :
    (s : State) → inode_alloc s ≡ ok minus_one s → inode_create t_file s ≡ ok minus_one s
unfolding inode_create
inode_create-failed s e = step _ e refl

module _ {s : State} (v : IsValid s) (i : ℕ)
    (first : IsFirstFree s.freeinode_ts s.max_inode_count i) where
  -- The root is taken, so the new inode is another one.
  pub fresh_not_root : 0 < i
  fresh_not_root = elim (ℕ_discrete i 0) [
    | yes e ↦ absurd (ground (arith, v.root.used, first))
    | no ne ↦ omega arith
  ]

  used_before : (j : ℕ) → i ≢ j → IsUsed (fresh s i) j → IsUsed s j
  used_before j ne u = ground (arith, u)

  block_before : (j : ℕ) → HasBlock (fresh s i) j → HasBlock s j × (i ≢ j)
  block_before j b = ground (arith, b.0)

  -- A used inode is not the first free one.
  old_inode : (j : ℕ) → s.freeinode_ts.cell j ≡ taken → i ≢ j
  old_inode j t e = ground (arith, first)

  pub fresh-IsValid : IsValid (fresh s i)
  fresh-IsValid =
      with_nodes-IsValid s _ _ (ground (arith, fresh_not_root)) v v.fits.inode_room
        v.fits.freeinode_room (ground (arith, v.root.used))
        (λ j u. elim (ℕ_discrete i j) [
          | yes e ↦ ground (arith, e)
          | no ne ↦ ground (arith, v.inodes j (used_before j ne u))
        ])
        (λ j l ne a b. ground (
          arith,
          v.apart j l ne (block_before j a).0 (block_before l b).0,
          (block_before j a).1,
          (block_before l b).1,
        ))
        (λ h o. ground (arith, v.handles h o, old_inode _ (v.handles h o).inode_taken))
        (λ k u. ground (arith, v.entries k u))

-- No handle and no directory entry leads to the inode.
pub record IsUnreferenced (s : State) (i : ℕ) : Type 0 where
  pub no_handle : (h : ℕ) → IsOpen s h → to_size (entry s h).of_inumber ≢ i
  pub no_entry : (k : ℕ) → InUse s k → to_size (entry_inumber s k) ≢ i

module _ {s : State} (v : IsValid s) (i : ℕ)
    (first : IsFirstFree s.freeinode_ts s.max_inode_count i) where
  fresh_root : inode (fresh s i) 0 ≡ inode s 0
  fresh_root = ground (arith, fresh_not_root v i first)

  fresh_entry : (k : ℕ) → entry_inumber (fresh s i) k ≡ entry_inumber s k
  fresh_entry = nodes_entry s (fresh s i).inode_table (fresh s i).freeinode_ts fresh_root

  used_entry : (k : ℕ) → InUse (fresh s i) k → InUse s k
  used_entry = nodes-InUse s (fresh s i).inode_table (fresh s i).freeinode_ts fresh_root

  pub fresh-IsUsed : IsUsed (fresh s i) i
  fresh-IsUsed = record { in_range = first.in_range; is_taken = ground arith }

  -- Nothing leads to a new inode.
  pub fresh-IsUnreferenced : IsUnreferenced (fresh s i) i
  fresh-IsUnreferenced = record {
    no_handle = λ h o e. old_inode v i first _ (v.handles h o).inode_taken (sym e);
    no_entry = λ k u e.
        old_inode v i first _ (v.entries k (used_entry k u)).inode_taken
          (sym (sym (ap to_size (fresh_entry k)) ∙ e));
  }

-- The state without the inode: its entry of the inode table is free, and its block if it has one.
abbrev pub deleted : State → ℕ → State
deleted s i = record s {
  freeinode_ts = store s.freeinode_ts i free;
  free_blocks =
      if ltb 0 (inode s i).i_size
      then store s.free_blocks (to_size (inode s i).i_data_block) free
      else s.free_blocks;
}

free_data-ok :
    (s : State) (i : ℕ)
    → Fits s
    → InodeOk s i
    → free_data (inode s i) s ≡ ok tt (record s { free_blocks = (deleted s i).free_blocks })
unfolding free_data
free_data-ok s i f o = elim (Bool-cases (ltb 0 (inode s i).i_size)) [
  | inl e ↦ rw e (
      data_block_free-ok s _ (o.block_valid (ltb→lt _ _ e))
        (omega (arith, f.block_room, valid_block-lt s _ (o.block_valid (ltb→lt _ _ e)))))
  | inr e ↦ rw e
]

-- `inode_delete` of a used inode neither panics nor accesses memory out of bounds.
pub inode_delete-ok :
    (s : State) (d : ℤ)
    → Fits s
    → valid_inumber s d ≡ true
    → IsUsed s (to_size d)
    → InodeOk s (to_size d)
    → inode_delete d s ≡ ok tt (deleted s (to_size d))
unfolding inode_delete load_freeinode free_inode
inode_delete-ok s d f valid u o = step _ (inode_get-ok s d valid) (
    rw (lt→ltb (to_size d) s.freeinode_ts.size (omega (arith, f.freeinode_room, u)), u.is_taken)
      (step _ (load_inode-ok s (to_size d) (omega (arith, f.inode_room, u)))
        (step _ (free_data-ok s (to_size d) f o) refl)))

module _ {s : State} (v : IsValid s) (i : ℕ) (root : 0 < i) (u : IsUsed s i)
    (r : IsUnreferenced s i) where
  abbrev unlisted : State
  unlisted = record s { freeinode_ts = store s.freeinode_ts i free }

  used_still : (j : ℕ) → IsUsed unlisted j → IsUsed s j × (i ≢ j)
  used_still j w = ground (arith, w)

  unlisted-IsValid : IsValid unlisted
  unlisted-IsValid =
      with_nodes-IsValid s s.inode_table _ refl v v.fits.inode_room v.fits.freeinode_room
        (ground (arith, root, v.root.used)) (λ j w. ground (arith, v.inodes j (used_still j w).0))
        (λ j l ne a b. v.apart j l ne ((used_still j a.0).0, a.1) ((used_still l b.0).0, b.1))
        (λ h o. ground (arith, v.handles h o, r.no_handle h o))
        (λ k w. ground (arith, v.entries k w, r.no_entry k w))

  -- An inode that nothing leads to may be deleted.
  pub deleted-IsValid : IsValid (deleted s i)
  deleted-IsValid = elim (Bool-cases (ltb 0 (inode s i).i_size)) [
    | inl e ↦ rw e (
        with_blocks-IsValid unlisted _ unlisted-IsValid v.fits.block_room λ j b.
          let w = used_still j b.0 in
          ground
            (arith, v.apart i j w.1 (u, ltb→lt _ _ e) (w.0, b.1), (v.inodes j w.0).block_taken b.1))
    | inr e ↦ rw e unlisted-IsValid
  ]

-- `inode_delete` of a used inode other than the root that no open handle and no entry in use of the
-- root directory leads to neither panics nor accesses memory out of bounds, and keeps the file
-- system valid.
pub inode_delete-IsValid :
    {s : State} (i : ℕ)
    → IsValid s
    → 0 < i
    → IsUsed s i
    → IsUnreferenced s i
    → Ends (λ _ t. IsValid t) (inode_delete (pos i) s)
inode_delete-IsValid {s} i v root u r =
    subst (Ends λ _ t. IsValid t)
      (sym
        (inode_delete-ok s (pos i) v.fits (lt→ltb i s.max_inode_count u.in_range) u (v.inodes i u)))
      (deleted-IsValid v i root u r)
