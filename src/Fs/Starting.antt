-- ===== src/Fs/Starting.antt =====
-- `tfs_init`: the start of the file system with allocations that succeed.
pub mod Emptying
pub mod Requirements
use projeto_so.Base.{
  ℕ, zero, suc, ◌+◌, ◌*◌, ◌^◌, Option, ◌≤◌, ◌<◌, ◌≡◌, refl, sym, ◌∙◌, true, false, inl, inr, some,
  arith, pos, minus_one, List, lt→ltb,
}
use mathlib.Core.Path.{subst}
use native.Mathlib.Decide.{ℕ_discrete}
use projeto_so.Memory.{Array, update, store}
use projeto_so.Memory.Bytes.{Bytes, read_int, write_int}
use projeto_so.Memory.Frame.{read_int-cong, block_in_range}
use projeto_so.Memory.Ints.{read_int-write_minus_one, write_int-outside}
use projeto_so.Fs.Types.{
  Params, State, ok, Ends, MutexCall, AllocationState, free, t_directory, max_dir_entries,
}
use projeto_so.Fs.Tables.{
  d_inumber, empty_entries, inode_alloc, data_block_alloc, inode_create, set_type, init_inode,
  fill_directory, state_block_size, store_bytes,
}
use projeto_so.Fs.Init.{
  Mallocs, inode_size, allocation_state_size, open_file_entry_size, asked_inode_table,
  asked_freeinode_ts, asked_fs_data, asked_free_blocks, asked_open_file_table,
  asked_free_open_file_entries, free_all, free_array, allocate, all_allocated, clear_tables,
  state_init, tfs_init,
}
use projeto_so.Fs.Access.{step, load_inode-ok, store_inode-ok, data_block_get-ok, load_bytes-ok}
use projeto_so.Fs.Allocation.{taking_inode, taking_block, inode_alloc_cases, data_block_alloc_cases}
use projeto_so.Fs.Starting.Emptying.{free_all-free, empty_entries-inumber}
use projeto_so.Fs.Validity.{IsValid, Fits, IsUsed, InodeOk, IsOpen, InUse, inode}
use projeto_so.Fs.Starting.Requirements.{Succeeds, GivesRoom, CanStart, started-Fits}

-- Nothing is open and the directory is empty.
pub record IsEmpty (s : State) : Type 0 where
  pub no_handle : (h : ℕ) → ¬ (IsOpen s h)
  pub no_entry : (k : ℕ) → ¬ (InUse s k)

module _ (t : State) (c : List MutexCall) (fits : Fits t) (can : CanStart t.params) where
  abbrev cleared_tables : State
  cleared_tables = record t {
    allocated = true;
    freeinode_ts = free_array t.max_inode_count t.freeinode_ts;
    free_blocks = free_array t.max_block_count t.free_blocks;
    free_open_file_entries = free_array t.max_open_files_count t.free_open_file_entries;
    mutex_calls = c;
  }

  cleared-Fits : Fits cleared_tables
  cleared-Fits = ground (arith, fits)

  first_inode : inode_alloc cleared_tables ≡ ok (pos 0) (taking_inode cleared_tables 0)
  first_inode = elim (inode_alloc_cases cleared_tables cleared-Fits) [
    | inl (i, e, first) ↦ elim (ℕ_discrete 0 i) [
      | yes z ↦
          subst (λ j. inode_alloc cleared_tables ≡ ok (pos j) (taking_inode cleared_tables j))
            (sym z) e
      | no ne ↦ absurd (
          ground (
            arith,
            first.first 0,
            free_all-free t.max_inode_count 0 t.freeinode_ts.cell 0,
            can.some_inode,
          ))
    ]
    | inr (e, all) ↦ absurd (
        ground
          (arith, all 0, free_all-free t.max_inode_count 0 t.freeinode_ts.cell 0, can.some_inode))
  ]

  -- The root's inode taken and typed, and given a block.
  abbrev typed : State
  typed = record (taking_inode cleared_tables 0) {
    inode_table = store t.inode_table 0 (record (inode t 0) { i_node_type = t_directory });
  }

  abbrev given : State
  given = record (taking_block typed 0) {
    inode_table =
        store typed.inode_table 0
          (record (inode typed 0) { i_size = t.block_size; i_data_block = pos 0 });
  }

  abbrev base : ℕ
  base = 0 * t.block_size

  abbrev started : State
  started = record given {
    fs_data = record {
      size = t.fs_data.size;
      cell = empty_entries base (max_dir_entries t) 0 t.fs_data.cell;
    };
  }

  typed-Fits : Fits typed
  typed-Fits = ground (arith, fits)

  first_block : data_block_alloc typed ≡ ok (pos 0) (taking_block typed 0)
  first_block = elim (data_block_alloc_cases typed typed-Fits) [
    | inl (b, e, first) ↦ elim (ℕ_discrete 0 b) [
      | yes z ↦ subst (λ j. data_block_alloc typed ≡ ok (pos j) (taking_block typed j)) (sym z) e
      | no ne ↦ absurd (
          ground (
            arith,
            first.first 0,
            free_all-free t.max_block_count 0 t.free_blocks.cell 0,
            can.some_block,
          ))
    ]
    | inr (e, all) ↦ absurd (
        ground
          (arith, all 0, free_all-free t.max_block_count 0 t.free_blocks.cell 0, can.some_block))
  ]

  room : 0 < t.inode_table.size
  room = omega (arith, can.some_inode, fits.inode_room)

  block_room : base + t.block_size ≤ t.fs_data.size
  block_room =
      omega (arith, block_in_range 0 t.max_block_count t.block_size can.some_block, fits.data_room)

  root_created : inode_create t_directory cleared_tables ≡ ok (pos 0) started
  unfolding inode_create set_type init_inode fill_directory state_block_size store_bytes
  root_created = step _ first_inode (
      step _
        (step _ (load_inode-ok (taking_inode cleared_tables 0) 0 room)
          (store_inode-ok (taking_inode cleared_tables 0) 0 _ room))
        (step _ first_block (
          step _ (load_inode-ok (taking_block typed 0) 0 room) (
            step _ (store_inode-ok (taking_block typed 0) 0 _ room) (
              step _ (data_block_get-ok given (pos 0) (lt→ltb 0 _ can.some_block))
                (step _ (load_bytes-ok given base block_room) refl))))))

  no_entries : (k : ℕ) → ¬ (InUse started k)
  no_entries k used = absurd (
      ground (
        arith,
        used.1,
        empty_entries-inumber base (max_dir_entries t) 0 t.fs_data.cell k (omega arith)
            (omega (arith, used.0)),
      ))

  no_handles : (h : ℕ) → ¬ (IsOpen started h)
  no_handles h o = absurd (
      ground (
        arith,
        o.1,
        free_all-free t.max_open_files_count 0 t.free_open_file_entries.cell h (omega arith)
            (omega (arith, o.0)),
      ))

  only_root : (i : ℕ) → IsUsed started i → i ≡ 0
  only_root i u = elim (ℕ_discrete 0 i) [
    | yes e ↦ sym e
    | no ne ↦ absurd (
        ground (
          arith,
          u.is_taken,
          free_all-free t.max_inode_count 0 t.freeinode_ts.cell i (omega arith)
              (omega (arith, u.in_range)),
        ))
  ]

  started-IsValid : IsValid started
  started-IsValid = record {
    fits = ground (arith, fits);
    root = record {
      used = record { in_range = can.some_inode; is_taken = ground arith };
      directory = refl;
      sized = can.sized;
      full = refl;
    };
    inodes = λ i u. subst (InodeOk started) (sym (only_root i u)) (record {
      small = ground arith;
      block_valid = λ e. lt→ltb 0 _ can.some_block;
      block_taken = λ e. ground arith;
    });
    apart = λ i j ne a b. absurd (ne (only_root i a.0 ∙ sym (only_root j b.0)));
    handles = λ h o. absurd (no_handles h o);
    entries = λ k u. absurd (no_entries k u);
    linked_once = λ k l ne a b. absurd (no_entries k a);
  }

state_init-ok :
    (m : Mallocs) (t s : State)
    → Succeeds m t
    → s.allocated ≡ false
    → state_init m t.params s
      ≡ ok (pos 0) (clear_tables (record t { allocated = true; mutex_calls = s.mutex_calls }))
unfolding state_init all_allocated allocate
state_init-ok m t s done e =
    rw
      (
        e, done.inode_table, done.freeinode_ts, done.fs_data, done.free_blocks,
        done.open_file_table, done.free_open_file_entries,
      )
      refl

-- `tfs_init` of a file system that is not initialised, if the six calls of `malloc` succeed with
-- arrays of any contents that have room for the bytes asked for, and the parameters give at least
-- an inode, a block and a byte in it, at most 2 ^ 31 inodes, blocks and open files, blocks of at
-- most 2 ^ 62 bytes and less than 2 ^ 64 bytes in all blocks, returns 0 and leaves a valid file
-- system without open handles and with an empty directory.
pub tfs_init-IsValid :
    (m : Mallocs) (t s : State)
    → s.allocated ≡ false
    → GivesRoom m
    → Succeeds m t
    → CanStart t.params
    → Ends (λ r u. (r ≡ pos 0) × IsValid u × IsEmpty u) (tfs_init m (some t.params) s)
unfolding tfs_init clear_tables
tfs_init-IsValid m t s e gives done can =
    let fits = started-Fits m t gives done can in
    subst (Ends λ r u. (r ≡ pos 0) × IsValid u × IsEmpty u)
      (sym
        (step _ (state_init-ok m t s done e) (step _ (root_created t s.mutex_calls fits can) refl)))
      (
        refl,
        started-IsValid t s.mutex_calls fits can,
        record {
          no_handle = no_handles t s.mutex_calls fits can;
          no_entry = no_entries t s.mutex_calls fits can;
        },
      )
