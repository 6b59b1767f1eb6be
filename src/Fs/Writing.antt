-- ===== src/Fs/Writing.antt =====
-- `tfs_write` on a valid file system: the states that it leaves and its outcomes.
pub mod Bytes
pub mod Branches
pub mod Effects
use projeto_so.Base.{
  ℕ, ◌+◌, ◌-◌, ◌*◌, ◌%◌, ◌≤◌, ◌<◌, ◌^◌, ◌≡◌, ◌≢◌, refl, sym, ap, ◌∙◌, Bool, true, false, ◌⊎◌, inl,
  inr, Bool-cases, some, none, List, ltb, leb, ◌==◌, if◌then◌else◌, lt→ltb, ltb→lt, le→leb, min,
  arith, ℤ, pos, minus_one, to_ssize, to_ssize-pos, is_minus_one, add_size, length, take,
  length-take,
}
use mathlib.Core.Path.{subst}
use native.Mathlib.Decide.{ℕ_discrete}
use projeto_so.Memory.{store, Array}
use projeto_so.Memory.Bytes.{memcpy}
use projeto_so.Memory.Frame.{block_in_range, block_apart, memcpy-outside}
use projeto_so.Fs.Types.{State, Inode, ok, to_size, ◌>>=◌, ◌>>◌, and_then, pure, in_bounds, Run}
use projeto_so.Fs.Tables.{data_block_alloc, store_inode, store_bytes, state_block_size}
use projeto_so.Fs.Validity.{
  IsValid, IsOpen, HandleOk, InodeOk, HasBlock, IsUsed, inode, entry, block_base,
}
use projeto_so.Fs.Access.{
  load_inode-ok, store_inode-ok, load_entry-ok, store_entry-ok, inode_get-ok, data_block_get-ok,
  fs_bytes-ok, valid_block-lt, valid_inumber-lt, get_open-ok, step, branch,
}
use projeto_so.Fs.Locking.{
  Works, locked, unlocked, with_lock-ok, unlock_return-ok, with_calls-IsValid,
}
use projeto_so.Fs.Allocation.{IsFirstFree, AllTaken, data_block_alloc_cases, taking_block}
use projeto_so.Fs.Reading.{target, target_used}
use projeto_so.Fs.Handles.{with_handles-IsValid}
use projeto_so.Fs.Blocks.{
  Owns, with_bytes, with_bytes-IsValid, grown, grown-IsValid, HasBlock-Owns, giving, giving-Owns,
  giving-IsValid, SameRoot,
}
use projeto_so.Fs.Operations.{
  Pthread, clamp_write, write_block, write_some, write_entry, tfs_write, unlock_return,
}

-- How many of `n` bytes fit behind the handle's offset.
abbrev pub writable : State → ℕ → ℕ → ℕ
writable s h n = min n (s.block_size - (entry s h).of_offset)

abbrev pub write_address : State → ℕ → ℕ
write_address s h = block_base s (target s h) + (entry s h).of_offset

-- The state after `n` bytes of the buffer were written through the handle.
abbrev pub written : State → ℕ → List ℕ → ℕ → State
written s h buffer n = record (grown s (target s h) ((entry s h).of_offset + n)) {
  fs_data = record {
    size = s.fs_data.size;
    cell = memcpy s.fs_data.cell (write_address s h) (take n buffer);
  };
  open_file_table =
      store s.open_file_table h (record (entry s h) { of_offset = (entry s h).of_offset + n });
}

-- What a write of `n` bytes through an open handle comes to, by the room behind the offset, the
-- file's size and the free blocks.
pub data WriteOutcome (s : State) (h : ℕ) (buffer : List ℕ) (n : ℕ) : Run ℤ → Type 0 where
  nothing_fits : writable s h n ≡ 0 → WriteOutcome s h buffer n (ok (pos 0) (unlocked s))
  no_block :
      0 < writable s h n
      → (inode s (target s h)).i_size ≡ 0
      → AllTaken s.free_blocks s.max_block_count
      → WriteOutcome s h buffer n (ok minus_one (unlocked s))
  into_block :
      0 < writable s h n
      → 0 < (inode s (target s h)).i_size
      → WriteOutcome s h buffer n
          (ok (pos (writable s h n)) (unlocked (written s h buffer (writable s h n))))
  into_new_block :
      (b : ℕ)
      → 0 < writable s h n
      → (inode s (target s h)).i_size ≡ 0
      → IsFirstFree s.free_blocks s.max_block_count b
      → WriteOutcome s h buffer n (
          ok
            (pos (writable s h n))
            (unlocked (written (giving s (target s h) b) h buffer (writable s h n))))
