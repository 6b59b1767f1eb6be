-- ===== src/Fs/Writing/Bytes.antt =====
-- The bytes that `tfs_write` changes, and those of the other blocks.
use projeto_so.Base.{
  ℕ, ◌+◌, ◌-◌, ◌≤◌, ◌<◌, ◌≡◌, ◌≢◌, inl, inr, List, arith, length, take, length-take,
}
use projeto_so.Memory.Bytes.{memcpy}
use projeto_so.Memory.Frame.{block_apart, memcpy-outside}
use projeto_so.Fs.Types.{State, to_size}
use projeto_so.Fs.Validity.{IsValid, IsOpen, HasBlock, inode, entry, block_base}
use projeto_so.Fs.Reading.{target, target_used}
use projeto_so.Fs.Handles.{with_handles-IsValid}
use projeto_so.Fs.Blocks.{Owns, with_bytes, with_bytes-IsValid, grown, grown-IsValid, SameRoot}
use projeto_so.Fs.Writing.{write_address, written}

module _ {s : State} (v : IsValid s) (h : ℕ) (o : IsOpen s h) (buffer : List ℕ) where
  abbrev i : ℕ
  i = target s h

  abbrev offset : ℕ
  offset = (entry s h).of_offset

  module _ (own : Owns s i) (n : ℕ) (le : n ≤ length buffer) (fit : offset + n ≤ s.block_size) where
    -- The write touches no byte of another inode's block.
    pub other_same :
        (j : ℕ)
        → j ≢ i
        → HasBlock s j
        → (x : ℕ) → block_base s j ≤ x
        → x < block_base s j + s.block_size
        → memcpy s.fs_data.cell (write_address s h) (take n buffer) x ≡ s.fs_data.cell x
    other_same j ne has x lo hi =
        memcpy-outside s.fs_data.cell (write_address s h) (take n buffer) x
          (elim (block_apart (to_size (inode s j).i_data_block) (to_size (inode s i).i_data_block)
            (x - block_base s j) s.block_size (own.alone j ne has) (omega arith)) [
              | inl before ↦ inl (omega arith)
              | inr behind ↦ inr (omega (arith, length-take n buffer))
            ])

    root_same : SameRoot (memcpy s.fs_data.cell (write_address s h) (take n buffer)) s
    root_same =
        other_same 0 (omega (arith, (v.handles h o).not_root))
          (v.root.used, omega (arith, v.root.sized, v.root.full))

    new_bytes : State
    new_bytes = with_bytes (memcpy s.fs_data.cell (write_address s h) (take n buffer)) s

    new_size : State
    unfolding new_bytes
    new_size = grown new_bytes i (offset + n)

    new_size-IsValid : IsValid new_size
    unfolding new_bytes new_size
    new_size-IsValid =
        grown-IsValid new_bytes (with_bytes-IsValid s _ root_same v) i (v.handles h o).not_root
          (ground (arith, own)) (offset + n) fit
          (record {
            in_range = (target_used v h o).in_range;
            is_taken = (target_used v h o).is_taken;
          })

    pub written-IsValid : IsValid (written s h buffer n)
    unfolding new_bytes new_size
    written-IsValid =
        with_handles-IsValid _ s.free_open_file_entries new_size-IsValid v.fits.open_room
          v.fits.handle_room
          λ g q. ground (arith, new_size-IsValid.handles g (q.0, q.1), v.handles h o)
