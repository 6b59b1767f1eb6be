-- ===== src/Fs/Reading.antt =====
-- `tfs_read` on a valid file system: the bytes that it copies, and the state that it leaves.
use projeto_so.Base.{
  ℕ, ◌+◌, ◌-◌, ◌≤◌, ◌<◌, ◌^◌, ◌≡◌, true, false, some, List, [], ltb, min, arith, if◌then◌else◌, ℤ,
  pos, to_ssize-pos, is_minus_one, add_size, ap, ◌∙◌, ltb→lt, to_ssize,
}
use projeto_so.Memory.{store}
use projeto_so.Memory.Bytes.{read_bytes}
use projeto_so.Memory.Frame.{block_in_range}
use projeto_so.Fs.Types.{State, ok, to_size}
use projeto_so.Fs.Validity.{IsValid, IsOpen, InodeOk, inode, entry, block_base, IsUsed}
use projeto_so.Fs.Access.{
  load_inode-ok, load_entry-ok, store_entry-ok, inode_get-ok, data_block_get-ok, fs_bytes-ok,
  valid_block-lt, valid_inumber-lt, get_open-ok, step, branch,
}
use projeto_so.Fs.Locking.{
  Works, locked, unlocked, with_lock-ok, unlock_read-ok, with_calls-IsValid,
}
use projeto_so.Fs.Operations.{Pthread, clamp_read, read_block, read_entry, tfs_read, unlock_read}

-- The inode that a handle leads to.
abbrev pub target : State → ℕ → ℕ
target s h = to_size (entry s h).of_inumber

-- How many bytes a read of `len` bytes through the handle gets.
abbrev pub readable : State → ℕ → ℕ → ℕ
readable s h len = min len ((inode s (target s h)).i_size - (entry s h).of_offset)

-- The bytes of an inode's block from an offset on.
abbrev pub bytes_at : State → ℕ → ℕ → ℕ → List ℕ
bytes_at s i offset n = read_bytes s.fs_data.cell (block_base s i + offset) n

-- The handle's offset `n` bytes further.
abbrev pub advance : State → ℕ → ℕ → State
advance s h n = record s {
  open_file_table =
      store s.open_file_table h (record (entry s h) { of_offset = (entry s h).of_offset + n });
}

abbrev pub after_read : State → ℕ → ℕ → State
after_read s h n = if ltb 0 n then advance s h n else s

clamp_read-min :
    (size offset len : ℕ)
    → offset ≤ size
    → size ≤ 2 ^ 62
    → clamp_read size offset len ≡ min len (size - offset)
unfolding clamp_read
clamp_read-min size offset len h k = ground arith

module _ {s : State} (v : IsValid s) (h : ℕ) (o : IsOpen s h) where
  pub target_used : IsUsed s (target s h)
  target_used = record {
    in_range = valid_inumber-lt s _ (v.handles h o).inumber_valid;
    is_taken = (v.handles h o).inode_taken;
  }

  pub target_ok : InodeOk s (target s h)
  target_ok = v.inodes (target s h) target_used

module _ (p : Pthread) {s : State} (v : IsValid s) (h : ℕ) (o : IsOpen s h)
    (works : is_minus_one (p.unlock s.mutex_calls) ≡ false) where
  read_block-ok :
      (n : ℕ)
      → 0 < n
      → (entry s h).of_offset + n ≤ (inode s (target s h)).i_size
      → read_block p h (entry s h) (inode s (target s h)) n s
        ≡ ok (pos n, bytes_at s (target s h) (entry s h).of_offset n) (unlocked (advance s h n))
  unfolding read_block
  read_block-ok n some_bytes fits =
      step _ (data_block_get-ok s _ ((target_ok v h o).block_valid (omega arith))) (
        step _
          (fs_bytes-ok s (block_base s (target s h) + (entry s h).of_offset) n (
            omega (
              arith,
              block_in_range (to_size (inode s (target s h)).i_data_block) s.max_block_count
                  s.block_size (valid_block-lt s _ ((target_ok v h o).block_valid (omega arith))),
              v.fits.data_room,
              (target_ok v h o).small,
            )))
          (step _ (store_entry-ok s h _ (omega (arith, v.fits.open_room, o.0))) (
            simp
              (no_wrap, to_ssize-pos n (omega (arith, v.fits.size_limit, (target_ok v h o).small)))
              (unlock_read-ok p (advance s h n) (pos n) _ works))))
    where
      no_wrap : add_size (entry s h).of_offset n ≡ (entry s h).of_offset + n
      no_wrap = omega (arith, v.fits.size_limit, (target_ok v h o).small)

  read_entry-ok :
      (len : ℕ)
      → read_entry p len (some h) s
        ≡ ok
            (
              pos (readable s h len),
              bytes_at s (target s h) (entry s h).of_offset (readable s h len),
            )
            (unlocked (after_read s h (readable s h len)))
  unfolding read_entry read_bytes
  read_entry-ok len = step _ (load_entry-ok s h (omega (arith, v.fits.open_room, o.0))) (
      step _ (inode_get-ok s _ (v.handles h o).inumber_valid) (
        step _ (load_inode-ok s (target s h) (omega (arith, v.fits.inode_room, target_used v h o)))
          (rw small (branch (ltb 0 n) _ _ some_bytes no_bytes))))
    where
      n : ℕ
      n = readable s h len

      small : clamp_read (inode s (target s h)).i_size (entry s h).of_offset len ≡ readable s h len
      small =
          clamp_read-min _ _ len (v.handles h o).within
            (omega (arith, v.fits.size_limit, (target_ok v h o).small))

      result : ℤ × List ℕ
      result = (pos n, bytes_at s (target s h) (entry s h).of_offset n)

      some_bytes :
          ltb 0 n ≡ true
          → read_block p h (entry s h) (inode s (target s h)) n s
            ≡ ok result (unlocked (after_read s h n))
      some_bytes e =
          read_block-ok n (ltb→lt 0 n e) (omega (arith, (v.handles h o).within))
          ∙ ap (λ t. ok result (unlocked t)) (rw e)

      no_bytes :
          ltb 0 n ≡ false
          → unlock_read p (to_ssize n) [] s ≡ ok result (unlocked (after_read s h n))
      no_bytes e =
          let none_left : n ≡ 0 = ground arith in rw none_left (unlock_read-ok p s (pos 0) [] works)

-- A read through an open handle returns the smaller of the length asked for and what the file has
-- behind the handle's offset, copies exactly those bytes, moves the offset behind them if there are
-- any, and changes nothing else but the mutex's history.
pub tfs_read_lem :
    (p : Pthread) {s : State} (h len : ℕ)
    → IsValid s
    → IsOpen s h
    → Works p s
    → tfs_read p (pos h) len s
      ≡ ok
          (pos (readable s h len), bytes_at s (target s h) (entry s h).of_offset (readable s h len))
          (unlocked (after_read (locked s) h (readable s h len)))
unfolding tfs_read
tfs_read_lem p {s} h len v o works =
    with_lock-ok p s _ _ works.lock
    ∙ step _ (get_open-ok (locked s) h o.0 (omega (arith, o.0, v.fits.handle_room)) o.1)
        (read_entry-ok p (with_calls-IsValid _ v) h o works.unlock len)
