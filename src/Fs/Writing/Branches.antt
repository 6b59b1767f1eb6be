-- ===== src/Fs/Writing/Branches.antt =====
-- The run of `tfs_write`, branch by branch.
use projeto_so.Base.{
  ℕ, ◌+◌, ◌-◌, ◌≤◌, ◌<◌, ◌^◌, ◌≡◌, refl, sym, ◌∙◌, false, inl, inr, Bool-cases, some, List, ltb,
  ◌==◌, if◌then◌else◌, ltb→lt, le→leb, min, arith, ℤ, pos, minus_one, to_ssize-pos, is_minus_one,
  add_size, length, take,
}
use mathlib.Core.Path.{subst}
use native.Mathlib.Decide.{ℕ_discrete}
use projeto_so.Memory.{store}
use projeto_so.Memory.Bytes.{memcpy}
use projeto_so.Memory.Frame.{block_in_range}
use projeto_so.Fs.Types.{State, ok, to_size, pure, Run}
use projeto_so.Fs.Tables.{data_block_alloc, store_inode, store_bytes, state_block_size}
use projeto_so.Fs.Validity.{IsValid, IsOpen, IsUsed, inode, entry}
use projeto_so.Fs.Access.{
  load_inode-ok, store_inode-ok, load_entry-ok, store_entry-ok, inode_get-ok, data_block_get-ok,
  fs_bytes-ok, valid_block-lt, get_open-ok, step, branch,
}
use projeto_so.Fs.Locking.{
  Works, locked, unlocked, with_lock-ok, unlock_return-ok, with_calls-IsValid,
}
use projeto_so.Fs.Allocation.{IsFirstFree, data_block_alloc_cases, taking_block}
use projeto_so.Fs.Reading.{target, target_used}
use projeto_so.Fs.Blocks.{
  Owns, with_bytes, grown, HasBlock-Owns, giving, giving-Owns, giving-IsValid,
}
use projeto_so.Fs.Operations.{
  Pthread, clamp_write, write_block, write_some, write_entry, tfs_write, unlock_return,
}
use projeto_so.Fs.Writing.{
  writable, write_address, written, WriteOutcome, nothing_fits, no_block, into_block,
  into_new_block,
}

clamp_write-min :
    (size offset n : ℕ)
    → offset ≤ size
    → size ≤ 2 ^ 62
    → n < 2 ^ 63
    → clamp_write size offset n ≡ min n (size - offset)
unfolding clamp_write
clamp_write-min size offset n h k l = ground arith

-- `if (of_offset > i_size) i_size = of_offset;`
raise-ok :
    (s : State) (i k : ℕ)
    → i < s.inode_table.size
    → (if ltb (inode s i).i_size k
          then store_inode i (record (inode s i) { i_size = k })
          else pure tt)
        s
      ≡ ok tt (grown s i k)
raise-ok s i k h = elim (Bool-cases (ltb (inode s i).i_size k)) [
  | inl e ↦ rw e (store_inode-ok s i _ h)
  | inr e ↦ rw e
]

module _ (p : Pthread) {s : State} (v : IsValid s) (h : ℕ) (o : IsOpen s h)
    (works : is_minus_one (p.unlock s.mutex_calls) ≡ false) (buffer : List ℕ) where
  abbrev i : ℕ
  i = target s h

  abbrev offset : ℕ
  offset = (entry s h).of_offset

  -- The state before the inode's size is raised.
  abbrev wrote : ℕ → State
  wrote n = record s {
    fs_data = record {
      size = s.fs_data.size;
      cell = memcpy s.fs_data.cell (write_address s h) (take n buffer);
    };
    open_file_table = store s.open_file_table h (record (entry s h) { of_offset = offset + n });
  }

  module _ (own : Owns s i) (n : ℕ) (le : n ≤ length buffer) (fit : offset + n ≤ s.block_size) where
    inside : write_address s h + n ≤ s.fs_data.size
    inside = omega (
      arith,
      block_in_range (to_size (inode s i).i_data_block) s.max_block_count s.block_size
          (valid_block-lt s _ own.block_valid),
      v.fits.data_room,
    )

    no_wrap : add_size offset n ≡ offset + n
    no_wrap = omega (arith, v.fits.size_limit)

    write_block-ok : write_block p h i buffer n s ≡ ok (pos n) (unlocked (written s h buffer n))
    unfolding write_block store_bytes
    write_block-ok =
        step _ (load_inode-ok s i (omega (arith, v.fits.inode_room, target_used v h o))) (
          step _ (data_block_get-ok s _ own.block_valid) (
            step _ (load_entry-ok s h (omega (arith, v.fits.open_room, o.0))) (
              rw (le→leb n (length buffer) le) (
                step _ (fs_bytes-ok s (write_address s h) n inside) (
                  rw no_wrap (
                    step _
                      (store_entry-ok
                        (with_bytes (memcpy s.fs_data.cell (write_address s h) (take n buffer)) s) h
                        _ (omega (arith, v.fits.open_room, o.0)))
                      (step _
                        (raise-ok (wrote n) i (offset + n)
                          (omega (arith, v.fits.inode_room, target_used v h o)))
                        (rw (to_ssize-pos n (omega (arith, v.fits.size_limit)))
                          (unlock_return-ok p (written s h buffer n) (pos n) works)))))))))

module _ (p : Pthread) {s : State} (v : IsValid s) (h : ℕ) (o : IsOpen s h)
    (works : is_minus_one (p.unlock s.mutex_calls) ≡ false) (buffer : List ℕ) (n : ℕ)
    (le : n ≤ length buffer) where
  abbrev used : IsUsed s (target s h)
  used = target_used v h o

  new_block :
      (b : ℕ)
      → (inode s (target s h)).i_size ≡ 0
      → IsFirstFree s.free_blocks s.max_block_count b
      → (m : ℕ) → m ≤ n
      → (entry s h).of_offset + m ≤ s.block_size
      → write_block p h (target s h) buffer m (giving s (target s h) b)
        ≡ ok (pos m) (unlocked (written (giving s (target s h) b) h buffer m))
  new_block b empty first m less fit =
      write_block-ok p (giving-IsValid s v (target s h) b (v.handles h o).not_root used empty first)
        h o works buffer (giving-Owns s v (target s h) b (v.handles h o).not_root used empty first)
        m (omega arith) fit

  open_inode : target s h < s.inode_table.size
  open_inode = omega (arith, v.fits.inode_room, used)

  w : ℕ
  w = writable s h n

  in_full_block :
      0 < (inode s (target s h)).i_size
      → write_some p h (target s h) buffer w s ≡ ok (pos w) (unlocked (written s h buffer w))
  unfolding write_some w
  in_full_block full = step _ (load_inode-ok s (target s h) open_inode) (
      branch ((inode s (target s h)).i_size == 0) _ _ (λ e. absurd (ground arith))
        λ e.
          write_block-ok p v h o works buffer
            (HasBlock-Owns s v _ (v.handles h o).not_root (used, full)) w (omega arith)
            (omega (arith, (v.handles h o).within, (v.inodes _ used).small)))

  without_block :
      (inode s (target s h)).i_size ≡ 0
      → data_block_alloc s ≡ ok minus_one s
      → write_some p h (target s h) buffer w s ≡ ok minus_one (unlocked s)
  unfolding write_some
  without_block empty failed = step _ (load_inode-ok s (target s h) open_inode) (
      branch ((inode s (target s h)).i_size == 0) _ _
        (λ e. step _ failed (unlock_return-ok p s minus_one works)) λ e. absurd (ground arith))

  in_new_block :
      (b : ℕ)
      → (inode s (target s h)).i_size ≡ 0
      → data_block_alloc s ≡ ok (pos b) (taking_block s b)
      → IsFirstFree s.free_blocks s.max_block_count b
      → write_some p h (target s h) buffer w s
        ≡ ok (pos w) (unlocked (written (giving s (target s h) b) h buffer w))
  unfolding write_some w
  in_new_block b empty got first = step _ (load_inode-ok s (target s h) open_inode) (
      branch ((inode s (target s h)).i_size == 0) _ _
        (λ e. step _ got (
          step _ (store_inode-ok (taking_block s b) (target s h) _ open_inode) (
            new_block b empty first w (omega arith)
              (omega (arith, (v.handles h o).within, (v.inodes _ used).small)))))
        λ e. absurd (ground arith))

  write_some-Outcome : 0 < w → WriteOutcome s h buffer n (write_some p h (target s h) buffer w s)
  unfolding w
  write_some-Outcome more = elim (ℕ_discrete (inode s (target s h)).i_size 0) [
    | no full ↦
        let filled : 0 < (inode s (target s h)).i_size = omega arith in
        subst (WriteOutcome s h buffer n) (sym (in_full_block filled)) (into_block more filled)
    | yes empty ↦ elim (data_block_alloc_cases s v.fits) [
      | inl (b, got, first) ↦
          subst (WriteOutcome s h buffer n) (sym (in_new_block b empty got first))
            (into_new_block b more empty first)
      | inr (failed, all) ↦
          subst (WriteOutcome s h buffer n) (sym (without_block empty failed))
            (no_block more empty all)
    ]
  ]

  write_entry_cases :
      n < 2 ^ 63
      → (r : Run ℤ) → (0 < w → write_some p h (target s h) buffer w s ≡ r)
      → (w ≡ 0 → unlock_return p (pos 0) s ≡ r)
      → write_entry p buffer n (some h) s ≡ r
  unfolding write_entry state_block_size w
  write_entry_cases small r some_bytes no_bytes =
      step _ (load_entry-ok s h (omega (arith, v.fits.open_room, o.0))) (
        step _ (inode_get-ok s _ (v.handles h o).inumber_valid) (
          rw clamped (
            branch (ltb 0 w) _ _ (λ e. some_bytes (ltb→lt 0 w e))
              λ e. let none_left : w ≡ 0 = ground arith in rw none_left (no_bytes none_left))))
    where
      clamped : clamp_write s.block_size (entry s h).of_offset n ≡ w
      clamped =
          clamp_write-min s.block_size (entry s h).of_offset n
            (omega (arith, (v.handles h o).within, (v.inodes _ used).small)) v.fits.size_limit small

  write_entry-Outcome : n < 2 ^ 63 → WriteOutcome s h buffer n (write_entry p buffer n (some h) s)
  unfolding w
  write_entry-Outcome small = elim (ℕ_discrete w 0) [
    | no more ↦
        subst (WriteOutcome s h buffer n)
          (sym (write_entry_cases small _ (λ _. refl) λ e. absurd (more e)))
          (write_some-Outcome (omega arith))
    | yes none_left ↦
        subst (WriteOutcome s h buffer n)
          (sym (
            write_entry_cases small _ (λ e. absurd (omega arith))
              λ _. unlock_return-ok p s (pos 0) works))
          (nothing_fits none_left)
  ]

-- A write of at most the buffer's length through an open handle, by cases. If nothing fits behind
-- the offset, it returns 0 and changes nothing. If the file is empty and no block is free, it
-- returns -1 and changes nothing. Otherwise it returns the number of bytes that fit, has written
-- these bytes of the buffer at the offset in the file's block, or in the first free block if the
-- file was empty, has moved the offset behind them and raised the file's size to the offset if it
-- was less. The mutex is released in each case.
pub tfs_write-WriteOutcome :
    (p : Pthread) {s : State} (h : ℕ) (buffer : List ℕ) (n : ℕ)
    → IsValid s
    → IsOpen s h
    → Works p s
    → n ≤ length buffer
    → n < 2 ^ 63
    → WriteOutcome (locked s) h buffer n (tfs_write p (pos h) buffer n s)
unfolding tfs_write
tfs_write-WriteOutcome p {s} h buffer n v o works le small =
    subst (WriteOutcome (locked s) h buffer n) (sym run)
      (write_entry-Outcome p (with_calls-IsValid _ v) h o works.unlock buffer n le small)
  where
    run : tfs_write p (pos h) buffer n s ≡ write_entry p buffer n (some h) (locked s)
    run =
        with_lock-ok p s _ _ works.lock
        ∙ step _ (get_open-ok (locked s) h o.0 (omega (arith, o.0, v.fits.handle_room)) o.1) refl
