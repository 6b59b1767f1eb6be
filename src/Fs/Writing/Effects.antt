-- ===== src/Fs/Writing/Effects.antt =====
-- What a successful `tfs_write` puts into the file.
use projeto_so.Base.{
  ℕ, ◌+◌, ◌*◌, ◌≤◌, ◌<◌, ◌^◌, ◌≡◌, ◌≢◌, List, length, take, arith, ℤ, pos, minus_one, length-take,
  ap, ◌∙◌, ◌⊎◌, inl, inr, refl, sym,
}
use mathlib.Core.Path.{subst₂}
use projeto_so.Memory.Bytes.{read_bytes, memcpy, Bytes}
use projeto_so.Memory.Frame.{read_bytes-memcpy}
use projeto_so.Fs.Types.{State, Run, Ends, to_size, OpenFileEntry}
use projeto_so.Fs.Validity.{IsValid, IsOpen, inode, entry}
use projeto_so.Fs.Locking.{unlocked, with_calls-IsValid, IsReliable, IsReliable-Works}
use projeto_so.Fs.Reading.{target, target_used, target_ok, bytes_at, tfs_read_lem, readable}
use projeto_so.Fs.Blocks.{grown_block, grown_size, Owns, HasBlock-Owns, giving-Owns, giving-IsValid}
use projeto_so.Fs.Allocation.{AllTaken}
use projeto_so.Fs.Operations.{Pthread, tfs_write, tfs_read}
use projeto_so.Fs.Writing.{
  writable, write_address, written, WriteOutcome, nothing_fits, no_block, into_block,
  into_new_block,
}
use projeto_so.Fs.Writing.Bytes.{written-IsValid}
use projeto_so.Fs.Writing.Branches.{tfs_write-WriteOutcome}

-- The bytes behind the offset of a handle, in the state that a write through it leaves.
written_bytes :
    (s : State) (h : ℕ) (buffer : List ℕ) (m : ℕ)
    → m ≤ length buffer
    → bytes_at (written s h buffer m) (target s h) (entry s h).of_offset m ≡ take m buffer
written_bytes s h buffer m le =
    ap (λ b. read_bytes after (to_size b * s.block_size + (entry s h).of_offset) m)
      (grown_block s (target s h) ((entry s h).of_offset + m) (target s h))
    ∙ ap (read_bytes after (write_address s h)) all_of_it
    ∙ read_bytes-memcpy s.fs_data.cell (write_address s h) (take m buffer)
  where
    after : Bytes
    after = memcpy s.fs_data.cell (write_address s h) (take m buffer)

    all_of_it : m ≡ length (take m buffer)
    all_of_it = omega (arith, length-take m buffer)

-- What a read of the bytes just written through `h` gives through another handle `g`.
abbrev pub ReadBack : Pthread → ℕ → List ℕ → ℕ → State → Type 0
ReadBack p g buffer m t =
    Ends (λ reply _. (reply.0 ≡ pos m) × (reply.1 ≡ take m buffer)) (tfs_read p (pos g) m t)

-- Two open handles of one file at one offset.
pub record AreTwins (s : State) (h g : ℕ) : Type 0 where
  pub first_open : IsOpen s h
  pub second_open : IsOpen s g
  pub distinct : h ≢ g
  pub same_file : target s g ≡ target s h
  pub same_offset : (entry s g).of_offset ≡ (entry s h).of_offset

module _ (p : Pthread) (r : IsReliable p) (h g : ℕ) (buffer : List ℕ) where
  read_written :
      (m : ℕ) (t : State)
      → IsValid t
      → IsOpen t g
      → (entry t g).of_offset + m ≤ (inode t (target t g)).i_size
      → bytes_at t (target t g) (entry t g).of_offset m ≡ take m buffer
      → ReadBack p g buffer m t
  read_written m t w q room bytes =
      rw (tfs_read_lem p g m w q (IsReliable-Works t r), all_of_it) (refl, bytes)
    where
      all_of_it : readable t g m ≡ m
      all_of_it = omega arith

  module _ {s : State} (v : IsValid s) (b : AreTwins s h g) (own : Owns s (target s h)) where
    abbrev after : ℕ → State
    after m = written s h buffer m

    same_entry : (m : ℕ) → entry (after m) g ≡ entry s g
    same_entry m = ground (arith, b.distinct)

    same_target : (m : ℕ) → target (after m) g ≡ target s h
    same_target m = ap (λ (e : OpenFileEntry). to_size e.of_inumber) (same_entry m) ∙ b.same_file

    offset_kept : (m : ℕ) → (entry (after m) g).of_offset ≡ (entry s h).of_offset
    offset_kept m = ap (λ (e : OpenFileEntry). e.of_offset) (same_entry m) ∙ b.same_offset

    written_back :
        (m : ℕ)
        → m ≤ length buffer
        → (entry s h).of_offset + m ≤ s.block_size
        → ReadBack p g buffer m (unlocked (after m))
    written_back m le fit =
        read_written m (unlocked (after m))
          (with_calls-IsValid _ (written-IsValid v h b.first_open buffer own m le fit))
          b.second_open
          (subst₂ (λ i k. k + m ≤ (inode (after m) i).i_size) (sym (same_target m))
            (sym (offset_kept m)) (grown_size s (target s h) ((entry s h).of_offset + m)))
          (subst₂ (λ i k. bytes_at (after m) i k m ≡ take m buffer) (sym (same_target m))
            (sym (offset_kept m)) (written_bytes s h buffer m le))

  written_outcome :
      {s : State} (n : ℕ) (x : Run ℤ)
      → IsValid s
      → AreTwins s h g
      → n ≤ length buffer
      → WriteOutcome s h buffer n x
      → Ends
          (λ k t.
            ((k ≡ minus_one) × AllTaken s.free_blocks s.max_block_count)
            ⊎ ((k ≡ pos (writable s h n)) × ReadBack p g buffer (writable s h n) t))
          x
  written_outcome {s} n _ v b le (nothing_fits e) = inr (
    rw e,
    rw e (
        read_written 0 (unlocked s) (with_calls-IsValid _ v) b.second_open
          (omega (arith, (v.handles g b.second_open).within)) (unfold read_bytes in refl)),
  )
  written_outcome n _ v b le (no_block more empty all) = inl (refl, all)
  written_outcome {s} n _ v b le (into_block more full) = inr (
    refl,
    written_back v b
        (HasBlock-Owns s v (target s h) (v.handles h b.first_open).not_root
          (target_used v h b.first_open, full))
        (writable s h n) (omega arith)
        (omega (arith, (v.handles h b.first_open).within, (target_ok v h b.first_open).small)),
  )
  written_outcome {s} n _ v b le (into_new_block c more empty first) = inr (
    refl,
    written_back
        (giving-IsValid s v (target s h) c (v.handles h b.first_open).not_root
          (target_used v h b.first_open) empty first)
        (record {
          first_open = b.first_open;
          second_open = b.second_open;
          distinct = b.distinct;
          same_file = b.same_file;
          same_offset = b.same_offset;
        })
        (giving-Owns s v (target s h) c (v.handles h b.first_open).not_root
          (target_used v h b.first_open) empty first)
        (writable s h n) (omega arith)
        (omega (arith, (v.handles h b.first_open).within, (target_ok v h b.first_open).small)),
  )

-- Of two open handles of one file at one offset: if `tfs_write` through the first does not return
-- -1 for want of a free block, it returns how many bytes fit, and a `tfs_read` of that many
-- through the second then returns their number and copies exactly the bytes written.
pub tfs_read-tfs_write :
    (p : Pthread) (h g : ℕ) (buffer : List ℕ) {s : State} (n : ℕ)
    → IsReliable p
    → IsValid s
    → AreTwins s h g
    → n ≤ length buffer
    → n < 2 ^ 63
    → Ends
        (λ k t.
          ((k ≡ minus_one) × AllTaken s.free_blocks s.max_block_count)
          ⊎ ((k ≡ pos (writable s h n)) × ReadBack p g buffer (writable s h n) t))
        (tfs_write p (pos h) buffer n s)
tfs_read-tfs_write p h g buffer {s} n r v b le small =
    written_outcome p r h g buffer n _ (with_calls-IsValid _ v)
      (record {
        first_open = b.first_open;
        second_open = b.second_open;
        distinct = b.distinct;
        same_file = b.same_file;
        same_offset = b.same_offset;
      })
      le (tfs_write-WriteOutcome p h buffer n v b.first_open (IsReliable-Works s r) le small)
