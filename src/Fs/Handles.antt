-- ===== src/Fs/Handles.antt =====
-- The open file table: changes to it that keep the file system valid.
use projeto_so.Base.{ℕ, ◌+◌, ◌≤◌, ◌<◌, ◌==◌, ltb, inl, inr, Bool-cases, arith, pos}
use projeto_so.Memory.{Array, store}
use projeto_so.Fs.Types.{State, OpenFileEntry, AllocationState, free}
use projeto_so.Fs.Validity.{IsValid, IsUsed, HandleOk, IsOpen, entry, inode}
use projeto_so.Fs.Allocation.{taking_handle}
use projeto_so.Fs.Reading.{advance, after_read, target, readable}

abbrev pub with_handles : Array OpenFileEntry → Array AllocationState → State → State
with_handles t f s = record s { open_file_table = t; free_open_file_entries = f }

module _ {s : State} (t : Array OpenFileEntry) (f : Array AllocationState) where
  IsUsed-drop : {i : ℕ} → IsUsed (with_handles t f s) i → IsUsed s i
  IsUsed-drop u = record { in_range = u.in_range; is_taken = u.is_taken }

  -- Only the handles have to be looked at again.
  pub with_handles-IsValid :
      IsValid s
      → s.max_open_files_count ≤ t.size
      → s.max_open_files_count ≤ f.size
      → ((h : ℕ) → IsOpen (with_handles t f s) h → HandleOk (with_handles t f s) h)
      → IsValid (with_handles t f s)
  with_handles-IsValid v t_room f_room handles = record {
    fits = ground (arith, v.fits);
    root = ground (arith, v.root);
    inodes = λ i u. ground (arith, v.inodes i (IsUsed-drop u));
    apart = λ i j ne a b. v.apart i j ne (IsUsed-drop a.0, a.1) (IsUsed-drop b.0, b.1);
    handles = handles;
    entries = λ k o. ground (arith, v.entries k o);
    linked_once = v.linked_once;
  }

module _ {s : State} (v : IsValid s) where
  pub advance-IsValid :
      (h n : ℕ)
      → IsOpen s h
      → (entry s h).of_offset + n ≤ (inode s (target s h)).i_size
      → IsValid (advance s h n)
  advance-IsValid h n o le =
      with_handles-IsValid _ s.free_open_file_entries v v.fits.open_room v.fits.handle_room
        λ g p. ground (arith, v.handles g p, v.handles h o)

  pub after_read-IsValid : (h len : ℕ) → IsOpen s h → IsValid (after_read s h (readable s h len))
  after_read-IsValid h len o = elim (Bool-cases (ltb 0 (readable s h len))) [
    | inl e ↦ rw e (advance-IsValid h (readable s h len) o (omega (arith, (v.handles h o).within)))
    | inr e ↦ rw e v
  ]

  -- A new handle for a used inode that is not the root, at an offset within the file.
  pub taking_handle-IsValid :
      (h i offset : ℕ)
      → IsUsed s i
      → 0 < i
      → offset ≤ (inode s i).i_size
      → IsValid (taking_handle s h (pos i) offset)
  taking_handle-IsValid h i offset u ne le =
      with_handles-IsValid _ _ v v.fits.open_room v.fits.handle_room λ g p.
        elim (Bool-cases (h == g)) [
          | inl e ↦ ground (arith, u)
          | inr e ↦ ground (arith, v.handles g)
        ]

abbrev pub releasing : State → ℕ → State
releasing s h = record s { free_open_file_entries = store s.free_open_file_entries h free }

pub releasing-IsValid : {s : State} (h : ℕ) → IsValid s → IsValid (releasing s h)
releasing-IsValid {s} h v =
    with_handles-IsValid s.open_file_table _ v v.fits.open_room v.fits.handle_room
      λ g p. ground (arith, v.handles g)
