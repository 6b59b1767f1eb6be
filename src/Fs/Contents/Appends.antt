-- ===== src/Fs/Contents/Appends.antt =====
-- Opening a file with TFS_O_APPEND, writing to it and closing it again.
use projeto_so.Base.{
  ℕ, ◌+◌, ◌≤◌, ◌<◌, ◌^◌, ◌≡◌, ap, ◌∙◌, sym, inl, inr, Bool-cases, List, ◌∷◌, ◌++◌, arith, length,
  take, ℤ, pos, ◌==◌,
}
use projeto_so.Memory.Segments.{overwrite, overwrite_end, take_all, length-read_bytes}
use projeto_so.Fs.Types.{State, Run, ok, panic, fault, Ends, locks, unlocks}
use projeto_so.Fs.Validity.{IsValid, IsOpen, inode, entry}
use projeto_so.Fs.Locking.{IsReliable, IsReliable-Works, locked, unlocked, with_calls-IsValid}
use projeto_so.Fs.Allocation.{IsFirstFree, AllTaken}
use projeto_so.Fs.Handles.{releasing, releasing-IsValid}
use projeto_so.Fs.Reading.{target}
use projeto_so.Fs.Operations.{Pthread, tfs_write}
use projeto_so.Fs.Writing.{writable}
use projeto_so.Fs.Contents.{contents, LeadsTo}
use projeto_so.Fs.Contents.Written.{OthersKept}
use projeto_so.Fs.Contents.Writes.{Rewrites, WriteSpec, tfs_write-WriteSpec}
use projeto_so.Fs.Contents.Opens.{
  with_handle, with_handle-IsValid, with_handle-IsOpen, entry-with_handle,
}

-- A valid file system in which the file `i` has the bytes appended; the other files, the directory
-- and the states of the handles are as in `s`.
pub record Appended (s : State) (i : ℕ) (bytes : List ℕ) (t : State) : Type 0 where
  pub valid : IsValid t
  pub file : contents t i ≡ contents s i ++ bytes
  pub kept : OthersKept i s t
  pub handles : (g : ℕ) → t.free_open_file_entries.cell g ≡ s.free_open_file_entries.cell g
  pub sizes : t.params ≡ s.params

-- The file has room for more bytes, and a block if it needs one.
pub record HasRoom (s : State) (i n : ℕ) : Type 0 where
  pub fits : (inode s i).i_size + n ≤ s.block_size
  pub block : ((inode s i).i_size ≡ 0) → AllTaken s.free_blocks s.max_block_count → ⊥

module _ {s : State} (v : IsValid s) (name : List ℕ) (i h : ℕ) (leads : LeadsTo s name i)
    (first : IsFirstFree s.free_open_file_entries s.max_open_files_count h) (bytes : List ℕ)
    (room : HasRoom s i (length bytes)) where
  abbrev opened : State
  opened = with_handle s i 4 h

  at_file : target opened h ≡ i
  at_file = ground (arith, entry-with_handle v name i h 4 leads first)

  at_end : (entry opened h).of_offset ≡ (inode s i).i_size
  at_end = ground (arith, entry-with_handle v name i h 4 leads first)

  all_fits : writable opened h (length bytes) ≡ length bytes
  all_fits = omega (arith, at_end, room.fits)

  appended_bytes :
      overwrite
        (contents opened (target opened h))
        (entry opened h).of_offset
        (take (length bytes) bytes)
      ≡ contents s i ++ bytes
  appended_bytes =
      rw (at_file, at_end, take_all bytes)
        (ap (λ n. overwrite (contents s i) n bytes) (sym (length-read_bytes _ _ (inode s i).i_size))
          ∙ overwrite_end (contents s i) bytes)

  -- What is left once the handle is closed.
  closed-Appended :
      {c : List ℕ} {k : ℕ} {t : State}
      → c ≡ contents s i ++ bytes
      → Rewrites opened h c k t
      → Appended s i bytes (unlocked (releasing (locked t) h))
  closed-Appended {c} {k} {t} e r = record {
    valid =
        with_calls-IsValid (unlocks ∷ locks ∷ t.mutex_calls)
          (releasing-IsValid h (with_calls-IsValid (locks ∷ t.mutex_calls) r.valid));
    file = ap (contents t) (sym at_file) ∙ r.file ∙ e;
    kept = record {
      others = λ j ne u.
          r.kept.others j (λ q. ne (q ∙ at_file))
            (record { in_range = u.in_range; is_taken = u.is_taken });
      used = λ j u.
          let w = r.kept.used j (record { in_range = u.in_range; is_taken = u.is_taken }) in
          record { in_range = w.in_range; is_taken = w.is_taken };
      names = record {
        entries = r.kept.names.entries;
        inumbers = r.kept.names.inumbers;
        as_many = r.kept.names.as_many;
      };
    };
    handles = λ g. elim (Bool-cases (h == g)) [
      | inl same ↦ ground (arith, first.is_free, r.handles)
      | inr other ↦ ground (arith, r.handles)
    ];
    sizes = r.sizes;
  }

  written_all :
      (m : ℕ) (r : Run ℤ)
      → m ≡ length bytes
      → Ends (WriteSpec opened h bytes m) r
      → (t : State) × (r ≡ ok (pos (length bytes)) t)
        × IsOpen t h
        × IsValid t
        × Appended s i bytes (unlocked (releasing (locked t) h))
  written_all m (ok k t) e (inl (minus, all, empty, w)) =
      absurd (room.block (ap (λ j. (inode s j).i_size) (sym at_file) ∙ empty) all)
  written_all m (ok k t) e (inr (fits, w)) = (
    t,
    ap (λ v. ok v t) (fits ∙ ap pos e),
    (
      omega (arith, first.in_range, ap (λ q. q.max_open_files_count) w.sizes),
      ground (arith, w.handles),
    ),
    w.valid,
    closed-Appended
        (ap
            (λ q.
              overwrite (contents opened (target opened h)) (entry opened h).of_offset
                (take q bytes))
            e
          ∙ appended_bytes)
        w,
  )
  written_all m panic e w = elim w [ ]
  written_all m fault e w = elim w [ ]

-- A file that `name` leads to and that has room, opened with TFS_O_APPEND at the first free handle,
-- takes all the bytes.
pub tfs_write-Appended :
    (p : Pthread) {s : State} (name : List ℕ) (i h : ℕ) (bytes : List ℕ)
    → IsValid s
    → IsReliable p
    → LeadsTo s name i
    → IsFirstFree s.free_open_file_entries s.max_open_files_count h
    → HasRoom s i (length bytes)
    → length bytes < 2 ^ 63
    → (t : State) × (tfs_write p (pos h) bytes (length bytes) (with_handle s i 4 h)
        ≡ ok (pos (length bytes)) t)
      × IsOpen t h
      × IsValid t
      × Appended s i bytes (unlocked (releasing (locked t) h))
tfs_write-Appended p {s} name i h bytes v reliable leads first room small =
    written_all v name i h leads first bytes room (writable (with_handle s i 4 h) h (length bytes))
      _ (all_fits v name i h leads first bytes room)
      (tfs_write-WriteSpec p h bytes (length bytes) (with_handle-IsValid v name i h 4 leads first)
        (with_handle-IsOpen v name i h 4 leads first) (IsReliable-Works _ reliable) (omega arith)
        small)
