-- ===== src/Fs/Contents/Reads.antt =====
-- Opening a file and reading all that it holds.
use projeto_so.Base.{
  ℕ, drop, ◌≢◌, sym, ◌+◌, ◌-◌, ◌≤◌, ◌≡◌, refl, ap, ◌∙◌, inl, inr, Bool-cases, List, ◌∷◌, arith, ltb,
  min, pos,
}
use mathlib.Core.Path.{subst, ap₂}
use projeto_so.Memory.Bytes.{read_bytes}
use projeto_so.Memory.Segments.{drop-read_bytes}
use projeto_so.Fs.Types.{State, ok, locks, MutexCall}
use projeto_so.Fs.Validity.{IsValid, IsOpen, IsUsed, inode, entry, block_base}
use projeto_so.Fs.Locking.{
  IsReliable, IsReliable-Works, locked, unlocked, with_calls, with_calls-IsValid,
}
use projeto_so.Fs.Allocation.{IsFirstFree}
use projeto_so.Fs.Handles.{advance-IsValid}
use projeto_so.Fs.Reading.{target, readable, bytes_at, after_read, advance, tfs_read_lem}
use projeto_so.Fs.Operations.{Pthread, tfs_read}
use projeto_so.Fs.Contents.{contents, LeadsTo, SameNames}
use projeto_so.Fs.Contents.Opens.{
  with_handle, with_handle-IsValid, with_handle-IsOpen, entry-with_handle,
}

-- A valid file system with the files and names of `s`, in which handle `h` is open on file `i`, at
-- its end.
pub record AtEnd (s : State) (i h : ℕ) (t : State) : Type 0 where
  pub valid : IsValid t
  pub files : (j : ℕ) → contents t j ≡ contents s j
  pub used : (j : ℕ) → IsUsed s j → IsUsed t j
  pub names : SameNames s t
  pub handles : (g : ℕ) → h ≢ g → t.free_open_file_entries.cell g ≡ s.free_open_file_entries.cell g
  pub sizes : t.params ≡ s.params
  pub is_open : IsOpen t h
  pub file : target t h ≡ i
  pub offset : (entry t h).of_offset ≡ (inode t i).i_size

module _ {o : State} (v : IsValid o) (h n : ℕ) (is_open : IsOpen o h)
    (all : (entry o h).of_offset + n ≡ (inode o (target o h)).i_size) where
  stays : 0 ≡ n → AtEnd o (target o h) h o
  stays e = record {
    valid = v;
    files = λ j. refl;
    used = λ j u. u;
    names = record { entries = λ name. refl; inumbers = λ k lt. refl; as_many = refl };
    handles = λ g ne. refl;
    sizes = refl;
    is_open = is_open;
    file = refl;
    offset = omega (arith, all);
  }

  moves : AtEnd o (target o h) h (advance o h n)
  moves = record {
    valid = advance-IsValid v h n is_open (omega (arith, all));
    files = λ j. refl;
    used = λ j u. record { in_range = u.in_range; is_taken = u.is_taken };
    names = record { entries = λ name. refl; inumbers = λ k lt. refl; as_many = refl };
    handles = λ g ne. refl;
    sizes = refl;
    is_open = is_open;
    file = ground arith;
    offset = ground (arith, all);
  }

  after_read-AtEnd : AtEnd o (target o h) h (after_read o h n)
  after_read-AtEnd = elim (Bool-cases (ltb 0 n)) [
    | inl e ↦ rw e moves
    | inr e ↦ rw e (stays (ground arith))
  ]

-- The mutex's history does not matter.
unlocked-AtEnd :
    {s o t : State} (i h : ℕ) (c : List MutexCall)
    → ((j : ℕ) → contents o j ≡ contents s j)
    → ((j : ℕ) → IsUsed s j → IsUsed o j)
    → SameNames s o
    → ((g : ℕ) → h ≢ g → o.free_open_file_entries.cell g ≡ s.free_open_file_entries.cell g)
    → o.params ≡ s.params
    → AtEnd o i h t
    → AtEnd s i h (with_calls c t)
unlocked-AtEnd {s} {o} {t} i h c files used names handles sizes r = record {
  valid = with_calls-IsValid c r.valid;
  files = λ j. r.files j ∙ files j;
  used =
      λ j u. let w = r.used j (used j u) in record { in_range = w.in_range; is_taken = w.is_taken };
  names = record {
    entries = λ name. r.names.entries name ∙ names.entries name;
    inumbers = λ k lt. r.names.inumbers k (omega (arith, lt, names.as_many)) ∙ names.inumbers k lt;
    as_many = r.names.as_many ∙ names.as_many;
  };
  handles = λ g ne. r.handles g ne ∙ handles g ne;
  sizes = r.sizes ∙ sizes;
  is_open = r.is_open;
  file = r.file;
  offset = r.offset;
}

module _ {s : State} (v : IsValid s) (name : List ℕ) (i h : ℕ) (leads : LeadsTo s name i)
    (first : IsFirstFree s.free_open_file_entries s.max_open_files_count h) (len : ℕ)
    (le : (inode s i).i_size ≤ len) where
  abbrev opened : State
  opened = with_handle s i 0 h

  at_file : target opened h ≡ i
  at_file = ground (arith, entry-with_handle v name i h 0 leads first)

  at_start : (entry opened h).of_offset ≡ 0
  at_start = ground (arith, entry-with_handle v name i h 0 leads first)

  reads_all : readable opened h len ≡ (inode s i).i_size
  reads_all =
      ap (λ j. min len ((inode s j).i_size - (entry opened h).of_offset)) at_file
      ∙ omega (arith, at_start)

  read_bytes_are :
      bytes_at opened (target opened h) (entry opened h).of_offset (readable opened h len)
      ≡ contents s i
  read_bytes_are = rw (reads_all, at_file, at_start) refl

  after-AtEnd : AtEnd s i h (unlocked (after_read (locked opened) h (readable opened h len)))
  after-AtEnd =
      unlocked-AtEnd i h _ (λ j. refl)
        (λ j u. record { in_range = u.in_range; is_taken = u.is_taken })
        (record { entries = λ name. refl; inumbers = λ k lt. refl; as_many = refl })
        (λ g ne. ground (arith, ne)) refl
        (subst
          (λ j. AtEnd (locked opened) j h (after_read (locked opened) h (readable opened h len)))
          at_file
          (after_read-AtEnd
            (with_calls-IsValid (locks ∷ opened.mutex_calls)
              (with_handle-IsValid v name i h 0 leads first))
            h (readable opened h len) (with_handle-IsOpen v name i h 0 leads first)
            (omega (arith, at_start, reads_all, ap (λ j. (inode s j).i_size) at_file))))

-- A file that `name` leads to, opened without flags at the first free handle, is read whole if the
-- buffer is as long as the file.
pub tfs_read-AtEnd :
    (p : Pthread) {s : State} (name : List ℕ) (i h len : ℕ)
    → IsValid s
    → IsReliable p
    → LeadsTo s name i
    → IsFirstFree s.free_open_file_entries s.max_open_files_count h
    → (inode s i).i_size ≤ len
    → (t : State) × (tfs_read p (pos h) len (with_handle s i 0 h)
        ≡ ok (pos (inode s i).i_size, contents s i) t)
      × AtEnd s i h t
tfs_read-AtEnd p {s} name i h len v reliable leads first le = (
  unlocked (after_read (locked (with_handle s i 0 h)) h (readable (with_handle s i 0 h) h len)),
  tfs_read_lem p h len (with_handle-IsValid v name i h 0 leads first)
        (with_handle-IsOpen v name i h 0 leads first) (IsReliable-Works _ reliable)
      ∙ ap
          (λ r. ok r (
            unlocked
              (after_read (locked (with_handle s i 0 h)) h (readable (with_handle s i 0 h) h len))))
          (ap₂ (λ n b. (pos n, b)) (reads_all v name i h leads first len le)
            (read_bytes_are v name i h leads first len le)),
  after-AtEnd v name i h leads first len le,
)

-- A read through an open handle that has room for all that is behind its offset.
pub read_rest :
    (p : Pthread) {s : State} (h len : ℕ)
    → IsValid s
    → IsReliable p
    → IsOpen s h
    → (inode s (target s h)).i_size ≤ (entry s h).of_offset + len
    → (t : State) × (tfs_read p (pos h) len s
        ≡ ok
            (
              pos ((inode s (target s h)).i_size - (entry s h).of_offset),
              drop (entry s h).of_offset (contents s (target s h)),
            )
            t)
      × AtEnd s (target s h) h t
read_rest p {s} h len v reliable o le = (
  unlocked (after_read (locked s) h (readable s h len)),
  tfs_read_lem p h len v o (IsReliable-Works s reliable)
      ∙ ap (λ r. ok r (unlocked (after_read (locked s) h (readable s h len))))
          (ap₂ (λ n b. (pos n, b)) all bytes),
  unlocked-AtEnd (target s h) h _ (λ j. refl)
      (λ j u. record { in_range = u.in_range; is_taken = u.is_taken })
      (record { entries = λ name. refl; inumbers = λ k lt. refl; as_many = refl }) (λ g ne. refl)
      refl
      (after_read-AtEnd (with_calls-IsValid (locks ∷ s.mutex_calls) v) h (readable s h len) o
        (omega (arith, all, (v.handles h o).within))),
)
  where
    all : readable s h len ≡ (inode s (target s h)).i_size - (entry s h).of_offset
    all = omega (arith, le)

    same_place :
        block_base s (target s h) + (entry s h).of_offset
        ≡ block_base s (target s h) + 0 + (entry s h).of_offset
    same_place = omega arith

    bytes :
        bytes_at s (target s h) (entry s h).of_offset (readable s h len)
        ≡ drop (entry s h).of_offset (contents s (target s h))
    bytes =
        ap (bytes_at s (target s h) (entry s h).of_offset) all
        ∙ ap
            (λ a.
              read_bytes s.fs_data.cell a ((inode s (target s h)).i_size - (entry s h).of_offset))
            same_place
        ∙ sym (
            drop-read_bytes s.fs_data.cell (block_base s (target s h) + 0) (entry s h).of_offset
              (inode s (target s h)).i_size)
