-- ===== src/Fs/Contents/Writes.antt =====
-- `tfs_write` as a change of a file's bytes.
use projeto_so.Base.{
  ℕ, ◌+◌, ◌*◌, ◌≤◌, ◌<◌, ◌^◌, ◌≡◌, ◌≢◌, refl, ap, ◌∙◌, sym, ◌⊎◌, inl, inr, List, arith, length,
  take, ℤ, pos, minus_one,
}
use mathlib.Core.Path.{subst}
use projeto_so.Memory.Bytes.{read_bytes, read_int}
use projeto_so.Memory.Segments.{overwrite, overwrite-nil}
use projeto_so.Fs.Types.{State, Run, ok, panic, fault, Ends, to_size, max_dir_entries}
use projeto_so.Fs.Tables.{d_inumber}
use projeto_so.Fs.Directory.{find_entry}
use projeto_so.Fs.Validity.{IsValid, IsOpen, inode, entry}
use projeto_so.Fs.Locking.{Works, unlocked, locked, with_calls-IsValid}
use projeto_so.Fs.Reading.{target, target_used, target_ok}
use projeto_so.Fs.Allocation.{AllTaken, IsFirstFree}
use projeto_so.Fs.Blocks.{Owns, HasBlock-Owns, giving, giving-Owns, giving-IsValid}
use projeto_so.Fs.Operations.{Pthread, tfs_write}
use projeto_so.Fs.Writing.{
  writable, written, WriteOutcome, nothing_fits, no_block, into_block, into_new_block,
}
use projeto_so.Fs.Writing.Bytes.{written-IsValid}
use projeto_so.Fs.Writing.Branches.{tfs_write-WriteOutcome}
use projeto_so.Fs.Contents.{contents}
use projeto_so.Fs.Contents.Written.{OthersKept, written-OthersKept, written-overwrite}

-- A valid file system in which the handle's file holds `c` and its offset is `k`; the other files,
-- the directory and the states of the handles are as in `s`.
pub record Rewrites (s : State) (h : ℕ) (c : List ℕ) (k : ℕ) (t : State) : Type 0 where
  pub valid : IsValid t
  pub file : contents t (target s h) ≡ c
  pub kept : OthersKept (target s h) s t
  pub offset : (entry t h).of_offset ≡ k
  pub handles : t.free_open_file_entries ≡ s.free_open_file_entries
  pub sizes : t.params ≡ s.params

abbrev pub WriteSpec : State → ℕ → List ℕ → ℕ → ℤ → State → Type 0
WriteSpec s h buffer m k t =
    ((k ≡ minus_one)
      × AllTaken s.free_blocks s.max_block_count
      × ((inode s (target s h)).i_size ≡ 0)
      × Rewrites s h (contents s (target s h)) (entry s h).of_offset t)
    ⊎ ((k ≡ pos m)
        × Rewrites s h (overwrite (contents s (target s h)) (entry s h).of_offset (take m buffer))
            ((entry s h).of_offset + m) t)

module _ {s : State} (v : IsValid s) (h : ℕ) (o : IsOpen s h) (buffer : List ℕ) where
  abbrev i : ℕ
  i = target s h

  same-OthersKept : OthersKept i s s
  same-OthersKept = record {
    others = λ j ne u. refl;
    used = λ j u. u;
    names = record { entries = λ name. refl; inumbers = λ k lt. refl; as_many = refl };
  }

  unchanged : Rewrites s h (contents s i) (entry s h).of_offset (unlocked s)
  unchanged = record {
    valid = with_calls-IsValid _ v;
    file = refl;
    kept = record {
      others = same-OthersKept.others;
      used = λ j u. record { in_range = u.in_range; is_taken = u.is_taken };
      names = record { entries = λ name. refl; inumbers = λ k lt. refl; as_many = refl };
    };
    offset = refl;
    handles = refl;
    sizes = refl;
  }

  rewritten :
      (own : Owns s i) (n : ℕ)
      → n ≤ length buffer
      → (entry s h).of_offset + n ≤ s.block_size
      → Rewrites s h
          (overwrite (contents s i) (entry s h).of_offset (take n buffer))
          ((entry s h).of_offset + n)
          (unlocked (written s h buffer n))
  rewritten own n le fit =
      let kept = written-OthersKept v h o buffer own n le fit in
      record {
        valid = with_calls-IsValid _ (written-IsValid v h o buffer own n le fit);
        file = written-overwrite v h o buffer own n le fit;
        kept = record {
          others = kept.others;
          used = λ j u. record { in_range = u.in_range; is_taken = u.is_taken };
          names = record {
            entries = kept.names.entries;
            inumbers = kept.names.inumbers;
            as_many = refl;
          };
        };
        offset = ground arith;
        handles = refl;
        sizes = refl;
      }

-- An empty file that is given a block holds the same bytes, and so do the others.
module _ {s : State} (v : IsValid s) (h : ℕ) (o : IsOpen s h) (buffer : List ℕ) (b : ℕ)
    (empty : (inode s (target s h)).i_size ≡ 0)
    (first : IsFirstFree s.free_blocks s.max_block_count b) where
  abbrev j : ℕ
  j = target s h

  abbrev given : State
  given = giving s j b

  given_empty : contents given j ≡ contents s j
  given_empty =
      ap
        (λ n.
          read_bytes given.fs_data.cell (to_size (inode given j).i_data_block * s.block_size + 0) n)
        size
      ∙ unfold read_bytes in
        ap (λ n. read_bytes s.fs_data.cell (to_size (inode s j).i_data_block * s.block_size + 0) n)
          (sym empty)
    where
      size : (inode given j).i_size ≡ 0
      size = ground arith

  given_other : (l : ℕ) → l ≢ j → inode given l ≡ inode s l
  given_other l ne = ground arith

  given_root : inode given 0 ≡ inode s 0
  given_root = given_other 0 (omega (arith, (v.handles h o).not_root))

  given-Rewrites : {c : List ℕ} {k : ℕ} {t : State} → Rewrites given h c k t → Rewrites s h c k t
  given-Rewrites r = record {
    valid = r.valid;
    file = r.file;
    kept = record {
      others = λ l ne u.
          r.kept.others l ne (record { in_range = u.in_range; is_taken = u.is_taken })
          ∙ ap
              (λ node.
                read_bytes s.fs_data.cell (to_size node.i_data_block * s.block_size + 0)
                  node.i_size)
              (given_other l ne);
      used = λ l u. r.kept.used l (record { in_range = u.in_range; is_taken = u.is_taken });
      names = record {
        entries = λ name.
            r.kept.names.entries name
            ∙ ap
                (λ node.
                  find_entry (to_size node.i_data_block * s.block_size) name (max_dir_entries s) 0
                    s.fs_data.cell)
                given_root;
        inumbers = λ l lt.
            r.kept.names.inumbers l lt
            ∙ ap
                (λ node.
                  read_int s.fs_data.cell (d_inumber (to_size node.i_data_block * s.block_size) l))
                given_root;
        as_many = r.kept.names.as_many;
      };
    };
    offset = r.offset;
    handles = r.handles;
    sizes = r.sizes;
  }

WriteOutcome-WriteSpec :
    {s : State} (h : ℕ) (buffer : List ℕ) (n : ℕ) (r : Run ℤ)
    → IsValid s
    → IsOpen s h
    → n ≤ length buffer
    → WriteOutcome s h buffer n r
    → Ends (WriteSpec s h buffer (writable s h n)) r
WriteOutcome-WriteSpec {s} h buffer n _ v o le (nothing_fits e) = inr (
  ap pos (sym e),
  rw e (
      subst (λ c. Rewrites s h c ((entry s h).of_offset + 0) (unlocked s))
        (sym (overwrite-nil (contents s (target s h)) (entry s h).of_offset))
        (subst (λ k. Rewrites s h (contents s (target s h)) k (unlocked s)) (omega arith)
          (unchanged v h o buffer))),
)
WriteOutcome-WriteSpec h buffer n _ v o le (no_block more empty all) =
    inl (refl, all, empty, unchanged v h o buffer)
WriteOutcome-WriteSpec {s} h buffer n _ v o le (into_block more full) = inr (
  refl,
  rewritten v h o buffer
      (HasBlock-Owns s v (target s h) (v.handles h o).not_root (target_used v h o, full))
      (writable s h n) (omega arith)
      (omega (arith, (v.handles h o).within, (target_ok v h o).small)),
)
WriteOutcome-WriteSpec {s} h buffer n _ v o le (into_new_block b more empty first) = inr (
  refl,
  given-Rewrites v h o buffer b empty first (
      subst
        (λ c.
          Rewrites (giving s (target s h) b) h
            (overwrite c (entry s h).of_offset (take (writable s h n) buffer))
            ((entry s h).of_offset + writable s h n)
            (unlocked (written (giving s (target s h) b) h buffer (writable s h n))))
        (given_empty v h o buffer b empty first)
        (rewritten
          (giving-IsValid s v (target s h) b (v.handles h o).not_root (target_used v h o) empty
            first)
          h o buffer
          (giving-Owns s v (target s h) b (v.handles h o).not_root (target_used v h o) empty first)
          (writable s h n) (omega arith)
          (omega (arith, (v.handles h o).within, (target_ok v h o).small)))),
)

-- What is said of the state behind the taking of the mutex holds of the state before it.
locked-Rewrites :
    {s : State} {h : ℕ} {c : List ℕ} {k : ℕ} {t : State}
    → Rewrites (locked s) h c k t
    → Rewrites s h c k t
locked-Rewrites r = record {
  valid = r.valid;
  file = r.file;
  kept = record {
    others = λ l ne u. r.kept.others l ne (record { in_range = u.in_range; is_taken = u.is_taken });
    used = λ l u. r.kept.used l (record { in_range = u.in_range; is_taken = u.is_taken });
    names = record {
      entries = r.kept.names.entries;
      inumbers = r.kept.names.inumbers;
      as_many = r.kept.names.as_many;
    };
  };
  offset = r.offset;
  handles = r.handles;
  sizes = r.sizes;
}

locked-WriteSpec :
    (s : State) (h : ℕ) (buffer : List ℕ) (m : ℕ) (r : Run ℤ)
    → Ends (WriteSpec (locked s) h buffer m) r
    → Ends (WriteSpec s h buffer m) r
locked-WriteSpec s h buffer m (ok k t) (inl (e, all, z, w)) = inl (e, all, z, locked-Rewrites w)
locked-WriteSpec s h buffer m (ok k t) (inr (e, w)) = inr (e, locked-Rewrites w)
locked-WriteSpec s h buffer m panic e = elim e [ ]
locked-WriteSpec s h buffer m fault e = elim e [ ]

-- On a valid file system, if the mutex works and the buffer holds `n` bytes, fewer than 2 ^ 63,
-- `tfs_write` of them through an open handle refines writing into a list of bytes. It returns -1 if
-- no block is free for an empty file, with every file as it was; otherwise it returns how many of
-- the bytes fit into the block, the file holds its old bytes with those from the offset on replaced
-- by these, and the offset is behind them. In both cases every other file in use holds the same
-- bytes, each name leads where it led, the same handles are open, and the file system stays valid.
pub tfs_write-WriteSpec :
    (p : Pthread) {s : State} (h : ℕ) (buffer : List ℕ) (n : ℕ)
    → IsValid s
    → IsOpen s h
    → Works p s
    → n ≤ length buffer
    → n < 2 ^ 63
    → Ends (WriteSpec s h buffer (writable s h n)) (tfs_write p (pos h) buffer n s)
tfs_write-WriteSpec p {s} h buffer n v o works le small =
    locked-WriteSpec s h buffer (writable s h n) _ (
      WriteOutcome-WriteSpec h buffer n _ (with_calls-IsValid _ v) o le
        (tfs_write-WriteOutcome p h buffer n v o works le small))
