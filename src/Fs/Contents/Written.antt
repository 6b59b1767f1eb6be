-- ===== src/Fs/Contents/Written.antt =====
-- The files after bytes were written through a handle.
use projeto_so.Base.{
  ℕ, ◌+◌, ◌-◌, ◌*◌, ◌≤◌, ◌<◌, ◌≡◌, ◌≢◌, refl, ap, ◌∙◌, List, arith, length, take, length-take,
}
use projeto_so.Memory.Bytes.{memcpy, read_bytes, read_int}
use projeto_so.Memory.Frame.{read_bytes-cong, read_int-cong}
use projeto_so.Memory.Segments.{overwrite, read_bytes-overwrite}
use projeto_so.Fs.Types.{State, to_size, max_dir_entries}
use projeto_so.Fs.Tables.{d_inumber}
use projeto_so.Fs.Directory.{find_entry}
use projeto_so.Fs.Validity.{IsValid, IsOpen, IsUsed, inode, entry, block_base}
use projeto_so.Fs.Reading.{target, bytes_at}
use projeto_so.Fs.Blocks.{Owns, grown_block, grown_other}
use projeto_so.Fs.Writing.{written}
use projeto_so.Fs.Writing.Bytes.{other_same}
use projeto_so.Fs.Contents.{contents, SameNames}
use projeto_so.Fs.Contents.Names.{find_entry-cong}

-- The other files that are in use, and the directory, are as they were.
pub record OthersKept (i : ℕ) (s t : State) : Type 0 where
  pub others : (j : ℕ) → j ≢ i → IsUsed s j → contents t j ≡ contents s j
  pub used : (j : ℕ) → IsUsed s j → IsUsed t j
  pub names : SameNames s t

module _ {s : State} (v : IsValid s) (h : ℕ) (o : IsOpen s h) (buffer : List ℕ)
    (own : Owns s (target s h)) (n : ℕ) (le : n ≤ length buffer)
    (fit : (entry s h).of_offset + n ≤ s.block_size) where
  abbrev i : ℕ
  i = target s h

  abbrev offset : ℕ
  offset = (entry s h).of_offset

  abbrev src : List ℕ
  src = take n buffer

  abbrev after : State
  after = written s h buffer n

  base_kept : (j : ℕ) → block_base after j ≡ block_base s j
  base_kept j = ap (λ b. to_size b * s.block_size) (grown_block s i (offset + n) j)

  root_kept :
      (x : ℕ)
      → block_base s 0 ≤ x
      → x < block_base s 0 + s.block_size
      → after.fs_data.cell x ≡ s.fs_data.cell x
  root_kept =
      other_same v h o buffer own n le fit 0 (omega (arith, (v.handles h o).not_root))
        (v.root.used, omega (arith, v.root.sized, v.root.full))

  pub written-SameNames : SameNames s after
  written-SameNames = record {
    entries = λ name.
        ap (λ a. find_entry a name (max_dir_entries s) 0 after.fs_data.cell) (base_kept 0)
        ∙ find_entry-cong after.fs_data.cell s.fs_data.cell (block_base s 0) name
            (max_dir_entries s) 0 (λ x lo hi. root_kept x lo (omega arith));
    inumbers = λ k lt.
        ap (λ a. read_int after.fs_data.cell (d_inumber a k)) (base_kept 0)
        ∙ read_int-cong after.fs_data.cell s.fs_data.cell (d_inumber (block_base s 0) k)
            (λ x lo hi. root_kept x (omega arith) (omega arith));
    as_many = refl;
  }

  size_after :
      (inode after i).i_size ≡ offset + length src + ((inode s i).i_size - (offset + length src))
  size_after = ground (arith, length-take n buffer)

  pub written-overwrite : contents after i ≡ overwrite (contents s i) offset src
  written-overwrite =
      ap (λ b. read_bytes after.fs_data.cell (b + 0) (inode after i).i_size) (base_kept i)
      ∙ ap
          (λ a.
            read_bytes (memcpy s.fs_data.cell a src) (block_base s i + 0) (inode after i).i_size)
          (omega arith)
      ∙ read_bytes-overwrite s.fs_data.cell (block_base s i + 0) offset (inode s i).i_size
          (inode after i).i_size src (v.handles h o).within size_after

  other_bytes : (j : ℕ) → j ≢ i → IsUsed s j → bytes_at after j 0 (inode s j).i_size ≡ contents s j
  other_bytes j ne u =
      ap (λ b. read_bytes after.fs_data.cell (b + 0) (inode s j).i_size) (base_kept j)
      ∙ read_bytes-cong after.fs_data.cell s.fs_data.cell (block_base s j + 0) (inode s j).i_size
          λ x lo hi.
            other_same v h o buffer own n le fit j ne (u, omega arith) x (omega arith)
              (omega (arith, (v.inodes j u).small))

  pub written-OthersKept : OthersKept i s after
  written-OthersKept = record {
    others = λ j ne u.
        ap (λ k. bytes_at after j 0 k)
          (ap (λ node. node.i_size) (grown_other s i (offset + n) j ne))
        ∙ other_bytes j ne u;
    used = λ j u. record { in_range = u.in_range; is_taken = u.is_taken };
    names = written-SameNames;
  }
