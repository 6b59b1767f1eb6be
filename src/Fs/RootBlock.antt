-- ===== src/Fs/RootBlock.antt =====
-- The block of the root directory: reading it, and `clear_dir_entry` on it.
use projeto_so.Base.{ℕ, ◌<◌, ◌≡◌, refl, true, not, if◌then◌else◌, List, arith, ℤ}
use projeto_so.Memory.Frame.{block_in_range}
use projeto_so.Fs.Types.{State, M, Run, to_size, ok, max_dir_entries}
use projeto_so.Fs.Tables.{valid_block_number, state_block_size}
use projeto_so.Fs.Directory.{is_directory, open_directory, find_name, clear_dir_entry, clear_found}
use projeto_so.Fs.Access.{
  step, branch, load_inode-ok, data_block_get-ok, load_bytes-ok, valid_block-lt,
}
use projeto_so.Fs.Validity.{IsValid, Fits, RootOk, inode, block_base}

-- What the operations on the root directory read: inode 0 and its block.
pub record HasRoot (s : State) : Type 0 where
  pub fits : Fits s
  pub root : RootOk s
  pub block : valid_block_number s (inode s 0).i_data_block ≡ true

pub IsValid-HasRoot : {s : State} → IsValid s → HasRoot s
IsValid-HasRoot v = record {
  fits = v.fits;
  root = v.root;
  block = (v.inodes 0 v.root.used).block_valid (omega (arith, v.root.sized, v.root.full));
}

module _ (s : State) (v : HasRoot s) where
  pub open_root : open_directory (inode s 0) s ≡ ok (block_base s 0, s.fs_data.cell) s
  unfolding open_directory
  open_root = step _ (data_block_get-ok s _ v.block) (
      step _
        (load_bytes-ok s (block_base s 0) (
          omega (
            arith,
            block_in_range (to_size (inode s 0).i_data_block) s.max_block_count s.block_size
                (valid_block-lt s _ v.block),
            v.fits.data_room,
          )))
        refl)

  pub root_in_table : 0 < s.inode_table.size
  root_in_table = omega (arith, v.root.used, v.fits.inode_room)

  -- The test for a directory passes, and the rest is run on the root's block.
  pub pass_test :
      (x y : M ℤ) {r : Run ℤ} → y s ≡ r → (if not (is_directory (inode s 0)) then x else y) s ≡ r
  pass_test x y e =
      branch (not (is_directory (inode s 0))) x y (λ t. absurd (ground (arith, v.root.directory)))
        λ t. e

  pub clear_dir_entry-root :
      (name : List ℕ)
      → clear_dir_entry 0 name s
        ≡ clear_found
            (block_base s 0)
            s.fs_data.cell
            (find_name (block_base s 0) name (max_dir_entries s) 0 s.fs_data.cell)
            s
  unfolding clear_dir_entry state_block_size
  clear_dir_entry-root name =
      step _ (load_inode-ok s 0 root_in_table) (pass_test _ _ (step _ open_root refl))
