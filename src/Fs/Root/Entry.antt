-- ===== src/Fs/Root/Entry.antt =====
-- Filling and clearing an entry of the root directory.
use projeto_so.Base.{ℕ, ◌+◌, ◌^◌, ◌≤◌, ◌<◌, ◌≡◌, ◌≢◌, sym, List, [], arith, pos, minus_one, length}
use mathlib.Core.Path.{subst}
use native.Mathlib.Decide.{ℕ_discrete}
use projeto_so.Memory.Bytes.{Bytes, read_int}
use projeto_so.Memory.Ints.{Spells}
use projeto_so.Fs.Types.{State, to_size}
use projeto_so.Fs.Tables.{d_name, d_inumber}
use projeto_so.Fs.Directory.{fill_entry, clear_entry}
use projeto_so.Fs.Directory.Entries.{
  SameOutside, fill_entry-outside, fill_entry-inumber, fill_entry-ends, fill_entry-Spells,
  clear_entry-zeros, clear_entry-outside, clear_entry-inumber,
}
use projeto_so.Fs.Validity.{IsValid, IsUsed, InUse, block_base, entry_inumber}
use projeto_so.Fs.Blocks.{with_bytes}
use projeto_so.Fs.Root.{others, still_used, one_entry-IsValid}

-- Entry `k` of the directory at address `a` holds the inumber and the name, which ends with a NUL;
-- the bytes of the other entries, and of all other blocks, are as they were.
pub record IsFilled (a k : ℕ) (name : List ℕ) (i : ℕ) (b c : Bytes) : Type 0 where
  pub inumber : read_int c (d_inumber a k) ≡ pos i
  pub spelled : Spells c (d_name a k) name
  pub ended : c (d_name a k + 39) ≡ 0
  pub kept : SameOutside a k b c

-- Entry `k` is empty and all 40 bytes of its name are 0; all other bytes are as they were.
pub record IsCleared (a k : ℕ) (b c : Bytes) : Type 0 where
  pub inumber : read_int c (d_inumber a k) ≡ minus_one
  pub zeros : (x : ℕ) → x < 40 → c (d_name a k + x) ≡ 0
  pub kept : SameOutside a k b c

-- The state with entry `k` filled or cleared.
abbrev pub filled : State → ℕ → List ℕ → ℕ → State
filled s k name i = with_bytes (fill_entry (block_base s 0) name (pos i) k s.fs_data.cell) s

abbrev pub cleared : State → ℕ → State
cleared s k = with_bytes (clear_entry (block_base s 0) k s.fs_data.cell) s

pub filled-IsFilled :
    (s : State) (k : ℕ) (name : List ℕ) (i : ℕ)
    → length name ≤ 39
    → i < 2 ^ 31
    → IsFilled (block_base s 0) k name i s.fs_data.cell (filled s k name i).fs_data.cell
filled-IsFilled s k name i le lt = record {
  inumber = fill_entry-inumber (block_base s 0) name i k s.fs_data.cell lt;
  spelled = fill_entry-Spells (block_base s 0) k name (pos i) s.fs_data.cell le;
  ended = fill_entry-ends (block_base s 0) name i k s.fs_data.cell (pos i);
  kept = fill_entry-outside (block_base s 0) name i k s.fs_data.cell (pos i);
}

pub cleared-IsCleared :
    (s : State) (k : ℕ) → IsCleared (block_base s 0) k s.fs_data.cell (cleared s k).fs_data.cell
cleared-IsCleared s k = record {
  inumber = clear_entry-inumber (block_base s 0) [] 0 k s.fs_data.cell;
  zeros = clear_entry-zeros (block_base s 0) [] 0 k s.fs_data.cell;
  kept = clear_entry-outside (block_base s 0) [] 0 k s.fs_data.cell;
}

module _ {s : State} (v : IsValid s) (k : ℕ) where
  pub filled-IsValid :
      (name : List ℕ) (i : ℕ)
      → IsUsed s i
      → 0 < i
      → ((l : ℕ) → InUse s l → to_size (entry_inumber s l) ≢ i)
      → IsValid (filled s k name i)
  filled-IsValid name i u root unlinked =
      one_entry-IsValid s v k _
        (fill_entry-outside (block_base s 0) name i k s.fs_data.cell (pos i))
        (λ w. ground (arith, u, holds, ends)) (λ l ne a b. ground (arith, holds, unlinked l b))
    where
      holds : entry_inumber (filled s k name i) k ≡ pos i
      holds =
          fill_entry-inumber (block_base s 0) name i k s.fs_data.cell
            (omega (arith, u, v.fits.inode_limit))

      ends : (filled s k name i).fs_data.cell (d_name (block_base s 0) k + 39) ≡ 0
      ends = fill_entry-ends (block_base s 0) name i k s.fs_data.cell (pos i)

  cleared_unused : InUse (cleared s k) k → ⊥
  cleared_unused w = ground (arith, w, clear_entry-inumber (block_base s 0) [] 0 k s.fs_data.cell)

  pub cleared-IsValid : IsValid (cleared s k)
  cleared-IsValid =
      one_entry-IsValid s v k _ (clear_entry-outside (block_base s 0) [] 0 k s.fs_data.cell)
        (λ w. absurd (cleared_unused w)) (λ l ne a b. absurd (cleared_unused a))

  -- No entry leads any more to the inode whose entry was cleared.
  pub cleared_unlinked :
      InUse s k
      → (l : ℕ) → InUse (cleared s k) l
      → to_size (entry_inumber (cleared s k) l) ≢ to_size (entry_inumber s k)
  cleared_unlinked w l a = elim (ℕ_discrete k l) [
    | yes e ↦ absurd (cleared_unused (subst (InUse (cleared s k)) (sym e) a))
    | no ne ↦ ground (
      arith,
      others s v k _ (clear_entry-outside (block_base s 0) [] 0 k s.fs_data.cell) l ne,
      v.linked_once l k,
      still_used s v k _ (clear_entry-outside (block_base s 0) [] 0 k s.fs_data.cell) l ne a,
    )
  ]
