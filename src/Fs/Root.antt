-- ===== src/Fs/Root.antt =====
-- The root directory of a valid file system: what a lookup finds, and changing one entry.
pub mod Entry
use projeto_so.Base.{
  ℕ, ◌+◌, ◌^◌, ◌≤◌, ◌<◌, ◌≡◌, ◌≢◌, refl, sym, true, false, ◌||◌, ◌==◌, ltb, Option, none, some,
  List, [], arith, ℤ, pos, negsuc, minus_one, length,
}
use mathlib.Core.Path.{subst}
use native.Mathlib.Decide.{ℕ_discrete}
use projeto_so.Memory.Bytes.{Bytes, read_int}
use projeto_so.Memory.Ints.{Spells}
use projeto_so.Fs.Types.{State, to_size, ok, max_dir_entries}
use projeto_so.Fs.Tables.{d_name, d_inumber, valid_inumber, state_block_size}
use projeto_so.Fs.Directory.{
  find_in_dir, find_entry, find_empty, found_inumber, fill_entry, clear_entry, add_dir_entry,
  fill_found,
}
use projeto_so.Fs.Directory.Scans.{IsFirst, find_entry-IsFirst, entry_matches}
use projeto_so.Fs.Directory.Entries.{
  SameOutside, other_entry, fill_entry-outside, fill_entry-inumber, fill_entry-ends,
  fill_entry-Spells, clear_entry-zeros, clear_entry-outside, clear_entry-inumber,
}
use projeto_so.Fs.Access.{step, branch, load_inode-ok}
use projeto_so.Fs.Validity.{IsValid, IsUsed, EntryOk, InUse, block_base, entry_inumber}
use projeto_so.Fs.Blocks.{with_bytes}
use projeto_so.Fs.RootBlock.{HasRoot, IsValid-HasRoot, open_root, root_in_table, pass_test}

-- The index of the first entry in use with the name, and what `find_in_dir` makes of it.
abbrev pub root_entry : State → List ℕ → Option ℕ
root_entry s name = find_entry (block_base s 0) name (max_dir_entries s) 0 s.fs_data.cell

abbrev pub root_lookup : State → List ℕ → ℤ
root_lookup s name = found_inumber (block_base s 0) s.fs_data.cell (root_entry s name)

-- `add_dir_entry` accepts the name's length.
abbrev pub IsNameable : List ℕ → Type 0
IsNameable name = (0 < length name) × (length name ≤ 39)

-- A name is found at an entry in use that matches it, or not found.
pub data LookupOutcome (s : State) (name : List ℕ) : Option ℕ → Type 0 where
  hit :
      (i k : ℕ)
      → InUse s k
      → entry_matches (block_base s 0) s.fs_data.cell name k ≡ true
      → entry_inumber s k ≡ pos i
      → LookupOutcome s name (some k)
  miss :
      ((k : ℕ)
        → k < max_dir_entries s
        → entry_matches (block_base s 0) s.fs_data.cell name k ≡ false)
      → LookupOutcome s name none

valid_inumber-pos : (s : State) (d : ℤ) → valid_inumber s d ≡ true → d ≡ pos (to_size d)
valid_inumber-pos s (pos i) h = refl
valid_inumber-pos s (negsuc i) h = absurd (cc)

module _ (s : State) (v : IsValid s) where
  pub root_entry-LookupOutcome : (name : List ℕ) → LookupOutcome s name (root_entry s name)
  root_entry-LookupOutcome name = from (root_entry s name) (
      find_entry-IsFirst (block_base s 0) s.fs_data.cell name (max_dir_entries s) 0
        (max_dir_entries s) (omega arith))
    where
      from :
          (r : Option ℕ)
          → IsFirst (entry_matches (block_base s 0) s.fs_data.cell name) 0 (max_dir_entries s) r
          → LookupOutcome s name r
      from none none_matches = miss λ k lt. none_matches k (omega arith) lt
      from (some k) (lo, hi, matches, before) =
          let used : InUse s k = (hi, ground arith) in
          hit (to_size (entry_inumber s k)) k used matches
            (valid_inumber-pos s _ (v.entries k used).inumber_valid)

  has : HasRoot s
  has = IsValid-HasRoot v

  pub find_in_dir-root : (name : List ℕ) → find_in_dir 0 name s ≡ ok (root_lookup s name) s
  unfolding find_in_dir state_block_size
  find_in_dir-root name =
      step _ (load_inode-ok s 0 (root_in_table s has))
        (pass_test s has _ _ (step _ (open_root s has) refl))

  pub add_dir_entry-root :
      (name : List ℕ) (i : ℕ)
      → IsNameable name
      → add_dir_entry 0 name (pos i) s
        ≡ fill_found
            (block_base s 0)
            name
            (pos i)
            s.fs_data.cell
            (find_empty (block_base s 0) (max_dir_entries s) 0 s.fs_data.cell)
            s
  unfolding add_dir_entry state_block_size
  add_dir_entry-root name i n =
      branch (length name == 0 || ltb 39 (length name)) _ _ (λ t. absurd (ground (arith, n)))
        λ t.
          step _ (load_inode-ok s 0 (root_in_table s has))
            (pass_test s has _ _ (step _ (open_root s has) refl))

  pub add_dir_entry-unnameable :
      (name : List ℕ) (i : ℕ)
      → ¬ (IsNameable name)
      → add_dir_entry 0 name (pos i) s ≡ ok minus_one s
  unfolding add_dir_entry
  add_dir_entry-unnameable name i n =
      branch (length name == 0 || ltb 39 (length name)) _ _ (λ t. refl)
        λ t. absurd (n (ground arith, ground arith))

  module _ (k : ℕ) (c : Bytes) (same : SameOutside (block_base s 0) k s.fs_data.cell c) where
    pub others : (l : ℕ) → k ≢ l → entry_inumber (with_bytes c s) l ≡ entry_inumber s l
    others l ne = other_entry (block_base s 0) k l s.fs_data.cell c ne same

    pub still_used : (l : ℕ) → k ≢ l → InUse (with_bytes c s) l → InUse s l
    still_used l ne u = (u.0, rw (← others l ne) u.1)

    still_ok : (l : ℕ) → k ≢ l → EntryOk s l → EntryOk (with_bytes c s) l
    still_ok l ne o = ground (arith, o, others l ne, same (d_name (block_base s 0) l + 39))

    module _
        (alone : (l : ℕ)
          → k ≢ l
          → InUse (with_bytes c s) k
          → InUse s l
          → to_size (entry_inumber (with_bytes c s) k) ≢ to_size (entry_inumber s l)) where
      changed : ℕ → ℤ
      changed = entry_inumber (with_bytes c s)

      new_alone :
          (m : ℕ)
          → k ≢ m
          → InUse (with_bytes c s) k
          → InUse (with_bytes c s) m
          → to_size (changed k) ≢ to_size (changed m)
      unfolding changed
      new_alone m ne a b = rw (others m ne) (alone m ne a (still_used m ne b))

      distinct :
          (l m : ℕ)
          → l ≢ m
          → InUse (with_bytes c s) l
          → InUse (with_bytes c s) m
          → to_size (entry_inumber (with_bytes c s) l) ≢ to_size (entry_inumber (with_bytes c s) m)
      unfolding changed
      distinct l m ne a b = elim (ℕ_discrete k l) [
        | yes e ↦
            subst
              (λ j. j ≢ m → InUse (with_bytes c s) j → to_size (changed j) ≢ to_size (changed m)) e
              (λ k_m k_used. new_alone m k_m k_used b) ne a
        | no k_l ↦ elim (ℕ_discrete k m) [
          | yes e ↦
              subst (λ j. InUse (with_bytes c s) j → to_size (changed l) ≢ to_size (changed j)) e
                (λ k_used same_inumber. new_alone l k_l k_used a (sym same_inumber)) b
          | no k_m ↦
              rw (others l k_l, others m k_m)
                (v.linked_once l m ne (still_used l k_l a) (still_used m k_m b))
        ]
      ]

    -- One entry of the root directory may change, if it leads to nothing or to an inode of its own.
    pub one_entry-IsValid :
        (InUse (with_bytes c s) k → EntryOk (with_bytes c s) k)
        → ((l : ℕ)
            → k ≢ l
            → InUse (with_bytes c s) k
            → InUse s l
            → to_size (entry_inumber (with_bytes c s) k) ≢ to_size (entry_inumber s l))
        → IsValid (with_bytes c s)
    one_entry-IsValid new alone = record {
      fits = ground (arith, v.fits);
      root = ground (arith, v.root);
      inodes = λ i u.
          ground (arith, v.inodes i (record { in_range = u.in_range; is_taken = u.is_taken }));
      apart = λ i j ne a b. v.apart i j ne (used a.0, a.1) (used b.0, b.1);
      handles = λ h o. ground (arith, v.handles h o);
      entries = λ l u. elim (ℕ_discrete k l) [
        | yes e ↦
            subst (EntryOk (with_bytes c s)) e (new (subst (InUse (with_bytes c s)) (sym e) u))
        | no ne ↦ still_ok l ne (v.entries l (still_used l ne u))
      ];
      linked_once = λ l m ne a b. distinct alone l m ne a b;
    }
      where
        used : {i : ℕ} → IsUsed (with_bytes c s) i → IsUsed s i
        used u = record { in_range = u.in_range; is_taken = u.is_taken }

-- A name's lookup gives the first of the entries in use that match it, or no entry does.
abbrev pub Finds : State → List ℕ → Option ℕ → Type 0
Finds s name r =
    (root_entry s name ≡ r)
    × IsFirst (entry_matches (block_base s 0) s.fs_data.cell name) 0 (max_dir_entries s) r

pub root_entry-Finds :
    (s : State) (name : List ℕ) (r : Option ℕ) → root_entry s name ≡ r → Finds s name r
root_entry-Finds s name r e = (
  e,
  subst (IsFirst (entry_matches (block_base s 0) s.fs_data.cell name) 0 (max_dir_entries s)) e (
      find_entry-IsFirst (block_base s 0) s.fs_data.cell name (max_dir_entries s) 0
        (max_dir_entries s) (omega arith)),
)
