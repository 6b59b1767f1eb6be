-- ===== src/Fs/Unlinking.antt =====
-- `tfs_unlink` on a valid file system: its outcomes, and the file systems that it keeps valid.
use projeto_so.Base.{
  ℕ, zero, suc, ◌+◌, ◌≤◌, ◌<◌, ◌≡◌, ◌≢◌, refl, sym, ap, ◌∙◌, true, false, Bool-cases, inl, inr,
  Option, some, none, List, [], ◌∷◌, arith, ℤ, pos, minus_one, is_minus_one, lt→ltb, if◌then◌else◌,
  length,
}
use mathlib.Core.Path.{subst}
use projeto_so.Memory.Bytes.{Bytes, read_int, str_eq}
use projeto_so.Memory.Ints.{IsText, str_eq-eq-strn_eq}
use projeto_so.Fs.Types.{State, Run, M, ok, Ends, to_size, max_dir_entries, ◌>>=◌, ◌>>◌}
use projeto_so.Fs.Tables.{d_name, d_inumber, inode_delete, store_bytes}
use projeto_so.Fs.Directory.{find_name, find_entry, found_inumber, clear_dir_entry, clear_found}
use projeto_so.Fs.Validity.{IsValid, IsUsed, IsOpen, InUse, block_base, entry_inumber}
use projeto_so.Fs.Access.{inode_get-ok, step}
use projeto_so.Fs.Locking.{
  Works, locked, unlocked, with_lock-ok, unlock_return-ok, with_calls-IsValid,
}
use projeto_so.Fs.Inodes.{deleted, inode_delete-ok, deleted-IsValid}
use projeto_so.Fs.Reading.{target}
use projeto_so.Fs.RootBlock.{HasRoot, IsValid-HasRoot, clear_dir_entry-root}
use projeto_so.Fs.Root.{
  root_entry, Finds, root_entry-Finds, root_lookup, find_in_dir-root, root_entry-LookupOutcome,
  LookupOutcome, hit, miss,
}
use projeto_so.Fs.Root.Entry.{
  IsCleared, cleared-IsCleared, cleared, cleared-IsValid, cleared_unlinked,
}
use projeto_so.Fs.Operations.{
  Pthread, unlock_return, tfs_lookup, tfs_unlink, valid_pathname, skip_slash,
}

-- An empty entry of the root directory has an empty name.
abbrev pub NamesCleared : State → Type 0
NamesCleared s =
    (k : ℕ)
    → k < max_dir_entries s
    → is_minus_one (entry_inumber s k) ≡ true
    → s.fs_data.cell (d_name (block_base s 0) k) ≡ 0

-- A C string of at most 39 bytes, which may be empty.
abbrev pub IsShortText : List ℕ → Type 0
IsShortText name = IsText name × (length name ≤ 39)

pub data UnlinkOutcome (s : State) (path : Option (List ℕ)) : Run ℤ → Type 0 where
  bad_path : valid_pathname path ≡ false → UnlinkOutcome s path (ok minus_one (unlocked s))
  missing :
      valid_pathname path ≡ true
      → Finds s (skip_slash path) none
      → UnlinkOutcome s path (ok minus_one (unlocked s))
  unlinked :
      (i k : ℕ)
      → valid_pathname path ≡ true
      → Finds s (skip_slash path) (some k)
      → InUse s k
      → entry_inumber s k ≡ pos i
      → IsCleared (block_base s 0) k s.fs_data.cell (cleared (deleted s i) k).fs_data.cell
      → UnlinkOutcome s path (ok (pos 0) (unlocked (cleared (deleted s i) k)))

-- The name in a valid path is not empty.
valid_pathname-named :
    (path : Option (List ℕ)) → valid_pathname path ≡ true → 0 < length (skip_slash path)
unfolding valid_pathname skip_slash
valid_pathname-named none valid = absurd (cc)
valid_pathname-named (some []) valid = absurd (cc)
valid_pathname-named (some (c ∷ name)) valid = ground arith

unnamed :
    (b : Bytes) (a : ℕ) (name : List ℕ)
    → IsShortText name
    → 0 < length name
    → b a ≡ 0
    → str_eq b a name ≡ false
unfolding str_eq
unnamed b a [] t some_name e = absurd (omega arith)
unnamed b a (c ∷ name) t some_name e = ground (arith, t.0.0)

-- `strcmp` on all entries finds what `strncmp` finds on the entries in use.
find_name-eq-find_entry :
    (a : ℕ) (name : List ℕ) (n i : ℕ) (b : Bytes)
    → IsShortText name
    → 0 < length name
    → ((k : ℕ)
        → i ≤ k
        → k < i + n
        → is_minus_one (read_int b (d_inumber a k)) ≡ true
        → b (d_name a k) ≡ 0)
    → find_name a name n i b ≡ find_entry a name n i b
unfolding find_name find_entry
find_name-eq-find_entry a name zero i b t some_name empty = refl
find_name-eq-find_entry a name (suc n) i b t some_name empty =
    let rest =
      find_name-eq-find_entry a name n (i + 1) b t some_name
        λ k le lt. empty k (omega arith) (omega arith) in
    elim (Bool-cases (is_minus_one (read_int b (d_inumber a i)))) [
      | inl e ↦
          rw (e, unnamed b (d_name a i) name t some_name (empty i (omega arith) (omega arith) e))
            rest
      | inr e ↦ rw (e, str_eq-eq-strn_eq b (d_name a i) name 40 (omega (arith, t.1)), rest) refl
    ]

module _ (p : Pthread) (s : State) (works : is_minus_one (p.unlock s.mutex_calls) ≡ false)
    (v : IsValid s) (path : Option (List ℕ)) (names : NamesCleared s)
    (text : IsShortText (skip_slash path)) where
  abbrev name : List ℕ
  name = skip_slash path

  from_delete : ℤ → M ℤ
  from_delete inum = do
    inode_delete inum
    rc ← clear_dir_entry 0 name
    unlock_return p (if is_minus_one rc then minus_one else pos 0)

  deleted-HasRoot : (i : ℕ) → 0 < i → HasRoot (deleted s i)
  deleted-HasRoot i root =
      let r = IsValid-HasRoot v in
      record { fits = ground (arith, r.fits); root = ground (arith, r.root, root); block = r.block }

  module _ (valid : valid_pathname path ≡ true) (i k : ℕ) (found : root_entry s name ≡ some k)
      (used : InUse s k) (e : entry_inumber s k ≡ pos i) where
    in_use : IsUsed s i
    in_use = record {
      in_range = ground (arith, (v.entries k used).inumber_valid, e);
      is_taken = ground (arith, (v.entries k used).inode_taken, e);
    }

    not_root : 0 < i
    not_root = ground (arith, (v.entries k used).not_root, e)

    cleared_entry : clear_dir_entry 0 name (deleted s i) ≡ ok (pos 0) (cleared (deleted s i) k)
    unfolding clear_found store_bytes
    cleared_entry =
        clear_dir_entry-root (deleted s i) (deleted-HasRoot i not_root) name
        ∙ rw
            (
              find_name-eq-find_entry (block_base s 0) name (max_dir_entries s) 0 s.fs_data.cell
                  text (valid_pathname-named path valid) (λ l le lt. names l (omega (arith, lt))),
              found,
              clear_found,
            )
            refl

    from_delete-ok : from_delete (pos i) s ≡ ok (pos 0) (unlocked (cleared (deleted s i) k))
    unfolding from_delete
    from_delete-ok =
        step _
          (inode_delete-ok s (pos i) v.fits (lt→ltb i s.max_inode_count in_use.in_range) in_use
            (v.inodes i in_use))
          (step _ cleared_entry (unlock_return-ok p (cleared (deleted s i) k) (pos 0) works))

  unlink_found : M ℤ
  unlink_found = do
    inum ← tfs_lookup path 0
    if is_minus_one inum then unlock_return p minus_one else from_delete inum

  looked_up :
      (d : ℤ) → valid_pathname path ≡ true → root_lookup s name ≡ d → tfs_lookup path 0 s ≡ ok d s
  unfolding tfs_lookup
  looked_up d valid e = rw valid (find_in_dir-root s v name ∙ ap (λ c. ok c s) e)

  found-UnlinkOutcome : valid_pathname path ≡ true → UnlinkOutcome s path (unlink_found s)
  unfolding unlink_found found_inumber
  found-UnlinkOutcome valid = from (root_entry s name) (root_entry-LookupOutcome s v name) refl
    where
      from :
          (r : Option ℕ)
          → LookupOutcome s name r
          → root_entry s name ≡ r
          → UnlinkOutcome s path (unlink_found s)
      from _ (hit i k used matches e) found =
          subst (UnlinkOutcome s path)
            (sym (
              step _ (looked_up (pos i) valid (rw (found, found_inumber) e))
                (from_delete-ok valid i k found used e)))
            (unlinked i k valid (root_entry-Finds s _ (some k) found) used e
              (cleared-IsCleared (deleted s i) k))
      from _ (miss no_match) found =
          subst (UnlinkOutcome s path)
            (sym (
              step _ (looked_up minus_one valid (rw (found, found_inumber) refl))
                (unlock_return-ok p s minus_one works)))
            (missing valid (root_entry-Finds s _ none found))

-- `tfs_unlink` by cases, for a name (what follows the path's first byte, possibly nothing) of at
-- most 39 bytes without a NUL, a valid file system whose directory's empty entries have an empty
-- name, and a mutex that works. For an invalid path (NULL and an empty name among them) or a name
-- that is not in the directory it returns -1 and changes nothing. Otherwise it returns 0, has
-- deleted the inode that the first entry with the name held, and that entry is now empty: its
-- inumber is -1, the 40 bytes of its name are 0, and all other bytes are as they were. The mutex
-- is released in each case.
pub tfs_unlink-UnlinkOutcome :
    (p : Pthread) {s : State} (path : Option (List ℕ))
    → IsValid s
    → Works p s
    → NamesCleared s
    → IsShortText (skip_slash path)
    → UnlinkOutcome (locked s) path (tfs_unlink p path s)
unfolding tfs_unlink unlink_found from_delete
tfs_unlink-UnlinkOutcome p {s} path v works names text =
    subst (UnlinkOutcome (locked s) path) (sym (with_lock-ok p s _ _ works.lock))
      (elim (Bool-cases (valid_pathname path)) [
        | inl valid ↦ rw valid (
            subst (UnlinkOutcome (locked s) path)
              (sym
                (step _ (inode_get-ok (locked s) (pos 0) (lt→ltb 0 _ v.root.used.in_range)) refl))
              (found-UnlinkOutcome p (locked s) works.unlock (with_calls-IsValid _ v) path names
                text valid))
        | inr bad ↦ rw bad (
            subst (UnlinkOutcome (locked s) path)
              (sym (unlock_return-ok p (locked s) minus_one works.unlock)) (bad_path bad))
      ])

-- No open handle leads to the inode that the path names.
abbrev pub NotOpen : State → Option (List ℕ) → Type 0
NotOpen s path =
    (i k h : ℕ)
    → root_entry s (skip_slash path) ≡ some k
    → entry_inumber s k ≡ pos i
    → IsOpen s h
    → target s h ≢ i

UnlinkOutcome-IsValid :
    {s : State} (path : Option (List ℕ)) (r : Run ℤ)
    → IsValid s
    → NotOpen s path
    → UnlinkOutcome s path r
    → Ends (λ _ t. IsValid t) r
UnlinkOutcome-IsValid path _ v closed (bad_path e) = with_calls-IsValid _ v
UnlinkOutcome-IsValid path _ v closed (missing valid e) = with_calls-IsValid _ v
UnlinkOutcome-IsValid {s} path _ v closed (unlinked i k valid found used e wiped) =
    with_calls-IsValid _ (
      deleted-IsValid (cleared-IsValid v k) i (ground (arith, (v.entries k used).not_root, e))
        (record {
          in_range = ground (arith, (v.entries k used).inumber_valid, e);
          is_taken = ground (arith, (v.entries k used).inode_taken, e);
        })
        (record {
          no_handle = λ h o. closed i k h found.0 e o;
          no_entry = λ l u same. cleared_unlinked v k used l u (same ∙ sym (ap to_size e));
        }))

-- `tfs_unlink`, for a name (possibly empty) of at most 39 bytes without a NUL, a directory whose
-- empty entries have an empty name, a file that no handle is open on, and a mutex that works,
-- neither panics nor accesses memory out of bounds, and keeps the file system valid.
pub tfs_unlink-IsValid :
    (p : Pthread) {s : State} (path : Option (List ℕ))
    → IsValid s
    → Works p s
    → NamesCleared s
    → IsShortText (skip_slash path)
    → NotOpen s path
    → Ends (λ _ t. IsValid t) (tfs_unlink p path s)
tfs_unlink-IsValid p path v works names text closed =
    UnlinkOutcome-IsValid path _ (with_calls-IsValid _ v) closed
      (tfs_unlink-UnlinkOutcome p path v works names text)
