-- ===== src/Fs/Contents/Opens.antt =====
-- `tfs_open` of a file that is there, and `tfs_close`: no file changes.
use projeto_so.Base.{
  ℕ, ◌≤◌, ◌<◌, ◌≡◌, ◌≢◌, refl, ◌∙◌, sym, true, false, Option, none, some, List, ◌∷◌, arith, length,
  ℤ, pos, Bool-cases, inl, inr,
}
use mathlib.Core.Path.{subst}
use projeto_so.Fs.Types.{State, Run, ok, free, taken, locks, unlocks}
use projeto_so.Fs.Validity.{IsValid, IsOpen, IsUsed, InUse, inode, entry}
use projeto_so.Fs.Locking.{Works, locked, unlocked, with_calls-IsValid}
use projeto_so.Fs.Allocation.{IsFirstFree, taking_handle}
use projeto_so.Fs.Handles.{taking_handle-IsValid}
use projeto_so.Fs.Root.{root_entry, LookupOutcome, hit, miss, root_entry-LookupOutcome}
use projeto_so.Fs.Operations.{Pthread, tfs_open, valid_pathname, skip_slash, has_trunc, has_append}
use projeto_so.Fs.Opening.{
  OpenOutcome, bad_path, missing, no_inode, no_entry, created, existing, FinishOutcome, opened,
  no_handle, initial_offset, truncated,
}
use projeto_so.Fs.Opening.Branches.{tfs_open-OpenOutcome}
use projeto_so.Fs.Contents.{LeadsTo}

-- The state with a new handle for inode `i`.
abbrev pub with_handle : State → ℕ → ℕ → ℕ → State
with_handle s i mode h = unlocked (taking_handle (locked s) h (pos i) (initial_offset s i mode))

first_unique :
    (s : State) (g h : ℕ)
    → IsFirstFree s.free_open_file_entries s.max_open_files_count g
    → IsFirstFree s.free_open_file_entries s.max_open_files_count h
    → g ≡ h
first_unique s g h a b = ground (arith, a.first h, b.first g, a.is_free, b.is_free)

module _ {s : State} (i h mode : ℕ) (keeps : has_trunc mode ≡ false)
    (first : IsFirstFree s.free_open_file_entries s.max_open_files_count h) where
  finished :
      (r : Run ℤ)
      → FinishOutcome (truncated s i mode) i (initial_offset (truncated s i mode) i mode) r
      → r ≡ ok (pos h) (unlocked (taking_handle s h (pos i) (initial_offset s i mode)))
  finished _ (opened g f) =
      rw
        (
          keeps,
          first_unique s g h
              (record { in_range = f.in_range; is_free = f.is_free; first = f.first }) first,
        )
        refl
  finished _ (no_handle all) = absurd (taken_free (all h first.in_range) first.is_free)
    where
      taken_free :
          s.free_open_file_entries.cell h ≡ taken → s.free_open_file_entries.cell h ≡ free → ⊥
      taken_free a b = cc

valid_path : (name : List ℕ) → 0 < length name → valid_pathname (some (b'/' ∷ name)) ≡ true
unfolding valid_pathname
valid_path name lt = ground arith

none_some : {k : ℕ} → ◌≢◌ {A = Option ℕ} none (some k)
none_some e = cc

module _ {s : State} (name : List ℕ) (i h mode : ℕ) (some_name : 0 < length name)
    (leads : LeadsTo s name i) (keeps : has_trunc mode ≡ false)
    (first : IsFirstFree s.free_open_file_entries s.max_open_files_count h) where
  abbrev opened_at : Run ℤ
  opened_at = ok (pos h) (unlocked (taking_handle s h (pos i) (initial_offset s i mode)))

  not_missing : {A : Type 0} → root_entry s name ≡ none → A
  not_missing e = absurd (none_some (sym e ∙ leads.found))

  found_outcome : (r : Run ℤ) → OpenOutcome s (some (b'/' ∷ name)) mode r → r ≡ opened_at
  unfolding skip_slash
  found_outcome _ (bad_path e) = absurd (clash (sym (valid_path name some_name) ∙ e))
    where
      clash : true ≢ false
      clash q = cc
  found_outcome _ (missing e f g) = not_missing f.0
  found_outcome _ (no_inode e f g a) = not_missing f.0
  found_outcome _ (no_entry j e f g a b) = not_missing f.0
  found_outcome _ (created j k e f g a b c d finish) = not_missing f.0
  found_outcome r (existing j k e f used g finish) =
      same_inode j (cc (f.0, leads.found, g, leads.leads)) finish
    where
      same_inode :
          (j : ℕ)
          → j ≡ i
          → FinishOutcome (truncated s j mode) j (initial_offset (truncated s j mode) j mode) r
          → r ≡ opened_at
      same_inode j q =
          subst
            (λ x.
              FinishOutcome (truncated s x mode) x (initial_offset (truncated s x mode) x mode) r
              → r ≡ opened_at)
            (sym q) (finished i h mode keeps first r)

-- A file that is found is opened at the first free handle.
pub tfs_open-found :
    (p : Pthread) {s : State} (name : List ℕ) (i h mode : ℕ)
    → IsValid s
    → Works p s
    → 0 < length name
    → LeadsTo s name i
    → has_trunc mode ≡ false
    → IsFirstFree s.free_open_file_entries s.max_open_files_count h
    → tfs_open p (some (b'/' ∷ name)) mode s ≡ ok (pos h) (with_handle s i mode h)
tfs_open-found p {s} name i h mode v works some_name leads keeps first =
    found_outcome name i h mode some_name
      (record { at = leads.at; found = leads.found; leads = leads.leads }) keeps
      (record { in_range = first.in_range; is_free = first.is_free; first = first.first }) _
      (tfs_open-OpenOutcome p (some (b'/' ∷ name)) mode v works)

offset_within : (s : State) (i mode : ℕ) → initial_offset s i mode ≤ (inode s i).i_size
offset_within s i mode = elim (Bool-cases (has_append mode)) [
  | inl e ↦ rw e (omega arith)
  | inr e ↦ rw e (omega arith)
]

module _ {s : State} (v : IsValid s) (name : List ℕ) (i : ℕ) (leads : LeadsTo s name i) where
  pub in_use : InUse s leads.at
  in_use = go (root_entry s name) (root_entry-LookupOutcome s v name) leads.found
    where
      go : (r : Option ℕ) → LookupOutcome s name r → r ≡ some leads.at → InUse s leads.at
      go _ (hit j k used matches e) q = subst (InUse s) (cc) used
      go _ (miss all) q = absurd (none_some q)

  pub leads-IsUsed : IsUsed s i
  leads-IsUsed = record {
    in_range = ground (arith, (v.entries leads.at in_use).inumber_valid, leads.leads);
    is_taken = ground (arith, (v.entries leads.at in_use).inode_taken, leads.leads);
  }

  pub leads_not_root : 0 < i
  leads_not_root = ground (arith, (v.entries leads.at in_use).not_root, leads.leads)

module _ {s : State} (v : IsValid s) (name : List ℕ) (i h mode : ℕ) (leads : LeadsTo s name i)
    (first : IsFirstFree s.free_open_file_entries s.max_open_files_count h) where
  pub with_handle-IsValid : IsValid (with_handle s i mode h)
  with_handle-IsValid = with_calls-IsValid (unlocks ∷ locks ∷ s.mutex_calls) (
      taking_handle-IsValid (with_calls-IsValid (locks ∷ s.mutex_calls) v) h i
        (initial_offset s i mode)
        (record {
          in_range = (leads-IsUsed v name i leads).in_range;
          is_taken = (leads-IsUsed v name i leads).is_taken;
        })
        (leads_not_root v name i leads) (offset_within s i mode))

  pub with_handle-IsOpen : IsOpen (with_handle s i mode h) h
  with_handle-IsOpen = (first.in_range, ground arith)

  pub entry-with_handle :
      entry (with_handle s i mode h) h
      ≡ record { of_inumber = pos i; of_offset = initial_offset s i mode }
  entry-with_handle = ground arith
