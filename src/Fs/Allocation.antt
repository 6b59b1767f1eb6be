-- ===== src/Fs/Allocation.antt =====
-- The allocation loops of fs/state.c: the scans for a free entry and their outcomes.
use projeto_so.Base.{
  ℕ, zero, suc, ◌+◌, ◌≤◌, ◌<◌, ◌≡◌, refl, ◌⊎◌, inl, inr, Bool-cases, arith, ltb, ℤ, pos, minus_one,
  ◌^◌, ap, to_int, to_int-pos,
}
use projeto_so.Memory.{Array, store}
use projeto_so.Fs.Types.{State, ◌>>◌, AllocationState, free, taken, ok}
use projeto_so.Fs.Tables.{Scan, found, exhausted, overrun, scan_free, inode_alloc, data_block_alloc}
use projeto_so.Fs.OpenFiles.{add_to_open_file_table, take_entry, set_handle_state}
use projeto_so.Fs.Access.{store_entry-ok}
use projeto_so.Fs.Validity.{Fits}

-- What a scan of the entries from `i` up to `j` says of the array.
abbrev pub Scanned : ℕ → ℕ → Array AllocationState → Scan → Type 0
Scanned i j ts (found k) =
    (i ≤ k) × (k < j) × (ts.cell k ≡ free) × ((l : ℕ) → i ≤ l → l < k → ts.cell l ≡ taken)
Scanned i j ts exhausted = (l : ℕ) → i ≤ l → l < j → ts.cell l ≡ taken
Scanned i j ts overrun = ts.size < j

pub state_cases : (a : AllocationState) → (a ≡ free) ⊎ (a ≡ taken)
state_cases free = inl refl
state_cases taken = inr refl

scan_step :
    (i j : ℕ) (ts : Array AllocationState) (r : Scan)
    → i < j
    → ts.cell i ≡ taken
    → Scanned (i + 1) j ts r
    → Scanned i j ts r
scan_step i j ts (found k) h t (a, b, c, d) = (omega arith, b, c, λ l p q. ground (arith, d l))
scan_step i j ts exhausted h t d = λ l p q. ground (arith, d l)
scan_step i j ts overrun h t d = d

pub scan_free-Scanned :
    (n i j : ℕ) (ts : Array AllocationState) → i + n ≡ j → Scanned i j ts (scan_free n i ts)
unfolding scan_free
scan_free-Scanned zero i j ts e = λ l p q. absurd (omega arith)
scan_free-Scanned (suc n) i j ts e = elim (Bool-cases (ltb i ts.size)) [
  | inr out ↦ rw (out, Scanned, scan_free) (ground arith)
  | inl inside ↦
      rw (inside, Scanned, scan_free)
        (elim (state_cases (ts.cell i)) [
          | inl f ↦ rw (f, Scanned) (omega arith, omega arith, f, λ l p q. absurd (omega arith))
          | inr t ↦
              rw (t, Scanned)
                (scan_step i j ts _ (omega arith) t
                  (scan_free-Scanned n (i + 1) j ts (omega arith)))
        ])
]

-- `b` is the first free one of `n` entries.
pub record IsFirstFree (ts : Array AllocationState) (n b : ℕ) : Type 0 where
  pub in_range : b < n
  pub is_free : ts.cell b ≡ free
  pub first : (l : ℕ) → l < b → ts.cell l ≡ taken

abbrev pub AllTaken : Array AllocationState → ℕ → Type 0
AllTaken ts n = (l : ℕ) → l < n → ts.cell l ≡ taken

abbrev pub taking_block : State → ℕ → State
taking_block s b = record s { free_blocks = store s.free_blocks b taken }

abbrev pub taking_inode : State → ℕ → State
taking_inode s i = record s { freeinode_ts = store s.freeinode_ts i taken }

abbrev pub taking_handle : State → ℕ → ℤ → ℕ → State
taking_handle s h inumber offset = record s {
  free_open_file_entries = store s.free_open_file_entries h taken;
  open_file_table = store s.open_file_table h (record { of_inumber = inumber; of_offset = offset });
}

scan_cases :
    (n : ℕ) (ts : Array AllocationState)
    → n ≤ ts.size
    → ((b : ℕ) × (scan_free n 0 ts ≡ found b) × IsFirstFree ts n b)
      ⊎ ((scan_free n 0 ts ≡ exhausted) × AllTaken ts n)
scan_cases n ts room = from (scan_free n 0 ts) (scan_free-Scanned n 0 n ts (omega arith)) refl
  where
    from :
        (r : Scan)
        → Scanned 0 n ts r
        → scan_free n 0 ts ≡ r
        → ((b : ℕ) × (scan_free n 0 ts ≡ found b) × IsFirstFree ts n b)
          ⊎ ((scan_free n 0 ts ≡ exhausted) × AllTaken ts n)
    from (found b) (lo, hi, fr, before) e =
        inl (b, e, record { in_range = hi; is_free = fr; first = λ l p. before l (omega arith) p })
    from exhausted all e = inr (e, λ l p. all l (omega arith) p)
    from overrun out e = absurd (omega arith)

as_int : (n : ℕ) → n < 2 ^ 31 → (s : State) → ok (to_int n) s ≡ ok (pos n) s
as_int n h s = ap (λ v. ok v s) (to_int-pos n h)

module _ (s : State) (f : Fits s) where
  -- `data_block_alloc` takes the first free block, or returns -1, changes nothing, and no block is
  -- free.
  pub data_block_alloc_cases :
      ((b : ℕ) × (data_block_alloc s ≡ ok (pos b) (taking_block s b))
        × IsFirstFree s.free_blocks s.max_block_count b)
      ⊎ ((data_block_alloc s ≡ ok minus_one s) × AllTaken s.free_blocks s.max_block_count)
  unfolding data_block_alloc
  data_block_alloc_cases = elim (scan_cases s.max_block_count s.free_blocks f.block_room) [
    | inl (b, e, first) ↦
        inl (b, rw (e, data_block_alloc) (as_int b (omega (arith, first.in_range)) _), first)
    | inr (e, all) ↦ inr (rw (e, data_block_alloc), all)
  ]

  -- `inode_alloc` takes the first free inode, or returns -1, changes nothing, and no inode is free.
  pub inode_alloc_cases :
      ((i : ℕ) × (inode_alloc s ≡ ok (pos i) (taking_inode s i))
        × IsFirstFree s.freeinode_ts s.max_inode_count i)
      ⊎ ((inode_alloc s ≡ ok minus_one s) × AllTaken s.freeinode_ts s.max_inode_count)
  unfolding inode_alloc
  inode_alloc_cases = elim (scan_cases s.max_inode_count s.freeinode_ts f.freeinode_room) [
    | inl (i, e, first) ↦
        inl (i, rw (e, inode_alloc) (as_int i (omega (arith, first.in_range)) _), first)
    | inr (e, all) ↦ inr (rw (e, inode_alloc), all)
  ]

  -- `add_to_open_file_table` takes the first free handle for the inode at the offset, or returns
  -- -1, changes nothing, and no handle is free.
  pub add_to_open_file_table_cases :
      (inumber : ℤ) (offset : ℕ)
      → ((h : ℕ) × (add_to_open_file_table inumber offset s
            ≡ ok (pos h) (taking_handle s h inumber offset))
          × IsFirstFree s.free_open_file_entries s.max_open_files_count h)
        ⊎ ((add_to_open_file_table inumber offset s ≡ ok minus_one s)
            × AllTaken s.free_open_file_entries s.max_open_files_count)
  unfolding add_to_open_file_table take_entry set_handle_state
  add_to_open_file_table_cases inumber offset =
      elim (scan_cases s.max_open_files_count s.free_open_file_entries f.handle_room) [
        | inl (h, e, first) ↦ inl (
          h,
          rw (e, add_to_open_file_table)
              (rw
                (
                  store_entry-ok
                      (record s { free_open_file_entries = store s.free_open_file_entries h taken })
                      h _ (omega (arith, first.in_range, f.open_room)),
                  ◌>>◌,
                )
                (as_int h (omega (arith, first.in_range)) _)),
          first,
        )
        | inr (e, all) ↦ inr (rw (e, add_to_open_file_table), all)
      ]
