-- ===== src/Fs/Directory/Scans.antt =====
-- What the loops over the entries of a directory find: the first entry that passes their test.
use projeto_so.Base.{
  ℕ, zero, suc, ◌+◌, ◌≤◌, ◌<◌, ◌≡◌, inl, inr, Bool, true, false, Bool-cases, ◌&&◌, not, Option,
  none, some, List, arith, is_minus_one, if◌then◌else◌,
}
use projeto_so.Memory.Bytes.{Bytes, read_int, str_eq, strn_eq}
use projeto_so.Fs.Types.{max_file_name}
use projeto_so.Fs.Tables.{d_name, d_inumber}
use projeto_so.Fs.Directory.{find_entry, find_name, find_empty}

-- The result of a scan of the entries from `i` up to `j` for the first that passes a test.
abbrev pub IsFirst : (ℕ → Bool) → ℕ → ℕ → Option ℕ → Type 0
IsFirst test i j none = (l : ℕ) → i ≤ l → l < j → test l ≡ false
IsFirst test i j (some k) =
    (i ≤ k) × (k < j) × (test k ≡ true) × ((l : ℕ) → i ≤ l → l < k → test l ≡ false)

IsFirst-hit : (test : ℕ → Bool) (i j : ℕ) → i < j → test i ≡ true → IsFirst test i j (some i)
IsFirst-hit test i j h t = (omega arith, h, t, λ l p q. absurd (omega arith))

IsFirst-miss :
    (test : ℕ → Bool) (i j : ℕ) (r : Option ℕ)
    → test i ≡ false
    → IsFirst test (i + 1) j r
    → IsFirst test i j r
IsFirst-miss test i j none t f = λ l p q. ground (arith, f l)
IsFirst-miss test i j (some k) t (a, b, c, d) = (omega arith, b, c, λ l p q. ground (arith, d l))

IsFirst-step :
    (test : ℕ → Bool) (i j : ℕ) (r : Option ℕ)
    → i < j
    → IsFirst test (i + 1) j r
    → IsFirst test i j (if test i then some i else r)
IsFirst-step test i j r h f = elim (Bool-cases (test i)) [
  | inl t ↦ rw (t, IsFirst) (IsFirst-hit test i j h t)
  | inr t ↦ rw (t, IsFirst) (IsFirst-miss test i j r t f)
]

module _ (a : ℕ) (b : Bytes) where
  abbrev pub entry_used : ℕ → Bool
  entry_used k = not (is_minus_one (read_int b (d_inumber a k)))

  abbrev pub entry_matches : List ℕ → ℕ → Bool
  entry_matches name k = entry_used k && strn_eq b (d_name a k) name max_file_name

  pub find_entry-IsFirst :
      (name : List ℕ) (n i j : ℕ)
      → i + n ≡ j
      → IsFirst (entry_matches name) i j (find_entry a name n i b)
  unfolding find_entry
  find_entry-IsFirst name zero i j e = λ l p q. absurd (omega arith)
  find_entry-IsFirst name (suc n) i j e =
      IsFirst-step (entry_matches name) i j _ (omega arith)
        (find_entry-IsFirst name n (i + 1) j (omega arith))

  pub find_name-IsFirst :
      (name : List ℕ) (n i j : ℕ)
      → i + n ≡ j
      → IsFirst (λ k. str_eq b (d_name a k) name) i j (find_name a name n i b)
  unfolding find_name
  find_name-IsFirst name zero i j e = λ l p q. absurd (omega arith)
  find_name-IsFirst name (suc n) i j e =
      IsFirst-step (λ k. str_eq b (d_name a k) name) i j _ (omega arith)
        (find_name-IsFirst name n (i + 1) j (omega arith))

  pub find_empty-IsFirst :
      (n i j : ℕ)
      → i + n ≡ j
      → IsFirst (λ k. is_minus_one (read_int b (d_inumber a k))) i j (find_empty a n i b)
  unfolding find_empty
  find_empty-IsFirst zero i j e = λ l p q. absurd (omega arith)
  find_empty-IsFirst (suc n) i j e =
      IsFirst-step (λ k. is_minus_one (read_int b (d_inumber a k))) i j _ (omega arith)
        (find_empty-IsFirst n (i + 1) j (omega arith))
