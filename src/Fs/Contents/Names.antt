-- ===== src/Fs/Contents/Names.antt =====
-- A lookup depends on the bytes of the root directory's block only.
use projeto_so.Base.{
  ℕ, zero, suc, ◌+◌, ◌*◌, ◌≤◌, ◌<◌, ◌≡◌, refl, ap, ◌&&◌, List, [], ◌∷◌, arith, ◌==◌,
}
use mathlib.Core.Path.{ap₂}
use projeto_so.Memory.Bytes.{Bytes, strn_eq, read_int}
use projeto_so.Memory.Frame.{read_int-cong}
use projeto_so.Fs.Types.{max_file_name}
use projeto_so.Fs.Tables.{d_name, d_inumber}
use projeto_so.Fs.Directory.{find_entry}

pub strn_eq-cong :
    (b c : Bytes) (a : ℕ) (s : List ℕ) (n : ℕ)
    → ((x : ℕ) → a ≤ x → x < a + n → b x ≡ c x)
    → strn_eq b a s n ≡ strn_eq c a s n
unfolding strn_eq
strn_eq-cong b c a s zero same = refl
strn_eq-cong b c a [] (suc n) same = ap (λ v. v == 0) (same a (omega arith) (omega arith))
strn_eq-cong b c a (d ∷ s) (suc n) same =
    ap₂ (λ v r. v == d && r) (same a (omega arith) (omega arith))
      (strn_eq-cong b c (a + 1) s n λ x lo hi. same x (omega arith) (omega arith))

-- `n` entries from the `i`-th on, in a block at `a`.
pub find_entry-cong :
    (b c : Bytes) (a : ℕ) (name : List ℕ) (n i : ℕ)
    → ((x : ℕ) → a ≤ x → x < a + 44 * (i + n) → b x ≡ c x)
    → find_entry a name n i b ≡ find_entry a name n i c
unfolding find_entry
find_entry-cong b c a name zero i same = refl
find_entry-cong b c a name (suc n) i same =
    rw (number, text, find_entry-cong b c a name n (i + 1) λ x lo hi. same x lo (omega arith)) refl
  where
    number : read_int b (d_inumber a i) ≡ read_int c (d_inumber a i)
    number = read_int-cong b c (d_inumber a i) λ x lo hi. same x (omega arith) (omega arith)

    text : strn_eq b (d_name a i) name max_file_name ≡ strn_eq c (d_name a i) name max_file_name
    text =
        strn_eq-cong b c (d_name a i) name max_file_name
          λ x lo hi. same x (omega arith) (omega arith)
