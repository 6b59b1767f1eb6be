-- ===== src/Fs/Directory/Entries.antt =====
-- The bytes of a directory after an entry was filled or cleared.
use projeto_so.Base.{
  ℕ, ◌+◌, ◌^◌, ◌≤◌, ◌<◌, ◌≡◌, ◌≢◌, ◌∙◌, ◌⊎◌, inl, inr, List, [], ◌∷◌, arith, ℤ, pos, minus_one,
  length, get_or-outside, sym,
}
use native.Mathlib.Decide.{dec_lt}
use projeto_so.Memory.Bytes.{
  Bytes, read_int, write_int, memcpy, strncpy, strncpy_bytes, clear_bytes,
}
use projeto_so.Memory.Frame.{memcpy-outside, read_int-cong}
use projeto_so.Memory.Ints.{
  read_int-write_int, read_int-write_minus_one, write_int-outside, length-strncpy_bytes,
  strncpy-outside, clear_bytes-outside, Spells, memcpy-at, Spells-of_bytes, get_or-strncpy_bytes,
}
use projeto_so.Fs.Tables.{d_name, d_inumber}
use projeto_so.Fs.Directory.{fill_entry, clear_entry}

-- The memory agrees with another outside the 44 bytes of entry `k`.
abbrev pub SameOutside : ℕ → ℕ → Bytes → Bytes → Type 0
SameOutside a k b c = (x : ℕ) → (x < d_name a k) ⊎ (d_name a k + 44 ≤ x) → c x ≡ b x

module _ (a : ℕ) (name : List ℕ) (n k : ℕ) (b : Bytes) where
  pub fill_entry-outside : (v : ℤ) → SameOutside a k b (fill_entry a name v k b)
  unfolding fill_entry memcpy
  fill_entry-outside v x h = ground (
    arith,
    write_int-outside b (d_inumber a k) v x,
    strncpy-outside (write_int b (d_inumber a k) v) (d_name a k) name 39 x,
  )

  pub fill_entry-inumber :
      n < 2 ^ 31 → read_int (fill_entry a name (pos n) k b) (d_inumber a k) ≡ pos n
  unfolding fill_entry memcpy
  fill_entry-inumber h =
      read_int-cong _ (write_int b (d_inumber a k) (pos n)) (d_inumber a k) (λ x lo hi.
        ground
          (arith, strncpy-outside (write_int b (d_inumber a k) (pos n)) (d_name a k) name 39 x))
      ∙ read_int-write_int b (d_inumber a k) n h

  pub fill_entry-ends : (v : ℤ) → fill_entry a name v k b (d_name a k + 39) ≡ 0
  unfolding fill_entry memcpy
  fill_entry-ends v = ground arith

  pub clear_entry-outside : SameOutside a k b (clear_entry a k b)
  unfolding clear_entry
  clear_entry-outside x h = ground (
    arith,
    write_int-outside b (d_inumber a k) minus_one x,
    clear_bytes-outside (write_int b (d_inumber a k) minus_one) (d_name a k) 40 x,
  )

  pub clear_entry-inumber : read_int (clear_entry a k b) (d_inumber a k) ≡ minus_one
  unfolding clear_entry
  clear_entry-inumber =
      read_int-cong _ (write_int b (d_inumber a k) minus_one) (d_inumber a k) (λ x lo hi.
        clear_bytes-outside (write_int b (d_inumber a k) minus_one) (d_name a k) 40 x (inr lo))
      ∙ read_int-write_minus_one b (d_inumber a k)

  pub clear_entry-name : clear_entry a k b (d_name a k) ≡ 0
  unfolding clear_entry clear_bytes
  clear_entry-name = ground arith

  pub clear_entry-zeros : (x : ℕ) → x < 40 → clear_entry a k b (d_name a k + x) ≡ 0
  unfolding clear_entry clear_bytes
  clear_entry-zeros x lt = ground (arith, lt)

-- The other entries are as they were.
pub other_entry :
    (a k l : ℕ) (b c : Bytes)
    → k ≢ l
    → SameOutside a k b c
    → read_int c (d_inumber a l) ≡ read_int b (d_inumber a l)
other_entry a k l b c ne same = read_int-cong c b (d_inumber a l) λ x lo hi.
    same x (elim (dec_lt l k) [ yes before ↦ inl (omega arith) | no behind ↦ inr (omega arith) ])

-- The name that was stored compares equal to itself.
pub fill_entry-Spells :
    (a k : ℕ) (name : List ℕ) (v : ℤ) (b : Bytes)
    → length name ≤ 39
    → Spells (fill_entry a name v k b) (d_name a k) name
unfolding fill_entry strncpy
fill_entry-Spells a k name v b h = Spells-of_bytes _ (d_name a k) name λ j x e le.
    elim (dec_lt j 39) [
      | yes within ↦
          memcpy-outside _ (d_name a k + 39) (0 ∷ []) x (inl (omega arith))
          ∙ memcpy-at (write_int b (d_inumber a k) v) (d_name a k) j x (strncpy_bytes name 39) e
              (omega (arith, length-strncpy_bytes name 39))
          ∙ get_or-strncpy_bytes name 39 j within
      | no last ↦
          memcpy-at _ (d_name a k + 39) 0 x (0 ∷ []) (omega arith) (omega arith)
          ∙ sym (get_or-outside name j 0 (omega arith))
    ]
