-- ===== src/Memory/Segments.antt =====
-- Stretches of bytes: how they are cut, and what a copy into the middle of one leaves.
use projeto_so.Base.{
  ℕ, zero, suc, ◌+◌, ◌-◌, ◌≤◌, ◌≡◌, refl, sym, ap, ◌∙◌, inl, inr, List, [], ◌∷◌, ◌++◌, arith,
  length, take, drop,
}
use mathlib.Core.List.{append-nil}
use mathlib.Core.Path.{ap₂}
use projeto_so.Memory.Bytes.{Bytes, memcpy, read_bytes}
use projeto_so.Memory.Frame.{memcpy-outside, read_bytes-cong, read_bytes-memcpy}

-- The bytes of `c` with those from `o` on replaced by `src`, which may go beyond the end.
abbrev pub overwrite : List ℕ → ℕ → List ℕ → List ℕ
overwrite c o src = take o c ++ (src ++ drop (o + length src) c)

pub length-read_bytes : (b : Bytes) (a n : ℕ) → length (read_bytes b a n) ≡ n
unfolding read_bytes
length-read_bytes b a zero = refl
length-read_bytes b a (suc n) = ap suc (length-read_bytes b (a + 1) n)

pub read_bytes-append :
    (b : Bytes) (a m n : ℕ) → read_bytes b a (m + n) ≡ read_bytes b a m ++ read_bytes b (a + m) n
unfolding read_bytes
read_bytes-append b a zero n = ap₂ (read_bytes b) (omega arith) (omega arith)
read_bytes-append b a (suc m) n =
    ap (read_bytes b a) suc_out
    ∙ ap (◌∷◌ (b a)) (
        read_bytes-append b (a + 1) m n
        ∙ ap (λ x. read_bytes b (a + 1) m ++ read_bytes b x n) (omega arith))
  where
    suc_out : suc m + n ≡ suc (m + n)
    suc_out = omega arith

pub take-read_bytes : (b : Bytes) (a o n : ℕ) → o ≤ n → take o (read_bytes b a n) ≡ read_bytes b a o
unfolding read_bytes
take-read_bytes b a zero n le = refl
take-read_bytes b a (suc o) zero le = absurd (omega arith)
take-read_bytes b a (suc o) (suc n) le =
    ap (◌∷◌ (b a)) (take-read_bytes b (a + 1) o n (omega arith))

pub drop-read_bytes :
    (b : Bytes) (a k n : ℕ) → drop k (read_bytes b a n) ≡ read_bytes b (a + k) (n - k)
unfolding read_bytes
drop-read_bytes b a zero n = ap₂ (read_bytes b) (omega arith) (omega arith)
drop-read_bytes b a (suc k) zero = ap (read_bytes b (a + suc k)) none_left
  where
    none_left : 0 ≡ 0 - suc k
    none_left = omega arith
drop-read_bytes b a (suc k) (suc n) =
    drop-read_bytes b (a + 1) k n ∙ ap₂ (read_bytes b) (omega arith) (omega arith)

-- The bytes after `src` was copied to offset `o` of a stretch of `n` bytes, which it may lengthen.
pub read_bytes-overwrite :
    (b : Bytes) (a o n size : ℕ) (src : List ℕ)
    → o ≤ n
    → size ≡ o + length src + (n - (o + length src))
    → read_bytes (memcpy b (a + o) src) a size ≡ overwrite (read_bytes b a n) o src
read_bytes-overwrite b a o n size src le e =
    ap (read_bytes after a) e'
    ∙ read_bytes-append after a o (length src + tail)
    ∙ ap₂ ◌++◌ front (
        read_bytes-append after (a + o) (length src) tail
        ∙ ap₂ ◌++◌ (read_bytes-memcpy b (a + o) src) back)
  where
    after : Bytes
    after = memcpy b (a + o) src

    tail : ℕ
    tail = n - (o + length src)

    e' : size ≡ o + (length src + tail)
    e' = omega arith

    front : read_bytes after a o ≡ take o (read_bytes b a n)
    front =
        read_bytes-cong after b a o (λ x lo hi. memcpy-outside b (a + o) src x (inl (omega arith)))
        ∙ sym (take-read_bytes b a o n le)

    back : read_bytes after (a + o + length src) tail ≡ drop (o + length src) (read_bytes b a n)
    back =
        read_bytes-cong after b (a + o + length src) tail
          (λ x lo hi. memcpy-outside b (a + o) src x (inr (omega arith)))
        ∙ ap (λ x. read_bytes b x tail) (omega arith)
        ∙ sym (drop-read_bytes b a (o + length src) n)

take-drop {ℓ} : {A : Type ℓ} (o : ℕ) (c : List A) → take o c ++ drop o c ≡ c
take-drop zero c = refl
take-drop (suc o) [] = refl
take-drop (suc o) (x ∷ c) = ap (◌∷◌ x) (take-drop o c)

pub overwrite-nil : (c : List ℕ) (o : ℕ) → overwrite c o [] ≡ c
overwrite-nil c o = ap (λ k. take o c ++ drop k c) (omega arith) ∙ take-drop o c

pub take_all : (c : List ℕ) → take (length c) c ≡ c
take_all [] = refl
take_all (x ∷ c) = ap (◌∷◌ x) (take_all c)

drop_all : (c : List ℕ) (k : ℕ) → length c ≤ k → drop k c ≡ []
drop_all [] zero le = refl
drop_all [] (suc k) le = refl
drop_all (x ∷ c) zero le = absurd (omega arith)
drop_all (x ∷ c) (suc k) le = drop_all c k (omega arith)

-- A write at the end appends.
pub overwrite_end : (c src : List ℕ) → overwrite c (length c) src ≡ c ++ src
overwrite_end c src =
    ap₂ ◌++◌ (take_all c)
      (ap (λ r. src ++ r) (drop_all c (length c + length src) (omega arith)) ∙ append-nil src)
