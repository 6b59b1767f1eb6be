-- ===== src/Queue/Ring.antt =====
-- The ring: the elements between the head and the tail, oldest first.
use projeto_so.Base.{
  ℕ, zero, suc, ◌+◌, ◌-◌, ◌%◌, ◌^◌, ◌≤◌, ◌<◌, ◌≡◌, refl, ap, ◌∙◌, ltb, if◌then◌else◌, List, [], ◌∷◌,
  ◌++◌, arith, add_size, length, length-append,
}
use native.Mathlib.Decide.{dec_lt}
use native.Mathlib.Nat.{mod-eq_of_lt, mod-eq-sub-mod}
use projeto_so.Memory.{update}
use projeto_so.Queue.{Elem}

-- The index `k` places behind `h` in a ring of `cap` places.
abbrev pub slot : ℕ → ℕ → ℕ → ℕ
slot cap h k = if ltb (h + k) cap then h + k else h + k - cap

-- The `n` elements from `h` on.
abbrev pub window : ℕ → (ℕ → Elem) → ℕ → ℕ → List Elem
window cap f h zero = []
window cap f h (suc n) = window cap f h n ++ f (slot cap h n) ∷ []

module _ (cap : ℕ) (small : cap < 2 ^ 64) where
  -- `(i + 1) % capacity` is the next place.
  pub next_slot : (i : ℕ) → i < cap → add_size i 1 % cap ≡ slot cap i 1
  next_slot i lt = ap (λ n. n % cap) (mod-eq_of_lt (omega arith)) ∙ elim (dec_lt (i + 1) cap) [
    | yes more ↦ mod-eq_of_lt more ∙ ground arith
    | no last ↦ mod-eq-sub-mod (omega arith) ∙ mod-eq_of_lt (omega arith) ∙ ground arith
  ]

module _ (cap : ℕ) (f : ℕ → Elem) where
  pub window-update :
      (h i n m : ℕ) (x : Elem)
      → h < cap
      → n < cap
      → m ≤ n
      → i ≡ slot cap h n
      → window cap (update f i x) h m ≡ window cap f h m
  window-update h i n zero x lt in_ring le e = refl
  window-update h i n (suc m) x lt in_ring le e =
      rw (window-update h i n m x lt in_ring (omega arith) e)
        (ap (λ y. window cap f h m ++ y ∷ []) (ground arith))

  pub window-pop :
      (h n : ℕ) → h < cap → n < cap → window cap f h (suc n) ≡ f h ∷ window cap f (slot cap h 1) n
  window-pop h zero lt le = ap (λ k. f k ∷ []) (ground arith)
  window-pop h (suc n) lt le =
      rw (window-pop h n lt (omega arith))
        (ap (λ k. f h ∷ (window cap f (slot cap h 1) n ++ f k ∷ [])) (ground arith))

  pub length-window : (h n : ℕ) → length (window cap f h n) ≡ n
  length-window h zero = refl
  length-window h (suc n) =
      omega (arith, length-append (window cap f h n) (f (slot cap h n) ∷ []), length-window h n)
