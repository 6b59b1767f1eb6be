-- ===== src/Fs/Starting/Emptying.antt =====
-- The loops of `state_init` and `inode_create` that empty the tables and the root directory.
use projeto_so.Base.{ℕ, zero, suc, ◌+◌, ◌≤◌, ◌<◌, ◌≡◌, refl, ◌∙◌, inl, arith, minus_one}
use mathlib.Core.Path.{subst}
use native.Mathlib.Decide.{ℕ_discrete}
use projeto_so.Memory.{update}
use projeto_so.Memory.Bytes.{Bytes, read_int, write_int}
use projeto_so.Memory.Frame.{read_int-cong}
use projeto_so.Memory.Ints.{read_int-write_minus_one, write_int-outside}
use projeto_so.Fs.Types.{AllocationState, free}
use projeto_so.Fs.Tables.{d_inumber, empty_entries}
use projeto_so.Fs.Init.{free_all}

free_all-before : (n i : ℕ) (f : ℕ → AllocationState) (j : ℕ) → j < i → free_all n i f j ≡ f j
unfolding free_all
free_all-before zero i f j lt = refl
free_all-before (suc n) i f j lt = ground (arith, free_all-before n (i + 1) (update f i free) j)

pub free_all-free :
    (n i : ℕ) (f : ℕ → AllocationState) (j : ℕ) → i ≤ j → j < i + n → free_all n i f j ≡ free
unfolding free_all
free_all-free zero i f j le lt = absurd (omega arith)
free_all-free (suc n) i f j le lt = ground (
  arith,
  free_all-before n (i + 1) (update f i free) j,
  free_all-free n (i + 1) (update f i free) j,
)

module _ (a : ℕ) where
  empty_entries-before :
      (n i : ℕ) (b : Bytes) (x : ℕ) → x < d_inumber a i → empty_entries a n i b x ≡ b x
  unfolding empty_entries
  empty_entries-before zero i b x lt = refl
  empty_entries-before (suc n) i b x lt =
      empty_entries-before n (i + 1) (write_int b (d_inumber a i) minus_one) x (omega arith)
      ∙ write_int-outside b (d_inumber a i) minus_one x (inl lt)

  pub empty_entries-inumber :
      (n i : ℕ) (b : Bytes) (k : ℕ)
      → i ≤ k
      → k < i + n
      → read_int (empty_entries a n i b) (d_inumber a k) ≡ minus_one
  unfolding empty_entries
  empty_entries-inumber zero i b k le lt = absurd (omega arith)
  empty_entries-inumber (suc n) i b k le lt = elim (ℕ_discrete i k) [
    | yes e ↦
        subst
          (λ j.
            read_int (empty_entries a n (i + 1) (write_int b (d_inumber a i) minus_one))
              (d_inumber a j)
            ≡ minus_one)
          e
          (read_int-cong _ (write_int b (d_inumber a i) minus_one) (d_inumber a i) (λ x lo hi.
              empty_entries-before n (i + 1) (write_int b (d_inumber a i) minus_one) x
                (omega arith))
            ∙ read_int-write_minus_one b (d_inumber a i))
    | no ne ↦
        empty_entries-inumber n (i + 1) (write_int b (d_inumber a i) minus_one) k (omega arith)
          (omega arith)
  ]
