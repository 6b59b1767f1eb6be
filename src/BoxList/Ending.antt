-- ===== src/BoxList/Ending.antt =====
-- `list_print` and `list_destroy`: the loops over all nodes of a list.
use projeto_so.Base.{
  ℕ, zero, suc, ◌<◌, ◌≡◌, refl, sym, ◌∙◌, none, List, [], ◌∷◌, ◌++◌, codes, arith, length,
}
use mathlib.Core.Path.{subst}
use projeto_so.BoxList.{
  TfsFile, Ptr, null, Nodes, BoxList, done, put, print_line, print_from, list_print, destroy_from,
  list_destroy,
}
use projeto_so.BoxList.Chains.{
  Cells, Chain, Fresh, Apart, Ends, Ends-map, files, step, load-done, put-same, put-other,
  put-Chain, differ,
}
use projeto_so.BoxList.Removing.{free-done}

-- A line for each file: its name, its size, its publishers and its subscribers.
abbrev pub lines_of : (ℕ → List ℕ) → List TfsFile → List (List ℕ)
lines_of decimal [] = []
lines_of decimal (f ∷ fs) =
    (f.box_name
      ++ codes " "
      ++ decimal f.box_size
      ++ codes " "
      ++ decimal f.n_publishers
      ++ codes " "
      ++ decimal f.n_subscribers
      ++ codes "\n")
    ∷ lines_of decimal fs

printed :
    (decimal : ℕ → List ℕ) (k : ℕ) (m : Nodes) (p : Ptr) (cells : Cells)
    → Chain m p cells
    → length cells < k
    → print_from decimal k p m ≡ done (lines_of decimal (files cells)) m
unfolding print_from print_line
printed decimal zero m p cells chain le = absurd (omega arith)
printed decimal (suc k) m p [] chain le = rw (chain, print_from) refl
printed decimal (suc k) m p ((a, f) ∷ cells) (n, here, ne, holds, rest) le =
    rw (here, print_from, differ a null ne)
      (step _ (load-done m a ne holds)
        (step _ (printed decimal k m n cells rest (omega arith)) refl))

-- What is left of the memory after the nodes of a list were freed.
abbrev pub Freed : Nodes → Cells → Nodes → Type 0
Freed m [] m' = (x : Ptr) → m' x ≡ m x
Freed m ((a, f) ∷ cells) m' = Freed (put m a none) cells m'

destroyed :
    (k : ℕ) (m : Nodes) (p : Ptr) (cells : Cells)
    → Chain m p cells
    → Apart cells
    → length cells < k
    → Ends (λ _ m'. Freed m cells m') (destroy_from k p m)
unfolding destroy_from
destroyed zero m p cells chain apart le = absurd (omega arith)
destroyed (suc k) m p [] chain apart le = rw (chain, destroy_from) (λ x. refl)
destroyed (suc k) m p ((a, f) ∷ cells) (n, here, ne, holds, rest) apart le =
    subst (Ends λ _ m'. Freed (put m a none) cells m') (sym run) (
      destroyed k (put m a none) n cells (put-Chain m a none n cells apart.0 rest) apart.1
        (omega arith))
  where
    run : destroy_from (suc k) p m ≡ destroy_from k n (put m a none)
    run =
        rw (here, destroy_from, differ a null ne)
          (step _ (load-done m a ne holds) (step _ (free-done m a ne holds) refl))

Freed-kept :
    (m m' : Nodes) (cells : Cells) → Freed m cells m' → (x : Ptr) → Fresh x cells → m' x ≡ m x
Freed-kept m m' [] freed x away = freed x
Freed-kept m m' ((a, f) ∷ cells) freed x away =
    Freed-kept (put m a none) m' cells freed x away.1 ∙ put-other m a x none (λ e. away.0 (sym e))

put-none : (m : Nodes) (a x : Ptr) → m x ≡ none → put m a none x ≡ none
unfolding put
put-none m a x e = ground arith

Freed-gone :
    (m m' : Nodes) (cells : Cells) → Freed m cells m' → (x : Ptr) → m x ≡ none → m' x ≡ none
Freed-gone m m' [] freed x e = freed x ∙ e
Freed-gone m m' ((a, f) ∷ cells) freed x e =
    Freed-gone (put m a none) m' cells freed x (put-none m a x e)

-- All of the list's nodes are free.
abbrev pub AllFree : Nodes → Cells → Type 0
AllFree m [] = Unit {0}
AllFree m ((a, f) ∷ cells) = (m a ≡ none) × AllFree m cells

Freed-AllFree : (m m' : Nodes) (cells : Cells) → Freed m cells m' → AllFree m' cells
Freed-AllFree m m' [] freed = tt
Freed-AllFree m m' ((a, f) ∷ cells) freed = (
  Freed-gone (put m a none) m' cells freed a (put-same m a none),
  Freed-AllFree (put m a none) m' cells freed,
)

-- With fuel for each node and the end of a list of different nodes, `list_print` changes nothing
-- and prints a line with the name and the three counters of each file in their order, and
-- `list_destroy` frees each node of the list and changes no other; neither makes an invalid
-- access.
pub print_destroy :
    (decimal : ℕ → List ℕ) (k : ℕ) (m : Nodes) (l : BoxList) (cells : Cells)
    → Chain m l.head cells
    → Apart cells
    → length cells < k
    → (list_print decimal k l m ≡ done (lines_of decimal (files cells)) m)
      × Ends
          (λ _ m'. AllFree m' cells × ((x : Ptr) → Fresh x cells → m' x ≡ m x))
          (list_destroy k l m)
unfolding list_print list_destroy
print_destroy decimal k m l cells chain apart le = (
  printed decimal k m l.head cells chain le,
  Ends-map (destroy_from k l.head m) (destroyed k m l.head cells chain apart le)
      λ _ m' freed. (Freed-AllFree m m' cells freed, Freed-kept m m' cells freed),
)
