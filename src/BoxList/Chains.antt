-- ===== src/BoxList/Chains.antt =====
-- A list in memory: the nodes that its pointers lead through, and reading and changing one node.
use projeto_so.Base.{ℕ, ◌≡◌, ◌≢◌, ◌==◌, refl, ◌∙◌, true, false, some, Option, List, [], ◌∷◌, arith}
use projeto_so.BoxList.{
  TfsFile, Ptr, null, ListNode, Nodes, Run, M, put, load, save, done, fault, out_of_fuel, then_run,
}

-- The addresses and files of the nodes, in order.
abbrev pub Cells : Type 0
Cells = List (Ptr × TfsFile)

-- From `p` the `next` pointers lead through the cells to NULL.
abbrev pub Chain : Nodes → Ptr → Cells → Type 0
Chain m p [] = p ≡ null
Chain m p ((a, f) ∷ cells) =
    (n : Ptr) × (p ≡ a)
    × (a ≢ null)
    × (m a ≡ some (record { file = f; next = n }))
    × Chain m n cells

-- No cell has the address.
abbrev pub Fresh : Ptr → Cells → Type 0
Fresh a [] = Unit {0}
Fresh a ((b, f) ∷ cells) = (a ≢ b) × Fresh a cells

-- The cells have different addresses.
abbrev pub Apart : Cells → Type 0
Apart [] = Unit {0}
Apart ((a, f) ∷ cells) = Fresh a cells × Apart cells

-- The files of the nodes, in the order of the list.
abbrev pub files : Cells → List TfsFile
files [] = []
files ((a, f) ∷ cells) = f ∷ files cells

-- The run ends, with a value and a memory as stated.
abbrev pub Ends : {A : Type 0} → (A → Nodes → Type 0) → Run A → Type 0
Ends P (done a m) = P a m
Ends P fault = ⊥
Ends P out_of_fuel = ⊥

pub Ends-map :
    {A : Type 0} {P Q : A → Nodes → Type 0} (r : Run A)
    → Ends P r
    → ((a : A) (m : Nodes) → P a m → Q a m)
    → Ends Q r
Ends-map (done a m) e f = f a m e
Ends-map fault e f = elim e [ ]
Ends-map out_of_fuel e f = elim e [ ]

pub step :
    {A B : Type 0} {x : Run A} (f : A → M B) {m : Nodes} {a : A} {r : Run B}
    → x ≡ done a m
    → f a m ≡ r
    → then_run x f ≡ r
step f e g = rw e g

pub differ : (a b : ℕ) → a ≢ b → (a == b) ≡ false
differ a b ne = ground arith

pub same : (a : ℕ) → (a == a) ≡ true
same a = ground arith

pub load-done : (m : Nodes) (p : Ptr) {n : ListNode} → p ≢ null → m p ≡ some n → load p m ≡ done n m
unfolding load
load-done m p ne e = rw (differ p null ne, e) refl

pub put-same : (m : Nodes) (a : Ptr) (c : Option ListNode) → put m a c a ≡ c
unfolding put
put-same m a c = rw (same a) refl

pub put-other : (m : Nodes) (a b : Ptr) (c : Option ListNode) → a ≢ b → put m a c b ≡ m b
unfolding put
put-other m a b c ne = rw (differ a b ne) refl

pub save-done :
    (m : Nodes) (p : Ptr) {n : ListNode} (c : ListNode)
    → p ≢ null
    → m p ≡ some n
    → save p c m ≡ done tt (put m p (some c))
unfolding save
save-done m p c ne e = step _ (load-done m p ne e) refl

-- A change of a node outside a chain leaves the chain.
pub put-Chain :
    (m : Nodes) (a : Ptr) (c : Option ListNode) (p : Ptr) (cells : Cells)
    → Fresh a cells
    → Chain m p cells
    → Chain (put m a c) p cells
put-Chain m a c p [] away chain = chain
put-Chain m a c p ((b, f) ∷ cells) away (n, here, ne, holds, rest) =
    (n, here, ne, put-other m a b c away.0 ∙ holds, put-Chain m a c n cells away.1 rest)
