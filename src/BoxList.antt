-- ===== src/BoxList.antt =====
-- The list of mailboxes, of utils/list.h and utils/list.c: nodes in memory linked by pointers. The
-- list's mutex is taken first and released last by each function, and is left out. Each loop takes
-- fuel, and a run that uses it up is told apart from a fault.
pub mod Counters
pub mod Changing
pub mod Sorting
pub mod Chains
pub mod Lookup
pub mod Adding
pub mod Removing
pub mod Ending
pub mod Allocated
pub mod Finding
mod Tests
use projeto_so.Base.{
  ℕ, zero, suc, ◌+◌, ◌-◌, ◌%◌, ◌^◌, Bool, true, false, ◌&&◌, not, Option, none, some, List, [], ◌∷◌,
  ◌++◌, codes, ltb, ◌==◌, if◌then◌else◌, ℤ, pos, negsuc,
}

-- `tfs_file`, without its condition variable and lock. A name is its bytes before the NUL.
pub record TfsFile : Type 0 where
  pub box_name : List ℕ
  pub n_publishers : ℕ
  pub n_subscribers : ℕ
  pub box_size : ℕ

-- An address; 0 is NULL.
abbrev pub Ptr : Type 0
Ptr = ℕ

abbrev pub null : Ptr
null = 0

pub record ListNode : Type 0 where
  pub file : TfsFile
  pub next : Ptr

-- The nodes that are allocated.
abbrev pub Nodes : Type 0
Nodes = Ptr → Option ListNode

-- `List`. `size` is an `int`.
pub record BoxList : Type 0 where
  pub head : Ptr
  pub tail : Ptr
  pub size : ℤ

-- A fault is an access through NULL or to a node that is not allocated.
pub data Run {ℓ} (A : Type ℓ) : Type ℓ where
  done : A → Nodes → Run A
  fault : Run A
  out_of_fuel : Run A

abbrev pub M : Type 0 → Type 0
M A = Nodes → Run A

abbrev pub pure : {A : Type 0} → A → M A
pure a m = done a m

abbrev pub then_run : {A B : Type 0} → Run A → (A → M B) → Run B
then_run (done a m) f = f a m
then_run fault f = fault
then_run out_of_fuel f = out_of_fuel

infixl 5 ◌>>=◌ ◌>>◌
abbrev pub ◌>>=◌ : {A B : Type 0} → M A → (A → M B) → M B
◌>>=◌ x f m = then_run (x m) f

abbrev pub ◌>>◌ : {B : Type 0} → M (Unit {0}) → M B → M B
x >> y = x >>= λ _. y

-- `*node`
unfoldable pub load : Ptr → M ListNode
load p m = if p == null then fault else elim (m p) [ none ↦ fault | some n ↦ done n m ]

-- The memory with something else at `p`.
unfoldable pub put : Nodes → Ptr → Option ListNode → Nodes
put m p c q = if p == q then c else m q

-- `*node = n`, for a node that is allocated.
unfoldable pub save : Ptr → ListNode → M (Unit {0})
save p n = load p >>= λ _ m. done tt (put m p (some n))

unfoldable pub set_next : Ptr → Ptr → M (Unit {0})
set_next p q = do n ← load p; save p (record n { next = q })

unfoldable pub free : Ptr → M (Unit {0})
free p m = if p == null then done tt m else then_run (load p m) λ _ m'. done tt (put m' p none)

-- `node = malloc(...); node->file = file; node->next = NULL;`, where `malloc` returns `fresh`.
unfoldable pub new_node : Ptr → TfsFile → M (Unit {0})
new_node fresh file m =
    if fresh == null
    then fault
    else done tt (put m fresh (some (record { file = file; next = null })))

-- `strcmp(s, t) == 0`, and `strcmp(s, t) > 0`.
unfoldable pub same_name : List ℕ → List ℕ → Bool
same_name [] [] = true
same_name [] (d ∷ t) = false
same_name (c ∷ s) [] = false
same_name (c ∷ s) (d ∷ t) = c == d && same_name s t

unfoldable pub name_after : List ℕ → List ℕ → Bool
name_after [] t = false
name_after (c ∷ s) [] = true
name_after (c ∷ s) (d ∷ t) = let rest = name_after s t in if c == d then rest else ltb d c

-- `n + 1` and `n - 1` on an `int`, without overflow.
abbrev pub int_suc : ℤ → ℤ
int_suc (pos n) = pos (n + 1)
int_suc (negsuc zero) = pos 0
int_suc (negsuc (suc n)) = negsuc n

abbrev pub int_pred : ℤ → ℤ
int_pred (pos zero) = negsuc 0
int_pred (pos (suc n)) = pos n
int_pred (negsuc n) = negsuc (n + 1)

-- `size` is not set.
unfoldable pub list_init : BoxList → BoxList
list_init l = record l { head = null; tail = null }

unfoldable pub list_add : Ptr → TfsFile → BoxList → M BoxList
list_add fresh file l = do
  new_node fresh file
  if l.head == null
      then pure (record { head = fresh; tail = fresh; size = int_suc l.size })
      else (do
        set_next l.tail fresh
        pure (record { head = l.head; tail = fresh; size = int_suc l.size }))

-- The tail is left as it is.
unfoldable pub list_remove : Ptr → Ptr → BoxList → M BoxList
list_remove prev node l = if node == null then pure l else do
  n ← load node
  if prev == null
      then (do free node; pure (record { head = n.next; tail = l.tail; size = int_pred l.size }))
      else (do
        set_next prev n.next
        free node
        pure (record { head = l.head; tail = l.tail; size = int_pred l.size }))

unfoldable pub destroy_from : ℕ → Ptr → M (Unit {0})
destroy_from zero p = λ m. out_of_fuel
destroy_from (suc k) p = if p == null then pure tt else do n ← load p; free p; destroy_from k n.next

unfoldable pub list_destroy : ℕ → BoxList → M (Unit {0})
list_destroy fuel l = destroy_from fuel l.head

-- `fprintf` with "%s %zu %zu %zu\n"; `decimal` is what `%zu` prints.
unfoldable pub print_line : (ℕ → List ℕ) → TfsFile → List ℕ
print_line decimal file =
    file.box_name
    ++ codes " "
    ++ decimal file.box_size
    ++ codes " "
    ++ decimal file.n_publishers
    ++ codes " "
    ++ decimal file.n_subscribers
    ++ codes "\n"

-- The lines that are printed, in order.
unfoldable pub print_from : (ℕ → List ℕ) → ℕ → Ptr → M (List (List ℕ))
print_from decimal zero p = λ m. out_of_fuel
print_from decimal (suc k) p =
    if p == null
    then pure []
    else do n ← load p; rest ← print_from decimal k n.next; pure (print_line decimal n.file ∷ rest)

unfoldable pub list_print : (ℕ → List ℕ) → ℕ → BoxList → M (List (List ℕ))
list_print decimal fuel l = print_from decimal fuel l.head

-- The node with the name from `p` on, or NULL.
unfoldable pub search_from : List ℕ → ℕ → Ptr → M Ptr
search_from name zero p = λ m. out_of_fuel
search_from name (suc k) p =
    if p == null
    then pure null
    else do n ← load p; if same_name n.file.box_name name then pure p else search_from name k n.next

unfoldable pub search_node : ℕ → BoxList → List ℕ → M Ptr
search_node fuel l name = search_from name fuel l.head

-- The loop `while (node->next != NULL)`.
unfoldable pub search_prev_from : List ℕ → ℕ → Ptr → M Ptr
search_prev_from name zero p = λ m. out_of_fuel
search_prev_from name (suc k) p = do
  n ← load p
  if n.next == null then pure null else do
    next ← load n.next
    if same_name next.file.box_name name then pure p else search_prev_from name k n.next

-- The head is read without a test for NULL.
unfoldable pub search_prev_node : ℕ → BoxList → List ℕ → M Ptr
search_prev_node fuel l name = do
  n ← load l.head
  if same_name n.file.box_name name then pure null else search_prev_from name fuel l.head
