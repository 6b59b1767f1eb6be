-- ===== src/Manager/Answers.antt =====
-- What a manager shows of the packets that answer LIST_MAILBOXES.
use projeto_so.Base.{
  ℕ, zero, suc, ◌<◌, ◌≡◌, ◌≢◌, refl, sym, ap, ◌∙◌, Bool, true, false, List, [], ◌∷◌, ◌++◌, map,
  some, none, arith, length, ◌==◌, if◌then◌else◌, ℤ, pos, Bool-cases, inl, inr,
}
use mathlib.Core.Path.{subst}
use mathlib.Core.List.{Perm, append_assoc, foldr}
use mathlib.Core.List.Perm
use native.Mathlib.Nat.{ℕ_set}
use projeto_so.Memory.Bytes.{Bytes}
use projeto_so.Process.{Ends, Calls, Os, reads, M, and_then, pure}
use projeto_so.Protocol.{c_string}
use projeto_so.Protocol.At
use projeto_so.BoxList.{
  TfsFile, BoxList, Ptr, null, Nodes, list_init, list_add, list_print, list_destroy, name_after,
}
use projeto_so.BoxList as Linked
use projeto_so.BoxList.Chains as Chains
use projeto_so.BoxList.Chains.{Cells, files}
use projeto_so.BoxList.Adding.{IsBoxList}
use projeto_so.BoxList.Allocated.{OneMore, list_add-OneMore}
use projeto_so.BoxList.Sorting.Bubble.{IsSorted}
use projeto_so.Broker.Listing.{Tells}
use projeto_so.Broker.Sending.{Listed}
use projeto_so.Manager.{Desk, Setting, box_of_packet, read_boxes, set_list, in_list, from_nodes}

-- The reads from the pipe return the packets one after the other.
abbrev pub Delivers : Os → ℤ → List Bytes → Calls → Type 0
Delivers os pipe [] c = Unit {0}
Delivers os pipe (p ∷ ps) c =
    ((buffer : Bytes) → os.read c pipe buffer ≡ (pos 1_033, p))
    × Delivers os pipe ps (reads pipe ∷ c)

-- The next `k` calls of `malloc` give addresses that are not in use.
abbrev pub HasRoom : (Nodes → Ptr) → ℕ → Nodes → Type 0
HasRoom malloc zero m = Unit {0}
HasRoom malloc (suc k) m =
    (malloc m ≢ null)
    × (m (malloc m) ≡ none)
    × ((m' : Nodes) → OneMore (malloc m) m m' → HasRoom malloc k m')

abbrev pub AllNamed : List TfsFile → Type 0
AllNamed [] = Unit {0}
AllNamed (f ∷ fs) = (f.box_name ≢ []) × AllNamed fs

first_byte :
    (b : Bytes) (a n : ℕ) (s : List ℕ) → c_string b a n ≡ some s → s ≢ [] → (b a == 0) ≡ false
unfolding c_string
first_byte b a zero s e ne = cc
first_byte b a (suc n) s e ne = elim (Bool-cases (b a == 0)) [
  | inl z ↦ absurd (ne (empty z))
  | inr z ↦ z
]
  where
    empty : (b a == 0) ≡ true → s ≡ []
    empty z = cc

box_of_packet-Tells :
    (s : Setting) (p : Bytes) (f : TfsFile) (is_last : Bool)
    → Tells p f is_last
    → box_of_packet s p ≡ some f
unfolding box_of_packet
box_of_packet-Tells s p f is_last t = rw (t.name, t.publishers, t.subscribers, t.bytes) refl

length-foldr : (cells : Cells) → length cells ≡ foldr (λ c n. suc n) 0 cells
length-foldr [] = refl
length-foldr (c ∷ cells) = ap suc (length-foldr cells)

pub Perm-length : (xs ys : Cells) → Perm xs ys → length xs ≡ length ys
Perm-length xs ys p =
    length-foldr xs ∙ Perm.foldr-eq ℕ_set (λ c n. suc n) (λ a b n. refl) p 0 ∙ sym (length-foldr ys)

files-append : (xs ys : Cells) → files (xs ++ ys) ≡ files xs ++ files ys
files-append [] ys = refl
files-append (c ∷ xs) ys = ap (◌∷◌ c.1) (files-append xs ys)

files-map : (cells : Cells) → files cells ≡ map (λ c. c.1) cells
files-map [] = refl
files-map (c ∷ cells) = ap (◌∷◌ c.1) (files-map cells)

pub Perm-files : (xs ys : Cells) → Perm xs ys → Perm (files xs) (files ys)
Perm-files xs ys p =
    subst (λ fs. Perm fs (files ys)) (sym (files-map xs))
      (subst (Perm (map (λ c. c.1) xs)) (sym (files-map ys)) (Perm.map (λ c. c.1) p))

-- No name comes after the next one.
abbrev pub SortedNames : List TfsFile → Type 0
SortedNames [] = Unit {0}
SortedNames (f ∷ []) = Unit {0}
SortedNames (f ∷ g ∷ fs) = (name_after f.box_name g.box_name ≡ false) × SortedNames (g ∷ fs)

pub IsSorted-files : (cells : Cells) → IsSorted cells → SortedNames (files cells)
IsSorted-files [] h = tt
IsSorted-files (c ∷ []) h = tt
IsSorted-files (c ∷ d ∷ cells) (here, rest) = (here, IsSorted-files (d ∷ cells) rest)

-- A run of list code that ends, followed by another.
pub Ends-in_list :
    {A : Type 0} (P : BoxList → Nodes → Type 0) (Q : A → Desk → Type 0)
    (m : BoxList → Linked.M BoxList) (rest : M Desk A) (d : Desk)
    → Chains.Ends P (m d.list d.nodes)
    → ((l : BoxList) (n : Nodes) → P l n → Ends Q (rest (record d { list = l; nodes = n })))
    → Ends Q (and_then (in_list m d) λ _. rest)
Ends-in_list P Q m rest d h f = go (m d.list d.nodes) h
  where
    go :
        (r : Linked.Run BoxList)
        → Chains.Ends P r
        → Ends Q (and_then (and_then (from_nodes d r) set_list) λ _. rest)
    go (Linked.done l n) h = f l n h
    go Linked.fault h = elim h [ ]
    go Linked.out_of_fuel h = elim h [ ]

-- The list holds the files, in their order.
abbrev pub Holds : List TfsFile → Desk → Type 0
Holds fs d = (cells : Cells) × IsBoxList d.nodes d.list cells × (files cells ≡ fs)

module _ (s : Setting) (pipe : ℤ) where
  -- One packet is read and its box is added; what follows starts from the longer list.
  read_one :
      (Q : Unit {0} → Desk → Type 0) (k : ℕ) (buffer : Bytes) (d : Desk) (cells : Cells) (p : Bytes)
      (f : TfsFile) (is_last : Bool) (room : ℕ)
      → IsBoxList d.nodes d.list cells
      → ((b : Bytes) → s.os.read d.calls pipe b ≡ (pos 1_033, p))
      → Tells p f is_last
      → f.box_name ≢ []
      → HasRoom s.malloc_node (suc room) d.nodes
      → ((l : BoxList) (n : Nodes)
          → IsBoxList n l (cells ++ (s.malloc_node d.nodes, f) ∷ [])
          → HasRoom s.malloc_node room n
          → Ends Q (
              (if is_last then pure tt else read_boxes s k pipe p)
                (record { list = l; nodes = n; calls = reads pipe ∷ d.calls })))
      → Ends Q (read_boxes s (suc k) pipe buffer d)
  unfolding read_boxes
  read_one Q k buffer d cells p f is_last room w delivered tells named (ne, unused, more) rest =
      rw
        (
          delivered buffer,
          first_byte p 2 32 f.box_name tells.name named,
          box_of_packet-Tells s p f is_last tells,
        )
        (Ends-in_list _ Q (λ l m. list_add (s.malloc_node m) f l m) _
          (record d { calls = reads pipe ∷ d.calls })
          (list_add-OneMore (s.malloc_node d.nodes) f d.list d.nodes ne cells w unused)
          λ l n added.
            subst
              (λ b. Ends Q (
                (if b then pure tt else read_boxes s k pipe p)
                  (record { list = l; nodes = n; calls = reads pipe ∷ d.calls })))
              (sym (marked is_last tells.last)) (rest l n added.0 (more n added.1)))
    where
      marked : (b : Bool) → p At.last ≡ (if b then 1 else 0) → (p At.last == 1) ≡ b
      marked true e = rw e refl
      marked false e = rw e refl

  pub read_boxes-Holds :
      (k : ℕ) (buffer : Bytes) (d : Desk) (cells : Cells) (p : Bytes) (ps : List Bytes)
      (f : TfsFile) (fs : List TfsFile)
      → IsBoxList d.nodes d.list cells
      → Delivers s.os pipe (p ∷ ps) d.calls
      → Listed (p ∷ ps) (f ∷ fs)
      → AllNamed (f ∷ fs)
      → HasRoom s.malloc_node (length (f ∷ fs)) d.nodes
      → length fs < k
      → Ends (λ _. Holds (files cells ++ f ∷ fs)) (read_boxes s k pipe buffer d)
  read_boxes-Holds zero buffer d cells p ps f fs w del listed named room le = absurd (omega arith)
  read_boxes-Holds (suc k) buffer d cells p [] f [] w del listed named room le =
      read_one (λ _. Holds (files cells ++ f ∷ [])) k buffer d cells p f true 0 w del.0 listed.0
        named.0 room
        λ l n w' room'. (
          cells ++ (s.malloc_node d.nodes, f) ∷ [],
          w',
          files-append cells ((s.malloc_node d.nodes, f) ∷ []),
        )
  read_boxes-Holds (suc k) buffer d cells p [] f (g ∷ fs) w del listed named room le =
      elim listed.1 [ ]
  read_boxes-Holds (suc k) buffer d cells p (q ∷ ps) f [] w del listed named room le =
      elim listed.1 [ ]
  read_boxes-Holds (suc k) buffer d cells p (q ∷ ps) f (g ∷ fs) w del listed named room le =
      read_one (λ _. Holds (files cells ++ f ∷ g ∷ fs)) k buffer d cells p f false (length (g ∷ fs))
        w del.0 listed.0 named.0 room
        λ l n w' room'.
          subst
            (λ all.
              Ends (λ _. Holds all)
                (read_boxes s k pipe p
                  (record { list = l; nodes = n; calls = reads pipe ∷ d.calls })))
            (ap (λ xs. xs ++ g ∷ fs) (files-append cells ((s.malloc_node d.nodes, f) ∷ []))
              ∙ append_assoc (files cells) (f ∷ []) (g ∷ fs))
            (read_boxes-Holds k p (record { list = l; nodes = n; calls = reads pipe ∷ d.calls })
              (cells ++ (s.malloc_node d.nodes, f) ∷ []) q ps g fs w' del.1 listed.1 named.1 room'
              (omega arith))
