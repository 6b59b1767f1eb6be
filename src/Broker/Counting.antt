-- ===== src/Broker/Counting.antt =====
-- Steps that the sessions share: counting on a list of boxes, and closing a pipe.
use projeto_so.Base.{ℕ, ◌≡◌, refl, true, false, List, ◌∷◌, ◌++◌, ℤ}
use projeto_so.Process.{ok, Calls, Os, closes, is_negative}
use projeto_so.Pipes.{pipe_close}
use projeto_so.BoxList as Linked
use projeto_so.BoxList.{TfsFile, Ptr, null, Nodes, ListNode, BoxList, same_name, search_node}
use projeto_so.BoxList.Chains as Chains
use projeto_so.BoxList.Chains.{Cells, Chain, Fresh, differ, load-done}
use projeto_so.BoxList.Lookup.{change_first, Changed}
use projeto_so.BoxList.Adding.{IsBoxList}
use projeto_so.BoxList.Finding.{NoneNamed}
use projeto_so.BoxList.Changing.{Changed-IsBoxList}

-- A counting function on a list whose first box of the name is known.
pub counting :
    (change : TfsFile → TfsFile) (name : List ℕ) (before : Cells) (a : Ptr) (f : TfsFile)
    (after : Cells) (m : Nodes) (l : BoxList) (r : Linked.Run (Unit {0}))
    → NoneNamed name before
    → same_name f.box_name name ≡ true
    → IsBoxList m l (before ++ (a, f) ∷ after)
    → Chains.Ends
        (λ _.
          Changed m l.head
            (before ++ (a, f) ∷ after)
            (change_first change name (before ++ (a, f) ∷ after)))
        r
    → (m' : Nodes) × (r ≡ Linked.done tt m') × IsBoxList m' l (before ++ (a, change f) ∷ after)
counting change name before a f after m l (Linked.done t m') fresh named boxes changed =
    (m', refl, Changed-IsBoxList change name before a f after m m' l fresh named boxes changed)
counting change name before a f after m l Linked.fault fresh named boxes changed = elim changed [ ]
counting change name before a f after m l Linked.out_of_fuel fresh named boxes changed =
    elim changed [ ]

pub close-done :
    (os : Os) (pipe : ℤ) (c : Calls)
    → is_negative (os.close c pipe) ≡ false
    → pipe_close os pipe c ≡ ok tt (closes pipe ∷ c)
unfolding pipe_close
close-done os pipe c e = rw e refl
