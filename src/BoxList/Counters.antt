-- ===== src/BoxList/Counters.antt =====
-- The four functions of utils/list.c that count a box's publishers and subscribers.
use projeto_so.Base.{ℕ, zero, suc, ◌+◌, ◌-◌, ◌%◌, ◌^◌, List, ◌==◌, if◌then◌else◌}
use projeto_so.BoxList.{
  TfsFile, BoxList, Ptr, null, M, pure, out_of_fuel, load, save, same_name, ◌>>=◌,
}

-- The loop that the four counting functions share: `change` is applied to the first file found.
unfoldable pub change_from : (TfsFile → TfsFile) → List ℕ → ℕ → Ptr → M (Unit {0})
change_from change name zero p = λ m. out_of_fuel
change_from change name (suc k) p = if p == null then pure tt else do
  n ← load p
  if same_name n.file.box_name name
      then save p (record n { file = change n.file })
      else change_from change name k n.next

-- The counters are `uint64_t`.
abbrev pub more_publishers : TfsFile → TfsFile
more_publishers f = record f { n_publishers = (f.n_publishers + 1) % 2 ^ 64 }

abbrev pub fewer_publishers : TfsFile → TfsFile
fewer_publishers f = record f { n_publishers = (f.n_publishers + 2 ^ 64 - 1) % 2 ^ 64 }

abbrev pub more_subscribers : TfsFile → TfsFile
more_subscribers f = record f { n_subscribers = (f.n_subscribers + 1) % 2 ^ 64 }

abbrev pub fewer_subscribers : TfsFile → TfsFile
fewer_subscribers f = record f { n_subscribers = (f.n_subscribers + 2 ^ 64 - 1) % 2 ^ 64 }

unfoldable pub increment_publishers : ℕ → BoxList → List ℕ → M (Unit {0})
increment_publishers fuel l name = change_from more_publishers name fuel l.head

unfoldable pub decrement_publishers : ℕ → BoxList → List ℕ → M (Unit {0})
decrement_publishers fuel l name = change_from fewer_publishers name fuel l.head

unfoldable pub increment_subscribers : ℕ → BoxList → List ℕ → M (Unit {0})
increment_subscribers fuel l name = change_from more_subscribers name fuel l.head

unfoldable pub decrement_subscribers : ℕ → BoxList → List ℕ → M (Unit {0})
decrement_subscribers fuel l name = change_from fewer_subscribers name fuel l.head
