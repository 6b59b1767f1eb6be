-- ===== src/Fs/Tests/Example.antt =====
-- A started file system: the root, and one file of two bytes that two handles are open on.
use projeto_so.Base.{
  ◌*◌, leb, none, Bool-cases, inl, inr, ℕ, zero, suc, ◌≡◌, ◌≢◌, refl, List, [], ◌∷◌, pos, minus_one,
  true, false, arith, ◌==◌, ltb, ◌&&◌, if◌then◌else◌, Option, some,
}
use projeto_so.Memory.{Array}
use projeto_so.Memory.Bytes.{read_int, word_at}
use projeto_so.Fs.Types.{
  State, Inode, t_file, t_directory, AllocationState, free, taken, OpenFileEntry, to_size,
}
use projeto_so.Fs.Validity.{IsValid, IsUsed, InodeOk, EntryOk, IsOpen, InUse}
use projeto_so.Fs.Locking.{IsReliable}
use projeto_so.Fs.Operations.{Pthread, skip_slash}
use projeto_so.Fs.Init.{Mallocs}
use projeto_so.Fs.Starting.Requirements.{CanStart, GivesBytes, GivesRoom, Succeeds}
use projeto_so.Fs.Unlinking.{NamesCleared, IsShortText, NotOpen}
use projeto_so.Fs.Handles.{releasing, releasing-IsValid}
use projeto_so.Fs.Inodes.{IsUnreferenced}
use projeto_so.Fs.Root.Entry.{cleared, cleared-IsValid, cleared_unlinked}
use projeto_so.Fs.Writing.Effects.{AreTwins}

abbrev pub pthread : Pthread
pthread = record { lock = λ c. pos 0; unlock = λ c. pos 0 }

pub pthread-IsReliable : IsReliable pthread
pthread-IsReliable = record { lock = λ c. refl; unlock = λ c. refl }

-- Inode 0 has block 0, inode 1 block 1.
abbrev pub nodes : ℕ → Inode
nodes zero = record { i_node_type = t_directory; i_size = 100; i_data_block = pos 0 }
nodes (suc zero) = record { i_node_type = t_file; i_size = 2; i_data_block = pos 1 }
nodes (suc (suc i)) = record { i_node_type = t_file; i_size = 0; i_data_block = minus_one }

-- The first two of anything are taken.
abbrev pub two_taken : ℕ → AllocationState
two_taken zero = taken
two_taken (suc zero) = taken
two_taken (suc (suc i)) = free

-- The root's block: entry 0 is "a", inode 1; entry 1 is empty. The file's block: "h" and a NUL.
abbrev pub bytes : ℕ → ℕ
bytes x =
    if x == 0
    then 97
    else if x == 40
    then 1
    else if ltb 83 x && ltb x 88
    then 255
    else if x == 100
    then 104
    else 0

abbrev pub handle : OpenFileEntry
handle = record { of_inumber = pos 1; of_offset = 0 }

abbrev pub example : State
example = record {
  params = record {
    max_inode_count = 3;
    max_block_count = 3;
    max_open_files_count = 3;
    block_size = 100;
  };
  allocated = true;
  inode_table = record { size = 3; cell = nodes };
  freeinode_ts = record { size = 3; cell = two_taken };
  fs_data = record { size = 300; cell = bytes };
  free_blocks = record { size = 3; cell = two_taken };
  open_file_table = record { size = 3; cell = λ h. handle };
  free_open_file_entries = record { size = 3; cell = two_taken };
  mutex_calls = [];
}

abbrev pub path : Option (List ℕ)
path = some (b'/' ∷ b'a' ∷ [])

abbrev pub new_path : Option (List ℕ)
new_path = some (b'/' ∷ b'b' ∷ [])

abbrev pub buffer : List ℕ
buffer = 120 ∷ 121 ∷ 122 ∷ []

used_cases : (P : ℕ → Type 0) → P 0 → P 1 → (i : ℕ) → IsUsed example i → P i
used_cases P a b zero u = a
used_cases P a b (suc zero) u = b
used_cases P a b (suc (suc i)) u = absurd (ground (arith, u.is_taken))

entry_cases : (P : ℕ → Type 0) → P 0 → (k : ℕ) → InUse example k → P k
unfolding read_int word_at
entry_cases P a zero u = a
entry_cases P a (suc zero) u = absurd (ground (arith, u.1))
entry_cases P a (suc (suc k)) u = absurd (omega (arith, u.0))

pair_cases :
    (P : ℕ → ℕ → Type 0)
    → P 0 1
    → P 1 0
    → (i j : ℕ) → i ≢ j
    → IsUsed example i
    → IsUsed example j
    → P i j
pair_cases P a b zero zero ne u v = absurd (ne refl)
pair_cases P a b zero (suc j) ne u v =
    used_cases (λ k. 0 ≢ k → P 0 k) (λ e. absurd (e refl)) (λ e. a) (suc j) v ne
pair_cases P a b (suc zero) j ne u v =
    used_cases (λ k. 1 ≢ k → P 1 k) (λ e. b) (λ e. absurd (e refl)) j v ne
pair_cases P a b (suc (suc i)) j ne u v = absurd (ground (arith, u.is_taken))

same_entry : (k l : ℕ) → InUse example k → InUse example l → k ≡ l
same_entry k l a b = entry_cases (λ j. j ≡ l) (entry_cases (λ j. 0 ≡ j) refl l b) k a

pub example-IsValid : IsValid example
unfolding read_int word_at
example-IsValid = record {
  fits = omega arith;
  root = record {
    used = record { in_range = omega arith; is_taken = refl };
    directory = refl;
    sized = omega arith;
    full = refl;
  };
  inodes =
      used_cases (InodeOk example)
        (record { small = omega arith; block_valid = λ e. refl; block_taken = λ e. refl })
        (record { small = omega arith; block_valid = λ e. refl; block_taken = λ e. refl });
  apart = λ i j ne a b.
      pair_cases (λ k l. to_size (nodes k).i_data_block ≢ to_size (nodes l).i_data_block)
        (λ e. absurd (omega arith)) (λ e. absurd (omega arith)) i j ne a.0 b.0;
  handles = λ h o. record {
    inumber_valid = refl;
    inode_taken = refl;
    not_root = omega arith;
    within = omega arith;
  };
  entries =
      entry_cases (EntryOk example)
        (record { inumber_valid = refl; inode_taken = refl; not_root = omega arith; ends = refl });
  linked_once = λ k l ne a b. absurd (ne (same_entry k l a b));
}

pub example-AreTwins : AreTwins example 0 1
example-AreTwins = record {
  first_open = (omega arith, refl);
  second_open = (omega arith, refl);
  distinct = λ e. absurd (omega arith);
  same_file = refl;
  same_offset = refl;
}

-- The example without its handles and with the file's directory entry cleared: nothing leads to
-- inode 1.
abbrev pub unreferenced : State
unreferenced = cleared (releasing (releasing example 0) 1) 0

pub unreferenced-IsValid : IsValid unreferenced
unreferenced-IsValid = cleared-IsValid (releasing-IsValid 1 (releasing-IsValid 0 example-IsValid)) 0

closed_handles : (h : ℕ) → IsOpen unreferenced h → ⊥
closed_handles zero o = absurd (ground (arith, o.1))
closed_handles (suc zero) o = absurd (ground (arith, o.1))
closed_handles (suc (suc h)) o = absurd (ground (arith, o.1))

pub unreferenced-IsUnreferenced : IsUnreferenced unreferenced 1
unfolding read_int word_at
unreferenced-IsUnreferenced = record {
  no_handle = λ h o. absurd (closed_handles h o);
  no_entry =
      cleared_unlinked (releasing-IsValid 1 (releasing-IsValid 0 example-IsValid)) 0
        (omega arith, refl);
}

-- The example without its handles.
abbrev pub unopened : State
unopened = releasing (releasing example 0) 1

pub unopened-IsValid : IsValid unopened
unopened-IsValid = releasing-IsValid 1 (releasing-IsValid 0 example-IsValid)

pub unopened-NamesCleared : NamesCleared unopened
unfolding read_int word_at
unopened-NamesCleared zero lt e = absurd (ground (arith, e))
unopened-NamesCleared (suc zero) lt e = refl
unopened-NamesCleared (suc (suc k)) lt e = absurd (omega (arith, lt))

pub path-IsShortText : IsShortText (skip_slash path)
unfolding skip_slash
path-IsShortText = (((λ e. absurd (omega arith)), tt), omega arith)

pub unopened-NotOpen : NotOpen unopened path
unopened-NotOpen i k h found e o = absurd (closed_handles h o)

-- What the calls of `malloc` return, and the state before the start.
abbrev pub allocations : State
allocations = record example { freeinode_ts = record { size = 3; cell = λ i. taken } }

abbrev pub not_started : State
not_started = record example { allocated = false; mutex_calls = [] }

-- A `malloc` with one array, of elements of `size` bytes.
abbrev up_to {ℓ} : {A : Type ℓ} → ℕ → Array A → ℕ → Option (Array A)
up_to size a n = if leb n (a.size * size) then some a else none

up_to-GivesBytes {ℓ} : {A : Type ℓ} (size : ℕ) (a : Array A) → GivesBytes size (up_to size a)
up_to-GivesBytes size a n b e = elim (Bool-cases (leb n (a.size * size))) [
  | inl fits ↦ ground (arith, fits, e)
  | inr large ↦ ground (arith, large, e)
]

abbrev pub supplying : State → Mallocs
supplying t = record {
  inode_table = up_to 24 t.inode_table;
  freeinode_ts = up_to 4 t.freeinode_ts;
  fs_data = up_to 1 t.fs_data;
  free_blocks = up_to 4 t.free_blocks;
  open_file_table = up_to 16 t.open_file_table;
  free_open_file_entries = up_to 4 t.free_open_file_entries;
}

pub supplying-GivesRoom : (t : State) → GivesRoom (supplying t)
supplying-GivesRoom t = record {
  inode_table = up_to-GivesBytes 24 t.inode_table;
  freeinode_ts = up_to-GivesBytes 4 t.freeinode_ts;
  fs_data = up_to-GivesBytes 1 t.fs_data;
  free_blocks = up_to-GivesBytes 4 t.free_blocks;
  open_file_table = up_to-GivesBytes 16 t.open_file_table;
  free_open_file_entries = up_to-GivesBytes 4 t.free_open_file_entries;
}

pub allocations-Succeeds : Succeeds (supplying allocations) allocations
allocations-Succeeds = record {
  inode_table = refl;
  freeinode_ts = refl;
  fs_data = refl;
  free_blocks = refl;
  open_file_table = refl;
  free_open_file_entries = refl;
}

pub allocations-CanStart : CanStart allocations.params
allocations-CanStart = record {
  some_inode = omega arith;
  some_block = omega arith;
  sized = omega arith;
  inode_limit = omega arith;
  block_limit = omega arith;
  open_limit = omega arith;
  size_limit = omega arith;
  data_limit = omega arith;
}
