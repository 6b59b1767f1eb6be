-- ===== src/Fs/Contents.antt =====
-- The files as a caller sees them: what each name leads to and what each file holds.
pub mod Names
pub mod Written
pub mod Writes
pub mod Opens
pub mod Appends
pub mod Reads
pub mod Chaining
use projeto_so.Base.{ℕ, ◌+◌, ◌<◌, ◌≡◌, List, Option, some, none, ℤ, pos}
use projeto_so.Fs.Types.{State, max_dir_entries}
use projeto_so.Fs.Validity.{IsUsed, inode, entry_inumber}
use projeto_so.Fs.Reading.{bytes_at}
use projeto_so.Fs.Root.{root_entry}

-- The bytes of a file.
abbrev pub contents : State → ℕ → List ℕ
contents s i = bytes_at s i 0 (inode s i).i_size

-- The name leads to inode `i`.
pub record LeadsTo (s : State) (name : List ℕ) (i : ℕ) : Type 0 where
  pub at : ℕ
  pub found : root_entry s name ≡ some at
  pub leads : entry_inumber s at ≡ pos i

-- The directory of `t` is that of `s`.
pub record SameNames (s t : State) : Type 0 where
  pub entries : (name : List ℕ) → root_entry t name ≡ root_entry s name
  pub inumbers : (k : ℕ) → k < max_dir_entries s → entry_inumber t k ≡ entry_inumber s k
  pub as_many : max_dir_entries t ≡ max_dir_entries s
