-- ===== src/Fs/Contents/Chaining.antt =====
-- Appends to a file, one behind the other.
use projeto_so.Base.{ℕ, ◌+◌, ◌<◌, ◌≡◌, ap, ◌∙◌, List, ◌++◌, arith, length, length-append}
use mathlib.Core.List.{append_assoc}
use projeto_so.Memory.Segments.{length-read_bytes}
use projeto_so.Fs.Types.{State}
use projeto_so.Fs.Validity.{IsValid, inode}
use projeto_so.Fs.Allocation.{IsFirstFree}
use projeto_so.Fs.Contents.{contents, LeadsTo}
use projeto_so.Fs.Contents.Opens.{in_use}
use projeto_so.Fs.Contents.Appends.{Appended, HasRoom}

pub Appended-trans :
    {s t u : State} (i : ℕ) (a b : List ℕ)
    → Appended s i a t
    → Appended t i b u
    → Appended s i (a ++ b) u
Appended-trans {s} {t} {u} i a b x y = record {
  valid = y.valid;
  file = y.file ∙ ap (λ c. c ++ b) x.file ∙ append_assoc (contents s i) a b;
  kept = record {
    others = λ j ne j_used. y.kept.others j ne (x.kept.used j j_used) ∙ x.kept.others j ne j_used;
    used = λ j j_used. y.kept.used j (x.kept.used j j_used);
    names = record {
      entries = λ name. y.kept.names.entries name ∙ x.kept.names.entries name;
      inumbers = λ k lt.
          y.kept.names.inumbers k (omega (arith, lt, x.kept.names.as_many))
          ∙ x.kept.names.inumbers k lt;
      as_many = y.kept.names.as_many ∙ x.kept.names.as_many;
    };
  };
  handles = λ g. y.handles g ∙ x.handles g;
  sizes = y.sizes ∙ x.sizes;
}

pub length-contents : (r : State) (i : ℕ) → length (contents r i) ≡ (inode r i).i_size
length-contents r i = length-read_bytes _ _ (inode r i).i_size

module _ {s t : State} (i : ℕ) (a : List ℕ) (x : Appended s i a t) where
  pub Appended-LeadsTo : (name : List ℕ) → IsValid s → LeadsTo s name i → LeadsTo t name i
  Appended-LeadsTo name v leads = record {
    at = leads.at;
    found = x.kept.names.entries name ∙ leads.found;
    leads = x.kept.names.inumbers leads.at (in_use v name i leads).0 ∙ leads.leads;
  }

  pub Appended-IsFirstFree :
      (h : ℕ)
      → IsFirstFree s.free_open_file_entries s.max_open_files_count h
      → IsFirstFree t.free_open_file_entries t.max_open_files_count h
  Appended-IsFirstFree h first = record {
    in_range = omega (arith, first.in_range, ap (λ q. q.max_open_files_count) x.sizes);
    is_free = x.handles h ∙ first.is_free;
    first = λ l lt. x.handles l ∙ first.first l lt;
  }

  pub Appended_size : (inode t i).i_size ≡ (inode s i).i_size + length a
  Appended_size = omega (
    arith,
    length-contents t i,
    length-contents s i,
    ap (λ c. length c) x.file,
    length-append {0} (contents s i) a,
  )

  -- A file that bytes were appended to has a block, so only the room within it counts.
  pub Appended-HasRoom : (n : ℕ) → 0 < length a → HasRoom s i (length a + n) → HasRoom t i n
  Appended-HasRoom n some_bytes room = record {
    fits = omega (arith, room.fits, Appended_size, ap (λ q. q.block_size) x.sizes);
    block = λ empty all. absurd (omega (arith, empty, Appended_size));
  }
