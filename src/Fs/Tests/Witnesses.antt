-- ===== src/Fs/Tests/Witnesses.antt =====
-- The theorems on fs/state.c and fs/operations.c at the example file system.
use projeto_so.Base.{◌≡◌, ◌⊎◌, refl, pos, minus_one, [], some, arith}
use projeto_so.Fs.Types.{ok, Ends}
use projeto_so.Fs.Operations.{tfs_open, tfs_close, tfs_read, tfs_write, tfs_file_exists, tfs_unlink}
use projeto_so.Fs.Validity.{IsValid, IsOpen}
use projeto_so.Fs.Locking.{Works, locked, unlocked, IsReliable-Works}
use projeto_so.Fs.Allocation.{AllTaken}
use projeto_so.Fs.Reading.{target, readable, bytes_at, after_read, tfs_read_lem}
use projeto_so.Fs.Handles.{releasing}
use projeto_so.Fs.Closing.{tfs_close_lem, closed_handle, read_close-IsValid}
use projeto_so.Fs.Writing.{WriteOutcome, writable}
use projeto_so.Fs.Writing.Branches.{tfs_write-WriteOutcome}
use projeto_so.Fs.Contents.Writes.{WriteSpec, tfs_write-WriteSpec}
use projeto_so.Fs.Writing.Effects.{tfs_read-tfs_write, ReadBack}
use projeto_so.Fs.Opening.{OpenOutcome}
use projeto_so.Fs.Opening.Branches.{tfs_open-OpenOutcome}
use projeto_so.Fs.Opening.Effects.{tfs_open-IsValid}
use projeto_so.Fs.Exists.{ExistsOutcome, tfs_file_exists-ExistsOutcome}
use projeto_so.Fs.Init.{tfs_init}
use projeto_so.Fs.Starting.{IsEmpty, tfs_init-IsValid}
use projeto_so.Fs.Unlinking.{UnlinkOutcome, tfs_unlink-UnlinkOutcome, tfs_unlink-IsValid}
use projeto_so.Fs.Tests.Example.{
  example, example-IsValid, example-AreTwins, pthread, pthread-IsReliable, path, new_path, buffer,
  unopened, unopened-IsValid, unopened-NamesCleared, path-IsShortText, unopened-NotOpen,
  allocations, allocations-CanStart, allocations-Succeeds, supplying, supplying-GivesRoom,
  not_started,
}

works : Works pthread example
works = IsReliable-Works example pthread-IsReliable

first-IsOpen : IsOpen example 0
first-IsOpen = (omega arith, refl)

tfs_read-tfs_write_example :
    Ends
      (λ k t.
        ((k ≡ minus_one) × AllTaken example.free_blocks example.max_block_count)
        ⊎ ((k ≡ pos (writable example 0 2)) × ReadBack pthread 1 buffer (writable example 0 2) t))
      (tfs_write pthread (pos 0) buffer 2 example)
tfs_read-tfs_write_example =
    tfs_read-tfs_write pthread 0 1 buffer 2 pthread-IsReliable example-IsValid example-AreTwins
      (omega arith) (omega arith)

tfs_open-OpenOutcome_example :
    OpenOutcome (locked example) new_path 1 (tfs_open pthread new_path 1 example)
tfs_open-OpenOutcome_example = tfs_open-OpenOutcome pthread new_path 1 example-IsValid works

tfs_write-WriteOutcome_example :
    WriteOutcome (locked example) 0 buffer 2 (tfs_write pthread (pos 0) buffer 2 example)
tfs_write-WriteOutcome_example =
    tfs_write-WriteOutcome pthread 0 buffer 2 example-IsValid first-IsOpen works (omega arith)
      (omega arith)

tfs_read_lem_example :
    tfs_read pthread (pos 0) 10 example
    ≡ ok
        (pos (readable example 0 10), bytes_at example (target example 0) 0 (readable example 0 10))
        (unlocked (after_read (locked example) 0 (readable example 0 10)))
tfs_read_lem_example = tfs_read_lem pthread 0 10 example-IsValid first-IsOpen works

tfs_open-IsValid_example : Ends (λ _ t. IsValid t) (tfs_open pthread path 2 example)
tfs_open-IsValid_example =
    tfs_open-IsValid pthread path 2 example-IsValid works (λ i k found e drops h o same. refl)

read_close-IsValid_example :
    Ends (λ _ t. IsValid t) (tfs_read pthread (pos 0) 10 example)
    × Ends (λ _ t. IsValid t) (tfs_close pthread (pos 0) example)
read_close-IsValid_example = read_close-IsValid pthread 0 10 example-IsValid first-IsOpen works

tfs_close_lem_example :
    tfs_close pthread (pos 0) example ≡ ok (pos 0) (unlocked (releasing (locked example) 0))
tfs_close_lem_example = tfs_close_lem pthread 0 example-IsValid first-IsOpen works

closed_handle_example :
    (tfs_close pthread (pos 2) example ≡ ok minus_one (unlocked (locked example)))
    × (tfs_write pthread (pos 2) buffer 3 example ≡ ok minus_one (unlocked (locked example)))
    × (tfs_read pthread (pos 2) 3 example ≡ ok (minus_one, []) (unlocked (locked example)))
closed_handle_example = closed_handle pthread (pos 2) buffer 3 example-IsValid (λ e. refl) works

tfs_file_exists-ExistsOutcome_example :
    ExistsOutcome (locked example) path (tfs_file_exists pthread path example)
tfs_file_exists-ExistsOutcome_example =
    tfs_file_exists-ExistsOutcome pthread path example-IsValid works

tfs_unlink-UnlinkOutcome_example :
    UnlinkOutcome (locked unopened) path (tfs_unlink pthread path unopened)
tfs_unlink-UnlinkOutcome_example =
    tfs_unlink-UnlinkOutcome pthread path unopened-IsValid
      (IsReliable-Works unopened pthread-IsReliable) unopened-NamesCleared path-IsShortText

tfs_unlink-IsValid_example : Ends (λ _ t. IsValid t) (tfs_unlink pthread path unopened)
tfs_unlink-IsValid_example =
    tfs_unlink-IsValid pthread path unopened-IsValid (IsReliable-Works unopened pthread-IsReliable)
      unopened-NamesCleared path-IsShortText unopened-NotOpen

tfs_init-IsValid_example :
    Ends
      (λ r u. (r ≡ pos 0) × IsValid u × IsEmpty u)
      (tfs_init (supplying allocations) (some allocations.params) not_started)
tfs_init-IsValid_example =
    tfs_init-IsValid (supplying allocations) allocations not_started refl
      (supplying-GivesRoom allocations) allocations-Succeeds allocations-CanStart

tfs_write-WriteSpec_example :
    Ends
      (WriteSpec example 0 buffer (writable example 0 2))
      (tfs_write pthread (pos 0) buffer 2 example)
tfs_write-WriteSpec_example =
    tfs_write-WriteSpec pthread 0 buffer 2 example-IsValid first-IsOpen works (omega arith)
      (omega arith)
