-- ===== src/Dataflow/Memo/Memoizer.antt =====
-- The Memoizer of parsl/dataflow/memoization.py.
use parsl.Prelude.{ℕ, Bool, not, ◌||◌, Option, none, some, List, [], ◌∷◌, ◌==◌, if◌then◌else◌}
use parsl.Dataflow.Objects.{Object, Result, ok}
use parsl.Dataflow.Memo.Hash.{Library, MemoTask, Hashsum, no_hash, hash, make_hash, bind}

-- A future of the table is done when it is put there, and stands for what it holds.
abbrev pub Future : Type 0
Future = Result Object

abbrev pub Table : Type 0
Table = List (ℕ × Future)

-- `table[h]`, or none where the source tests `h in table`, and `table[h] = r`.
unfoldable pub lookup : ℕ → Table → Option Future
lookup h [] = none
lookup h ((j, r) ∷ table) = if j == h then some r else lookup h table

unfoldable pub store : ℕ → Future → Table → Table
store h r [] = (h, r) ∷ []
store h r ((j, q) ∷ table) = if j == h then (j, r) ∷ table else (j, q) ∷ store h r table

pub record Memoizer : Type 0 where
  pub memoize : Bool
  pub memo_lookup_table : Table

-- The task with its `hashsum` set, and the future found. `none` is an exception of `make_hash`, which
-- leaves the task as it was.
unfoldable pub check_memo : Library → Memoizer → MemoTask → Option (MemoTask × Option Future)
unfolding make_hash lookup
check_memo lib memoizer task =
    if not memoizer.memoize || not task.memoize
    then some (record task { hashsum = no_hash }, none)
    else bind (make_hash lib task) λ hashsum.
      some (record task { hashsum = hash hashsum }, lookup hashsum memoizer.memo_lookup_table)

abbrev pub store_if_hash : Hashsum → Future → Memoizer → Memoizer
store_if_hash no_hash r memoizer = memoizer
store_if_hash (hash h) r memoizer = record memoizer {
  memo_lookup_table = store h r memoizer.memo_lookup_table;
}

unfoldable pub update_memo : MemoTask → Future → Memoizer → Memoizer
unfolding store
update_memo task r memoizer =
    if not memoizer.memoize || not task.memoize
    then memoizer
    else store_if_hash task.hashsum r memoizer

-- One entry of a checkpoint file: the hash and the result. The source asserts that `exception` is None
-- in each, and `checkpoint` writes no other.
pub record Saved : Type 0 where
  pub hash : ℕ
  pub result : Object

-- What `pickle.load` reads from a file up to its end; `broken` is any other exception on the way.
pub data CheckpointFile : Type 0 where
  absent broken : CheckpointFile
  holding : List Saved → CheckpointFile

unfoldable pub load_entries : List Saved → Table → Table
unfolding store
load_entries [] table = table
load_entries (e ∷ es) table = load_entries es (store e.hash (ok e.result) table)

-- `none` is BadCheckpoint.
unfoldable pub load_checkpoints : List CheckpointFile → Table → Option Table
unfolding load_entries
load_checkpoints [] table = some table
load_checkpoints (absent ∷ files) table = none
load_checkpoints (broken ∷ files) table = none
load_checkpoints (holding es ∷ files) table = load_checkpoints files (load_entries es table)

unfoldable pub new_memoizer : Bool → List CheckpointFile → Option Memoizer
unfolding load_checkpoints
new_memoizer memoize checkpoint_files = bind (load_checkpoints checkpoint_files []) λ checkpoint.
    some (record { memoize = memoize; memo_lookup_table = if memoize then checkpoint else [] })
