-- ===== src/Dataflow/Memo/Checkpoint.antt =====
-- Checkpoints of finished tasks: handle_app_update and checkpoint of parsl/dataflow/dflow.py. pickle.dump
-- of the standard library is the parameter `dump`. The directory and the file can be written.
use parsl.Prelude.{
  ℕ, ◌+◌, Bool, true, false, Option, none, some, List, [], ◌∷◌, ◌++◌, if◌then◌else◌,
}
use parsl.Dataflow.Objects.{ok, err}
use parsl.Dataflow.Memo.Hash.{MemoTask, Hashsum, no_hash, hash}
use parsl.Dataflow.Memo.Memoizer.{Memoizer, Future, Saved, CheckpointFile, holding, update_memo}

pub data CheckpointMode : Type 0 where
  task_exit manual periodic dfk_exit no_checkpoints : CheckpointMode

-- A task whose app future is done, with what the future holds.
pub record Finished : Type 0 where
  pub task : MemoTask
  pub app_fu : Future

-- How `pickle.dump` ends for an entry: it has written it, or it raises, as for a result that cannot be
-- pickled, and has written a part of it or nothing.
pub data Dump : Type 0 where
  written : Dump
  raises : (partial : Bool) → Dump

-- A whole entry of tasks.pkl, or what a dump has left that raised.
pub data Piece : Type 0 where
  complete : Saved → Piece
  fragment : Piece

-- The parts of the kernel that are used here; `file` is tasks.pkl.
pub record Checkpoints : Type 0 where
  pub memoizer : Memoizer
  pub checkpoint_mode : CheckpointMode
  pub checkpointable_tasks : List Finished
  pub checkpointed_tasks : ℕ
  pub file : List Piece

-- What the loop over the queue has written, and whether an exception has ended it.
pub record Loop : Type 0 where
  pub pieces : List Piece
  pub count : ℕ
  pub is_raised : Bool

-- The entry of a task, if any: not for an exception, and not without a hash.
abbrev pub saved_entry : Hashsum → Future → Option Saved
saved_entry (hash h) (ok r) = some (record { hash = h; result = r })
saved_entry (hash h) (err e) = none
saved_entry no_hash f = none

abbrev pub left_behind : Bool → List Piece
left_behind true = fragment ∷ []
left_behind false = []

abbrev pub after_dump : Dump → Saved → Loop → Loop
after_dump written e rest = record {
  pieces = complete e ∷ rest.pieces;
  count = rest.count + 1;
  is_raised = rest.is_raised;
}
after_dump (raises partial) e rest = record {
  pieces = left_behind partial;
  count = 0;
  is_raised = true;
}

abbrev pub dump_entry : (Saved → Dump) → Option Saved → Loop → Loop
dump_entry dump none rest = rest
dump_entry dump (some e) rest = after_dump (dump e) e rest

unfoldable pub entries : (Saved → Dump) → List Finished → Loop
entries dump [] = record { pieces = []; count = 0; is_raised = false }
entries dump (t ∷ ts) = dump_entry dump (saved_entry t.task.hashsum t.app_fu) (entries dump ts)

-- A call returns or raises, and leaves the kernel in this state.
pub data Ending : Type 0 where
  returned raised : Checkpoints → Ending

abbrev pub left_by : Ending → Checkpoints
left_by (returned k) = k
left_by (raised k) = k

abbrev pub end_loop : Loop → Checkpoints → Ending
end_loop l k =
    if l.is_raised
    then raised (record k { file = k.file ++ l.pieces })
    else returned (record k {
      file = k.file ++ l.pieces;
      checkpointed_tasks = k.checkpointed_tasks + l.count;
    })

-- `if tasks:` is false for an empty list too, and for no list at all.
unfoldable pub checkpoint : (Saved → Dump) → List Finished → Checkpoints → Ending
unfolding entries
checkpoint dump [] k =
    end_loop (entries dump k.checkpointable_tasks) (record k { checkpointable_tasks = [] })
checkpoint dump (t ∷ ts) k = end_loop (entries dump (t ∷ ts)) k

abbrev pub queued : Finished → Checkpoints → Ending
queued t k = returned (record k { checkpointable_tasks = k.checkpointable_tasks ++ t ∷ [] })

abbrev pub by_mode : (Saved → Dump) → CheckpointMode → Finished → Checkpoints → Ending
by_mode dump task_exit t k = checkpoint dump (t ∷ []) k
by_mode dump manual t k = queued t k
by_mode dump periodic t k = queued t k
by_mode dump dfk_exit t k = queued t k
by_mode dump no_checkpoints t k = returned k

unfoldable pub handle_app_update : (Saved → Dump) → Finished → Checkpoints → Ending
unfolding update_memo checkpoint
handle_app_update dump t k =
    by_mode dump k.checkpoint_mode t
      (record k { memoizer = update_memo t.task t.app_fu k.memoizer })

-- A task finishes, or the user or the timer calls `checkpoint`.
pub data Event : Type 0 where
  finishes : Finished → Event
  takes_checkpoint : Event

-- The future that runs the handler as its callback logs an exception of it and goes on.
abbrev pub happen : (Saved → Dump) → Event → Checkpoints → Checkpoints
happen dump (finishes t) k = left_by (handle_app_update dump t k)
happen dump takes_checkpoint k = left_by (checkpoint dump [] k)

unfoldable pub happen_each : (Saved → Dump) → List Event → Checkpoints → Checkpoints
unfolding handle_app_update checkpoint
happen_each dump [] k = k
happen_each dump (event ∷ events) k = happen_each dump events (happen dump event k)

abbrev pub cleanup_by : (Saved → Dump) → CheckpointMode → Checkpoints → Ending
cleanup_by dump no_checkpoints k = returned k
cleanup_by dump _ k = checkpoint dump [] k

unfoldable pub cleanup_checkpoint : (Saved → Dump) → Checkpoints → Ending
unfolding checkpoint
cleanup_checkpoint dump k = cleanup_by dump k.checkpoint_mode k

abbrev pub and_complete : Saved → CheckpointFile → CheckpointFile
and_complete e (holding es) = holding (e ∷ es)
and_complete e file = file

-- What `pickle.load` reads of the file. What it makes of a fragment, and of what comes after one, is the
-- parameter `load_fragment`.
unfoldable pub read_file :
    (load_fragment : List Piece → CheckpointFile) → List Piece → CheckpointFile
read_file load_fragment [] = holding []
read_file load_fragment (fragment ∷ pieces) = load_fragment pieces
read_file load_fragment (complete e ∷ pieces) = and_complete e (read_file load_fragment pieces)
