-- ===== src/Dataflow/Memo/Examples/Saving.antt =====
-- Checkpoints of tasks that finish, at concrete values (parsl/dataflow/dflow.py).
use parsl.Prelude.{
  ℕ, true, ◌≡◌, ◌≢◌, refl, none, some, List, [], ◌∷◌, ◌++◌, All, if◌then◌else◌, ◌==◌,
}
use parsl.Dataflow.Objects.{Object, atom, ok, err, raised}
use parsl.Dataflow.Memo.Hash.{hash}
use parsl.Dataflow.Memo.Memoizer.{Memoizer, lookup, new_memoizer, Saved, broken}
use parsl.Dataflow.Memo.Checkpoint.{
  Checkpoints, Finished, Dump, written, raises, periodic, no_checkpoints, returned, Event, finishes,
  takes_checkpoint, happen_each, cleanup_checkpoint, read_file, checkpoint, left_behind, Ending,
}
use parsl.Dataflow.Memo.Written.{pieces}
use parsl.Dataflow.Memo.Raising.{checkpoint_loses_queue}
use parsl.Dataflow.Memo.History.{IsChecked, last_future, last_result}
use parsl.Dataflow.Memo.Finishing.{happen_each_refines}
use parsl.Dataflow.Memo.Restart.{restart_keeps_results}
use parsl.Dataflow.Memo.Examples.{call, memoizer}

-- Three tasks finish: two of one hash, of which the second fails, and one that was never launched.
abbrev first_of_three : Finished
first_of_three = record { task = record call { hashsum = hash 576 }; app_fu = ok (atom 42) }

abbrev second_of_three : Finished
second_of_three = record { task = record call { hashsum = hash 576 }; app_fu = err (raised 9) }

abbrev third_of_three : Finished
third_of_three = record { task = call; app_fu = err (raised 8) }

abbrev unpicklable : Finished
unpicklable = record { task = record call { hashsum = hash 577 }; app_fu = ok (atom 43) }

abbrev after_it : Finished
after_it = record { task = record call { hashsum = hash 578 }; app_fu = ok (atom 44) }

abbrev three : List Finished
three = first_of_three ∷ second_of_three ∷ third_of_three ∷ []

-- Between them the user takes a checkpoint.
abbrev events : List Event
events =
    finishes first_of_three
    ∷ takes_checkpoint
    ∷ finishes second_of_three
    ∷ finishes third_of_three
    ∷ []

abbrev new_run : Checkpoints
new_run = record {
  memoizer = memoizer;
  checkpoint_mode = periodic;
  checkpointable_tasks = [];
  checkpointed_tasks = 0;
  file = [];
}

three-IsChecked : All (IsChecked true) three
three-IsChecked = ((refl, refl), ((refl, refl), (tt, tt)))

-- `atom 43` cannot be pickled, and leaves a part in the file.
abbrev dump_of : Object → Dump
dump_of (atom n) = if n == 43 then raises true else written
dump_of _ = written

abbrev dump : Saved → Dump
dump e = dump_of e.result

happen_each_refines_example :
    lookup 576 (happen_each dump events new_run).memoizer.memo_lookup_table
    ≡ last_future 576 three (lookup 576 new_run.memoizer.memo_lookup_table)
happen_each_refines_example = happen_each_refines dump events new_run three-IsChecked 576

periodic_saves : periodic ≢ no_checkpoints
periodic_saves e = cc

restart_keeps_results_example :
    (k' : Checkpoints) × (m : Memoizer) × (cleanup_checkpoint dump (happen_each dump events new_run)
      ≡ returned k')
    × (new_memoizer true (read_file (λ ps. broken) k'.file ∷ []) ≡ some m)
    × ((h : ℕ) → lookup h m.memo_lookup_table ≡ last_result h three none)
restart_keeps_results_example =
    restart_keeps_results dump (λ ps. broken) events new_run periodic_saves refl refl (refl, tt)

-- The queue is lost with the task that finished after the one that cannot be pickled.
abbrev before_checkpoint : Checkpoints
before_checkpoint = record new_run {
  checkpointable_tasks = first_of_three ∷ unpicklable ∷ after_it ∷ [];
}

checkpoint_loses_queue_example :
    checkpoint dump [] before_checkpoint
    ≡ Ending.raised (record before_checkpoint {
      checkpointable_tasks = [];
      file = [] ++ (pieces (record { hash = 576; result = atom 42 } ∷ []) ++ left_behind true);
    })
checkpoint_loses_queue_example =
    checkpoint_loses_queue dump true (first_of_three ∷ []) (after_it ∷ []) unpicklable 577 (atom 43)
      before_checkpoint refl (refl, tt) refl refl refl

-- The failure is in the table, and the result of before in the file.
last_of_three : last_future 576 three none ≡ some (err (raised 9))
last_of_three = refl

result_of_three : last_result 576 three none ≡ some (ok (atom 42))
result_of_three = refl
