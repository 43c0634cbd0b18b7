-- ===== src/Dataflow/Memo/Restart.antt =====
-- A restart from the checkpoint file that a run has written: checkpoint of parsl/dataflow/dflow.py, and
-- load_checkpoints of parsl/dataflow/memoization.py.
use parsl.Prelude.{
  ℕ, Bool, true, false, ◌≡◌, ◌≢◌, refl, sym, ap, subst, ◌∙◌, Option, none, some, List, [], ◌∷◌,
  ◌++◌, ◌==◌, if◌then◌else◌,
}
use parsl.Dataflow.Objects.{ok, err}
use parsl.Dataflow.Memo.Hash.{Hashsum, no_hash, hash}
use parsl.Dataflow.Memo.Memoizer.{
  Memoizer, Saved, CheckpointFile, Future, Table, lookup, store, load_entries, new_memoizer,
}
use parsl.Dataflow.Memo.Checkpoint.{
  Checkpoints, Finished, CheckpointMode, Dump, task_exit, manual, periodic, dfk_exit,
  no_checkpoints, Piece, Event, returned, checkpoint, happen_each, cleanup_by, cleanup_checkpoint,
  read_file,
}
use parsl.Dataflow.Memo.Reuse.{lookup-store}
use parsl.Dataflow.Memo.History.{last_result, saved, saved_of, finished, result_or, is_of}
use parsl.Dataflow.Memo.Written.{AllWritten, pieces, read_file-pieces}
use parsl.Dataflow.Memo.Kept.{Kept, Fits, Fits-nil, checkpoint-Kept, happen_each-Kept}

lookup-load_entries :
    (h : ℕ) (ts : List Finished) (table : Table)
    → lookup h (load_entries (saved ts) table) ≡ last_result h ts (lookup h table)
unfolding load_entries
lookup-load_entries h [] table = refl
lookup-load_entries h (t ∷ ts) table = by_entry t.task.hashsum t.app_fu (lookup-load_entries h ts)
  where
    by_entry :
        (hs : Hashsum) (f : Future)
        → ((before : Table)
            → lookup h (load_entries (saved ts) before) ≡ last_result h ts (lookup h before))
        → lookup h (load_entries (saved_of hs f ++ saved ts) table)
          ≡ last_result h ts (if is_of hs h then result_or f (lookup h table) else lookup h table)
    by_entry no_hash f rest = rest table
    by_entry (hash j) (ok r) rest =
        rest (store j (ok r) table) ∙ ap (last_result h ts) (lookup-store j h (ok r) table)
    by_entry (hash j) (err e) rest =
        rest table ∙ ap (last_result h ts) (same (j == h) (lookup h table))
      where
        same : (b : Bool) (o : Option Future) → o ≡ (if b then o else o)
        same true o = refl
        same false o = refl

module _ (dump : Saved → Dump) where
  cleanup_checkpoint_on :
      (k : Checkpoints)
      → k.checkpoint_mode ≢ no_checkpoints
      → cleanup_checkpoint dump k ≡ checkpoint dump [] k
  unfolding cleanup_checkpoint
  cleanup_checkpoint_on k on = writes k.checkpoint_mode on
    where
      writes :
          (of : CheckpointMode) → of ≢ no_checkpoints → cleanup_by dump of k ≡ checkpoint dump [] k
      writes task_exit d = refl
      writes no_checkpoints d = absurd (d refl)
      writes manual d = refl
      writes periodic d = refl
      writes dfk_exit d = refl

  new_run-Kept : (k : Checkpoints) → k.file ≡ [] → k.checkpointable_tasks ≡ [] → Kept dump [] k
  new_run-Kept k f q = record {
    all = ap (λ us. k.file ++ pieces (saved us)) q ∙ ap (λ ps. ps ++ []) f;
    fits = subst (Fits k.checkpoint_mode) (sym q) (Fits-nil dump k.checkpoint_mode);
    picklable = subst (AllWritten dump) (sym q) tt;
  }

  -- A run in any mode but that without checkpoints starts with an empty file and an empty queue. Tasks
  -- finish, and checkpoints are taken in between, at any time. When the results that are to be saved can
  -- be pickled, the last checkpoint of the cleanup returns, and a memoizer that is started from the file
  -- has under each hash the result of the last successful one of the tasks with that hash, and nothing
  -- where there is none.
  pub restart_keeps_results :
      (load_fragment : List Piece → CheckpointFile) (events : List Event) (k : Checkpoints)
      → k.checkpoint_mode ≢ no_checkpoints
      → k.file ≡ []
      → k.checkpointable_tasks ≡ []
      → AllWritten dump (finished events)
      → (k' : Checkpoints) × (m : Memoizer) × (cleanup_checkpoint dump (happen_each dump events k)
          ≡ returned k')
        × (new_memoizer true (read_file load_fragment k'.file ∷ []) ≡ some m)
        × ((h : ℕ) → lookup h m.memo_lookup_table ≡ last_result h (finished events) none)
  unfolding new_memoizer lookup
  restart_keeps_results load_fragment events k on f q p =
      let (kept, mode) = happen_each-Kept dump events [] k on (new_run-Kept k f q) p in
      let (n, e, file, _, _) =
        checkpoint-Kept dump (finished events) (happen_each dump events k) kept in
      let reads =
        ap (read_file load_fragment) file
        ∙ read_file-pieces load_fragment (saved (finished events)) in
      (
        n,
        record { memoize = true; memo_lookup_table = load_entries (saved (finished events)) [] },
        cleanup_checkpoint_on (happen_each dump events k) (λ off. on (sym mode ∙ off)) ∙ e,
        ap (λ (file : CheckpointFile). new_memoizer true (file ∷ [])) reads,
        λ h. lookup-load_entries h (finished events) [],
      )
