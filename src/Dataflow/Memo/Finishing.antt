-- ===== src/Dataflow/Memo/Finishing.antt =====
-- The memo table over the events of a run: handle_app_update and checkpoint of parsl/dataflow/dflow.py.
use parsl.Prelude.{ℕ, ◌≡◌, refl, sym, ap, subst, ◌∙◌, List, [], ◌∷◌, All, Bool-cases, inl, inr}
use parsl.Dataflow.Memo.Memoizer.{Memoizer, Saved, lookup, update_memo}
use parsl.Dataflow.Memo.Checkpoint.{
  Checkpoints, Finished, CheckpointMode, task_exit, manual, periodic, dfk_exit, no_checkpoints,
  Dump, Loop, Event, finishes, takes_checkpoint, entries, left_by, end_loop, checkpoint, by_mode,
  happen, handle_app_update, happen_each,
}
use parsl.Dataflow.Memo.History.{
  IsChecked, last_future, finished, lookup-update_memo, memoize-update_memo,
}

memoizer-end_loop : (l : Loop) (k : Checkpoints) → (left_by (end_loop l k)).memoizer ≡ k.memoizer
memoizer-end_loop l k = elim (Bool-cases l.is_raised) [ inl e ↦ rw e refl | inr e ↦ rw e refl ]

module _ (dump : Saved → Dump) where
  memoizer-checkpoint :
      (ts : List Finished) (k : Checkpoints)
      → (left_by (checkpoint dump ts k)).memoizer ≡ k.memoizer
  unfolding checkpoint
  memoizer-checkpoint [] k =
      memoizer-end_loop (entries dump k.checkpointable_tasks)
        (record k { checkpointable_tasks = [] })
  memoizer-checkpoint (t ∷ ts) k = memoizer-end_loop (entries dump (t ∷ ts)) k

  memoizer-by_mode :
      (mode : CheckpointMode) (t : Finished) (k : Checkpoints)
      → (left_by (by_mode dump mode t k)).memoizer ≡ k.memoizer
  memoizer-by_mode task_exit t k = memoizer-checkpoint (t ∷ []) k
  memoizer-by_mode manual t k = refl
  memoizer-by_mode periodic t k = refl
  memoizer-by_mode dfk_exit t k = refl
  memoizer-by_mode no_checkpoints t k = refl

  memoizer-handle_app_update :
      (t : Finished) (k : Checkpoints)
      → (left_by (handle_app_update dump t k)).memoizer ≡ update_memo t.task t.app_fu k.memoizer
  unfolding handle_app_update
  memoizer-handle_app_update t k =
      memoizer-by_mode k.checkpoint_mode t
        (record k { memoizer = update_memo t.task t.app_fu k.memoizer })

  -- The table is a map from hashes to futures. Whatever tasks finish that `check_memo` has looked up or
  -- that failed before, whatever checkpoints are taken in between, and however pickle.dump ends for
  -- their results, under each hash the table then has the future of the last of these tasks with that
  -- hash, or what it had before where there is none.
  pub happen_each_refines :
      (events : List Event) (k : Checkpoints)
      → All (IsChecked k.memoizer.memoize) (finished events)
      → (h : ℕ)
      → lookup h (happen_each dump events k).memoizer.memo_lookup_table
        ≡ last_future h (finished events) (lookup h k.memoizer.memo_lookup_table)
  unfolding happen_each
  happen_each_refines [] k c h = refl
  happen_each_refines (takes_checkpoint ∷ events) k c h =
      let same = memoizer-checkpoint [] k in
      let c' = subst (λ (m : Memoizer). All (IsChecked m.memoize) (finished events)) (sym same) c in
      happen_each_refines events (happen dump takes_checkpoint k) c' h
      ∙ ap (λ (m : Memoizer). last_future h (finished events) (lookup h m.memo_lookup_table)) same
  happen_each_refines (finishes t ∷ events) k c h =
      let updated = memoizer-handle_app_update t k in
      let on =
        ap (λ (m : Memoizer). m.memoize) updated ∙ memoize-update_memo t.task t.app_fu k.memoizer in
      let c' = subst (λ b. All (IsChecked b) (finished events)) (sym on) c.1 in
      happen_each_refines events (happen dump (finishes t) k) c' h
      ∙ ap (λ (m : Memoizer). last_future h (finished events) (lookup h m.memo_lookup_table))
          updated
      ∙ ap (last_future h (finished events)) (lookup-update_memo t k.memoizer h c.0)
