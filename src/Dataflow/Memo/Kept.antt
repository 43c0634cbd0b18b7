-- ===== src/Dataflow/Memo/Kept.antt =====
-- The checkpoint file and the queue of tasks over the events of a run: checkpoint of
-- parsl/dataflow/dflow.py.
use parsl.Prelude.{
  ◌≡◌, ◌≢◌, refl, sym, ap, subst, ◌∙◌, List, [], ◌∷◌, ◌++◌, All, append-nil, append_assoc,
}
use parsl.Dataflow.Resolver.Laws.{All-append_elim}
use parsl.Dataflow.Memo.Memoizer.{Saved, update_memo}
use parsl.Dataflow.Memo.Checkpoint.{
  Checkpoints, Finished, CheckpointMode, task_exit, manual, periodic, dfk_exit, no_checkpoints,
  Dump, written, Piece, Ending, returned, Event, finishes, takes_checkpoint, left_by, checkpoint,
  queued, by_mode, happen, handle_app_update, happen_each,
}
use parsl.Dataflow.Memo.History.{saved, saved_of, finished}
use parsl.Dataflow.Memo.Written.{
  AllWritten, pieces, pieces-append, saved-append, AllWritten-append, end_loop-written,
}

-- In the mode `task_exit` the queue is not used.
abbrev pub Fits : CheckpointMode → List Finished → Type 0
Fits task_exit queue = queue ≡ []
Fits _ queue = Unit

module _ (dump : Saved → Dump) where
  -- The file and then the queue have the results of these tasks, in order.
  pub record Kept (ts : List Finished) (k : Checkpoints) : Type 0 where
    pub all : k.file ++ pieces (saved k.checkpointable_tasks) ≡ pieces (saved ts)
    pub fits : Fits k.checkpoint_mode k.checkpointable_tasks
    pub picklable : AllWritten dump k.checkpointable_tasks

  pub Fits-nil : (mode : CheckpointMode) → Fits mode []
  Fits-nil task_exit = refl
  Fits-nil manual = tt
  Fits-nil periodic = tt
  Fits-nil dfk_exit = tt
  Fits-nil no_checkpoints = tt

  pub checkpoint-Kept :
      (ts : List Finished) (k : Checkpoints)
      → Kept ts k
      → (n : Checkpoints) × (checkpoint dump [] k ≡ returned n)
        × (n.file ≡ pieces (saved ts))
        × (n.checkpoint_mode ≡ k.checkpoint_mode)
        × Kept ts n
  unfolding checkpoint
  checkpoint-Kept ts k kept =
      let (n, e, file, queue, mode) =
        end_loop-written dump k.checkpointable_tasks (record k { checkpointable_tasks = [] })
          kept.picklable in
      let whole = file ∙ kept.all in
      (
        n,
        e,
        whole,
        mode,
        record {
          all = ap (λ us. n.file ++ pieces (saved us)) queue ∙ append-nil n.file ∙ whole;
          fits = subst (Fits n.checkpoint_mode) (sym queue) (Fits-nil n.checkpoint_mode);
          picklable = subst (AllWritten dump) (sym queue) tt;
        },
      )

  one_more :
      (ts : List Finished) (t : Finished) (file : List Piece) (queue : List Finished)
      → file ++ pieces (saved queue) ≡ pieces (saved ts)
      → file ++ pieces (saved (queue ++ t ∷ [])) ≡ pieces (saved (ts ++ t ∷ []))
  one_more ts t file queue h =
      ap (λ es. file ++ pieces es) (saved-append queue (t ∷ []))
      ∙ ap (λ ps. file ++ ps) (pieces-append (saved queue) (saved (t ∷ [])))
      ∙ sym (append_assoc file (pieces (saved queue)) (pieces (saved (t ∷ []))))
      ∙ ap (λ ps. ps ++ pieces (saved (t ∷ []))) h
      ∙ sym (pieces-append (saved ts) (saved (t ∷ [])))
      ∙ ap pieces (sym (saved-append ts (t ∷ [])))

  abbrev KeptBy : CheckpointMode → List Finished → Ending → Type 0
  KeptBy mode ts e = Kept ts (left_by e) × ((left_by e).checkpoint_mode ≡ mode)

  queued-Kept :
      (mode : CheckpointMode) (ts : List Finished) (t : Finished) (k : Checkpoints)
      → mode ≢ task_exit
      → k.checkpoint_mode ≡ mode
      → Kept ts k
      → AllWritten dump (t ∷ [])
      → KeptBy mode (ts ++ t ∷ []) (queued t k)
  queued-Kept mode ts t k other m kept p = (
    record {
      all = one_more ts t k.file k.checkpointable_tasks kept.all;
      fits =
          subst (λ (of : CheckpointMode). Fits of (k.checkpointable_tasks ++ t ∷ [])) (sym m)
            (any mode other);
      picklable = AllWritten-append dump k.checkpointable_tasks (t ∷ []) kept.picklable p;
    },
    m,
  )
    where
      any : (of : CheckpointMode) → of ≢ task_exit → Fits of (k.checkpointable_tasks ++ t ∷ [])
      any task_exit d = absurd (d refl)
      any manual d = tt
      any periodic d = tt
      any dfk_exit d = tt
      any no_checkpoints d = tt

  at_exit-Kept :
      (ts : List Finished) (t : Finished) (k : Checkpoints)
      → k.checkpoint_mode ≡ task_exit
      → Kept ts k
      → AllWritten dump (t ∷ [])
      → KeptBy task_exit (ts ++ t ∷ []) (checkpoint dump (t ∷ []) k)
  unfolding checkpoint
  at_exit-Kept ts t k m kept p =
      let (n, e, file, queue, mode) = end_loop-written dump (t ∷ []) k p in
      let empty = subst (λ (of : CheckpointMode). Fits of k.checkpointable_tasks) m kept.fits in
      let none_queued = queue ∙ empty in
      let old : k.file ≡ pieces (saved ts) =
        sym (append-nil k.file) ∙ ap (λ us. k.file ++ pieces (saved us)) (sym empty) ∙ kept.all in
      let ended = ap left_by (sym e) in
      (
        subst (Kept (ts ++ t ∷ [])) ended (record {
          all =
              ap (λ us. n.file ++ pieces (saved us)) none_queued
              ∙ append-nil n.file
              ∙ file
              ∙ ap (λ ps. ps ++ pieces (saved (t ∷ []))) old
              ∙ sym (pieces-append (saved ts) (saved (t ∷ [])))
              ∙ ap pieces (sym (saved-append ts (t ∷ [])));
          fits = subst (Fits n.checkpoint_mode) (sym none_queued) (Fits-nil n.checkpoint_mode);
          picklable = subst (AllWritten dump) (sym none_queued) tt;
        }),
        subst (λ (l : Checkpoints). l.checkpoint_mode ≡ task_exit) ended (mode ∙ m),
      )

  by_mode-Kept :
      (mode : CheckpointMode) (ts : List Finished) (t : Finished) (k : Checkpoints)
      → mode ≢ no_checkpoints
      → k.checkpoint_mode ≡ mode
      → Kept ts k
      → AllWritten dump (t ∷ [])
      → KeptBy mode (ts ++ t ∷ []) (by_mode dump mode t k)
  by_mode-Kept task_exit ts t k on m kept p = at_exit-Kept ts t k m kept p
  by_mode-Kept no_checkpoints ts t k on m kept p = absurd (on refl)
  by_mode-Kept manual ts t k on m kept p = queued-Kept manual ts t k (λ e. cc) m kept p
  by_mode-Kept periodic ts t k on m kept p = queued-Kept periodic ts t k (λ e. cc) m kept p
  by_mode-Kept dfk_exit ts t k on m kept p = queued-Kept dfk_exit ts t k (λ e. cc) m kept p

  handle_app_update-Kept :
      (ts : List Finished) (t : Finished) (k : Checkpoints)
      → k.checkpoint_mode ≢ no_checkpoints
      → Kept ts k
      → AllWritten dump (t ∷ [])
      → KeptBy k.checkpoint_mode (ts ++ t ∷ []) (handle_app_update dump t k)
  unfolding handle_app_update
  handle_app_update-Kept ts t k on kept p =
      by_mode-Kept k.checkpoint_mode ts t
        (record k { memoizer = update_memo t.task t.app_fu k.memoizer }) on refl
        (record { all = kept.all; fits = kept.fits; picklable = kept.picklable }) p

  -- Whatever happens, the file and the queue have the results of the tasks that have finished.
  pub happen_each-Kept :
      (events : List Event) (ts : List Finished) (k : Checkpoints)
      → k.checkpoint_mode ≢ no_checkpoints
      → Kept ts k
      → AllWritten dump (finished events)
      → (let n = happen_each dump events k in
          Kept (ts ++ finished events) n × (n.checkpoint_mode ≡ k.checkpoint_mode))
  unfolding happen_each
  happen_each-Kept [] ts k on kept p = (subst (λ us. Kept us k) (sym (append-nil ts)) kept, refl)
  happen_each-Kept (takes_checkpoint ∷ events) ts k on kept p =
      let (n, e, file, mode, kept') = checkpoint-Kept ts k kept in
      let ended = ap left_by (sym e) in
      let mode' = subst (λ (l : Checkpoints). l.checkpoint_mode ≡ k.checkpoint_mode) ended mode in
      let (all, m) =
        happen_each-Kept events ts (happen dump takes_checkpoint k) (λ off. on (sym mode' ∙ off))
          (subst (Kept ts) ended kept') p in
      (all, m ∙ mode')
  happen_each-Kept (finishes t ∷ events) ts k on kept p =
      let now = saved_of t.task.hashsum t.app_fu in
      let (first, later) =
        All-append_elim (λ e. dump e ≡ written) now (saved (finished events)) p in
      let first' = subst (All (λ e. dump e ≡ written)) (sym (append-nil now)) first in
      let (kept', mode) = handle_app_update-Kept ts t k on kept first' in
      let (all, m) =
        happen_each-Kept events (ts ++ t ∷ []) (happen dump (finishes t) k)
          (λ off. on (sym mode ∙ off)) kept' later in
      (
        subst (λ us. Kept us (happen_each dump events (happen dump (finishes t) k)))
            (append_assoc ts (t ∷ []) (finished events)) all,
        m ∙ mode,
      )
