-- ===== src/Dataflow/Memo/Raising.antt =====
-- A checkpoint in which pickle.dump raises: checkpoint of parsl/dataflow/dflow.py.
use parsl.Prelude.{ℕ, Bool, true, ◌≡◌, refl, ap, ◌∙◌, Option, some, List, [], ◌∷◌, ◌++◌, All}
use parsl.Dataflow.Objects.{Object, ok, err}
use parsl.Dataflow.Memo.Hash.{Hashsum, no_hash, hash}
use parsl.Dataflow.Memo.Memoizer.{Future, Saved}
use parsl.Dataflow.Memo.Checkpoint.{
  Checkpoints, Finished, Dump, written, raises, Piece, complete, Loop, raised, saved_entry,
  left_behind, dump_entry, entries, end_loop, checkpoint,
}
use parsl.Dataflow.Memo.History.{saved, saved_of}
use parsl.Dataflow.Memo.Written.{AllWritten, pieces}

module _ (dump : Saved → Dump) (partial : Bool) where
  dump_entry-before :
      (hs : Hashsum) (f : Future) (rest : Loop) (es : List Saved)
      → All (λ e. dump e ≡ written) (saved_of hs f ++ es)
      → (All (λ e. dump e ≡ written) es
          → (rest.is_raised ≡ true) × (rest.pieces ≡ pieces es ++ left_behind partial))
      → (let l = dump_entry dump (saved_entry hs f) rest in
          (l.is_raised ≡ true) × (l.pieces ≡ pieces (saved_of hs f ++ es) ++ left_behind partial))
  dump_entry-before no_hash f rest es a before = before a
  dump_entry-before (hash h) (err e) rest es a before = before a
  dump_entry-before (hash h) (ok r) rest es a before =
      let (ends, wrote) = before a.1 in
      rw a.0 (ends, ap (λ ps. complete (record { hash = h; result = r }) ∷ ps) wrote)

  dump_entry-raises :
      (o : Option Saved) (e : Saved) (rest : Loop)
      → o ≡ some e
      → dump e ≡ raises partial
      → (let l = dump_entry dump o rest in (l.is_raised ≡ true) × (l.pieces ≡ left_behind partial))
  dump_entry-raises o e rest s d = rw (s, d) (refl, refl)

  entries-raised :
      (before after : List Finished) (t : Finished) (e : Saved)
      → AllWritten dump before
      → saved_entry t.task.hashsum t.app_fu ≡ some e
      → dump e ≡ raises partial
      → (let l = entries dump (before ++ t ∷ after) in
          (l.is_raised ≡ true) × (l.pieces ≡ pieces (saved before) ++ left_behind partial))
  unfolding entries
  entries-raised [] after t e a s d =
      dump_entry-raises (saved_entry t.task.hashsum t.app_fu) e (entries dump after) s d
  entries-raised (b ∷ before) after t e a s d =
      dump_entry-before b.task.hashsum b.app_fu (entries dump (before ++ t ∷ after)) (saved before)
        a (λ rest. entries-raised before after t e rest s d)

  end_loop-raised :
      (l : Loop) (ps : List Piece) (k : Checkpoints)
      → (l.is_raised ≡ true) × (l.pieces ≡ ps)
      → end_loop l k ≡ raised (record k { file = k.file ++ ps })
  end_loop-raised l ps k h = rw (h.0, h.1) refl

  -- The dump of the entry of a task in the queue raises, and those of the tasks before it do not.
  -- `checkpoint` raises, the file has got the entries of the tasks before and what that dump has
  -- written, and the queue is empty: the tasks after it are neither in the file nor in the queue.
  pub checkpoint_loses_queue :
      (before after : List Finished) (t : Finished) (h : ℕ) (r : Object) (k : Checkpoints)
      → k.checkpointable_tasks ≡ before ++ t ∷ after
      → AllWritten dump before
      → t.task.hashsum ≡ hash h
      → t.app_fu ≡ ok r
      → dump (record { hash = h; result = r }) ≡ raises partial
      → checkpoint dump [] k
        ≡ raised (record k {
          checkpointable_tasks = [];
          file = k.file ++ (pieces (saved before) ++ left_behind partial);
        })
  unfolding checkpoint
  checkpoint_loses_queue before after t h r k q a s u d =
      ap (λ us. end_loop (entries dump us) (record k { checkpointable_tasks = [] })) q
      ∙ end_loop-raised (entries dump (before ++ t ∷ after))
          (pieces (saved before) ++ left_behind partial) (record k { checkpointable_tasks = [] })
          (entries-raised before after t (record { hash = h; result = r }) a (rw (s, u) refl) d)
