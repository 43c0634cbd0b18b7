-- ===== src/Dataflow/Memo/Written.antt =====
-- What the loop of checkpoint of parsl/dataflow/dflow.py writes when pickle.dump does not raise.
use parsl.Prelude.{
  false, ◌+◌, ◌≡◌, refl, sym, ap, subst, ◌∙◌, List, [], ◌∷◌, ◌++◌, All, append_assoc,
}
use parsl.Dataflow.Objects.{ok, err}
use parsl.Dataflow.Resolver.Laws.{All-append_intro}
use parsl.Dataflow.Memo.Hash.{Hashsum, no_hash, hash}
use parsl.Dataflow.Memo.Memoizer.{Future, Saved, CheckpointFile, holding}
use parsl.Dataflow.Memo.Checkpoint.{
  Checkpoints, Finished, Dump, written, Piece, complete, Loop, returned, saved_entry, dump_entry,
  entries, end_loop, and_complete, read_file,
}
use parsl.Dataflow.Memo.History.{saved, saved_of}

-- Every entry that the tasks have can be pickled.
abbrev pub AllWritten : (Saved → Dump) → List Finished → Type 0
AllWritten dump ts = All (λ e. dump e ≡ written) (saved ts)

abbrev pub pieces : List Saved → List Piece
pieces [] = []
pieces (e ∷ es) = complete e ∷ pieces es

pub pieces-append : (es fs : List Saved) → pieces (es ++ fs) ≡ pieces es ++ pieces fs
pieces-append [] fs = refl
pieces-append (e ∷ es) fs = ap (λ ps. complete e ∷ ps) (pieces-append es fs)

pub saved-append : (ts us : List Finished) → saved (ts ++ us) ≡ saved ts ++ saved us
saved-append [] us = refl
saved-append (t ∷ ts) us =
    ap (λ es. saved_of t.task.hashsum t.app_fu ++ es) (saved-append ts us)
    ∙ sym (append_assoc (saved_of t.task.hashsum t.app_fu) (saved ts) (saved us))

pub read_file-pieces :
    (load_fragment : List Piece → CheckpointFile) (es : List Saved)
    → read_file load_fragment (pieces es) ≡ holding es
unfolding read_file
read_file-pieces load_fragment [] = refl
read_file-pieces load_fragment (e ∷ es) = ap (and_complete e) (read_file-pieces load_fragment es)

module _ (dump : Saved → Dump) where
  pub AllWritten-append :
      (ts us : List Finished) → AllWritten dump ts → AllWritten dump us → AllWritten dump (ts ++ us)
  AllWritten-append ts us a b =
      subst (All (λ e. dump e ≡ written)) (sym (saved-append ts us))
        (All-append_intro (λ e. dump e ≡ written) (saved ts) (saved us) a b)

  dump_entry-written :
      (hs : Hashsum) (f : Future) (rest : Loop) (es : List Saved)
      → All (λ e. dump e ≡ written) (saved_of hs f ++ es)
      → (All (λ e. dump e ≡ written) es → (rest.is_raised ≡ false) × (rest.pieces ≡ pieces es))
      → (let l = dump_entry dump (saved_entry hs f) rest in
          (l.is_raised ≡ false) × (l.pieces ≡ pieces (saved_of hs f ++ es)))
  dump_entry-written no_hash f rest es a before = before a
  dump_entry-written (hash h) (err e) rest es a before = before a
  dump_entry-written (hash h) (ok r) rest es a before =
      let (ends, wrote) = before a.1 in
      rw a.0 (ends, ap (λ ps. complete (record { hash = h; result = r }) ∷ ps) wrote)

  entries-written :
      (ts : List Finished)
      → AllWritten dump ts
      → ((entries dump ts).is_raised ≡ false) × ((entries dump ts).pieces ≡ pieces (saved ts))
  unfolding entries
  entries-written [] a = (refl, refl)
  entries-written (t ∷ ts) a =
      dump_entry-written t.task.hashsum t.app_fu (entries dump ts) (saved ts) a (entries-written ts)

  pub end_loop-written :
      (ts : List Finished) (k : Checkpoints)
      → AllWritten dump ts
      → (n : Checkpoints) × (end_loop (entries dump ts) k ≡ returned n)
        × (n.file ≡ k.file ++ pieces (saved ts))
        × (n.checkpointable_tasks ≡ k.checkpointable_tasks)
        × (n.checkpoint_mode ≡ k.checkpoint_mode)
  end_loop-written ts k a =
      let (ends, wrote) = entries-written ts a in
      (
        record k {
          file = k.file ++ (entries dump ts).pieces;
          checkpointed_tasks = k.checkpointed_tasks + (entries dump ts).count;
        },
        rw ends refl,
        ap (λ ps. k.file ++ ps) wrote,
        refl,
        refl,
      )
