-- ===== src/Dataflow/Memo/Examples.antt =====
-- Calls and a memoizer at concrete values (parsl/dataflow/memoization.py).
mod Saving
use parsl.Prelude.{
  ℕ, ◌+◌, ◌*◌, ◌%◌, true, ◌≡◌, ◌≢◌, refl, Option, none, some, List, [], ◌∷◌, ◌++◌, length, arith,
  All, if◌then◌else◌, ◌==◌,
}
use parsl.Dataflow.Objects.{Object, atom, ok, err, raised}
use parsl.Dataflow.Memo.Hash.{
  Bytes, Value, plain, list, dict, function, nil, cons, end, field, Picklable, scalar, byte_strings,
  function_name, Library, MemoTask, no_hash, hash, make_hash, get_kwarg,
}
use parsl.Dataflow.Memo.Same.{Same, lists, dicts, both, none_left, swap}
use parsl.Dataflow.Memo.Calls.{SameCall}
use parsl.Dataflow.Memo.Memoizer.{
  Memoizer, Future, lookup, check_memo, update_memo, new_memoizer, Saved, broken,
}
use parsl.Dataflow.Memo.Checkpoint.{
  Checkpoints, Finished, Dump, written, raises, periodic, no_checkpoints, returned, left_by, Event,
  finishes, takes_checkpoint, happen_each, cleanup_checkpoint, read_file, checkpoint, left_behind,
  Ending,
}
use parsl.Dataflow.Memo.Written.{pieces}
use parsl.Dataflow.Memo.Raising.{checkpoint_loses_queue}
use parsl.Dataflow.Memo.Reuse.{SameCall-reuses}
use parsl.Dataflow.Memo.History.{IsChecked, last_future, last_result}
use parsl.Dataflow.Memo.Finishing.{happen_each_refines}
use parsl.Dataflow.Memo.Restart.{restart_keeps_results}
use parsl.Dataflow.Memo.Kwargs.{set_kwarg, DistinctKeys}
use parsl.Dataflow.Memo.Ignored.{make_hash-ignored, ignored_outputs_raise}

-- A library that pickles with lengths, and digests to one number.
abbrev flat : List Bytes → Bytes
flat [] = []
flat (b ∷ bs) = (length b ∷ b) ++ flat bs

abbrev pickle : Picklable → Bytes
pickle (scalar n) = 1 ∷ n ∷ []
pickle (byte_strings bs) = 2 ∷ flat bs
pickle (function_name f m) = 3 ∷ f ∷ m ∷ []

abbrev digest : Bytes → ℕ
digest [] = 7
digest (b ∷ bs) = (b + 31 * digest bs) % 1009

abbrev small_library : Library
small_library = record {
  dumps = pickle;
  hexdigest = digest;
  registered_id = λ n output_ref. none;
  outputs = 5;
}

abbrev pair_dict : Value
pair_dict = dict (field 1 (plain 10) (field 2 (plain 20) end))

abbrev turned_dict : Value
turned_dict = dict (field 2 (plain 20) (field 1 (plain 10) end))

one_ne_two : ◌≢◌ {A = ℕ} 1 2
one_ne_two e = absurd (omega arith)

abbrev turned : Same (list (cons pair_dict nil)) (list (cons turned_dict nil))
turned = lists (both (dicts (swap 1 2 (plain 10) (plain 20) end one_ne_two)) none_left)

abbrev pub call : MemoTask
call = record {
  func = function 3 4;
  args = list (cons pair_dict nil);
  kwargs = field 8 (plain 1) (field 9 (plain 2) end);
  memoize = true;
  ignore_for_cache = 9 ∷ [];
  hashsum = no_hash;
}

abbrev turned_call : MemoTask
turned_call = record call {
  args = list (cons turned_dict nil);
  kwargs = field 9 (plain 2) (field 8 (plain 1) end);
}

eight_ne_nine : ◌≢◌ {A = ℕ} 8 9
eight_ne_nine e = absurd (omega arith)

same_call : SameCall call turned_call
same_call = record {
  func = refl;
  args = turned;
  kwargs = swap 8 9 (plain 1) (plain 2) end eight_ne_nine;
  ignored = refl;
}

make_hash_of_call : make_hash small_library call ≡ some 576
unfolding make_hash
make_hash_of_call = refl

make_hash_of_turned : make_hash small_library turned_call ≡ some 576
unfolding make_hash
make_hash_of_turned = refl

abbrev pub memoizer : Memoizer
memoizer = record { memoize = true; memo_lookup_table = [] }

SameCall-reuses_example :
    (t' : MemoTask) × (found : Option Future) × (check_memo small_library memoizer call
      ≡ some (t', found))
    × (check_memo small_library (update_memo t' (ok (atom 42)) memoizer) turned_call
        ≡ some (record turned_call { hashsum = hash 576 }, some (ok (atom 42))))
SameCall-reuses_example =
    SameCall-reuses small_library memoizer call turned_call (ok (atom 42)) 576 refl refl refl
      same_call make_hash_of_call

nine_ne_five : ◌≢◌ {A = ℕ} 9 5
nine_ne_five e = absurd (omega arith)

make_hash-ignored_example :
    make_hash small_library (record call { kwargs = set_kwarg 9 (plain 77) call.kwargs })
    ≡ make_hash small_library call
make_hash-ignored_example =
    make_hash-ignored small_library call 9 (plain 77) [] [] refl nine_ne_five

-- The kwargs `8` and `outputs`, both ignored.
abbrev ignoring_outputs : MemoTask
ignoring_outputs = record call {
  kwargs = field 8 (plain 1) (field 5 (list nil) end);
  ignore_for_cache = 8 ∷ 5 ∷ [];
}

distinct_kwargs : DistinctKeys ignoring_outputs.kwargs
unfolding get_kwarg
distinct_kwargs = (refl, (refl, tt))

ignored_outputs_raise_example : make_hash small_library ignoring_outputs ≡ none
ignored_outputs_raise_example =
    ignored_outputs_raise small_library ignoring_outputs (8 ∷ []) [] distinct_kwargs refl
