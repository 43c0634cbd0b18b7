-- ===== src/Dataflow/Memo/History.antt =====
-- The futures of the tasks of a run by their hashes, and what checkpoints write of them
-- (parsl/dataflow/memoization.py, and checkpoint of parsl/dataflow/dflow.py).
use parsl.Prelude.{
  ℕ, Bool, true, false, not, ◌||◌, ◌≡◌, refl, Option, some, List, [], ◌∷◌, ◌++◌, ◌==◌,
  if◌then◌else◌,
}
use parsl.Dataflow.Objects.{ok, err}
use parsl.Dataflow.Memo.Hash.{MemoTask, Hashsum, no_hash, hash}
use parsl.Dataflow.Memo.Memoizer.{Memoizer, Future, Saved, lookup, update_memo, store_if_hash}
use parsl.Dataflow.Memo.Checkpoint.{Finished, Event, finishes, takes_checkpoint}
use parsl.Dataflow.Memo.Reuse.{lookup-store}

-- What `check_memo` leaves in a task: a hash only if memoization is on for the kernel and for the task.
abbrev pub CheckedHash : Hashsum → Future → Bool → Bool → Type 0
CheckedHash no_hash f on memoize = Unit
CheckedHash (hash h) f on memoize = (on ≡ true) × (memoize ≡ true)

abbrev pub IsChecked : Bool → Finished → Type 0
IsChecked on t = CheckedHash t.task.hashsum t.app_fu on t.task.memoize

-- The future of the last task of a hash, and the result of the last successful one.
abbrev pub is_of : Hashsum → ℕ → Bool
is_of no_hash h = false
is_of (hash j) h = j == h

abbrev pub last_future : ℕ → List Finished → Option Future → Option Future
last_future h [] o = o
last_future h (t ∷ ts) o = last_future h ts (if is_of t.task.hashsum h then some t.app_fu else o)

abbrev pub result_or : Future → Option Future → Option Future
result_or (ok r) o = some (ok r)
result_or (err e) o = o

abbrev pub last_result : ℕ → List Finished → Option Future → Option Future
last_result h [] o = o
last_result h (t ∷ ts) o =
    last_result h ts (if is_of t.task.hashsum h then result_or t.app_fu o else o)

pub memoize-update_memo :
    (t : MemoTask) (f : Future) (m : Memoizer) → (update_memo t f m).memoize ≡ m.memoize
unfolding update_memo
memoize-update_memo t f m = same_memoize (not m.memoize || not t.memoize) t.hashsum
  where
    same_memoize :
        (b : Bool) (hs : Hashsum) → (if b then m else store_if_hash hs f m).memoize ≡ m.memoize
    same_memoize true hs = refl
    same_memoize false no_hash = refl
    same_memoize false (hash h) = refl

pub lookup-update_memo :
    (t : Finished) (m : Memoizer) (h : ℕ)
    → IsChecked m.memoize t
    → lookup h (update_memo t.task t.app_fu m).memo_lookup_table
      ≡ (if is_of t.task.hashsum h then some t.app_fu else lookup h m.memo_lookup_table)
unfolding update_memo
lookup-update_memo t m h c = by_hash m.memoize t.task.memoize t.task.hashsum c
  where
    by_hash :
        (on memoize : Bool) (hs : Hashsum)
        → CheckedHash hs t.app_fu on memoize
        → lookup h
            (if not on || not memoize then m else store_if_hash hs t.app_fu m).memo_lookup_table
          ≡ (if is_of hs h then some t.app_fu else lookup h m.memo_lookup_table)
    by_hash true true (hash j) c = lookup-store j h t.app_fu m.memo_lookup_table
    by_hash true false (hash j) c = cc
    by_hash false b (hash j) c = cc
    by_hash true true no_hash c = refl
    by_hash true false no_hash c = refl
    by_hash false b no_hash c = refl

-- What a checkpoint writes of tasks that are checked.
abbrev pub saved_of : Hashsum → Future → List Saved
saved_of no_hash f = []
saved_of (hash h) (ok r) = record { hash = h; result = r } ∷ []
saved_of (hash h) (err e) = []

abbrev pub saved : List Finished → List Saved
saved [] = []
saved (t ∷ ts) = saved_of t.task.hashsum t.app_fu ++ saved ts

-- The tasks that finish, in order.
abbrev pub finished : List Event → List Finished
finished [] = []
finished (finishes t ∷ events) = t ∷ finished events
finished (takes_checkpoint ∷ events) = finished events
