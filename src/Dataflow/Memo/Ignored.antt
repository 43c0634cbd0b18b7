-- ===== src/Dataflow/Memo/Ignored.antt =====
-- The kwargs that `ignore_for_cache` names: make_hash of parsl/dataflow/memoization.py.
use parsl.Prelude.{
  ℕ, false, ◌≡◌, ◌≢◌, refl, Option, none, some, List, ◌∷◌, ◌++◌, ◌==◌, arith, inl, inr,
  Option-cases,
}
use parsl.Dataflow.Memo.Hash.{
  Value, Fields, Library, bind, get_kwarg, del_each, MemoTask, make_hash, split_outputs,
}
use parsl.Dataflow.Memo.Kwargs.{
  set_kwarg, DistinctKeys, OnSome, get-set_ne, del_each-set, get-del_each_self, del_missing,
  del_each_missing,
}

module _ (lib : Library) where
  -- The value of a kwarg that is ignored for the cache, and is not `outputs`, makes no difference to the
  -- hash of a call, nor to whether it is made.
  pub make_hash-ignored :
      (t : MemoTask) (k : ℕ) (v : Value) (is js : List ℕ)
      → t.ignore_for_cache ≡ is ++ k ∷ js
      → k ≢ lib.outputs
      → make_hash lib (record t { kwargs = set_kwarg k v t.kwargs }) ≡ make_hash lib t
  unfolding make_hash
  make_hash-ignored t k v is js e h = simp (
    e,
    del_each-set k v is js t.kwargs,
    get-set_ne lib.outputs k v t.kwargs (other k lib.outputs h),
  )
    where
      other : (i j : ℕ) → i ≢ j → (i == j) ≡ false
      other i j d = ground arith

  bind-none : {A B : Type 0} (o : Option A) (f : A → Option B) → o ≡ none → bind o f ≡ none
  bind-none o f h = rw h refl

  bind-OnSome :
      {B : Type 0} (P : Fields → Type 0) (o : Option Fields) (f : Fields → Option B)
      → OnSome P o
      → ((fs : Fields) → P fs → f fs ≡ none)
      → bind o f ≡ none
  bind-OnSome P none f p h = refl
  bind-OnSome P (some fs) f p h = h fs p

  split_outputs_missing :
      (v : Value) (fs : Fields)
      → get_kwarg lib.outputs fs ≡ none
      → split_outputs lib (some v) fs ≡ none
  unfolding split_outputs
  split_outputs_missing v fs h = rw (del_missing lib.outputs fs h) refl

  -- A call for which `outputs` is ignored for the cache has no hash: `make_hash` raises an exception,
  -- whether the call has the kwarg or not. The kwargs have each key once, as dictionaries do.
  pub ignored_outputs_raise :
      (t : MemoTask) (is js : List ℕ)
      → DistinctKeys t.kwargs
      → t.ignore_for_cache ≡ is ++ lib.outputs ∷ js
      → make_hash lib t ≡ none
  unfolding make_hash
  ignored_outputs_raise t is js d e = rw e (elim (Option-cases (get_kwarg lib.outputs t.kwargs)) [
    | inl absent ↦
        bind-none (del_each (is ++ lib.outputs ∷ js) t.kwargs) _
          (del_each_missing lib.outputs is js t.kwargs absent)
    | inr (v, given) ↦
        bind-OnSome (λ fs. get_kwarg lib.outputs fs ≡ none)
          (del_each (is ++ lib.outputs ∷ js) t.kwargs) _
          (get-del_each_self lib.outputs is js t.kwargs d)
          (λ fs missing. rw (given, split_outputs_missing v fs missing) refl)
  ])
