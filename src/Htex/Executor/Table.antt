-- ===== src/Htex/Executor/Table.antt =====
-- The task table and the futures: what parsl/executors/high_throughput/executor.py keeps of them.
use parsl.Prelude.{
  ℕ, ◌+◌, ◌<◌, Bool, true, false, ◌≡◌, refl, sym, ap, ◌∙◌, subst, Option, none, some, List, [], ◌∷◌,
  ◌++◌, ◌==◌, if◌then◌else◌, arith, Bool-cases, inl, inr, ==_iff,
}
use parsl.Htex.Interchange.State.{has, discard}
use parsl.Htex.Interchange.Tables.{NoDup, has-append, has-discard, NoDup-append, NoDup-discard}
use parsl.Htex.Executor.{
  FutureValue, FutureState, unfinished, finished, ResultMessage, Executor, set_future, returned,
  finish, finish_as,
}

abbrev pub is_unfinished : Option FutureState → Bool
is_unfinished none = false
is_unfinished (some unfinished) = true
is_unfinished (some (finished v)) = false

-- The table has each unfinished future and no other, each once, and the counter is past all of them.
pub record SoundTable (ex : Executor) : Type 0 where
  pub distinct : NoDup ex.tasks
  pub exact : (k : ℕ) → is_unfinished (ex.futures k) ≡ has k ex.tasks
  pub fresh : (k : ℕ) → ex.task_counter < k → ex.futures k ≡ none

-- What else changes does not matter.
pub other-SoundTable :
    (ex : Executor) (out : List ℕ) (e : Option ℕ) (on : Bool) (ms : List ResultMessage)
    → SoundTable ex
    → SoundTable (record ex { outgoing = out; executor_exception = e; listening = on; batch = ms })
other-SoundTable ex out e on ms s = record {
  distinct = s.distinct;
  exact = s.exact;
  fresh = s.fresh;
}

unfinished_if :
    (b h : Bool) (o : Option FutureState) (st : FutureState)
    → is_unfinished o ≡ h
    → is_unfinished (if b then some st else o) ≡ (if b then is_unfinished (some st) else h)
unfinished_if true h o st e = refl
unfinished_if false h o st e = e

pub register-SoundTable :
    (ex : Executor)
    → SoundTable ex
    → SoundTable (record ex {
      task_counter = ex.task_counter + 1;
      tasks = ex.tasks ++ (ex.task_counter + 1) ∷ [];
      futures = set_future (ex.task_counter + 1) unfinished ex.futures;
    })
register-SoundTable ex s = record {
  distinct =
      NoDup-append (ex.task_counter + 1) ex.tasks
        (sym (s.exact (ex.task_counter + 1))
          ∙ ap is_unfinished (s.fresh (ex.task_counter + 1) (omega arith)))
        s.distinct;
  exact = λ k.
      unfinished_if (ex.task_counter + 1 == k) (has k ex.tasks) (ex.futures k) unfinished
        (s.exact k)
      ∙ sym (has-append k (ex.task_counter + 1) ex.tasks);
  fresh = λ k lt.
      let other : (ex.task_counter + 1 == k) ≡ false = ground arith in
      rw other (s.fresh k (omega arith));
}

some_unfinished : (o : Option FutureState) → is_unfinished o ≡ true → o ≡ some unfinished
some_unfinished none h = cc
some_unfinished (some unfinished) h = refl
some_unfinished (some (finished v)) h = cc

pub finish_known :
    (k : ℕ) (v : FutureValue) (ex : Executor)
    → ex.futures k ≡ some unfinished
    → finish k v ex ≡ returned (record ex { futures = set_future k (finished v) ex.futures })
unfolding finish
finish_known k v ex h = ap (λ o. finish_as o k v ex) h

-- A task of the table has an unfinished future.
pub known_task :
    (k : ℕ) (ex : Executor) → SoundTable ex → has k ex.tasks ≡ true → ex.futures k ≡ some unfinished
known_task k ex s h = some_unfinished (ex.futures k) (s.exact k ∙ h)

no_future : ¬ (◌≡◌ {A = Option FutureState} none (some unfinished))
no_future e = cc

pub settle-SoundTable :
    (k : ℕ) (v : FutureValue) (ex : Executor)
    → SoundTable ex
    → has k ex.tasks ≡ true
    → SoundTable
        (record ex { tasks = discard k ex.tasks; futures = set_future k (finished v) ex.futures })
settle-SoundTable k v ex s h = record {
  distinct = NoDup-discard k ex.tasks s.distinct;
  exact = λ j.
      unfinished_if (k == j) (has j ex.tasks) (ex.futures j) (finished v) (s.exact j)
      ∙ sym (has-discard j k ex.tasks);
  fresh = λ j lt. elim (Bool-cases (k == j)) [
    | inl e ↦ absurd (
        no_future (
          sym (s.fresh j lt)
          ∙ subst (λ i. ex.futures i ≡ some unfinished) ((==_iff k j).0 e) (known_task k ex s h)))
    | inr e ↦ rw e (s.fresh j lt)
  ];
}
