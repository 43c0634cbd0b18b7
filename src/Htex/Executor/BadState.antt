-- ===== src/Htex/Executor/BadState.antt =====
-- The bad state of an executor: set_bad_state_and_fail_all of parsl/executors/status_handling.py.
use parsl.Prelude.{
  ℕ, Bool, true, false, ◌≡◌, refl, sym, ap, ◌∙◌, subst, Option, none, some, List, [], ◌∷◌, ◌==◌,
  if◌then◌else◌, Bool-cases, inl, inr, ◌⊎◌, ==_iff,
}
use parsl.Htex.Interchange.State.{has}
use parsl.Htex.Interchange.Tables.{NoDup}
use parsl.Htex.Executor.{
  FutureValue, FutureState, unfinished, finished, bad_state, Executor, set_future, returned,
  raised_error, after_call, submit, finish_as, fail_each, set_bad_state_and_fail_all,
}
use parsl.Htex.Executor.Table.{SoundTable, is_unfinished, known_task}

pub fail_each_exception :
    (e : ℕ) (ks : List ℕ) (ex : Executor)
    → (after_call (fail_each e ks ex)).executor_exception ≡ ex.executor_exception
unfolding fail_each
fail_each_exception e [] ex = refl
fail_each_exception e (k ∷ ks) ex = by_future (ex.futures k) (λ n. fail_each_exception e ks n)
  where
    by_future :
        (o : Option FutureState)
        → ((n : Executor)
            → (after_call (fail_each e ks n)).executor_exception ≡ n.executor_exception)
        → (after_call (elim (finish_as o k (bad_state e) ex) [
          | returned next ↦ fail_each e ks next
          | raised_error next ↦ raised_error next
        ])).executor_exception
          ≡ ex.executor_exception
    by_future none ih = refl
    by_future (some unfinished) ih = ih _
    by_future (some (finished v)) ih = refl

abbrev failed_if : Bool → ℕ → Option FutureState → Option FutureState
failed_if b e o = if b then some (finished (bad_state e)) else o

fail_each_step :
    (e k : ℕ) (ks : List ℕ) (ex : Executor)
    → ex.futures k ≡ some unfinished
    → fail_each e (k ∷ ks) ex
      ≡ fail_each e ks (record ex { futures = set_future k (finished (bad_state e)) ex.futures })
unfolding fail_each
fail_each_step e k ks ex h =
    ap
      (λ o. elim (finish_as o k (bad_state e) ex) [
        | returned next ↦ fail_each e ks next
        | raised_error next ↦ raised_error next
      ])
      h

fail_each_stuck :
    (e k : ℕ) (ks : List ℕ) (ex : Executor) (v : FutureValue)
    → ex.futures k ≡ some (finished v)
    → fail_each e (k ∷ ks) ex ≡ raised_error ex
unfolding fail_each
fail_each_stuck e k ks ex v h =
    ap
      (λ o. elim (finish_as o k (bad_state e) ex) [
        | returned next ↦ fail_each e ks next
        | raised_error next ↦ raised_error next
      ])
      h

fail_each_lem :
    (e : ℕ) (ks : List ℕ) (ex : Executor)
    → NoDup ks
    → ((k : ℕ) → has k ks ≡ true → ex.futures k ≡ some unfinished)
    → (fs : ℕ → Option FutureState) × (fail_each e ks ex ≡ returned (record ex { futures = fs }))
      × ((j : ℕ) → fs j ≡ failed_if (has j ks) e (ex.futures j))
unfolding fail_each has
fail_each_lem e [] ex d h = (ex.futures, refl, λ j. refl)
fail_each_lem e (k ∷ ks) ex d h =
    let kept = λ (j : ℕ) (m : has j ks ≡ true). later j m (Bool-cases (k == j)) in
    let (fs, ends, each) =
      fail_each_lem e ks (record ex { futures = set_future k (finished (bad_state e)) ex.futures })
        d.1 kept in
    (
      fs,
      fail_each_step e k ks ex (h k (rw ((==_iff k k).1 refl) refl)) ∙ ends,
      λ j. each j ∙ either (k == j) (has j ks) (ex.futures j),
    )
  where
    later :
        (j : ℕ)
        → has j ks ≡ true
        → ((k == j) ≡ true) ⊎ ((k == j) ≡ false)
        → set_future k (finished (bad_state e)) ex.futures j ≡ some unfinished
    later j m (inl same) =
        absurd (clash (sym d.0 ∙ subst (λ i. has i ks ≡ true) (sym ((==_iff k j).0 same)) m))
      where
        clash : ¬ (◌≡◌ {A = Bool} false true)
        clash p = cc
    later j m (inr other) = rw other (h j (rw other m))

    either :
        (a b : Bool) (o : Option FutureState)
        → failed_if b e (if a then some (finished (bad_state e)) else o)
          ≡ failed_if (if a then true else b) e o
    either true true o = refl
    either true false o = refl
    either false b o = refl

-- The table of an executor is sound. It is put into its bad state: no exception is raised, every future
-- that was unfinished has the exception now, every other one is as before, and every later `submit`
-- raises an exception and changes nothing.
pub bad_state_fails_all :
    (e : ℕ) (ex : Executor)
    → SoundTable ex
    → (ex' : Executor) × (set_bad_state_and_fail_all e ex ≡ returned ex')
      × ((k : ℕ)
          → ex'.futures k ≡ (
              if is_unfinished (ex.futures k) then some (finished (bad_state e)) else ex.futures k))
      × ((spec_is_valid packs : Bool) → submit spec_is_valid packs ex' ≡ raised_error ex')
unfolding set_bad_state_and_fail_all submit
bad_state_fails_all e ex s =
    let (fs, ends, each) =
      fail_each_lem e ex.tasks (record ex { executor_exception = some e }) s.distinct
        (λ k h. known_task k ex s h) in
    (
      record ex { executor_exception = some e; futures = fs },
      ends,
      λ k. each k ∙ ap (λ b. failed_if b e (ex.futures k)) (sym (s.exact k)),
      refuses {fs = fs},
    )
  where
    refuses :
        {fs : ℕ → Option FutureState} (spec_is_valid packs : Bool)
        → submit spec_is_valid packs (record ex { executor_exception = some e; futures = fs })
          ≡ raised_error (record ex { executor_exception = some e; futures = fs })
    refuses true packs = refl
    refuses false packs = refl

-- A task is in the table of a sound executor that is put into its bad state twice, as an error handler
-- does when it is called again: the second time raises an exception.
pub second_bad_state_raises :
    (e d k : ℕ) (ks : List ℕ) (ex : Executor)
    → SoundTable ex
    → ex.tasks ≡ k ∷ ks
    → (ex' : Executor) × (set_bad_state_and_fail_all e ex ≡ returned ex')
      × (set_bad_state_and_fail_all d ex'
          ≡ raised_error (record ex' { executor_exception = some d }))
unfolding set_bad_state_and_fail_all has
second_bad_state_raises e d k ks ex s q =
    let (fs, ends, each) =
      fail_each_lem e ex.tasks (record ex { executor_exception = some e }) s.distinct
        (λ j h. known_task j ex s h) in
    let there : has k ex.tasks ≡ true = ap (has k) q ∙ rw ((==_iff k k).1 refl) refl in
    (
      record ex { executor_exception = some e; futures = fs },
      ends,
      ap (λ ts. fail_each d ts (record ex { executor_exception = some d; futures = fs })) q
          ∙ fail_each_stuck d k ks (record ex { executor_exception = some d; futures = fs })
              (bad_state e) (each k ∙ ap (λ b. failed_if b e (ex.futures k)) there),
    )
