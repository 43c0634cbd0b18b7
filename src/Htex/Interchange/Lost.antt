-- ===== src/Htex/Interchange/Lost.antt =====
-- Which managers `expire_bad_managers` of parsl/executors/high_throughput/interchange.py removes.
use parsl.Prelude.{
  ℕ, ◌+◌, ◌≤◌, Bool, true, false, ◌≡◌, refl, Option, none, some, [], ◌∷◌, ltb, ◌==◌, if◌then◌else◌,
  arith, Bool-cases, inl, inr, ==_iff, ltb→ge, ltb→lt, ◌↔◌, ◌∙◌, sym, subst, ap,
}
use mathlib.Core.Option.{some-injective}
use parsl.Htex.Interchange.State.{Interchange, ManagerRecord, Managers, get_manager}
use parsl.Htex.Interchange.Expire.{bad_managers, unregister, unregister_each, expire_bad_managers}
use parsl.Htex.Interchange.Tables.{Unique, get-pop, Unique-pop}

-- What is left of a lookup when the managers of the first lookup are gone.
abbrev without : Option ManagerRecord → Option ManagerRecord → Option ManagerRecord
without none found = found
without (some bad) found = none

abbrev only_if : Bool → ManagerRecord → Option ManagerRecord
only_if b m = if b then some m else none

get_manager-cons :
    (k i : ℕ) (m : ManagerRecord) (ms : Managers)
    → get_manager k ((i, m) ∷ ms) ≡ (if i == k then some m else get_manager k ms)
unfolding get_manager
get_manager-cons k i m ms = refl

unregister_each-get :
    (k : ℕ) (bs : Managers) (ix : Interchange)
    → Unique ix.ready_managers
    → get_manager k (unregister_each bs ix).ready_managers
      ≡ without (get_manager k bs) (get_manager k ix.ready_managers)
unfolding unregister_each unregister get_manager
unregister_each-get k [] ix u = refl
unregister_each-get k ((i, m) ∷ bs) ix u =
    unregister_each-get k bs (unregister i m ix) (Unique-pop i ix.ready_managers u)
    ∙ ap (without (get_manager k bs)) (get-pop k i ix.ready_managers u)
    ∙ split (i == k)
  where
    none_left : (o : Option ManagerRecord) → without o none ≡ none
    none_left none = refl
    none_left (some x) = refl

    split :
        (b : Bool)
        → without (get_manager k bs) (if b then none else get_manager k ix.ready_managers)
          ≡ without (if b then some m else get_manager k bs) (get_manager k ix.ready_managers)
    split true = none_left (get_manager k bs)
    split false = refl

module _ (now threshold : ℕ) where
  abbrev is_late : ManagerRecord → Bool
  is_late m = ltb (m.last_heartbeat + threshold) now

  abbrev late_of : Option ManagerRecord → Option ManagerRecord
  late_of none = none
  late_of (some m) = only_if (is_late m) m

  bad_managers-cons :
      (k i : ℕ) (m : ManagerRecord) (ms : Managers) (b : Bool)
      → is_late m ≡ b
      → get_manager k (bad_managers now threshold ((i, m) ∷ ms)) ≡ (
          if b
          then (if i == k then some m else get_manager k (bad_managers now threshold ms))
          else get_manager k (bad_managers now threshold ms))
  unfolding bad_managers get_manager
  bad_managers-cons k i m ms true e = rw e refl
  bad_managers-cons k i m ms false e = rw e refl

  bad_managers-get :
      (k : ℕ) (ms : Managers)
      → Unique ms
      → get_manager k (bad_managers now threshold ms) ≡ late_of (get_manager k ms)
  bad_managers-get k [] u = unfold bad_managers get_manager in refl
  bad_managers-get k ((i, m) ∷ ms) u =
      let ih = bad_managers-get k ms u.1 in
      bad_managers-cons k i m ms (is_late m) refl ∙ elim (Bool-cases (i == k)) [
        | inl e ↦
            let absent : get_manager k ms ≡ none =
              subst (λ j. get_manager j ms ≡ none) ((==_iff i k).0 e) u.0 in
            rw (get_manager-cons k i m ms, e)
              (late_here m (is_late m) refl (ih ∙ ap late_of absent))
        | inr e ↦ rw (get_manager-cons k i m ms, e) (same_either (is_late m) ih)
      ]
    where
      late_here :
          {o : Option ManagerRecord} (x : ManagerRecord) (b : Bool)
          → is_late x ≡ b
          → o ≡ none
          → (if b then some x else o) ≡ only_if b x
      late_here x true e n = refl
      late_here x false e n = n

      same_either : {o o' : Option ManagerRecord} (b : Bool) → o ≡ o' → (if b then o else o) ≡ o'
      same_either true h = h
      same_either false h = h

on_time :
    (now threshold : ℕ) (x m : ManagerRecord) (b : Bool)
    → is_late now threshold x ≡ b
    → without (only_if b x) (some x) ≡ some m
    → (some x ≡ some m) × (now ≤ m.last_heartbeat + threshold)
on_time now threshold x m true e h = cc
on_time now threshold x m false e h = (
  h,
  subst (λ (r : ManagerRecord). now ≤ r.last_heartbeat + threshold) (some-injective _ _ h)
      (ltb→ge _ _ e),
)

-- After `expire_bad_managers`, from a table with each manager once, the registered managers are
-- exactly those that were registered and whose last heartbeat is not longer ago than the threshold,
-- with their records unchanged.
pub expire_bad_managers_iff :
    (now threshold : ℕ) (ix : Interchange) (k : ℕ) (m : ManagerRecord)
    → Unique ix.ready_managers
    → (get_manager k (expire_bad_managers now threshold ix).ready_managers ≡ some m)
      ↔ ((get_manager k ix.ready_managers ≡ some m) × (now ≤ m.last_heartbeat + threshold))
unfolding expire_bad_managers
expire_bad_managers_iff now threshold ix k m u =
    let found =
      unregister_each-get k (bad_managers now threshold ix.ready_managers) ix u
      ∙ ap (λ o. without o (get_manager k ix.ready_managers))
          (bad_managers-get now threshold k ix.ready_managers u) in
    (
      λ h. kept (get_manager k ix.ready_managers) (sym found ∙ h),
      λ p. found ∙ rw p.0 (stays (is_late now threshold m) refl p.1),
    )
  where
    kept :
        (o : Option ManagerRecord)
        → without (late_of now threshold o) o ≡ some m
        → (o ≡ some m) × (now ≤ m.last_heartbeat + threshold)
    kept none h = cc
    kept (some x) h = on_time now threshold x m (is_late now threshold x) refl h

    stays :
        (b : Bool)
        → is_late now threshold m ≡ b
        → now ≤ m.last_heartbeat + threshold
        → without (only_if b m) (some m) ≡ some m
    stays true e l = absurd (let late = ltb→lt _ _ e in omega arith)
    stays false e l = refl
