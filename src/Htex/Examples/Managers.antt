-- ===== src/Htex/Examples/Managers.antt =====
-- Runs of parsl/executors/high_throughput/interchange.py with one manager, which is on hold.
use parsl.Prelude.{
  ℕ, ◌+◌, ◌≤◌, true, false, ◌≡◌, refl, none, some, [], ◌∷◌, ◌↔◌, arith, if◌then◌else◌, ◌==◌,
  Bool-cases, inl, inr, subst, length,
}
use mathlib.Core.Option.{some-injective}
use parsl.Htex.Interchange.State.{Managers, Interchange, ManagerRecord, get_manager, has}
use parsl.Htex.Interchange.Dispatch.{process_tasks_to_send}
use parsl.Htex.Interchange.Expire.{expire_bad_managers}
use parsl.Htex.Interchange.Lost.{expire_bad_managers_iff}
use parsl.Htex.Interchange.Selectors.{sort_by_block}
use parsl.Htex.Interchange.Held.{held_is_spared}
use parsl.Htex.Interchange.Turns.{SoundState}
use parsl.Htex.Interchange.Runs.{initial}
use parsl.Htex.Examples.{in_order, in_order-IsSelector, queue}

abbrev on_hold : ManagerRecord
on_hold = record {
  block_id = 0;
  tasks = 4 ∷ [];
  worker_count = 2;
  max_capacity = 2;
  active = false;
  draining = false;
  last_heartbeat = 100;
  idle_since = none;
  packages = [];
}

-- Manager 1 is registered and interesting, and three tasks are queued.
abbrev with_hold : Interchange
with_hold = record initial {
  pending = queue;
  task_counter = 3;
  ready_managers = (1, on_hold) ∷ [];
  interesting = 1 ∷ [];
}

only_one : (j : ℕ) → has j (1 ∷ []) ≡ true → (1 == j) ≡ true
unfolding has
only_one j h = ground arith

with_hold-SoundState : SoundState with_hold
unfolding get_manager has
with_hold-SoundState = record {
  unique = (refl, tt);
  nodup = (refl, tt);
  known = λ j h. (on_hold, rw (only_one j h) refl);
  within = λ j m h. within_one j m h;
}
  where
    within_one :
        (j : ℕ) (m : ManagerRecord)
        → get_manager j ((1, on_hold) ∷ []) ≡ some m
        → length m.tasks ≤ m.max_capacity
    within_one j m h = elim (Bool-cases (1 == j)) [
      | inl e ↦
          subst (λ (r : ManagerRecord). length r.tasks ≤ r.max_capacity)
            (some-injective _ _ (subst (λ b. (if b then some on_hold else none) ≡ some m) e h))
            (omega arith)
      | inr e ↦ absurd (let no = subst (λ b. (if b then some on_hold else none) ≡ some m) e h in cc)
    ]

held_is_spared_example :
    (ix' : Interchange) × (process_tasks_to_send in_order with_hold ≡ some ix')
    × (get_manager 1 ix'.ready_managers ≡ some on_hold)
unfolding get_manager
held_is_spared_example =
    held_is_spared in_order with_hold 1 on_hold in_order-IsSelector with_hold-SoundState refl refl

expire_bad_managers_iff_example :
    (get_manager 1 (expire_bad_managers 150 120 with_hold).ready_managers ≡ some on_hold)
    ↔ ((get_manager 1 with_hold.ready_managers ≡ some on_hold) × (150 ≤ 100 + 120))
unfolding get_manager
expire_bad_managers_iff_example = expire_bad_managers_iff 150 120 with_hold 1 on_hold (refl, tt)

-- Managers 1 and 2 in block 5, and manager 3 in block 0.
abbrev three_managers : Managers
three_managers =
    (1, record on_hold { block_id = 5 }) ∷ (2, record on_hold { block_id = 5 }) ∷ (3, on_hold) ∷ []

sorted_by_block : sort_by_block (λ n. n) three_managers (1 ∷ 2 ∷ 3 ∷ []) ≡ 3 ∷ 1 ∷ 2 ∷ []
unfolding sort_by_block
sorted_by_block = refl
