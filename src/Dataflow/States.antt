-- ===== src/Dataflow/States.antt =====
-- parsl/dataflow/states.py
use parsl.Prelude.{ℕ, Bool, true, false, ◌≡◌, arith, ◌==◌}

pub data States : Type 0 where
  unsched pending running exec_done failed dep_fail launched fail_retryable memo_done joining
        running_ended :
      States

-- The position of a state in the enumeration, by which states are compared.
abbrev pub position : States → ℕ
position unsched = 0
position pending = 1
position running = 2
position exec_done = 3
position failed = 4
position dep_fail = 5
position launched = 6
position fail_retryable = 7
position memo_done = 8
position joining = 9
position running_ended = 10

unfoldable pub same : States → States → Bool
same a b = position a == position b

-- FINAL_STATES and FINAL_FAILURE_STATES, as tests.
unfoldable pub is_final : States → Bool
is_final exec_done = true
is_final memo_done = true
is_final failed = true
is_final dep_fail = true
is_final _ = false

unfoldable pub is_final_failure : States → Bool
is_final_failure failed = true
is_final_failure dep_fail = true
is_final_failure _ = false

pub same_eq : (a b : States) → same a b ≡ true → a ≡ b
unfolding same
same_eq a b h = ground arith

pub same_self : (a : States) → same a a ≡ true
unfolding same
same_self a = ground arith
