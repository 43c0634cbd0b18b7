-- ===== src/Jobs/States.antt =====
-- parsl/jobs/states.py
use parsl.Prelude.{Bool, true, false}

pub data JobState : Type 0 where
  unknown pending running cancelled completed failed timeout held missing scaled_in : JobState

-- TERMINAL_STATES, as a test.
unfoldable pub is_terminal : JobState → Bool
is_terminal cancelled = true
is_terminal completed = true
is_terminal failed = true
is_terminal timeout = true
is_terminal missing = true
is_terminal scaled_in = true
is_terminal _ = false
