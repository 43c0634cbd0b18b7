-- ===== src/Providers/Local/Processes.antt =====
-- The process of a job of parsl/providers/local/local.py, as the command in `submit` runs it, beside
-- the reads of `status`.
use parsl.Prelude.{ℕ, Bool, true, false, ◌≡◌, refl, none, some, ◌==◌, if◌then◌else◌}
use parsl.Jobs.States.{running, completed, failed}
use parsl.Providers.Local.{
  EcFile, dash, other_text, number, JobStatus, job_status, cannot_parse_exit_code, read_status,
}

-- The command runs, the shell has opened the file for the exit code and emptied it, the code is
-- written, the process is gone.
pub data Process : Type 0 where
  working : Process
  opened written ended : ℕ → Process

abbrev pub is_alive : Process → Bool
is_alive (ended c) = false
is_alive _ = true

abbrev pub ec_file : Process → EcFile
ec_file working = dash
ec_file (opened c) = other_text
ec_file (written c) = number c
ec_file (ended c) = number c

-- A step of the command, which nothing kills.
pub data Step : Process → Process → Type 0 where
  command_ends : (c : ℕ) → Step working (opened c)
  writes : (c : ℕ) → Step (opened c) (written c)
  ends : (c : ℕ) → Step (written c) (ended c)

pub data Steps : Process → Process → Type 0 where
  no_step : (p : Process) → Steps p p
  then_step : (p q r : Process) → Steps p q → Step q r → Steps p r

-- The reads of `status` are in this order: the process, `_is_alive`, and then the file.
unfoldable pub observe : (at_process at_file : Process) → (was_cancelled : Bool) → JobStatus
unfolding read_status
observe at_process at_file was_cancelled =
    read_status (is_alive at_process) (ec_file at_file) was_cancelled

abbrev pub exit_status : ℕ → JobStatus
exit_status c = record {
  state = if c == 0 then completed else failed;
  message = none;
  exit_code = some c;
}

-- The status of a process whose file is read now. The empty file is no number.
abbrev pub told : Process → JobStatus
told working = job_status running
told (opened c) = record { state = failed; message = some cannot_parse_exit_code; exit_code = none }
told (written c) = exit_status c
told (ended c) = exit_status c

abbrev IsWorking : Process → Type 0
IsWorking working = Unit
IsWorking (opened c) = ⊥
IsWorking (written c) = ⊥
IsWorking (ended c) = ⊥

alive_if_working : (p : Process) → IsWorking p → is_alive p ≡ true
alive_if_working working w = refl
alive_if_working (opened c) w = absurd w
alive_if_working (written c) w = absurd w
alive_if_working (ended c) w = absurd w

never_back : {p q : Process} → Step p q → ¬ (IsWorking q)
never_back (command_ends c) w = w
never_back (writes c) w = w
never_back (ends c) w = w

stays_working : (p q : Process) → Steps p q → IsWorking q → is_alive p ≡ true
stays_working p q (no_step _) w = alive_if_working p w
stays_working p r (then_step _ q _ steps step) w = absurd (never_back step w)

-- With any steps of the command between the two reads, the status is the one of the process when the
-- file is read: running while the command runs, with the exit code once it is written, and failed
-- without one while the file is empty. A command that nothing kills is never told to be cancelled.
pub status_tells_process :
    (p q : Process) → Steps p q → (was_cancelled : Bool) → observe p q was_cancelled ≡ told q
unfolding observe read_status
status_tells_process p working steps was_cancelled = rw (stays_working p working steps tt) refl
status_tells_process p (opened c) steps was_cancelled = refl
status_tells_process p (written c) steps was_cancelled = refl
status_tells_process p (ended c) steps was_cancelled = refl
