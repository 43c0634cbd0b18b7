-- ===== src/Providers/Local.antt =====
-- parsl/providers/local/local.py: the status of a job by its process and the file that its exit code is
-- written to, and `cancel`.
pub mod Processes
use parsl.Prelude.{ℕ, Bool, true, false, Option, none, some, List, [], ◌∷◌, ◌==◌, if◌then◌else◌}
use parsl.Jobs.States.{JobState, is_terminal, running, cancelled, completed, failed}

-- The text of the file `.ec` without its ends of line: `-`, a number, or another text.
pub data EcFile : Type 0 where
  dash other_text : EcFile
  number : ℕ → EcFile

pub data Message : Type 0 where
  killed cannot_parse_exit_code : Message

pub record JobStatus : Type 0 where
  pub state : JobState
  pub message : Option Message
  pub exit_code : Option ℕ

abbrev pub job_status : JobState → JobStatus
job_status s = record { state = s; message = none; exit_code = none }

pub record LocalJob : Type 0 where
  pub job_id : ℕ
  pub status : JobStatus
  pub was_cancelled : Bool

-- The status that `status` makes of one job, by what `_is_alive` says, the file, and whether the job
-- was cancelled.
unfoldable pub read_status : (alive : Bool) → EcFile → (was_cancelled : Bool) → JobStatus
read_status alive dash was_cancelled =
    if alive
    then job_status running
    else if was_cancelled
    then job_status cancelled
    else record { state = cancelled; message = some killed; exit_code = none }
read_status alive (number ec) was_cancelled = record {
  state = if ec == 0 then completed else failed;
  message = none;
  exit_code = some ec;
}
read_status alive other_text was_cancelled = record {
  state = failed;
  message = some cannot_parse_exit_code;
  exit_code = none;
}

-- The loop of `status`. `is_alive` and `read_ec` are about the job of an id; a file that cannot be read
-- raises, and the jobs before it have been updated.
pub data LocalCall : Type 0 where
  returned raised_error : List LocalJob → LocalCall

abbrev pub cons_job : LocalJob → LocalCall → LocalCall
cons_job j (returned js) = returned (j ∷ js)
cons_job j (raised_error js) = raised_error (j ∷ js)

unfoldable pub update_jobs : (ℕ → Bool) → (ℕ → Option EcFile) → List LocalJob → LocalCall
unfolding read_status is_terminal
update_jobs is_alive read_ec [] = returned []
update_jobs is_alive read_ec (j ∷ js) =
    let rest = update_jobs is_alive read_ec js in
    let polled : LocalCall = elim (read_ec j.job_id) [
      | none ↦ raised_error (j ∷ js)
      | some file ↦
          cons_job (record j { status = read_status (is_alive j.job_id) file j.was_cancelled }) rest
    ] in
    if is_terminal j.status.state then cons_job j rest else polled
