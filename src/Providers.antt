-- ===== src/Providers.antt =====
-- The table of jobs that the providers of parsl/providers share (cluster_provider.py), as their
-- `_status` reads and writes it. Each child is about one provider.
pub mod Reports
pub mod Slurm
pub mod Lsf
pub mod Local
mod Examples
use parsl.Prelude.{ℕ, Bool, true, false, Option, none, some, List, [], ◌∷◌, ◌==◌, if◌then◌else◌}
use parsl.Jobs.States.{JobState, is_terminal, cancelled, completed}
use parsl.Jobs.Blocks.{get_entry}

-- `self.resources`: the ids of the jobs, in the order of their submission, each with the state in its
-- `JobStatus`. The paths of its output files never change and are left out.
abbrev pub Resources : Type 0
Resources = List (ℕ × JobState)

-- A call returns, or raises and leaves what it has changed.
pub data Update : Type 0 where
  updated raised_error : Resources → Update

abbrev pub after_update : Update → Resources
after_update (updated rs) = rs
after_update (raised_error rs) = rs

-- `self.resources[job_id]['status'] = ...` for a job of the table.
unfoldable pub set_status : ℕ → JobState → Resources → Resources
set_status k s [] = []
set_status k s ((j, t) ∷ rs) = (j, if j == k then s else t) ∷ set_status k s rs

unfoldable pub job_ids : Resources → List ℕ
job_ids [] = []
job_ids ((j, s) ∷ rs) = j ∷ job_ids rs

-- The jobs whose status is not terminal.
unfoldable pub active_ids : Resources → List ℕ
unfolding is_terminal
active_ids [] = []
active_ids ((j, s) ∷ rs) = let rest = active_ids rs in if is_terminal s then rest else j ∷ rest

-- The last loop of `_status`: what the scheduler did not report is taken to be completed.
unfoldable pub complete_missing : List ℕ → Resources → Resources
unfolding set_status
complete_missing [] rs = rs
complete_missing (k ∷ ks) rs = complete_missing ks (set_status k completed rs)

-- A line of a scheduler's report, as `split` leaves it: no text, a job id and the code of its state
-- (more words may follow where the provider allows them), or another number of words.
pub data Line (Code : Type 0) : Type 0 where
  blank other_words : Line Code
  state_line : ℕ → Code → Line Code

-- `cancel`: the scheduler's command succeeds for all jobs or fails, and KeyError for an unknown job.
unfoldable pub set_all : JobState → List ℕ → Resources → Update
unfolding get_entry set_status
set_all s [] rs = updated rs
set_all s (k ∷ ks) rs =
    let rest = set_all s ks (set_status k s rs) in
    elim (get_entry k rs) [ none ↦ raised_error rs | some t ↦ rest ]

unfoldable pub cancel : (succeeds : Bool) → List ℕ → Resources → Update
unfolding set_all
cancel succeeds ks rs = if succeeds then set_all cancelled ks rs else updated rs
