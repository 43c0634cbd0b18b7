-- ===== src/Providers/Examples.antt =====
-- The providers of parsl/providers at concrete tables of jobs.
use parsl.Prelude.{
  ℕ, Bool, true, false, ◌≡◌, refl, Option, none, some, List, [], ◌∷◌, if◌then◌else◌, subst,
}
use mathlib.Core.Option.{some-injective}
use parsl.Jobs.States.{is_terminal, running, completed, failed}
use parsl.Jobs.Blocks.{get_entry}
use parsl.Htex.Interchange.State.{has, discard}
use parsl.Providers.{Resources, Line, state_line, set_status, job_ids, active_ids, complete_missing}
use parsl.Providers.Reports.{reported, change, after_report}
use parsl.Providers.Slurm.{
  SqueueCode, r, squeue_translate_table, ask_all, batches, slurm_lines, slurm_status,
}
use parsl.Providers.Slurm.Forgets.{forgets_terminal}
use parsl.Providers.Lsf.{LsfCode, exit, lsf_translate_table, lsf_lines, lsf_status}
use parsl.Providers.Lsf.Terminal.{lsf_reports}
use parsl.Providers.Lsf.Runs.{Event, submits, polls, cancels, run, terminal_stays}
use parsl.Providers.Local.Processes.{
  written, ended, observe, told, ends, no_step, then_step, status_tells_process,
}

-- Job 1 has failed, and job 2 runs.
abbrev two_jobs : Resources
two_jobs = (1, failed) ∷ (2, running) ∷ []

-- A scheduler that knows job 2 only, and says nothing about the jobs it is not asked about.
abbrev lines_for : Bool → List (Line SqueueCode)
lines_for asked = if asked then state_line 2 r ∷ [] else []

abbrev squeue : List ℕ → Option (List (Line SqueueCode))
squeue ks = some (lines_for (has 2 ks))

squeue_silent : (b : Bool) → reported squeue_translate_table 1 (lines_for b) ≡ none
unfolding reported
squeue_silent false = refl
squeue_silent true = refl

forgets_terminal_example : get_entry 1 ((1, completed) ∷ (2, running) ∷ []) ≡ some completed
unfolding slurm_status active_ids is_terminal batches ask_all has slurm_lines get_entry set_status
    discard complete_missing job_ids squeue_translate_table
forgets_terminal_example =
    forgets_terminal squeue_translate_table 50 squeue two_jobs ((1, completed) ∷ (2, running) ∷ [])
      (state_line 2 r ∷ []) 2 1 failed
      (λ ks ms p h.
        subst (λ l. reported squeue_translate_table 1 l ≡ none) (some-injective _ _ p)
          (squeue_silent (has 2 ks)))
      ((refl, (refl, tt))) refl refl refl refl refl

abbrev bjobs : List ℕ → Option (List (Line LsfCode))
bjobs ks = some (state_line 2 exit ∷ [])

lsf_reports_example :
    get_entry 2 ((1, failed) ∷ (2, failed) ∷ [])
    ≡ change
        (λ old.
          if is_terminal old
          then old
          else after_report (reported lsf_translate_table 2 (state_line 2 exit ∷ [])) true old)
        (get_entry 2 two_jobs)
unfolding lsf_status active_ids is_terminal has lsf_lines set_status discard complete_missing
    job_ids lsf_translate_table
lsf_reports_example =
    lsf_reports bjobs two_jobs ((1, failed) ∷ (2, failed) ∷ []) (state_line 2 exit ∷ [])
      (refl, (refl, tt)) refl refl 2

abbrev calls : List Event
calls = polls bjobs ∷ submits (some (3 ∷ [])) ∷ polls (λ ks. some []) ∷ cancels true (3 ∷ []) ∷ []

terminal_stays_example : get_entry 1 (run calls two_jobs) ≡ some failed
unfolding has get_entry job_ids is_terminal
terminal_stays_example =
    terminal_stays calls two_jobs 1 failed (refl, (refl, (refl, (refl, tt)))) (refl, (refl, tt))
      refl refl

status_tells_process_example : observe (written 0) (ended 0) false ≡ told (ended 0)
status_tells_process_example =
    status_tells_process (written 0) (ended 0)
      (then_step (written 0) (written 0) (ended 0) (no_step (written 0)) (ends 0)) false
