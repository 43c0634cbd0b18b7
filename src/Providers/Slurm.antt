-- ===== src/Providers/Slurm.antt =====
-- parsl/providers/slurm/slurm.py: the tables of states, the batches, and `_status`.
pub mod Batches
pub mod Forgets
use parsl.Prelude.{
  ℕ, zero, suc, Option, none, some, List, [], ◌∷◌, ◌++◌, if◌then◌else◌, length, take, drop, ltb,
}
use parsl.Jobs.States.{
  JobState, unknown, pending, running, cancelled, completed, failed, timeout, held,
}
use parsl.Jobs.Blocks.{get_entry}
use parsl.Htex.Interchange.State.{has, discard}
use parsl.Providers.{
  Resources, Update, updated, raised_error, set_status, job_ids, active_ids, complete_missing, Line,
  blank, other_words, state_line,
}

-- The states that `sacct` and `squeue` print, and any other word.
pub data SacctCode : Type 0 where
  sacct_pending sacct_running sacct_cancelled sacct_completed sacct_failed : SacctCode
  node_fail boot_fail deadline sacct_timeout revoked out_of_memory : SacctCode
  suspended preempted requeued sacct_other : SacctCode

pub data SqueueCode : Type 0 where
  pd r ca cf cg cd f to nf rv se squeue_other : SqueueCode

-- `translate_table.get(slurm_state, JobState.UNKNOWN)` for each of the tables.
unfoldable pub sacct_translate_table : SacctCode → JobState
sacct_translate_table sacct_pending = pending
sacct_translate_table sacct_running = running
sacct_translate_table sacct_cancelled = cancelled
sacct_translate_table sacct_completed = completed
sacct_translate_table sacct_failed = failed
sacct_translate_table node_fail = failed
sacct_translate_table boot_fail = failed
sacct_translate_table deadline = timeout
sacct_translate_table sacct_timeout = timeout
sacct_translate_table revoked = failed
sacct_translate_table out_of_memory = failed
sacct_translate_table suspended = held
sacct_translate_table preempted = timeout
sacct_translate_table requeued = pending
sacct_translate_table sacct_other = unknown

unfoldable pub squeue_translate_table : SqueueCode → JobState
squeue_translate_table pd = pending
squeue_translate_table r = running
squeue_translate_table ca = cancelled
squeue_translate_table cf = pending
squeue_translate_table cg = running
squeue_translate_table cd = completed
squeue_translate_table f = failed
squeue_translate_table to = timeout
squeue_translate_table nf = failed
squeue_translate_table rv = failed
squeue_translate_table se = failed
squeue_translate_table squeue_other = unknown

-- The loop of `batched`; its fuel is the length of what is left.
unfoldable pub batches : (fuel n : ℕ) → List ℕ → List (List ℕ)
batches fuel n [] = []
batches zero n (x ∷ xs) = []
batches (suc fuel) n (x ∷ xs) = take n (x ∷ xs) ∷ batches fuel n (drop n (x ∷ xs))

abbrev pub batched : ℕ → List ℕ → List (List ℕ)
batched n xs = batches (length xs) n xs

module _ {Code : Type 0} where
  -- The commands of the batches, in turn, with their output put together. `asks` is the answer of a
  -- command about a list of jobs: the lines it prints, or `none` for an exit code that is not 0.
  unfoldable pub ask_all :
      (List ℕ → Option (List (Line Code))) → List (List ℕ) → Option (List (Line Code))
  ask_all asks [] = some []
  ask_all asks (b ∷ bs) =
      let rest = ask_all asks bs in
      elim (asks b) [
        | none ↦ none
        | some ls ↦ elim rest [ none ↦ none | some more ↦ some (ls ++ more) ]
      ]

  -- The loop over the lines; `missing` is the set `jobs_missing`. A line of one word cannot be unpacked
  -- (ValueError), a job that is not in the table or was reported before is a KeyError.
  unfoldable pub slurm_lines :
      (Code → JobState) → List (Line Code) → (missing : List ℕ) → Resources → Update
  unfolding get_entry set_status complete_missing has discard
  slurm_lines translate [] missing rs = updated (complete_missing missing rs)
  slurm_lines translate (blank ∷ ls) missing rs = slurm_lines translate ls missing rs
  slurm_lines translate (other_words ∷ ls) missing rs = raised_error rs
  slurm_lines translate (state_line k c ∷ ls) missing rs =
      let changed = set_status k (translate c) rs in
      let rest = slurm_lines translate ls (discard k missing) changed in
      elim (get_entry k rs) [
        | none ↦ raised_error rs
        | some s ↦ if has k missing then rest else raised_error changed
      ]

  abbrev pub slurm_answer : (Code → JobState) → Option (List (Line Code)) → Resources → Update
  slurm_answer translate none rs = updated rs
  slurm_answer translate (some ls) rs = slurm_lines translate ls (job_ids rs) rs

  -- `_status`. `batched` raises ValueError for a batch size below 1.
  unfoldable pub slurm_status :
      (status_batch_size : ℕ)
      → (List ℕ → Option (List (Line Code)))
      → (Code → JobState)
      → Resources
      → Update
  unfolding ask_all slurm_lines active_ids job_ids batches
  slurm_status status_batch_size asks translate rs =
      let active = active_ids rs in
      let asked = slurm_answer translate (ask_all asks (batched status_batch_size active)) rs in
      elim active [
        | [] ↦ updated rs
        | _ ∷ _ ↦ if ltb status_batch_size 1 then raised_error rs else asked
      ]
