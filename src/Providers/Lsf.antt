-- ===== src/Providers/Lsf.antt =====
-- parsl/providers/lsf/lsf.py: the table of states, and `_status`.
pub mod Terminal
pub mod Runs
use parsl.Prelude.{ℕ, Option, none, some, List, [], ◌∷◌, if◌then◌else◌}
use parsl.Jobs.States.{JobState, unknown, pending, running, cancelled, completed, failed}
use parsl.Jobs.Blocks.{put_entry}
use parsl.Htex.Interchange.State.{has, discard}
use parsl.Providers.{
  Resources, Update, updated, raised_error, set_status, active_ids, complete_missing, Line, blank,
  other_words, state_line,
}

-- The states that `bjobs` prints, and any other word.
pub data LsfCode : Type 0 where
  pend lsf_run done exit psusp ususp ssusp lsf_other : LsfCode

-- `translate_table.get(lsf_state, JobState.UNKNOWN)`
unfoldable pub lsf_translate_table : LsfCode → JobState
lsf_translate_table pend = pending
lsf_translate_table lsf_run = running
lsf_translate_table done = completed
lsf_translate_table exit = failed
lsf_translate_table psusp = cancelled
lsf_translate_table ususp = cancelled
lsf_translate_table ssusp = cancelled
lsf_translate_table lsf_other = unknown

-- `submit`: the ids of the jobs that `bsub` says it has taken, or `none` for an exit code that is not
-- 0. The last id is what it returns.
abbrev pub with_ids : List ℕ → Option ℕ → Resources → Resources × Option ℕ
with_ids [] job_id rs = (rs, job_id)
with_ids (k ∷ ks) job_id rs = with_ids ks (some k) (put_entry k pending rs)

unfoldable pub lsf_submit : Option (List ℕ) → Resources → Resources × Option ℕ
unfolding put_entry
lsf_submit none rs = (rs, none)
lsf_submit (some ks) rs = with_ids ks none rs

-- The loop over the lines: `asked` is `job_id_list` and `missing` the set `jobs_missing`. A job that
-- was reported before is a KeyError.
unfoldable pub lsf_lines :
    (asked : List ℕ) → List (Line LsfCode) → (missing : List ℕ) → Resources → Update
unfolding lsf_translate_table set_status complete_missing has discard
lsf_lines asked [] missing rs = updated (complete_missing missing rs)
lsf_lines asked (blank ∷ ls) missing rs = lsf_lines asked ls missing rs
lsf_lines asked (other_words ∷ ls) missing rs = lsf_lines asked ls missing rs
lsf_lines asked (state_line k c ∷ ls) missing rs =
    let skipped = lsf_lines asked ls missing rs in
    let changed = set_status k (lsf_translate_table c) rs in
    let rest = lsf_lines asked ls (discard k missing) changed in
    let read = if has k missing then rest else raised_error changed in
    if has k asked then read else skipped

-- What `_status` does with the answer to its command.
abbrev pub lsf_answer : List ℕ → Option (List (Line LsfCode)) → Resources → Update
lsf_answer [] answer rs = updated rs
lsf_answer (k ∷ ks) none rs = updated rs
lsf_answer (k ∷ ks) (some ls) rs = lsf_lines (k ∷ ks) ls (k ∷ ks) rs

-- `bjobs` answers for the active jobs with the lines it prints, or `none` for an exit code that is not 0.
unfoldable pub lsf_status : (List ℕ → Option (List (Line LsfCode))) → Resources → Update
unfolding lsf_lines active_ids
lsf_status asks rs = lsf_answer (active_ids rs) (asks (active_ids rs)) rs
