-- ===== src/Providers/Reports.antt =====
-- Lookups in the table of jobs of parsl/providers/cluster_provider.py after each change, and what a
-- report says of a job.
use parsl.Prelude.{
  ℕ, Bool, true, false, not, ◌≡◌, refl, ap, ◌∙◌, Option, none, some, List, [], ◌∷◌, ◌==◌,
  if◌then◌else◌, arith, Bool-cases, inl, inr, ==_iff, subst,
}
use mathlib.Core.Option.{some-injective}
use parsl.Jobs.States.{JobState, is_terminal, completed}
use parsl.Jobs.Blocks.{get_entry}
use parsl.Htex.Interchange.State.{has, discard}
use parsl.Htex.Interchange.Tables.{NoDup, has-discard}
use parsl.Providers.{
  Resources, set_status, job_ids, active_ids, complete_missing, Line, blank, other_words,
  state_line,
}

-- The last line of a report that is about the job.
unfoldable pub reported :
    {Code : Type 0} → (Code → JobState) → ℕ → List (Line Code) → Option JobState
reported translate k [] = none
reported translate k (blank ∷ ls) = reported translate k ls
reported translate k (other_words ∷ ls) = reported translate k ls
reported translate k (state_line j c ∷ ls) =
    let rest = reported translate k ls in
    elim rest [ none ↦ if j == k then some (translate c) else none | some s ↦ some s ]

-- What a report makes of a status: the state in the report, `completed` for a job that should be there
-- and is not, and no change for others.
abbrev pub after_report : Option JobState → (missing : Bool) → JobState → JobState
after_report (some s) missing old = s
after_report none missing old = if missing then completed else old

abbrev pub change : (JobState → JobState) → Option JobState → Option JobState
change f none = none
change f (some s) = some (f s)

pub get-set_status :
    (j k : ℕ) (s : JobState) (rs : Resources)
    → get_entry j (set_status k s rs) ≡ change (λ old. if k == j then s else old) (get_entry j rs)
unfolding get_entry set_status
get-set_status j k s [] = refl
get-set_status j k s ((i, t) ∷ rs) = ground (arith, get-set_status j k s rs)

change_nothing : (o : Option JobState) → o ≡ change (λ old. old) o
change_nothing none = refl
change_nothing (some s) = refl

complete_one :
    (b h : Bool) (o : Option JobState)
    → change (λ old. if h then completed else old) (change (λ old. if b then completed else old) o)
      ≡ change (λ old. if (if b then true else h) then completed else old) o
complete_one true true none = refl
complete_one true false none = refl
complete_one false h none = refl
complete_one true true (some s) = refl
complete_one true false (some s) = refl
complete_one false h (some s) = refl

pub get-complete_missing :
    (j : ℕ) (ks : List ℕ) (rs : Resources)
    → get_entry j (complete_missing ks rs)
      ≡ change (λ old. if has j ks then completed else old) (get_entry j rs)
unfolding complete_missing has
get-complete_missing j [] rs = change_nothing (get_entry j rs)
get-complete_missing j (k ∷ ks) rs =
    get-complete_missing j ks (set_status k completed rs)
    ∙ ap (change (λ old. if has j ks then completed else old)) (get-set_status j k completed rs)
    ∙ complete_one (k == j) (has j ks) (get_entry j rs)

-- A line for a job, and then the rest of the report.
line_first :
    (b m : Bool) (s : JobState) (rest : Option JobState) (o : Option JobState)
    → change (after_report rest (if b then false else m)) (change (λ old. if b then s else old) o)
      ≡ change
          (after_report (elim rest [ none ↦ if b then some s else none | some t ↦ some t ]) m)
          o
line_first true m s none none = refl
line_first true m s none (some old) = refl
line_first true m s (some t) none = refl
line_first true m s (some t) (some old) = refl
line_first false m s none none = refl
line_first false m s none (some old) = refl
line_first false m s (some t) none = refl
line_first false m s (some t) (some old) = refl

pub line_then_rest :
    {Code : Type 0} (translate : Code → JobState)
    → (j k : ℕ) (c : Code) (ls : List (Line Code)) (missing : List ℕ) (rs : Resources)
    → change
        (after_report (reported translate j ls) (has j (discard k missing)))
        (get_entry j (set_status k (translate c) rs))
      ≡ change
          (after_report (reported translate j (state_line k c ∷ ls)) (has j missing))
          (get_entry j rs)
unfolding reported
line_then_rest translate j k c ls missing rs =
    rw (has-discard j k missing, get-set_status j k (translate c) rs)
      (line_first (k == j) (has j missing) (translate c) (reported translate j ls) (get_entry j rs))

pub has-job_ids :
    (k : ℕ) (s : JobState) (rs : Resources) → get_entry k rs ≡ some s → has k (job_ids rs) ≡ true
unfolding get_entry has job_ids
has-job_ids k s [] h = cc
has-job_ids k s ((j, t) ∷ rs) h = let ih = has-job_ids k s rs in ground arith

-- With no job twice in the table, the active jobs are those whose status is not terminal.
not_active : (k : ℕ) (rs : Resources) → has k (job_ids rs) ≡ false → has k (active_ids rs) ≡ false
unfolding has job_ids active_ids
not_active k [] h = refl
not_active k ((j, t) ∷ rs) h = let ih = not_active k rs in ground arith

pub unknown_not_active :
    (k : ℕ) (rs : Resources) → get_entry k rs ≡ none → has k (active_ids rs) ≡ false
unfolding get_entry has active_ids
unknown_not_active k [] h = refl
unknown_not_active k ((j, t) ∷ rs) h = let ih = unknown_not_active k rs in ground arith

has-guarded :
    (k j : ℕ) (t : Bool) (ks : List ℕ)
    → has k (if t then ks else j ∷ ks) ≡ (if t then has k ks else if j == k then true else has k ks)
unfolding has
has-guarded k j true ks = refl
has-guarded k j false ks = refl

active_head : (t : Bool) → (if t then false else true) ≡ not t
active_head true = refl
active_head false = refl

active_tail : (t b : Bool) → (if t then b else b) ≡ b
active_tail true b = refl
active_tail false b = refl

pub has-active_ids :
    (k : ℕ) (s : JobState) (rs : Resources)
    → NoDup (job_ids rs)
    → get_entry k rs ≡ some s
    → has k (active_ids rs) ≡ not (is_terminal s)
unfolding get_entry has job_ids active_ids
has-active_ids k s [] d h = cc
has-active_ids k s ((j, t) ∷ rs) d h =
    let ih = has-active_ids k s rs d.1 in
    has-guarded k j (is_terminal t) (active_ids rs) ∙ elim (Bool-cases (j == k)) [
      | inl e ↦
          let same : t ≡ s =
            some-injective _ _
              (subst (λ (b : Bool). (if b then some t else get_entry k rs) ≡ some s) e h) in
          let gone : has k (active_ids rs) ≡ false =
            not_active k rs (subst (λ i. has i (job_ids rs) ≡ false) ((==_iff j k).0 e) d.0) in
          rw (e, gone, same) (active_head (is_terminal s))
      | inr e ↦
          let later =
            ih (subst (λ (b : Bool). (if b then some t else get_entry k rs) ≡ some s) e h) in
          rw (e, later) (active_tail (is_terminal t) (not (is_terminal s)))
    ]
