-- ===== src/Providers/Lsf/Terminal.antt =====
-- What `_status` of parsl/providers/lsf/lsf.py makes of the table of jobs.
use parsl.Prelude.{
  if_true, if_false, ℕ, Bool, true, false, not, ◌≡◌, refl, sym, ap, ◌∙◌, Option, none, some, List,
  [], ◌∷◌, ◌==◌, if◌then◌else◌, Bool-cases, inl, inr, ==_iff, subst, Option-cases,
}
use parsl.Jobs.States.{JobState, is_terminal}
use parsl.Jobs.Blocks.{get_entry}
use parsl.Htex.Interchange.State.{has, discard}
use parsl.Htex.Interchange.Tables.{NoDup, has-discard}
use parsl.Providers.{
  Resources, updated, raised_error, after_update, set_status, job_ids, active_ids, Line, blank,
  other_words, state_line,
}
use parsl.Providers.Reports.{
  reported, after_report, change, get-set_status, get-complete_missing, line_then_rest,
  has-active_ids, unknown_not_active,
}
use parsl.Providers.Lsf.{LsfCode, lsf_translate_table, lsf_lines, lsf_answer, lsf_status}

not_both : (b : Bool) → ¬ (not b ≡ b)
not_both true e = cc
not_both false e = cc

unread :
    (b : Bool) (s : JobState) (o : Option JobState)
    → b ≡ false
    → o ≡ elim o [ none ↦ if b then some s else none | some t ↦ some t ]
unread b s none e = sym (if_false _ _ e)
unread b s (some t) e = refl

not_raised : {rs after : Resources} → ¬ (raised_error rs ≡ updated after)
not_raised e = cc

updated_injective : {rs after : Resources} → updated rs ≡ updated after → rs ≡ after
updated_injective e = ap after_update e

change_id : (o : Option JobState) → change (λ old. old) o ≡ o
change_id none = refl
change_id (some s) = refl

-- A line about another job leaves the status.
pub other_line :
    (j k : ℕ) (s : JobState) (rs : Resources)
    → (k == j) ≡ false
    → get_entry j (set_status k s rs) ≡ get_entry j rs
other_line j k s rs e = get-set_status j k s rs ∙ rw e (change_id (get_entry j rs))

not_same : (j k : ℕ) (ks : List ℕ) (b : Bool) → has j ks ≡ b → has k ks ≡ not b → (k == j) ≡ false
not_same j k ks b p q = elim (Bool-cases (k == j)) [
  | inl e ↦ absurd (not_both b (sym (subst (λ i. has i ks ≡ not b) ((==_iff k j).0 e) q) ∙ p))
  | inr e ↦ e
]

-- A job that was not asked about keeps its status, whatever the lines are.
lines_keep :
    (j : ℕ) (asked : List ℕ) (ls : List (Line LsfCode)) (missing : List ℕ) (rs : Resources)
    → has j asked ≡ false
    → has j missing ≡ false
    → get_entry j (after_update (lsf_lines asked ls missing rs)) ≡ get_entry j rs
unfolding lsf_lines
lines_keep j asked [] missing rs a m =
    get-complete_missing j missing rs ∙ rw m (change_id (get_entry j rs))
lines_keep j asked (blank ∷ ls) missing rs a m = lines_keep j asked ls missing rs a m
lines_keep j asked (other_words ∷ ls) missing rs a m = lines_keep j asked ls missing rs a m
lines_keep j asked (state_line k c ∷ ls) missing rs a m = elim (Bool-cases (has k asked)) [
  | inl e ↦
      let other = other_line j k (lsf_translate_table c) rs (not_same j k asked false a e) in
      let rest =
        lines_keep j asked ls (discard k missing) (set_status k (lsf_translate_table c) rs) a
          (has-discard j k missing ∙ rw (not_same j k asked false a e) m) in
      elim (Bool-cases (has k missing)) [
        | inl h ↦ rw (e, h) (rest ∙ other)
        | inr h ↦ rw (e, h) other
      ]
  | inr e ↦ rw e (lines_keep j asked ls missing rs a m)
]

skipped_line :
    (j k : ℕ) (c : LsfCode) (ls : List (Line LsfCode))
    → (k == j) ≡ false
    → reported lsf_translate_table j ls ≡ reported lsf_translate_table j (state_line k c ∷ ls)
unfolding reported
skipped_line j k c ls e =
    unread (k == j) (lsf_translate_table c) (reported lsf_translate_table j ls) e

lines_report :
    (j : ℕ) (asked : List ℕ) (ls : List (Line LsfCode)) (missing : List ℕ) (rs after : Resources)
    → has j asked ≡ true
    → lsf_lines asked ls missing rs ≡ updated after
    → get_entry j after
      ≡ change (after_report (reported lsf_translate_table j ls) (has j missing)) (get_entry j rs)
unfolding lsf_lines reported
lines_report j asked [] missing rs after a h =
    ap (get_entry j) (sym (updated_injective h)) ∙ get-complete_missing j missing rs
lines_report j asked (blank ∷ ls) missing rs after a h =
    lines_report j asked ls missing rs after a h
lines_report j asked (other_words ∷ ls) missing rs after a h =
    lines_report j asked ls missing rs after a h
lines_report j asked (state_line k c ∷ ls) missing rs after a h = elim (Bool-cases (has k asked)) [
  | inl e ↦ elim (Bool-cases (has k missing)) [
    | inl m ↦
        lines_report j asked ls (discard k missing) (set_status k (lsf_translate_table c) rs) after
          a (sym (if_true _ _ m) ∙ sym (if_true _ _ e) ∙ h)
        ∙ line_then_rest lsf_translate_table j k c ls missing rs
    | inr m ↦ absurd (not_raised (sym (if_false _ _ m) ∙ sym (if_true _ _ e) ∙ h))
  ]
  | inr e ↦
      lines_report j asked ls missing rs after a (sym (if_false _ _ e) ∙ h)
      ∙ ap (λ o. change (after_report o (has j missing)) (get_entry j rs))
          (skipped_line j k c ls (not_same j k asked true a e))
]

answer_keeps :
    (active : List ℕ) (answer : Option (List (Line LsfCode))) (rs : Resources) (k : ℕ)
    → has k active ≡ false
    → get_entry k (after_update (lsf_answer active answer rs)) ≡ get_entry k rs
answer_keeps [] answer rs k h = refl
answer_keeps (j ∷ js) none rs k h = refl
answer_keeps (j ∷ js) (some ls) rs k h = lines_keep k (j ∷ js) ls (j ∷ js) rs h h

answer_reports :
    (active : List ℕ) (ls : List (Line LsfCode)) (rs after : Resources) (k : ℕ)
    → has k active ≡ true
    → lsf_answer active (some ls) rs ≡ updated after
    → get_entry k after
      ≡ change (after_report (reported lsf_translate_table k ls) true) (get_entry k rs)
unfolding has
answer_reports [] ls rs after k h e = cc
answer_reports (j ∷ js) ls rs after k h e =
    subst
      (λ b.
        get_entry k after
        ≡ change (after_report (reported lsf_translate_table k ls) b) (get_entry k rs))
      h (lines_report k (j ∷ js) ls (j ∷ js) rs after h e)

-- The status of a job that is terminal never changes, whatever `bjobs` prints and also when the call
-- raises. No job stands twice in the table.
pub terminal_kept :
    (asks : List ℕ → Option (List (Line LsfCode))) (rs : Resources)
    → NoDup (job_ids rs)
    → (k : ℕ) (s : JobState) → get_entry k rs ≡ some s
    → is_terminal s ≡ true
    → get_entry k (after_update (lsf_status asks rs)) ≡ some s
unfolding lsf_status
terminal_kept asks rs d k s g t =
    answer_keeps (active_ids rs) (asks (active_ids rs)) rs k (has-active_ids k s rs d g ∙ ap not t)
    ∙ g

-- A call that returns, for which `bjobs` has printed `ls`, leaves a terminal status as it is, gives
-- every other job the state of the last line about it, and makes a job without a line completed. No job
-- stands twice in the table.
pub lsf_reports :
    (asks : List ℕ → Option (List (Line LsfCode))) (rs after : Resources) (ls : List (Line LsfCode))
    → NoDup (job_ids rs)
    → asks (active_ids rs) ≡ some ls
    → lsf_status asks rs ≡ updated after
    → (k : ℕ)
    → get_entry k after
      ≡ change
          (λ old.
            if is_terminal old
            then old
            else after_report (reported lsf_translate_table k ls) true old)
          (get_entry k rs)
unfolding lsf_status
lsf_reports asks rs after ls d a e k = elim (Option-cases (get_entry k rs)) [
  | inl g ↦
      ap (get_entry k) (sym (ap after_update e))
      ∙ answer_keeps (active_ids rs) (asks (active_ids rs)) rs k (unknown_not_active k rs g)
      ∙ rw g refl
  | inr (s, g) ↦ elim (Bool-cases (is_terminal s)) [
    | inl t ↦
        ap (get_entry k) (sym (ap after_update e))
        ∙ terminal_kept asks rs d k s g t
        ∙ rw (g, t) refl
    | inr t ↦
        answer_reports (active_ids rs) ls rs after k (has-active_ids k s rs d g ∙ ap not t)
          (subst (λ o. lsf_answer (active_ids rs) o rs ≡ updated after) a e)
        ∙ rw (g, t) refl
  ]
]
