-- ===== src/Providers/Slurm/Forgets.antt =====
-- What `_status` of parsl/providers/slurm/slurm.py makes of the table of jobs.
use parsl.Prelude.{
  if_true, if_false, ℕ, Bool, true, false, not, ◌≡◌, refl, sym, ap, ◌∙◌, Option, none, some, List,
  [], ◌∷◌, ◌++◌, ◌==◌, length, if◌then◌else◌, Bool-cases, inl, inr, subst, All, ltb,
}
use mathlib.Core.Option.{some-injective}
use parsl.Jobs.States.{JobState, is_terminal, completed}
use parsl.Jobs.Blocks.{get_entry}
use parsl.Htex.Interchange.State.{has, discard}
use parsl.Htex.Interchange.Tables.{NoDup}
use parsl.Providers.{
  Resources, Update, updated, raised_error, after_update, set_status, job_ids, active_ids, Line,
  blank, other_words, state_line,
}
use parsl.Providers.Reports.{
  reported, after_report, change, get-complete_missing, line_then_rest, has-job_ids, has-active_ids,
}
use parsl.Providers.Slurm.{ask_all, batched, slurm_lines, slurm_answer, slurm_status}
use parsl.Providers.Slurm.Batches.{batches_without}

not_raised : {rs after : Resources} → ¬ (raised_error rs ≡ updated after)
not_raised e = cc

in_table :
    {m : Bool} (r o : Option JobState)
    → ((s : JobState) → o ≡ some s → m ≡ true)
    → change (after_report r m) o ≡ change (after_report r true) o
in_table r none h = refl
in_table r (some s) h = rw (h s refl) refl

silent_line :
    (b : Bool) (s : JobState) (o : Option JobState)
    → elim o [ none ↦ if b then some s else none | some t ↦ some t ] ≡ none
    → (o ≡ none) × ((if b then some s else none) ≡ none)
silent_line b s none e = (refl, e)
silent_line b s (some t) e = cc

module _ {Code : Type 0} (translate : Code → JobState) where
  known_line :
      (o : Option JobState) (m : Bool) (rs changed after : Resources) (rest : Update)
      → elim o [ none ↦ raised_error rs | some s ↦ if m then rest else raised_error changed ]
        ≡ updated after
      → rest ≡ updated after
  known_line none m rs changed after rest e = absurd (not_raised e)
  known_line (some s) true rs changed after rest e = e
  known_line (some s) false rs changed after rest e = absurd (not_raised e)

  lines_report :
      (ls : List (Line Code)) (missing : List ℕ) (rs after : Resources)
      → slurm_lines translate ls missing rs ≡ updated after
      → (j : ℕ)
      → get_entry j after
        ≡ change (after_report (reported translate j ls) (has j missing)) (get_entry j rs)
  unfolding slurm_lines reported
  lines_report [] missing rs after e j =
      ap (get_entry j) (sym (ap after_update e)) ∙ get-complete_missing j missing rs
  lines_report (blank ∷ ls) missing rs after e j = lines_report ls missing rs after e j
  lines_report (other_words ∷ ls) missing rs after e j = absurd (not_raised e)
  lines_report (state_line k c ∷ ls) missing rs after e j =
      lines_report ls (discard k missing) (set_status k (translate c) rs) after
        (known_line (get_entry k rs) (has k missing) rs _ after _ e) j
      ∙ line_then_rest translate j k c ls missing rs

  from_answer :
      (n : ℕ) (active : List ℕ) (rs after : Resources) (asked : Update) (j : ℕ)
      → has j active ≡ true
      → elim active [ [] ↦ updated rs | _ ∷ _ ↦ if ltb n 1 then raised_error rs else asked ]
        ≡ updated after
      → asked ≡ updated after
  unfolding has
  from_answer n [] rs after asked j h e = cc
  from_answer n (i ∷ is) rs after asked j h e = elim (Bool-cases (ltb n 1)) [
    | inl b ↦ absurd (not_raised (sym (if_true _ _ b) ∙ e))
    | inr b ↦ sym (if_false _ _ b) ∙ e
  ]

  -- A call that returns, with a job to ask about and the lines `ls` of all commands together, gives every
  -- job of the table the state of the last line about it, and makes a job without a line completed.
  pub slurm_reports :
      (n : ℕ) (asks : List ℕ → Option (List (Line Code))) (rs after : Resources)
      → (ls : List (Line Code)) (j : ℕ) → has j (active_ids rs) ≡ true
      → ask_all asks (batched n (active_ids rs)) ≡ some ls
      → slurm_status n asks translate rs ≡ updated after
      → (k : ℕ)
      → get_entry k after ≡ change (after_report (reported translate k ls) true) (get_entry k rs)
  unfolding slurm_status
  slurm_reports n asks rs after ls j h a e k =
      let read =
        subst (λ o. slurm_answer translate o rs ≡ updated after) a
          (from_answer n (active_ids rs) rs after _ j h e) in
      lines_report ls (job_ids rs) rs after read k
      ∙ in_table (reported translate k ls) (get_entry k rs) (λ s g. has-job_ids k s rs g)

  silent-append :
      (k : ℕ) (ls ms : List (Line Code))
      → reported translate k ls ≡ none
      → reported translate k ms ≡ none
      → reported translate k (ls ++ ms) ≡ none
  unfolding reported
  silent-append k [] ms p q = q
  silent-append k (blank ∷ ls) ms p q = silent-append k ls ms p q
  silent-append k (other_words ∷ ls) ms p q = silent-append k ls ms p q
  silent-append k (state_line j c ∷ ls) ms p q =
      let parts = silent_line (j == k) (translate c) (reported translate k ls) p in
      rw (silent-append k ls ms parts.0 q) parts.1

  both_asked :
      (o r : Option (List (Line Code))) (ls : List (Line Code))
      → elim o [ none ↦ none | some xs ↦ elim r [ none ↦ none | some more ↦ some (xs ++ more) ] ]
        ≡ some ls
      → (first : List (Line Code)) × (more : List (Line Code)) × (o ≡ some first)
        × (r ≡ some more)
        × (first ++ more ≡ ls)
  both_asked none r ls e = cc
  both_asked (some xs) none ls e = cc
  both_asked (some xs) (some more) ls e = (xs, more, refl, refl, some-injective _ _ e)

  -- The lines of all commands have none about a job that no command was about.
  ask_all-silent :
      (asks : List ℕ → Option (List (Line Code))) (k : ℕ)
      → ((ks : List ℕ) (ls : List (Line Code))
          → asks ks ≡ some ls
          → has k ks ≡ false
          → reported translate k ls ≡ none)
      → (bs : List (List ℕ)) (ls : List (Line Code)) → All (λ b. has k b ≡ false) bs
      → ask_all asks bs ≡ some ls
      → reported translate k ls ≡ none
  unfolding ask_all reported
  ask_all-silent asks k only [] ls w e =
      subst (λ l. reported translate k l ≡ none) (some-injective _ _ e) refl
  ask_all-silent asks k only (b ∷ bs) ls w e =
      let (first, more, p, q, all) = both_asked (asks b) (ask_all asks bs) ls e in
      subst (λ l. reported translate k l ≡ none) all
        (silent-append k first more (only b first p w.0) (ask_all-silent asks k only bs more w.1 q))

  -- When some job is active, and its call returns, every job that was terminal is made completed, a
  -- failed or cancelled one too: a command prints no line about a job it was not asked about (`only`),
  -- and no job stands twice in the table.
  pub forgets_terminal :
      (n : ℕ) (asks : List ℕ → Option (List (Line Code))) (rs after : Resources)
      → (ls : List (Line Code)) (j k : ℕ) (s : JobState)
      → (only : (ks : List ℕ) (ms : List (Line Code))
          → asks ks ≡ some ms
          → has k ks ≡ false
          → reported translate k ms ≡ none)
      → NoDup (job_ids rs)
      → has j (active_ids rs) ≡ true
      → ask_all asks (batched n (active_ids rs)) ≡ some ls
      → slurm_status n asks translate rs ≡ updated after
      → get_entry k rs ≡ some s
      → is_terminal s ≡ true
      → get_entry k after ≡ some completed
  forgets_terminal n asks rs after ls j k s only d h a e g t =
      let silent : reported translate k ls ≡ none =
        ask_all-silent asks k only (batched n (active_ids rs)) ls
          (batches_without (length (active_ids rs)) n k (active_ids rs)
            (has-active_ids k s rs d g ∙ ap not t))
          a in
      slurm_reports n asks rs after ls j h a e k ∙ rw (silent, g) refl
