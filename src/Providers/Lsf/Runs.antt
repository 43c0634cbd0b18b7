-- ===== src/Providers/Lsf/Runs.antt =====
-- The calls of a provider of parsl/providers/lsf/lsf.py, in any order.
use parsl.Prelude.{
  if_true, if_false, ℕ, Bool, true, false, ◌≡◌, refl, sym, ap, ◌∙◌, Option, none, some, List, [],
  ◌∷◌, ◌==◌, arith, Bool-cases, inl, inr, subst, All,
}
use parsl.Jobs.States.{JobState, is_terminal, pending, cancelled, completed}
use parsl.Jobs.Blocks.{get_entry, put_entry}
use parsl.Jobs.Blocks.Scaling.{get_entry-put}
use parsl.Htex.Interchange.State.{has, add, discard}
use parsl.Htex.Interchange.Tables.{NoDup, NoDup-add}
use parsl.Providers.{
  Resources, Update, raised_error, after_update, set_status, job_ids, active_ids, complete_missing,
  Line, blank, other_words, state_line, set_all, cancel,
}
use parsl.Providers.Lsf.{
  LsfCode, lsf_translate_table, lsf_lines, lsf_answer, lsf_status, with_ids, lsf_submit,
}
use parsl.Providers.Lsf.Terminal.{other_line, terminal_kept}

pub data Event : Type 0 where
  submits : Option (List ℕ) → Event
  polls : (List ℕ → Option (List (Line LsfCode))) → Event
  cancels : (succeeds : Bool) → List ℕ → Event

unfoldable pub happen : Event → Resources → Resources
unfolding lsf_submit lsf_status cancel
happen (submits ids) rs = (lsf_submit ids rs).0
happen (polls asks) rs = after_update (lsf_status asks rs)
happen (cancels succeeds ks) rs = after_update (cancel succeeds ks rs)

unfoldable pub run : List Event → Resources → Resources
unfolding happen
run [] rs = rs
run (e ∷ es) rs = run es (happen e rs)

job_ids-set_status :
    (k : ℕ) (s : JobState) (rs : Resources) → job_ids (set_status k s rs) ≡ job_ids rs
unfolding job_ids set_status
job_ids-set_status k s [] = refl
job_ids-set_status k s ((j, t) ∷ rs) = ap (j ∷◌) (job_ids-set_status k s rs)

job_ids-complete_missing :
    (ks : List ℕ) (rs : Resources) → job_ids (complete_missing ks rs) ≡ job_ids rs
unfolding complete_missing
job_ids-complete_missing [] rs = refl
job_ids-complete_missing (k ∷ ks) rs =
    job_ids-complete_missing ks (set_status k completed rs) ∙ job_ids-set_status k completed rs

job_ids-lsf_lines :
    (asked : List ℕ) (ls : List (Line LsfCode)) (missing : List ℕ) (rs : Resources)
    → job_ids (after_update (lsf_lines asked ls missing rs)) ≡ job_ids rs
unfolding lsf_lines
job_ids-lsf_lines asked [] missing rs = job_ids-complete_missing missing rs
job_ids-lsf_lines asked (blank ∷ ls) missing rs = job_ids-lsf_lines asked ls missing rs
job_ids-lsf_lines asked (other_words ∷ ls) missing rs = job_ids-lsf_lines asked ls missing rs
job_ids-lsf_lines asked (state_line k c ∷ ls) missing rs =
    let changed = job_ids-set_status k (lsf_translate_table c) rs in
    let rest =
      job_ids-lsf_lines asked ls (discard k missing) (set_status k (lsf_translate_table c) rs) in
    elim (Bool-cases (has k asked)) [
      | inl e ↦ elim (Bool-cases (has k missing)) [
        | inl m ↦ rw (e, m) (rest ∙ changed)
        | inr m ↦ rw (e, m) changed
      ]
      | inr e ↦ rw e (job_ids-lsf_lines asked ls missing rs)
    ]

job_ids-lsf_answer :
    (active : List ℕ) (answer : Option (List (Line LsfCode))) (rs : Resources)
    → job_ids (after_update (lsf_answer active answer rs)) ≡ job_ids rs
job_ids-lsf_answer [] answer rs = refl
job_ids-lsf_answer (k ∷ ks) none rs = refl
job_ids-lsf_answer (k ∷ ks) (some ls) rs = job_ids-lsf_lines (k ∷ ks) ls (k ∷ ks) rs

-- A property of what a cancelled job leaves, and of what the next ones leave.
either_way :
    (P : Resources → Type 0) (o : Option JobState) (rs : Resources) (rest : Update)
    → P rs
    → P (after_update rest)
    → P (after_update (elim o [ none ↦ raised_error rs | some t ↦ rest ]))
either_way P none rs rest p q = p
either_way P (some t) rs rest p q = q

job_ids-set_all :
    (s : JobState) (ks : List ℕ) (rs : Resources)
    → job_ids (after_update (set_all s ks rs)) ≡ job_ids rs
unfolding set_all
job_ids-set_all s [] rs = refl
job_ids-set_all s (k ∷ ks) rs =
    either_way (λ after. job_ids after ≡ job_ids rs) (get_entry k rs) rs
      (set_all s ks (set_status k s rs)) refl
      (job_ids-set_all s ks (set_status k s rs) ∙ job_ids-set_status k s rs)

job_ids-cancel :
    (succeeds : Bool) (ks : List ℕ) (rs : Resources)
    → job_ids (after_update (cancel succeeds ks rs)) ≡ job_ids rs
unfolding cancel
job_ids-cancel true ks rs = job_ids-set_all cancelled ks rs
job_ids-cancel false ks rs = refl

job_ids-put_entry :
    (k : ℕ) (s : JobState) (rs : Resources) → job_ids (put_entry k s rs) ≡ add k (job_ids rs)
unfolding job_ids put_entry add has
job_ids-put_entry k s [] = refl
job_ids-put_entry k s ((j, t) ∷ rs) = ground (arith, job_ids-put_entry k s rs)

NoDup-with_ids :
    (ks : List ℕ) (o : Option ℕ) (rs : Resources)
    → NoDup (job_ids rs)
    → NoDup (job_ids (with_ids ks o rs).0)
NoDup-with_ids [] o rs d = d
NoDup-with_ids (k ∷ ks) o rs d =
    NoDup-with_ids ks (some k) (put_entry k pending rs)
      (subst NoDup (sym (job_ids-put_entry k pending rs)) (NoDup-add k (job_ids rs) d))

happen-NoDup : (e : Event) (rs : Resources) → NoDup (job_ids rs) → NoDup (job_ids (happen e rs))
unfolding happen lsf_submit lsf_status active_ids
happen-NoDup (submits none) rs d = d
happen-NoDup (submits (some ks)) rs d = NoDup-with_ids ks none rs d
happen-NoDup (polls asks) rs d =
    subst NoDup (sym (job_ids-lsf_answer (active_ids rs) (asks (active_ids rs)) rs)) d
happen-NoDup (cancels succeeds ks) rs d = subst NoDup (sym (job_ids-cancel succeeds ks rs)) d

-- The calls that name a job: its submission, and a request to cancel it.
abbrev pub names : ℕ → Event → Bool
names k (submits none) = false
names k (submits (some ks)) = has k ks
names k (polls asks) = false
names k (cancels succeeds ks) = has k ks

true_not_false : ¬ (◌≡◌ {A = Bool} true false)
true_not_false e = cc

not_head :
    (j k : ℕ) (ks : List ℕ) → has j (k ∷ ks) ≡ false → ((k == j) ≡ false) × (has j ks ≡ false)
unfolding has
not_head j k ks h = elim (Bool-cases (k == j)) [
  | inl e ↦ absurd (true_not_false (sym (if_true _ _ e) ∙ h))
  | inr e ↦ (e, sym (if_false _ _ e) ∙ h)
]

with_ids-keeps :
    (ks : List ℕ) (o : Option ℕ) (rs : Resources) (j : ℕ)
    → has j ks ≡ false
    → get_entry j (with_ids ks o rs).0 ≡ get_entry j rs
with_ids-keeps [] o rs j h = refl
with_ids-keeps (k ∷ ks) o rs j h =
    let others = not_head j k ks h in
    with_ids-keeps ks (some k) (put_entry k pending rs) j others.1
    ∙ get_entry-put j k pending rs
    ∙ if_false _ _ others.0

set_all-keeps :
    (s : JobState) (ks : List ℕ) (rs : Resources) (j : ℕ)
    → has j ks ≡ false
    → get_entry j (after_update (set_all s ks rs)) ≡ get_entry j rs
unfolding set_all
set_all-keeps s [] rs j h = refl
set_all-keeps s (k ∷ ks) rs j h =
    let others = not_head j k ks h in
    either_way (λ after. get_entry j after ≡ get_entry j rs) (get_entry k rs) rs
      (set_all s ks (set_status k s rs)) refl
      (set_all-keeps s ks (set_status k s rs) j others.1 ∙ other_line j k s rs others.0)

cancel-keeps :
    (succeeds : Bool) (ks : List ℕ) (rs : Resources) (j : ℕ)
    → has j ks ≡ false
    → get_entry j (after_update (cancel succeeds ks rs)) ≡ get_entry j rs
unfolding cancel
cancel-keeps true ks rs j h = set_all-keeps cancelled ks rs j h
cancel-keeps false ks rs j h = refl

happen-keeps :
    (e : Event) (rs : Resources) (k : ℕ) (s : JobState)
    → names k e ≡ false
    → NoDup (job_ids rs)
    → get_entry k rs ≡ some s
    → is_terminal s ≡ true
    → get_entry k (happen e rs) ≡ some s
unfolding happen lsf_submit
happen-keeps (submits none) rs k s n d g t = g
happen-keeps (submits (some ks)) rs k s n d g t = with_ids-keeps ks none rs k n ∙ g
happen-keeps (polls asks) rs k s n d g t = terminal_kept asks rs d k s g t
happen-keeps (cancels succeeds ks) rs k s n d g t = cancel-keeps succeeds ks rs k n ∙ g

-- Over any calls of the provider, what `bjobs` and `bkill` answer being arbitrary, a job whose status
-- is terminal keeps that status, if no call submits it again or is to cancel it. No job stands twice in
-- the table at the start.
pub terminal_stays :
    (es : List Event) (rs : Resources) (k : ℕ) (s : JobState)
    → All (λ e. names k e ≡ false) es
    → NoDup (job_ids rs)
    → get_entry k rs ≡ some s
    → is_terminal s ≡ true
    → get_entry k (run es rs) ≡ some s
unfolding run
terminal_stays [] rs k s n d g t = g
terminal_stays (e ∷ es) rs k s n d g t =
    terminal_stays es (happen e rs) k s n.1 (happen-NoDup e rs d) (happen-keeps e rs k s n.0 d g t)
      t
