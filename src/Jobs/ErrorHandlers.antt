-- ===== src/Jobs/ErrorHandlers.antt =====
-- parsl/jobs/error_handlers.py: when an executor is put into its bad state. The result of a handler
-- is whether it calls set_bad_state_and_fail_all; the text of the error is left out.
pub mod Sorting
pub mod Window
use parsl.Prelude.{
  ℕ, zero, suc, ◌+◌, ◌-◌, ◌≤◌, ◌<◌, Bool, true, false, ◌&&◌, ◌≡◌, refl, Option, none, some, [], ◌∷◌,
  length, drop, leb, ◌==◌, max, min, if◌then◌else◌, arith, All, Bool-cases, inl, inr, ◌↔◌, ==_iff,
  ap, sym, ◌∙◌, subst,
}
use parsl.Jobs.States.{JobState, failed, missing}
use parsl.Jobs.Blocks.{Statuses}

unfoldable pub is_failure : JobState → Bool
is_failure failed = true
is_failure missing = true
is_failure _ = false

-- `_count_jobs`
unfoldable pub count_jobs : Statuses → ℕ × ℕ
unfolding is_failure
count_jobs [] = (0, 0)
count_jobs ((k, s) ∷ d) =
    let (total, bad) = count_jobs d in (total + 1, (if is_failure s then bad + 1 else bad))

-- The threshold, with the provider's `init_blocks` if it has any.
abbrev pub threshold_of : Option ℕ → ℕ → ℕ
threshold_of none threshold = threshold
threshold_of (some init_blocks) threshold = max 1 init_blocks

unfoldable pub simple_error_handler : Option ℕ → ℕ → Statuses → Bool
unfolding count_jobs
simple_error_handler init_blocks threshold status =
    let (total_jobs, failed_jobs) = count_jobs status in
    leb (threshold_of init_blocks threshold) total_jobs && (failed_jobs == total_jobs)

-- The entries in the order of their block ids.
unfoldable pub insert_status : ℕ × JobState → Statuses → Statuses
insert_status e [] = e ∷ []
insert_status e (x ∷ d) = if leb x.0 e.0 then x ∷ insert_status e d else e ∷ x ∷ d

unfoldable pub sort_status : Statuses → Statuses
unfolding insert_status
sort_status [] = []
sort_status (e ∷ d) = insert_status e (sort_status d)

-- `l[-n:]`, which is all of the list for 0.
unfoldable pub last_of : ℕ → Statuses → Statuses
last_of zero d = d
last_of (suc n) d = drop (length d - suc n) d

unfoldable pub windowed_error_handler : ℕ → Statuses → Bool
unfolding count_jobs sort_status last_of
windowed_error_handler threshold status =
    (count_jobs (last_of threshold (sort_status status))).1 == threshold

abbrev pub AllFailed : Statuses → Type 0
AllFailed = All (λ (e : ℕ × JobState). is_failure e.1 ≡ true)

count_jobs-total : (d : Statuses) → (count_jobs d).0 ≡ length d
unfolding count_jobs
count_jobs-total [] = refl
count_jobs-total ((k, s) ∷ d) = omega (arith, count_jobs-total d)

pub count_jobs-le : (d : Statuses) → (count_jobs d).1 ≤ length d
unfolding count_jobs
count_jobs-le [] = omega arith
count_jobs-le ((k, s) ∷ d) = elim (Bool-cases (is_failure s)) [
  | inl b ↦ rw b (omega (arith, count_jobs-le d))
  | inr b ↦ rw b (omega (arith, count_jobs-le d))
]

pub AllFailed-count : (d : Statuses) → AllFailed d → (count_jobs d).1 ≡ length d
unfolding count_jobs
AllFailed-count [] a = refl
AllFailed-count ((k, s) ∷ d) a = rw a.0 (omega (arith, AllFailed-count d a.1))

pub count-AllFailed : (d : Statuses) → (count_jobs d).1 ≡ length d → AllFailed d
unfolding count_jobs
count-AllFailed [] h = tt
count-AllFailed ((k, s) ∷ d) h = elim (Bool-cases (is_failure s)) [
  | inl b ↦ (
    b,
    count-AllFailed d (
        let full =
          subst (λ c. (if c then (count_jobs d).1 + 1 else (count_jobs d).1) ≡ suc (length d)) b
            h in
        omega arith),
  )
  | inr b ↦ absurd (
      let full =
        subst (λ c. (if c then (count_jobs d).1 + 1 else (count_jobs d).1) ≡ suc (length d)) b h in
      omega (arith, count_jobs-le d))
]

both_iff : (m n a b : ℕ) → ((leb m n && (a == b)) ≡ true) ↔ ((m ≤ n) × (a ≡ b))
both_iff m n a b = ground arith

-- The simple handler fails all tasks exactly when there are at least as many jobs as the threshold
-- (the provider's `init_blocks`, at least 1, where it has any), and each has failed or is missing.
pub simple_error_handler_iff :
    (init_blocks : Option ℕ) (threshold : ℕ) (status : Statuses)
    → (simple_error_handler init_blocks threshold status ≡ true)
      ↔ ((threshold_of init_blocks threshold ≤ length status) × AllFailed status)
unfolding simple_error_handler
simple_error_handler_iff init_blocks threshold status =
    let split =
      both_iff (threshold_of init_blocks threshold) (count_jobs status).0 (count_jobs status).1
        (count_jobs status).0 in
    (
      λ h.
          let (enough, all) = split.0 h in
          (
            subst (λ n. threshold_of init_blocks threshold ≤ n) (count_jobs-total status) enough,
            count-AllFailed status (all ∙ count_jobs-total status),
          ),
      λ p. split.1 (
        subst (λ n. threshold_of init_blocks threshold ≤ n) (sym (count_jobs-total status)) p.0,
        AllFailed-count status p.1 ∙ sym (count_jobs-total status),
      ),
    )
