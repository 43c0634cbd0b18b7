-- ===== src/Jobs/ErrorHandlers/Window.antt =====
-- The window of windowed_error_handler of parsl/jobs/error_handlers.py.
use parsl.Prelude.{
  ℕ, zero, suc, ◌-◌, ◌≤◌, ◌<◌, true, false, ◌≡◌, refl, [], ◌∷◌, length, drop, leb, ltb, min, arith,
  All, Bool-cases, inl, inr, ◌↔◌, ==_iff, ap, sym, ◌∙◌, subst, if_false, leb→le, leb→gt,
}
use parsl.Jobs.States.{JobState}
use parsl.Jobs.Blocks.{Statuses}
use parsl.Jobs.ErrorHandlers.{
  is_failure, count_jobs, insert_status, sort_status, last_of, windowed_error_handler, AllFailed,
  count_jobs-le, AllFailed-count, count-AllFailed,
}
use parsl.Jobs.ErrorHandlers.Sorting.{
  blocks_after, UniqueIds, Ascending, All-sort, sort-All, sort-Ascending, blocks_after-sort,
  all_after,
}

length-drop : (n : ℕ) (d : Statuses) → length (drop n d) ≡ length d - n
length-drop zero d = omega arith
length-drop (suc n) [] = omega arith
length-drop (suc n) (x ∷ d) = omega (arith, length-drop n d)

length-last_of : (n : ℕ) (d : Statuses) → 0 < n → length (last_of n d) ≡ min n (length d)
unfolding last_of
length-last_of zero d h = absurd (omega arith)
length-last_of (suc n) d h = omega (arith, length-drop (length d - suc n) d)

length-insert_status :
    (e : ℕ × JobState) (d : Statuses) → length (insert_status e d) ≡ suc (length d)
unfolding insert_status
length-insert_status e [] = refl
length-insert_status e (x ∷ d) = elim (Bool-cases (leb x.0 e.0)) [
  | inl l ↦ rw l (omega (arith, length-insert_status e d))
  | inr l ↦ rw l refl
]

length-sort_status : (d : Statuses) → length (sort_status d) ≡ length d
unfolding sort_status
length-sort_status [] = refl
length-sort_status (e ∷ d) = length-insert_status e (sort_status d) ∙ ap suc (length-sort_status d)

-- Each of the entries has failed that fewer than so many blocks come after.
abbrev pub LastFailed : ℕ → Statuses → Statuses → Type 0
LastFailed n status =
    All (λ (e : ℕ × JobState). blocks_after e.0 status < n → is_failure e.1 ≡ true)

not_after :
    (k j : ℕ) (d : Statuses) (s : JobState) → j < k → blocks_after k ((j, s) ∷ d) ≡ blocks_after k d
not_after k j d s h = ground arith

add_first :
    (n : ℕ) (e : ℕ × JobState) (d es : Statuses)
    → All (λ (x : ℕ × JobState). e.0 < x.0) es
    → LastFailed n (e ∷ d) es ↔ LastFailed n d es
add_first n e d [] a = (λ x. x, λ x. x)
add_first n e d (x ∷ es) a =
    let same = not_after x.0 e.0 d e.1 a.0 in
    let rest = add_first n e d es a.1 in
    (
      λ l. (λ few. l.0 (omega (arith, same)), rest.0 l.1),
      λ l. (λ few. l.0 (omega (arith, same)), rest.1 l.1),
    )

none_after_self :
    (e : ℕ × JobState) (d : Statuses)
    → All (λ (x : ℕ × JobState). e.0 < x.0) d
    → blocks_after e.0 (e ∷ d) ≡ length d
none_after_self e d a =
    (let no : ltb e.0 e.0 ≡ false = ground arith in if_false _ _ no) ∙ all_after e.0 d a

window_iff :
    (n : ℕ) (d : Statuses) → Ascending d → AllFailed (drop (length d - n) d) ↔ LastFailed n d d
window_iff n [] a =
    let none_left : 0 - n ≡ 0 = omega arith in
    (λ x. tt, λ x. subst (λ m. AllFailed (drop m [])) (sym none_left) tt)
window_iff n (e ∷ d) a =
    let rest = window_iff n d a.1 in
    let later = add_first n e d d a.0 in
    let last = none_after_self e d a.0 in
    elim (Bool-cases (leb (suc (length d)) n)) [
      | inl l ↦
          let large = leb→le _ _ l in
          let none_left : suc (length d) - n ≡ 0 = omega arith in
          let none_later : length d - n ≡ 0 = omega arith in
          (
            λ f.
                let all = subst (λ m. AllFailed (drop m (e ∷ d))) none_left f in
                (
                  λ few. all.0,
                  later.1 (rest.0 (subst (λ m. AllFailed (drop m d)) (sym none_later) all.1)),
                ),
            λ f.
                subst (λ m. AllFailed (drop m (e ∷ d))) (sym none_left)
                  (
                    f.0 (omega (arith, last)),
                    subst (λ m. AllFailed (drop m d)) none_later (rest.1 (later.0 f.1)),
                  ),
          )
      | inr l ↦
          let small = leb→gt _ _ l in
          let one_more : suc (length d) - n ≡ suc (length d - n) = omega arith in
          (
            λ f. (
              λ few. absurd (omega (arith, last)),
              later.1 (rest.0 (subst (λ m. AllFailed (drop m (e ∷ d))) one_more f)),
            ),
            λ f. subst (λ m. AllFailed (drop m (e ∷ d))) (sym one_more) (rest.1 (later.0 f.1)),
          )
    ]

same_counts : (n : ℕ) (d es : Statuses) → LastFailed n (sort_status d) es ↔ LastFailed n d es
same_counts n d [] = (λ x. x, λ x. x)
same_counts n d (x ∷ es) =
    let same = blocks_after-sort x.0 d in
    let rest = same_counts n d es in
    (
      λ l. (λ few. l.0 (omega (arith, same)), rest.0 l.1),
      λ l. (λ few. l.0 (omega (arith, same)), rest.1 l.1),
    )

window_of :
    (n : ℕ) (d : Statuses) → 0 < n → AllFailed (last_of n d) ↔ AllFailed (drop (length d - n) d)
unfolding last_of
window_of zero d h = absurd (omega arith)
window_of (suc n) d h = (λ x. x, λ x. x)

-- The last entries by block id have failed.
LastFailed-iff :
    (n : ℕ) (status : Statuses)
    → 0 < n
    → UniqueIds status
    → AllFailed (last_of n (sort_status status)) ↔ LastFailed n status status
LastFailed-iff n status h u =
    let sorted = sort_status status in
    let first = window_of n sorted h in
    let ordered = window_iff n sorted (sort-Ascending status u) in
    let counts = same_counts n status sorted in
    let Failed = λ (e : ℕ × JobState). blocks_after e.0 status < n → is_failure e.1 ≡ true in
    (
      λ f. sort-All Failed status (counts.0 (ordered.0 (first.0 f))),
      λ f. first.1 (ordered.1 (counts.1 (All-sort Failed status f))),
    )

-- The windowed handler, with a threshold above 0, fails all tasks exactly when there are at least so
-- many blocks, and each of which fewer than the threshold have a larger id has failed or is missing. No
-- id stands twice.
pub windowed_error_handler_iff :
    (threshold : ℕ) (status : Statuses)
    → 0 < threshold
    → UniqueIds status
    → (windowed_error_handler threshold status ≡ true)
      ↔ ((threshold ≤ length status) × LastFailed threshold status status)
unfolding windowed_error_handler
windowed_error_handler_iff threshold status h u =
    let window = last_of threshold (sort_status status) in
    let size = length-last_of threshold (sort_status status) h in
    let all = length-sort_status status in
    let few = count_jobs-le window in
    let same_count = ==_iff (count_jobs window).1 threshold in
    let failures = LastFailed-iff threshold status h u in
    (
      λ b.
          let full = same_count.0 b in
          (omega arith, failures.0 (count-AllFailed window (omega arith))),
      λ p.
          same_count.1
            (AllFailed-count window (failures.1 p.1) ∙ (let enough = p.0 in omega arith)),
    )
