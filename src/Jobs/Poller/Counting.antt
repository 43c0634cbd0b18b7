-- ===== src/Jobs/Poller/Counting.antt =====
-- Counts of the active blocks of two tables of parsl/executors/status_handling.py.
use parsl.Prelude.{
  Bool, ℕ, ◌+◌, ◌≤◌, ◌≡◌, sym, Option, none, some, [], ◌∷◌, ◌==◌, if◌then◌else◌, true, arith,
  Bool-cases, inl, inr, ==_iff, subst,
}
use parsl.Jobs.States.{JobState}
use parsl.Jobs.Blocks.{get_entry, Statuses, active_hit, active_blocks}
use parsl.Jobs.Blocks.Scaling.{Distinct}

abbrev pub hit_of : Option JobState → ℕ
hit_of none = 0
hit_of (some s) = active_hit s

abbrev without : ℕ → Statuses → Statuses
without k [] = []
without k ((j, s) ∷ d) = let rest = without k d in if j == k then rest else (j, s) ∷ rest

get-without :
    (j k : ℕ) (d : Statuses) → get_entry j (without k d) ≡ (if k == j then none else get_entry j d)
unfolding get_entry
get-without j k [] = ground arith
get-without j k ((i, s) ∷ d) = ground (arith, get-without j k d)

-- Taking a block out takes its share of the count, at least.
active-without :
    (k : ℕ) (d : Statuses) → active_blocks (without k d) + hit_of (get_entry k d) ≤ active_blocks d
unfolding active_blocks get_entry
active-without k [] = omega arith
active-without k ((i, s) ∷ d) = elim (Bool-cases (i == k)) [
  | inl e ↦ rw e (let ih = active-without k d in omega arith)
  | inr e ↦ rw e (let ih = active-without k d in omega arith)
]

same_key : (k : ℕ) → (k == k) ≡ true
same_key k = ground arith

-- If no block of one table counts for more than in the other, the whole does not.
pub active_blocks_mono :
    (d d' : Statuses)
    → Distinct d'
    → ((k : ℕ) → hit_of (get_entry k d') ≤ hit_of (get_entry k d))
    → active_blocks d' ≤ active_blocks d
unfolding active_blocks get_entry
active_blocks_mono d [] u h = omega arith
active_blocks_mono d ((k, s) ∷ d') u h =
    let first = h k in
    let rest = active_blocks_mono (without k d) d' u.1 (λ j. elim (Bool-cases (k == j)) [
      | inl e ↦
          subst (λ o. hit_of o ≤ hit_of (get_entry j (without k d)))
            (sym (subst (λ i. get_entry i d' ≡ none) ((==_iff k j).0 e) u.0)) (omega arith)
      | inr e ↦
          rw (get-without j k d, e)
            (subst
              (λ (b : Bool). hit_of (if b then some s else get_entry j d') ≤ hit_of (get_entry j d))
              e (h j))
    ]) in
    let taken = active-without k d in
    let own =
      subst (λ (b : Bool). hit_of (if b then some s else get_entry k d') ≤ hit_of (get_entry k d))
        (same_key k) first in
    omega arith
