-- ===== src/Jobs/ErrorHandlers/Sorting.antt =====
-- The order in which windowed_error_handler of parsl/jobs/error_handlers.py puts the blocks.
use parsl.Prelude.{
  ℕ, ◌+◌, ◌<◌, false, ◌≡◌, refl, [], ◌∷◌, length, leb, ltb, ◌==◌, if◌then◌else◌, arith, All,
  Bool-cases, inl, inr, ap, ◌∙◌, subst, if_true, if_false, leb→le, leb→gt,
}
use parsl.Jobs.States.{JobState}
use parsl.Jobs.Blocks.{Statuses}
use parsl.Jobs.ErrorHandlers.{insert_status, sort_status}

-- How many blocks have a larger id.
abbrev pub blocks_after : ℕ → Statuses → ℕ
blocks_after k [] = 0
blocks_after k ((j, s) ∷ d) = let rest = blocks_after k d in if ltb k j then rest + 1 else rest

-- No block id stands twice.
abbrev pub UniqueIds : Statuses → Type 0
UniqueIds [] = Unit
UniqueIds (e ∷ d) = All (λ (x : ℕ × JobState). (x.0 == e.0) ≡ false) d × UniqueIds d

abbrev pub Ascending : Statuses → Type 0
Ascending [] = Unit
Ascending (e ∷ d) = All (λ (x : ℕ × JobState). e.0 < x.0) d × Ascending d

module _ (P : ℕ × JobState → Type 0) where
  All-insert : (e : ℕ × JobState) (d : Statuses) → P e → All P d → All P (insert_status e d)
  unfolding insert_status
  All-insert e [] p a = (p, tt)
  All-insert e (x ∷ d) p a = elim (Bool-cases (leb x.0 e.0)) [
    | inl l ↦ rw l (a.0, All-insert e d p a.1)
    | inr l ↦ rw l (p, a)
  ]

  insert-All : (e : ℕ × JobState) (d : Statuses) → All P (insert_status e d) → P e × All P d
  unfolding insert_status
  insert-All e [] a = a
  insert-All e (x ∷ d) a = elim (Bool-cases (leb x.0 e.0)) [
    | inl l ↦
        let b = subst (All P) (if_true _ _ l) a in
        let (p, rest) = insert-All e d b.1 in (p, (b.0, rest))
    | inr l ↦ subst (All P) (if_false _ _ l) a
  ]

  pub All-sort : (d : Statuses) → All P d → All P (sort_status d)
  unfolding sort_status
  All-sort [] a = tt
  All-sort (e ∷ d) a = All-insert e (sort_status d) a.0 (All-sort d a.1)

  pub sort-All : (d : Statuses) → All P (sort_status d) → All P d
  unfolding sort_status
  sort-All [] a = tt
  sort-All (e ∷ d) a = let (p, rest) = insert-All e (sort_status d) a in (p, sort-All d rest)

All-above :
    (k m : ℕ) (d : Statuses)
    → k < m
    → All (λ (x : ℕ × JobState). m < x.0) d
    → All (λ (x : ℕ × JobState). k < x.0) d
All-above k m [] h a = tt
All-above k m (x ∷ d) h a = (let first = a.0 in omega arith, All-above k m d h a.1)

insert-Ascending :
    (e : ℕ × JobState) (d : Statuses)
    → All (λ (x : ℕ × JobState). (x.0 == e.0) ≡ false) d
    → Ascending d
    → Ascending (insert_status e d)
unfolding insert_status
insert-Ascending e [] u a = (tt, tt)
insert-Ascending e (x ∷ d) u a = elim (Bool-cases (leb x.0 e.0)) [
  | inl l ↦
      let other = u.0 in
      let below : x.0 < e.0 = ground (arith, leb→le _ _ l) in
      rw l
        (All-insert (λ (y : ℕ × JobState). x.0 < y.0) e d below a.0, insert-Ascending e d u.1 a.1)
  | inr l ↦ let above = leb→gt _ _ l in rw l ((above, All-above e.0 x.0 d above a.0), a)
]

pub sort-Ascending : (d : Statuses) → UniqueIds d → Ascending (sort_status d)
unfolding sort_status
sort-Ascending [] u = tt
sort-Ascending (e ∷ d) u =
    insert-Ascending e (sort_status d) (All-sort (λ (x : ℕ × JobState). (x.0 == e.0) ≡ false) d u.0)
      (sort-Ascending d u.1)

blocks_after-insert :
    (k : ℕ) (e : ℕ × JobState) (d : Statuses)
    → blocks_after k (insert_status e d) ≡ blocks_after k (e ∷ d)
unfolding insert_status
blocks_after-insert k e [] = refl
blocks_after-insert k e (x ∷ d) = elim (Bool-cases (leb x.0 e.0)) [
  | inl l ↦ rw (l, blocks_after-insert k e d) (ground arith)
  | inr l ↦ rw l refl
]

pub blocks_after-sort : (k : ℕ) (d : Statuses) → blocks_after k (sort_status d) ≡ blocks_after k d
unfolding sort_status
blocks_after-sort k [] = refl
blocks_after-sort k (e ∷ d) =
    blocks_after-insert k e (sort_status d)
    ∙ ap (λ n. if ltb k e.0 then n + 1 else n) (blocks_after-sort k d)

pub all_after :
    (k : ℕ) (d : Statuses) → All (λ (x : ℕ × JobState). k < x.0) d → blocks_after k d ≡ length d
all_after k [] a = refl
all_after k (x ∷ d) a = let first = a.0 in ground (arith, all_after k d a.1)
