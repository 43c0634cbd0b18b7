-- ===== src/Htex/Affinity/Slices.antt =====
-- The slices that worker of parsl/executors/high_throughput/process_worker_pool.py takes of a list.
use native.Mathlib.Nat.{mul-le-mul_left}
use parsl.Prelude.{
  ℕ, zero, suc, ◌+◌, ◌-◌, ◌*◌, ◌≤◌, ◌<◌, ◌≡◌, ◌≢◌, refl, sym, ◌∙◌, List, [], ◌∷◌, length, take,
  drop, ◌==◌, Bool, true, false, arith, Bool-cases, inl, inr, subst, ap, if_false, ltb, ltb→lt,
  ltb→ge, ==_iff,
}
use parsl.Htex.Interchange.State.{has}
use parsl.Htex.Interchange.Tables.{NoDup}
use parsl.Htex.Affinity.{slice, every}

-- A core of the first places is not in the later ones.
first_not_later :
    (c p q : ℕ) (xs : List ℕ)
    → NoDup xs
    → p ≤ q
    → has c (take p xs) ≡ true
    → has c (drop q xs) ≡ false
unfolding has
first_not_later c zero q xs d h t = cc
first_not_later c (suc p) zero xs d h t = absurd (omega arith)
first_not_later c (suc p) (suc q) [] d h t = refl
first_not_later c (suc p) (suc q) (x ∷ xs) d h t = elim (Bool-cases (x == c)) [
  | inl e ↦ not_in_drop c q xs (subst (λ i. has i xs ≡ false) ((==_iff x c).0 e) d.0)
  | inr e ↦ first_not_later c p q xs d.1 (omega arith) (sym (if_false _ _ e) ∙ t)
]
  where
    not_in_drop : (c q : ℕ) (xs : List ℕ) → has c xs ≡ false → has c (drop q xs) ≡ false
    not_in_drop c zero xs h = h
    not_in_drop c (suc q) [] h = h
    not_in_drop c (suc q) (x ∷ xs) h = not_in_drop c q xs (ground arith)

in_take :
    (c a m : ℕ) (xs : List ℕ) → has c (take m (drop a xs)) ≡ true → has c (take (a + m) xs) ≡ true
unfolding has
in_take c zero m xs h = subst (λ k. has c (take k xs) ≡ true) (omega arith) h
in_take c (suc a) zero [] h = cc
in_take c (suc a) (suc m) [] h = cc
in_take c (suc a) m (x ∷ xs) h =
    let whole : suc (a + m) ≡ suc a + m = omega arith in
    let rest = in_take c a m xs h in
    subst (λ k. has c (take k (x ∷ xs)) ≡ true) whole (ground arith)

in_drop : (c m : ℕ) (xs : List ℕ) → has c (take m xs) ≡ true → has c xs ≡ true
unfolding has
in_drop c zero xs h = cc
in_drop c (suc m) [] h = cc
in_drop c (suc m) (x ∷ xs) h = let ih = in_drop c m xs in ground arith

none_of_them : (step k c : ℕ) (xs : List ℕ) → has c xs ≡ false → has c (every step k xs) ≡ false
unfolding has every
none_of_them step k c [] h = h
none_of_them step zero c (x ∷ xs) h = let ih = none_of_them step (step - 1) c xs in ground arith
none_of_them step (suc k) c (x ∷ xs) h = none_of_them step k c xs (ground arith)

clash : (b : Bool) → b ≡ false → ¬ (b ≡ true)
clash b p q = let no = sym p ∙ q in cc

-- Two steps through a list that start at different places below the step take different elements.
pub every_disjoint :
    (step i j c : ℕ) (xs : List ℕ)
    → NoDup xs
    → i < step
    → j < step
    → i ≢ j
    → has c (every step i xs) ≡ true
    → has c (every step j xs) ≡ false
unfolding has every
every_disjoint step i j c [] d a b n h = cc
every_disjoint step zero zero c (x ∷ xs) d a b n h = absurd (n refl)
every_disjoint step zero (suc j) c (x ∷ xs) d a b n h = elim (Bool-cases (x == c)) [
  | inl e ↦ none_of_them step j c xs (subst (λ k. has k xs ≡ false) ((==_iff x c).0 e) d.0)
  | inr e ↦
      every_disjoint step (step - 1) j c xs d.1 (omega arith) (omega arith)
        (λ same. absurd (omega arith)) (sym (if_false _ _ e) ∙ h)
]
every_disjoint step (suc i) zero c (x ∷ xs) d a b n h = elim (Bool-cases (x == c)) [
  | inl e ↦ absurd (
      clash (has c (every step i xs))
        (none_of_them step i c xs (subst (λ k. has k xs ≡ false) ((==_iff x c).0 e) d.0)) h)
  | inr e ↦
      if_false _ _ e
      ∙ every_disjoint step i (step - 1) c xs d.1 (omega arith) (omega arith)
          (λ same. absurd (omega arith)) h
]
every_disjoint step (suc i) (suc j) c (x ∷ xs) d a b n h =
    every_disjoint step i j c xs d.1 (omega arith) (omega arith) (λ e. n (ap suc e)) h

-- Slices at two different places of one width share no element.
slices_disjoint :
    (n i j c : ℕ) (xs : List ℕ)
    → NoDup xs
    → i < j
    → has c (slice (n * i) (n * (i + 1)) xs) ≡ true
    → has c (slice (n * j) (n * (j + 1)) xs) ≡ false
unfolding slice
slices_disjoint n i j c xs d h t =
    elim (Bool-cases (has c (take (n * (j + 1) - n * j) (drop (n * j) xs)))) [
      | inl e ↦ absurd (
          let whole : n * i + (n * (i + 1) - n * i) ≡ n * (i + 1) = omega arith in
          clash (has c (drop (n * j) xs))
            (first_not_later c (n * (i + 1)) (n * j) xs d (mul-le-mul_left n (omega arith)) (
              subst (λ k. has c (take k xs) ≡ true) whole
                (in_take c (n * i) (n * (i + 1) - n * i) xs t)))
            (in_drop c (n * (j + 1) - n * j) (drop (n * j) xs) e))
      | inr e ↦ e
    ]

at_least_one : (m a : ℕ) (xs : List ℕ) → 0 < m → a < length xs → 0 < length (take m (drop a xs))
at_least_one m a [] h k = absurd (omega arith)
at_least_one zero a (x ∷ xs) h k = absurd (omega arith)
at_least_one (suc m) zero (x ∷ xs) h k = omega arith
at_least_one (suc m) (suc a) (x ∷ xs) h k = at_least_one (suc m) a xs h (omega arith)

pub slice_has_one :
    (n w pool_size : ℕ) (xs : List ℕ)
    → 0 < n
    → w < pool_size
    → n * pool_size ≤ length xs
    → 0 < length (slice (n * w) (n * (w + 1)) xs)
unfolding slice
slice_has_one n w pool_size xs h k enough =
    let last = mul-le-mul_left n (let below : w + 1 ≤ pool_size = omega arith in below) in
    at_least_one (n * (w + 1) - n * w) (n * w) xs (omega arith) (omega arith)

pub every_has_one : (step k : ℕ) (xs : List ℕ) → k < length xs → 0 < length (every step k xs)
unfolding every
every_has_one step k [] h = absurd (omega arith)
every_has_one step zero (x ∷ xs) h = omega arith
every_has_one step (suc k) (x ∷ xs) h = every_has_one step k xs (omega arith)

different : (i j : ℕ) → j ≤ i → i ≢ j → j < i
different i j h n = elim (Bool-cases (i == j)) [
  | inl e ↦ absurd (n ((==_iff i j).0 e))
  | inr e ↦ ground arith
]

-- Slices at different places of one width share no element, in either order.
pub either_slices :
    (n i j c : ℕ) (xs : List ℕ)
    → NoDup xs
    → i ≢ j
    → has c (slice (n * i) (n * (i + 1)) xs) ≡ true
    → has c (slice (n * j) (n * (j + 1)) xs) ≡ false
either_slices n i j c xs d h t = elim (Bool-cases (ltb i j)) [
  | inl e ↦ slices_disjoint n i j c xs d (ltb→lt _ _ e) t
  | inr e ↦ elim (Bool-cases (has c (slice (n * j) (n * (j + 1)) xs))) [
    | inl u ↦ absurd (
        clash _
          (slices_disjoint n j i c xs d (let ge = ltb→ge _ _ e in let ne = h in different i j ge ne)
            u)
          t)
    | inr u ↦ u
  ]
]
