-- ===== src/Providers/Slurm/Batches.antt =====
-- The batches of jobs that parsl/providers/slurm/slurm.py asks about.
use parsl.Prelude.{
  ℕ, zero, suc, ◌≤◌, false, ◌≡◌, refl, ap, ◌∙◌, List, [], ◌∷◌, ◌++◌, arith, length, take, drop, All,
  length-take, take-append-drop,
}
use parsl.Htex.Interchange.State.{has}
use parsl.Providers.Slurm.{batches, batched}

abbrev pub flatten : List (List ℕ) → List ℕ
flatten [] = []
flatten (b ∷ bs) = b ++ flatten bs

length-drop : (n : ℕ) (xs : List ℕ) → length (drop n xs) ≤ length xs
length-drop zero xs = omega arith
length-drop (suc n) [] = omega arith
length-drop (suc n) (x ∷ xs) = let ih = length-drop n xs in omega arith

partition : (fuel n : ℕ) (xs : List ℕ) → length xs ≤ fuel → flatten (batches fuel (suc n) xs) ≡ xs
unfolding batches
partition fuel n [] h = refl
partition zero n (x ∷ xs) h = absurd (omega arith)
partition (suc fuel) n (x ∷ xs) h =
    ap (λ ys. take (suc n) (x ∷ xs) ++ ys)
      (partition fuel n (drop n xs) (omega (arith, length-drop n xs)))
    ∙ take-append-drop (suc n) (x ∷ xs)

sizes :
    (fuel n : ℕ) (xs : List ℕ)
    → All (λ b. (1 ≤ length b) × (length b ≤ suc n)) (batches fuel (suc n) xs)
unfolding batches
sizes fuel n [] = tt
sizes zero n (x ∷ xs) = tt
sizes (suc fuel) n (x ∷ xs) =
    ((omega arith, length-take (suc n) (x ∷ xs)), sizes fuel n (drop n xs))

-- The batches of `batched` are the list of jobs cut into pieces, none empty and none longer than the
-- batch size, which is at least 1.
pub batched_partition :
    (n : ℕ) (xs : List ℕ)
    → 1 ≤ n
    → (flatten (batched n xs) ≡ xs) × All (λ b. (1 ≤ length b) × (length b ≤ n)) (batched n xs)
batched_partition zero xs h = absurd (omega arith)
batched_partition (suc n) xs h = (partition (length xs) n xs (omega arith), sizes (length xs) n xs)

parts_without :
    (k n : ℕ) (xs : List ℕ)
    → has k xs ≡ false
    → (has k (take n xs) ≡ false) × (has k (drop n xs) ≡ false)
unfolding has
parts_without k zero xs h = (refl, h)
parts_without k (suc n) [] h = (refl, refl)
parts_without k (suc n) (x ∷ xs) h =
    let ih = parts_without k n xs (ground arith) in (let first = ih.0 in ground arith, ih.1)

-- A job that is not in the list is in none of its batches.
pub batches_without :
    (fuel n k : ℕ) (xs : List ℕ) → has k xs ≡ false → All (λ b. has k b ≡ false) (batches fuel n xs)
unfolding batches
batches_without fuel n k [] h = tt
batches_without zero n k (x ∷ xs) h = tt
batches_without (suc fuel) n k (x ∷ xs) h =
    let parts = parts_without k n (x ∷ xs) h in
    (parts.0, batches_without fuel n k (drop n (x ∷ xs)) parts.1)
