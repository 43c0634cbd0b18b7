-- ===== src/Htex/Affinity/Examples.antt =====
-- Workers pinned to the cores of a machine.
use parsl.Prelude.{ℕ, ◌<◌, true, false, ◌≡◌, refl, List, [], ◌∷◌, length, arith}
use parsl.Htex.Interchange.State.{has}
use parsl.Htex.Affinity.{
  block, block_reverse, alternating, thread_ranks, one, range, my_cores, raises, pin_worker,
}
use parsl.Htex.Affinity.Disjoint.{workers_share_no_core}

abbrev five_cores : List ℕ
five_cores = 0 ∷ 1 ∷ 2 ∷ 4 ∷ 5 ∷ []

pinned_test :
    (pin_worker block 2 1 five_cores ≡ my_cores (2 ∷ 4 ∷ []))
    × (pin_worker block_reverse 2 1 five_cores ≡ my_cores (0 ∷ 1 ∷ []))
    × (pin_worker alternating 2 1 five_cores ≡ my_cores (1 ∷ 4 ∷ []))
    × (pin_worker (thread_ranks ((one 7 ∷ []) ∷ (one 3 ∷ range 8 10 ∷ []) ∷ [])) 2 1 five_cores
        ≡ my_cores (3 ∷ 8 ∷ 9 ∷ 10 ∷ []))
    × (pin_worker block 6 1 five_cores ≡ raises)
unfolding pin_worker
pinned_test = (refl, refl, refl, refl, refl)

workers_share_no_core_example :
    (mine theirs : List ℕ) × (pin_worker alternating 2 0 five_cores ≡ my_cores mine)
    × (pin_worker alternating 2 1 five_cores ≡ my_cores theirs)
    × (0 < length mine)
    × ((c : ℕ) → has c mine ≡ true → has c theirs ≡ false)
unfolding has
workers_share_no_core_example =
    workers_share_no_core alternating 2 0 1 five_cores tt (refl, (refl, (refl, (refl, (refl, tt)))))
      (omega arith) (omega arith) (omega arith) zero_is_not_one
  where
    zero_is_not_one : ¬ (◌≡◌ {A = ℕ} 0 1)
    zero_is_not_one e = absurd (omega arith)
