-- ===== src/Htex/ScaleIn/Examples.antt =====
-- scale_in with three blocks.
use parsl.Prelude.{ℕ, ◌+◌, ◌<◌, true, false, ◌≡◌, refl, none, some, List, [], ◌∷◌, All}
use parsl.Htex.Interchange.Loop.{ManagerInfo}
use parsl.Jobs.States.{running, completed}
use parsl.Jobs.Blocks.{Statuses}
use parsl.Htex.ScaleIn.{block_ids_to_kill, scale_in, sorted_blocks, with_managers, known_blocks}
use parsl.Htex.ScaleIn.Chosen.{only_idle_chosen, chosen_up_to, idle_ids, up_to}

abbrev status : Statuses
status = (1, running) ∷ (2, running) ∷ (3, running) ∷ (4, completed) ∷ []

abbrev info : ℕ → ℕ → ℕ → ManagerInfo
info block tasks idle_duration = record {
  manager = 10 + block;
  block_id = block;
  worker_count = 2;
  tasks = tasks;
  idle_duration = idle_duration;
  active = true;
  draining = false;
}

-- Block 1 is busy, and block 3 has been idle for longer than block 2.
abbrev managers : List ManagerInfo
managers = info 1 2 0 ∷ info 2 0 20 ∷ info 3 0 30 ∷ []

only_idle_chosen_example :
    All
      (λ k.
        All
          (λ (m : ManagerInfo).
            m.active ≡ true → m.block_id ≡ k → (m.tasks ≡ 0) × (10 < m.idle_duration))
          managers)
      (block_ids_to_kill (some 10) 2 status managers)
only_idle_chosen_example = only_idle_chosen 10 2 status managers

chosen_up_to_example :
    block_ids_to_kill (some 10) 0 status managers
    ≡ up_to 0 (idle_ids 10 (sorted_blocks (with_managers managers (known_blocks status []))))
chosen_up_to_example = chosen_up_to 10 0 status managers

one_asked : block_ids_to_kill (some 10) 1 status managers ≡ 3 ∷ []
unfolding block_ids_to_kill
one_asked = refl

none_asked : block_ids_to_kill (some 10) 0 status managers ≡ 3 ∷ 2 ∷ []
unfolding block_ids_to_kill
none_asked = refl

-- The provider refuses to cancel the second job.
scaled_in :
    scale_in
      (λ jobs. true ∷ false ∷ [])
      none
      2
      status
      managers
      ((1, 101) ∷ (2, 102) ∷ (3, 103) ∷ [])
      ((101, 1) ∷ (102, 2) ∷ (103, 3) ∷ [])
    ≡ some (13 ∷ 12 ∷ [], 3 ∷ [])
unfolding scale_in
scaled_in = refl
