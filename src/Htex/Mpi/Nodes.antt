-- ===== src/Htex/Mpi/Nodes.antt =====
-- Nodes in parsl/executors/high_throughput/mpi_resource_management.py.
use parsl.Prelude.{
  ℕ, zero, suc, ◌-◌, ◌≤◌, true, false, ◌≡◌, refl, some, List, [], ◌∷◌, ◌++◌, length, leb, ◌==◌,
  if◌then◌else◌, arith, Bool-cases, inl, inr, leb→le, ==_iff, length-append, ap, sym,
}
use parsl.Htex.Mpi.{
  MpiTask, MpiTaskScheduler, finished, take_nodes, get_nodes, put_task, put_backlog, put_nodes,
}

-- The counter is the number of nodes in the queue.
abbrev pub Counted : MpiTaskScheduler → Type 0
Counted s = s.free_node_counter ≡ length s.nodes_q

pub take_nodes_lem :
    (n : ℕ) (nodes : List ℕ)
    → n ≤ length nodes
    → (taken : List ℕ) × (rest : List ℕ) × (take_nodes n nodes ≡ some (taken, rest))
      × (taken ++ rest ≡ nodes)
      × (length taken ≡ n)
unfolding take_nodes
take_nodes_lem zero nodes h = ([], nodes, refl, refl, refl)
take_nodes_lem (suc n) [] h = absurd (omega arith)
take_nodes_lem (suc n) (x ∷ nodes) h =
    let (taken, rest, e, whole, size) = take_nodes_lem n nodes (omega arith) in
    (x ∷ taken, rest, rw e refl, ap (λ l. x ∷ l) whole, ap suc size)

pub put_task-fits :
    (t : MpiTask) (s : MpiTaskScheduler)
    → Counted s
    → (t.num_nodes == 0) ≡ false
    → leb t.num_nodes s.free_node_counter ≡ true
    → (s' : MpiTaskScheduler) × (nodes : List ℕ) × (put_task t s ≡ finished s')
      × (length nodes ≡ t.num_nodes)
      × (nodes ++ s'.nodes_q ≡ s.nodes_q)
      × (s'.free_node_counter ≡ s.free_node_counter - t.num_nodes)
      × (s'.pending_task_q ≡ s.pending_task_q ++ (t, nodes) ∷ [])
      × (s'.backlog_queue ≡ s.backlog_queue)
unfolding put_task get_nodes
put_task-fits t s c z l =
    let small = leb→le _ _ l in
    let (taken, rest, e, whole, size) = take_nodes_lem t.num_nodes s.nodes_q (omega (arith, c)) in
    (
      record s {
        free_node_counter = s.free_node_counter - t.num_nodes;
        nodes_q = rest;
        map_tasks_to_nodes = put_nodes t.task_id taken s.map_tasks_to_nodes;
        pending_task_q = s.pending_task_q ++ (t, taken) ∷ [];
      },
      taken,
      rw (z, l, e) refl,
      size,
      whole,
      refl,
      refl,
      refl,
    )

pub put_task-waits :
    (t : MpiTask) (s : MpiTaskScheduler)
    → (t.num_nodes == 0) ≡ false
    → leb t.num_nodes s.free_node_counter ≡ false
    → put_task t s ≡ finished (record s { backlog_queue = put_backlog t s.backlog_queue })
unfolding put_task get_nodes
put_task-waits t s z l = rw (z, l) refl

no_nodes :
    (t : MpiTask) (s : MpiTaskScheduler)
    → (t.num_nodes == 0) ≡ true
    → leb t.num_nodes s.free_node_counter ≡ true
no_nodes t s z = ground arith

put_task-plain :
    (t : MpiTask) (s : MpiTaskScheduler)
    → (t.num_nodes == 0) ≡ true
    → put_task t s ≡ finished (record s { pending_task_q = s.pending_task_q ++ (t, []) ∷ [] })
unfolding put_task
put_task-plain t s z = rw z refl

-- From a scheduler whose counter is the number of free nodes, `put_task` returns, and the counter
-- is that number again: a task without nodes is queued with none; a task for which there are
-- enough takes as many as it needs from the front of the queue of nodes, and is queued with them;
-- any other task is put into the backlog, and no node is taken.
pub put_task_returns :
    (t : MpiTask) (s : MpiTaskScheduler)
    → s.free_node_counter ≡ length s.nodes_q
    → (s' : MpiTaskScheduler) × (nodes : List ℕ) × (put_task t s ≡ finished s')
      × (s'.free_node_counter ≡ length s'.nodes_q)
      × (nodes ++ s'.nodes_q ≡ s.nodes_q)
      × (if leb t.num_nodes s.free_node_counter
          then (length nodes ≡ t.num_nodes)
            × (s'.pending_task_q ≡ s.pending_task_q ++ (t, nodes) ∷ [])
            × (s'.backlog_queue ≡ s.backlog_queue)
          else (nodes ≡ [])
            × (s'.pending_task_q ≡ s.pending_task_q)
            × (s'.backlog_queue ≡ put_backlog t s.backlog_queue))
put_task_returns t s c = elim (Bool-cases (t.num_nodes == 0)) [
  | inl z ↦ rw (no_nodes t s z) (
    record s { pending_task_q = s.pending_task_q ++ (t, []) ∷ [] },
    [],
    put_task-plain t s z,
    c,
    refl,
    (sym ((==_iff t.num_nodes 0).0 z), refl, refl),
  )
  | inr z ↦ elim (Bool-cases (leb t.num_nodes s.free_node_counter)) [
    | inl l ↦
        let (s', nodes, e, size, whole, counter, pending, backlog) = put_task-fits t s c z l in
        (
          s',
          nodes,
          e,
          (omega (arith, counter, c, size, ap length whole, length-append nodes s'.nodes_q)),
          whole,
          rw l (size, pending, backlog),
        )
    | inr l ↦ (_, [], put_task-waits t s z l, c, refl, rw l (refl, refl, refl))
  ]
]
