-- ===== src/Htex/Mpi/Backlog.antt =====
-- The backlog of parsl/executors/high_throughput/mpi_resource_management.py.
use parsl.Prelude.{
  leb→gt, le→leb, ℕ, zero, suc, ◌+◌, ◌≤◌, ◌<◌, ◌≡◌, refl, some, List, [], ◌∷◌, length, leb, arith,
  Bool-cases, inl, inr, leb→le, length-append, ap, ◌∙◌, sym, ◌↔◌, ◌≢◌,
}
use parsl.Htex.Mpi.{
  MpiTask, MpiTaskScheduler, finished, recursion_error, after, nodes_of, get_result, result_of,
  relinquish, return_nodes, schedule_backlog_tasks,
}
use parsl.Htex.Mpi.Nodes.{put_task-fits}
use parsl.Htex.Mpi.Stuck.{
  AllAbove, IsSorted, not_zero, AllAbove-of_sorted, schedule_eq, schedule_empty, stuck,
}

-- The nodes that the tasks of the backlog need together.
unfoldable pub demand : List MpiTask → ℕ
demand [] = 0
demand (t ∷ ts) = t.num_nodes + demand ts

demand_balance :
    (t : MpiTask) (ts : List MpiTask) (left free : ℕ)
    → t.num_nodes + demand ts ≤ free
    → left + demand ts + t.num_nodes ≡ free
    → left + demand (t ∷ ts) ≡ free
unfolding demand
demand_balance t ts left free needs e = omega arith

demand_fits :
    (t : MpiTask) (ts : List MpiTask) (free : ℕ)
    → t.num_nodes + demand ts ≤ free
    → demand (t ∷ ts) ≤ free
unfolding demand
demand_fits t ts free h = h

never_both : (s : MpiTaskScheduler) → recursion_error ≢ finished s
never_both s e = cc

never_finished : (s s' : MpiTaskScheduler) → schedule_backlog_tasks zero s ≢ finished s'
unfolding schedule_backlog_tasks
never_finished s s' e = cc

drains :
    (backlog : List MpiTask) (depth : ℕ) (s : MpiTaskScheduler)
    → s.backlog_queue ≡ backlog
    → s.free_node_counter ≡ length s.nodes_q
    → AllAbove 0 backlog
    → demand backlog ≤ s.free_node_counter
    → length backlog < depth
    → (s' : MpiTaskScheduler) × (schedule_backlog_tasks depth s ≡ finished s')
      × (s'.backlog_queue ≡ [])
      × (s'.free_node_counter + demand backlog ≡ s.free_node_counter)
      × (s'.free_node_counter ≡ length s'.nodes_q)
      × (length s'.pending_task_q ≡ length s.pending_task_q + length backlog)
drains backlog zero s e c a d l = absurd (omega arith)
drains [] (suc depth) s e c a d l =
    (s, schedule_empty depth s e, e, unfold demand in omega arith, c, omega arith)
drains (t ∷ ts) (suc depth) s e c a d l =
    let popped : MpiTaskScheduler = record s { backlog_queue = ts } in
    let needs : t.num_nodes + demand ts ≤ s.free_node_counter = unfold demand in d in
    let (s1, nodes, placed, size, whole, counter, pending, backlog) =
      put_task-fits t popped c (not_zero t 0 a.0)
        (le→leb t.num_nodes s.free_node_counter (omega arith)) in
    let (s', more, empty, balance, c', queued) =
      drains ts depth s1 backlog
        (omega (arith, counter, c, size, ap length whole, length-append nodes s1.nodes_q)) a.1
        (omega (arith, counter)) (omega arith) in
    (
      s',
      schedule_eq depth s t ts e ∙ ap (λ o. after o (schedule_backlog_tasks depth)) placed ∙ more,
      empty,
      demand_balance t ts s'.free_node_counter s.free_node_counter needs
          (omega (arith, balance, counter)),
      c',
      omega (arith, queued, ap length pending, length-append s.pending_task_q ((t, nodes) ∷ [])),
    )

returned_fits :
    (depth : ℕ) (backlog : List MpiTask) (s s' : MpiTaskScheduler)
    → s.backlog_queue ≡ backlog
    → s.free_node_counter ≡ length s.nodes_q
    → AllAbove 0 backlog
    → IsSorted backlog
    → schedule_backlog_tasks depth s ≡ finished s'
    → demand backlog ≤ s.free_node_counter
returned_fits zero backlog s s' e c a o h = absurd (never_finished s s' h)
returned_fits (suc depth) [] s s' e c a o h = unfold demand in omega arith
returned_fits (suc depth) (t ∷ ts) s s' e c a o h =
    let popped : MpiTaskScheduler = record s { backlog_queue = ts } in
    elim (Bool-cases (leb t.num_nodes s.free_node_counter)) [
      | inl l ↦
          let fits = leb→le _ _ l in
          let (s1, nodes, placed, size, whole, counter, pending, backlog) =
            put_task-fits t popped c (not_zero t 0 a.0) l in
          let rest =
            returned_fits depth ts s1 s' backlog
              (omega (arith, counter, c, size, ap length whole, length-append nodes s1.nodes_q)) a.1
              o.1
              (sym (
                  schedule_eq depth s t ts e
                  ∙ ap (λ o. after o (schedule_backlog_tasks depth)) placed)
                ∙ h) in
          demand_fits t ts s.free_node_counter (omega (arith, counter))
      | inr l ↦
          let above = leb→gt t.num_nodes s.free_node_counter l in
          absurd (
            never_both s' (
              sym (
                stuck (suc depth) s t ts e
                  (above, AllAbove-of_sorted s.free_node_counter t.num_nodes ts above o.0))
              ∙ h))
    ]

-- From a scheduler whose counter is the number of free nodes, with a backlog in the order of its
-- demands, each more than 0: `_schedule_backlog_tasks` returns, for some depth of recursion,
-- exactly when the free nodes are enough for all tasks of the backlog together.
pub schedule_returns_iff :
    (s : MpiTaskScheduler)
    → s.free_node_counter ≡ length s.nodes_q
    → AllAbove 0 s.backlog_queue
    → IsSorted s.backlog_queue
    → ((depth : ℕ) × (s' : MpiTaskScheduler) × (schedule_backlog_tasks depth s ≡ finished s'))
      ↔ (demand s.backlog_queue ≤ s.free_node_counter)
schedule_returns_iff s c a o = (
  λ h. returned_fits h.0 s.backlog_queue s h.1 refl c a o h.2,
  λ d.
      let (s', e, empty, balance, counter, queued) =
        drains s.backlog_queue (suc (length s.backlog_queue)) s refl c a d (omega arith) in
      (suc (length s.backlog_queue), s', e),
)

-- From a scheduler whose counter is the number of free nodes, with enough of them for the whole
-- backlog, of which each task needs a node: with one call more than there are tasks,
-- `_schedule_backlog_tasks` queues all of them, leaves the backlog empty, takes as many nodes as
-- they need together, and the counter is the number of free nodes again.
pub schedule_drains :
    (depth : ℕ) (s : MpiTaskScheduler)
    → s.free_node_counter ≡ length s.nodes_q
    → AllAbove 0 s.backlog_queue
    → demand s.backlog_queue ≤ s.free_node_counter
    → length s.backlog_queue < depth
    → (s' : MpiTaskScheduler) × (schedule_backlog_tasks depth s ≡ finished s')
      × (s'.backlog_queue ≡ [])
      × (s'.free_node_counter + demand s.backlog_queue ≡ s.free_node_counter)
      × (s'.free_node_counter ≡ length s'.nodes_q)
      × (length s'.pending_task_q ≡ length s.pending_task_q + length s.backlog_queue)
schedule_drains depth s c a d l = drains s.backlog_queue depth s refl c a d l

-- `get_result` raises RecursionError, whatever depth of recursion is allowed, when it takes the
-- result of a task with nodes while the backlog is not empty and every task of it needs more nodes
-- than are free with those that the result's task gives back.
pub get_result_raises :
    (depth task_id : ℕ) (s : MpiTaskScheduler) (nodes : List ℕ) (t : MpiTask) (ts : List MpiTask)
    → nodes_of task_id s.map_tasks_to_nodes ≡ some nodes
    → s.backlog_queue ≡ t ∷ ts
    → AllAbove (s.free_node_counter + length nodes) (t ∷ ts)
    → get_result depth (result_of task_id) s ≡ recursion_error
unfolding get_result return_nodes
get_result_raises depth task_id s nodes t ts n e a =
    ap (λ o. relinquish depth o s) n ∙ stuck depth (return_nodes nodes s) t ts e a
