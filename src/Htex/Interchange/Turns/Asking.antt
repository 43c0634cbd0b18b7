-- ===== src/Htex/Interchange/Turns/Asking.antt =====
-- The steps of a turn of the loop of parsl/executors/high_throughput/interchange.py, that answer managers and commands.
use parsl.Prelude.{
  ℕ, ◌+◌, ◌≤◌, true, false, ◌≡◌, refl, Option, none, some, List, [], ◌∷◌, length, arith, Bool-cases,
  Option-cases, inl, inr, ◌∙◌, ==_iff,
}
use parsl.Htex.Interchange.State.{
  Interchange, ManagerRecord, Managers, Outcome, get_manager, put_manager, version_mismatch,
}
use parsl.Htex.Interchange.Messages.{
  Registration, new_record, accept_registration, register, BatchItem, remove, take_results,
  store_results, idle_after, process_results, ManagerRequest, results, heartbeat, drain, unknown,
  answer_manager, answer_known, task_result, monitoring, other_item,
}
use parsl.Htex.Interchange.Accounting.{
  occurrences, answered, accounted, answered-append, in_flight-put, in_flight-new,
  take_results-occurrences, remove-length,
}
use parsl.Htex.Interchange.Turns.{SoundState, Sound-put, Sound-add, Moves, nothing, Known-put}
use parsl.Htex.Interchange.Turns.Tasks.{stays}
use parsl.Htex.Interchange.Tables.{get-put}
use parsl.Htex.Interchange.Messages.{
  ManagerMessageIn, process_manager_socket_message, unreadable, registration, request,
}
use parsl.Htex.Interchange.Loop.{
  Command, command_step, hold, process_command, connected_blocks, workers, managers,
  managers_packages, worker_binds, unknown_command, hold_worker,
}
use parsl.Htex.Interchange.Turns.Tasks.{edit-Moves}

-- A record is replaced by one with the same tasks, in a state that is else as good as the same.
edited :
    (k : ℕ) (m n : ManagerRecord) (ix ix' : Interchange)
    → get_manager k ix.ready_managers ≡ some m
    → n.tasks ≡ m.tasks
    → n.max_capacity ≡ m.max_capacity
    → ix'.ready_managers ≡ put_manager k n ix.ready_managers
    → ix'.interesting ≡ ix.interesting
    → ix'.pending ≡ ix.pending
    → ix'.results_outgoing ≡ ix.results_outgoing
    → SoundState ix
    → SoundState ix' × ((t : ℕ) → accounted t ix' ≡ accounted t ix)
unfolding accounted
edited k m n ix ix' known tasks size ready interesting pending out s =
    let (s', count) = edit-Moves k m n ix known tasks size s in
    (rw (ready, interesting) s', λ t. rw (ready, pending, out) (omega (arith, count t)))

pub command_step-Moves :
    (port now : ℕ) (c : Option Command) (ix : Interchange)
    → SoundState ix
    → SoundState (command_step port now c ix)
      × ((t : ℕ) → accounted t (command_step port now c ix) ≡ accounted t ix)
unfolding process_command
command_step-Moves port now none ix s = (s, λ t. refl)
command_step-Moves port now (some connected_blocks) ix s = (s, λ t. refl)
command_step-Moves port now (some workers) ix s = (s, λ t. refl)
command_step-Moves port now (some managers) ix s = (s, λ t. refl)
command_step-Moves port now (some managers_packages) ix s = (s, λ t. refl)
command_step-Moves port now (some worker_binds) ix s = (s, λ t. refl)
command_step-Moves port now (some unknown_command) ix s = (s, λ t. refl)
command_step-Moves port now (some (hold_worker k)) ix s =
    held (get_manager k ix.ready_managers) refl
  where
    held :
        (o : Option ManagerRecord)
        → get_manager k ix.ready_managers ≡ o
        → SoundState (hold k o ix) × ((t : ℕ) → accounted t (hold k o ix) ≡ accounted t ix)
    held none e = (s, λ t. refl)
    held (some m) e =
        edited k m (record m { active = false }) ix _ e refl refl refl refl refl refl s

-- A batch takes tasks from a manager, and never gives it any.
take_results-length :
    (rs : List BatchItem) (xs : List ℕ) → length (take_results rs xs).0 ≤ length xs
unfolding take_results
take_results-length [] xs = omega arith
take_results-length (task_result u p ∷ rs) xs = elim (Option-cases (remove u xs)) [
  | inl h ↦ rw h (take_results-length rs xs)
  | inr (left, h) ↦ rw h (omega (arith, take_results-length rs left, remove-length u xs left h))
]
take_results-length (monitoring ∷ rs) xs = take_results-length rs xs
take_results-length (other_item ∷ rs) xs = take_results-length rs xs

store_results-Moves :
    (now k : ℕ) (m : ManagerRecord) (left : List ℕ) (out : List Outcome) (ix : Interchange)
    → get_manager k ix.ready_managers ≡ some m
    → ((t : ℕ) → occurrences t left + answered t out ≡ occurrences t m.tasks)
    → length left ≤ length m.tasks
    → SoundState ix
    → SoundState (store_results now k m left out ix)
      × ((t : ℕ) → accounted t (store_results now k m left out ix) ≡ accounted t ix)
unfolding accounted answered
store_results-Moves now k m left [] ix known count size s = (
  Sound-put k _ (let before = s.within k m known in omega arith) s,
  λ t.
      omega
        (arith, in_flight-put t k m (record m { tasks = left }) ix.ready_managers known, count t),
)
store_results-Moves now k m left (o ∷ out) ix known count size s =
    let after : ManagerRecord = record m {
      tasks = left;
      idle_since = idle_after now left m.idle_since;
    } in
    (
      Sound-add k (Known-put k k after ix.ready_managers (m, known))
          (Sound-put k after (let before = s.within k m known in omega arith) s),
      λ t. omega (
        arith,
        in_flight-put t k m after ix.ready_managers known,
        count t,
        answered-append t ix.results_outgoing (o ∷ out),
      ),
    )

answer_manager-Moves :
    (now k : ℕ) (asked : ManagerRequest) (m : ManagerRecord) (ix : Interchange)
    → get_manager k ix.ready_managers ≡ some m
    → SoundState ix
    → SoundState (answer_manager now k asked m ix)
      × ((t : ℕ) → accounted t (answer_manager now k asked m ix) ≡ accounted t ix)
unfolding answer_manager process_results
answer_manager-Moves now k (results rs) m ix known s =
    store_results-Moves now k m _ _ ix known (λ t. take_results-occurrences t rs m.tasks)
      (take_results-length rs m.tasks) s
answer_manager-Moves now k heartbeat m ix known s =
    edited k m (record m { last_heartbeat = now }) ix _ known refl refl refl refl refl refl s
answer_manager-Moves now k drain m ix known s =
    edited k m (record m { draining = true }) ix _ known refl refl refl refl refl refl s
answer_manager-Moves now k unknown m ix known s = (s, λ t. refl)

-- A registration comes with a block id, and from a manager that is not registered yet.
abbrev pub Acceptable : ManagerMessageIn → Managers → Type 0
Acceptable (registration k meta) ms =
    ((b : ℕ) × (meta.block_id ≡ some b)) × (get_manager k ms ≡ none)
Acceptable _ ms = Unit

accepted-Moves :
    (now k b : ℕ) (meta : Registration) (ix : Interchange)
    → get_manager k ix.ready_managers ≡ none
    → SoundState ix
    → Moves nothing ix (accept_registration now k meta (some b) ix)
unfolding accept_registration new_record accounted occurrences
accepted-Moves now k b meta ix free s =
    let new = new_record now b meta in
    (
      _,
      refl,
      Sound-add k (new, get-put k k new ix.ready_managers ∙ rw ((==_iff k k).1 refl) refl)
          (Sound-put k new (omega arith) s),
      λ t. omega (arith, in_flight-new t k new ix.ready_managers free),
    )

mismatch-answered : (t : ℕ) → answered t (version_mismatch ∷ []) ≡ 0
unfolding answered
mismatch-answered t = refl

register-Moves :
    (now k : ℕ) (meta : Registration) (ix : Interchange)
    → Acceptable (registration k meta) ix.ready_managers
    → SoundState ix
    → Moves nothing ix (register now k meta ix)
unfolding register accounted
register-Moves now k meta ix ((b, e), free) s = elim (Bool-cases meta.versions_match) [
  | inl v ↦ rw (v, e) (accepted-Moves now k b meta ix free s)
  | inr v ↦ rw v (
    _,
    refl,
    s,
    λ t.
        omega (
          arith,
          answered-append t ix.results_outgoing (version_mismatch ∷ []),
          mismatch-answered t,
        ),
  )
]

pub message-Moves :
    (now : ℕ) (message : ManagerMessageIn) (ix : Interchange)
    → Acceptable message ix.ready_managers
    → SoundState ix
    → Moves nothing ix (process_manager_socket_message now message ix)
unfolding process_manager_socket_message
message-Moves now unreadable ix a s = stays ix s
message-Moves now (registration k meta) ix a s = register-Moves now k meta ix a s
message-Moves now (request k asked) ix a s = answered_by (get_manager k ix.ready_managers) refl
  where
    answered_by :
        (o : Option ManagerRecord)
        → get_manager k ix.ready_managers ≡ o
        → Moves nothing ix (some (answer_known now k asked o ix))
    answered_by none e = stays ix s
    answered_by (some m) e =
        let (s', count) = answer_manager-Moves now k asked m ix e s in
        (_, refl, s', λ t. omega (arith, count t))
