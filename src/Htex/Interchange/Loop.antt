-- ===== src/Htex/Interchange/Loop.antt =====
-- Commands, and the main loop of parsl/executors/high_throughput/interchange.py.
use parsl.Prelude.{ℕ, ◌+◌, ◌-◌, Bool, false, Option, none, some, List, [], ◌∷◌, map, length}
use parsl.Htex.Interchange.State.{Interchange, ManagerRecord, Managers, get_manager, put_manager}
use parsl.Htex.Interchange.Queue.{process_task_incoming}
use parsl.Htex.Interchange.Dispatch.{Selector, and_then, process_tasks_to_send}
use parsl.Htex.Interchange.Messages.{ManagerMessageIn, process_manager_socket_message}
use parsl.Htex.Interchange.Expire.{expire_bad_managers, expire_drained_managers}

pub data Command : Type 0 where
  connected_blocks workers managers managers_packages worker_binds unknown_command : Command
  hold_worker : ℕ → Command

-- What the MANAGERS command says of a manager; the versions are left out.
pub record ManagerInfo : Type 0 where
  pub manager : ℕ
  pub block_id : ℕ
  pub worker_count : ℕ
  pub tasks : ℕ
  pub idle_duration : ℕ
  pub active : Bool
  pub draining : Bool

pub data Reply : Type 0 where
  blocks_reply : List ℕ → Reply
  number_reply : ℕ → Reply
  managers_reply : List ManagerInfo → Reply
  packages_reply : List (ℕ × List ℕ) → Reply
  no_reply : Reply

unfoldable pub num_workers : Managers → ℕ
num_workers [] = 0
num_workers ((k, m) ∷ ms) = m.worker_count + num_workers ms

abbrev pub idle_duration : ℕ → Option ℕ → ℕ
idle_duration now none = 0
idle_duration now (some since) = now - since

abbrev pub info_of : ℕ → ℕ × ManagerRecord → ManagerInfo
info_of now (k, m) = record {
  manager = k;
  block_id = m.block_id;
  worker_count = m.worker_count;
  tasks = length m.tasks;
  idle_duration = idle_duration now m.idle_since;
  active = m.active;
  draining = m.draining;
}

abbrev pub hold : ℕ → Option ManagerRecord → Interchange → Interchange
hold k none ix = ix
hold k (some m) ix = record ix {
  ready_managers = put_manager k (record m { active = false }) ix.ready_managers;
}

-- `process_command`, with the interchange's worker port.
unfoldable pub process_command : ℕ → ℕ → Command → Interchange → Reply × Interchange
unfolding num_workers get_manager put_manager
process_command port now connected_blocks ix = (blocks_reply ix.connected_block_history, ix)
process_command port now workers ix = (number_reply (num_workers ix.ready_managers), ix)
process_command port now managers ix = (managers_reply (map (info_of now) ix.ready_managers), ix)
process_command port now managers_packages ix =
    (packages_reply (map (λ (e : ℕ × ManagerRecord). (e.0, e.1.packages)) ix.ready_managers), ix)
process_command port now worker_binds ix = (number_reply port, ix)
process_command port now unknown_command ix = (no_reply, ix)
process_command port now (hold_worker k) ix =
    (no_reply, hold k (get_manager k ix.ready_managers) ix)

-- What the poller has found for one turn of the loop, with the time of the turn.
pub record Polled : Type 0 where
  pub now : ℕ
  pub command : Option Command
  pub incoming : Option (Option ℕ × ℕ)
  pub message : Option ManagerMessageIn

abbrev pub command_step : ℕ → ℕ → Option Command → Interchange → Interchange
command_step port now none ix = ix
command_step port now (some c) ix = (process_command port now c ix).1

abbrev pub incoming_step : Option (Option ℕ × ℕ) → Interchange → Interchange
incoming_step none ix = ix
incoming_step (some (priority, t)) ix = process_task_incoming priority t ix

abbrev pub message_step : ℕ → Option ManagerMessageIn → Interchange → Option Interchange
message_step now none ix = some ix
message_step now (some m) ix = process_manager_socket_message now m ix

-- One turn of the loop of `start`; `none` is an exception, which ends the interchange.
unfoldable pub turn : ℕ → ℕ → Selector → Polled → Interchange → Option Interchange
unfolding process_command process_task_incoming process_manager_socket_message expire_bad_managers
    expire_drained_managers process_tasks_to_send
turn port threshold sort_managers polled ix =
    let before = incoming_step polled.incoming (command_step port polled.now polled.command ix) in
    and_then (message_step polled.now polled.message before) (λ after.
      and_then (expire_drained_managers (expire_bad_managers polled.now threshold after))
        (process_tasks_to_send sort_managers))
