-- ===== src/Htex/Communicator.antt =====
-- Manager.interchange_communicator of parsl/executors/high_throughput/process_worker_pool.py: the thread
-- of a manager that talks to the interchange.
pub mod Beats
pub mod Live
mod Examples
use parsl.Prelude.{
  ℕ, ◌+◌, ◌-◌, Bool, true, false, Option, none, some, List, [], ◌∷◌, ◌++◌, leb, ltb, min,
  if◌then◌else◌,
}

-- What goes to the interchange, and what comes from it.
pub data Outgoing : Type 0 where
  registration heartbeat drain : Outgoing
  result : ℕ → Outgoing

pub data Incoming : Type 0 where
  heartbeat_code drained_code : Incoming
  tasks : List ℕ → Incoming

-- What `poll` has: a message of the interchange, which is looked at first, a result of the pool, or
-- nothing.
pub data Polled : Type 0 where
  from_interchange : Incoming → Polled
  from_pool : ℕ → Polled
  nothing : Polled

-- The readings of the clock in a turn of the loop, in their order.
pub record Clock : Type 0 where
  pub beat_check : ℕ
  pub beat_sent : ℕ
  pub drain_check : ℕ
  pub before_poll : ℕ
  pub after_poll : ℕ

-- `drain_time` is `none` for infinity. `sent` are the messages to the interchange with the reading of the
-- clock next to the send, the last one first. `scheduled` are the tasks that the scheduler was given.
pub record Communicator : Type 0 where
  pub last_beat : ℕ
  pub last_interchange_contact : ℕ
  pub drain_time : Option ℕ
  pub stopped : Bool
  pub sent : List (ℕ × Outgoing)
  pub scheduled : List ℕ

unfoldable pub new_communicator : (now : ℕ) → (drain_time : Option ℕ) → Communicator
new_communicator now drain_time = record {
  last_beat = now;
  last_interchange_contact = now;
  drain_time = drain_time;
  stopped = false;
  sent = (now, registration) ∷ [];
  scheduled = [];
}

abbrev pub min_drain : Option ℕ → ℕ → ℕ
min_drain none t = t
min_drain (some d) t = min d t

-- `next_interesting_event_time` and the time that `poll` waits at most.
unfoldable pub next_interesting_event_time :
    (heartbeat_period heartbeat_threshold : ℕ) → Communicator → ℕ
next_interesting_event_time heartbeat_period heartbeat_threshold c =
    min (c.last_beat + heartbeat_period)
      (min_drain c.drain_time (c.last_interchange_contact + heartbeat_threshold))

unfoldable pub poll_duration : (next_interesting_event_time now : ℕ) → ℕ
poll_duration next_interesting_event_time now = next_interesting_event_time - now

unfoldable pub beat : (heartbeat_period : ℕ) → Clock → Communicator → Communicator
beat heartbeat_period clock c =
    if leb (c.last_beat + heartbeat_period) clock.beat_check
    then record c { sent = (clock.beat_sent, heartbeat) ∷ c.sent; last_beat = clock.beat_sent }
    else c

abbrev pub drain_if_due : Option ℕ → Clock → Communicator → Communicator
drain_if_due none clock c = c
drain_if_due (some t) clock c =
    if ltb t clock.drain_check
    then record c { sent = (clock.drain_check, drain) ∷ c.sent; drain_time = none }
    else c

unfoldable pub request_drain : Clock → Communicator → Communicator
request_drain clock c = drain_if_due c.drain_time clock c

abbrev pub take_incoming : Incoming → Communicator → Communicator
take_incoming heartbeat_code c = c
take_incoming drained_code c = record c { stopped = true }
take_incoming (tasks ts) c = record c { scheduled = c.scheduled ++ ts }

unfoldable pub handle_polled :
    (heartbeat_threshold : ℕ) → Clock → Polled → Communicator → Communicator
handle_polled heartbeat_threshold clock (from_interchange m) c =
    take_incoming m (record c { last_interchange_contact = clock.after_poll })
handle_polled heartbeat_threshold clock (from_pool r) c = record c {
  sent = (clock.after_poll, result r) ∷ c.sent;
}
handle_polled heartbeat_threshold clock nothing c =
    if leb (c.last_interchange_contact + heartbeat_threshold) clock.after_poll
    then record c { stopped = true }
    else c

-- A turn of the loop; it is left when the stop event is set.
unfoldable pub communicator_turn :
    (heartbeat_period heartbeat_threshold : ℕ) → Clock → Polled → Communicator → Communicator
unfolding beat request_drain handle_polled
communicator_turn heartbeat_period heartbeat_threshold clock polled c =
    if c.stopped
    then c
    else handle_polled heartbeat_threshold clock polled
        (request_drain clock (beat heartbeat_period clock c))
