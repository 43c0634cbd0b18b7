-- ===== src/Htex/Communicator/Beats.antt =====
-- When Manager.interchange_communicator of parsl/executors/high_throughput/process_worker_pool.py sends
-- its heartbeats.
use parsl.Prelude.{
  ℕ, ◌+◌, ◌*◌, ◌≤◌, Bool, true, false, ◌≡◌, refl, sym, ap, ◌∙◌, Option, none, some, List, [], ◌∷◌,
  leb, ltb, if◌then◌else◌, arith, Bool-cases, inl, inr, subst, leb→le, leb→gt,
}
use parsl.Htex.Communicator.{
  Clock, Outgoing, registration, heartbeat, drain, result, Polled, from_interchange, from_pool,
  nothing, heartbeat_code, drained_code, tasks, Communicator, new_communicator,
  next_interesting_event_time, poll_duration, beat, drain_if_due, request_drain, handle_polled,
  communicator_turn,
}

-- The readings of a turn are in order, and `late` bounds what passes before the poll, and after the
-- time that the poll waits at most.
pub record Timely (heartbeat_period heartbeat_threshold late : ℕ) (clock : Clock) (c : Communicator)
    : Type 0 where
  pub sent_after : clock.beat_check ≤ clock.beat_sent
  pub drain_after : clock.beat_sent ≤ clock.drain_check
  pub poll_after : clock.drain_check ≤ clock.before_poll
  pub soon : clock.before_poll ≤ clock.beat_check + late
  pub wakes :
      clock.after_poll
      ≤ clock.before_poll
        + poll_duration
            (next_interesting_event_time heartbeat_period heartbeat_threshold c)
            clock.before_poll
        + late

-- The times of the registration and of the heartbeats among the messages that were sent.
abbrev pub beat_times : List (ℕ × Outgoing) → List ℕ
beat_times [] = []
beat_times ((t, registration) ∷ sent) = t ∷ beat_times sent
beat_times ((t, heartbeat) ∷ sent) = t ∷ beat_times sent
beat_times ((t, drain) ∷ sent) = beat_times sent
beat_times ((t, result r) ∷ sent) = beat_times sent

-- The states of the loop with the last reading of the clock. A turn starts at most `late` after the
-- last one ends.
pub data Ran (heartbeat_period heartbeat_threshold late start : ℕ) : ℕ → Communicator → Type 0 where
  started :
      (drain_time : Option ℕ)
      → Ran heartbeat_period heartbeat_threshold late start start
          (new_communicator start drain_time)
  turned :
      (now : ℕ) (c : Communicator) (clock : Clock) (polled : Polled)
      → Ran heartbeat_period heartbeat_threshold late start now c
      → c.stopped ≡ false
      → now ≤ clock.beat_check
      → clock.beat_check ≤ now + late
      → Timely heartbeat_period heartbeat_threshold late clock c
      → Ran heartbeat_period heartbeat_threshold late start clock.after_poll
          (communicator_turn heartbeat_period heartbeat_threshold clock polled c)

-- From `start` on, with at most `gap` between one and the next.
abbrev pub Dense : (gap start : ℕ) → List ℕ → Type 0
Dense gap start [] = ⊥
Dense gap start (b ∷ []) = b ≡ start
Dense gap start (b ∷ a ∷ older) = (b ≤ a + gap) × Dense gap start (a ∷ older)

abbrev pub IsLast : ℕ → List ℕ → Type 0
IsLast t [] = ⊥
IsLast t (b ∷ bs) = t ≡ b

-- The time of the last heartbeat as the loop notes it, and the times of the heartbeats sent.
abbrev noted : Communicator → ℕ × List ℕ
noted c = (c.last_beat, beat_times c.sent)

abbrev after_beat : Bool → Clock → Communicator → ℕ × List ℕ
after_beat true clock c = (clock.beat_sent, clock.beat_sent ∷ beat_times c.sent)
after_beat false clock c = noted c

noted-drain :
    (o : Option ℕ) (clock : Clock) (c : Communicator) → noted (drain_if_due o clock c) ≡ noted c
noted-drain none clock c = refl
noted-drain (some t) clock c = elim (Bool-cases (ltb t clock.drain_check)) [
  | inl e ↦ rw e refl
  | inr e ↦ rw e refl
]

noted-polled :
    (threshold : ℕ) (clock : Clock) (polled : Polled) (c : Communicator)
    → noted (handle_polled threshold clock polled c) ≡ noted c
unfolding handle_polled
noted-polled threshold clock (from_interchange heartbeat_code) c = refl
noted-polled threshold clock (from_interchange drained_code) c = refl
noted-polled threshold clock (from_interchange (tasks ts)) c = refl
noted-polled threshold clock (from_pool r) c = refl
noted-polled threshold clock nothing c =
    elim (Bool-cases (leb (c.last_interchange_contact + threshold) clock.after_poll)) [
      | inl e ↦ rw e refl
      | inr e ↦ rw e refl
    ]

noted-beat :
    (period : ℕ) (clock : Clock) (c : Communicator)
    → noted (beat period clock c) ≡ after_beat (leb (c.last_beat + period) clock.beat_check) clock c
unfolding beat
noted-beat period clock c = elim (Bool-cases (leb (c.last_beat + period) clock.beat_check)) [
  | inl e ↦ rw e refl
  | inr e ↦ rw e refl
]

noted-turn :
    (period threshold : ℕ) (clock : Clock) (polled : Polled) (c : Communicator)
    → c.stopped ≡ false
    → noted (communicator_turn period threshold clock polled c)
      ≡ after_beat (leb (c.last_beat + period) clock.beat_check) clock c
unfolding communicator_turn request_drain
noted-turn period threshold clock polled c s =
    let beaten = beat period clock c in
    ap
      (λ (b : Bool).
        noted (if b then c else handle_polled threshold clock polled (request_drain clock beaten)))
      s
    ∙ noted-polled threshold clock polled (request_drain clock beaten)
    ∙ noted-drain beaten.drain_time clock beaten
    ∙ noted-beat period clock c

poll_is_short :
    (period threshold : ℕ) (c : Communicator)
    → next_interesting_event_time period threshold c ≤ c.last_beat + period
unfolding next_interesting_event_time
poll_is_short period threshold c = ground (arith)

-- A turn ends less than a period and twice `late` after the last heartbeat.
turn_on_time :
    (period threshold late : ℕ) (clock : Clock) (c : Communicator)
    → Timely period threshold late clock c
    → clock.after_poll
      ≤ (after_beat (leb (c.last_beat + period) clock.beat_check) clock c).0 + period + 2 * late
unfolding poll_duration
turn_on_time period threshold late clock c timely =
    let short = poll_is_short period threshold c in
    let wakes = timely.wakes in
    let soon = timely.soon in
    let a = timely.sent_after in
    let b = timely.drain_after in
    let d = timely.poll_after in
    elim (Bool-cases (leb (c.last_beat + period) clock.beat_check)) [
      | inl e ↦ rw e (let due = leb→le _ _ e in omega arith)
      | inr e ↦ rw e (let early = leb→gt _ _ e in omega arith)
    ]

pub record Regular (period late start : ℕ) (now : ℕ) (c : Communicator) : Type 0 where
  pub last : IsLast c.last_beat (beat_times c.sent)
  pub on_time : now ≤ c.last_beat + period + 2 * late
  pub dense : Dense (period + 4 * late) start (beat_times c.sent)

IsLast-after_beat :
    (b : Bool) (clock : Clock) (c : Communicator)
    → IsLast c.last_beat (beat_times c.sent)
    → IsLast (after_beat b clock c).0 (after_beat b clock c).1
IsLast-after_beat true clock c h = refl
IsLast-after_beat false clock c h = h

Dense-cons :
    (gap start sent t : ℕ) (beats : List ℕ)
    → IsLast t beats
    → sent ≤ t + gap
    → Dense gap start beats
    → Dense gap start (sent ∷ beats)
Dense-cons gap start sent t [] l h d = absurd l
Dense-cons gap start sent t (a ∷ older) l h d = (subst (λ x. sent ≤ x + gap) l h, d)

Dense-after_beat :
    (gap start : ℕ) (b : Bool) (clock : Clock) (c : Communicator)
    → IsLast c.last_beat (beat_times c.sent)
    → clock.beat_sent ≤ c.last_beat + gap
    → Dense gap start (beat_times c.sent)
    → Dense gap start (after_beat b clock c).1
Dense-after_beat gap start true clock c l h d =
    Dense-cons gap start clock.beat_sent c.last_beat (beat_times c.sent) l h d
Dense-after_beat gap start false clock c l h d = d

-- In every state of the loop the heartbeats that were sent have at most a period and four times
-- `late` between them.
pub Ran-Regular :
    (period threshold late start : ℕ) (now : ℕ) (c : Communicator)
    → Ran period threshold late start now c
    → Regular period late start now c
unfolding new_communicator
Ran-Regular period threshold late start _ _ (started drain_time) = record {
  last = refl;
  on_time = omega arith;
  dense = refl;
}
Ran-Regular period threshold late start _ _ (turned now c clock polled ran s after before timely) =
    let before_turn = Ran-Regular period threshold late start now c ran in
    let same = noted-turn period threshold clock polled c s in
    let due = leb (c.last_beat + period) clock.beat_check in
    record {
      last =
          subst (λ (n : ℕ × List ℕ). IsLast n.0 n.1) (sym same)
            (IsLast-after_beat due clock c before_turn.last);
      on_time =
          subst (λ (n : ℕ × List ℕ). clock.after_poll ≤ n.0 + period + 2 * late) (sym same)
            (turn_on_time period threshold late clock c timely);
      dense =
          subst (λ (n : ℕ × List ℕ). Dense (period + 4 * late) start n.1) (sym same)
            (Dense-after_beat (period + 4 * late) start due clock c before_turn.last
              (let t = before_turn.on_time in
                let a = timely.soon in
                let b = timely.drain_after in let d = timely.poll_after in omega arith)
              before_turn.dense);
    }
