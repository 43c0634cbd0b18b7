-- ===== src/Htex/Communicator/Live.antt =====
-- A manager whose communicator runs in time stays registered: the heartbeats of
-- parsl/executors/high_throughput/process_worker_pool.py and the threshold of
-- parsl/executors/high_throughput/interchange.py.
use parsl.Prelude.{
  ℕ, ◌+◌, ◌*◌, ◌≤◌, true, ◌-◌, ◌≡◌, refl, sym, subst, some, List, [], ◌∷◌, arith, Bool-cases, inl,
  inr, leb, leb→le, leb→gt,
}
use parsl.Htex.Interchange.State.{Interchange, ManagerRecord, get_manager, has}
use parsl.Htex.Interchange.Tables.{Unique}
use parsl.Htex.Interchange.Expire.{expire_bad_managers}
use parsl.Htex.Interchange.Lost.{expire_bad_managers_iff}
use parsl.Htex.Communicator.{Communicator}
use parsl.Htex.Communicator.Beats.{Ran, Ran-Regular, Dense, IsLast, beat_times}

has_first : (b : ℕ) (bs : List ℕ) → has b (b ∷ bs) ≡ true
unfolding has
has_first b bs = ground arith

has_later : (b a : ℕ) (bs : List ℕ) → has b bs ≡ true → has b (a ∷ bs) ≡ true
unfolding has
has_later b a bs h = ground (arith, h)

-- A heartbeat in the last `gap` before a time that is not long after the last one.
recent :
    (gap start t : ℕ) (beats : List ℕ) (last : ℕ)
    → Dense gap start beats
    → IsLast last beats
    → start ≤ t
    → t ≤ last + gap
    → (b : ℕ) × (has b beats ≡ true) × (b ≤ t) × (t ≤ b + gap)
recent gap start t [] last d l s h = absurd d
recent gap start t (b ∷ []) last d l s h =
    (b, has_first b [], subst (λ x. x ≤ t) (sym d) s, subst (λ x. t ≤ x + gap) l h)
recent gap start t (b ∷ a ∷ older) last d l s h = elim (Bool-cases (leb b t)) [
  | inl e ↦ (b, has_first b (a ∷ older), leb→le _ _ e, subst (λ x. t ≤ x + gap) l h)
  | inr e ↦
      let early = leb→gt _ _ e in
      let step = d.0 in
      let (found, there, lo, hi) = recent gap start t (a ∷ older) a d.1 refl s (omega arith) in
      (found, has_later found b (a ∷ older) there, lo, hi)
]

-- While the communicator of a manager runs, up to the heartbeat of its next turn, the interchange does
-- not take the manager for lost. `arrived`: the registration or a heartbeat that the communicator sent
-- `transit` ago or earlier has been noted in the record of the manager. The threshold of the interchange is a period, four times `late`
-- and `transit` at least.
pub live_manager_is_kept :
    (period threshold late start : ℕ) (now : ℕ) (c : Communicator)
    → Ran period threshold late start now c
    → (transit limit t : ℕ) (ix : Interchange) (k : ℕ) (m : ManagerRecord) → start + transit ≤ t
    → t ≤ now + 2 * late
    → period + 4 * late + transit ≤ limit
    → Unique ix.ready_managers
    → get_manager k ix.ready_managers ≡ some m
    → (arrived : (b : ℕ)
        → has b (beat_times c.sent) ≡ true
        → b + transit ≤ t
        → b ≤ m.last_heartbeat)
    → get_manager k (expire_bad_managers t limit ix).ready_managers ≡ some m
live_manager_is_kept period threshold late start now c ran transit limit t ix k m after before
      enough u g arrived =
    let regular = Ran-Regular period threshold late start now c ran in
    let on_time = regular.on_time in
    let (b, there, lo, hi) =
      recent (period + 4 * late) start (t - transit) (beat_times c.sent) c.last_beat regular.dense
        regular.last (omega arith) (omega arith) in
    let noted = arrived b there (omega arith) in
    (expire_bad_managers_iff t limit ix k m u).1 (g, omega arith)
