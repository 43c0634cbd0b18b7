-- ===== src/Htex/Interchange/Held.antt =====
-- Managers that are on hold or draining in parsl/executors/high_throughput/interchange.py.
use parsl.Prelude.{
  ℕ, ◌-◌, Bool, true, false, not, ◌&&◌, ◌≡◌, refl, Option, none, some, List, [], ◌∷◌, length, ltb,
  ◌==◌, if◌then◌else◌, Bool-cases, inl, inr, ==_iff, ◌∙◌, sym, subst, ap,
}
use mathlib.Core.Option.{some-injective}
use parsl.Htex.Interchange.State.{
  Interchange, ManagerRecord, Managers, Entry, get_manager, put_manager, has,
}
use parsl.Htex.Interchange.Queue.{get_tasks}
use parsl.Htex.Interchange.Dispatch.{
  Selector, remove_interesting, send_tasks, send_any, offer, offer_known, offer_each, and_then,
  process_tasks_to_send,
}
use parsl.Htex.Interchange.Tables.{get-put}
use parsl.Htex.Interchange.Turns.{SoundState}
use parsl.Htex.Interchange.Turns.Loops.{IsSelector, process_tasks_to_send-Moves}

-- If the step ends, the record of manager `k` is `m` still.
abbrev Spares : ℕ → ManagerRecord → Option Interchange → Type 0
Spares k m o = (ix' : Interchange) → o ≡ some ix' → get_manager k ix'.ready_managers ≡ some m

module _ (k : ℕ) (m : ManagerRecord) where
  if-Spares :
      (b : Bool) {o p : Option Interchange}
      → Spares k m o
      → Spares k m p
      → Spares k m (if b then o else p)
  if-Spares true h g = h
  if-Spares false h g = g

  some-Spares : (ix : Interchange) → get_manager k ix.ready_managers ≡ some m → Spares k m (some ix)
  some-Spares ix h ix' e =
      ap (λ (x : Interchange). get_manager k x.ready_managers) (sym (some-injective _ _ e)) ∙ h

  none-Spares : Spares k m none
  none-Spares ix' e = cc

  and_then-Spares :
      (o : Option Interchange) (f : Interchange → Option Interchange)
      → Spares k m o
      → ((ix' : Interchange) → get_manager k ix'.ready_managers ≡ some m → Spares k m (f ix'))
      → Spares k m (and_then o f)
  and_then-Spares none f h more = none-Spares
  and_then-Spares (some x) f h more = more x (h x refl)

  remove_interesting-Spares :
      (j : ℕ) (ix : Interchange)
      → get_manager k ix.ready_managers ≡ some m
      → Spares k m (remove_interesting j ix)
  unfolding remove_interesting
  remove_interesting-Spares j ix h = if-Spares (has j ix.interesting) (some-Spares _ h) none-Spares

  put_other :
      (j : ℕ) (n : ManagerRecord) (ms : Managers)
      → (j == k) ≡ false
      → get_manager k ms ≡ some m
      → get_manager k (put_manager j n ms) ≡ some m
  put_other j n ms other h = get-put k j n ms ∙ rw other h

  send_any-Spares :
      (j : ℕ) (n : ManagerRecord) (capacity : ℕ) (tasks rest : List Entry) (ix : Interchange)
      → (j == k) ≡ false
      → get_manager k ix.ready_managers ≡ some m
      → Spares k m (send_any j n capacity tasks rest ix)
  unfolding send_tasks
  send_any-Spares j n capacity [] rest ix other h = some-Spares ix h
  send_any-Spares j n capacity (t ∷ ts) rest ix other h =
      if-Spares (ltb (length (t ∷ ts)) capacity)
        (some-Spares _ (put_other j _ ix.ready_managers other h))
        (remove_interesting-Spares j _ (put_other j _ ix.ready_managers other h))

  offer-Spares :
      (j : ℕ) (n : ManagerRecord) (ix : Interchange)
      → (j == k) ≡ false
      → get_manager k ix.ready_managers ≡ some m
      → Spares k m (offer j n ix)
  unfolding offer get_tasks
  offer-Spares j n ix other h =
      if-Spares (not (n.max_capacity == length n.tasks) && (n.active && not n.draining))
        (send_any-Spares j n (n.max_capacity - length n.tasks) _ _ ix other h)
        (remove_interesting-Spares j ix h)

module _ (k : ℕ) (m : ManagerRecord) (blocked : (m.active && not m.draining) ≡ false) where
  offer_self-Spares :
      (ix : Interchange) → get_manager k ix.ready_managers ≡ some m → Spares k m (offer k m ix)
  unfolding offer
  offer_self-Spares ix h =
      rw (blocked, never (not (m.max_capacity == length m.tasks)))
        (remove_interesting-Spares k m k ix h)
    where
      never : (b : Bool) → (b && false) ≡ false
      never true = refl
      never false = refl

  offer_known-Spares :
      (j : ℕ) (ix : Interchange)
      → get_manager k ix.ready_managers ≡ some m
      → Spares k m (offer_known j (get_manager j ix.ready_managers) ix)
  offer_known-Spares j ix h = elim (Bool-cases (j == k)) [
    | inl e ↦
        subst (λ i. Spares k m (offer_known i (get_manager i ix.ready_managers) ix))
          (sym ((==_iff j k).0 e)) (rw h (offer_self-Spares ix h))
    | inr e ↦ other (get_manager j ix.ready_managers) e
  ]
    where
      other : (o : Option ManagerRecord) → (j == k) ≡ false → Spares k m (offer_known j o ix)
      other none e = none-Spares k m
      other (some n) e = offer-Spares k m j n ix e h

  offer_each-Spares :
      (ks : List ℕ) (ix : Interchange)
      → get_manager k ix.ready_managers ≡ some m
      → Spares k m (offer_each ks ix)
  unfolding offer_each
  offer_each-Spares [] ix h = some-Spares k m ix h
  offer_each-Spares (j ∷ ks) ix h = while_tasks ix.pending (
      and_then-Spares k m (offer_known j (get_manager j ix.ready_managers) ix) (offer_each ks)
        (offer_known-Spares j ix h) (offer_each-Spares ks))
    where
      while_tasks :
          (queue : List Entry) {o : Option Interchange}
          → Spares k m o
          → Spares k m (elim queue [ [] ↦ some ix | e ∷ es ↦ o ])
      while_tasks [] p = some-Spares k m ix h
      while_tasks (e ∷ es) p = p

  process_tasks_to_send-Spares :
      (sort_managers : Selector) (ix : Interchange)
      → get_manager k ix.ready_managers ≡ some m
      → Spares k m (process_tasks_to_send sort_managers ix)
  unfolding process_tasks_to_send
  process_tasks_to_send-Spares sort_managers ix h = if_any ix.interesting (offer_each-Spares _ ix h)
    where
      if_any :
          (js : List ℕ) {o : Option Interchange}
          → Spares k m o
          → Spares k m (elim js [ [] ↦ some ix | j ∷ ks ↦ o ])
      if_any [] p = some-Spares k m ix h
      if_any (j ∷ ks) p = p

-- From a sound state, with a selector that gives interesting managers only, each once:
-- `process_tasks_to_send` ends without an exception, and leaves the record of a manager that is on
-- hold or draining as it was, with the tasks that it had.
pub held_is_spared :
    (sort_managers : Selector) (ix : Interchange) (k : ℕ) (m : ManagerRecord)
    → IsSelector sort_managers
    → SoundState ix
    → (m.active && not m.draining) ≡ false
    → get_manager k ix.ready_managers ≡ some m
    → (ix' : Interchange) × (process_tasks_to_send sort_managers ix ≡ some ix')
      × (get_manager k ix'.ready_managers ≡ some m)
held_is_spared sort_managers ix k m law s blocked h =
    let (ix', ends, s', count) = process_tasks_to_send-Moves sort_managers ix law s in
    (ix', ends, process_tasks_to_send-Spares k m blocked sort_managers ix h ix' ends)
