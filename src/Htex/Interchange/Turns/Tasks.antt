-- ===== src/Htex/Interchange/Turns/Tasks.antt =====
-- The steps of a turn of the loop of parsl/executors/high_throughput/interchange.py, one by one.
use parsl.Prelude.{
  ℕ, ◌+◌, ◌-◌, ◌≤◌, true, false, not, ◌&&◌, ◌≡◌, refl, Option, none, some, List, [], ◌∷◌, ◌++◌,
  length, ltb, ◌==◌, if◌then◌else◌, arith, Bool-cases, inl, inr, ap, ◌∙◌, subst, take, drop,
  length-take, length-append, length-map,
}
use parsl.Htex.Interchange.State.{
  Interchange, ManagerRecord, Entry, get_manager, put_manager, has, discard, tasks_for,
}
use parsl.Htex.Interchange.Queue.{process_task_incoming, get_tasks}
use parsl.Htex.Interchange.Dispatch.{task_ids, remove_interesting, send_tasks, send_any, offer}
use parsl.Htex.Interchange.Tables.{has-discard}
use parsl.Htex.Interchange.Accounting.{
  hit, occurrences, in_flight, accounted, occurrences-append, occurrences-take, occurrences-insert,
  in_flight-put,
}
use parsl.Htex.Interchange.Turns.{SoundState, Sound-put, Sound-discard, Moves, nothing}

pub stays : (ix : Interchange) → SoundState ix → Moves nothing ix (some ix)
stays ix s = (ix, refl, s, λ t. omega arith)

pub incoming-Moves :
    (priority : Option ℕ) (u : ℕ) (ix : Interchange)
    → SoundState ix
    → SoundState (process_task_incoming priority u ix)
      × ((t : ℕ) → accounted t (process_task_incoming priority u ix) ≡ accounted t ix + hit t u)
unfolding process_task_incoming accounted
incoming-Moves priority u ix s = (
  s,
  λ t. omega (
    arith,
    occurrences-insert t (record { priority = priority; counter = ix.task_counter; task_id = u })
        ix.pending,
  ),
)

-- A record is replaced by one with the same tasks.
pub edit-Moves :
    (k : ℕ) (m n : ManagerRecord) (ix : Interchange)
    → get_manager k ix.ready_managers ≡ some m
    → n.tasks ≡ m.tasks
    → n.max_capacity ≡ m.max_capacity
    → SoundState ix
    → SoundState (record ix { ready_managers = put_manager k n ix.ready_managers })
      × ((t : ℕ) → in_flight t (put_manager k n ix.ready_managers) ≡ in_flight t ix.ready_managers)
edit-Moves k m n ix h tasks size s = (
  Sound-put k n (rw (tasks, size) (s.within k m h)) s,
  λ t. omega (arith, in_flight-put t k m n ix.ready_managers h, ap (occurrences t) tasks),
)

-- A step that looks at one manager keeps the others interesting.
abbrev pub MovesOne : ℕ → Interchange → Option Interchange → Type 0
MovesOne k ix o =
    (ix' : Interchange) × (o ≡ some ix')
    × SoundState ix'
    × ((t : ℕ) → accounted t ix' ≡ accounted t ix)
    × ((j : ℕ) → (k == j) ≡ false → has j ix.interesting ≡ true → has j ix'.interesting ≡ true)

has-others :
    (j k : ℕ) (js : List ℕ) → (k == j) ≡ false → has j js ≡ true → has j (discard k js) ≡ true
has-others j k js e h = has-discard j k js ∙ rw e h

pub remove_interesting-Moves :
    (k : ℕ) (ix : Interchange)
    → has k ix.interesting ≡ true
    → SoundState ix
    → MovesOne k ix (remove_interesting k ix)
unfolding remove_interesting accounted
remove_interesting-Moves k ix h s = (
  record ix { interesting = discard k ix.interesting },
  rw h refl,
  Sound-discard k s,
  λ t. refl,
  λ j. has-others j k ix.interesting,
)

-- A step, and then one manager's removal from the interesting ones.
MovesOne-then :
    (k : ℕ) (ix mid : Interchange) (o : Option Interchange)
    → ((t : ℕ) → accounted t mid ≡ accounted t ix)
    → mid.interesting ≡ ix.interesting
    → MovesOne k mid o
    → MovesOne k ix o
MovesOne-then k ix mid o count e (last, f, s, count', others) =
    (last, f, s, λ t. count' t ∙ count t, λ j n h. others j n (ap (has j) e ∙ h))

-- The tasks of a batch are put into a manager's record.
sent_fits :
    (n : ℕ) (m : ManagerRecord) (queue : List Entry)
    → n ≡ m.max_capacity - length m.tasks
    → length m.tasks ≤ m.max_capacity
    → length (m.tasks ++ task_ids (take n queue)) ≤ m.max_capacity
sent_fits n m queue e h = omega (
  arith,
  length-append m.tasks (task_ids (take n queue)),
  length-map (λ (e : Entry). e.task_id) (take n queue),
  length-take n queue,
)

-- The state after tasks were sent to a manager, which is still interesting.
abbrev sent_state : ℕ → ManagerRecord → List Entry → List Entry → Interchange → Interchange
sent_state k m tasks rest ix = record ix {
  pending = rest;
  count = ix.count + length tasks;
  ready_managers =
      put_manager k (record m { tasks = m.tasks ++ task_ids tasks; idle_since = none })
        ix.ready_managers;
  to_managers = ix.to_managers ++ tasks_for k (task_ids tasks) ∷ [];
}

module _ (k : ℕ) (m : ManagerRecord) (n : ℕ) (ix : Interchange)
    (known : get_manager k ix.ready_managers ≡ some m) (here : has k ix.interesting ≡ true)
    (room : n ≡ m.max_capacity - length m.tasks) (s : SoundState ix) where
  sent : Interchange
  sent = sent_state k m (take n ix.pending) (drop n ix.pending) ix

  sent-SoundState : SoundState sent
  unfolding sent
  sent-SoundState = Sound-put k _ (sent_fits n m ix.pending room (s.within k m known)) s

  sent-accounted : (t : ℕ) → accounted t sent ≡ accounted t ix
  unfolding accounted sent
  sent-accounted t = omega (
    arith,
    in_flight-put t k m
        (record m { tasks = m.tasks ++ task_ids (take n ix.pending); idle_since = none })
        ix.ready_managers known,
    occurrences-append t m.tasks (task_ids (take n ix.pending)),
    occurrences-take t n ix.pending,
  )

  send_tasks-Moves : MovesOne k ix (send_tasks k m n (take n ix.pending) (drop n ix.pending) ix)
  unfolding send_tasks sent
  send_tasks-Moves = elim (Bool-cases (ltb (length (take n ix.pending)) n)) [
    | inl l ↦ rw l (sent, refl, sent-SoundState, sent-accounted, λ j e h. h)
    | inr l ↦ rw l (
        MovesOne-then k ix sent _ sent-accounted refl
          (remove_interesting-Moves k sent here sent-SoundState))
  ]

  send_any-Moves :
      (tasks rest : List Entry)
      → tasks ≡ take n ix.pending
      → rest ≡ drop n ix.pending
      → MovesOne k ix (send_any k m n tasks rest ix)
  send_any-Moves [] rest e f = (ix, refl, s, λ t. refl, λ j e h. h)
  send_any-Moves (x ∷ xs) rest e f = rw (e, f) send_tasks-Moves

pub offer-Moves :
    (k : ℕ) (m : ManagerRecord) (ix : Interchange)
    → get_manager k ix.ready_managers ≡ some m
    → has k ix.interesting ≡ true
    → SoundState ix
    → MovesOne k ix (offer k m ix)
unfolding offer get_tasks
offer-Moves k m ix known here s =
    elim (Bool-cases (not (m.max_capacity == length m.tasks) && (m.active && not m.draining))) [
      | inl b ↦
          rw b (
            send_any-Moves k m (m.max_capacity - length m.tasks) ix known here refl s _ _ refl refl)
      | inr b ↦ rw b (remove_interesting-Moves k ix here s)
    ]

-- All of these managers are interesting.
abbrev pub AllHas : List ℕ → List ℕ → Type 0
AllHas [] js = Unit
AllHas (k ∷ ks) js = (has k js ≡ true) × AllHas ks js

pub not_here :
    (k i : ℕ) (ks : List ℕ) → has k (i ∷ ks) ≡ false → ((k == i) ≡ false) × (has k ks ≡ false)
unfolding has
not_here k i ks h = elim (Bool-cases (i == k)) [
  | inl e ↦ absurd (let no = subst (λ b. (if b then true else has k ks) ≡ false) e h in cc)
  | inr e ↦ (ground arith, subst (λ b. (if b then true else has k ks) ≡ false) e h)
]

pub AllHas-moved :
    (k : ℕ) (ks js js' : List ℕ)
    → ((j : ℕ) → (k == j) ≡ false → has j js ≡ true → has j js' ≡ true)
    → has k ks ≡ false
    → AllHas ks js
    → AllHas ks js'
AllHas-moved k [] js js' f d h = tt
AllHas-moved k (i ∷ ks) js js' f d h =
    (f i (not_here k i ks d).0 h.0, AllHas-moved k ks js js' f (not_here k i ks d).1 h.1)
