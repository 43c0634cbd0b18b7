-- ===== src/Htex/Interchange/Turns/Loops.antt =====
-- The steps of a turn of the loop of parsl/executors/high_throughput/interchange.py, that look at the managers in a loop.
use parsl.Prelude.{ℕ, true, false, ◌≡◌, Option, some, List, [], ◌∷◌, arith, sym, ◌∙◌}
use parsl.Htex.Interchange.State.{Interchange, Managers, Entry, has}
use parsl.Htex.Interchange.Dispatch.{and_then, offer, offer_each}
use parsl.Htex.Interchange.Tables.{NoDup}
use parsl.Htex.Interchange.Turns.{SoundState, Moves, nothing}
use parsl.Htex.Interchange.Turns.Tasks.{MovesOne, offer-Moves, AllHas, AllHas-moved, stays}
use parsl.Htex.Interchange.Dispatch.{Selector, process_tasks_to_send}
use parsl.Htex.Interchange.Tables.{NoDup-reverse, has-reverse}

-- One step of a loop, and the rest.
pub one-then :
    (k : ℕ) (ks : List ℕ) (ix : Interchange) (o : Option Interchange)
    (f : Interchange → Option Interchange)
    → has k ks ≡ false
    → AllHas ks ix.interesting
    → MovesOne k ix o
    → ((ix' : Interchange) → AllHas ks ix'.interesting → SoundState ix' → Moves nothing ix' (f ix'))
    → Moves nothing ix (and_then o f)
one-then k ks ix o f d h (mid, e, s, count, others) more =
    let (last, e', s', count') =
      more mid (AllHas-moved k ks ix.interesting mid.interesting others d h) s in
    (last, rw e e', s', λ t. count' t ∙ omega (arith, count t))

offer_each-Moves :
    (ks : List ℕ) (ix : Interchange)
    → NoDup ks
    → AllHas ks ix.interesting
    → SoundState ix
    → Moves nothing ix (offer_each ks ix)
unfolding offer_each
offer_each-Moves [] ix d h s = stays ix s
offer_each-Moves (k ∷ ks) ix d h s =
    let (m, known) = s.known k h.0 in
    no_tasks_left ix.pending (
      rw known (
        one-then k ks ix (offer k m ix) (offer_each ks) d.0 h.1 (offer-Moves k m ix known h.0 s)
          (λ ix' h' s'. offer_each-Moves ks ix' d.1 h' s')))
  where
    no_tasks_left :
        (queue : List Entry) {o : Option Interchange}
        → Moves nothing ix o
        → Moves nothing ix (elim queue [ [] ↦ some ix | e ∷ es ↦ o ])
    no_tasks_left [] p = stays ix s
    no_tasks_left (e ∷ es) p = p

-- A selector gives each of the interesting managers at most once, and no others.
pub record IsSelector (sort_managers : Selector) : Type 0 where
  pub distinct : (ms : Managers) (js : List ℕ) → NoDup js → NoDup (sort_managers ms js)
  pub among :
      (ms : Managers) (js : List ℕ) (j : ℕ) → has j (sort_managers ms js) ≡ true → has j js ≡ true

has_head : (k : ℕ) (ks : List ℕ) → has k (k ∷ ks) ≡ true
unfolding has
has_head k ks = ground arith

has_tail : (j k : ℕ) (ks : List ℕ) → has j ks ≡ true → has j (k ∷ ks) ≡ true
unfolding has
has_tail j k ks h = ground arith

pub AllHas-intro : (ks js : List ℕ) → ((j : ℕ) → has j ks ≡ true → has j js ≡ true) → AllHas ks js
AllHas-intro [] js f = tt
AllHas-intro (k ∷ ks) js f =
    (f k (has_head k ks), AllHas-intro ks js (λ j h. f j (has_tail j k ks h)))

pub process_tasks_to_send-Moves :
    (sort_managers : Selector) (ix : Interchange)
    → IsSelector sort_managers
    → SoundState ix
    → Moves nothing ix (process_tasks_to_send sort_managers ix)
unfolding process_tasks_to_send
process_tasks_to_send-Moves sort_managers ix law s = none_interesting ix.interesting (
    offer_each-Moves _ ix (NoDup-reverse _ (law.distinct ix.ready_managers ix.interesting s.nodup))
      (AllHas-intro _ ix.interesting
        (λ j h. law.among ix.ready_managers ix.interesting j (sym (has-reverse j _) ∙ h)))
      s)
  where
    none_interesting :
        (js : List ℕ) {o : Option Interchange}
        → Moves nothing ix o
        → Moves nothing ix (elim js [ [] ↦ some ix | k ∷ ks ↦ o ])
    none_interesting [] p = stays ix s
    none_interesting (k ∷ ks) p = p
