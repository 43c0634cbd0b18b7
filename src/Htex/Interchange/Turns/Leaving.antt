-- ===== src/Htex/Interchange/Turns/Leaving.antt =====
-- The steps of a turn of the loop of parsl/executors/high_throughput/interchange.py, in which managers leave.
use parsl.Prelude.{
  ℕ, ◌+◌, Bool, true, false, ◌&&◌, ◌≡◌, refl, none, some, List, [], ◌∷◌, map, length, ltb, ◌==◌,
  if◌then◌else◌, arith, Bool-cases, inl, inr, sym, ◌∙◌, subst, ==_iff,
}
use parsl.Htex.Interchange.State.{
  Interchange, ManagerRecord, Managers, get_manager, pop_manager, has, manager_lost,
}
use parsl.Htex.Interchange.Dispatch.{remove_interesting}
use parsl.Htex.Interchange.Expire.{expire_drained, expire_drained_each, unregister}
use parsl.Htex.Interchange.Tables.{has-discard, NoDup}
use parsl.Htex.Interchange.Accounting.{
  occurrences, in_flight, accounted, answered-append, answered-lost, in_flight-pop,
}
use parsl.Htex.Interchange.Turns.{SoundState, Sound-pop, Moves, nothing}
use parsl.Htex.Interchange.Turns.Tasks.{MovesOne, AllHas, stays}
use parsl.Htex.Interchange.Expire.{
  bad_managers, unregister_each, expire_bad_managers, expire_drained_managers,
}
use parsl.Htex.Interchange.Tables.{Unique, get-pop}
use parsl.Htex.Interchange.Turns.Loops.{one-then, AllHas-intro}

nothing_held : (t : ℕ) (xs : List ℕ) → (length xs == 0) ≡ true → occurrences t xs ≡ 0
unfolding occurrences
nothing_held t [] h = refl
nothing_held t (x ∷ xs) h = ground arith

both_true : (a b : Bool) → (a && b) ≡ true → b ≡ true
both_true true b h = h
both_true false b h = cc

module _ (k : ℕ) (m : ManagerRecord) (ix : Interchange)
    (known : get_manager k ix.ready_managers ≡ some m) (here : has k ix.interesting ≡ true)
    (s : SoundState ix) where
  drained-accounted :
      (t : ℕ)
      → (length m.tasks == 0) ≡ true
      → in_flight t (pop_manager k ix.ready_managers) ≡ in_flight t ix.ready_managers
  drained-accounted t e =
      omega (arith, in_flight-pop t k m ix.ready_managers known, nothing_held t m.tasks e)

  expire_drained-Moves : MovesOne k ix (expire_drained k (some m) ix)
  unfolding expire_drained remove_interesting accounted
  expire_drained-Moves = elim (Bool-cases (m.draining && (length m.tasks == 0))) [
    | inl b ↦
        rw (b, here)
          (
            _,
            refl,
            Sound-pop k s,
            λ t. omega (arith, drained-accounted t (both_true _ _ b)),
            λ j e h. has-discard j k ix.interesting ∙ rw e h,
          )
    | inr b ↦ rw b (ix, refl, s, λ t. refl, λ j e h. h)
  ]

expire_drained_each-Moves :
    (ks : List ℕ) (ix : Interchange)
    → NoDup ks
    → AllHas ks ix.interesting
    → SoundState ix
    → Moves nothing ix (expire_drained_each ks ix)
unfolding expire_drained_each
expire_drained_each-Moves [] ix d h s = stays ix s
expire_drained_each-Moves (k ∷ ks) ix d h s =
    let (m, known) = s.known k h.0 in
    rw known (
      one-then k ks ix (expire_drained k (some m) ix) (expire_drained_each ks) d.0 h.1
        (expire_drained-Moves k m ix known h.0 s)
        (λ ix' h' s'. expire_drained_each-Moves ks ix' d.1 h' s'))

pub expire_drained_managers-Moves :
    (ix : Interchange) → SoundState ix → Moves nothing ix (expire_drained_managers ix)
unfolding expire_drained_managers
expire_drained_managers-Moves ix s =
    expire_drained_each-Moves ix.interesting ix s.nodup
      (AllHas-intro ix.interesting ix.interesting (λ j h. h)) s

-- The managers of a list stand in the table, with these records.
abbrev Standing : Managers → Managers → Type 0
Standing [] ms = Unit
Standing ((k, m) ∷ bs) ms = (get_manager k ms ≡ some m) × Standing bs ms

not_first :
    (k i : ℕ) (m : ManagerRecord) (bs : Managers)
    → get_manager k ((i, m) ∷ bs) ≡ none
    → ((i == k) ≡ false) × (get_manager k bs ≡ none)
unfolding get_manager
not_first k i m bs h = elim (Bool-cases (i == k)) [
  | inl e ↦ absurd (let no = subst (λ b. (if b then some m else get_manager k bs) ≡ none) e h in cc)
  | inr e ↦ (e, subst (λ b. (if b then some m else get_manager k bs) ≡ none) e h)
]

swapped : (i k : ℕ) → (i == k) ≡ false → (k == i) ≡ false
swapped i k h = ground arith

Standing-pop :
    (k : ℕ) (bs ms : Managers)
    → Unique ms
    → get_manager k bs ≡ none
    → Standing bs ms
    → Standing bs (pop_manager k ms)
Standing-pop k [] ms u n h = tt
Standing-pop k ((i, m) ∷ bs) ms u n h =
    let (other, rest) = not_first k i m bs n in
    (get-pop i k ms u ∙ rw (swapped i k other) h.0, Standing-pop k bs ms u rest h.1)

Standing-cons :
    (k : ℕ) (m : ManagerRecord) (bs ms : Managers)
    → get_manager k ms ≡ none
    → Standing bs ms
    → Standing bs ((k, m) ∷ ms)
unfolding get_manager
Standing-cons k m [] ms n h = tt
Standing-cons k m ((i, x) ∷ bs) ms n h = elim (Bool-cases (k == i)) [
  | inl e ↦
      absurd (let found = subst (λ j. get_manager j ms ≡ some x) (sym ((==_iff k i).0 e)) h.0 in cc)
  | inr e ↦ (rw e h.0, Standing-cons k m bs ms n h.1)
]

module _ (now threshold : ℕ) where
  bad_managers-none :
      (k : ℕ) (ms : Managers)
      → get_manager k ms ≡ none
      → get_manager k (bad_managers now threshold ms) ≡ none
  unfolding bad_managers get_manager
  bad_managers-none k [] h = refl
  bad_managers-none k ((i, m) ∷ ms) h =
      let (other, rest) = not_first k i m ms h in
      elim (Bool-cases (ltb (m.last_heartbeat + threshold) now)) [
        | inl l ↦ rw (l, other) (bad_managers-none k ms rest)
        | inr l ↦ rw l (bad_managers-none k ms rest)
      ]

  bad_managers-Standing :
      (ms : Managers)
      → Unique ms
      → Unique (bad_managers now threshold ms) × Standing (bad_managers now threshold ms) ms
  unfolding bad_managers get_manager
  bad_managers-Standing [] u = (tt, tt)
  bad_managers-Standing ((k, m) ∷ ms) u =
      let (distinct, standing) = bad_managers-Standing ms u.1 in
      let later = Standing-cons k m (bad_managers now threshold ms) ms u.0 standing in
      elim (Bool-cases (ltb (m.last_heartbeat + threshold) now)) [
        | inl l ↦
            rw l ((bad_managers-none k ms u.0, distinct), (rw ((==_iff k k).1 refl) refl, later))
        | inr l ↦ rw l (distinct, later)
      ]

unregister-Moves :
    (k : ℕ) (m : ManagerRecord) (ix : Interchange)
    → get_manager k ix.ready_managers ≡ some m
    → SoundState ix
    → SoundState (unregister k m ix) × ((t : ℕ) → accounted t (unregister k m ix) ≡ accounted t ix)
unfolding unregister accounted
unregister-Moves k m ix known s = (
  Sound-pop k s,
  λ t. omega (
    arith,
    in_flight-pop t k m ix.ready_managers known,
    answered-append t ix.results_outgoing (map (λ x. manager_lost x k) m.tasks),
    answered-lost t k m.tasks,
  ),
)

unregister_each-Moves :
    (bs : Managers) (ix : Interchange)
    → Unique bs
    → Standing bs ix.ready_managers
    → SoundState ix
    → SoundState (unregister_each bs ix)
      × ((t : ℕ) → accounted t (unregister_each bs ix) ≡ accounted t ix)
unfolding unregister_each
unregister_each-Moves [] ix u h s = (s, λ t. refl)
unregister_each-Moves ((k, m) ∷ bs) ix u h s =
    let here : get_manager k ix.ready_managers ≡ some m = h.0 in
    let (s', count) = unregister-Moves k m ix here s in
    let (last, count') =
      unregister_each-Moves bs (unregister k m ix) u.1
        (unfold unregister in Standing-pop k bs ix.ready_managers s.unique u.0 (h.1)) s' in
    (last, λ t. count' t ∙ count t)

pub expire_bad_managers-Moves :
    (now threshold : ℕ) (ix : Interchange)
    → SoundState ix
    → SoundState (expire_bad_managers now threshold ix)
      × ((t : ℕ) → accounted t (expire_bad_managers now threshold ix) ≡ accounted t ix)
unfolding expire_bad_managers
expire_bad_managers-Moves now threshold ix s =
    let (distinct, standing) = bad_managers-Standing now threshold ix.ready_managers s.unique in
    unregister_each-Moves (bad_managers now threshold ix.ready_managers) ix distinct standing s
