-- ===== src/Htex/Interchange/Turns.antt =====
-- What a turn of the main loop of parsl/executors/high_throughput/interchange.py keeps.
pub mod Tasks
pub mod Loops
pub mod Leaving
pub mod Asking
pub mod Whole
use parsl.Prelude.{
  ℕ, ◌+◌, ◌≤◌, Bool, true, false, ◌≡◌, refl, Option, none, some, List, [], ◌∷◌, length, ◌==◌,
  if◌then◌else◌, arith, Bool-cases, ◌⊎◌, inl, inr, ap, sym, ◌∙◌, subst, ==_iff,
}
use mathlib.Core.Option.{some-injective}
use parsl.Htex.Interchange.State.{
  Interchange, ManagerRecord, Managers, get_manager, put_manager, pop_manager, has, add, discard,
}
use parsl.Htex.Interchange.Dispatch.{and_then}
use parsl.Htex.Interchange.Tables.{
  Unique, NoDup, get-put, get-pop, Unique-put, Unique-pop, has-add, has-discard, NoDup-add,
  NoDup-discard,
}
use parsl.Htex.Interchange.Accounting.{accounted}

abbrev pub Known : ℕ → Managers → Type 0
Known j ms = (m : ManagerRecord) × (get_manager j ms ≡ some m)

-- The tables of managers agree, and no manager holds more tasks than it can.
pub record Sound (ms : Managers) (js : List ℕ) : Type 0 where
  pub unique : Unique ms
  pub nodup : NoDup js
  pub known : (j : ℕ) → has j js ≡ true → Known j ms
  pub within :
      (j : ℕ) (m : ManagerRecord) → get_manager j ms ≡ some m → length m.tasks ≤ m.max_capacity

pub Known-put :
    (j k : ℕ) (n : ManagerRecord) (ms : Managers) → Known j ms → Known j (put_manager k n ms)
Known-put j k n ms (m, h) = elim (Bool-cases (k == j)) [
  | inl e ↦ (n, get-put j k n ms ∙ rw e refl)
  | inr e ↦ (m, get-put j k n ms ∙ rw e h)
]

within-put :
    (j k : ℕ) (n m : ManagerRecord) (ms : Managers)
    → length n.tasks ≤ n.max_capacity
    → (get_manager j ms ≡ some m → length m.tasks ≤ m.max_capacity)
    → get_manager j (put_manager k n ms) ≡ some m
    → length m.tasks ≤ m.max_capacity
within-put j k n m ms fits before h = elim (Bool-cases (k == j)) [
  | inl e ↦
      let same_record = some-injective _ _ (
        subst (λ b. (if b then some n else get_manager j ms) ≡ some m) e
          (sym (get-put j k n ms) ∙ h)) in
      subst (λ (r : ManagerRecord). length r.tasks ≤ r.max_capacity) same_record fits
  | inr e ↦ before (
      subst (λ b. (if b then some n else get_manager j ms) ≡ some m) e (sym (get-put j k n ms) ∙ h))
]

pub Sound-put :
    (k : ℕ) (n : ManagerRecord) {ms : Managers} {js : List ℕ}
    → length n.tasks ≤ n.max_capacity
    → Sound ms js
    → Sound (put_manager k n ms) js
Sound-put k n {ms = ms} fits s = record {
  unique = Unique-put k n ms s.unique;
  nodup = s.nodup;
  known = λ j h. Known-put j k n ms (s.known j h);
  within = λ j m. within-put j k n m ms fits (s.within j m);
}

other_of_discard :
    (j k : ℕ) (js : List ℕ) → has j (discard k js) ≡ true → ((k == j) ≡ false) × (has j js ≡ true)
other_of_discard j k js h = elim (Bool-cases (k == j)) [
  | inl e ↦ absurd (
      let gone =
        subst (λ b. true ≡ (if b then false else has j js)) e (sym h ∙ has-discard j k js) in
      cc)
  | inr e ↦
      (e, sym (subst (λ b. true ≡ (if b then false else has j js)) e (sym h ∙ has-discard j k js)))
]

pub Sound-discard : (k : ℕ) {ms : Managers} {js : List ℕ} → Sound ms js → Sound ms (discard k js)
Sound-discard k {js = js} s = record {
  unique = s.unique;
  nodup = NoDup-discard k js s.nodup;
  known = λ j h. s.known j (other_of_discard j k js h).1;
  within = s.within;
}

pub Sound-add :
    (k : ℕ) {ms : Managers} {js : List ℕ} → Known k ms → Sound ms js → Sound ms (add k js)
Sound-add k {ms = ms} {js = js} here s = record {
  unique = s.unique;
  nodup = NoDup-add k js s.nodup;
  known = λ j h. elim (Bool-cases (k == j)) [
    | inl e ↦ subst (λ i. Known i ms) ((==_iff k j).0 e) here
    | inr e ↦
        s.known j (subst (λ b. (if b then true else has j js) ≡ true) e (sym (has-add j k js) ∙ h))
  ];
  within = s.within;
}

pub Known-pop :
    (j k : ℕ) (ms : Managers)
    → Unique ms
    → (k == j) ≡ false
    → Known j ms
    → Known j (pop_manager k ms)
Known-pop j k ms u e (m, h) = (m, get-pop j k ms u ∙ rw e h)

within-pop :
    (j k : ℕ) (m : ManagerRecord) (ms : Managers)
    → Unique ms
    → get_manager j (pop_manager k ms) ≡ some m
    → get_manager j ms ≡ some m
within-pop j k m ms u h = elim (Bool-cases (k == j)) [
  | inl e ↦ absurd (
      let gone =
        subst (λ b. (if b then none else get_manager j ms) ≡ some m) e
          (sym (get-pop j k ms u) ∙ h) in
      cc)
  | inr e ↦
      subst (λ b. (if b then none else get_manager j ms) ≡ some m) e (sym (get-pop j k ms u) ∙ h)
]

-- A manager leaves both tables.
pub Sound-pop :
    (k : ℕ) {ms : Managers} {js : List ℕ} → Sound ms js → Sound (pop_manager k ms) (discard k js)
Sound-pop k {ms = ms} {js = js} s = record {
  unique = Unique-pop k ms s.unique;
  nodup = NoDup-discard k js s.nodup;
  known = λ j h.
      let (other, before) = other_of_discard j k js h in
      Known-pop j k ms s.unique other (s.known j before);
  within = λ j m h. s.within j m (within-pop j k m ms s.unique h);
}

abbrev pub SoundState : Interchange → Type 0
SoundState ix = Sound ix.ready_managers ix.interesting

-- The step ends without an exception, in a sound state, and the tasks that it has `arrived` are
-- the only change to what is accounted for.
abbrev pub Moves : (ℕ → ℕ) → Interchange → Option Interchange → Type 0
Moves arrived ix o =
    (ix' : Interchange) × (o ≡ some ix')
    × SoundState ix'
    × ((t : ℕ) → accounted t ix' ≡ accounted t ix + arrived t)

abbrev pub nothing : ℕ → ℕ
nothing t = 0

pub Moves-then :
    (arrived : ℕ → ℕ) (ix : Interchange) (o : Option Interchange)
    (f : Interchange → Option Interchange)
    → Moves arrived ix o
    → ((ix' : Interchange) → SoundState ix' → Moves nothing ix' (f ix'))
    → Moves arrived ix (and_then o f)
Moves-then arrived ix o f (mid, e, s, count) more =
    let (last, e', s', count') = more mid s in
    (last, rw e e', s', λ t. count' t ∙ omega (arith, count t))
