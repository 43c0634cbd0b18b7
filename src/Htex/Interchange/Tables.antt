-- ===== src/Htex/Interchange/Tables.antt =====
-- The tables of parsl/executors/high_throughput/interchange.py: lookups after each change.
use parsl.Prelude.{
  ℕ, Bool, true, false, ◌≡◌, refl, none, some, List, [], ◌∷◌, ◌++◌, ◌==◌, if◌then◌else◌, arith,
  Bool-cases, inl, inr, ==_iff, sym, ◌∙◌, ap, subst,
}
use mathlib.Core.List.{reverse, reverse-cons}
use parsl.Htex.Interchange.State.{
  ManagerRecord, Managers, get_manager, put_manager, pop_manager, has, add, discard,
}

-- No manager stands twice in the table.
abbrev pub Unique : Managers → Type 0
Unique [] = Unit
Unique ((k, m) ∷ ms) = (get_manager k ms ≡ none) × Unique ms

-- No manager stands twice in the list.
abbrev pub NoDup : List ℕ → Type 0
NoDup [] = Unit
NoDup (k ∷ ks) = (has k ks ≡ false) × NoDup ks

pub get-put :
    (j k : ℕ) (m : ManagerRecord) (ms : Managers)
    → get_manager j (put_manager k m ms) ≡ (if k == j then some m else get_manager j ms)
unfolding get_manager put_manager
get-put j k m [] = refl
get-put j k m ((i, n) ∷ ms) = let ih = get-put j k m ms in ground arith

pub get-pop :
    (j k : ℕ) (ms : Managers)
    → Unique ms
    → get_manager j (pop_manager k ms) ≡ (if k == j then none else get_manager j ms)
unfolding get_manager pop_manager
get-pop j k [] u = ground arith
get-pop j k ((i, n) ∷ ms) u = let ih = get-pop j k ms u.1 in let first = u.0 in ground arith

pub Unique-put :
    (k : ℕ) (m : ManagerRecord) (ms : Managers) → Unique ms → Unique (put_manager k m ms)
unfolding get_manager put_manager
Unique-put k m [] u = (refl, tt)
Unique-put k m ((i, n) ∷ ms) u =
    let get = get-put i k m ms in
    let rest = Unique-put k m ms u.1 in
    elim (Bool-cases (i == k)) [
      | inl e ↦ rw e u
      | inr e ↦ rw e (get ∙ (let first = u.0 in ground arith), rest)
    ]

pub Unique-pop : (k : ℕ) (ms : Managers) → Unique ms → Unique (pop_manager k ms)
unfolding get_manager pop_manager
Unique-pop k [] u = tt
Unique-pop k ((i, n) ∷ ms) u = elim (Bool-cases (i == k)) [
  | inl e ↦ rw e u.1
  | inr e ↦ rw e (get-pop i k ms u.1 ∙ (let first = u.0 in ground arith), Unique-pop k ms u.1)
]

pub has-append :
    (j k : ℕ) (js : List ℕ) → has j (js ++ k ∷ []) ≡ (if k == j then true else has j js)
unfolding has
has-append j k [] = refl
has-append j k (i ∷ js) = let e = has-append j k js in ground arith

pub has-discard :
    (j k : ℕ) (js : List ℕ) → has j (discard k js) ≡ (if k == j then false else has j js)
unfolding has discard
has-discard j k [] = ground arith
has-discard j k (i ∷ js) = let e = has-discard j k js in ground arith

pub NoDup-append : (k : ℕ) (js : List ℕ) → has k js ≡ false → NoDup js → NoDup (js ++ k ∷ [])
unfolding has
NoDup-append k [] h d = (refl, tt)
NoDup-append k (i ∷ js) h d =
    (has-append i k js ∙ (let first = d.0 in ground arith), NoDup-append k js (ground arith) d.1)

pub has-reverse : (j : ℕ) (js : List ℕ) → has j (reverse js) ≡ has j js
unfolding has
has-reverse j [] = refl
has-reverse j (i ∷ js) =
    ap (has j) (reverse-cons i js)
    ∙ has-append j i (reverse js)
    ∙ ap (λ (b : Bool). if i == j then true else b) (has-reverse j js)

pub NoDup-reverse : (js : List ℕ) → NoDup js → NoDup (reverse js)
NoDup-reverse [] d = tt
NoDup-reverse (i ∷ js) d =
    subst NoDup (sym (reverse-cons i js))
      (NoDup-append i (reverse js) (has-reverse i js ∙ d.0) (NoDup-reverse js d.1))

already_has :
    (j k : ℕ) (js : List ℕ) → has k js ≡ true → has j js ≡ (if k == j then true else has j js)
already_has j k js h = elim (Bool-cases (k == j)) [
  | inl e ↦ rw e (subst (λ i. has i js ≡ true) ((==_iff k j).0 e) h)
  | inr e ↦ rw e refl
]

pub has-add : (j k : ℕ) (js : List ℕ) → has j (add k js) ≡ (if k == j then true else has j js)
unfolding add
has-add j k js = elim (Bool-cases (has k js)) [
  | inl h ↦ rw h (already_has j k js h)
  | inr h ↦ rw h (has-append j k js)
]

pub NoDup-add : (k : ℕ) (js : List ℕ) → NoDup js → NoDup (add k js)
unfolding add
NoDup-add k js d = elim (Bool-cases (has k js)) [
  | inl h ↦ rw h d
  | inr h ↦ rw h (NoDup-append k js h d)
]

pub NoDup-discard : (k : ℕ) (js : List ℕ) → NoDup js → NoDup (discard k js)
unfolding discard
NoDup-discard k [] d = tt
NoDup-discard k (i ∷ js) d = elim (Bool-cases (i == k)) [
  | inl e ↦ rw e (NoDup-discard k js d.1)
  | inr e ↦ rw e (has-discard i k js ∙ (let first = d.0 in ground arith), NoDup-discard k js d.1)
]
