-- ===== src/Dataflow/Memo/Kwargs.antt =====
-- Deletion from the kwargs of a call, as make_hash of parsl/dataflow/memoization.py does it.
use parsl.Prelude.{
  ℕ, true, false, ◌≡◌, refl, subst, Option, none, some, List, [], ◌∷◌, ◌++◌, ◌==◌, if◌then◌else◌,
  arith, Bool-cases, inl, inr, ==_iff,
}
use parsl.Dataflow.Memo.Hash.{Value, Fields, end, field, bind, get_kwarg, del_kwarg, del_each}

-- `kwargs[k] = v` where the dictionary has `k`.
unfoldable pub set_kwarg : ℕ → Value → Fields → Fields
set_kwarg k v end = end
set_kwarg k v (field j w fs) = if j == k then field j v fs else field j w (set_kwarg k v fs)

del-set : (k : ℕ) (v : Value) (fs : Fields) → del_kwarg k (set_kwarg k v fs) ≡ del_kwarg k fs
unfolding del_kwarg set_kwarg
del-set k v end = refl
del-set k v (field j w fs) = elim (Bool-cases (j == k)) [
  | inl e ↦ rw (e, e) refl
  | inr e ↦ rw (e, e, del-set k v fs) refl
]

del-set_ne :
    (i k : ℕ) (v : Value) (fs : Fields)
    → (k == i) ≡ false
    → del_kwarg i (set_kwarg k v fs) ≡ bind (del_kwarg i fs) (λ gs. some (set_kwarg k v gs))
unfolding del_kwarg set_kwarg
del-set_ne i k v end h = refl
del-set_ne i k v (field j w fs) h = ground (arith, del-set_ne i k v fs h)

pub get-set_ne :
    (i k : ℕ) (v : Value) (fs : Fields)
    → (k == i) ≡ false
    → get_kwarg i (set_kwarg k v fs) ≡ get_kwarg i fs
unfolding get_kwarg set_kwarg
get-set_ne i k v end h = refl
get-set_ne i k v (field j w fs) h = ground (arith, get-set_ne i k v fs h)

pub del_each-set :
    (k : ℕ) (v : Value) (is js : List ℕ) (fs : Fields)
    → del_each (is ++ k ∷ js) (set_kwarg k v fs) ≡ del_each (is ++ k ∷ js) fs
unfolding del_each
del_each-set k v [] js fs = rw (del-set k v fs) refl
del_each-set k v (i ∷ is) js fs = elim (Bool-cases (k == i)) [
  | inl e ↦
      subst
        (λ n.
          bind (del_kwarg n (set_kwarg k v fs)) (del_each (is ++ k ∷ js))
          ≡ bind (del_kwarg n fs) (del_each (is ++ k ∷ js)))
        ((==_iff k i).0 e) (rw (del-set k v fs) refl)
  | inr e ↦ rw (del-set_ne i k v fs e) (under (del_kwarg i fs) (del_each-set k v is js))
]
  where
    under :
        (o : Option Fields)
        → ((gs : Fields) → del_each (is ++ k ∷ js) (set_kwarg k v gs) ≡ del_each (is ++ k ∷ js) gs)
        → bind (bind o (λ gs. some (set_kwarg k v gs))) (del_each (is ++ k ∷ js))
          ≡ bind o (del_each (is ++ k ∷ js))
    under none ih = refl
    under (some gs) ih = ih gs

-- A dictionary has each key once.
abbrev pub DistinctKeys : Fields → Type 0
DistinctKeys end = Unit
DistinctKeys (field k v fs) = (get_kwarg k fs ≡ none) × DistinctKeys fs

-- What holds of a dictionary from which keys are deleted, if no exception is raised.
abbrev pub OnSome : (Fields → Type 0) → Option Fields → Type 0
OnSome P none = Unit
OnSome P (some fs) = P fs

OnSome-bind :
    (Q P : Fields → Type 0) (o : Option Fields) (f : Fields → Option Fields)
    → OnSome Q o
    → ((fs : Fields) → Q fs → OnSome P (f fs))
    → OnSome P (bind o f)
OnSome-bind Q P none f q h = tt
OnSome-bind Q P (some fs) f q h = h fs q

OnSome-and :
    (P Q : Fields → Type 0) (o : Option Fields)
    → OnSome P o
    → OnSome Q o
    → OnSome (λ fs. P fs × Q fs) o
OnSome-and P Q none p q = tt
OnSome-and P Q (some fs) p q = (p, q)

OnSome-del :
    (P Q : Fields → Type 0) (k j : ℕ) (v : Value) (fs : Fields)
    → ((j == k) ≡ true → P fs)
    → OnSome Q (del_kwarg k fs)
    → ((gs : Fields) → (j == k) ≡ false → Q gs → P (field j v gs))
    → OnSome P (del_kwarg k (field j v fs))
unfolding del_kwarg
OnSome-del P Q k j v fs here rest there = elim (Bool-cases (j == k)) [
  | inl e ↦ rw e (here e)
  | inr e ↦ rw e (under (del_kwarg k fs) rest e)
]
  where
    under :
        (o : Option Fields)
        → OnSome Q o
        → (j == k) ≡ false
        → OnSome P (bind o (λ gs. some (field j v gs)))
    under none q e = tt
    under (some gs) q e = there gs e q

-- A key that is not there is not there after a deletion either.
get-del :
    (i k : ℕ) (fs : Fields)
    → get_kwarg i fs ≡ none
    → OnSome (λ gs. get_kwarg i gs ≡ none) (del_kwarg k fs)
unfolding get_kwarg del_kwarg
get-del i k end h = tt
get-del i k (field j v fs) h =
    OnSome-del (λ gs. get_kwarg i gs ≡ none) (λ gs. get_kwarg i gs ≡ none) k j v fs
      (λ e. ground arith) (get-del i k fs (ground arith)) (λ gs e n. ground arith)

get-del_self :
    (k : ℕ) (fs : Fields) → DistinctKeys fs → OnSome (λ gs. get_kwarg k gs ≡ none) (del_kwarg k fs)
unfolding get_kwarg del_kwarg
get-del_self k end h = tt
get-del_self k (field j v fs) h =
    OnSome-del (λ gs. get_kwarg k gs ≡ none) (λ gs. get_kwarg k gs ≡ none) k j v fs
      (λ e. subst (λ n. get_kwarg n fs ≡ none) ((==_iff j k).0 e) h.0) (get-del_self k fs h.1)
      (λ gs e n. rw e n)

del-DistinctKeys : (k : ℕ) (fs : Fields) → DistinctKeys fs → OnSome DistinctKeys (del_kwarg k fs)
unfolding del_kwarg
del-DistinctKeys k end h = tt
del-DistinctKeys k (field j v fs) h =
    OnSome-del DistinctKeys (λ gs. (get_kwarg j gs ≡ none) × DistinctKeys gs) k j v fs (λ e. h.1)
      (OnSome-and (λ gs. get_kwarg j gs ≡ none) DistinctKeys (del_kwarg k fs) (get-del j k fs h.0)
        (del-DistinctKeys k fs h.1))
      (λ gs e n. n)

get-del_each :
    (i : ℕ) (ks : List ℕ) (fs : Fields)
    → get_kwarg i fs ≡ none
    → OnSome (λ gs. get_kwarg i gs ≡ none) (del_each ks fs)
unfolding del_each
get-del_each i [] fs h = h
get-del_each i (k ∷ ks) fs h =
    OnSome-bind (λ gs. get_kwarg i gs ≡ none) (λ gs. get_kwarg i gs ≡ none) (del_kwarg k fs)
      (del_each ks) (get-del i k fs h) (get-del_each i ks)

pub get-del_each_self :
    (k : ℕ) (is js : List ℕ) (fs : Fields)
    → DistinctKeys fs
    → OnSome (λ gs. get_kwarg k gs ≡ none) (del_each (is ++ k ∷ js) fs)
unfolding del_each
get-del_each_self k [] js fs h =
    OnSome-bind (λ gs. get_kwarg k gs ≡ none) (λ gs. get_kwarg k gs ≡ none) (del_kwarg k fs)
      (del_each js) (get-del_self k fs h) (get-del_each k js)
get-del_each_self k (i ∷ is) js fs h =
    OnSome-bind DistinctKeys (λ gs. get_kwarg k gs ≡ none) (del_kwarg i fs)
      (del_each (is ++ k ∷ js)) (del-DistinctKeys i fs h) (get-del_each_self k is js)

-- A key that is not there cannot be deleted.
pub del_missing : (k : ℕ) (fs : Fields) → get_kwarg k fs ≡ none → del_kwarg k fs ≡ none
unfolding get_kwarg del_kwarg
del_missing k end h = refl
del_missing k (field j v fs) h = ground (arith, del_missing k fs)

pub del_each_missing :
    (k : ℕ) (is js : List ℕ) (fs : Fields)
    → get_kwarg k fs ≡ none
    → del_each (is ++ k ∷ js) fs ≡ none
unfolding del_each
del_each_missing k [] js fs h = rw (del_missing k fs h) refl
del_each_missing k (i ∷ is) js fs h =
    under (del_kwarg i fs) (get-del k i fs h) (del_each_missing k is js)
  where
    under :
        (o : Option Fields)
        → OnSome (λ gs. get_kwarg k gs ≡ none) o
        → ((gs : Fields) → get_kwarg k gs ≡ none → del_each (is ++ k ∷ js) gs ≡ none)
        → bind o (del_each (is ++ k ∷ js)) ≡ none
    under none q ih = refl
    under (some gs) q ih = ih gs q
