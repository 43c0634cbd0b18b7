-- ===== src/Dataflow/Memo/Calls.antt =====
-- The hashes of calls that are the same but for the order of dictionaries, and of calls that differ in
-- kwargs that are ignored for the cache (parsl/dataflow/memoization.py, make_hash).
use parsl.Prelude.{
  ℕ, Bool, true, false, ◌≡◌, ◌≢◌, refl, sym, ◌∙◌, Option, none, some, List, [], ◌∷◌, ◌==◌,
  if◌then◌else◌, Bool-cases, inl, inr, ==_iff,
}
use parsl.Dataflow.Memo.Hash.{
  Bytes, Value, Fields, end, field, Library, bind, id_for_memo, get_kwarg, del_kwarg, del_each,
  MemoTask, make_hash, split_outputs,
}
use parsl.Dataflow.Memo.Same.{
  Same, alike, dicts, SameFields, at_end, keep, swap, chain, id_for_memo-Same,
}

abbrev BothOr {ℓ} : {A : Type ℓ} → (A → A → Type 0) → Option A → Option A → Type 0
BothOr R none none = Unit
BothOr R none (some b) = ⊥
BothOr R (some a) none = ⊥
BothOr R (some a) (some b) = R a b

BothOr-chain :
    (o p q : Option Fields) → BothOr SameFields o p → BothOr SameFields p q → BothOr SameFields o q
BothOr-chain none none none s t = tt
BothOr-chain none none (some _) s t = absurd t
BothOr-chain none (some _) q s t = absurd s
BothOr-chain (some _) none q s t = absurd s
BothOr-chain (some _) (some _) none s t = absurd t
BothOr-chain (some _) (some _) (some _) s t = chain s t

SameFields_refl : (fs : Fields) → SameFields fs fs
SameFields_refl end = at_end
SameFields_refl (field k v fs) = keep k (alike v) (SameFields_refl fs)

BothOr-refl : (o : Option Fields) → BothOr SameFields o o
BothOr-refl none = tt
BothOr-refl (some fs) = SameFields_refl fs

keep_if :
    (k : ℕ) {v w : Value} {fs gs : Fields} (b : Bool) (o p : Option Fields)
    → Same v w
    → SameFields fs gs
    → BothOr SameFields o p
    → BothOr SameFields
        (if b then some fs else bind o (λ r. some (field k v r)))
        (if b then some gs else bind p (λ r. some (field k w r)))
keep_if k true o p s t h = t
keep_if k false none none s t h = tt
keep_if k false none (some _) s t h = absurd h
keep_if k false (some _) none s t h = absurd h
keep_if k false (some _) (some _) s t h = keep k s h

swap_if :
    (i k j : ℕ) (v w : Value) (fs : Fields) (o : Option Fields)
    → k ≢ j
    → BothOr SameFields
        (if k == i
          then some (field j w fs)
          else bind
              (if j == i then some fs else bind o (λ r. some (field j w r)))
              (λ r. some (field k v r)))
        (if j == i
          then some (field k v fs)
          else bind
              (if k == i then some fs else bind o (λ r. some (field k v r)))
              (λ r. some (field j w r)))
swap_if i k j v w fs o h = elim (Bool-cases (k == i)) [
  | inl e ↦ elim (Bool-cases (j == i)) [
    | inl d ↦ absurd (h ((==_iff k i).0 e ∙ sym ((==_iff j i).0 d)))
    | inr d ↦ rw (e, d) (SameFields_refl (field j w fs))
  ]
  | inr e ↦ elim (Bool-cases (j == i)) [
    | inl d ↦ rw (e, d) (SameFields_refl (field k v fs))
    | inr d ↦ rw (e, d) (under o)
  ]
]
  where
    under :
        (p : Option Fields)
        → BothOr SameFields
            (bind (bind p (λ r. some (field j w r))) (λ r. some (field k v r)))
            (bind (bind p (λ r. some (field k v r))) (λ r. some (field j w r)))
    under none = tt
    under (some r) = swap k j v w r h

del_kwarg-Same :
    (i : ℕ) {fs gs : Fields}
    → SameFields fs gs
    → BothOr SameFields (del_kwarg i fs) (del_kwarg i gs)
unfolding del_kwarg
del_kwarg-Same i at_end = tt
del_kwarg-Same i (keep {fs = fs} {gs = gs} k s t) =
    keep_if k (k == i) (del_kwarg i fs) (del_kwarg i gs) s t (del_kwarg-Same i t)
del_kwarg-Same i (swap k j v w fs h) = swap_if i k j v w fs (del_kwarg i fs) h
del_kwarg-Same i (chain {fs = fs} {gs = gs} {hs = hs} s t) =
    BothOr-chain (del_kwarg i fs) (del_kwarg i gs) (del_kwarg i hs) (del_kwarg-Same i s)
      (del_kwarg-Same i t)

bind-BothOr :
    (f : Fields → Option Fields) (o p : Option Fields)
    → ((fs gs : Fields) → SameFields fs gs → BothOr SameFields (f fs) (f gs))
    → BothOr SameFields o p
    → BothOr SameFields (bind o f) (bind p f)
bind-BothOr f none none g h = tt
bind-BothOr f none (some _) g h = absurd h
bind-BothOr f (some _) none g h = absurd h
bind-BothOr f (some fs) (some gs) g h = g fs gs h

del_each-Same :
    (ks : List ℕ) (fs gs : Fields)
    → SameFields fs gs
    → BothOr SameFields (del_each ks fs) (del_each ks gs)
unfolding del_each
del_each-Same [] fs gs s = s
del_each-Same (k ∷ ks) fs gs s =
    bind-BothOr (del_each ks) (del_kwarg k fs) (del_kwarg k gs) (del_each-Same ks)
      (del_kwarg-Same k s)

bind-eq :
    {A B : Type 0} (R : A → A → Type 0) (f g : A → Option B) (o p : Option A)
    → BothOr R o p
    → ((a b : A) → R a b → f a ≡ g b)
    → bind o f ≡ bind p g
bind-eq R f g none none h e = refl
bind-eq R f g none (some b) h e = absurd h
bind-eq R f g (some a) none h e = absurd h
bind-eq R f g (some a) (some b) h e = e a b h

-- The same function, arguments and kwargs, but for the order of dictionaries, and the same ignored ones.
pub record SameCall (t u : MemoTask) : Type 0 where
  pub func : t.func ≡ u.func
  pub args : Same t.args u.args
  pub kwargs : SameFields t.kwargs u.kwargs
  pub ignored : t.ignore_for_cache ≡ u.ignore_for_cache

module _ (lib : Library) where
  abbrev AsOutputs : Option Value → Option Value → Type 0
  AsOutputs = BothOr (λ v w. id_for_memo lib v true ≡ id_for_memo lib w true)

  AsOutputs-chain : (o p q : Option Value) → AsOutputs o p → AsOutputs p q → AsOutputs o q
  AsOutputs-chain none none none s t = tt
  AsOutputs-chain none none (some _) s t = absurd t
  AsOutputs-chain none (some _) q s t = absurd s
  AsOutputs-chain (some _) none q s t = absurd s
  AsOutputs-chain (some _) (some _) none s t = absurd t
  AsOutputs-chain (some _) (some _) (some _) s t = s ∙ t

  AsOutputs-refl : (o : Option Value) → AsOutputs o o
  AsOutputs-refl none = tt
  AsOutputs-refl (some v) = refl

  AsOutputs-if :
      (b : Bool) {v w : Value} (o p : Option Value)
      → Same v w
      → AsOutputs o p
      → AsOutputs (if b then some v else o) (if b then some w else p)
  AsOutputs-if true o p s h = id_for_memo-Same lib true s
  AsOutputs-if false o p s h = h

  get_kwarg-Same :
      (i : ℕ) {fs gs : Fields} → SameFields fs gs → AsOutputs (get_kwarg i fs) (get_kwarg i gs)
  unfolding get_kwarg
  get_kwarg-Same i at_end = tt
  get_kwarg-Same i (keep {fs = fs} {gs = gs} k s t) =
      AsOutputs-if (k == i) (get_kwarg i fs) (get_kwarg i gs) s (get_kwarg-Same i t)
  get_kwarg-Same i (swap k j v w fs h) = elim (Bool-cases (k == i)) [
    | inl e ↦ elim (Bool-cases (j == i)) [
      | inl d ↦ absurd (h ((==_iff k i).0 e ∙ sym ((==_iff j i).0 d)))
      | inr d ↦ rw (e, d) refl
    ]
    | inr e ↦ rw e (AsOutputs-refl (if j == i then some w else get_kwarg i fs))
  ]
  get_kwarg-Same i (chain {fs = fs} {gs = gs} {hs = hs} s t) =
      AsOutputs-chain (get_kwarg i fs) (get_kwarg i gs) (get_kwarg i hs) (get_kwarg-Same i s)
        (get_kwarg-Same i t)

  abbrev SplitAlike : Option (Bytes × Fields) → Option (Bytes × Fields) → Type 0
  SplitAlike = BothOr (λ a b. (a.0 ≡ b.0) × SameFields a.1 b.1)

  prefix-SplitAlike :
      (m n : Option Bytes) (fs gs : Fields)
      → m ≡ n
      → SameFields fs gs
      → SplitAlike (bind m (λ b. some (b, fs))) (bind n (λ b. some (b, gs)))
  prefix-SplitAlike none none fs gs e s = tt
  prefix-SplitAlike none (some c) fs gs e s = cc
  prefix-SplitAlike (some b) none fs gs e s = cc
  prefix-SplitAlike (some b) (some c) fs gs e s = (cc, s)

  rest-SplitAlike :
      (m n : Option Bytes) (o p : Option Fields)
      → m ≡ n
      → BothOr SameFields o p
      → SplitAlike
          (bind o (λ r. bind m (λ b. some (b, r))))
          (bind p (λ r. bind n (λ b. some (b, r))))
  rest-SplitAlike m n none none e h = tt
  rest-SplitAlike m n none (some _) e h = absurd h
  rest-SplitAlike m n (some _) none e h = absurd h
  rest-SplitAlike m n (some fs) (some gs) e h = prefix-SplitAlike m n fs gs e h

  split_outputs-Same :
      (o p : Option Value) {fs gs : Fields}
      → AsOutputs o p
      → SameFields fs gs
      → SplitAlike (split_outputs lib o fs) (split_outputs lib p gs)
  unfolding split_outputs
  split_outputs-Same none none h s = (refl, s)
  split_outputs-Same none (some _) h s = absurd h
  split_outputs-Same (some _) none h s = absurd h
  split_outputs-Same (some v) (some w) {fs} {gs} h s =
      rest-SplitAlike (id_for_memo lib v true) (id_for_memo lib w true) (del_kwarg lib.outputs fs)
        (del_kwarg lib.outputs gs) h (del_kwarg-Same lib.outputs s)

  -- Two calls of one function with the same arguments and kwargs, but for the order of the entries of
  -- dictionaries and of the kwargs, have the same hash, or both raise an exception.
  pub make_hash-SameCall : (t u : MemoTask) → SameCall t u → make_hash lib t ≡ make_hash lib u
  unfolding make_hash
  make_hash-SameCall t u s = rw s.ignored (
      rw s.func (
        rw (id_for_memo-Same lib false s.args) (
          bind-eq SameFields _ _ (del_each u.ignore_for_cache t.kwargs)
            (del_each u.ignore_for_cache u.kwargs)
            (del_each-Same u.ignore_for_cache t.kwargs u.kwargs s.kwargs)
            λ fs gs r.
              bind-eq (λ a b. (a.0 ≡ b.0) × SameFields a.1 b.1) _ _ _ _
                (split_outputs-Same (get_kwarg lib.outputs t.kwargs)
                  (get_kwarg lib.outputs u.kwargs) (get_kwarg-Same lib.outputs s.kwargs) r)
                λ a b h. rw (h.0, id_for_memo-Same lib false (dicts h.1)) refl)))
