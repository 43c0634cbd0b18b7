-- ===== src/Htex/Interchange/Selectors.antt =====
-- BlockIdManagerSelector of parsl/executors/high_throughput/manager_selector.py. RandomManagerSelector
-- shuffles with the standard library, and is one of the selectors that the theorems quantify over.
use parsl.Prelude.{
  ℕ, ◌≤◌, Bool, true, false, ◌≡◌, refl, Option, none, some, List, [], ◌∷◌, leb, ◌==◌, if◌then◌else◌,
  arith, All, Bool-cases, inl, inr, leb→le, leb→gt, ◌∙◌, ap, sym,
}
use parsl.Htex.Interchange.State.{ManagerRecord, Managers, get_manager, has}
use parsl.Htex.Interchange.Dispatch.{Selector}
use parsl.Htex.Interchange.Tables.{NoDup}
use parsl.Htex.Interchange.Turns.Tasks.{not_here}
use parsl.Htex.Interchange.Turns.Loops.{IsSelector}

-- The block id of a registered manager. The source has a KeyError for any other one, of which none
-- is interesting in a sound state.
abbrev pub block_id_of : Option ManagerRecord → ℕ
block_id_of none = 0
block_id_of (some m) = m.block_id

-- The source compares the block ids, strings, with `None` before them; a registered manager's is a
-- string. `rank` is the place of a block id in that order.
module _ (rank : ℕ → ℕ) where
  abbrev pub key_of : Managers → ℕ → ℕ
  key_of ms k = rank (block_id_of (get_manager k ms))

  -- `sorted` keeps the order of managers of one block.
  unfoldable pub insert_by_block : Managers → ℕ → List ℕ → List ℕ
  unfolding get_manager
  insert_by_block ms k [] = k ∷ []
  insert_by_block ms k (j ∷ js) =
      if leb (key_of ms k) (key_of ms j) then k ∷ j ∷ js else j ∷ insert_by_block ms k js

  unfoldable pub sort_by_block : Selector
  unfolding insert_by_block
  sort_by_block ms [] = []
  sort_by_block ms (k ∷ ks) = insert_by_block ms k (sort_by_block ms ks)

  -- No manager of a later block stands before one of an earlier block.
  abbrev pub Ascending : Managers → List ℕ → Type 0
  Ascending ms [] = Unit
  Ascending ms (k ∷ ks) = All (λ j. key_of ms k ≤ key_of ms j) ks × Ascending ms ks

  has-insert_by_block :
      (ms : Managers) (j k : ℕ) (ks : List ℕ)
      → has j (insert_by_block ms k ks) ≡ (if k == j then true else has j ks)
  unfolding has insert_by_block
  has-insert_by_block ms j k [] = refl
  has-insert_by_block ms j k (i ∷ ks) = elim (Bool-cases (leb (key_of ms k) (key_of ms i))) [
    | inl l ↦ rw l refl
    | inr l ↦ rw l (
        ap (λ b. if i == j then true else b) (has-insert_by_block ms j k ks)
        ∙ swap (i == j) (k == j) (has j ks))
  ]
    where
      swap :
          (a b c : Bool)
          → (if a then true else if b then true else c)
            ≡ (if b then true else if a then true else c)
      swap true true c = refl
      swap true false c = refl
      swap false true c = refl
      swap false false c = refl

  insert_by_block-NoDup :
      (ms : Managers) (k : ℕ) (ks : List ℕ)
      → has k ks ≡ false
      → NoDup ks
      → NoDup (insert_by_block ms k ks)
  unfolding insert_by_block
  insert_by_block-NoDup ms k [] h d = (h, tt)
  insert_by_block-NoDup ms k (i ∷ ks) h d = elim (Bool-cases (leb (key_of ms k) (key_of ms i))) [
    | inl l ↦ rw l (h, d)
    | inr l ↦
        let (other, rest) = not_here k i ks h in
        rw l (has-insert_by_block ms i k ks ∙ rw other d.0, insert_by_block-NoDup ms k ks rest d.1)
  ]

  All-insert_by_block :
      (ms : Managers) (n k : ℕ) (ks : List ℕ)
      → n ≤ key_of ms k
      → All (λ j. n ≤ key_of ms j) ks
      → All (λ j. n ≤ key_of ms j) (insert_by_block ms k ks)
  unfolding insert_by_block
  All-insert_by_block ms n k [] h a = (h, tt)
  All-insert_by_block ms n k (i ∷ ks) h a = elim (Bool-cases (leb (key_of ms k) (key_of ms i))) [
    | inl l ↦ rw l (h, a)
    | inr l ↦ rw l (a.0, All-insert_by_block ms n k ks h a.1)
  ]

  All-weaken :
      (ms : Managers) (m n : ℕ) (ks : List ℕ)
      → m ≤ n
      → All (λ j. n ≤ key_of ms j) ks
      → All (λ j. m ≤ key_of ms j) ks
  All-weaken ms m n [] h a = tt
  All-weaken ms m n (i ∷ ks) h a = (let least = a.0 in omega arith, All-weaken ms m n ks h a.1)

  insert_by_block-Ascending :
      (ms : Managers) (k : ℕ) (ks : List ℕ)
      → Ascending ms ks
      → Ascending ms (insert_by_block ms k ks)
  unfolding insert_by_block
  insert_by_block-Ascending ms k [] a = (tt, tt)
  insert_by_block-Ascending ms k (i ∷ ks) a = elim (Bool-cases (leb (key_of ms k) (key_of ms i))) [
    | inl l ↦
        let first = leb→le _ _ l in
        rw l ((first, All-weaken ms (key_of ms k) (key_of ms i) ks first a.0), a)
    | inr l ↦
        let later = leb→gt _ _ l in
        rw l (
          All-insert_by_block ms (key_of ms i) k ks (omega arith) a.0,
          insert_by_block-Ascending ms k ks a.1,
        )
  ]

  has-sort_by_block : (ms : Managers) (j : ℕ) (ks : List ℕ) → has j (sort_by_block ms ks) ≡ has j ks
  unfolding sort_by_block has
  has-sort_by_block ms j [] = refl
  has-sort_by_block ms j (k ∷ ks) =
      has-insert_by_block ms j k (sort_by_block ms ks)
      ∙ ap (λ b. if k == j then true else b) (has-sort_by_block ms j ks)

  -- Sorting managers, each given once, by their blocks: each of them is in the result once, no other
  -- one is, and none stands before a manager of an earlier block.
  pub sort_by_block_orders :
      (ms : Managers) (ks : List ℕ)
      → NoDup ks
      → NoDup (sort_by_block ms ks)
        × ((j : ℕ) → has j (sort_by_block ms ks) ≡ has j ks)
        × Ascending ms (sort_by_block ms ks)
  unfolding sort_by_block
  sort_by_block_orders ms [] d = (tt, λ j. refl, tt)
  sort_by_block_orders ms (k ∷ ks) d =
      let (distinct, members, ordered) = sort_by_block_orders ms ks d.1 in
      (
        insert_by_block-NoDup ms k (sort_by_block ms ks) (members k ∙ d.0) distinct,
        λ j. has-sort_by_block ms j (k ∷ ks),
        insert_by_block-Ascending ms k (sort_by_block ms ks) ordered,
      )

  pub sort_by_block-IsSelector : IsSelector sort_by_block
  sort_by_block-IsSelector = record {
    distinct = λ ms js d. (sort_by_block_orders ms js d).0;
    among = λ ms js j h. sym (has-sort_by_block ms j js) ∙ h;
  }
