-- ===== src/Dataflow/Memo/Reuse.antt =====
-- The lookup table of the Memoizer as a map, and the reuse of results (parsl/dataflow/memoization.py).
use parsl.Prelude.{
  ℕ, true, ◌≡◌, refl, sym, ap, ◌∙◌, Option, some, [], ◌∷◌, ◌==◌, if◌then◌else◌, arith, ==_iff,
}
use parsl.Dataflow.Memo.Hash.{Library, MemoTask, hash, make_hash, Items, list, tuple}
use parsl.Dataflow.Memo.Calls.{SameCall, make_hash-SameCall}
use parsl.Dataflow.Memo.Memoizer.{Memoizer, Future, Table, lookup, store, check_memo, update_memo}

pub lookup-store :
    (h j : ℕ) (r : Future) (table : Table)
    → lookup j (store h r table) ≡ (if h == j then some r else lookup j table)
unfolding lookup store
lookup-store h j r [] = refl
lookup-store h j r ((i, q) ∷ table) = ground (arith, lookup-store h j r table)

lookup-store_self : (h : ℕ) (r : Future) (table : Table) → lookup h (store h r table) ≡ some r
lookup-store_self h r table = lookup-store h h r table ∙ rw ((==_iff h h).1 refl) refl

pub update_memo_on :
    (memoizer : Memoizer) (t : MemoTask) (r : Future) (h : ℕ)
    → memoizer.memoize ≡ true
    → t.memoize ≡ true
    → t.hashsum ≡ hash h
    → update_memo t r memoizer
      ≡ record memoizer { memo_lookup_table = store h r memoizer.memo_lookup_table }
unfolding update_memo
update_memo_on memoizer t r h on m e = simp (on, m, e)

module _ (lib : Library) where
  check_memo_on :
      (memoizer : Memoizer) (t : MemoTask) (h : ℕ)
      → memoizer.memoize ≡ true
      → t.memoize ≡ true
      → make_hash lib t ≡ some h
      → check_memo lib memoizer t
        ≡ some (record t { hashsum = hash h }, lookup h memoizer.memo_lookup_table)
  unfolding check_memo
  check_memo_on memoizer t h on m e = simp (on, m, e)

  -- With memoization on, for the kernel and for both calls, where both have the hash `h`: the hash is
  -- put into the first task; and once that has finished, the second call is given what the future of
  -- the first one holds, a result or an exception.
  pub same_hash_reuses :
      (memoizer : Memoizer) (t u : MemoTask) (r : Future) (h : ℕ)
      → memoizer.memoize ≡ true
      → t.memoize ≡ true
      → u.memoize ≡ true
      → make_hash lib t ≡ some h
      → make_hash lib u ≡ some h
      → (t' : MemoTask) × (found : Option Future) × (check_memo lib memoizer t ≡ some (t', found))
        × (check_memo lib (update_memo t' r memoizer) u
            ≡ some (record u { hashsum = hash h }, some r))
  same_hash_reuses memoizer t u r h on mt mu et eu = (
    record t { hashsum = hash h },
    lookup h memoizer.memo_lookup_table,
    check_memo_on memoizer t h on mt et,
    rw (update_memo_on memoizer (record t { hashsum = hash h }) r h on mt refl) (
        check_memo_on (record memoizer { memo_lookup_table = store h r memoizer.memo_lookup_table })
          u h on mu eu
        ∙ ap (λ o. some (record u { hashsum = hash h }, o))
            (lookup-store_self h r memoizer.memo_lookup_table)),
  )

  -- With memoization on, a call that is the same as an earlier one, but for the order of the kwargs and
  -- of the entries of dictionaries, is given what the future of the earlier one holds, where the hash
  -- of the earlier call is made.
  pub SameCall-reuses :
      (memoizer : Memoizer) (t u : MemoTask) (r : Future) (h : ℕ)
      → memoizer.memoize ≡ true
      → t.memoize ≡ true
      → u.memoize ≡ true
      → SameCall t u
      → make_hash lib t ≡ some h
      → (t' : MemoTask) × (found : Option Future) × (check_memo lib memoizer t ≡ some (t', found))
        × (check_memo lib (update_memo t' r memoizer) u
            ≡ some (record u { hashsum = hash h }, some r))
  SameCall-reuses memoizer t u r h on mt mu s e =
      same_hash_reuses memoizer t u r h on mt mu e (sym (make_hash-SameCall lib t u s) ∙ e)

  -- With memoization on, a call whose arguments are in a tuple is given what the future of an earlier
  -- call holds that differs only in having them in a list, where the hash of that call is made.
  pub tuple_reuses_list :
      (memoizer : Memoizer) (t : MemoTask) (xs : Items) (r : Future) (h : ℕ)
      → memoizer.memoize ≡ true
      → t.memoize ≡ true
      → make_hash lib (record t { args = list xs }) ≡ some h
      → (t' : MemoTask) × (found : Option Future) × (check_memo lib memoizer
            (record t { args = list xs })
          ≡ some (t', found))
        × (check_memo lib (update_memo t' r memoizer) (record t { args = tuple xs })
            ≡ some (record t { args = tuple xs; hashsum = hash h }, some r))
  unfolding make_hash
  tuple_reuses_list memoizer t xs r h on m e =
      same_hash_reuses memoizer (record t { args = list xs }) (record t { args = tuple xs }) r h on
        m m e e
