-- ===== src/Dataflow/Memo/Same.antt =====
-- Values that are the same but for the order of their dictionaries, and their hashes
-- (parsl/dataflow/memoization.py).
use parsl.Prelude.{ℕ, Bool, ◌≡◌, ◌≢◌, refl, ap, ◌∙◌, Option, none, some, List, [], ◌∷◌, arith}
use parsl.Dataflow.Memo.Hash.{
  Bytes, Value, list, tuple, dict, Items, nil, cons, Fields, end, field, Library, bind, insert_key,
  id_for_memo, id_items, sorted_ids,
}

mutual
  pub data Same : Value → Value → Type 0 where
    alike : (v : Value) → Same v v
    lists : {xs ys : Items} → SameItems xs ys → Same (list xs) (list ys)
    tuples : {xs ys : Items} → SameItems xs ys → Same (tuple xs) (tuple ys)
    dicts : {fs gs : Fields} → SameFields fs gs → Same (dict fs) (dict gs)

  pub data SameItems : Items → Items → Type 0 where
    none_left : SameItems nil nil
    both :
        {v w : Value} {xs ys : Items}
        → Same v w
        → SameItems xs ys
        → SameItems (cons v xs) (cons w ys)

  -- Entries of two keys may change places.
  pub data SameFields : Fields → Fields → Type 0 where
    at_end : SameFields end end
    keep :
        {v w : Value} {fs gs : Fields} (k : ℕ)
        → Same v w
        → SameFields fs gs
        → SameFields (field k v fs) (field k w gs)
    swap :
        (k j : ℕ) (v w : Value) (fs : Fields)
        → k ≢ j
        → SameFields (field k v (field j w fs)) (field j w (field k v fs))
    chain : {fs gs hs : Fields} → SameFields fs gs → SameFields gs hs → SameFields fs hs

insert_key_comm :
    (k j : ℕ) (b c : Bytes) (es : List (ℕ × Bytes))
    → k ≢ j
    → insert_key k b (insert_key j c es) ≡ insert_key j c (insert_key k b es)
unfolding insert_key
insert_key_comm k j b c [] h = ground arith
insert_key_comm k j b c ((i, d) ∷ es) h = ground (arith, insert_key_comm k j b c es h)

module _ (lib : Library) where
  swap_ids :
      (k j : ℕ) (m n : Option Bytes) (o : Option (List (ℕ × Bytes)))
      → k ≢ j
      → bind m (λ b.
        bind
          (bind n (λ c. bind o (λ es. some (insert_key j c es))))
          (λ es. some (insert_key k b es)))
        ≡ bind n (λ c.
          bind
            (bind m (λ b. bind o (λ es. some (insert_key k b es))))
            (λ es. some (insert_key j c es)))
  swap_ids k j none none o h = refl
  swap_ids k j none (some c) o h = refl
  swap_ids k j (some b) none o h = refl
  swap_ids k j (some b) (some c) none h = refl
  swap_ids k j (some b) (some c) (some es) h = ap some (insert_key_comm k j b c es h)

  mutual
    unfolding id_for_memo

    pub id-Same :
        {v w : Value} (output_ref : Bool)
        → Same v w
        → id_for_memo lib v output_ref ≡ id_for_memo lib w output_ref
    id-Same r (alike v) = refl
    id-Same r (lists s) = rw (id_items-Same r s) refl
    id-Same r (tuples s) = rw (id_items-Same r s) refl
    id-Same r (dicts s) = rw (sorted_ids-Same r s) refl

    id_items-Same :
        {xs ys : Items} (output_ref : Bool)
        → SameItems xs ys
        → id_items lib xs output_ref ≡ id_items lib ys output_ref
    id_items-Same r none_left = refl
    id_items-Same r (both s t) = rw (id-Same r s, id_items-Same r t) refl

    sorted_ids-Same :
        {fs gs : Fields} (output_ref : Bool)
        → SameFields fs gs
        → sorted_ids lib fs output_ref ≡ sorted_ids lib gs output_ref
    sorted_ids-Same r at_end = refl
    sorted_ids-Same r (keep k s t) = rw (id-Same r s, sorted_ids-Same r t) refl
    sorted_ids-Same r (swap k j v w fs h) =
        swap_ids k j (id_for_memo lib v r) (id_for_memo lib w r) (sorted_ids lib fs r) h
    sorted_ids-Same r (chain s t) = sorted_ids-Same r s ∙ sorted_ids-Same r t

  -- Values that are the same but for the order of the entries of dictionaries, at any depth, have the
  -- same identification, and it is an exception for both or for neither.
  pub id_for_memo-Same :
      {v w : Value} (output_ref : Bool)
      → Same v w
      → id_for_memo lib v output_ref ≡ id_for_memo lib w output_ref
  id_for_memo-Same output_ref s = id-Same output_ref s
