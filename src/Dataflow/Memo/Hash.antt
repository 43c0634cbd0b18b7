-- ===== src/Dataflow/Memo/Hash.antt =====
-- The hash of a call in parsl/dataflow/memoization.py: `id_for_memo` and `make_hash`. `none` is an
-- exception: a ValueError of `id_for_memo`, or a KeyError of `del`.
use parsl.Prelude.{
  ℕ, Bool, true, false, Option, none, some, List, [], ◌∷◌, ◌++◌, ltb, ◌==◌, if◌then◌else◌,
}

abbrev pub Bytes : Type 0
Bytes = List ℕ

-- The values that are hashed. A `plain` value is a str, int, float or None, and a number stands for
-- it: the numbers are in the order in which `sorted` puts the keys of a dictionary, each plain too.
-- A `registered` value has a type for which other modules register `id_for_memo`, or none.
mutual
  pub data Value : Type 0 where
    plain : ℕ → Value
    list tuple : Items → Value
    dict : Fields → Value
    function : (name module_name : ℕ) → Value
    subclass_instance : Value
    registered : ℕ → Value

  pub data Items : Type 0 where
    nil : Items
    cons : Value → Items → Items

  pub data Fields : Type 0 where
    end : Fields
    field : ℕ → Value → Fields → Fields

-- What `pickle.dumps` is called with.
pub data Picklable : Type 0 where
  scalar : ℕ → Picklable
  byte_strings : List Bytes → Picklable
  function_name : (name module_name : ℕ) → Picklable

-- `pickle.dumps`, `hashlib.md5(x).hexdigest()` (its text as a number), the functions that are
-- registered for other types, and the number of the text `outputs`.
pub record Library : Type 0 where
  pub dumps : Picklable → Bytes
  pub hexdigest : Bytes → ℕ
  pub registered_id : ℕ → Bool → Option Bytes
  pub outputs : ℕ

abbrev pub bind {ℓ κ} : {A : Type ℓ} {B : Type κ} → Option A → (A → Option B) → Option B
bind none f = none
bind (some x) f = f x

-- One step of `sorted`: the entry of a key goes before those of larger keys.
unfoldable pub insert_key : ℕ → Bytes → List (ℕ × Bytes) → List (ℕ × Bytes)
insert_key k b [] = (k, b) ∷ []
insert_key k b ((j, c) ∷ es) = if ltb j k then (j, c) ∷ insert_key k b es else (k, b) ∷ (j, c) ∷ es

module _ (lib : Library) where
  abbrev pub normalized : List (ℕ × Bytes) → List Bytes
  normalized [] = []
  normalized ((k, b) ∷ es) = lib.dumps (scalar k) ∷ b ∷ normalized es

  -- The values of a dictionary are identified before its keys are sorted, and not after: that makes
  -- no difference, since the identification changes nothing.
  unfoldable mutual
    unfolding insert_key

    pub id_for_memo : Value → Bool → Option Bytes
    id_for_memo (plain n) output_ref = some (lib.dumps (scalar n))
    id_for_memo (list xs) output_ref =
        bind (id_items xs output_ref) (λ bs. some (lib.dumps (byte_strings bs)))
    id_for_memo (tuple xs) output_ref =
        bind (id_items xs output_ref) (λ bs. some (lib.dumps (byte_strings bs)))
    id_for_memo (dict fs) output_ref =
        bind (sorted_ids fs output_ref) (λ es. some (lib.dumps (byte_strings (normalized es))))
    id_for_memo (function f m) output_ref = some (lib.dumps (function_name f m))
    id_for_memo subclass_instance output_ref = none
    id_for_memo (registered n) output_ref = lib.registered_id n output_ref

    pub id_items : Items → Bool → Option (List Bytes)
    id_items nil output_ref = some []
    id_items (cons x xs) output_ref =
        bind (id_for_memo x output_ref) (λ b. bind (id_items xs output_ref) (λ bs. some (b ∷ bs)))

    pub sorted_ids : Fields → Bool → Option (List (ℕ × Bytes))
    sorted_ids end output_ref = some []
    sorted_ids (field k v fs) output_ref =
        bind (id_for_memo v output_ref)
          λ b. bind (sorted_ids fs output_ref) λ es. some (insert_key k b es)

-- `d.get(k)` and `del d[k]` of a dictionary.
unfoldable pub get_kwarg : ℕ → Fields → Option Value
get_kwarg k end = none
get_kwarg k (field j v fs) = if j == k then some v else get_kwarg k fs

unfoldable pub del_kwarg : ℕ → Fields → Option Fields
del_kwarg k end = none
del_kwarg k (field j v fs) =
    if j == k then some fs else bind (del_kwarg k fs) (λ rest. some (field j v rest))

unfoldable pub del_each : List ℕ → Fields → Option Fields
unfolding del_kwarg
del_each [] fs = some fs
del_each (k ∷ ks) fs = bind (del_kwarg k fs) (del_each ks)

-- `task['hashsum']`: `submit` sets it to None, and `check_memo` to None or to a hash.
pub data Hashsum : Type 0 where
  no_hash : Hashsum
  hash : ℕ → Hashsum

-- The fields of a task's record that the memoizer reads.
pub record MemoTask : Type 0 where
  pub func : Value
  pub args : Value
  pub kwargs : Fields
  pub memoize : Bool
  pub ignore_for_cache : List ℕ
  pub hashsum : Hashsum

module _ (lib : Library) where
  -- The outputs go first, identified as output references, and out of the other kwargs.
  unfoldable pub split_outputs : Option Value → Fields → Option (Bytes × Fields)
  unfolding id_for_memo del_kwarg
  split_outputs none filtered_kw = some ([], filtered_kw)
  split_outputs (some v) filtered_kw =
      bind (del_kwarg lib.outputs filtered_kw)
        λ rest. bind (id_for_memo lib v true) λ b. some (b, rest)

  unfoldable pub make_hash : MemoTask → Option ℕ
  unfolding split_outputs del_each get_kwarg id_for_memo
  make_hash task = bind (del_each task.ignore_for_cache task.kwargs) λ filtered_kw.
      bind (split_outputs (get_kwarg lib.outputs task.kwargs) filtered_kw) λ (t, kw).
        bind (id_for_memo lib (dict kw) false) λ kw_id.
          bind (id_for_memo lib task.func false) λ func_id.
            bind (id_for_memo lib task.args false)
              λ args_id. some (lib.hexdigest (t ++ kw_id ++ func_id ++ args_id))
