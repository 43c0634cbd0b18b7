-- ===== src/Jobs/Poller/Tables.antt =====
-- What the poller's turns keep of the tables of parsl/executors/status_handling.py.
use mathlib.Core.Option.{some-injective}
use parsl.Prelude.{
  ℕ, zero, suc, ◌+◌, ◌≤◌, ◌<◌, ◌≡◌, refl, ◌∙◌, Option, none, some, List, [], ◌∷◌, ◌==◌, false,
  arith, Bool-cases, inl, inr, subst, map, All,
}
use parsl.Jobs.States.{JobState, pending, failed, scaled_in}
use parsl.Jobs.Blocks.{
  get_entry, put_entry, update, Statuses, BlockProviderExecutor, start_block, start_blocks,
  mark_scaled_in, active_blocks, zip_statuses,
}
use parsl.Jobs.Blocks.Scaling.{AllBelow, Distinct, get_entry-put}

pub AllBelow-up : {A : Type 0} (n m : ℕ) (d : List (ℕ × A)) → n ≤ m → AllBelow n d → AllBelow m d
AllBelow-up n m [] h b = tt
AllBelow-up n m ((k, v) ∷ d) h b = (let first = b.0 in omega arith, AllBelow-up n m d h b.1)

pub AllBelow-put_entry :
    {A : Type 0} (n k : ℕ) (v : A) (d : List (ℕ × A))
    → k < n
    → AllBelow n d
    → AllBelow n (put_entry k v d)
unfolding put_entry
AllBelow-put_entry n k v [] h b = (h, tt)
AllBelow-put_entry n k v ((j, w) ∷ d) h b = elim (Bool-cases (j == k)) [
  | inl e ↦ rw e b
  | inr e ↦ rw e (b.0, AllBelow-put_entry n k v d h b.1)
]

-- The values of a table, each below a number.
abbrev pub ValuesBelow : ℕ → List (ℕ × ℕ) → Type 0
ValuesBelow n [] = Unit
ValuesBelow n ((k, v) ∷ d) = (v < n) × ValuesBelow n d

pub ValuesBelow-up : (n m : ℕ) (d : List (ℕ × ℕ)) → n ≤ m → ValuesBelow n d → ValuesBelow m d
ValuesBelow-up n m [] h b = tt
ValuesBelow-up n m ((k, v) ∷ d) h b = (let first = b.0 in omega arith, ValuesBelow-up n m d h b.1)

pub ValuesBelow-put_entry :
    (n k v : ℕ) (d : List (ℕ × ℕ)) → v < n → ValuesBelow n d → ValuesBelow n (put_entry k v d)
unfolding put_entry
ValuesBelow-put_entry n k v [] h b = (h, tt)
ValuesBelow-put_entry n k v ((j, w) ∷ d) h b = elim (Bool-cases (j == k)) [
  | inl e ↦ rw e (h, b.1)
  | inr e ↦ rw e (b.0, ValuesBelow-put_entry n k v d h b.1)
]

Distinct-put_entry : (k : ℕ) (s : JobState) (d : Statuses) → Distinct d → Distinct (put_entry k s d)
unfolding put_entry get_entry
Distinct-put_entry k s [] u = (refl, tt)
Distinct-put_entry k s ((j, t) ∷ d) u = elim (Bool-cases (j == k)) [
  | inl e ↦ rw e u
  | inr e ↦ rw e (
    get_entry-put j k s d
        ∙ (let first = u.0 in let other : (k == j) ≡ false = ground arith in rw other first),
    Distinct-put_entry k s d u.1,
  )
]

pub Distinct-update : (d e : Statuses) → Distinct d → Distinct (update d e)
unfolding update
Distinct-update d [] u = u
Distinct-update d ((k, s) ∷ e) u = Distinct-update (put_entry k s d) e (Distinct-put_entry k s d u)

pub AllBelow-update :
    (n : ℕ) (d e : Statuses) → AllBelow n d → AllBelow n e → AllBelow n (update d e)
unfolding update
AllBelow-update n d [] b c = b
AllBelow-update n d ((k, s) ∷ e) b c =
    AllBelow-update n (put_entry k s d) e (AllBelow-put_entry n k s d c.0 b) c.1

-- A table of statuses made by `_make_status_dict` has each key once, and its keys among the ids.
pub zip_sound :
    (n : ℕ) (jobs : List (ℕ × ℕ)) (ss : List JobState) (d r : Statuses)
    → AllBelow n jobs
    → Distinct d
    → AllBelow n d
    → zip_statuses (map (λ (e : ℕ × ℕ). e.0) jobs) ss d ≡ some r
    → Distinct r × AllBelow n r
unfolding zip_statuses
zip_sound n [] [] d r b u c h =
    (subst Distinct (some-injective _ _ h) u, subst (AllBelow n) (some-injective _ _ h) c)
zip_sound n [] (s ∷ ss) d r b u c h = cc
zip_sound n ((k, j) ∷ jobs) [] d r b u c h = cc
zip_sound n ((k, j) ∷ jobs) (s ∷ ss) d r b u c h =
    zip_sound n jobs ss (put_entry k s d) r b.1 (Distinct-put_entry k s d u)
      (AllBelow-put_entry n k s d b.0 c) h

-- The tables of an executor: every id in them was given to a block.
pub record Known (ex : BlockProviderExecutor) : Type 0 where
  pub statuses : AllBelow ex.next_block_id ex.status
  pub simulated : AllBelow ex.next_block_id ex.simulated_status
  pub blocks : AllBelow ex.next_block_id ex.blocks_to_job_id
  pub jobs : ValuesBelow ex.next_block_id ex.job_ids_to_block

pub start_block-Known :
    (o : Option ℕ) (ex : BlockProviderExecutor) → Known ex → Known (start_block o ex)
unfolding start_block
start_block-Known none ex w =
    let n = ex.next_block_id in
    record {
      statuses =
          AllBelow-put_entry (n + 1) n failed ex.status (omega arith)
            (AllBelow-up n (n + 1) ex.status (omega arith) w.statuses);
      simulated =
          AllBelow-put_entry (n + 1) n failed ex.simulated_status (omega arith)
            (AllBelow-up n (n + 1) ex.simulated_status (omega arith) w.simulated);
      blocks = AllBelow-up n (n + 1) ex.blocks_to_job_id (omega arith) w.blocks;
      jobs = ValuesBelow-up n (n + 1) ex.job_ids_to_block (omega arith) w.jobs;
    }
start_block-Known (some job) ex w =
    let n = ex.next_block_id in
    record {
      statuses =
          AllBelow-put_entry (n + 1) n pending ex.status (omega arith)
            (AllBelow-up n (n + 1) ex.status (omega arith) w.statuses);
      simulated = AllBelow-up n (n + 1) ex.simulated_status (omega arith) w.simulated;
      blocks =
          AllBelow-put_entry (n + 1) n job ex.blocks_to_job_id (omega arith)
            (AllBelow-up n (n + 1) ex.blocks_to_job_id (omega arith) w.blocks);
      jobs =
          ValuesBelow-put_entry (n + 1) job n ex.job_ids_to_block (omega arith)
            (ValuesBelow-up n (n + 1) ex.job_ids_to_block (omega arith) w.jobs);
    }

pub start_blocks-Known :
    (submit : ℕ → Option ℕ) (n : ℕ) (ex : BlockProviderExecutor)
    → Known ex
    → Known (start_blocks submit n ex)
unfolding start_blocks
start_blocks-Known submit zero ex w = w
start_blocks-Known submit (suc n) ex w =
    start_blocks-Known submit n (start_block (submit ex.next_block_id) ex)
      (start_block-Known (submit ex.next_block_id) ex w)

scaled_in-counts :
    (k : ℕ) (d : Statuses) → active_blocks (put_entry k scaled_in d) ≤ active_blocks d
unfolding active_blocks put_entry
scaled_in-counts k [] = omega arith
scaled_in-counts k ((j, s) ∷ d) = elim (Bool-cases (j == k)) [
  | inl e ↦ rw e (omega arith)
  | inr e ↦ rw e (let ih = scaled_in-counts k d in omega arith)
]

-- Marking blocks as scaled in makes no block active.
pub mark_scaled_in-Known :
    (ks : List ℕ) (ex : BlockProviderExecutor)
    → Known ex
    → All (λ k. k < ex.next_block_id) ks
    → Known (mark_scaled_in ks ex)
      × (active_blocks (mark_scaled_in ks ex).status ≤ active_blocks ex.status)
unfolding mark_scaled_in
mark_scaled_in-Known [] ex w b = (w, omega arith)
mark_scaled_in-Known (k ∷ ks) ex w b =
    let marked : BlockProviderExecutor = record ex {
      status = put_entry k scaled_in ex.status;
      simulated_status = put_entry k scaled_in ex.simulated_status;
    } in
    let known : Known marked = record {
      statuses = AllBelow-put_entry ex.next_block_id k scaled_in ex.status b.0 w.statuses;
      simulated =
          AllBelow-put_entry ex.next_block_id k scaled_in ex.simulated_status b.0 w.simulated;
      blocks = w.blocks;
      jobs = w.jobs;
    } in
    let (rest, count) = mark_scaled_in-Known ks marked known b.1 in
    let one = scaled_in-counts k ex.status in (rest, omega arith)
