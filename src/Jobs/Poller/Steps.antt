-- ===== src/Jobs/Poller/Steps.antt =====
-- What the steps of a turn of the poller do to the tables of parsl/executors/status_handling.py and to
-- the count of the active blocks.
use mathlib.Core.Option.{some-injective}
use mathlib.Core.Option
use parsl.Prelude.{
  if_true, if_false, ℕ, zero, suc, ◌+◌, ◌≤◌, ◌<◌, ◌≡◌, refl, sym, ◌∙◌, Option, none, some, List, [],
  ◌∷◌, ◌==◌, if◌then◌else◌, arith, Bool-cases, inl, inr, subst, All, Bool, take,
}
use parsl.Jobs.States.{JobState}
use parsl.Jobs.Blocks.{
  get_entry, update, Statuses, BlockProviderExecutor, start_blocks, get_all, active_blocks,
  active_ids, bind_option, filter_scale_in_ids, poll_facade, current_status, scale_in,
}
use parsl.Jobs.Blocks.Scaling.{AllBelow, Distinct, jobs_returned, scale_out_counts}
use parsl.Jobs.Poller.Tables.{Known, ValuesBelow, zip_sound, Distinct-update, AllBelow-update}

value_below : (n k v : ℕ) (d : List (ℕ × ℕ)) → ValuesBelow n d → get_entry k d ≡ some v → v < n
unfolding get_entry
value_below n k v [] b h = cc
value_below n k v ((j, w) ∷ d) b h = elim (Bool-cases (j == k)) [
  | inl e ↦
      subst (λ i. i < n)
        (some-injective _ _
          (subst (λ (x : Bool). (if x then some w else get_entry k d) ≡ some v) e h))
        b.0
  | inr e ↦
      value_below n k v d b.1
        (subst (λ (x : Bool). (if x then some w else get_entry k d) ≡ some v) e h)
]

pub got :
    (o : Option ℕ) (r : Option (List ℕ)) (vs : List ℕ)
    → elim o [ none ↦ none | some v ↦ Option.map (λ ws. v ∷ ws) r ] ≡ some vs
    → (v : ℕ) × (ws : List ℕ) × (o ≡ some v) × (r ≡ some ws) × (v ∷ ws ≡ vs)
got none r vs h = cc
got (some v) none vs h = cc
got (some v) (some ws) vs h = (v, ws, refl, refl, some-injective _ _ h)

get_all-below :
    (n : ℕ) (ks vs : List ℕ) (d : List (ℕ × ℕ))
    → ValuesBelow n d
    → get_all ks d ≡ some vs
    → All (λ v. v < n) vs
unfolding get_all
get_all-below n [] vs d b h = subst (All (λ v. v < n)) (some-injective _ _ h) tt
get_all-below n (k ∷ ks) vs d b h =
    let (v, ws, p, q, whole) = got (get_entry k d) (get_all ks d) vs h in
    subst (All (λ v. v < n)) whole (value_below n k v d b p, get_all-below n ks ws d b q)

bound :
    (o : Option (List ℕ)) (g : List ℕ → Option (List ℕ)) (ks : List ℕ)
    → bind_option o g ≡ some ks
    → (js : List ℕ) × (g js ≡ some ks)
bound none g ks h = cc
bound (some js) g ks h = (js, h)

bound_twice :
    (o : Option (List ℕ)) (f g : List ℕ → Option (List ℕ)) (ks : List ℕ)
    → bind_option o (λ js. bind_option (f js) g) ≡ some ks
    → (js : List ℕ) × (g js ≡ some ks)
bound_twice none f g ks h = cc
bound_twice (some is) f g ks h = bound (f is) g ks h

-- The blocks that `scale_in` gives up were given an id.
pub scale_in-below :
    (cancel : List ℕ → List Bool) (n : ℕ) (ex : BlockProviderExecutor) (ks : List ℕ)
    → Known ex
    → scale_in cancel n ex ≡ some ks
    → All (λ k. k < ex.next_block_id) ks
unfolding scale_in
scale_in-below cancel n ex ks w h = elim (Bool-cases ex.has_provider) [
  | inl e ↦
      let (killed, p) =
        bound_twice (get_all (take n (active_ids ex.status)) ex.blocks_to_job_id)
          (λ js. filter_scale_in_ids js (cancel js)) (λ js. get_all js ex.job_ids_to_block) ks
          (sym (if_true _ _ e) ∙ h) in
      get_all-below ex.next_block_id killed ks ex.job_ids_to_block w.jobs p
  | inr e ↦
      subst (All (λ k. k < ex.next_block_id)) (some-injective _ _ (sym (if_false _ _ e) ∙ h)) tt
]

at_most_one : (o : Option ℕ) → (elim o [ none ↦ 0 | some job ↦ 1 ]) ≤ 1
at_most_one none = omega arith
at_most_one (some job) = omega arith

jobs_returned_bound : (submit : ℕ → Option ℕ) (id n : ℕ) → jobs_returned submit id n ≤ n
unfolding jobs_returned
jobs_returned_bound submit id zero = omega arith
jobs_returned_bound submit id (suc n) =
    let rest = jobs_returned_bound submit (id + 1) n in
    let one = at_most_one (submit id) in omega arith

pub start_blocks-count :
    (submit : ℕ → Option ℕ) (n : ℕ) (ex : BlockProviderExecutor)
    → Known ex
    → active_blocks (start_blocks submit n ex).status ≤ active_blocks ex.status + n
start_blocks-count submit n ex w =
    let (count, below, next) = scale_out_counts submit n ex w.statuses in
    let few = jobs_returned_bound submit ex.next_block_id n in omega arith

polled_tables :
    (ex ex' : BlockProviderExecutor) (o : Option Statuses)
    → ((d : Statuses) → o ≡ some d → Distinct d × AllBelow ex.next_block_id d)
    → Known ex
    → Option.map (λ d. record ex { status = d }) (Option.map (λ d. update d ex.simulated_status) o)
      ≡ some ex'
    → Known ex' × Distinct ex'.status × (ex'.next_block_id ≡ ex.next_block_id)
polled_tables ex ex' none sound w h = cc
polled_tables ex ex' (some d) sound w h =
    let (u, b) = sound d refl in
    let polled : BlockProviderExecutor = record ex { status = update d ex.simulated_status } in
    let known : Known polled = record {
      statuses = AllBelow-update ex.next_block_id d ex.simulated_status b w.simulated;
      simulated = w.simulated;
      blocks = w.blocks;
      jobs = w.jobs;
    } in
    subst
      (λ (x : BlockProviderExecutor).
        Known x × Distinct x.status × (x.next_block_id ≡ ex.next_block_id))
      (some-injective _ _ h) (known, Distinct-update d ex.simulated_status u, refl)

-- After a poll the statuses are about blocks that were given an id, each once.
pub poll-Known :
    (provider_status : List ℕ → List JobState) (ex ex' : BlockProviderExecutor)
    → Known ex
    → poll_facade provider_status ex ≡ some ex'
    → Known ex' × Distinct ex'.status × (ex'.next_block_id ≡ ex.next_block_id)
unfolding poll_facade current_status
poll-Known provider_status ex ex' w h =
    polled_tables ex ex' _
      (λ d. elim (Bool-cases ex.has_provider) [
        | inl e ↦ λ p.
            zip_sound ex.next_block_id ex.blocks_to_job_id _ [] d w.blocks tt tt
              (sym (if_true _ _ e) ∙ p)
        | inr e ↦ λ p.
            subst (λ x. Distinct x × AllBelow ex.next_block_id x)
              (some-injective _ _ (sym (if_false _ _ e) ∙ p)) (tt, tt)
      ])
      w h
