-- ===== src/Jobs/Blocks.antt =====
-- The blocks of an executor (parsl/executors/status_handling.py). A block and a job are ids. What
-- the provider answers is a parameter.
pub mod Scaling
use mathlib.Core.Option
use parsl.Prelude.{
  ℕ, zero, suc, ◌+◌, Bool, true, false, not, Option, none, some, List, [], ◌∷◌, ◌++◌, map, length,
  take, ◌==◌, if◌then◌else◌,
}
use parsl.Jobs.States.{JobState, is_terminal, pending, running, failed, scaled_in}

-- A dictionary with the block or job ids as keys.
unfoldable pub get_entry {ℓ} : {A : Type ℓ} → ℕ → List (ℕ × A) → Option A
get_entry k [] = none
get_entry k ((j, v) ∷ d) = if j == k then some v else get_entry k d

unfoldable pub put_entry {ℓ} : {A : Type ℓ} → ℕ → A → List (ℕ × A) → List (ℕ × A)
put_entry k v [] = (k, v) ∷ []
put_entry k v ((j, old) ∷ d) = if j == k then (j, v) ∷ d else (j, old) ∷ put_entry k v d

-- `d.update(e)`
unfoldable pub update {ℓ} : {A : Type ℓ} → List (ℕ × A) → List (ℕ × A) → List (ℕ × A)
unfolding put_entry
update d [] = d
update d ((k, v) ∷ e) = update (put_entry k v d) e

abbrev pub Statuses : Type 0
Statuses = List (ℕ × JobState)

pub record BlockProviderExecutor : Type 0 where
  pub has_provider : Bool
  pub next_block_id : ℕ
  pub blocks_to_job_id : List (ℕ × ℕ)
  pub job_ids_to_block : List (ℕ × ℕ)
  pub status : Statuses
  pub simulated_status : Statuses

-- One turn of the loop of `scale_out_facade`, with the job id that the launch returns, or nothing
-- when it raises.
unfoldable pub start_block : Option ℕ → BlockProviderExecutor → BlockProviderExecutor
unfolding put_entry
start_block (some job) ex = record ex {
  next_block_id = ex.next_block_id + 1;
  blocks_to_job_id = put_entry ex.next_block_id job ex.blocks_to_job_id;
  job_ids_to_block = put_entry job ex.next_block_id ex.job_ids_to_block;
  status = put_entry ex.next_block_id pending ex.status;
}
start_block none ex = record ex {
  next_block_id = ex.next_block_id + 1;
  status = put_entry ex.next_block_id failed ex.status;
  simulated_status = put_entry ex.next_block_id failed ex.simulated_status;
}

-- `submit` gives the job id for a block id.
unfoldable pub start_blocks : (ℕ → Option ℕ) → ℕ → BlockProviderExecutor → BlockProviderExecutor
unfolding start_block
start_blocks submit zero ex = ex
start_blocks submit (suc n) ex = start_blocks submit n (start_block (submit ex.next_block_id) ex)

-- `none` is the ScalingFailed without a provider.
unfoldable pub scale_out_facade :
    (ℕ → Option ℕ) → ℕ → BlockProviderExecutor → Option BlockProviderExecutor
unfolding start_blocks
scale_out_facade submit n ex = if ex.has_provider then some (start_blocks submit n ex) else none

unfoldable pub active_ids : Statuses → List ℕ
unfolding is_terminal
active_ids [] = []
active_ids ((k, s) ∷ d) = if is_terminal s then active_ids d else k ∷ active_ids d

-- `[d[k] for k in ks]`; `none` is a KeyError.
unfoldable pub get_all {ℓ} : {A : Type ℓ} → List ℕ → List (ℕ × A) → Option (List A)
unfolding get_entry
get_all [] d = some []
get_all (k ∷ ks) d = elim (get_entry k d) [
  | none ↦ none
  | some v ↦ Option.map (λ vs. v ∷ vs) (get_all ks d)
]

-- `compress(to_kill, killed)`
unfoldable pub compress : List ℕ → List Bool → List ℕ
compress [] bs = []
compress (j ∷ js) [] = []
compress (j ∷ js) (b ∷ bs) = if b then j ∷ compress js bs else compress js bs

-- `_filter_scale_in_ids`; `none` is the AssertionError.
unfoldable pub filter_scale_in_ids : List ℕ → List Bool → Option (List ℕ)
unfolding compress
filter_scale_in_ids to_kill killed =
    if length to_kill == length killed then some (compress to_kill killed) else none

abbrev pub bind_option {ℓ κ} : {A : Type ℓ} {B : Type κ} → Option A → (A → Option B) → Option B
bind_option none f = none
bind_option (some x) f = f x

-- `scale_in`: the ids of the blocks that the provider has cancelled; `none` is an exception.
unfoldable pub scale_in : (List ℕ → List Bool) → ℕ → BlockProviderExecutor → Option (List ℕ)
unfolding active_ids get_all filter_scale_in_ids
scale_in cancel blocks ex =
    let chosen =
      bind_option (get_all (take blocks (active_ids ex.status)) ex.blocks_to_job_id) (λ jobs.
        bind_option (filter_scale_in_ids jobs (cancel jobs))
          (λ killed. get_all killed ex.job_ids_to_block)) in
    if ex.has_provider then chosen else some []

unfoldable pub mark_scaled_in : List ℕ → BlockProviderExecutor → BlockProviderExecutor
unfolding put_entry
mark_scaled_in [] ex = ex
mark_scaled_in (k ∷ ks) ex = mark_scaled_in ks (record ex {
  status = put_entry k scaled_in ex.status;
  simulated_status = put_entry k scaled_in ex.simulated_status;
})

unfoldable pub scale_in_facade :
    (List ℕ → List Bool) → ℕ → BlockProviderExecutor → Option BlockProviderExecutor
unfolding scale_in mark_scaled_in
scale_in_facade cancel n ex = Option.map (λ ks. mark_scaled_in ks ex) (scale_in cancel n ex)

-- `_make_status_dict`; `none` is the IndexError.
unfoldable pub zip_statuses : List ℕ → List JobState → Statuses → Option Statuses
unfolding put_entry
zip_statuses [] [] d = some d
zip_statuses (k ∷ ks) (s ∷ ss) d = zip_statuses ks ss (put_entry k s d)
zip_statuses [] (s ∷ ss) d = none
zip_statuses (k ∷ ks) [] d = none

-- `status`, with what the provider says of the jobs.
unfoldable pub current_status : (List ℕ → List JobState) → BlockProviderExecutor → Option Statuses
unfolding zip_statuses update
current_status provider_status ex =
    let polled =
      zip_statuses (map (λ (e : ℕ × ℕ). e.0) ex.blocks_to_job_id)
        (provider_status (map (λ (e : ℕ × ℕ). e.1) ex.blocks_to_job_id)) [] in
    Option.map (λ d. update d ex.simulated_status) (if ex.has_provider then polled else some [])

-- `poll_facade`, when the polling interval is over.
unfoldable pub poll_facade :
    (List ℕ → List JobState) → BlockProviderExecutor → Option BlockProviderExecutor
unfolding current_status
poll_facade provider_status ex =
    Option.map (λ d. record ex { status = d }) (current_status provider_status ex)

-- The blocks that are running or pending, as the strategies count them.
abbrev pub active_hit : JobState → ℕ
active_hit running = 1
active_hit pending = 1
active_hit _ = 0

unfoldable pub active_blocks : Statuses → ℕ
active_blocks [] = 0
active_blocks ((k, s) ∷ d) = active_hit s + active_blocks d
