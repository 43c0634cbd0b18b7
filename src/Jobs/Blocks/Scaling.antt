-- ===== src/Jobs/Blocks/Scaling.antt =====
-- What scaling does to the blocks of parsl/executors/status_handling.py.
use mathlib.Core.Option.{some-injective}
use mathlib.Core.Option
use parsl.Prelude.{
  ℕ, zero, suc, ◌+◌, ◌<◌, ◌≡◌, ◌≢◌, refl, Option, none, some, List, [], ◌∷◌, ◌==◌, if◌then◌else◌,
  arith, Bool-cases, inl, inr, ==_iff, ◌∙◌, sym, subst, ap,
}
use parsl.Jobs.States.{JobState, pending, failed}
use parsl.Jobs.Blocks.{
  get_entry, put_entry, update, Statuses, BlockProviderExecutor, start_block, start_blocks,
  current_status, poll_facade, active_hit, active_blocks,
}

-- Every key is below a number, as every block id given so far is below the next one.
abbrev pub AllBelow : {A : Type 0} → ℕ → List (ℕ × A) → Type 0
AllBelow n [] = Unit
AllBelow n ((k, s) ∷ d) = (k < n) × AllBelow n d

pub get_entry-put :
    {A : Type 0} (j k : ℕ) (v : A) (d : List (ℕ × A))
    → get_entry j (put_entry k v d) ≡ (if k == j then some v else get_entry j d)
unfolding get_entry put_entry
get_entry-put j k v [] = refl
get_entry-put j k v ((i, w) ∷ d) = let ih = get_entry-put j k v d in ground arith

active_blocks-new :
    (n : ℕ) (s : JobState) (d : Statuses)
    → AllBelow n d
    → active_blocks (put_entry n s d) ≡ active_blocks d + active_hit s
unfolding active_blocks put_entry
active_blocks-new n s [] b = omega arith
active_blocks-new n s ((k, x) ∷ d) b = elim (Bool-cases (k == n)) [
  | inl e ↦ absurd (let same_id = (==_iff k n).0 e in let less = b.0 in omega arith)
  | inr e ↦ rw e (omega (arith, active_blocks-new n s d b.1))
]

AllBelow-put :
    {A : Type 0} (n : ℕ) (s : A) (d : List (ℕ × A))
    → AllBelow n d
    → AllBelow (n + 1) (put_entry n s d)
unfolding put_entry
AllBelow-put n s [] b = (omega arith, tt)
AllBelow-put n s ((k, x) ∷ d) b = elim (Bool-cases (k == n)) [
  | inl e ↦ absurd (let same_id = (==_iff k n).0 e in let less = b.0 in omega arith)
  | inr e ↦ rw e (let less = b.0 in omega arith, AllBelow-put n s d b.1)
]

-- How many of the launches of `n` blocks, from this block id on, return a job.
unfoldable pub jobs_returned : (ℕ → Option ℕ) → ℕ → ℕ → ℕ
jobs_returned submit id zero = 0
jobs_returned submit id (suc n) =
    (elim (submit id) [ none ↦ 0 | some job ↦ 1 ]) + jobs_returned submit (id + 1) n

started :
    (o : Option ℕ) (ex : BlockProviderExecutor)
    → AllBelow ex.next_block_id ex.status
    → (active_blocks (start_block o ex).status
        ≡ active_blocks ex.status + (elim o [ none ↦ 0 | some job ↦ 1 ]))
      × AllBelow (ex.next_block_id + 1) (start_block o ex).status
      × ((start_block o ex).next_block_id ≡ ex.next_block_id + 1)
unfolding start_block
started none ex b = (
  active_blocks-new ex.next_block_id failed ex.status b,
  AllBelow-put ex.next_block_id failed ex.status b,
  refl,
)
started (some job) ex b = (
  active_blocks-new ex.next_block_id pending ex.status b,
  AllBelow-put ex.next_block_id pending ex.status b,
  refl,
)

-- Scaling out by `n` blocks, where every block id so far is below the next one: as many blocks
-- more are running or pending as launches returned a job, and the next id grows by `n`.
pub scale_out_counts :
    (submit : ℕ → Option ℕ) (n : ℕ) (ex : BlockProviderExecutor)
    → AllBelow ex.next_block_id ex.status
    → (active_blocks (start_blocks submit n ex).status
        ≡ active_blocks ex.status + jobs_returned submit ex.next_block_id n)
      × AllBelow (ex.next_block_id + n) (start_blocks submit n ex).status
      × ((start_blocks submit n ex).next_block_id ≡ ex.next_block_id + n)
unfolding start_blocks jobs_returned
scale_out_counts submit zero ex b =
    (omega arith, subst (λ m. AllBelow m ex.status) (omega arith) b, omega arith)
scale_out_counts submit (suc n) ex b =
    let mid = start_block (submit ex.next_block_id) ex in
    let (count, below, next) = started (submit ex.next_block_id) ex b in
    let (count', below', next') =
      scale_out_counts submit n mid (subst (λ m. AllBelow m mid.status) (sym next) below) in
    (
      omega (arith, count', count, ap (λ i. jobs_returned submit i n) next),
      subst (λ m. AllBelow m (start_blocks submit n mid).status) (omega (arith, next)) below',
      omega (arith, next, next'),
    )

-- A dictionary has a key once.
abbrev pub Distinct : Statuses → Type 0
Distinct [] = Unit
Distinct ((k, s) ∷ d) = (get_entry k d ≡ none) × Distinct d

missing_of_cons :
    (j k : ℕ) (s : JobState) (d : Statuses)
    → get_entry j ((k, s) ∷ d) ≡ (if k == j then some s else get_entry j d)
unfolding get_entry
missing_of_cons j k s d = refl

update_other :
    (j : ℕ) (d e : Statuses) → get_entry j e ≡ none → get_entry j (update d e) ≡ get_entry j d
unfolding update
update_other j d [] h = refl
update_other j d ((k, s) ∷ e) h = elim (Bool-cases (k == j)) [
  | inl x ↦ absurd (
      let found =
        subst (λ b. (if b then some s else get_entry j e) ≡ none) x
          (sym (missing_of_cons j k s e) ∙ h) in
      cc)
  | inr x ↦
      update_other j (put_entry k s d) e (
        subst (λ b. (if b then some s else get_entry j e) ≡ none) x
          (sym (missing_of_cons j k s e) ∙ h))
      ∙ get_entry-put j k s d
      ∙ rw x refl
]

no_entry : (j : ℕ) (s : JobState) → get_entry j [] ≢ some s
unfolding get_entry
no_entry j s h = cc

get_entry-update :
    (j : ℕ) (s : JobState) (d e : Statuses)
    → Distinct e
    → get_entry j e ≡ some s
    → get_entry j (update d e) ≡ some s
unfolding update
get_entry-update j s d [] u h = absurd (no_entry j s h)
get_entry-update j s d ((k, x) ∷ e) u h = elim (Bool-cases (k == j)) [
  | inl y ↦
      let same_key = (==_iff k j).0 y in
      let found =
        subst (λ b. (if b then some x else get_entry j e) ≡ some s) y
          (sym (missing_of_cons j k x e) ∙ h) in
      update_other j (put_entry k x d) e (subst (λ i. get_entry i e ≡ none) same_key u.0)
      ∙ get_entry-put j k x d
      ∙ rw y found
  | inr y ↦ get_entry-update j s (put_entry k x d) e u.1 (
      subst (λ b. (if b then some x else get_entry j e) ≡ some s) y
        (sym (missing_of_cons j k x e) ∙ h))
]

polled_of :
    (ex ex' : BlockProviderExecutor) (o : Option Statuses)
    → Option.map (λ d. record ex { status = d }) (Option.map (λ d. update d ex.simulated_status) o)
      ≡ some ex'
    → (d : Statuses) × (ex' ≡ record ex { status = update d ex.simulated_status })
polled_of ex ex' none p = cc
polled_of ex ex' (some d) p = (d, sym (some-injective _ _ p))

-- Whatever the provider says, a block with a simulated status (one that was scaled in, or whose
-- launch failed) has that status after each poll, and keeps it for the next one.
pub poll_keeps_simulated :
    (provider_status : List ℕ → List JobState) (ex ex' : BlockProviderExecutor) (k : ℕ)
    (s : JobState)
    → Distinct ex.simulated_status
    → get_entry k ex.simulated_status ≡ some s
    → poll_facade provider_status ex ≡ some ex'
    → (get_entry k ex'.status ≡ some s) × (get_entry k ex'.simulated_status ≡ some s)
unfolding poll_facade current_status
poll_keeps_simulated provider_status ex ex' k s u h p =
    let (d, e) = polled_of ex ex' _ p in
    (
      ap (λ (x : BlockProviderExecutor). get_entry k x.status) e
          ∙ get_entry-update k s d ex.simulated_status u h,
      ap (λ (x : BlockProviderExecutor). get_entry k x.simulated_status) e ∙ h,
    )
