-- ===== src/Jobs/Poller/Shrinking.antt =====
-- How many active blocks the steps of the strategy take away at most (scale_in of
-- parsl/executors/status_handling.py).
use mathlib.Core.Option.{some-injective}
use mathlib.Core.Option
use parsl.Prelude.{
  ℕ, zero, suc, ◌+◌, ◌≤◌, ◌≡◌, refl, sym, ◌∙◌, Option, none, some, List, [], ◌∷◌, ◌==◌, length,
  take, Bool, true, false, arith, Bool-cases, inl, inr, subst, if_true, if_false,
}
use parsl.Jobs.States.{JobState, scaled_in}
use parsl.Jobs.Blocks.{
  put_entry, get_all, compress, filter_scale_in_ids, bind_option, Statuses, BlockProviderExecutor,
  active_hit, active_ids, active_blocks, mark_scaled_in, start_blocks, scale_in_facade,
  scale_out_facade,
}
use parsl.Jobs.Blocks.Scaling.{scale_out_counts}
use parsl.Jobs.Strategy.{Decision, nothing, scale_out, scale_in, scale_in_idle, zero_division}
use parsl.Jobs.Poller.{Surroundings, perform}
use parsl.Jobs.Poller.Tables.{Known}
use parsl.Jobs.Poller.Steps.{got}
use parsl.Jobs.Poller.Growth.{perform-Grows}

length-take : {A : Type 0} (n : ℕ) (l : List A) → length (take n l) ≤ n
length-take zero l = omega arith
length-take (suc n) [] = omega arith
length-take (suc n) (x ∷ l) = omega (arith, length-take n l)

length-get_all :
    (ks vs : List ℕ) (d : List (ℕ × ℕ)) → get_all ks d ≡ some vs → length vs ≤ length ks
unfolding get_all
length-get_all [] vs d h = subst (λ (l : List ℕ). length l ≤ 0) (some-injective _ _ h) (omega arith)
length-get_all (k ∷ ks) vs d h =
    let (v, ws, p, q, whole) = got _ (get_all ks d) vs h in
    subst (λ (l : List ℕ). length l ≤ suc (length ks)) whole
      (omega (arith, length-get_all ks ws d q))

length-compress : (js : List ℕ) (bs : List Bool) → length (compress js bs) ≤ length js
unfolding compress
length-compress [] bs = omega arith
length-compress (j ∷ js) [] = omega arith
length-compress (j ∷ js) (true ∷ bs) = omega (arith, length-compress js bs)
length-compress (j ∷ js) (false ∷ bs) = omega (arith, length-compress js bs)

length-filter_scale_in_ids :
    (js ks : List ℕ) (bs : List Bool) → filter_scale_in_ids js bs ≡ some ks → length ks ≤ length js
unfolding filter_scale_in_ids
length-filter_scale_in_ids js ks bs h = elim (Bool-cases (length js == length bs)) [
  | inl e ↦
      subst (λ (l : List ℕ). length l ≤ length js) (some-injective _ _ (sym (if_true _ _ e) ∙ h))
        (length-compress js bs)
  | inr e ↦ let no = sym (if_false _ _ e) ∙ h in cc
]

bound_by :
    (o : Option (List ℕ)) (g : List ℕ → Option (List ℕ)) (ks : List ℕ)
    → bind_option o g ≡ some ks
    → (js : List ℕ) × (o ≡ some js) × (g js ≡ some ks)
bound_by none g ks h = cc
bound_by (some js) g ks h = (js, refl, h)

-- `scale_in` gives up as many blocks as it is asked for at most.
length-scale_in :
    (cancel : List ℕ → List Bool) (n : ℕ) (ex : BlockProviderExecutor) (ks : List ℕ)
    → parsl.Jobs.Blocks.scale_in cancel n ex ≡ some ks
    → length ks ≤ n
unfolding parsl.Jobs.Blocks.scale_in
length-scale_in cancel n ex ks h = elim (Bool-cases ex.has_provider) [
  | inl e ↦
      let (jobs, a, rest) =
        bound_by (get_all (take n (active_ids ex.status)) ex.blocks_to_job_id)
          (λ js.
            bind_option (filter_scale_in_ids js (cancel js))
              (λ killed. get_all killed ex.job_ids_to_block))
          ks (sym (if_true _ _ e) ∙ h) in
      let (killed, b, c) =
        bound_by (filter_scale_in_ids jobs (cancel jobs))
          (λ killed. get_all killed ex.job_ids_to_block) ks rest in
      omega (
        arith,
        length-take n (active_ids ex.status),
        length-get_all _ jobs ex.blocks_to_job_id a,
        length-filter_scale_in_ids jobs killed (cancel jobs) b,
        length-get_all killed ks ex.job_ids_to_block c,
      )
  | inr e ↦
      subst (λ (l : List ℕ). length l ≤ n) (some-injective _ _ (sym (if_false _ _ e) ∙ h))
        (omega arith)
]

one_hit : (s : JobState) → active_hit s ≤ 1
one_hit s = ground arith

active-put_entry :
    (k : ℕ) (d : Statuses) → active_blocks d ≤ active_blocks (put_entry k scaled_in d) + 1
unfolding active_blocks put_entry
active-put_entry k [] = omega arith
active-put_entry k ((j, s) ∷ d) = elim (Bool-cases (j == k)) [
  | inl e ↦ rw e (let one = one_hit s in omega arith)
  | inr e ↦ rw e (let ih = active-put_entry k d in omega arith)
]

active-mark_scaled_in :
    (ks : List ℕ) (ex : BlockProviderExecutor)
    → active_blocks ex.status ≤ active_blocks (mark_scaled_in ks ex).status + length ks
unfolding mark_scaled_in
active-mark_scaled_in [] ex = omega arith
active-mark_scaled_in (k ∷ ks) ex = omega (
  arith,
  active-put_entry k ex.status,
  active-mark_scaled_in ks (record ex {
    status = put_entry k scaled_in ex.status;
    simulated_status = put_entry k scaled_in ex.simulated_status;
  }),
)

abbrev pub is_idle : Decision → Bool
is_idle (scale_in_idle n) = true
is_idle _ = false

-- The blocks that a decision may give up.
abbrev pub in_of : Decision → ℕ
in_of (scale_in n) = n
in_of _ = 0

module _ (s : Surroundings) where
  abbrev without_idle : Surroundings
  without_idle = record s { idle_blocks = λ n ex. none }

  same_perform :
      (d : Decision) (ex : BlockProviderExecutor)
      → is_idle d ≡ false
      → perform without_idle d ex ≡ perform s d ex
  unfolding perform
  same_perform nothing ex i = refl
  same_perform (scale_out n) ex i = refl
  same_perform (scale_in n) ex i = refl
  same_perform (scale_in_idle n) ex i = cc
  same_perform zero_division ex i = refl

  pub perform-Known :
      (d : Decision) (ex ex' : BlockProviderExecutor)
      → Known ex
      → is_idle d ≡ false
      → perform s d ex ≡ some ex'
      → Known ex'
  perform-Known d ex ex' w i h =
      (perform-Grows without_idle d ex ex' w (λ n ex ks p. cc) (same_perform d ex i ∙ h)).0

  -- A step takes away what was asked for at most.
  pub perform_shrinks :
      (d : Decision) (ex ex' : BlockProviderExecutor)
      → Known ex
      → is_idle d ≡ false
      → perform s d ex ≡ some ex'
      → active_blocks ex.status ≤ active_blocks ex'.status + in_of d
  unfolding perform scale_out_facade scale_in_facade
  perform_shrinks nothing ex ex' w i h =
      subst (λ (x : BlockProviderExecutor). active_blocks ex.status ≤ active_blocks x.status + 0)
        (some-injective _ _ h) (omega arith)
  perform_shrinks (scale_out n) ex ex' w i h = elim (Bool-cases ex.has_provider) [
    | inl e ↦
        subst (λ (x : BlockProviderExecutor). active_blocks ex.status ≤ active_blocks x.status + 0)
          (some-injective _ _ (sym (if_true _ _ e) ∙ h))
          (omega (arith, (scale_out_counts s.submit n ex w.statuses).0))
    | inr e ↦ let no = sym (if_false _ _ e) ∙ h in cc
  ]
  perform_shrinks (scale_in n) ex ex' w i h =
      given_up (parsl.Jobs.Blocks.scale_in s.cancel n ex) (length-scale_in s.cancel n ex) h
    where
      given_up :
          (o : Option (List ℕ))
          → ((ks : List ℕ) → o ≡ some ks → length ks ≤ n)
          → Option.map (λ ks. mark_scaled_in ks ex) o ≡ some ex'
          → active_blocks ex.status ≤ active_blocks ex'.status + n
      given_up none few h = cc
      given_up (some ks) few h =
          subst
            (λ (x : BlockProviderExecutor). active_blocks ex.status ≤ active_blocks x.status + n)
            (some-injective _ _ h) (omega (arith, active-mark_scaled_in ks ex, few ks refl))
  perform_shrinks (scale_in_idle n) ex ex' w i h = cc
  perform_shrinks zero_division ex ex' w i h = cc
