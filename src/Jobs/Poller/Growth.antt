-- ===== src/Jobs/Poller/Growth.antt =====
-- By how many active blocks the steps of a turn of parsl/jobs/job_status_poller.py grow.
use mathlib.Core.Option.{some-injective}
use mathlib.Core.Option
use parsl.Prelude.{
  ℕ, ◌+◌, ◌≤◌, ◌<◌, ◌≡◌, refl, sym, ◌∙◌, Option, none, some, List, ◌==◌, leb, if◌then◌else◌, Bool,
  true, false, arith, Bool-cases, inl, inr, subst, ap, All, if_true, if_false,
}
use parsl.Jobs.Blocks.{
  BlockProviderExecutor, scale_out_facade, scale_in_facade, mark_scaled_in, active_blocks,
}
use parsl.Jobs.Strategy.{
  Sizes, StrategyType, ExecutorState, Decision, nothing, scale_out, scale_in, scale_in_idle,
  zero_division, general_strategy, initial_blocks, idle_case,
}
use parsl.Jobs.Strategy.Bounds.{IsWithin}
use parsl.Jobs.Poller.{Surroundings, or_same, perform}
use parsl.Jobs.Poller.Tables.{Known, start_blocks-Known, mark_scaled_in-Known}
use parsl.Jobs.Poller.Steps.{scale_in-below, start_blocks-count}

-- HighThroughputExecutor gives up blocks that were given an id.
abbrev pub GivesKnown : Surroundings → Type 0
GivesKnown s =
    (n : ℕ) (ex : BlockProviderExecutor) (ks : List ℕ)
    → s.idle_blocks n ex ≡ some ks
    → All (λ k. k < ex.next_block_id) ks

-- The blocks that a decision may start.
abbrev pub out_of : Decision → ℕ
out_of (scale_out n) = n
out_of _ = 0

abbrev pub Grows : BlockProviderExecutor → ℕ → BlockProviderExecutor → Type 0
Grows ex n ex' = Known ex' × (active_blocks ex'.status ≤ active_blocks ex.status + n)

marked :
    (ex ex' : BlockProviderExecutor) (o : Option (List ℕ))
    → Known ex
    → ((ks : List ℕ) → o ≡ some ks → All (λ k. k < ex.next_block_id) ks)
    → Option.map (λ ks. mark_scaled_in ks ex) o ≡ some ex'
    → Grows ex 0 ex'
marked ex ex' none w b h = cc
marked ex ex' (some ks) w b h =
    let (known, count) = mark_scaled_in-Known ks ex w (b ks refl) in
    subst (Grows ex 0) (some-injective _ _ h) (known, omega arith)

pub perform-Grows :
    (s : Surroundings) (d : Decision) (ex ex' : BlockProviderExecutor)
    → Known ex
    → GivesKnown s
    → perform s d ex ≡ some ex'
    → Grows ex (out_of d) ex'
unfolding perform scale_out_facade scale_in_facade
perform-Grows s nothing ex ex' w g h = subst (Grows ex 0) (some-injective _ _ h) (w, omega arith)
perform-Grows s (scale_out n) ex ex' w g h = elim (Bool-cases ex.has_provider) [
  | inl e ↦
      subst (Grows ex n) (some-injective _ _ (sym (if_true _ _ e) ∙ h))
        (start_blocks-Known s.submit n ex w, start_blocks-count s.submit n ex w)
  | inr e ↦ let no = sym (if_false _ _ e) ∙ h in cc
]
perform-Grows s (scale_in n) ex ex' w g h =
    marked ex ex' _ w (λ ks p. scale_in-below s.cancel n ex ks w p) h
perform-Grows s (scale_in_idle n) ex ex' w g h = marked ex ex' _ w (λ ks p. g n ex ks p) h
perform-Grows s zero_division ex ex' w g h = cc

pub or_same-Grows :
    (o : Option BlockProviderExecutor) (n : ℕ) (ex : BlockProviderExecutor)
    → Known ex
    → ((ex' : BlockProviderExecutor) → o ≡ some ex' → Grows ex n ex')
    → Grows ex n (or_same o ex)
or_same-Grows none n ex w f = (w, omega arith)
or_same-Grows (some ex') n ex w f = f ex' refl

-- What the first turn is still to start.
abbrev pub to_start : Sizes → ExecutorState → ℕ
to_start z e = if e.first then z.init_blocks else 0

pub initial_out : (z : Sizes) (e : ExecutorState) → out_of (initial_blocks z e).0 ≡ to_start z e
unfolding initial_blocks
initial_out z e = elim (Bool-cases e.first) [ inl h ↦ rw h refl | inr h ↦ rw h refl ]

pub initial_first : (z : Sizes) (e : ExecutorState) → (initial_blocks z e).1.first ≡ false
unfolding initial_blocks
initial_first z e = elim (Bool-cases e.first) [
  | inl h ↦ ap (λ (b : Bool). (started_blocks z e b).1.first) h
  | inr h ↦ ap (λ (b : Bool). (started_blocks z e b).1.first) h ∙ h
]
  where
    started_blocks : Sizes → ExecutorState → Bool → Decision × ExecutorState
    started_blocks z e b =
        if b then (scale_out z.init_blocks, record e { first = false }) else (nothing, e)

either_first :
    (x b : Bool) (p q : Decision × ExecutorState)
    → p.1.first ≡ x
    → q.1.first ≡ x
    → (if b then p else q).1.first ≡ x
either_first x true p q h k = h
either_first x false p q h k = k

pub general_first :
    (now max_idletime : ℕ) (kind : StrategyType) (z : Sizes) (tasks blocks : ℕ) (e : ExecutorState)
    → (general_strategy now max_idletime kind z tasks blocks e).1.first ≡ e.first
unfolding general_strategy idle_case
general_first now max_idletime kind z tasks blocks e =
    either_first e.first (tasks == 0) _ _
      (either_first e.first (leb blocks z.min_blocks) _ _ refl refl) refl

pub within_out :
    (z : Sizes) (blocks : ℕ) (d : Decision)
    → blocks ≤ z.max_blocks
    → IsWithin z blocks d
    → blocks + out_of d ≤ z.max_blocks
within_out z blocks nothing h w = omega arith
within_out z blocks (scale_out n) h w = w
within_out z blocks (scale_in n) h w = omega arith
within_out z blocks (scale_in_idle n) h w = omega arith
within_out z blocks zero_division h w = omega arith
