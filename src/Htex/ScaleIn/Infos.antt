-- ===== src/Htex/ScaleIn/Infos.antt =====
-- What scale_in of parsl/executors/high_throughput/executor.py collects of each block.
use parsl.Prelude.{
  ℕ, ◌≤◌, Bool, true, false, ◌≡◌, refl, sym, ap, ◌∙◌, Option, none, some, List, [], ◌∷◌, ◌==◌,
  if◌then◌else◌, arith, Bool-cases, inl, inr, ==_iff, All, subst,
}
use mathlib.Core.Option.{some-injective}
use parsl.Htex.Interchange.Loop.{ManagerInfo}
use parsl.Jobs.States.{is_terminal}
use parsl.Jobs.Blocks.{Statuses, get_entry}
use parsl.Htex.ScaleIn.{
  BlockInfo, new_block_info, upsert, shortest, plus_manager, known_blocks, with_managers,
}

abbrev or_new : Option BlockInfo → BlockInfo
or_new none = new_block_info
or_new (some i) = i

get_entry-upsert :
    (j k : ℕ) (f : BlockInfo → BlockInfo) (d : List (ℕ × BlockInfo))
    → get_entry j (upsert k f d)
      ≡ (if k == j then some (f (or_new (get_entry k d))) else get_entry j d)
unfolding get_entry upsert
get_entry-upsert j k f [] = refl
get_entry-upsert j k f ((h, i) ∷ d) = ground (arith, get_entry-upsert j k f d)

-- No block stands twice in the dictionary.
abbrev pub UniqueBlocks : List (ℕ × BlockInfo) → Type 0
UniqueBlocks [] = Unit
UniqueBlocks ((k, i) ∷ d) = (get_entry k d ≡ none) × UniqueBlocks d

upsert-UniqueBlocks :
    (k : ℕ) (f : BlockInfo → BlockInfo) (d : List (ℕ × BlockInfo))
    → UniqueBlocks d
    → UniqueBlocks (upsert k f d)
unfolding get_entry upsert
upsert-UniqueBlocks k f [] u = (refl, tt)
upsert-UniqueBlocks k f ((j, i) ∷ d) u = elim (Bool-cases (j == k)) [
  | inl e ↦ rw e u
  | inr e ↦ rw e (
    get_entry-upsert j k f d ∙ (let other : (k == j) ≡ false = ground arith in rw other u.0),
    upsert-UniqueBlocks k f d u.1,
  )
]

known_blocks-UniqueBlocks :
    (status : Statuses) (d : List (ℕ × BlockInfo))
    → UniqueBlocks d
    → UniqueBlocks (known_blocks status d)
unfolding known_blocks
known_blocks-UniqueBlocks [] d u = u
known_blocks-UniqueBlocks ((k, s) ∷ status) d u =
    known_blocks-UniqueBlocks status _ (either (is_terminal s))
  where
    either : (b : Bool) → UniqueBlocks (if b then d else upsert k (λ i. new_block_info) d)
    either true = u
    either false = upsert-UniqueBlocks k (λ i. new_block_info) d u

with_managers-UniqueBlocks :
    (ms : List ManagerInfo) (d : List (ℕ × BlockInfo))
    → UniqueBlocks d
    → UniqueBlocks (with_managers ms d)
unfolding with_managers
with_managers-UniqueBlocks [] d u = u
with_managers-UniqueBlocks (m ∷ ms) d u = with_managers-UniqueBlocks ms _ (either m.active)
  where
    either : (b : Bool) → UniqueBlocks (if b then upsert m.block_id (plus_manager m) d else d)
    either true = upsert-UniqueBlocks m.block_id (plus_manager m) d u
    either false = u

pub collected-UniqueBlocks :
    (status : Statuses) (ms : List ManagerInfo)
    → UniqueBlocks (with_managers ms (known_blocks status []))
collected-UniqueBlocks status ms =
    with_managers-UniqueBlocks ms (known_blocks status []) (known_blocks-UniqueBlocks status [] tt)

-- A time is at most another, where `none` is infinity.
abbrev pub AtMost : Option ℕ → Option ℕ → Type 0
AtMost s none = Unit
AtMost none (some t) = ⊥
AtMost (some s) (some t) = s ≤ t

AtMost-trans : (s t u : Option ℕ) → AtMost s t → AtMost t u → AtMost s u
AtMost-trans s t none p q = tt
AtMost-trans s none (some u) p q = absurd q
AtMost-trans none (some t) (some u) p q = absurd p
AtMost-trans (some s) (some t) (some u) p q = omega arith

AtMost-refl : (s : Option ℕ) → AtMost s s
AtMost-refl none = tt
AtMost-refl (some s) = omega arith

AtMost-shortest : (s : Option ℕ) (t : ℕ) → AtMost (shortest s t) s × AtMost (shortest s t) (some t)
AtMost-shortest none t = (tt, omega arith)
AtMost-shortest (some s) t = (omega arith, omega arith)

-- The second has as many tasks at least, and has been idle no longer.
abbrev Busier : BlockInfo → BlockInfo → Type 0
Busier i j = (i.tasks ≤ j.tasks) × AtMost j.idle i.idle

Busier-plus_manager : (m : ManagerInfo) (i : BlockInfo) → Busier i (plus_manager m i)
Busier-plus_manager m i = (omega arith, (AtMost-shortest i.idle m.idle_duration).0)

-- Managers only add to the entries.
with_managers_grows :
    (ms : List ManagerInfo) (d : List (ℕ × BlockInfo)) (k : ℕ) (i j : BlockInfo)
    → get_entry k d ≡ some i
    → get_entry k (with_managers ms d) ≡ some j
    → Busier i j
unfolding with_managers
with_managers_grows [] d k i j p q =
    subst (Busier i) (some-injective _ _ (sym p ∙ q)) (omega arith, AtMost-refl i.idle)
with_managers_grows (m ∷ ms) d k i j p q = either m.active q (λ e c. with_managers_grows ms e k c j)
  where
    either :
        (b : Bool)
        → get_entry k (with_managers ms (if b then upsert m.block_id (plus_manager m) d else d))
          ≡ some j
        → ((e : List (ℕ × BlockInfo)) (c : BlockInfo)
            → get_entry k e ≡ some c
            → get_entry k (with_managers ms e) ≡ some j
            → Busier c j)
        → Busier i j
    either false r ih = ih d i p r
    either true r ih = elim (Bool-cases (m.block_id == k)) [
      | inl e ↦
          let same = (==_iff m.block_id k).0 e in
          let added =
            ih (upsert m.block_id (plus_manager m) d) (plus_manager m i)
              (get_entry-upsert k m.block_id (plus_manager m) d
                ∙ rw e
                    (ap (λ o. some (plus_manager m (or_new o))) (ap (λ n. get_entry n d) same ∙ p)))
              r in
          let first = Busier-plus_manager m i in
          (omega arith, AtMost-trans j.idle (plus_manager m i).idle i.idle added.1 first.1)
      | inr e ↦
          ih (upsert m.block_id (plus_manager m) d) i
            (get_entry-upsert k m.block_id (plus_manager m) d ∙ rw e p) r
    ]

-- The entry of a block covers each of its active managers.
abbrev pub Covers : ℕ → BlockInfo → ManagerInfo → Type 0
Covers k i m =
    m.active ≡ true → m.block_id ≡ k → (m.tasks ≤ i.tasks) × AtMost i.idle (some m.idle_duration)

pub with_managers-Covers :
    (ms : List ManagerInfo) (d : List (ℕ × BlockInfo)) (k : ℕ) (i : BlockInfo)
    → get_entry k (with_managers ms d) ≡ some i
    → All (Covers k i) ms
unfolding with_managers
with_managers-Covers [] d k i h = tt
with_managers-Covers (m ∷ ms) d k i h = (covered, with_managers-Covers ms _ k i h)
  where
    covered : Covers k i m
    covered active same =
        let with_it = plus_manager m (or_new (get_entry m.block_id d)) in
        let found : get_entry k (upsert m.block_id (plus_manager m) d) ≡ some with_it =
          get_entry-upsert k m.block_id (plus_manager m) d
          ∙ rw ((==_iff m.block_id k).1 same) refl in
        let later =
          with_managers_grows ms (upsert m.block_id (plus_manager m) d) k with_it i found (
            subst
              (λ b.
                get_entry k
                  (with_managers ms (if b then upsert m.block_id (plus_manager m) d else d))
                ≡ some i)
              active h) in
        (
          omega arith,
          AtMost-trans i.idle with_it.idle (some m.idle_duration) later.1
              (AtMost-shortest (or_new (get_entry m.block_id d)).idle m.idle_duration).1,
        )
