-- ===== src/Jobs/Strategy/Bounds.antt =====
-- Bounds on what the strategies of parsl/jobs/strategy.py ask for.
use native.Mathlib.Nat.{div-add-mod', mod-lt, mul-le-mul_right}
use parsl.Prelude.{
  leb→gt, lt→ltb, ℕ, zero, suc, ◌+◌, ◌-◌, ◌*◌, ◌≤◌, ◌<◌, false, ◌≡◌, refl, ltb, leb, ◌==◌, min,
  arith, Bool-cases, ◌⊎◌, inl, inr, leb→le, ltb→lt, ==_iff,
}
use parsl.Jobs.Strategy.{
  Sizes, StrategyType, simple, htex, ExecutorState, Decision, nothing, scale_out, scale_in,
  scale_in_idle, zero_division, slots_per_block, ceil_div, overloaded, excess_out, excess_in,
  idle_start, idle_case, spare_case, busy_case, general_strategy,
}

-- The number of a decision keeps the bounds, from this number of blocks: a scale out asks for blocks up
-- to the maximum at most, and a scale in down to the minimum at least.
abbrev pub IsWithin : Sizes → ℕ → Decision → Type 0
IsWithin z blocks nothing = Unit
IsWithin z blocks (scale_out n) = blocks + n ≤ z.max_blocks
IsWithin z blocks (scale_in n) = z.min_blocks + n ≤ blocks
IsWithin z blocks (scale_in_idle n) = z.min_blocks + n ≤ blocks
IsWithin z blocks zero_division = slots_per_block z ≡ 0

idle_case-IsWithin :
    (now max_idletime : ℕ) (z : Sizes) (blocks : ℕ) (ex : ExecutorState)
    → IsWithin z blocks (idle_case now max_idletime z blocks ex).0
unfolding idle_case
idle_case-IsWithin now max_idletime z blocks ex = elim (Bool-cases (leb blocks z.min_blocks)) [
  | inl l ↦ rw l tt
  | inr l ↦ elim (Bool-cases (ltb max_idletime (now - idle_start now ex.idle_since))) [
    | inl m ↦ rw (l, m) (let more = leb→gt blocks z.min_blocks l in omega arith)
    | inr m ↦ rw (l, m) tt
  ]
]

ceil_div-le : (a b : ℕ) → 0 < b → a ≤ ceil_div a b * b
unfolding ceil_div
ceil_div-le a b h = omega (arith, div-add-mod' (a + (b - 1)) b, mod-lt (a + (b - 1)) h)

ceil_div-lt : (a b : ℕ) → 0 < b → ceil_div a b * b < a + b
unfolding ceil_div
ceil_div-lt a b h = omega (arith, div-add-mod' (a + (b - 1)) b, mod-lt (a + (b - 1)) h)

excess_out-le : (z : Sizes) (tasks blocks : ℕ) → excess_out z tasks blocks ≤ z.max_blocks - blocks
unfolding excess_out
excess_out-le z tasks blocks = omega arith

excess_in-le : (z : Sizes) (tasks blocks : ℕ) → excess_in z tasks blocks ≤ blocks - z.min_blocks
unfolding excess_in
excess_in-le z tasks blocks = omega arith

spare_case-IsWithin :
    (kind : StrategyType) (z : Sizes) (tasks blocks : ℕ)
    → IsWithin z blocks (spare_case kind z tasks blocks)
unfolding spare_case
spare_case-IsWithin simple z tasks blocks = tt
spare_case-IsWithin htex z tasks blocks = elim (Bool-cases z.is_htex) [
  | inl h ↦ elim (Bool-cases (ltb z.min_blocks blocks)) [
    | inl l ↦ rw (h, l) (let more = ltb→lt _ _ l in omega (arith, excess_in-le z tasks blocks))
    | inr l ↦ rw (h, l) tt
  ]
  | inr h ↦ rw h tt
]

busy_case-IsWithin :
    (kind : StrategyType) (z : Sizes) (tasks blocks : ℕ)
    → IsWithin z blocks (busy_case kind z tasks blocks)
unfolding busy_case
busy_case-IsWithin kind z tasks blocks =
    let slots = blocks * z.tasks_per_node * z.nodes_per_block in
    elim (Bool-cases (overloaded z slots tasks)) [
      | inl o ↦ elim (Bool-cases (leb z.max_blocks blocks)) [
        | inl l ↦ rw (o, l) tt
        | inr l ↦ elim (Bool-cases (slots_per_block z == 0)) [
          | inl e ↦ rw (o, l, e) ((==_iff (slots_per_block z) 0).0 e)
          | inr e ↦
              rw (o, l, e) (let less = leb→gt _ _ l in omega (arith, excess_out-le z tasks blocks))
        ]
      ]
      | inr o ↦ elim (Bool-cases (slots == 0)) [
        | inl e ↦ elim (Bool-cases (ltb blocks z.max_blocks)) [
          | inl l ↦ rw (o, e, l) (let less = ltb→lt _ _ l in omega arith)
          | inr l ↦ rw (o, e, l) tt
        ]
        | inr e ↦ elim (Bool-cases (ltb tasks slots)) [
          | inl l ↦ rw (o, e, l) (spare_case-IsWithin kind z tasks blocks)
          | inr l ↦ rw (o, e, l) tt
        ]
      ]
    ]

-- The numbers that are asked for, whatever the tasks, the blocks and the timer are. (A scale in of the
-- idle blocks may give up more than this number.)
pub general_strategy-IsWithin :
    (now max_idletime : ℕ) (kind : StrategyType) (z : Sizes) (tasks blocks : ℕ) (ex : ExecutorState)
    → IsWithin z blocks (general_strategy now max_idletime kind z tasks blocks ex).0
unfolding general_strategy
general_strategy-IsWithin now max_idletime kind z tasks blocks ex = elim (Bool-cases (tasks == 0)) [
  | inl e ↦ rw e (idle_case-IsWithin now max_idletime z blocks ex)
  | inr e ↦ rw e (busy_case-IsWithin kind z tasks blocks)
]

-- `a / u <= e` and `e / s <= n` give `a <= n * s * u`.
enough : (a e n s u : ℕ) → a ≤ e * u → e ≤ n * s → a ≤ n * s * u
enough a e n s u h k = omega (arith, mul-le-mul_right u k)

more_slots : (b n t p u : ℕ) → (b + n) * t * p * u ≡ b * t * p * u + n * (t * p) * u
more_slots b n t p u = omega arith

some_tasks : (tasks over x : ℕ) → x < tasks * over → (tasks == 0) ≡ false
some_tasks zero over x h = absurd (omega arith)
some_tasks (suc tasks) over x h = ground arith

excess_enough :
    (z : Sizes) (tasks blocks : ℕ)
    → 0 < z.parallelism_under
    → 0 < z.tasks_per_node * z.nodes_per_block
    → blocks < z.max_blocks
    → (blocks + excess_out z tasks blocks ≡ z.max_blocks)
      ⊎ (tasks * z.parallelism_over
          ≤ (blocks + excess_out z tasks blocks)
            * z.tasks_per_node
            * z.nodes_per_block
            * z.parallelism_under)
unfolding excess_out
excess_enough z tasks blocks under slots below =
    let used = blocks * z.tasks_per_node * z.nodes_per_block * z.parallelism_under in
    let missing = tasks * z.parallelism_over - used in
    let excess_slots = ceil_div missing z.parallelism_under in
    let wanted = ceil_div excess_slots (slots_per_block z) in
    elim (Bool-cases (leb (z.max_blocks - blocks) wanted)) [
      | inl l ↦ inl (let large = leb→le _ _ l in omega arith)
      | inr l ↦
          let small = leb→gt _ _ l in
          let all_of_it : min wanted (z.max_blocks - blocks) ≡ wanted = omega arith in
          inr (
            rw all_of_it (
              omega (
                arith,
                enough missing excess_slots wanted (slots_per_block z) z.parallelism_under
                    (ceil_div-le missing z.parallelism_under under)
                    (ceil_div-le excess_slots (slots_per_block z) slots),
                more_slots blocks wanted z.tasks_per_node z.nodes_per_block z.parallelism_under,
              )))
    ]

not_leb_of_lt : (m n : ℕ) → m < n → leb n m ≡ false
not_leb_of_lt m n h = ground arith

positive : (n : ℕ) → 0 < n → (n == 0) ≡ false
positive n h = ground arith

-- An overloaded executor below `max_blocks`, with slots in a block and a parallelism that is a
-- fraction: it is scaled out either to `max_blocks`, or by enough blocks that the slots with them
-- are no fewer than the tasks times the parallelism.
pub overload_answered :
    (now max_idletime : ℕ) (kind : StrategyType) (z : Sizes) (tasks blocks : ℕ) (ex : ExecutorState)
    → 0 < z.parallelism_under
    → 0 < z.tasks_per_node * z.nodes_per_block
    → blocks < z.max_blocks
    → blocks * z.tasks_per_node * z.nodes_per_block * z.parallelism_under
      < tasks * z.parallelism_over
    → (n : ℕ) × ((general_strategy now max_idletime kind z tasks blocks ex).0 ≡ scale_out n)
      × ((blocks + n ≡ z.max_blocks)
          ⊎ (tasks * z.parallelism_over
              ≤ (blocks + n) * z.tasks_per_node * z.nodes_per_block * z.parallelism_under))
unfolding general_strategy busy_case
overload_answered now max_idletime kind z tasks blocks ex under slots below over = (
  excess_out z tasks blocks,
  rw
      (
        some_tasks tasks z.parallelism_over _ over,
        lt→ltb _ _ over,
        not_leb_of_lt blocks z.max_blocks below,
        positive (slots_per_block z) slots,
      )
      refl,
  excess_enough z tasks blocks under slots below,
)
