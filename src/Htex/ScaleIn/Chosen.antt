-- ===== src/Htex/ScaleIn/Chosen.antt =====
-- The blocks that scale_in of parsl/executors/high_throughput/executor.py chooses by their idle time.
use parsl.Prelude.{
  ℕ, zero, suc, ◌+◌, ◌<◌, Bool, true, false, ◌&&◌, ◌≡◌, refl, sym, ap, ◌∙◌, Option, none, some,
  List, [], ◌∷◌, take, ◌==◌, if◌then◌else◌, arith, Bool-cases, inl, inr, ==_iff, All, ltb→lt,
}
use parsl.Htex.Interchange.Loop.{ManagerInfo}
use parsl.Jobs.Blocks.{Statuses, get_entry}
use parsl.Htex.ScaleIn.{
  BlockInfo, insert_block, sorted_blocks, key_less, is_idle, longer, idle_blocks, block_ids_to_kill,
  with_managers, known_blocks,
}
use parsl.Htex.ScaleIn.Infos.{UniqueBlocks, collected-UniqueBlocks, AtMost, with_managers-Covers}

module _ (P : ℕ × BlockInfo → Type 0) where
  insert_block-All :
      (b : ℕ × BlockInfo) (d : List (ℕ × BlockInfo)) → P b → All P d → All P (insert_block b d)
  unfolding insert_block
  insert_block-All b [] p a = (p, tt)
  insert_block-All b (c ∷ d) p a = elim (Bool-cases (key_less c.1 b.1)) [
    | inl e ↦ rw e (a.0, insert_block-All b d p a.1)
    | inr e ↦ rw e (p, a)
  ]

  sorted_blocks-All : (d : List (ℕ × BlockInfo)) → All P d → All P (sorted_blocks d)
  unfolding sorted_blocks
  sorted_blocks-All [] a = tt
  sorted_blocks-All (b ∷ d) a = insert_block-All b (sorted_blocks d) a.0 (sorted_blocks-All d a.1)

  -- A block that is chosen has an entry that is idle.
  idle_blocks-All :
      (t blocks n : ℕ) (d : List (ℕ × BlockInfo))
      → All P d
      → All (λ k. (i : BlockInfo) × P (k, i) × (is_idle t i ≡ true)) (idle_blocks t blocks n d)
  unfolding idle_blocks
  idle_blocks-All t blocks n [] a = tt
  idle_blocks-All t blocks n ((k, i) ∷ d) a =
      by_idle (is_idle t i) refl (λ j. idle_blocks-All t blocks j d a.1)
    where
      Chosen : ℕ → Type 0
      Chosen j = (c : BlockInfo) × P (j, c) × (is_idle t c ≡ true)

      if_last : (b : Bool) (ks : List ℕ) → All Chosen ks → All Chosen (if b then [] else ks)
      if_last true ks h = tt
      if_last false ks h = h

      by_idle :
          (b : Bool)
          → is_idle t i ≡ b
          → ((j : ℕ) → All Chosen (idle_blocks t blocks j d))
          → All Chosen (
              if b
              then k
                ∷ (if n + 1 == blocks then [] else idle_blocks t blocks (if b then n + 1 else n) d)
              else idle_blocks t blocks (if b then n + 1 else n) d)
      by_idle true e ih = ((i, a.0, e), if_last (n + 1 == blocks) _ (ih (n + 1)))
      by_idle false e ih = ih n

All-map :
    {A : Type 0} {P Q : A → Type 0} (xs : List A) → ((x : A) → P x → Q x) → All P xs → All Q xs
All-map [] f a = tt
All-map (x ∷ xs) f a = (f x a.0, All-map xs f a.1)

entries_found :
    (d : List (ℕ × BlockInfo))
    → UniqueBlocks d
    → All (λ (b : ℕ × BlockInfo). get_entry b.0 d ≡ some b.1) d
unfolding get_entry
entries_found [] u = tt
entries_found ((k, i) ∷ d) u =
    (rw ((==_iff k k).1 refl) refl, All-map d further (entries_found d u.1))
  where
    further :
        (b : ℕ × BlockInfo)
        → get_entry b.0 d ≡ some b.1
        → (if k == b.0 then some i else get_entry b.0 d) ≡ some b.1
    further b h = elim (Bool-cases (k == b.0)) [
      | inl e ↦ absurd (clash (sym u.0 ∙ ap (λ n. get_entry n d) ((==_iff k b.0).0 e) ∙ h))
      | inr e ↦ rw e h
    ]
      where
        clash : ¬ (none ≡ some b.1)
        clash p = cc

idle_parts :
    (t : ℕ) (i : BlockInfo) → is_idle t i ≡ true → (longer i.idle (some t) ≡ true) × (i.tasks ≡ 0)
idle_parts t i h = both (longer i.idle (some t)) (i.tasks == 0) h refl
  where
    both : (a b : Bool) → (a && b) ≡ true → (i.tasks == 0) ≡ b → (a ≡ true) × (i.tasks ≡ 0)
    both true true p q = (refl, (==_iff i.tasks 0).0 q)
    both true false p q = cc
    both false b p q = cc

longer-AtMost : (s : Option ℕ) (t u : ℕ) → longer s (some t) ≡ true → AtMost s (some u) → t < u
longer-AtMost none t u h a = absurd a
longer-AtMost (some s) t u h a = let past = ltb→lt t s h in omega arith

-- With a `max_idletime` only idle blocks are chosen, however many are asked for: every active manager
-- that is connected from a chosen block has no task, and has been idle for longer.
pub only_idle_chosen :
    (t blocks : ℕ) (status : Statuses) (managers : List ManagerInfo)
    → All
        (λ k.
          All
            (λ (m : ManagerInfo).
              m.active ≡ true → m.block_id ≡ k → (m.tasks ≡ 0) × (t < m.idle_duration))
            managers)
        (block_ids_to_kill (some t) blocks status managers)
unfolding block_ids_to_kill
only_idle_chosen t blocks status managers =
    let d = with_managers managers (known_blocks status []) in
    All-map (idle_blocks t blocks 0 (sorted_blocks d)) spared (
      idle_blocks-All (λ b. get_entry b.0 d ≡ some b.1) t blocks 0 (sorted_blocks d)
        (sorted_blocks-All (λ b. get_entry b.0 d ≡ some b.1) d
          (entries_found d (collected-UniqueBlocks status managers))))
  where
    spared :
        (k : ℕ)
        → (i : BlockInfo) × (get_entry k (with_managers managers (known_blocks status [])) ≡ some i)
          × (is_idle t i ≡ true)
        → All
            (λ (m : ManagerInfo).
              m.active ≡ true → m.block_id ≡ k → (m.tasks ≡ 0) × (t < m.idle_duration))
            managers
    spared k (i, found, idle) =
        let (late, empty) = idle_parts t i idle in
        All-map managers
          (λ m c active same.
            let (few, longest) = c active same in
            (omega arith, longer-AtMost i.idle t m.idle_duration late longest))
          (with_managers-Covers managers (known_blocks status []) k i found)

-- The idle blocks, in the order of the sorted blocks.
abbrev pub idle_ids : ℕ → List (ℕ × BlockInfo) → List ℕ
idle_ids t [] = []
idle_ids t ((k, i) ∷ d) = if is_idle t i then k ∷ idle_ids t d else idle_ids t d

abbrev pub up_to : ℕ → List ℕ → List ℕ
up_to zero ks = ks
up_to (suc n) ks = take (suc n) ks

idle_blocks_all : (t n : ℕ) (d : List (ℕ × BlockInfo)) → idle_blocks t 0 n d ≡ idle_ids t d
unfolding idle_blocks
idle_blocks_all t n [] = refl
idle_blocks_all t n ((k, i) ∷ d) = by_idle (is_idle t i) (λ j. idle_blocks_all t j d)
  where
    by_idle :
        (b : Bool)
        → ((j : ℕ) → idle_blocks t 0 j d ≡ idle_ids t d)
        → (if b
            then k ∷ (if n + 1 == 0 then [] else idle_blocks t 0 (if b then n + 1 else n) d)
            else idle_blocks t 0 (if b then n + 1 else n) d)
          ≡ (if b then k ∷ idle_ids t d else idle_ids t d)
    by_idle true ih =
        let never : (n + 1 == 0) ≡ false = ground arith in rw never (ap (λ ks. k ∷ ks) (ih (n + 1)))
    by_idle false ih = ih n

idle_blocks-take :
    (t n r : ℕ) (d : List (ℕ × BlockInfo))
    → idle_blocks t (n + suc r) n d ≡ take (suc r) (idle_ids t d)
unfolding idle_blocks
idle_blocks-take t n r [] = refl
idle_blocks-take t n r ((k, i) ∷ d) = by_idle (is_idle t i) r (λ j q. idle_blocks-take t j q d)
  where
    by_idle :
        (b : Bool) (q : ℕ)
        → ((j p : ℕ) → idle_blocks t (j + suc p) j d ≡ take (suc p) (idle_ids t d))
        → (if b
            then k
              ∷ (if n + 1 == n + suc q
                  then []
                  else idle_blocks t (n + suc q) (if b then n + 1 else n) d)
            else idle_blocks t (n + suc q) (if b then n + 1 else n) d)
          ≡ take (suc q) (if b then k ∷ idle_ids t d else idle_ids t d)
    by_idle false q ih = ih n q
    by_idle true zero ih = let last : (n + 1 == n + suc 0) ≡ true = ground arith in rw last refl
    by_idle true (suc p) ih =
        let more : (n + 1 == n + suc (suc p)) ≡ false = ground arith in
        let shifted : n + suc (suc p) ≡ n + 1 + suc p = omega arith in
        rw more (ap (λ ks. k ∷ ks) (ap (λ l. idle_blocks t l (n + 1) d) shifted ∙ ih (n + 1) p))

-- With a `max_idletime`: asked for some blocks, `scale_in` chooses the first idle ones of the sorted
-- blocks, as many as there are, up to that number; and asked for none, it chooses all idle blocks.
pub chosen_up_to :
    (t blocks : ℕ) (status : Statuses) (managers : List ManagerInfo)
    → block_ids_to_kill (some t) blocks status managers
      ≡ up_to blocks (idle_ids t (sorted_blocks (with_managers managers (known_blocks status []))))
unfolding block_ids_to_kill
chosen_up_to t zero status managers =
    idle_blocks_all t 0 (sorted_blocks (with_managers managers (known_blocks status [])))
chosen_up_to t (suc b) status managers =
    let start : suc b ≡ 0 + suc b = omega arith in
    ap (λ l. idle_blocks t l 0 (sorted_blocks (with_managers managers (known_blocks status []))))
      start
    ∙ idle_blocks-take t 0 b (sorted_blocks (with_managers managers (known_blocks status [])))
