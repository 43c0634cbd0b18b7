-- ===== src/Htex/Interchange/Queue.antt =====
-- The queue of pending tasks of parsl/executors/high_throughput/interchange.py.
use parsl.Prelude.{
  ℕ, zero, suc, ◌+◌, ◌≤◌, ◌<◌, ◌≡◌, refl, ap, sym, ◌∙◌, subst, ◌⊎◌, ltb→lt, lt→ltb, ==_iff, Bool,
  true, false, ◌&&◌, Option, none, some, List, [], ◌∷◌, ◌++◌, take, drop, ltb, ◌==◌, if◌then◌else◌,
  arith, All, Bool-cases, inl, inr, length,
}
use parsl.Htex.Interchange.State.{Interchange, Entry}

-- The key `(-priority, -counter)` of `x` is greater than that of `y`: `x` is popped first.
abbrev pub priority_lt : Option ℕ → Option ℕ → Bool
priority_lt none y = false
priority_lt (some x) none = true
priority_lt (some x) (some y) = ltb x y

abbrev pub priority_eq : Option ℕ → Option ℕ → Bool
priority_eq none none = true
priority_eq (some x) (some y) = x == y
priority_eq _ _ = false

unfoldable pub goes_first : Entry → Entry → Bool
goes_first x y =
    if priority_lt x.priority y.priority
    then true
    else priority_eq x.priority y.priority && ltb x.counter y.counter

-- `SortedList.add`
unfoldable pub insert : Entry → List Entry → List Entry
insert e [] = e ∷ []
insert e (x ∷ xs) = if goes_first x e then x ∷ insert e xs else e ∷ x ∷ xs

-- `get_tasks`: pops until the count or the queue is used up.
unfoldable pub get_tasks : ℕ → List Entry → List Entry × List Entry
get_tasks n queue = (take n queue, drop n queue)

-- `process_task_incoming`: a task with its priority has come from the executor.
unfoldable pub process_task_incoming : Option ℕ → ℕ → Interchange → Interchange
unfolding insert
process_task_incoming priority task_id ix = record ix {
  pending =
      insert (record { priority = priority; counter = ix.task_counter; task_id = task_id })
        ix.pending;
  task_counter = ix.task_counter + 1;
}

-- A smaller number is the higher priority, and any number is higher than none at all.
abbrev pub IsHigher : Option ℕ → Option ℕ → Type 0
IsHigher none q = ⊥
IsHigher (some p) none = Unit
IsHigher (some p) (some q) = p < q

-- The entry of a higher priority, or of the same one and with an earlier counter value.
abbrev pub Precedes : Entry → Entry → Type 0
Precedes x y =
    IsHigher x.priority y.priority ⊎ ((x.priority ≡ y.priority) × (x.counter < y.counter))

-- Each entry precedes all that follow it.
abbrev pub IsOrdered : List Entry → Type 0
IsOrdered [] = Unit
IsOrdered (x ∷ xs) = All (λ y. Precedes x y) xs × IsOrdered xs

abbrev pub CameBefore : ℕ → List Entry → Type 0
CameBefore n = All (λ x. x.counter < n)

IsHigher-trans : (p q r : Option ℕ) → IsHigher p q → IsHigher q r → IsHigher p r
IsHigher-trans none q r h k = h
IsHigher-trans (some p) none r h k = absurd k
IsHigher-trans (some p) (some q) none h k = tt
IsHigher-trans (some p) (some q) (some r) h k = omega arith

Precedes-trans : (x y z : Entry) → Precedes x y → Precedes y z → Precedes x z
Precedes-trans x y z (inl h) (inl k) = inl (IsHigher-trans x.priority y.priority z.priority h k)
Precedes-trans x y z (inl h) (inr k) = inl (subst (IsHigher x.priority) k.0 h)
Precedes-trans x y z (inr h) (inl k) = inl (subst (λ p. IsHigher p z.priority) (sym h.0) k)
Precedes-trans x y z (inr h) (inr k) =
    let first = h.1 in let second = k.1 in inr (h.0 ∙ k.0, omega arith)

-- The test of the code against an entry that came earlier.
first_by :
    (p q : Option ℕ) (m n : ℕ)
    → m < n
    → (if priority_lt p q then true else priority_eq p q && ltb m n) ≡ true
    → IsHigher p q ⊎ ((p ≡ q) × (m < n))
first_by none none m n c h = inr (refl, c)
first_by none (some q) m n c h = cc
first_by (some p) none m n c h = inl tt
first_by (some p) (some q) m n c h = elim (Bool-cases (ltb p q)) [
  | inl e ↦ inl (ltb→lt p q e)
  | inr e ↦ inr (ap some (let same : (p == q) ≡ true = ground arith in (==_iff p q).0 same), c)
]

last_by :
    (p q : Option ℕ) (m n : ℕ)
    → m < n
    → (if priority_lt p q then true else priority_eq p q && ltb m n) ≡ false
    → IsHigher q p ⊎ ((q ≡ p) × (n < m))
last_by none none m n c h = absurd (let no : ltb m n ≡ true = lt→ltb m n c in cc)
last_by none (some q) m n c h = inl tt
last_by (some p) none m n c h = cc
last_by (some p) (some q) m n c h = inl (ground arith)

All-Precedes :
    (x y : Entry) (l : List Entry)
    → Precedes x y
    → All (λ z. Precedes y z) l
    → All (λ z. Precedes x z) l
All-Precedes x y [] h a = tt
All-Precedes x y (z ∷ l) h a = (Precedes-trans x y z h a.0, All-Precedes x y l h a.1)

All-insert : (P : Entry → Type 0) (e : Entry) (l : List Entry) → P e → All P l → All P (insert e l)
unfolding insert
All-insert P e [] p a = (p, tt)
All-insert P e (x ∷ l) p a = elim (Bool-cases (goes_first x e)) [
  | inl h ↦ rw h (a.0, All-insert P e l p a.1)
  | inr h ↦ rw h (p, a)
]

insert-IsOrdered :
    (e : Entry) (l : List Entry) → CameBefore e.counter l → IsOrdered l → IsOrdered (insert e l)
unfolding insert goes_first
insert-IsOrdered e [] c o = (tt, tt)
insert-IsOrdered e (x ∷ l) c o = elim (Bool-cases (goes_first x e)) [
  | inl h ↦
      let first = first_by x.priority e.priority x.counter e.counter c.0 h in
      rw h (All-insert (λ y. Precedes x y) e l first o.0, insert-IsOrdered e l c.1 o.1)
  | inr h ↦
      let first = last_by x.priority e.priority x.counter e.counter c.0 h in
      rw h ((first, All-Precedes e x l first o.0), o)
]

CameBefore-suc : (n : ℕ) (l : List Entry) → CameBefore n l → CameBefore (n + 1) l
CameBefore-suc n [] a = tt
CameBefore-suc n (x ∷ l) a = (omega arith, CameBefore-suc n l a.1)

-- A task that comes in keeps the queue in order: each entry precedes all that follow it, with the
-- smaller number first, no priority last, and by arrival among equals. All of the queue came before the
-- counter value of the new task.
pub process_task_incoming-IsOrdered :
    (priority : Option ℕ) (task_id : ℕ) (ix : Interchange)
    → CameBefore ix.task_counter ix.pending
    → IsOrdered ix.pending
    → IsOrdered (process_task_incoming priority task_id ix).pending
      × CameBefore
          (process_task_incoming priority task_id ix).task_counter
          (process_task_incoming priority task_id ix).pending
unfolding process_task_incoming
process_task_incoming-IsOrdered priority task_id ix c o =
    let e : Entry = record { priority = priority; counter = ix.task_counter; task_id = task_id } in
    (
      insert-IsOrdered e ix.pending c o,
      All-insert (λ x. x.counter < ix.task_counter + 1) e ix.pending (omega arith)
          (CameBefore-suc ix.task_counter ix.pending c),
    )

All-drop : (P : Entry → Type 0) (n : ℕ) (l : List Entry) → All P l → All P (drop n l)
All-drop P zero l a = a
All-drop P (suc n) [] a = tt
All-drop P (suc n) (x ∷ l) a = All-drop P n l a.1

-- The tasks that are taken from an ordered queue are at most as many as asked for, go before all
-- that stay, and what is taken and what stays are the whole queue, in order.
pub get_tasks_first :
    (n : ℕ) (queue : List Entry)
    → IsOrdered queue
    → (let (taken, rest) = get_tasks n queue in
        (length taken ≤ n)
        × All (λ x. All (λ y. Precedes x y) rest) taken
        × (taken ++ rest ≡ queue)
        × IsOrdered rest)
unfolding get_tasks
get_tasks_first zero queue o = (omega arith, tt, refl, o)
get_tasks_first (suc n) [] o = (omega arith, tt, refl, tt)
get_tasks_first (suc n) (x ∷ xs) o =
    let (few, before, whole, ordered) = get_tasks_first n xs o.1 in
    (omega arith, (All-drop (λ y. Precedes x y) n xs o.0, before), ap (λ l. x ∷ l) whole, ordered)
