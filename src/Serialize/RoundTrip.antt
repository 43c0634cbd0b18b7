-- ===== src/Serialize/RoundTrip.antt =====
-- What parsl/serialize/facade.py packs, it unpacks.
use native.Mathlib.Nat.{div-add-mod', mod-lt}
use mathlib.Core.Option.{some-injective}
use parsl.Prelude.{
  ltb→ge, ℕ, zero, suc, ◌+◌, ◌-◌, ◌*◌, ◌/◌, ◌%◌, ◌≤◌, ◌<◌, true, false, ◌&&◌, ◌≡◌, ◌≢◌, refl,
  Option, none, some, List, [], ◌∷◌, ◌++◌, length, ltb, leb, ◌==◌, if◌then◌else◌, arith, Bool-cases,
  inl, inr, All, ap, sym, ◌∙◌, subst, ltb→lt, append_assoc, length-append, append-nil,
}
use parsl.Serialize.{
  Bytes, digits_within, digits, int_from, int_of, split_line, prepend_part, pack_from, pack_buffers,
  cut, cut_line, unpack_one, unpack_next, unpack_within, unpack_buffers,
}

abbrev AllDigits : Bytes → Type 0
AllDigits = All (λ c. (48 ≤ c) × (c ≤ 57))

digit_range : (c : ℕ) → 48 ≤ c → c ≤ 57 → (leb 48 c && leb c 57) ≡ true
digit_range c h k = ground arith

AllDigits-append : (xs ys : Bytes) → AllDigits xs → AllDigits ys → AllDigits (xs ++ ys)
AllDigits-append [] ys a b = b
AllDigits-append (x ∷ xs) ys a b = (a.0, AllDigits-append xs ys a.1 b)

one_digit : (k n : ℕ) → n < 10 → int_from k ((48 + n) ∷ []) ≡ some (k * 10 + n)
unfolding int_from
one_digit k n l = rw (digit_range (48 + n) (omega arith) (omega arith)) (ap some (omega arith))

-- The digits of a number are digits, and read as the number.
int_from-append :
    (n v d : ℕ) (xs : Bytes)
    → int_from n xs ≡ some v
    → d < 10
    → int_from n (xs ++ (48 + d) ∷ []) ≡ some (v * 10 + d)
unfolding int_from
int_from-append n v d [] h l = one_digit n d l ∙ ap (λ x. some (x * 10 + d)) (some-injective _ _ h)
int_from-append n v d (c ∷ xs) h l = elim (Bool-cases (leb 48 c && leb c 57)) [
  | inl b ↦ rw b (
      int_from-append (n * 10 + (c - 48)) v d xs
        (subst (λ t. (if t then int_from (n * 10 + (c - 48)) xs else none) ≡ some v) b h) l)
  | inr b ↦ absurd (
      let no = subst (λ t. (if t then int_from (n * 10 + (c - 48)) xs else none) ≡ some v) b h in
      cc)
]

digits_within-int :
    (steps n : ℕ)
    → n ≤ steps
    → AllDigits (digits_within steps n) × (int_from 0 (digits_within steps n) ≡ some n)
unfolding digits_within
digits_within-int zero n h =
    (((omega arith, omega arith), tt), one_digit 0 n (omega arith) ∙ ap some (omega arith))
digits_within-int (suc steps) n h = elim (Bool-cases (ltb n 10)) [
  | inl l ↦ rw l (
      let few = ltb→lt n 10 l in
      (((omega arith, omega arith), tt), one_digit 0 n few ∙ ap some (omega arith)))
  | inr l ↦
      let large = ltb→ge n 10 l in
      let split = div-add-mod' n 10 in
      let small : n % 10 < 10 = mod-lt n (omega arith) in
      let (all, reads) = digits_within-int steps (n / 10) (omega arith) in
      rw l (
        AllDigits-append _ _ all ((omega arith, omega arith), tt),
        int_from-append 0 (n / 10) (n % 10) _ reads small ∙ ap some split,
      )
]

no_newline : (c : ℕ) → 48 ≤ c → (c == 10) ≡ false
no_newline c h = ground arith

-- A line of digits is split off at its end, whatever bytes follow.
split_line-digits :
    (xs rest : Bytes) → AllDigits xs → split_line (xs ++ 10 ∷ rest) ≡ some (xs, rest)
unfolding split_line
split_line-digits [] rest a = refl
split_line-digits (c ∷ xs) rest a =
    rw (no_newline c a.0.0) (ap (prepend_part c) (split_line-digits xs rest a.1))

nonempty : (xs : Bytes) (d : ℕ) → (c : ℕ) × (cs : Bytes) × (xs ++ d ∷ [] ≡ c ∷ cs)
nonempty [] d = (d, [], refl)
nonempty (x ∷ xs) d = (x, xs ++ d ∷ [], refl)

digits_within-cons : (steps n : ℕ) → (c : ℕ) × (cs : Bytes) × (digits_within steps n ≡ c ∷ cs)
unfolding digits_within
digits_within-cons zero n = (48 + n, [], refl)
digits_within-cons (suc steps) n = elim (Bool-cases (ltb n 10)) [
  | inl l ↦ (48 + n, [], rw l refl)
  | inr l ↦ rw l (nonempty (digits_within steps (n / 10)) (48 + n % 10))
]

int_of-digits : (n : ℕ) → int_of (digits n) ≡ some n
unfolding int_of digits
int_of-digits n =
    let (c, cs, e) = digits_within-cons n n in
    ap int_of e ∙ sym (ap (int_from 0) e) ∙ (digits_within-int n n (omega arith)).1

digits-AllDigits : (n : ℕ) → AllDigits (digits n)
unfolding digits
digits-AllDigits n = (digits_within-int n n (omega arith)).0

cut-append : (buf rest : Bytes) → cut (some (length buf)) (buf ++ rest) ≡ some (buf, rest)
cut-append [] rest = refl
cut-append (c ∷ buf) rest = ap (add_first c) (cut-append buf rest)
  where
    add_first : ℕ → Option (Bytes × Bytes) → Option (Bytes × Bytes)
    add_first c none = none
    add_first c (some (first, last)) = some (c ∷ first, last)

unpack_one-packed :
    (buf rest : Bytes) → unpack_one (digits (length buf) ++ 10 ∷ (buf ++ rest)) ≡ some (buf, rest)
unfolding unpack_one
unpack_one-packed buf rest =
    ap cut_line
      (split_line-digits (digits (length buf)) (buf ++ rest) (digits-AllDigits (length buf)))
    ∙ ap (λ o. cut o (buf ++ rest)) (int_of-digits (length buf))
    ∙ cut-append buf rest

-- The bytes of packed buffers.
unfoldable packed_bytes : List Bytes → Bytes
packed_bytes [] = []
packed_bytes (buf ∷ buffers) = digits (length buf) ++ 10 ∷ (buf ++ packed_bytes buffers)

pack_from-eq :
    (packed : Bytes) (buffers : List Bytes)
    → pack_from packed buffers ≡ packed ++ packed_bytes buffers
unfolding pack_from packed_bytes
pack_from-eq packed [] = sym (append-nil packed)
pack_from-eq packed (buf ∷ buffers) =
    let header = digits (length buf) ++ 10 ∷ [] in
    pack_from-eq (packed ++ (header ++ buf)) buffers
    ∙ append_assoc packed (header ++ buf) (packed_bytes buffers)
    ∙ ap (λ l. packed ++ l) (append_assoc header buf (packed_bytes buffers))
    ∙ ap (λ l. packed ++ l)
        (append_assoc (digits (length buf)) (10 ∷ []) (buf ++ packed_bytes buffers))

nothing_left : (current rest : Bytes) → unpack_one [] ≢ some (current, rest)
unfolding unpack_one split_line
nothing_left current rest h = cc

unpack_step :
    (turns : ℕ) (packed current rest : Bytes) (buffers : List Bytes)
    → unpack_one packed ≡ some (current, rest)
    → unpack_within turns rest ≡ some buffers
    → unpack_within (suc turns) packed ≡ some (current ∷ buffers)
unfolding unpack_within
unpack_step turns [] current rest buffers h k = absurd (nothing_left current rest h)
unpack_step turns (c ∷ cs) current rest buffers h k =
    ap (λ o. unpack_next o (unpack_within turns)) h ∙ added k
  where
    added :
        {o : Option (List Bytes)}
        → o ≡ some buffers
        → (elim o [ none ↦ none | some bs ↦ some (current ∷ bs) ]) ≡ some (current ∷ buffers)
    added e =
        ap (λ (o : Option (List Bytes)). elim o [ none ↦ none | some bs ↦ some (current ∷ bs) ]) e

unpack_within-packed :
    (turns : ℕ) (buffers : List Bytes)
    → length (packed_bytes buffers) ≤ turns
    → unpack_within turns (packed_bytes buffers) ≡ some buffers
unfolding packed_bytes
unpack_within-packed turns [] h = unfold unpack_within in refl
unpack_within-packed zero (buf ∷ buffers) h =
    absurd
      (omega (arith, h, length-append (digits (length buf)) (10 ∷ (buf ++ packed_bytes buffers))))
unpack_within-packed (suc turns) (buf ∷ buffers) h =
    unpack_step turns _ buf (packed_bytes buffers) buffers
      (unpack_one-packed buf (packed_bytes buffers))
      (unpack_within-packed turns buffers (
        omega (
          arith,
          h,
          length-append (digits (length buf)) (10 ∷ (buf ++ packed_bytes buffers)),
          length-append buf (packed_bytes buffers),
        )))

-- `unpack_buffers` gives back the buffers that `pack_buffers` was given, whatever bytes they hold,
-- newlines among them.
pub unpack_buffers-pack_buffers :
    (buffers : List Bytes) → unpack_buffers (pack_buffers buffers) ≡ some buffers
unfolding unpack_buffers pack_buffers
unpack_buffers-pack_buffers buffers =
    subst (λ p. unpack_within (length p) p ≡ some buffers) (sym (pack_from-eq [] buffers))
      (unpack_within-packed (length (packed_bytes buffers)) buffers (omega arith))
