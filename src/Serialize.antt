-- ===== src/Serialize.antt =====
-- The packing of buffers in parsl/serialize/facade.py. A byte is a number.
pub mod RoundTrip
mod Examples
use parsl.Prelude.{
  ℕ, zero, suc, ◌+◌, ◌-◌, ◌*◌, ◌/◌, ◌%◌, Bool, ◌&&◌, Option, none, some, List, [], ◌∷◌, ◌++◌,
  length, take, drop, ltb, leb, ◌==◌, if◌then◌else◌,
}

abbrev pub Bytes : Type 0
Bytes = List ℕ

-- `str(n)`: the decimal digits; as many steps as the number says are enough.
unfoldable pub digits_within : ℕ → ℕ → Bytes
digits_within zero n = (48 + n) ∷ []
digits_within (suc steps) n =
    let higher = digits_within steps (n / 10) in
    if ltb n 10 then (48 + n) ∷ [] else higher ++ (48 + n % 10) ∷ []

unfoldable pub digits : ℕ → Bytes
unfolding digits_within
digits n = digits_within n n

-- `int(s)` for a string of digits; `none` is the ValueError. Signs, blanks and underscores, which
-- `int` takes too, are refused here.
unfoldable pub int_from : ℕ → Bytes → Option ℕ
int_from n [] = some n
int_from n (c ∷ cs) =
    let rest = int_from (n * 10 + (c - 48)) cs in if leb 48 c && leb c 57 then rest else none

unfoldable pub int_of : Bytes → Option ℕ
unfolding int_from
int_of [] = none
int_of (c ∷ cs) = int_from 0 (c ∷ cs)

-- `split(b'\n', 1)` into its two parts; `none` is the ValueError when there is one part only.
abbrev pub prepend_part : ℕ → Option (Bytes × Bytes) → Option (Bytes × Bytes)
prepend_part c none = none
prepend_part c (some (first, rest)) = some (c ∷ first, rest)

unfoldable pub split_line : Bytes → Option (Bytes × Bytes)
split_line [] = none
split_line (c ∷ cs) =
    let rest = split_line cs in if c == 10 then some ([], cs) else prepend_part c rest

-- The loop of `pack_buffers`, with what is packed so far.
unfoldable pub pack_from : Bytes → List Bytes → Bytes
unfolding digits
pack_from packed [] = packed
pack_from packed (buf ∷ buffers) =
    pack_from (packed ++ ((digits (length buf) ++ 10 ∷ []) ++ buf)) buffers

unfoldable pub pack_buffers : List Bytes → Bytes
unfolding pack_from
pack_buffers buffers = pack_from [] buffers

-- One turn of the loop of `unpack_buffers`: the buffer in front, and what is left.
abbrev pub cut : Option ℕ → Bytes → Option (Bytes × Bytes)
cut none buf = none
cut (some i_length) buf = some (take i_length buf, drop i_length buf)

abbrev pub cut_line : Option (Bytes × Bytes) → Option (Bytes × Bytes)
cut_line none = none
cut_line (some (s_length, buf)) = cut (int_of s_length) buf

unfoldable pub unpack_one : Bytes → Option (Bytes × Bytes)
unfolding split_line int_of
unpack_one packed_buffer = cut_line (split_line packed_buffer)

abbrev pub unpack_next :
    Option (Bytes × Bytes) → (Bytes → Option (List Bytes)) → Option (List Bytes)
unpack_next none again = none
unpack_next (some (current, rest)) again = elim (again rest) [
  | none ↦ none
  | some buffers ↦ some (current ∷ buffers)
]

-- The loop of `unpack_buffers`, for so many turns at most; `none` is a ValueError.
unfoldable pub unpack_within : ℕ → Bytes → Option (List Bytes)
unfolding unpack_one
unpack_within turns [] = some []
unpack_within zero (c ∷ cs) = none
unpack_within (suc turns) (c ∷ cs) = unpack_next (unpack_one (c ∷ cs)) (unpack_within turns)

-- Each turn takes a byte at least, so the length is enough.
unfoldable pub unpack_buffers : Bytes → Option (List Bytes)
unfolding unpack_within
unpack_buffers packed_buffer = unpack_within (length packed_buffer) packed_buffer
