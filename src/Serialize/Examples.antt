-- ===== src/Serialize/Examples.antt =====
-- A run of the packing of parsl/serialize/facade.py.
use parsl.Prelude.{◌≡◌, some, List, [], ◌∷◌}
use parsl.Serialize.{Bytes, pack_buffers, unpack_buffers}
use parsl.Serialize.RoundTrip.{unpack_buffers-pack_buffers}

-- A buffer with a newline, an empty one, and one of a byte.
abbrev three_buffers : List Bytes
three_buffers = (1 ∷ 10 ∷ 51 ∷ []) ∷ [] ∷ (7 ∷ []) ∷ []

unpack_buffers-pack_buffers_example :
    unpack_buffers (pack_buffers three_buffers) ≡ some three_buffers
unpack_buffers-pack_buffers_example = unpack_buffers-pack_buffers three_buffers
