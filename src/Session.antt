-- ===== src/Session.antt =====
-- A user's calls on one writer, in order, and the same calls on the specification.
pub mod Refine
use ext_encoding.Prelude.{ℕ, ◌+◌, List, [], ◌∷◌, length, Bool, ◌||◌, ltb, if◌then◌else◌}
use ext_encoding.Prelude.Int.{ℤ, is_negative}
use ext_encoding.Prelude.Word.{wrap}
use ext_encoding.Zend.{Allocator, Result, ok, throw, offset_out_of_range, length_not_positive}
use ext_encoding.Spec.{Document, put, seek, empty}
use ext_encoding.Serializers.Endian.{ByteOrder}
use ext_encoding.Writer.{ByteBufferWriter, write_byte_array, set_offset, reserve, trim, clear}
use ext_encoding.Writer.{is_positive}
use ext_encoding.Types.{Codec, FloatCasts, ZendValue, zend_type, cast_value, zif_write_type}
use ext_encoding.Types.Encoding.{encode, reserved}

-- The calls that change a writer.
pub data Call : Type 0 where
  write : (c : Codec) → ZendValue (zend_type c) → Call
  write_bytes : List ℕ → Call
  seek_to : ℤ → Call
  reserve_bytes : ℤ → Call
  trim_buffer clear_buffer : Call

unfoldable pub step :
    Allocator
    → FloatCasts
    → ByteOrder
    → Call
    → ByteBufferWriter
    → Result (Unit {0}) × ByteBufferWriter
step alloc casts native (write c z) w = zif_write_type alloc casts native c z w
step alloc casts native (write_bytes bytes) w = write_byte_array alloc bytes w
step alloc casts native (seek_to z) w = set_offset z w
step alloc casts native (reserve_bytes z) w = reserve alloc z w
step alloc casts native trim_buffer w = (ok tt, trim alloc w)
step alloc casts native clear_buffer w = (ok tt, clear w)

unfoldable pub run :
    Allocator
    → FloatCasts
    → ByteOrder
    → List Call
    → ByteBufferWriter
    → List (Result (Unit {0})) × ByteBufferWriter
run alloc casts native [] w = ([], w)
run alloc casts native (call ∷ calls) w =
    let (outcome, w') = step alloc casts native call w in
    let (outcomes, w'') = run alloc casts native calls w' in (outcome ∷ outcomes, w'')

-- The specification of a call: no memory, no byte order of the machine, no allocator.
unfoldable pub spec_step : FloatCasts → Call → Document → Result (Unit {0}) × Document
spec_step casts (write c z) d = (ok tt, put (encode c (cast_value casts c z)) d)
spec_step casts (write_bytes bytes) d = (ok tt, put bytes d)
spec_step casts (seek_to z) d =
    if is_negative z || ltb (length d.content) (wrap 64 z)
    then (throw offset_out_of_range, d)
    else (ok tt, seek (wrap 64 z) d)
spec_step casts (reserve_bytes z) d =
    if is_positive z then (ok tt, d) else (throw length_not_positive, d)
spec_step casts trim_buffer d = (ok tt, d)
spec_step casts clear_buffer d = (ok tt, empty)

unfoldable pub spec_run : FloatCasts → List Call → Document → List (Result (Unit {0})) × Document
spec_run casts [] d = ([], d)
spec_run casts (call ∷ calls) d =
    let (outcome, d') = spec_step casts call d in
    let (outcomes, d'') = spec_run casts calls d' in (outcome ∷ outcomes, d'')

-- The most bytes that a call can add.
abbrev pub cost : Call → ℕ
cost (write c z) = reserved c
cost (write_bytes bytes) = length bytes
cost _ = 0

abbrev pub total_cost : List Call → ℕ
total_cost [] = 0
total_cost (call ∷ calls) = cost call + total_cost calls
