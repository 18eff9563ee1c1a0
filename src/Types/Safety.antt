-- ===== src/Types/Safety.antt =====
-- `read` and `unpack` on input that nobody vouches for.
use ext_encoding.Prelude.{
  ℕ, ◌+◌, ◌-◌, ◌^◌, ◌≤◌, ◌<◌, ◌≡◌, refl, arith, List, length, get_elem?_past,
}
use ext_encoding.Prelude.{Bool, true, false}
use ext_encoding.Zend.{Result, ok, throw, fault, stuck, map_result, need_bytes}
use ext_encoding.Serializers.Endian.{ByteOrder}
use ext_encoding.Serializers.Contract.{IsSettled}
use ext_encoding.Serializers.Memory.{load}
use ext_encoding.Serializers.Fixed.{read_byte, read_fixed_size_type}
use ext_encoding.Serializers.Triad.{read_int24}
use ext_encoding.Reader.{ByteBufferReader}
use ext_encoding.Reader.Laws.{IsValid}
use ext_encoding.Types.{Codec, var_int, var_long}
use ext_encoding.Types.{FloatCasts, assign_zval, read_type}
use ext_encoding.Types.{zif_read_type, read_type_common, zif_unpack_type}
use ext_encoding.Types.Encoding.{reserved, read_type-Settles}

pub map_result-IsSettled :
    {A B : Type 0} (f : A → B) (r : Result A) → IsSettled r → IsSettled (map_result f r)
map_result-IsSettled f (ok a) h = tt
map_result-IsSettled f (throw e) h = tt
map_result-IsSettled f fault h = h
map_result-IsSettled f stuck h = h

-- On a valid reader, whatever its string holds, `read` returns or throws, reads nothing outside the
-- string, moves forward if at all, and leaves the reader valid and its string as it was.
pub zif_read_type-IsValid :
    (casts : FloatCasts) (native : ByteOrder) (c : Codec) {r : ByteBufferReader}
    → IsValid r
    → let (outcome, r') = zif_read_type casts native c r in
      IsSettled outcome × IsValid r' × (r.offset ≤ r'.offset) × (r'.buffer ≡ r.buffer)
unfolding zif_read_type read_type_common
zif_read_type-IsValid casts native c {r} v =
    let (settled, forward, inside) =
      read_type-Settles native c r.buffer r.offset v.inside (omega arith) in
    (
      map_result-IsSettled (assign_zval casts c) _ settled,
      record { small = v.small; inside = inside },
      forward,
      refl,
    )

-- The types of a fixed size.
abbrev pub is_fixed : Codec → Bool
is_fixed (var_int s) = false
is_fixed (var_long s) = false
is_fixed _ = true

-- On a valid reader with too few bytes left `read` of a fixed-size type throws, with both numbers
-- in the message, and leaves the reader as it was.
pub zif_read_type_short :
    (casts : FloatCasts) (native : ByteOrder) (c : Codec) {r : ByteBufferReader}
    → is_fixed c ≡ true
    → IsValid r
    → length r.buffer - r.offset < reserved c
    → zif_read_type casts native c r
      ≡ (throw (need_bytes (reserved c) (length r.buffer - r.offset)), r)
unfolding zif_read_type read_type_common read_type read_byte read_fixed_size_type read_int24
zif_read_type_short casts native (var_int s) e v h = cc
zif_read_type_short casts native (var_long s) e v h = cc
zif_read_type_short casts native c e v h = ground arith

-- `unpack` of any string of less than 2 ^ 63 bytes returns or throws, and reads nothing outside the
-- string.
pub zif_unpack_type-IsSettled :
    (casts : FloatCasts) (native : ByteOrder) (c : Codec) (bytes : List ℕ)
    → length bytes < 2 ^ 63
    → IsSettled (zif_unpack_type casts native c bytes)
unfolding zif_unpack_type read_type_common
zif_unpack_type-IsSettled casts native c bytes small =
    map_result-IsSettled (assign_zval casts c) _
      (read_type-Settles native c bytes 0 (omega arith) (omega arith)).0

-- A reader whose offset is past the end of its string, and at most 2 ^ 64 less the size of the
-- type, does not throw: the number of bytes left wraps around, so that the check passes and `read`
-- of a fixed-size type reads outside the string.
pub zif_read_type_past_end :
    (casts : FloatCasts) (native : ByteOrder) (c : Codec) (r : ByteBufferReader)
    → is_fixed c ≡ true
    → length r.buffer < r.offset
    → r.offset + reserved c ≤ 2 ^ 64
    → (zif_read_type casts native c r).0 ≡ fault
unfolding zif_read_type read_type_common read_type read_byte read_fixed_size_type read_int24 load
zif_read_type_past_end casts native (var_int s) r e past small = cc
zif_read_type_past_end casts native (var_long s) r e past small = cc
zif_read_type_past_end casts native c r e past small =
    ground (arith, get_elem?_past r.buffer r.offset)
