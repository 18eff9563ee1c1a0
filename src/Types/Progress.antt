-- ===== src/Types/Progress.antt =====
-- The progress of `read`, and loops that read while bytes are left.
use ext_encoding.Prelude.{ℕ, ◌+◌, ◌-◌, ◌<◌, ◌≡◌, refl, arith, ap, List, length}
use mathlib.Core.Path.{subst}
use ext_encoding.Types.Safety.{zif_read_type-IsValid}
use ext_encoding.Prelude.Int.{pos}
use ext_encoding.Prelude.{
  zero, suc, Bool-cases, if◌then◌else◌, ltb, Bool, true, false, get_elem?_inside, inl, inr,
}
use ext_encoding.Zend.{Result, ok, throw, fault, stuck, map_result}
use ext_encoding.Serializers.Endian.{ByteOrder}
use ext_encoding.Serializers.Contract.{IsSettled, Moves, Advances}
use ext_encoding.Serializers.Memory.Laws.{load_inside}
use ext_encoding.Serializers.Fixed.{read_byte, read_fixed_size_type}
use ext_encoding.Serializers.Triad.{read_int24}
use ext_encoding.Serializers.VarInt.Scan.Progress.{
  read_unsigned_var_int-Advances, read_signed_var_int-Advances,
}
use ext_encoding.Reader.{ByteBufferReader, get_unread_length}
use ext_encoding.Writer.{is_positive}
use ext_encoding.Reader.Laws.{get_offset-get_unread_length, IsValid}
use ext_encoding.Types.{
  Codec, byte, short, int, long, triad, float, double, var_int, var_long, FloatCasts, assign_zval,
  read_type, zif_read_type, read_type_common,
}

read_byte-Advances : Advances read_byte
unfolding read_byte
read_byte-Advances input offset within small = ground (arith, get_elem?_inside input offset)

read_fixed_size_type-Advances :
    (native : ByteOrder) (size : ℕ) (order : ByteOrder)
    → 0 < size
    → Advances (read_fixed_size_type native size order)
unfolding read_fixed_size_type
read_fixed_size_type-Advances native size order positive input offset within small =
    ground (arith, load_inside input offset size)

read_int24-Advances : (s : Bool) (order : ByteOrder) → Advances (read_int24 s order)
unfolding read_int24
read_int24-Advances s order input offset within small = ground (
  arith,
  get_elem?_inside input offset,
  get_elem?_inside input (offset + 1),
  get_elem?_inside input (offset + 2),
)

read_type-Advances : (native : ByteOrder) (c : Codec) → Advances (read_type native c)
unfolding read_type
read_type-Advances native (byte s) = read_byte-Advances
read_type-Advances native (short s o) = read_fixed_size_type-Advances native 2 o (omega arith)
read_type-Advances native (int s o) = read_fixed_size_type-Advances native 4 o (omega arith)
read_type-Advances native (long s o) = read_fixed_size_type-Advances native 8 o (omega arith)
read_type-Advances native (triad s o) = read_int24-Advances s o
read_type-Advances native (float o) = read_fixed_size_type-Advances native 4 o (omega arith)
read_type-Advances native (double o) = read_fixed_size_type-Advances native 8 o (omega arith)
read_type-Advances native (var_int true) = read_signed_var_int-Advances 32
read_type-Advances native (var_int false) = read_unsigned_var_int-Advances 32
read_type-Advances native (var_long true) = read_signed_var_int-Advances 64
read_type-Advances native (var_long false) = read_unsigned_var_int-Advances 64

map_result-Moves :
    {A B : Type 0} (f : A → B) (r : Result A) (i j : ℕ) → Moves r i j → Moves (map_result f r) i j
map_result-Moves f (ok a) i j h = h
map_result-Moves f (throw e) i j h = tt
map_result-Moves f fault i j h = tt
map_result-Moves f stuck i j h = tt

pub zif_read_type-Moves :
    (casts : FloatCasts) (native : ByteOrder) (c : Codec) {r : ByteBufferReader}
    → IsValid r
    → let (outcome, r') = zif_read_type casts native c r in Moves outcome r.offset r'.offset
unfolding zif_read_type read_type_common
zif_read_type-Moves casts native c {r} v =
    map_result-Moves (assign_zval casts c) _ r.offset _
      (read_type-Advances native c r.buffer r.offset v.inside (omega arith))

-- A call behind a read that found a value.
abbrev go_on :
    {A : Type 0}
    → (ByteBufferReader → Result (Unit {0}) × ByteBufferReader)
    → Result A × ByteBufferReader
    → Result (Unit {0}) × ByteBufferReader
go_on f (ok a, r) = f r
go_on f (throw e, r) = (throw e, r)
go_on f (fault, r) = (fault, r)
go_on f (stuck, r) = (stuck, r)

-- A loop that reads values of types of its choice while bytes are left, up to the first exception.
pub read_on :
    FloatCasts
    → ByteOrder
    → (ByteBufferReader → Codec)
    → ℕ
    → ByteBufferReader
    → Result (Unit {0}) × ByteBufferReader
read_on casts native choose zero r = (stuck, r)
read_on casts native choose (suc fuel) r =
    if is_positive (get_unread_length r)
    then go_on (read_on casts native choose fuel) (zif_read_type casts native (choose r) r)
    else (ok tt, r)

-- The end of such a loop on a string.
abbrev pub Ends : List ℕ → Result (Unit {0}) × ByteBufferReader → Type 0
Ends buffer (outcome, r) =
    IsSettled outcome
    × IsValid r
    × (r.buffer ≡ buffer)
    × (outcome ≡ ok tt → r.offset ≡ length buffer)

go_on-Ends :
    {A : Type 0} (f : ByteBufferReader → Result (Unit {0}) × ByteBufferReader)
    (r : ByteBufferReader) (fuel : ℕ)
    → ((r' : ByteBufferReader)
        → IsValid r'
        → length r'.buffer - r'.offset < fuel
        → Ends r'.buffer (f r'))
    → length r.buffer - r.offset < suc fuel
    → (s : Result A × ByteBufferReader) → IsSettled s.0
    → IsValid s.1
    → s.1.buffer ≡ r.buffer
    → Moves s.0 r.offset s.1.offset
    → Ends r.buffer (go_on f s)
go_on-Ends f r fuel rest enough (ok a, r') settled v same moved =
    subst (λ buffer. Ends buffer (f r')) same
      (rest r' v (omega (arith, ap (λ (bytes : List ℕ). length bytes) same, v.inside)))
go_on-Ends f r fuel rest enough (throw e, r') settled v same moved = (tt, v, same, λ e. cc)
go_on-Ends f r fuel rest enough (fault, r') settled v same moved = absurd settled
go_on-Ends f r fuel rest enough (stuck, r') settled v same moved = absurd settled

-- A loop on a valid reader that reads a value of a type of its choice while `getUnreadLength` is
-- above 0, with more rounds allowed than bytes are left, ends before they are used up, at the end
-- of the string or with an exception of the read. Nothing outside the string is read, and the
-- reader is valid with its string as it was.
pub read_on-Ends :
    (casts : FloatCasts) (native : ByteOrder) (choose : ByteBufferReader → Codec) (fuel : ℕ)
    (r : ByteBufferReader)
    → IsValid r
    → length r.buffer - r.offset < fuel
    → Ends r.buffer (read_on casts native choose fuel r)
unfolding read_on
read_on-Ends casts native choose zero r v enough = absurd (omega arith)
read_on-Ends casts native choose (suc fuel) r v enough =
    let unread : get_unread_length r ≡ pos (length r.buffer - r.offset) =
      (get_offset-get_unread_length r v).1 in
    elim (Bool-cases (ltb 0 (length r.buffer - r.offset))) [
      | inl more ↦
          let (settled, v', _, same) = zif_read_type-IsValid casts native (choose r) v in
          rw (unread, more)
            (go_on-Ends (read_on casts native choose fuel) r fuel
              (read_on-Ends casts native choose fuel) enough
              (zif_read_type casts native (choose r) r) settled v' same
              (zif_read_type-Moves casts native (choose r) v))
      | inr done ↦ rw (unread, done) (tt, v, refl, λ _. ground (arith, done, v.inside))
    ]
