-- ===== src/Types/Values.antt =====
-- The conversions between PHP ints and the native integer types.
use ext_encoding.Prelude.{ℕ, suc, ◌%◌, ◌^◌, ◌≤◌, ◌<◌, ◌≡◌, refl, arith}
use ext_encoding.Prelude.{Bool, true, false, if◌then◌else◌}
use ext_encoding.Prelude.Bits.{two_pow_suc, two_pow_pos, half_power}
use native.Mathlib.Nat.{mod-lt, mod-eq_of_lt}
use ext_encoding.Serializers.Triad.Laws.{widen_triad}
use ext_encoding.Prelude.Int.{ℤ, pos, negsuc}
use ext_encoding.Prelude.Word.{signed, wrap, InRange}
use ext_encoding.Types.{
  ZendType, zend_long, zend_double, Codec, byte, short, int, long, triad, float, double, var_int,
  var_long, native_type, type_bits, FloatCasts, cast_value, assign_zval, ZendValue, zend_type,
}
use ext_encoding.Types.Encoding.{Fits, read_back}

-- What PHP passes: an int has 64 bits and a sign, and a float is the pattern of a double.
abbrev pub IsZendValue : (t : ZendType) → ZendValue t → Type 0
IsZendValue zend_long z = InRange true 64 z
IsZendValue zend_double d = d < 2 ^ 64

-- The values that an entry is for: what its type, or its three bytes, can hold. An unsigned 64-bit
-- value is any int, since PHP has no larger ones.
abbrev pub IsValue : (c : Codec) → ZendValue (zend_type c) → Type 0
IsValue (byte s) z = InRange s 8 z
IsValue (short s o) z = InRange s 16 z
IsValue (int s o) z = InRange s 32 z
IsValue (long s o) z = InRange true 64 z
IsValue (triad s o) z = InRange s 24 z
IsValue (float o) d = d < 2 ^ 64
IsValue (double o) d = d < 2 ^ 64
IsValue (var_int s) z = InRange s 32 z
IsValue (var_long s) z = InRange true 64 z

-- The value that comes back: a double goes through a float, all else is unchanged.
abbrev pub rounded : FloatCasts → (c : Codec) → ZendValue (zend_type c) → ZendValue (zend_type c)
rounded casts (float o) d = casts.to_double (casts.to_float d)
rounded casts c z = z

wrap-lt : (w : ℕ) (z : ℤ) → wrap w z < 2 ^ w
wrap-lt w (pos n) = mod-lt n (two_pow_pos w)
wrap-lt w (negsuc n) = omega (arith, two_pow_pos w)

-- A cast leaves a value of the native type.
pub cast_value-Fits :
    (casts : FloatCasts) (c : Codec) (z : ZendValue (zend_type c))
    → IsZendValue (zend_type c) z
    → Fits c (cast_value casts c z)
unfolding cast_value
cast_value-Fits casts (float o) d h = casts.to_float-lt d
cast_value-Fits casts (double o) d h = h
cast_value-Fits casts c z h = wrap-lt (type_bits (native_type c)) z

-- An integer that fits the width survives the cast and the way back.
signed-wrap : (w : ℕ) (z : ℤ) → InRange true (suc w) z → signed (suc w) (wrap (suc w) z) ≡ z
signed-wrap w (pos n) h =
    ground (arith, half_power w, two_pow_suc w, two_pow_pos w, mod-eq_of_lt (fits n h))
  where
    fits : (n : ℕ) → InRange true (suc w) (pos n) → n < 2 ^ suc w
    fits n h = omega (arith, half_power w, two_pow_suc w, two_pow_pos w)
signed-wrap w (negsuc n) h =
    ground (arith, half_power w, two_pow_suc w, two_pow_pos w, mod-eq_of_lt (fits n h))
  where
    fits : (n : ℕ) → InRange true (suc w) (negsuc n) → n < 2 ^ suc w
    fits n h = omega (arith, half_power w, two_pow_suc w, two_pow_pos w)

unsigned-wrap : (w : ℕ) (z : ℤ) → 2 ^ w ≤ 2 ^ 63 → InRange false w z → signed 64 (wrap w z) ≡ z
unsigned-wrap w (pos n) small h =
    let fits : n < 2 ^ w = omega (arith, two_pow_pos w) in ground (arith, mod-eq_of_lt fits)
unsigned-wrap w (negsuc n) small h = absurd (omega arith)

triad-wrap :
    (s : Bool) (z : ℤ)
    → InRange s 24 z
    → signed (if s then 32 else 64) (widen_triad s (wrap 32 z % 2 ^ 24)) ≡ z
triad-wrap true (pos n) h = ground arith
triad-wrap true (negsuc n) h = ground arith
triad-wrap false (pos n) h = ground arith
triad-wrap false (negsuc n) h = absurd (omega arith)

-- What is read back of a value is the value, up to the precision of a float.
pub assign_zval-cast_value :
    (casts : FloatCasts) (c : Codec) (z : ZendValue (zend_type c))
    → IsValue c z
    → assign_zval casts c (read_back c (cast_value casts c z)) ≡ rounded casts c z
unfolding assign_zval cast_value
assign_zval-cast_value casts (float o) d h = refl
assign_zval-cast_value casts (double o) d h = refl
assign_zval-cast_value casts (byte true) z h = signed-wrap 7 z h
assign_zval-cast_value casts (byte false) z h = unsigned-wrap 8 z (omega arith) h
assign_zval-cast_value casts (short true o) z h = signed-wrap 15 z h
assign_zval-cast_value casts (short false o) z h = unsigned-wrap 16 z (omega arith) h
assign_zval-cast_value casts (int true o) z h = signed-wrap 31 z h
assign_zval-cast_value casts (int false o) z h = unsigned-wrap 32 z (omega arith) h
assign_zval-cast_value casts (long true o) z h = signed-wrap 63 z h
assign_zval-cast_value casts (long false o) z h = signed-wrap 63 z h
assign_zval-cast_value casts (triad true o) z h = triad-wrap true z h
assign_zval-cast_value casts (triad false o) z h = triad-wrap false z h
assign_zval-cast_value casts (var_int true) z h = signed-wrap 31 z h
assign_zval-cast_value casts (var_int false) z h = unsigned-wrap 32 z (omega arith) h
assign_zval-cast_value casts (var_long true) z h = signed-wrap 63 z h
assign_zval-cast_value casts (var_long false) z h = signed-wrap 63 z h
