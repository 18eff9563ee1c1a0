-- ===== src/Types.antt =====
-- classes/Types.cpp: the classes Byte, LE, BE and VarInt. A `Codec` is a line of their tables: a
-- type with the pair of serializers that reads and writes it, from which the macros make the four
-- functions `read`, `unpack`, `write` and `pack`.
pub mod Encoding
pub mod Values
pub mod RoundTrip
pub mod Pack
pub mod Safety
pub mod Progress
pub mod Tables
use ext_encoding.Prelude.{
  ◌==◌, ℕ, ◌^◌, ◌<◌, List, Option, none, some, Bool, true, false, if◌then◌else◌,
}
use ext_encoding.Prelude.{length, ◌≡◌, refl, [], ◌∷◌}
use ext_encoding.Prelude.Int.{ℤ, pos, negsuc}
use ext_encoding.Prelude.Word.{signed, wrap}
use ext_encoding.Zend.{Allocator, Result, ok, throw, fault, stuck, Reading, map_result}
use ext_encoding.Serializers.Endian.{ByteOrder, big_endian, little_endian}
use ext_encoding.Serializers.Memory.{Region, load}
use ext_encoding.Serializers.Fixed.{
  read_byte, write_byte, read_fixed_size_type, write_fixed_size_type,
}
use ext_encoding.Serializers.Triad.{read_int24, write_int24}
use ext_encoding.Serializers.VarInt.{
  read_unsigned_var_int, read_signed_var_int, write_unsigned_var_int, write_signed_var_int,
}
use ext_encoding.Writer.{ByteBufferWriter, region, update_used, prealloc_size}
use ext_encoding.Reader.{ByteBufferReader}

-- The entries of the tables: BYTE_ENTRY, FIXED_INT_ENTRIES, FLOAT_ENTRIES, TRIAD_ENTRIES and
-- VARINT_ENTRIES. The Boolean says `Signed`.
pub data Codec : Type 0 where
  byte : Bool → Codec
  short int long triad : Bool → ByteOrder → Codec
  float double : ByteOrder → Codec
  var_int var_long : Bool → Codec

-- The native types.
pub data NativeType : Type 0 where
  uint8_t int8_t uint16_t int16_t uint32_t int32_t uint64_t int64_t float_t double_t : NativeType

abbrev pub native_type : Codec → NativeType
native_type (byte s) = if s then int8_t else uint8_t
native_type (short s o) = if s then int16_t else uint16_t
native_type (int s o) = if s then int32_t else uint32_t
native_type (long s o) = if s then int64_t else uint64_t
native_type (triad s o) = if s then int32_t else uint32_t
native_type (float o) = float_t
native_type (double o) = double_t
native_type (var_int s) = if s then int32_t else uint32_t
native_type (var_long s) = if s then int64_t else uint64_t

-- The PHP type on the other side: an int as an integer, a float as the bit pattern of its double.
pub data ZendType : Type 0 where
  zend_long zend_double : ZendType

abbrev pub zend_type : Codec → ZendType
zend_type (float o) = zend_double
zend_type (double o) = zend_double
zend_type _ = zend_long

abbrev pub ZendValue : ZendType → Type 0
ZendValue zend_long = ℤ
ZendValue zend_double = ℕ

-- `sizeof(TValue) * CHAR_BIT` and `std::is_signed<TValue>`
abbrev pub type_bits : NativeType → ℕ
type_bits uint8_t = 8
type_bits int8_t = 8
type_bits uint16_t = 16
type_bits int16_t = 16
type_bits uint32_t = 32
type_bits int32_t = 32
type_bits uint64_t = 64
type_bits int64_t = 64
type_bits float_t = 32
type_bits double_t = 64

abbrev pub is_signed : NativeType → Bool
is_signed uint8_t = false
is_signed uint16_t = false
is_signed uint32_t = false
is_signed uint64_t = false
is_signed _ = true

-- The conversions between double and float that the compiler supplies, on bit patterns.
pub record FloatCasts : Type 0 where
  pub to_float : ℕ → ℕ
  pub to_double : ℕ → ℕ
  pub to_float-lt : (d : ℕ) → to_float d < 2 ^ 32

-- The conversion of a `TValue` to zend_long, which has 64 bits and a sign.
abbrev pub to_zend_long : NativeType → ℕ → ℤ
to_zend_long t v = signed (if is_signed t then type_bits t else 64) v

-- `assignZval`
unfoldable pub assign_zval : FloatCasts → (c : Codec) → ℕ → ZendValue (zend_type c)
assign_zval casts (float o) v = casts.to_double v
assign_zval casts (double o) v = v
assign_zval casts c v = to_zend_long (native_type c) v

-- `static_cast<TValue>(actualValue)` of `parseWriteTypeParams` and `parsePackTypeParams`
unfoldable pub cast_value : FloatCasts → (c : Codec) → ZendValue (zend_type c) → ℕ
cast_value casts (float o) d = casts.to_float d
cast_value casts (double o) d = d
cast_value casts c z = wrap (type_bits (native_type c)) z

-- The serializers of an entry, on a machine of byte order `native`.
unfoldable pub read_type : ByteOrder → Codec → List ℕ → ℕ → Reading ℕ
read_type native (byte s) = read_byte
read_type native (short s o) = read_fixed_size_type native 2 o
read_type native (int s o) = read_fixed_size_type native 4 o
read_type native (long s o) = read_fixed_size_type native 8 o
read_type native (float o) = read_fixed_size_type native 4 o
read_type native (double o) = read_fixed_size_type native 8 o
read_type native (triad s o) = read_int24 s o
read_type native (var_int s) = if s then read_signed_var_int 32 else read_unsigned_var_int 32
read_type native (var_long s) = if s then read_signed_var_int 64 else read_unsigned_var_int 64

unfoldable pub write_type : Allocator → ByteOrder → Codec → ℕ → Region → Option Region
write_type alloc native (byte s) = write_byte alloc
write_type alloc native (short s o) = write_fixed_size_type alloc native 2 o
write_type alloc native (int s o) = write_fixed_size_type alloc native 4 o
write_type alloc native (long s o) = write_fixed_size_type alloc native 8 o
write_type alloc native (float o) = write_fixed_size_type alloc native 4 o
write_type alloc native (double o) = write_fixed_size_type alloc native 8 o
write_type alloc native (triad s o) = write_int24 alloc s o
write_type alloc native (var_int s) =
    if s then write_signed_var_int alloc 32 else write_unsigned_var_int alloc 32
write_type alloc native (var_long s) =
    if s then write_signed_var_int alloc 64 else write_unsigned_var_int alloc 64

-- `readTypeCommon`, on the reader that is passed by reference
unfoldable pub read_type_common :
    FloatCasts
    → ByteOrder
    → (c : Codec) → ByteBufferReader
    → Result (ZendValue (zend_type c)) × ByteBufferReader
read_type_common casts native c reader =
    let (result, offset) = read_type native c reader.buffer (length reader.buffer) reader.offset in
    (map_result (assign_zval casts c) result, record reader { offset = offset })

-- `zif_readType` and `zif_unpackType`
unfoldable pub zif_read_type :
    FloatCasts
    → ByteOrder
    → (c : Codec) → ByteBufferReader
    → Result (ZendValue (zend_type c)) × ByteBufferReader
zif_read_type casts native c reader = read_type_common casts native c reader

unfoldable pub zif_unpack_type :
    FloatCasts → ByteOrder → (c : Codec) → List ℕ → Result (ZendValue (zend_type c))
zif_unpack_type casts native c bytes =
    (read_type_common casts native c (record { buffer = bytes; offset = 0 })).0

-- `writeTypeCommon`, on the writer that is passed by reference
unfoldable pub write_type_common :
    Allocator → ByteOrder → Codec → ℕ → ByteBufferWriter → Result (Unit {0}) × ByteBufferWriter
write_type_common alloc native c value writer =
    elim (write_type alloc native c value (region writer)) [
      | some m ↦ (ok tt, update_used writer m)
      | none ↦ (fault, writer)
    ]

-- `zif_writeType` and `zif_packType`
unfoldable pub zif_write_type :
    Allocator
    → FloatCasts
    → ByteOrder
    → (c : Codec) → ZendValue (zend_type c)
    → ByteBufferWriter
    → Result (Unit {0}) × ByteBufferWriter
zif_write_type alloc casts native c z writer =
    write_type_common alloc native c (cast_value casts c z) writer

-- `unsigned char stackBuffer[16]`, of any content, in a writer of its own
abbrev pub stack_size : ℕ
stack_size = 16

abbrev pub stack_writer : List ℕ → ByteBufferWriter
stack_writer stack = record { buffer = stack; length = stack_size; offset = 0; used = 0 }

-- `writer.buffer != stackBuffer` holds only if `extendBuffer` gave the stack to `erealloc`, which takes
-- no such pointer; that is when it made the length larger.
unfoldable pub zif_pack_type :
    Allocator
    → FloatCasts
    → ByteOrder
    → List ℕ
    → (c : Codec) → ZendValue (zend_type c)
    → Result (List ℕ)
zif_pack_type alloc casts native stack c z =
    let (outcome, writer) =
      write_type_common alloc native c (cast_value casts c z) (stack_writer stack) in
    elim outcome [
      | ok _ ↦
          if writer.length == stack_size
          then elim (load writer.buffer 0 writer.used) [ some bytes ↦ ok bytes | none ↦ fault ]
          else fault
      | throw e ↦ throw e
      | fault ↦ fault
      | stuck ↦ stuck
    ]
