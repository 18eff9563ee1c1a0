-- ===== src/Types/Encoding.antt =====
-- The bytes of each entry of the tables, and that its serializers meet the contract with them.
use ext_encoding.Prelude.{ℕ, ◌%◌, ◌^◌, ◌<◌, ◌≡◌, refl, arith}
use ext_encoding.Prelude.{List, [], ◌∷◌, true, false, if◌then◌else◌}
use ext_encoding.Zend.{Allocator}
use ext_encoding.Serializers.Endian.{ByteOrder, big_endian, little_endian}
use ext_encoding.Serializers.Endian.Laws.{order_bytes}
use ext_encoding.Serializers.Contract.{Writes, Reads, Settles}
use ext_encoding.Serializers.Fixed.Laws.{write_byte-Writes, write_fixed_size_type-Writes}
use ext_encoding.Serializers.Fixed.Laws.{read_byte-Reads, read_fixed_size_type-Reads}
use ext_encoding.Serializers.Fixed.Laws.{read_byte-Settles, read_fixed_size_type-Settles}
use ext_encoding.Serializers.Triad.Laws.{write_int24-Writes, read_int24-Reads, read_int24-Settles}
use ext_encoding.Serializers.Triad.Laws.{widen_triad}
use ext_encoding.Serializers.VarInt.{read_unsigned_var_int}
use ext_encoding.Serializers.VarInt.Write.{groups, write_unsigned_var_int-Writes}
use ext_encoding.Serializers.VarInt.Scan.{read_unsigned_var_int-Reads, read_unsigned_var_int_bounds}
use ext_encoding.Serializers.VarInt.Sign.{zigzag, write_signed_var_int-Writes}
use ext_encoding.Serializers.VarInt.Sign.{read_signed_var_int-Reads, read_signed_var_int-Settles}
use ext_encoding.Types.{
  Codec, byte, short, int, long, triad, float, double, var_int, var_long, native_type, type_bits,
  read_type, write_type,
}

-- The bytes that stand for a value of the native type.
abbrev pub encode : Codec → ℕ → List ℕ
encode (byte s) v = v ∷ []
encode (short s o) v = order_bytes o 2 v
encode (int s o) v = order_bytes o 4 v
encode (long s o) v = order_bytes o 8 v
encode (triad s o) v = order_bytes o 3 v
encode (float o) v = order_bytes o 4 v
encode (double o) v = order_bytes o 8 v
encode (var_int s) v = groups 4 (if s then zigzag 31 v else v)
encode (var_long s) v = groups 9 (if s then zigzag 63 v else v)

-- The bytes that are reserved for any value, and at least as many as are written.
abbrev pub reserved : Codec → ℕ
reserved (byte s) = 1
reserved (short s o) = 2
reserved (int s o) = 4
reserved (long s o) = 8
reserved (triad s o) = 3
reserved (float o) = 4
reserved (double o) = 8
reserved (var_int s) = 5
reserved (var_long s) = 10

abbrev pub Fits : Codec → ℕ → Type 0
Fits c v = v < 2 ^ type_bits (native_type c)

-- What is read back: a triad keeps 24 bits, and extends their sign.
abbrev pub read_back : Codec → ℕ → ℕ
read_back (triad s o) v = widen_triad s (v % 2 ^ 24)
read_back _ v = v

module _ (alloc : Allocator) (native : ByteOrder) where
  pub write_type-Writes :
      (c : Codec) (v : ℕ)
      → Fits c v
      → Writes alloc (write_type alloc native c v) (reserved c) (encode c v)
  unfolding write_type
  write_type-Writes (byte s) v fits = write_byte-Writes alloc v
  write_type-Writes (short s o) v fits = write_fixed_size_type-Writes alloc native 2 o v
  write_type-Writes (int s o) v fits = write_fixed_size_type-Writes alloc native 4 o v
  write_type-Writes (long s o) v fits = write_fixed_size_type-Writes alloc native 8 o v
  write_type-Writes (triad true o) v fits = write_int24-Writes alloc true o v fits
  write_type-Writes (triad false o) v fits = write_int24-Writes alloc false o v fits
  write_type-Writes (float o) v fits = write_fixed_size_type-Writes alloc native 4 o v
  write_type-Writes (double o) v fits = write_fixed_size_type-Writes alloc native 8 o v
  write_type-Writes (var_int true) v fits =
      write_signed_var_int-Writes alloc 31 4 v refl (omega arith) fits
  write_type-Writes (var_int false) v fits =
      write_unsigned_var_int-Writes alloc 32 4 v refl (omega arith)
  write_type-Writes (var_long true) v fits =
      write_signed_var_int-Writes alloc 63 9 v refl (omega arith) fits
  write_type-Writes (var_long false) v fits =
      write_unsigned_var_int-Writes alloc 64 9 v refl (omega arith)

triad_bytes_low : (o : ByteOrder) (v : ℕ) → order_bytes o 3 v ≡ order_bytes o 3 (v % 2 ^ 24)
triad_bytes_low big_endian v = ground arith
triad_bytes_low little_endian v = ground arith

unsigned-Settles : (bits : ℕ) → Settles (read_unsigned_var_int bits)
unsigned-Settles bits input offset within small =
    let (settled, forward, inside, _) =
      read_unsigned_var_int_bounds bits input offset within small in
    (settled, forward, inside)

module _ (native : ByteOrder) where
  pub read_type-Reads :
      (c : Codec) (v : ℕ) → Fits c v → Reads (read_type native c) (encode c v) (read_back c v)
  unfolding read_type
  read_type-Reads (byte s) v fits = read_byte-Reads v
  read_type-Reads (short true o) v fits = read_fixed_size_type-Reads native 2 o v fits
  read_type-Reads (short false o) v fits = read_fixed_size_type-Reads native 2 o v fits
  read_type-Reads (int true o) v fits = read_fixed_size_type-Reads native 4 o v fits
  read_type-Reads (int false o) v fits = read_fixed_size_type-Reads native 4 o v fits
  read_type-Reads (long true o) v fits = read_fixed_size_type-Reads native 8 o v fits
  read_type-Reads (long false o) v fits = read_fixed_size_type-Reads native 8 o v fits
  read_type-Reads (triad s o) v fits =
      rw (triad_bytes_low o v) (read_int24-Reads s o (v % 2 ^ 24) (omega arith))
  read_type-Reads (float o) v fits = read_fixed_size_type-Reads native 4 o v fits
  read_type-Reads (double o) v fits = read_fixed_size_type-Reads native 8 o v fits
  read_type-Reads (var_int true) v fits = read_signed_var_int-Reads 31 4 v refl (omega arith) fits
  read_type-Reads (var_int false) v fits =
      read_unsigned_var_int-Reads 32 4 v refl (omega arith) fits
  read_type-Reads (var_long true) v fits = read_signed_var_int-Reads 63 9 v refl (omega arith) fits
  read_type-Reads (var_long false) v fits =
      read_unsigned_var_int-Reads 64 9 v refl (omega arith) fits

  pub read_type-Settles : (c : Codec) → Settles (read_type native c)
  unfolding read_type
  read_type-Settles (byte s) = read_byte-Settles
  read_type-Settles (short s o) = read_fixed_size_type-Settles native 2 o
  read_type-Settles (int s o) = read_fixed_size_type-Settles native 4 o
  read_type-Settles (long s o) = read_fixed_size_type-Settles native 8 o
  read_type-Settles (triad s o) = read_int24-Settles s o
  read_type-Settles (float o) = read_fixed_size_type-Settles native 4 o
  read_type-Settles (double o) = read_fixed_size_type-Settles native 8 o
  read_type-Settles (var_int true) = read_signed_var_int-Settles 32
  read_type-Settles (var_int false) = unsigned-Settles 32
  read_type-Settles (var_long true) = read_signed_var_int-Settles 64
  read_type-Settles (var_long false) = unsigned-Settles 64
