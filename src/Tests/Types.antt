-- ===== src/Tests/Types.antt =====
-- The functions of the classes Byte, LE, BE and VarInt, and sessions of calls, on concrete values.
use ext_encoding.Types.Encoding.{encode}
use ext_encoding.Prelude.{
  overwrite, ◌^◌, ◌-◌, ℕ, ◌≤◌, ◌≡◌, refl, arith, List, [], ◌∷◌, ◌++◌, length,
}
use ext_encoding.Prelude.{true, false}
use ext_encoding.Prelude.Int.{pos, negsuc}
use ext_encoding.Zend.{ok, throw, fault, need_bytes}
use ext_encoding.Serializers.Contract.{IsSettled}
use ext_encoding.Serializers.Endian.{big_endian, little_endian}
use ext_encoding.Writer.Invariant.{IsValid}
use ext_encoding.Writer.Refine.{view}
use ext_encoding.Reader.Laws
use ext_encoding.Types.Tables.{find_method, methods, little_endian_class, pack}
use ext_encoding.Types.Tables.Lookup.{find_method_iff, class_of, method_name}
use ext_encoding.Prelude.{◌↔◌, some}
use ext_encoding.Types
use ext_encoding.Types.{
  short, int, triad, double, float, var_int, cast_value, zif_read_type, zif_write_type,
  zif_pack_type, zif_unpack_type, stack_writer, stack_size, write_type_common,
}
use ext_encoding.Types.RoundTrip.{zif_read_type-zif_write_type}
use ext_encoding.Types.Pack.{
  zif_unpack_type-zif_pack_type, zif_pack_type-encode, pack_stays_on_stack,
}
use ext_encoding.Types.Safety.{zif_read_type-IsValid, zif_read_type_short, zif_read_type_past_end}
use ext_encoding.Types.Progress.{Ends, read_on, read_on-Ends}
use ext_encoding.Session.{
  Call, write, write_bytes, seek_to, reserve_bytes, trim_buffer, run, spec_run,
}
use ext_encoding.Session.Refine.{run_refines}
use ext_encoding.Packet.{Field, writes, read_fields, codecs, rounded_fields, read_fields-run}
use ext_encoding.Tests.Samples.{
  zeros, zeroing, low_bits, a_writer, a_writer-IsValid, empty_writer, empty_writer-IsValid,
  a_reader, a_reader-IsValid,
}

-- A signed short, a negative triad and a variable-length int.
abbrev packet : List Field
packet =
    (short true big_endian, negsuc 299)
    ∷ (triad true little_endian, negsuc 1)
    ∷ (var_int true, pos 300)
    ∷ []

abbrev calls : List Call
calls =
    write (int false little_endian) (pos 7)
    ∷ seek_to (pos 1)
    ∷ write_bytes (9 ∷ 8 ∷ [])
    ∷ reserve_bytes (pos 64)
    ∷ trim_buffer
    ∷ seek_to (pos 99)
    ∷ []

-- The string sent by a machine with the other byte order.
abbrev sent : List ℕ
sent = (view (run zeroing low_bits little_endian (writes packet) empty_writer).1).content

read_fields-run_example :
    read_fields low_bits big_endian (codecs packet) (record { buffer = sent; offset = 0 })
    ≡ (ok (rounded_fields low_bits packet), record { buffer = sent; offset = length sent })
read_fields-run_example =
    read_fields-run zeroing low_bits little_endian big_endian packet (omega arith)
      empty_writer-IsValid refl (omega arith)

run_refines_example :
    let (outcomes, w') = run zeroing low_bits little_endian calls a_writer in
    let (outcomes', d) = spec_run low_bits calls (view a_writer) in
    (outcomes ≡ outcomes') × IsValid w' × (view w' ≡ d)
run_refines_example =
    run_refines zeroing low_bits little_endian calls (omega arith) a_writer-IsValid (omega arith)

zif_unpack_type-zif_pack_type_example :
    (bytes : List ℕ) × (zif_pack_type zeroing low_bits little_endian
        (zeros 16)
        (var_int true)
        (negsuc 299)
      ≡ ok bytes)
    × (zif_unpack_type low_bits big_endian (var_int true) (bytes ++ (1 ∷ 2 ∷ [])) ≡ ok (negsuc 299))
zif_unpack_type-zif_pack_type_example =
    zif_unpack_type-zif_pack_type zeroing low_bits little_endian big_endian (zeros 16)
      (var_int true) (negsuc 299) (1 ∷ 2 ∷ []) refl (omega arith) (omega arith) (omega arith)

zif_read_type-zif_write_type_example :
    let w' =
      (zif_write_type zeroing low_bits little_endian
        (triad true big_endian)
        (negsuc 1)
        a_writer).1 in
    let sent = (view w').content in
    zif_read_type low_bits big_endian
      (triad true big_endian)
      (record { buffer = sent; offset = a_writer.offset })
    ≡ (ok (negsuc 1), record { buffer = sent; offset = w'.offset })
zif_read_type-zif_write_type_example =
    zif_read_type-zif_write_type zeroing low_bits little_endian big_endian (triad true big_endian)
      (negsuc 1) (omega arith) (omega arith) a_writer-IsValid (omega arith)

zif_read_type-IsValid_example :
    let (outcome, r') = zif_read_type low_bits little_endian (int true big_endian) a_reader in
    IsSettled outcome
    × Laws.IsValid r'
    × (a_reader.offset ≤ r'.offset)
    × (r'.buffer ≡ a_reader.buffer)
zif_read_type-IsValid_example =
    zif_read_type-IsValid low_bits little_endian (int true big_endian) a_reader-IsValid

zif_pack_type-encode_example :
    zif_pack_type zeroing low_bits little_endian (zeros 16) (short true big_endian) (negsuc 1)
    ≡ ok (0xff ∷ 0xfe ∷ [])
unfolding cast_value
zif_pack_type-encode_example =
    zif_pack_type-encode zeroing low_bits little_endian (zeros 16) (short true big_endian)
      (negsuc 1) refl (omega arith)

pack_stays_on_stack_example :
    let bytes = encode (Types.var_long true) (2 ^ 64 - 1) in
    (length bytes ≤ stack_size)
    × (write_type_common zeroing little_endian
          (Types.var_long true)
          (2 ^ 64 - 1)
          (stack_writer (zeros 16))
        ≡ (
          ok tt,
          record {
            buffer = overwrite (zeros 16) 0 bytes;
            length = stack_size;
            offset = length bytes;
            used = length bytes;
          },
        ))
pack_stays_on_stack_example =
    pack_stays_on_stack zeroing little_endian (zeros 16) (Types.var_long true) (2 ^ 64 - 1) refl
      (omega arith)

-- Three bytes are left, and an int takes four.
zif_read_type_short_example :
    zif_read_type low_bits little_endian (int true big_endian) a_reader
    ≡ (throw (need_bytes 4 3), a_reader)
zif_read_type_short_example =
    zif_read_type_short low_bits little_endian (int true big_endian) refl a_reader-IsValid
      (omega arith)

zif_read_type_past_end_example :
    (zif_read_type low_bits little_endian
      (int true big_endian)
      (record { buffer = 1 ∷ []; offset = 9 })).0
    ≡ fault
zif_read_type_past_end_example =
    zif_read_type_past_end low_bits little_endian (int true big_endian)
      (record { buffer = 1 ∷ []; offset = 9 }) refl (omega arith) (omega arith)

find_method_iff_example :
    (find_method (methods little_endian_class) "packSignedTriad"
      ≡ some (pack, triad true big_endian))
    ↔ ((little_endian_class ≡ class_of (triad true big_endian))
        × ("packSignedTriad" ≡ method_name pack (triad true big_endian)))
find_method_iff_example =
    find_method_iff little_endian_class "packSignedTriad" pack (triad true big_endian)

-- A loop over variable-length ints takes at most as many rounds as bytes are left.
read_on-Ends_example :
    Ends a_reader.buffer (read_on low_bits little_endian (λ r. var_int true) 4 a_reader)
read_on-Ends_example =
    read_on-Ends low_bits little_endian (λ r. var_int true) 4 a_reader a_reader-IsValid
      (omega arith)
