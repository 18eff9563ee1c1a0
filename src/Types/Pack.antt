-- ===== src/Types/Pack.antt =====
-- `pack` and `unpack`: the same bytes and values without an object.
use ext_encoding.Prelude.{ℕ, ◌^◌, ◌≤◌, ◌<◌, ◌≡◌, refl, arith, ap, ◌∙◌}
use ext_encoding.Prelude.{List, ◌++◌, overwrite, append-nil, length, drop-nil, length-append}
use ext_encoding.Zend.{Allocator, ok}
use ext_encoding.Spec.{Document, put}
use ext_encoding.Serializers.Endian.{ByteOrder}
use ext_encoding.Serializers.Memory.Laws.{HasRoom, extended_enough, load_inside}
use ext_encoding.Writer.{ByteBufferWriter, region}
use ext_encoding.Writer.Invariant.{IsValid}
use ext_encoding.Writer.Refine.{view}
use ext_encoding.Types.{Codec, FloatCasts, ZendValue, zend_type, cast_value, assign_zval}
use ext_encoding.Types.{
  write_type_common, stack_writer, stack_size, zif_pack_type, zif_unpack_type, read_type_common,
}
use ext_encoding.Types.Encoding.{
  Fits, encode, reserved, read_back, read_type-Reads, write_type-Writes,
}
use ext_encoding.Types.RoundTrip.{write_type_common-put}
use ext_encoding.Types.Values.{
  IsZendValue, IsValue, rounded, cast_value-Fits, assign_zval-cast_value,
}

pub reserved-le-stack : (c : Codec) → reserved c ≤ stack_size
reserved-le-stack (Codec.byte s) = omega arith
reserved-le-stack _ = omega arith

-- For a native value of any type, `writeTypeCommon` on the writer of `pack`, whose block is the 16
-- bytes of the stack, succeeds and puts the bytes of the value, at most 16, at the front of that
-- block. It leaves the length of the block as it was, whatever the allocator: the block is never
-- handed to it.
pub pack_stays_on_stack :
    (alloc : Allocator) (native : ByteOrder) (stack : List ℕ) (c : Codec) (v : ℕ)
    → length stack ≡ stack_size
    → Fits c v
    → let bytes = encode c v in
      (length bytes ≤ stack_size)
      × (write_type_common alloc native c v (stack_writer stack) ≡ (
        ok tt,
        record {
          buffer = overwrite stack 0 bytes;
          length = stack_size;
          offset = length bytes;
          used = length bytes;
        },
      ))
unfolding write_type_common
pack_stays_on_stack alloc native stack c v size fits =
    let contract = write_type-Writes alloc native c v fits in
    let room : HasRoom (region (stack_writer stack)) (reserved c) = record {
      block = size;
      small = omega arith;
      no_wrap = omega (arith, reserved-le-stack c);
    } in
    let kept =
      extended_enough alloc (region (stack_writer stack)) (reserved c)
        (omega (arith, reserved-le-stack c)) in
    (
      omega (arith, contract.fits, reserved-le-stack c),
      ground (arith, contract.writes (region (stack_writer stack)) room, kept),
    )

stack_writer-IsValid : (stack : List ℕ) → length stack ≡ stack_size → IsValid (stack_writer stack)
stack_writer-IsValid stack h = omega arith

put-empty : (bytes stack : List ℕ) → (put bytes (view (stack_writer stack))).content ≡ bytes
unfolding put
put-empty bytes stack = rw (drop-nil, append-nil)

-- `pack` of a PHP value returns the bytes of its native value, whatever the 16 bytes of the stack
-- held before.
pub zif_pack_type-encode :
    (alloc : Allocator) (casts : FloatCasts) (native : ByteOrder) (stack : List ℕ) (c : Codec)
    (z : ZendValue (zend_type c))
    → length stack ≡ stack_size
    → IsZendValue (zend_type c) z
    → zif_pack_type alloc casts native stack c z ≡ ok (encode c (cast_value casts c z))
unfolding zif_pack_type
zif_pack_type-encode alloc casts native stack c z size value =
    let v : ℕ = cast_value casts c z in
    let fits : Fits c v = cast_value-Fits casts c z value in
    let (_, valid, seen) =
      write_type_common-put alloc native c v fits (stack_writer-IsValid stack size)
        (omega (arith, reserved-le-stack c)) in
    let (_, ran) = pack_stays_on_stack alloc native stack c v size fits in
    let w' : ByteBufferWriter = (write_type_common alloc native c v (stack_writer stack)).1 in
    ground (
      arith,
      ap (λ r. r.0) ran,
      ap (λ r. r.1.length) ran,
      load_inside w'.buffer 0 w'.used (omega (arith, valid)),
      ap (λ (d : Document). d.content) seen,
      put-empty (encode c v) stack,
    )

-- `unpack` returns the value whose bytes stand at the front, and ignores what follows.
pub zif_unpack_type-encode :
    (casts : FloatCasts) (native : ByteOrder) (c : Codec) (v : ℕ) (rest : List ℕ)
    → Fits c v
    → length (encode c v ++ rest) < 2 ^ 64
    → zif_unpack_type casts native c (encode c v ++ rest) ≡ ok (assign_zval casts c (read_back c v))
unfolding zif_unpack_type read_type_common
zif_unpack_type-encode casts native c v rest fits small =
    rw (read_type-Reads native c v fits (encode c v ++ rest) 0 rest (omega arith) small refl)

-- `pack` of a value that its type can hold succeeds, and `unpack` of its bytes returns the value, a
-- float at its precision, whatever fewer than 2 ^ 63 bytes follow, whatever the 16 bytes of the
-- stack held, and whatever the byte orders of the two machines.
pub zif_unpack_type-zif_pack_type :
    (alloc : Allocator) (casts : FloatCasts) (native native' : ByteOrder) (stack : List ℕ)
    (c : Codec) (z : ZendValue (zend_type c)) (rest : List ℕ)
    → length stack ≡ stack_size
    → IsZendValue (zend_type c) z
    → IsValue c z
    → length rest < 2 ^ 63
    → (bytes : List ℕ) × (zif_pack_type alloc casts native stack c z ≡ ok bytes)
      × (zif_unpack_type casts native' c (bytes ++ rest) ≡ ok (rounded casts c z))
zif_unpack_type-zif_pack_type alloc casts native native' stack c z rest size zend value small = (
  encode c (cast_value casts c z),
  zif_pack_type-encode alloc casts native stack c z size zend,
  zif_unpack_type-encode casts native' c (cast_value casts c z) rest
        (cast_value-Fits casts c z zend)
        (omega (
          arith,
          length-append (encode c (cast_value casts c z)) rest,
          (write_type-Writes alloc native c (cast_value casts c z)
              (cast_value-Fits casts c z zend)).fits,
          reserved-le-stack c,
        ))
      ∙ ap ok (assign_zval-cast_value casts c z value),
)
