-- ===== src/Api/Static/Laws.antt =====
-- The static functions on valid objects, with any arguments.
use Prim.Native.String.{String}
use ext_encoding.Prelude.{ℕ, ◌^◌, ◌<◌, ◌≡◌, arith, List, some, All}
use ext_encoding.Prelude.{Option-cases, inl, inr, length}
use ext_encoding.Zend.{Allocator}
use ext_encoding.Serializers.Endian.{ByteOrder}
use ext_encoding.Reader.{ByteBufferReader}
use ext_encoding.Writer.{ByteBufferWriter}
use ext_encoding.Types.{
  Codec, FloatCasts, ZendValue, zend_type, stack_size, zif_read_type, zif_write_type,
}
use ext_encoding.Types.Values.{IsZendValue}
use ext_encoding.Types.RoundTrip.{zif_write_type-put}
use ext_encoding.Types.Pack.{zif_pack_type-encode, reserved-le-stack}
use ext_encoding.Types.Safety.{
  zif_read_type-IsValid, zif_unpack_type-IsSettled, map_result-IsSettled,
}
use ext_encoding.Types.Tables.{
  Operation, read, unpack, write, pack, ClassName, methods, find_method,
}
use ext_encoding.Objects.{Handle}
use ext_encoding.Api.Arguments.{
  Argument, Coercions, void, zend_value, reader_argument, writer_argument, string_argument,
  zend_argument, one_argument, two_arguments,
}
use ext_encoding.Api.Live.{Live, on_reader, on_writer, returns}
use ext_encoding.Api.Static.{call_entry, call_static}
use ext_encoding.Api.Arguments.Laws.{one-Parses, two-Parses, string-Parses, zend-Parses}
use ext_encoding.Api.Live.Valid.{
  AreValid, IsReference, IsSafe, reader-Parses, writer-Parses, parsed-IsSafe, set_reader-AreValid,
  set_writer-AreValid,
}

module _ (alloc : Allocator) (casts : FloatCasts) (native : ByteOrder) (coercions : Coercions)
    (stack : List ℕ) (size : length stack ≡ stack_size) {live : Live} (valid : AreValid live) where
  read-IsSafe :
      (c : Codec) (h : Handle)
      → (r : ByteBufferReader) × (live.readers h ≡ some r)
      → IsSafe
          (returns (zend_value (zend_type c)) (on_reader h live (zif_read_type casts native c)))
  read-IsSafe c h (r, found) =
      let (settled, v, _, _) = zif_read_type-IsValid casts native c (valid.readers h r found) in
      rw (found, on_reader)
        (map_result-IsSettled (zend_value (zend_type c)) _ settled, set_reader-AreValid h valid v)

  write-IsSafe :
      (c : Codec) (h : Handle) (z : ZendValue (zend_type c))
      → (w : ByteBufferWriter) × (live.writers h ≡ some w) × (w.offset < 2 ^ 63)
      → IsZendValue (zend_type c) z
      → IsSafe (returns (λ _. void) (on_writer h live (zif_write_type alloc casts native c z)))
  write-IsSafe c h z (w, found, room) fits =
      let (done, v, _) =
        zif_write_type-put alloc casts native c z fits (valid.writers h w found)
          (omega (arith, reserved-le-stack c)) in
      rw (found, done, on_writer) (tt, set_writer-AreValid h valid v)

  -- A function with references to objects that are there settles and leaves the objects valid.
  pub call_entry-IsSafe :
      (o : Operation) (c : Codec) (args : List Argument)
      → All (IsReference live) args
      → IsSafe (call_entry alloc casts native coercions stack o c args live)
  unfolding call_entry
  call_entry-IsSafe read c args there =
      parsed-IsSafe _ (one_argument reader_argument args) live _ valid
        (one-Parses _ reader_argument (IsReference live) (reader-Parses live) args there)
        (read-IsSafe c)
  call_entry-IsSafe unpack c args there =
      parsed-IsSafe _ (one_argument (string_argument coercions) args) live _ valid
        (one-Parses _ (string_argument coercions) (IsReference live)
          (λ a _. string-Parses coercions a) args there)
        (λ bytes small. (
          map_result-IsSettled (zend_value (zend_type c)) _
              (zif_unpack_type-IsSettled casts native c bytes small),
          valid,
        ))
  call_entry-IsSafe write c args there =
      parsed-IsSafe _ (two_arguments writer_argument (zend_argument coercions (zend_type c)) args)
        live _ valid
        (two-Parses _ _ writer_argument (zend_argument coercions (zend_type c)) (IsReference live)
          (writer-Parses live) (λ a _. zend-Parses coercions (zend_type c) a) args there)
        (λ (h, z) (held, fits). write-IsSafe c h z held fits)
  call_entry-IsSafe pack c args there =
      parsed-IsSafe _ (one_argument (zend_argument coercions (zend_type c)) args) live _ valid
        (one-Parses _ (zend_argument coercions (zend_type c)) (IsReference live)
          (λ a _. zend-Parses coercions (zend_type c) a) args there)
        (λ z fits. rw (zif_pack_type-encode alloc casts native stack c z size fits) (tt, valid))

  -- So does a call by any name in any class.
  pub call_static-IsSafe :
      (class : ClassName) (name : String) (args : List Argument)
      → All (IsReference live) args
      → IsSafe (call_static alloc casts native coercions stack class name args live)
  unfolding call_static
  call_static-IsSafe class name args there =
      elim (Option-cases (find_method (methods class) name)) [
        | inl missing ↦ rw (missing, call_static) (tt, valid)
        | inr ((o, c), found) ↦ rw (found, call_static) (call_entry-IsSafe o c args there)
      ]
