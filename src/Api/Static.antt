-- ===== src/Api/Static.antt =====
-- The static functions: a method table, the parameters of each template, and the objects that they
-- read and write.
pub mod Laws
pub mod RoundTrip
use Prim.Native.String.{String}
use ext_encoding.Prelude.{ℕ, List, [], ◌∷◌, Option, none, some}
use ext_encoding.Zend.{Allocator, Result, ok, throw, fault, stuck, map_result, undefined_method}
use ext_encoding.Serializers.Endian.{ByteOrder}
use ext_encoding.Reader.{ByteBufferReader}
use ext_encoding.Writer.{ByteBufferWriter}
use ext_encoding.Types.{Codec, FloatCasts, ZendValue, zend_type, zif_read_type, zif_unpack_type}
use ext_encoding.Types.{zif_write_type, zif_pack_type}
use ext_encoding.Types.Tables.{
  Operation, read, unpack, write, pack, ClassName, methods, find_method,
}
use ext_encoding.Objects.{Handle, update}
use ext_encoding.Api.Live.{Live, on_reader, on_writer, returns}
use ext_encoding.Api.Arguments.{
  Argument, Coercions, Value, void, text, zend_value, reader_argument, writer_argument,
  string_argument, zend_argument, one_argument, two_arguments, parsed,
}

module _ (alloc : Allocator) (casts : FloatCasts) (native : ByteOrder) (coercions : Coercions)
    (stack : List ℕ) where
  -- `zif_readType`, `zif_unpackType`, `zif_writeType` and `zif_packType` with their parameters
  unfoldable pub call_entry : Operation → Codec → List Argument → Live → Result Value × Live
  call_entry read c args live =
      parsed (one_argument reader_argument args) live
        λ h. returns (zend_value (zend_type c)) (on_reader h live (zif_read_type casts native c))
  call_entry unpack c args live =
      parsed (one_argument (string_argument coercions) args) live λ bytes.
        (map_result (zend_value (zend_type c)) (zif_unpack_type casts native c bytes), live)
  call_entry write c args live =
      parsed (two_arguments writer_argument (zend_argument coercions (zend_type c)) args) live
        λ (h, z). returns (λ _. void) (on_writer h live (zif_write_type alloc casts native c z))
  call_entry pack c args live =
      parsed (one_argument (zend_argument coercions (zend_type c)) args) live
        λ z. (map_result text (zif_pack_type alloc casts native stack c z), live)

  -- A call of a static method by its name.
  unfoldable pub call_static : ClassName → String → List Argument → Live → Result Value × Live
  call_static class name args live = elim (find_method (methods class) name) [
    | none ↦ (throw (undefined_method name), live)
    | some (o, c) ↦ call_entry o c args live
  ]
