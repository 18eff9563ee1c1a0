-- ===== src/Api/ArgInfo/Functions.antt =====
-- The functions and the argument information that they are registered with.
use ext_encoding.Prelude.{ℕ, ◌≡◌, refl, ap, List, none, some}
use ext_encoding.Zend.{Allocator, Result, ok, throw, fault, stuck}
use ext_encoding.Serializers.Endian.{ByteOrder}
use ext_encoding.Reader
use ext_encoding.Reader.{ByteBufferReader}
use ext_encoding.Writer
use ext_encoding.Writer.{ByteBufferWriter}
use ext_encoding.Types.{Codec, FloatCasts, zend_type}
use ext_encoding.Types.Tables.{Operation, read, unpack, write, pack}
use ext_encoding.Api.Arguments.{
  Argument, Coercions, Value, void, int, text, table, zend_value, reader_argument, writer_argument,
  string_argument, long_argument, array_argument, zend_argument,
}
use ext_encoding.Api.Live.{Live}
use ext_encoding.Api.Static.{call_entry}
use ext_encoding.Api.Methods.{ReaderMethod, WriterMethod, reader_method, writer_method, replaced}
use ext_encoding.Api.ArgInfo.{
  void_type, long_type, string_type, array_type, reader_type, writer_type, type_code, arg_info,
  reader_arg_info, writer_arg_info,
}
use ext_encoding.Types.{zif_read_type, zif_unpack_type, zif_write_type, zif_pack_type}
use ext_encoding.Api.Live.{on_reader, on_writer}
use ext_encoding.Api.ArgInfo.Agree.{
  Agrees, value_type, returned, mapped, zend_value_type, string-ParsesType, long-ParsesType,
  zend-ParsesType, array-ParsesType, reader-ParsesType, writer-ParsesType, one-Agrees, none-Agrees,
  optional-Agrees, two-Agrees,
}

same_type_of : (w v : Value) → ok w ≡ ok v → value_type v ≡ value_type w
same_type_of w v e = let e' : ok w ≡ ok v = e in let is : v ≡ w = cc in ap value_type is

replaced-void :
    {S : Type 0} (r : Result S) (s : S) (v : Value)
    → (replaced r s).0 ≡ ok v
    → value_type v ≡ void_type
replaced-void (ok s') s v e = same_type_of void v e
replaced-void (throw x) s v e = cc
replaced-void fault s v e = cc
replaced-void stuck s v e = cc

module _ (coercions : Coercions) where
  call_entry-Agrees :
      (alloc : Allocator) (casts : FloatCasts) (native : ByteOrder) (stack : List ℕ) (o : Operation)
      (c : Codec) (args : List Argument) (live : Live)
      → Agrees coercions
          (arg_info o (zend_type c))
          args
          (call_entry alloc casts native coercions stack o c args live).0
  unfolding call_entry
  call_entry-Agrees alloc casts native stack read c args live =
      one-Agrees coercions (some (type_code (zend_type c))) reader_type reader_argument args live _
        (reader-ParsesType coercions)
        (λ h.
          returned (zend_value (zend_type c)) (on_reader h live (zif_read_type casts native c)) _
            (zend_value_type (zend_type c)))
  call_entry-Agrees alloc casts native stack unpack c args live =
      one-Agrees coercions (some (type_code (zend_type c))) string_type (string_argument coercions)
        args live _ (string-ParsesType coercions)
        (λ bytes.
          mapped (zend_value (zend_type c)) (zif_unpack_type casts native c bytes) _
            (zend_value_type (zend_type c)))
  call_entry-Agrees alloc casts native stack write c args live =
      two-Agrees coercions (some void_type) writer_type (type_code (zend_type c)) writer_argument
        (zend_argument coercions (zend_type c)) args live _ (writer-ParsesType coercions)
        (zend-ParsesType coercions (zend_type c))
        (λ (h, z).
          returned (λ _. void) (on_writer h live (zif_write_type alloc casts native c z)) void_type
            (λ _. refl))
  call_entry-Agrees alloc casts native stack pack c args live =
      one-Agrees coercions (some string_type) (type_code (zend_type c))
        (zend_argument coercions (zend_type c)) args live _
        (zend-ParsesType coercions (zend_type c))
        (λ z. mapped text (zif_pack_type alloc casts native stack c z) string_type (λ _. refl))

  reader_method-Agrees :
      (m : ReaderMethod) (args : List Argument) (r : ByteBufferReader)
      → Agrees coercions (reader_arg_info m) args (reader_method coercions m args r).0
  unfolding reader_method
  reader_method-Agrees ReaderMethod.construct args r =
      one-Agrees coercions none string_type (string_argument coercions) args r _
        (string-ParsesType coercions) (λ s. same_type_of void)
  reader_method-Agrees ReaderMethod.get_data args r =
      none-Agrees coercions string_type args _ (same_type_of (text (Reader.get_data r)))
  reader_method-Agrees ReaderMethod.read_byte_array args r =
      one-Agrees coercions (some string_type) long_type (long_argument coercions) args r _
        (long-ParsesType coercions)
        (λ z. returned text (Reader.read_byte_array z r) string_type (λ _. refl))
  reader_method-Agrees ReaderMethod.get_offset args r =
      none-Agrees coercions long_type args _ (same_type_of (int (Reader.get_offset r)))
  reader_method-Agrees ReaderMethod.set_offset args r =
      one-Agrees coercions (some void_type) long_type (long_argument coercions) args r _
        (long-ParsesType coercions)
        (λ z. returned (λ _. void) (Reader.set_offset z r) void_type (λ _. refl))
  reader_method-Agrees ReaderMethod.get_unread_length args r =
      none-Agrees coercions long_type args _ (same_type_of (int (Reader.get_unread_length r)))
  reader_method-Agrees ReaderMethod.serialize args r =
      none-Agrees coercions array_type args _ (same_type_of (table (Reader.serialize r)))
  reader_method-Agrees ReaderMethod.unserialize args r =
      one-Agrees coercions (some void_type) array_type array_argument args r _
        (array-ParsesType coercions)
        (λ props. returned (λ _. void) (Reader.unserialize props r) void_type (λ _. refl))
  reader_method-Agrees ReaderMethod.debug_info args r =
      none-Agrees coercions array_type args _ (same_type_of (table (Reader.debug_info r)))

  writer_method-Agrees :
      (alloc : Allocator) (m : WriterMethod) (args : List Argument) (w : ByteBufferWriter)
      → Agrees coercions (writer_arg_info m) args (writer_method coercions alloc m args w).0
  unfolding writer_method
  writer_method-Agrees alloc WriterMethod.construct args w =
      optional-Agrees coercions none string_type (string_argument coercions) args w _
        (string-ParsesType coercions) (λ prefix. replaced-void (Writer.construct alloc prefix) w)
  writer_method-Agrees alloc WriterMethod.get_data args w =
      none-Agrees coercions string_type args _ (mapped text (Writer.get_data w) _ (λ _. refl))
  writer_method-Agrees alloc WriterMethod.write_byte_array args w =
      one-Agrees coercions (some void_type) string_type (string_argument coercions) args w _
        (string-ParsesType coercions)
        (λ s. returned (λ _. void) (Writer.write_byte_array alloc s w) void_type (λ _. refl))
  writer_method-Agrees alloc WriterMethod.get_offset args w =
      none-Agrees coercions long_type args _ (same_type_of (int (Writer.get_offset w)))
  writer_method-Agrees alloc WriterMethod.set_offset args w =
      one-Agrees coercions (some void_type) long_type (long_argument coercions) args w _
        (long-ParsesType coercions)
        (λ z. returned (λ _. void) (Writer.set_offset z w) void_type (λ _. refl))
  writer_method-Agrees alloc WriterMethod.get_used_length args w =
      none-Agrees coercions long_type args _ (same_type_of (int (Writer.get_used_length w)))
  writer_method-Agrees alloc WriterMethod.get_reserved_length args w =
      none-Agrees coercions long_type args _ (same_type_of (int (Writer.get_reserved_length w)))
  writer_method-Agrees alloc WriterMethod.reserve args w =
      one-Agrees coercions (some void_type) long_type (long_argument coercions) args w _
        (long-ParsesType coercions)
        (λ z. returned (λ _. void) (Writer.reserve alloc z w) void_type (λ _. refl))
  writer_method-Agrees alloc WriterMethod.trim args w =
      none-Agrees coercions void_type args _ (same_type_of void)
  writer_method-Agrees alloc WriterMethod.clear args w =
      none-Agrees coercions void_type args _ (same_type_of void)
  writer_method-Agrees alloc WriterMethod.serialize args w =
      none-Agrees coercions array_type args _ (mapped table (Writer.serialize w) _ (λ _. refl))
  writer_method-Agrees alloc WriterMethod.unserialize args w =
      one-Agrees coercions (some void_type) array_type array_argument args w _
        (array-ParsesType coercions)
        (λ props. returned (λ _. void) (Writer.unserialize alloc props w) void_type (λ _. refl))
  writer_method-Agrees alloc WriterMethod.debug_info args w =
      none-Agrees coercions array_type args _ (mapped table (Writer.debug_info w) _ (λ _. refl))

-- A call of any static function or method that returns was given as many arguments as the function
-- declares, each of which the engine takes as one of the declared type, and returns a value of the
-- declared type. Nothing is assumed of the objects or of the arguments.
pub arg_info-Agrees :
    (alloc : Allocator) (casts : FloatCasts) (native : ByteOrder) (coercions : Coercions)
    (stack : List ℕ) (args : List Argument)
    → ((o : Operation) (c : Codec) (live : Live)
        → Agrees coercions
            (arg_info o (zend_type c))
            args
            (call_entry alloc casts native coercions stack o c args live).0)
      × ((m : ReaderMethod) (r : ByteBufferReader)
          → Agrees coercions (reader_arg_info m) args (reader_method coercions m args r).0)
      × ((m : WriterMethod) (w : ByteBufferWriter)
          → Agrees coercions (writer_arg_info m) args (writer_method coercions alloc m args w).0)
arg_info-Agrees alloc casts native coercions stack args = (
  λ o c live. call_entry-Agrees coercions alloc casts native stack o c args live,
  λ m r. reader_method-Agrees coercions m args r,
  λ m w. writer_method-Agrees coercions alloc m args w,
)
