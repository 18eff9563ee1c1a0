-- ===== src/Api/Methods.antt =====
-- The methods of the two classes: the tables of stubs/ByteBufferReader_arginfo.h and
-- stubs/ByteBufferWriter_arginfo.h, and the parameters of each method.
pub mod Extra
pub mod Keeps
pub mod Readers
pub mod Writers
use Prim.Native.String.{String}
use package.text.Mathlib.Text.{◌==◌ as str_eq}
use ext_encoding.Prelude.{ℕ, List, [], ◌∷◌, Option, none, some, if◌then◌else◌}
use ext_encoding.Zend.{Allocator, Result, ok, throw, fault, stuck, map_result, undefined_method}
use ext_encoding.Zend.{argument_count}
use ext_encoding.Reader
use ext_encoding.Reader.{ByteBufferReader}
use ext_encoding.Writer
use ext_encoding.Writer.{ByteBufferWriter}
use ext_encoding.Objects.{Handle}
use ext_encoding.Api.Arguments.{
  Argument, Coercions, Value, void, int, text, table, string_argument, long_argument,
  array_argument, one_argument, optional_argument, parsed,
}
use ext_encoding.Api.Live.{Live, on_reader, on_writer, returns}

-- `zend_parse_parameters_none_throw()`, whose result the methods do not look at: on an argument it
-- throws, and the method goes on. An exception takes the place of the value that is returned.
abbrev pub none_throw : {S : Type 0} → List Argument → Result Value × S → Result Value × S
none_throw [] r = r
none_throw (a ∷ args) (ok v, s) = (throw argument_count, s)
none_throw (a ∷ args) r = r

pub data ReaderMethod : Type 0 where
  construct get_data read_byte_array get_offset set_offset get_unread_length : ReaderMethod
  serialize unserialize debug_info : ReaderMethod

abbrev pub reader_methods : List (String × ReaderMethod)
reader_methods =
    ("__construct", ReaderMethod.construct)
    ∷ ("getData", ReaderMethod.get_data)
    ∷ ("readByteArray", ReaderMethod.read_byte_array)
    ∷ ("getOffset", ReaderMethod.get_offset)
    ∷ ("setOffset", ReaderMethod.set_offset)
    ∷ ("getUnreadLength", ReaderMethod.get_unread_length)
    ∷ ("__serialize", ReaderMethod.serialize)
    ∷ ("__unserialize", ReaderMethod.unserialize)
    ∷ ("__debugInfo", ReaderMethod.debug_info)
    ∷ []

pub data WriterMethod : Type 0 where
  construct get_data write_byte_array get_offset set_offset get_used_length : WriterMethod
  get_reserved_length reserve trim clear serialize unserialize debug_info : WriterMethod

abbrev pub writer_methods : List (String × WriterMethod)
writer_methods =
    ("__construct", WriterMethod.construct)
    ∷ ("getData", WriterMethod.get_data)
    ∷ ("writeByteArray", WriterMethod.write_byte_array)
    ∷ ("getOffset", WriterMethod.get_offset)
    ∷ ("setOffset", WriterMethod.set_offset)
    ∷ ("getUsedLength", WriterMethod.get_used_length)
    ∷ ("getReservedLength", WriterMethod.get_reserved_length)
    ∷ ("reserve", WriterMethod.reserve)
    ∷ ("trim", WriterMethod.trim)
    ∷ ("clear", WriterMethod.clear)
    ∷ ("__serialize", WriterMethod.serialize)
    ∷ ("__unserialize", WriterMethod.unserialize)
    ∷ ("__debugInfo", WriterMethod.debug_info)
    ∷ []

-- What the engine finds under a name.
abbrev pub find_entry : {A : Type 0} → List (String × A) → String → Option A
find_entry [] name = none
find_entry ((key, entry) ∷ entries) name =
    if str_eq key name then some entry else find_entry entries name

-- A state that a function makes anew.
abbrev pub replaced : {S : Type 0} → Result S → S → Result Value × S
replaced (ok s') s = (ok void, s')
replaced (throw e) s = (throw e, s)
replaced fault s = (fault, s)
replaced stuck s = (stuck, s)

module _ (coercions : Coercions) where
  unfoldable pub reader_method :
      ReaderMethod → List Argument → ByteBufferReader → Result Value × ByteBufferReader
  reader_method ReaderMethod.construct args r =
      parsed (one_argument (string_argument coercions) args) r
        λ buffer. (ok void, Reader.construct buffer)
  reader_method ReaderMethod.get_data args r = none_throw args (ok (text (Reader.get_data r)), r)
  reader_method ReaderMethod.read_byte_array args r =
      parsed (one_argument (long_argument coercions) args) r
        λ zlength. returns text (Reader.read_byte_array zlength r)
  reader_method ReaderMethod.get_offset args r = none_throw args (ok (int (Reader.get_offset r)), r)
  reader_method ReaderMethod.set_offset args r =
      parsed (one_argument (long_argument coercions) args) r
        λ offset. returns (λ _. void) (Reader.set_offset offset r)
  reader_method ReaderMethod.get_unread_length args r =
      none_throw args (ok (int (Reader.get_unread_length r)), r)
  reader_method ReaderMethod.serialize args r = none_throw args (ok (table (Reader.serialize r)), r)
  reader_method ReaderMethod.unserialize args r =
      parsed (one_argument array_argument args) r
        λ props. returns (λ _. void) (Reader.unserialize props r)
  reader_method ReaderMethod.debug_info args r =
      none_throw args (ok (table (Reader.debug_info r)), r)

  unfoldable pub writer_method :
      Allocator → WriterMethod → List Argument → ByteBufferWriter → Result Value × ByteBufferWriter
  writer_method alloc WriterMethod.construct args w =
      parsed (optional_argument (string_argument coercions) args) w
        λ prefix. replaced (Writer.construct alloc prefix) w
  writer_method alloc WriterMethod.get_data args w =
      none_throw args (map_result text (Writer.get_data w), w)
  writer_method alloc WriterMethod.write_byte_array args w =
      parsed (one_argument (string_argument coercions) args) w
        λ value. returns (λ _. void) (Writer.write_byte_array alloc value w)
  writer_method alloc WriterMethod.get_offset args w =
      none_throw args (ok (int (Writer.get_offset w)), w)
  writer_method alloc WriterMethod.set_offset args w =
      parsed (one_argument (long_argument coercions) args) w
        λ offset. returns (λ _. void) (Writer.set_offset offset w)
  writer_method alloc WriterMethod.get_used_length args w =
      none_throw args (ok (int (Writer.get_used_length w)), w)
  writer_method alloc WriterMethod.get_reserved_length args w =
      none_throw args (ok (int (Writer.get_reserved_length w)), w)
  writer_method alloc WriterMethod.reserve args w =
      parsed (one_argument (long_argument coercions) args) w
        λ zlength. returns (λ _. void) (Writer.reserve alloc zlength w)
  writer_method alloc WriterMethod.trim args w = none_throw args (ok void, Writer.trim alloc w)
  writer_method alloc WriterMethod.clear args w = none_throw args (ok void, Writer.clear w)
  writer_method alloc WriterMethod.serialize args w =
      none_throw args (map_result table (Writer.serialize w), w)
  writer_method alloc WriterMethod.unserialize args w =
      parsed (one_argument array_argument args) w
        λ props. returns (λ _. void) (Writer.unserialize alloc props w)
  writer_method alloc WriterMethod.debug_info args w =
      none_throw args (map_result table (Writer.debug_info w), w)

  -- A call of a method of an object by its name.
  unfoldable pub call_reader : String → Handle → List Argument → Live → Result Value × Live
  call_reader name h args live = elim (find_entry reader_methods name) [
    | none ↦ (throw (undefined_method name), live)
    | some m ↦ on_reader h live (reader_method m args)
  ]

  unfoldable pub call_writer :
      Allocator → String → Handle → List Argument → Live → Result Value × Live
  call_writer alloc name h args live = elim (find_entry writer_methods name) [
    | none ↦ (throw (undefined_method name), live)
    | some m ↦ on_writer h live (writer_method alloc m args)
  ]
