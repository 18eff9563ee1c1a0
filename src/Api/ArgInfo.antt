-- ===== src/Api/ArgInfo.antt =====
-- What the functions declare: the argument information of classes/Types.cpp,
-- stubs/ByteBufferReader_arginfo.h and stubs/ByteBufferWriter_arginfo.h.
pub mod Agree
pub mod Functions
use ext_encoding.Prelude.{ℕ, List, [], ◌∷◌, Option, none, some}
use ext_encoding.Types.{ZendType, zend_long, zend_double}
use ext_encoding.Types.Tables.{Operation, read, unpack, write, pack}
use ext_encoding.Api.Methods.{ReaderMethod, WriterMethod}

-- The type codes, and the objects of the two classes.
pub data TypeCode : Type 0 where
  void_type long_type double_type string_type array_type : TypeCode
  reader_type writer_type : TypeCode

-- A constructor declares no type of its result.
pub record ArgInfo : Type 0 where
  pub return_type : Option TypeCode
  pub required : ℕ
  pub arguments : List TypeCode

abbrev pub type_code : ZendType → TypeCode
type_code zend_long = long_type
type_code zend_double = double_type

abbrev pub arg_info : Operation → ZendType → ArgInfo
arg_info read t = record {
  return_type = some (type_code t);
  required = 1;
  arguments = reader_type ∷ [];
}
arg_info unpack t = record {
  return_type = some (type_code t);
  required = 1;
  arguments = string_type ∷ [];
}
arg_info write t = record {
  return_type = some void_type;
  required = 2;
  arguments = writer_type ∷ type_code t ∷ [];
}
arg_info pack t = record {
  return_type = some string_type;
  required = 1;
  arguments = type_code t ∷ [];
}

-- A method that returns a value and takes nothing, and one that takes a value and returns nothing.
abbrev getter : TypeCode → ArgInfo
getter t = record { return_type = some t; required = 0; arguments = [] }

abbrev setter : TypeCode → ArgInfo
setter t = record { return_type = some void_type; required = 1; arguments = t ∷ [] }

abbrev pub reader_arg_info : ReaderMethod → ArgInfo
reader_arg_info ReaderMethod.construct = record {
  return_type = none;
  required = 1;
  arguments = string_type ∷ [];
}
reader_arg_info ReaderMethod.get_data = getter string_type
reader_arg_info ReaderMethod.read_byte_array = record {
  return_type = some string_type;
  required = 1;
  arguments = long_type ∷ [];
}
reader_arg_info ReaderMethod.get_offset = getter long_type
reader_arg_info ReaderMethod.set_offset = setter long_type
reader_arg_info ReaderMethod.get_unread_length = getter long_type
reader_arg_info ReaderMethod.serialize = getter array_type
reader_arg_info ReaderMethod.unserialize = setter array_type
reader_arg_info ReaderMethod.debug_info = getter array_type

abbrev pub writer_arg_info : WriterMethod → ArgInfo
writer_arg_info WriterMethod.construct = record {
  return_type = none;
  required = 0;
  arguments = string_type ∷ [];
}
writer_arg_info WriterMethod.get_data = getter string_type
writer_arg_info WriterMethod.write_byte_array = setter string_type
writer_arg_info WriterMethod.get_offset = getter long_type
writer_arg_info WriterMethod.set_offset = setter long_type
writer_arg_info WriterMethod.get_used_length = getter long_type
writer_arg_info WriterMethod.get_reserved_length = getter long_type
writer_arg_info WriterMethod.reserve = setter long_type
writer_arg_info WriterMethod.trim = getter void_type
writer_arg_info WriterMethod.clear = getter void_type
writer_arg_info WriterMethod.serialize = getter array_type
writer_arg_info WriterMethod.unserialize = setter array_type
writer_arg_info WriterMethod.debug_info = getter array_type
