-- ===== src/Reader.antt =====
-- The class ByteBufferReader of classes/ByteBufferReader.cpp. The state is the struct of
-- classes/ByteBufferReader.h; a method returns its outcome and the state that it leaves. The string
-- is a value here, since strings never change; Strings has the reference count by which it is shared.
pub mod Laws
pub mod Persist
use ext_encoding.Prelude.{ℕ, ◌+◌, ◌-◌, ◌*◌, ◌^◌, List, [], ◌∷◌, length, Option, none, some, Bool}
use ext_encoding.Prelude.{ltb, ◌==◌, ◌&&◌, ◌||◌, if◌then◌else◌, true, false, ◌≡◌, refl}
use ext_encoding.Prelude.Int.{ℤ, pos, negsuc, is_negative}
use ext_encoding.Prelude.Word.{size_add, size_sub, signed, wrap}
use ext_encoding.Zend.{
  Result, ok, throw, fault, stuck, HashTable, need_bytes, negative_length, offset_out_of_range,
}
use ext_encoding.Serialized.{fetch_properties, properties}
use ext_encoding.Serializers.Memory.{load}
use ext_encoding.Writer.{bytes_equal}

pub record ByteBufferReader : Type 0 where
  pub buffer : List ℕ
  pub offset : ℕ

unfoldable pub reader_init_properties : List ℕ → ℕ → ByteBufferReader
reader_init_properties buffer offset = record { buffer = buffer; offset = offset }

-- `reader_new`, `reader_clone` and `__construct`
unfoldable pub reader_new : ByteBufferReader
unfolding reader_init_properties
reader_new = reader_init_properties [] 0

unfoldable pub reader_clone : ByteBufferReader → ByteBufferReader
unfolding reader_init_properties
reader_clone r = reader_init_properties r.buffer r.offset

unfoldable pub construct : List ℕ → ByteBufferReader
unfolding reader_init_properties
construct buffer = reader_init_properties buffer 0

unfoldable pub get_data : ByteBufferReader → List ℕ
get_data r = r.buffer

unfoldable pub read_byte_array : ℤ → ByteBufferReader → Result (List ℕ) × ByteBufferReader
read_byte_array zlength r =
    let n = wrap 64 zlength in
    let unread = size_sub (length r.buffer) r.offset in
    if is_negative zlength
    then (throw negative_length, r)
    else (if n == 0
        then (ok [], r)
        else (if ltb unread n
            then (throw (need_bytes n unread), r)
            else elim (load r.buffer r.offset n) [
              | some bytes ↦ (ok bytes, record r { offset = size_add r.offset n })
              | none ↦ (fault, r)
            ]))

-- `RETURN_LONG` of a size_t
unfoldable pub get_offset : ByteBufferReader → ℤ
get_offset r = signed 64 r.offset

unfoldable pub set_offset : ℤ → ByteBufferReader → Result (Unit {0}) × ByteBufferReader
set_offset offset r =
    if is_negative offset || ltb (length r.buffer) (wrap 64 offset)
    then (throw offset_out_of_range, r)
    else (ok tt, record r { offset = wrap 64 offset })

unfoldable pub get_unread_length : ByteBufferReader → ℤ
get_unread_length r = signed 64 (size_sub (length r.buffer) r.offset)

-- `reader_compare_objects` on two readers: 0 if they are equal, else 1
unfoldable pub reader_compare_objects : ByteBufferReader → ByteBufferReader → ℕ
reader_compare_objects q r = if q.offset == r.offset && bytes_equal q.buffer r.buffer then 0 else 1

-- `__serialize` and `__debugInfo`
unfoldable pub serialize : ByteBufferReader → HashTable
serialize r = properties r.buffer (signed 64 r.offset)

unfoldable pub debug_info : ByteBufferReader → HashTable
debug_info r = properties r.buffer (signed 64 r.offset)

-- `__unserialize`. The offset is taken as it stands.
unfoldable pub unserialize : HashTable → ByteBufferReader → Result (Unit {0}) × ByteBufferReader
unfolding reader_init_properties
unserialize props r = elim (fetch_properties props) [
  | ok (bytes, offset) ↦ (ok tt, reader_init_properties bytes (wrap 64 offset))
  | throw e ↦ (throw e, r)
  | fault ↦ (fault, r)
  | stuck ↦ (stuck, r)
]
