-- ===== src/Writer.antt =====
-- The class ByteBufferWriter of classes/ByteBufferWriter.cpp. The state is the struct of
-- classes/ByteBufferWriter.h; a method returns its outcome and the state that it leaves. An access
-- outside an allocated block is a `fault`.
pub mod Invariant
pub mod Refine
pub mod Methods
pub mod Persist
use ext_encoding.Prelude.{ℕ, ◌+◌, ◌-◌, ◌*◌, ◌^◌, List, [], ◌∷◌, length, Option, none, some, Bool}
use ext_encoding.Prelude.{ltb, leb, ◌==◌, ◌&&◌, ◌||◌, if◌then◌else◌, true, false, ◌≡◌, refl}
use ext_encoding.Prelude.Int.{ℤ, pos, negsuc, is_negative}
use ext_encoding.Prelude.Word.{size_add, signed, wrap}
use ext_encoding.Zend.{Allocator, Result, ok, throw, fault, stuck, HashTable, Exception}
use ext_encoding.Zend.{offset_out_of_range, length_not_positive}
use ext_encoding.Serialized.{fetch_properties, properties}
use ext_encoding.Serializers.Memory.{Region, load, store, extend_buffer, extended}

pub record ByteBufferWriter : Type 0 where
  pub buffer : List ℕ
  pub length : ℕ
  pub offset : ℕ
  pub used : ℕ

abbrev pub prealloc_size : ℕ
prealloc_size = 16

-- `writer_init_properties`: the first `length` bytes of `buffer` in a block of their own. None are
-- copied if `length` is 0, and a block is reserved then.
unfoldable pub writer_init_properties : Allocator → List ℕ → ℕ → ℕ → Result ByteBufferWriter
writer_init_properties alloc buffer length offset =
    if length == 0
    then ok (record {
      buffer = alloc.emalloc prealloc_size;
      length = prealloc_size;
      offset = offset;
      used = length;
    })
    else elim (load buffer 0 length) [
      | none ↦ fault
      | some copy ↦ elim (store (alloc.emalloc length) 0 copy) [
        | none ↦ fault
        | some block ↦
            ok (record { buffer = block; length = length; offset = offset; used = length })
      ]
    ]

-- `writer_new`, `writer_clone` and `__construct`, whose argument may be left out
unfoldable pub writer_new : Allocator → Result ByteBufferWriter
unfolding writer_init_properties
writer_new alloc = writer_init_properties alloc [] 0 0

unfoldable pub writer_clone : Allocator → ByteBufferWriter → Result ByteBufferWriter
unfolding writer_init_properties
writer_clone alloc w = writer_init_properties alloc w.buffer w.used w.offset

unfoldable pub construct : Allocator → Option (List ℕ) → Result ByteBufferWriter
unfolding writer_init_properties
construct alloc none = writer_init_properties alloc [] 0 0
construct alloc (some prefix) = writer_init_properties alloc prefix (length prefix) (length prefix)

unfoldable pub get_data : ByteBufferWriter → Result (List ℕ)
get_data w = elim (load w.buffer 0 w.used) [ some bytes ↦ ok bytes | none ↦ fault ]

abbrev pub region : ByteBufferWriter → Region
region w = record { buffer = w.buffer; length = w.length; offset = w.offset }

-- `if (offset > used) used = offset`, behind a write to the reference parameters
abbrev pub update_used : ByteBufferWriter → Region → ByteBufferWriter
update_used w m = record {
  buffer = m.buffer;
  length = m.length;
  offset = m.offset;
  used = if ltb w.used m.offset then m.offset else w.used;
}

unfoldable pub write_byte_array :
    Allocator → List ℕ → ByteBufferWriter → Result (Unit {0}) × ByteBufferWriter
unfolding store
write_byte_array alloc value w =
    let size = length value in
    let m = extended alloc (region w) size in
    elim (store m.buffer m.offset value) [
      | none ↦ (fault, w)
      | some buffer ↦
          (ok tt, update_used w (record m { buffer = buffer; offset = size_add m.offset size }))
    ]

-- `RETURN_LONG` of a size_t
unfoldable pub get_offset : ByteBufferWriter → ℤ
get_offset w = signed 64 w.offset

unfoldable pub get_used_length : ByteBufferWriter → ℤ
get_used_length w = signed 64 w.used

unfoldable pub get_reserved_length : ByteBufferWriter → ℤ
get_reserved_length w = signed 64 w.length

unfoldable pub set_offset : ℤ → ByteBufferWriter → Result (Unit {0}) × ByteBufferWriter
set_offset offset w =
    if is_negative offset || ltb w.used (wrap 64 offset)
    then (throw offset_out_of_range, w)
    else (ok tt, record w { offset = wrap 64 offset })

-- `zlength <= 0`
abbrev pub is_positive : ℤ → Bool
is_positive (pos n) = ltb 0 n
is_positive (negsuc n) = false

unfoldable pub reserve : Allocator → ℤ → ByteBufferWriter → Result (Unit {0}) × ByteBufferWriter
reserve alloc zlength w =
    if is_positive zlength
    then (let (buffer, length) = extend_buffer alloc w.buffer w.length (wrap 64 zlength) 0 in
        (ok tt, record w { buffer = buffer; length = length }))
    else (throw length_not_positive, w)

unfoldable pub trim : Allocator → ByteBufferWriter → ByteBufferWriter
trim alloc w =
    if ltb w.used w.length
    then record w { buffer = alloc.erealloc w.buffer w.used; length = w.used }
    else w

unfoldable pub clear : ByteBufferWriter → ByteBufferWriter
clear w = record w { offset = 0; used = 0 }

-- `writer_compare_objects` on two writers: 0 if they are equal, else 1. `memcmp` reads `used` bytes
-- of both blocks, and is called only if the offsets and the used lengths agree.
abbrev pub bytes_equal : List ℕ → List ℕ → Bool
bytes_equal [] [] = true
bytes_equal [] (y ∷ ys) = false
bytes_equal (x ∷ xs) [] = false
bytes_equal (x ∷ xs) (y ∷ ys) = x == y && bytes_equal xs ys

unfoldable pub writer_compare_objects : ByteBufferWriter → ByteBufferWriter → Result ℕ
writer_compare_objects v w =
    if v.offset == w.offset && v.used == w.used
    then elim (load v.buffer 0 v.used) [
      | none ↦ fault
      | some xs ↦ elim (load w.buffer 0 v.used) [
        | none ↦ fault
        | some ys ↦ if bytes_equal xs ys then ok 0 else ok 1
      ]
    ]
    else ok 1

-- `__serialize` and `__debugInfo`
unfoldable pub serialize : ByteBufferWriter → Result HashTable
serialize w = elim (load w.buffer 0 w.used) [
  | some bytes ↦ ok (properties bytes (signed 64 w.offset))
  | none ↦ fault
]

unfoldable pub debug_info : ByteBufferWriter → Result HashTable
debug_info w = elim (load w.buffer 0 w.used) [
  | some bytes ↦ ok (properties bytes (signed 64 w.offset))
  | none ↦ fault
]

-- `__unserialize`. The offset is taken as it stands.
unfoldable pub unserialize :
    Allocator → HashTable → ByteBufferWriter → Result (Unit {0}) × ByteBufferWriter
unserialize alloc props w = elim (fetch_properties props) [
  | ok (bytes, offset) ↦ elim (writer_init_properties alloc bytes (length bytes) (wrap 64 offset)) [
    | ok w' ↦ (ok tt, w')
    | throw e ↦ (throw e, w)
    | fault ↦ (fault, w)
    | stuck ↦ (stuck, w)
  ]
  | throw e ↦ (throw e, w)
  | fault ↦ (fault, w)
  | stuck ↦ (stuck, w)
]
