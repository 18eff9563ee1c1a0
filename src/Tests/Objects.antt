-- ===== src/Tests/Objects.antt =====
-- The classes ByteBufferWriter and ByteBufferReader on concrete objects.
use ext_encoding.Prelude.{ℕ, suc, ◌+◌, ◌-◌, ◌*◌, ◌^◌, ◌≤◌, ◌<◌, ◌≡◌, arith, List, [], ◌∷◌, some}
use ext_encoding.Prelude.{length, take, drop, ◌⊎◌, ◌↔◌, if◌then◌else◌, leb}
use ext_encoding.Prelude.Int.{ℤ, pos, negsuc, ◌≤ℤ◌}
use ext_encoding.Prelude.Word.{wrap}
use Prim.Native.Nat.{max}
use ext_encoding.Zend.{HashTable, Exception, ok, throw, string, long, hash_find}
use ext_encoding.Zend.{offset_out_of_range, length_not_positive, need_bytes, negative_length}
use ext_encoding.Spec.{seek}
use ext_encoding.Serialized.{properties}
use ext_encoding.Writer
use ext_encoding.Writer.{ByteBufferWriter, write_byte_array, writer_clone, reserve, trim}
use ext_encoding.Writer.{writer_compare_objects}
use ext_encoding.Writer.Invariant.{IsValid}
use ext_encoding.Writer.Refine.{view}
use ext_encoding.Writer.Methods.{set_offset_lem, reserve_lem, writer_compare_objects_iff}
use ext_encoding.Writer.Persist.{
  writer_unserialize-serialize, writer_unserialize_lem, writer_unserialize-IsValid_iff,
}
use ext_encoding.Reader
use ext_encoding.Reader.{ByteBufferReader, read_byte_array, reader_compare_objects}
use ext_encoding.Reader.Laws.{read_byte_array_lem}
use ext_encoding.Reader.Persist.{reader_unserialize-serialize, reader_unserialize_lem}
use ext_encoding.Tests.Samples.{
  zeroing, a_writer, a_writer-IsValid, empty_writer, empty_writer-IsValid, a_reader,
  a_reader-IsValid,
}

-- A table with a string where an int belongs.
abbrev bad_table : HashTable
bad_table = ("offset", string []) ∷ ("buffer", string (7 ∷ [])) ∷ []

-- 4 is inside the block, but past the bytes in use.
set_offset_lem_example :
    let (outcome, w') = Writer.set_offset (pos 4) a_writer in
    ((pos 0 ≤ℤ pos 4)
      × (pos 4 ≤ℤ pos 3)
      × (outcome ≡ ok tt)
      × (view w' ≡ seek (wrap 64 (pos 4)) (view a_writer)))
    ⊎ (((pos 4 ≤ℤ negsuc 0) ⊎ (pos (suc 3) ≤ℤ pos 4))
        × (outcome ≡ throw offset_out_of_range)
        × (w' ≡ a_writer))
set_offset_lem_example = set_offset_lem a_writer (pos 4) a_writer-IsValid (omega arith)

reserve_lem_example :
    let (outcome, w') = reserve zeroing (pos 6) a_writer in
    let n = wrap 64 (pos 6) in
    (view w' ≡ view a_writer)
    × (((pos 6 ≤ℤ pos 0) × (outcome ≡ throw length_not_positive) × (w' ≡ a_writer))
        ⊎ ((pos 1 ≤ℤ pos 6)
            × (outcome ≡ ok tt)
            × (w'.length ≡ (if leb n 4 then 4 else max (4 * 2) n))))
reserve_lem_example = reserve_lem zeroing a_writer-IsValid (pos 6) (omega arith) (omega arith)

writer_compare_objects_iff_example :
    (writer_compare_objects a_writer empty_writer ≡ ok 0) ↔ (view a_writer ≡ view empty_writer)
writer_compare_objects_iff_example =
    writer_compare_objects_iff a_writer-IsValid empty_writer-IsValid

writer_unserialize-serialize_example :
    (props : HashTable) × (Writer.serialize a_writer ≡ ok props)
    × (let (outcome, w') = Writer.unserialize zeroing props empty_writer in
        (outcome ≡ ok tt) × IsValid w' × (view w' ≡ view a_writer))
writer_unserialize-serialize_example =
    writer_unserialize-serialize zeroing empty_writer a_writer-IsValid

bad_table_small :
    (bytes : List ℕ) → hash_find bad_table "buffer" ≡ some (string bytes) → length bytes < 2 ^ 64
bad_table_small bytes e = ground arith

writer_unserialize_lem_example :
    ((e : Exception) × (Writer.unserialize zeroing bad_table a_writer ≡ (throw e, a_writer)))
    ⊎ ((bytes : List ℕ) × (z : ℤ) × (w' : ByteBufferWriter) × (hash_find bad_table "buffer"
          ≡ some (string bytes))
        × (hash_find bad_table "offset" ≡ some (long z))
        × (Writer.unserialize zeroing bad_table a_writer ≡ (ok tt, w'))
        × (view w' ≡ record { content = bytes; position = wrap 64 z }))
writer_unserialize_lem_example = writer_unserialize_lem zeroing bad_table a_writer bad_table_small

-- The offset 9 is taken for a string of two bytes.
writer_unserialize-IsValid_iff_example :
    let (outcome, w') = Writer.unserialize zeroing (properties (5 ∷ 6 ∷ []) (pos 9)) empty_writer in
    (outcome ≡ ok tt) × (IsValid w' ↔ (wrap 64 (pos 9) ≤ 2))
writer_unserialize-IsValid_iff_example =
    writer_unserialize-IsValid_iff zeroing empty_writer (5 ∷ 6 ∷ []) (pos 9) (omega arith)

read_byte_array_lem_example :
    let unread = length a_reader.buffer - a_reader.offset in
    let n = wrap 64 (pos 2) in
    ((pos 2 ≤ℤ negsuc 0) × (read_byte_array (pos 2) a_reader ≡ (throw negative_length, a_reader)))
    ⊎ (((pos 0 ≤ℤ pos 2)
          × (n ≤ unread)
          × (read_byte_array (pos 2) a_reader
              ≡ (ok (take n (drop 1 a_reader.buffer)), record a_reader { offset = 1 + n })))
        ⊎ ((pos 0 ≤ℤ pos 2)
            × (unread < n)
            × (read_byte_array (pos 2) a_reader ≡ (throw (need_bytes n unread), a_reader))))
read_byte_array_lem_example = read_byte_array_lem (pos 2) a_reader a_reader-IsValid (omega arith)

reader_unserialize-serialize_example :
    Reader.unserialize (Reader.serialize a_reader) (record { buffer = []; offset = 0 })
    ≡ (ok tt, a_reader)
reader_unserialize-serialize_example =
    reader_unserialize-serialize (record { buffer = []; offset = 0 }) a_reader (omega arith)

reader_unserialize_lem_example :
    ((e : Exception) × (Reader.unserialize bad_table a_reader ≡ (throw e, a_reader)))
    ⊎ ((bytes : List ℕ) × (z : ℤ) × (hash_find bad_table "buffer" ≡ some (string bytes))
        × (hash_find bad_table "offset" ≡ some (long z))
        × (Reader.unserialize bad_table a_reader
            ≡ (ok tt, record { buffer = bytes; offset = wrap 64 z })))
reader_unserialize_lem_example = reader_unserialize_lem bad_table a_reader
