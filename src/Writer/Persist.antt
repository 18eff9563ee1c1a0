-- ===== src/Writer/Persist.antt =====
-- `__serialize` and `__unserialize` of ByteBufferWriter.
use ext_encoding.Prelude.{ℕ, ◌^◌, ◌≤◌, ◌<◌, ◌≡◌, refl, arith, ◌∙◌}
use ext_encoding.Prelude.{List, length, take, take-length, ◌↔◌, length-take}
use ext_encoding.Prelude.Int.{ℤ}
use ext_encoding.Prelude.Word.{signed, wrap}
use ext_encoding.Prelude.{◌⊎◌, inl, inr, some}
use ext_encoding.Zend.{Allocator, ok, throw, HashTable, hash_find, string, long, Exception}
use ext_encoding.Serialized.{fetch_properties_lem}
use ext_encoding.Serialized.{properties, fetch_properties, fetch_properties-properties}
use ext_encoding.Serializers.Memory.Laws.{load_inside}
use ext_encoding.Writer.{ByteBufferWriter, serialize, unserialize, writer_init_properties}
use ext_encoding.Writer.Invariant.{IsValid, writer_init_properties_lem}
use ext_encoding.Writer.Refine.{view}
use ext_encoding.Writer.Methods.{document_eq}

wrap-signed : (n : ℕ) → n < 2 ^ 64 → wrap 64 (signed 64 n) ≡ n
wrap-signed n h = ground arith

unserialize_fetched :
    (alloc : Allocator) (props : HashTable) (target w' : ByteBufferWriter) (bytes : List ℕ) (z : ℤ)
    → fetch_properties props ≡ ok (bytes, z)
    → writer_init_properties alloc bytes (length bytes) (wrap 64 z) ≡ ok w'
    → unserialize alloc props target ≡ (ok tt, w')
unfolding unserialize
unserialize_fetched alloc props target w' bytes z fetched made = ground (arith, fetched, made)

-- A valid writer is serialized without a fault, and what is unserialized from that, into any
-- object, is a valid writer with the content and the offset of the original.
pub writer_unserialize-serialize :
    (alloc : Allocator) (target : ByteBufferWriter) {w : ByteBufferWriter}
    → IsValid w
    → (props : HashTable) × (serialize w ≡ ok props)
      × (let (outcome, w') = unserialize alloc props target in
          (outcome ≡ ok tt) × IsValid w' × (view w' ≡ view w))
unfolding serialize
writer_unserialize-serialize alloc target {w} v =
    let bytes : List ℕ = take w.used w.buffer in
    let size : length bytes ≡ w.used = length-take w.used w.buffer (omega arith) in
    let (w', made, content, used, offset, valid) =
      writer_init_properties_lem alloc bytes (length bytes) w.offset (omega arith) (omega arith) in
    (
      properties bytes (signed 64 w.offset),
      ground (arith, load_inside w.buffer 0 w.used),
      rw
          (unserialize_fetched alloc (properties bytes (signed 64 w.offset)) target w' bytes
            (signed 64 w.offset) (fetch_properties-properties bytes (signed 64 w.offset))
            (rw (wrap-signed w.offset (omega arith)) made))
          (refl, valid (omega arith), document_eq (content ∙ take-length bytes) offset),
    )

-- `__unserialize` accepts any offset for less than 2 ^ 64 bytes: the writer that it makes is valid
-- exactly if the offset, taken as a size_t, is at most their number.
pub writer_unserialize-IsValid_iff :
    (alloc : Allocator) (target : ByteBufferWriter) (bytes : List ℕ) (z : ℤ)
    → length bytes < 2 ^ 64
    → let (outcome, w') = unserialize alloc (properties bytes z) target in
      (outcome ≡ ok tt) × (IsValid w' ↔ (wrap 64 z ≤ length bytes))
writer_unserialize-IsValid_iff alloc target bytes z small =
    let (w', made, content, used, offset, valid) =
      writer_init_properties_lem alloc bytes (length bytes) (wrap 64 z) (omega arith) small in
    rw
      (unserialize_fetched alloc (properties bytes z) target w' bytes z
        (fetch_properties-properties bytes z) made)
      (refl, (λ h. omega (arith, h.offset_inside, offset, used), valid))

-- `__unserialize` of any table, whatever its keys and the types of its values, either throws and
-- leaves the object as it was, or finds a string under "buffer" and an int under "offset" and makes
-- the writer that users see as these; it never faults, and never reads a value as one of another
-- type. A string in the table has less than 2 ^ 64 bytes.
pub writer_unserialize_lem :
    (alloc : Allocator) (props : HashTable) (w : ByteBufferWriter)
    → ((bytes : List ℕ) → hash_find props "buffer" ≡ some (string bytes) → length bytes < 2 ^ 64)
    → ((e : Exception) × (unserialize alloc props w ≡ (throw e, w)))
      ⊎ ((bytes : List ℕ) × (z : ℤ) × (w' : ByteBufferWriter) × (hash_find props "buffer"
            ≡ some (string bytes))
          × (hash_find props "offset" ≡ some (long z))
          × (unserialize alloc props w ≡ (ok tt, w'))
          × (view w' ≡ record { content = bytes; position = wrap 64 z }))
writer_unserialize_lem alloc props w small = elim (fetch_properties_lem props) [
  | inl (e, fails) ↦ inl (e, unfold unserialize in ground (arith, fails))
  | inr (bytes, z, fetched, has_buffer, has_offset) ↦
      let (w', made, content, used, offset, _) =
        writer_init_properties_lem alloc bytes (length bytes) (wrap 64 z) (omega arith)
          (small bytes has_buffer) in
      inr (
        bytes,
        z,
        w',
        has_buffer,
        has_offset,
        unserialize_fetched alloc props w w' bytes z fetched made,
        document_eq (content ∙ take-length bytes) offset,
      )
]
