-- ===== src/Reader/Persist.antt =====
-- `__serialize` and `__unserialize` of ByteBufferReader, and what a reader does past the end of its
-- string.
use ext_encoding.Prelude.{ℕ, ◌^◌, ◌≤◌, ◌<◌, ◌≡◌, refl, arith, ap, ◌∙◌}
use ext_encoding.Prelude.{List, length, ◌↔◌}
use ext_encoding.Prelude.Int.{ℤ}
use ext_encoding.Prelude.Word.{signed, wrap}
use ext_encoding.Prelude.{◌⊎◌, inl, inr, some}
use ext_encoding.Zend.{ok, throw, HashTable, hash_find, string, long, Exception}
use ext_encoding.Serialized.{fetch_properties_lem}
use ext_encoding.Serialized.{properties, fetch_properties, fetch_properties-properties}
use ext_encoding.Reader.{ByteBufferReader, serialize, unserialize}
use ext_encoding.Reader.{reader_compare_objects}
use ext_encoding.Reader.Laws.{IsValid}
use ext_encoding.Writer.Methods.{bytes_equal_iff}

unserialize_fetched :
    (props : HashTable) (target : ByteBufferReader) (bytes : List ℕ) (z : ℤ)
    → fetch_properties props ≡ ok (bytes, z)
    → unserialize props target ≡ (ok tt, record { buffer = bytes; offset = wrap 64 z })
unfolding unserialize
unserialize_fetched props target bytes z fetched = ground (arith, fetched)

-- A reader with any offset below 2 ^ 64 that is serialized and unserialized, into any object, is
-- the original.
pub reader_unserialize-serialize :
    (target r : ByteBufferReader)
    → r.offset < 2 ^ 64
    → unserialize (serialize r) target ≡ (ok tt, r)
unfolding serialize
reader_unserialize-serialize target r small =
    unserialize_fetched (properties r.buffer (signed 64 r.offset)) target r.buffer
      (signed 64 r.offset) (fetch_properties-properties r.buffer (signed 64 r.offset))
    ∙ ap (λ (i : ℕ). (ok tt, record { buffer = r.buffer; offset = i })) (ground arith)

-- `__unserialize` accepts any offset for a string of less than 2 ^ 63 bytes: the reader that it
-- makes is valid exactly if the offset, taken as a size_t, is at most the length of the string.
pub reader_unserialize-IsValid_iff :
    (target : ByteBufferReader) (bytes : List ℕ) (z : ℤ)
    → length bytes < 2 ^ 63
    → let (outcome, r) = unserialize (properties bytes z) target in
      (outcome ≡ ok tt) × (IsValid r ↔ (wrap 64 z ≤ length bytes))
reader_unserialize-IsValid_iff target bytes z small =
    rw
      (unserialize_fetched (properties bytes z) target bytes z
        (fetch_properties-properties bytes z))
      (refl, (λ h. h.inside, λ h. record { small = small; inside = h }))

-- Two readers compare equal exactly when their strings and offsets agree.
pub reader_compare_objects_iff :
    (q r : ByteBufferReader)
    → (reader_compare_objects q r ≡ 0) ↔ ((q.offset ≡ r.offset) × (q.buffer ≡ r.buffer))
unfolding reader_compare_objects
reader_compare_objects_iff q r = ground (arith, bytes_equal_iff q.buffer r.buffer)

-- `__unserialize` of any table, whatever its keys and the types of its values, either throws and
-- leaves the object as it was, or finds a string under "buffer" and an int under "offset" and makes
-- the reader that holds them; it never reads a value as one of another type.
pub reader_unserialize_lem :
    (props : HashTable) (r : ByteBufferReader)
    → ((e : Exception) × (unserialize props r ≡ (throw e, r)))
      ⊎ ((bytes : List ℕ) × (z : ℤ) × (hash_find props "buffer" ≡ some (string bytes))
          × (hash_find props "offset" ≡ some (long z))
          × (unserialize props r ≡ (ok tt, record { buffer = bytes; offset = wrap 64 z })))
reader_unserialize_lem props r = elim (fetch_properties_lem props) [
  | inl (e, fails) ↦ inl (e, unfold unserialize in ground (arith, fails))
  | inr (bytes, z, fetched, has_buffer, has_offset) ↦
      inr (bytes, z, has_buffer, has_offset, unserialize_fetched props r bytes z fetched)
]
