-- ===== src/Api/Methods/Writers.antt =====
-- The methods of valid writers, with any arguments.
use ext_encoding.Prelude.{ℕ, ◌^◌, ◌<◌, ◌≡◌, refl, arith, List, Option, none, some}
use ext_encoding.Prelude.{inl, inr, length}
use ext_encoding.Prelude.Int.{ℤ}
use ext_encoding.Prelude.Word.{wrap}
use ext_encoding.Zend.{Allocator, HashTable}
use ext_encoding.Serialized.{fetch_properties_lem}
use ext_encoding.Types.Safety.{map_result-IsSettled}
use ext_encoding.Serializers.Contract.{IsSettled}
use ext_encoding.Writer
use ext_encoding.Writer.{ByteBufferWriter, writer_init_properties}
use ext_encoding.Writer.Invariant.{
  IsValid, writer_init_properties_lem, reserve-IsValid, trim-IsValid, clear-IsValid,
  set_offset-IsValid,
}
use ext_encoding.Writer.Refine.{get_data-view, write_byte_array-put}
use ext_encoding.Api.Arguments.{
  Argument, array_of, Coercions, void, table, optional_argument, string_argument,
}
use ext_encoding.Api.Arguments.Laws.{optional-Parses, string-Parses}
use ext_encoding.Api.Methods.{WriterMethod, writer_method, replaced}
use ext_encoding.Serializers.Memory.Laws.{load_inside}
use ext_encoding.Api.Methods.Keeps.{
  IsFit, FitsWriter, Keeps, parsed-Keeps, none_throw-Keeps, with_long, with_string, with_array,
}

writer_unserialize-Keeps :
    (alloc : Allocator) (props : HashTable) {w : ByteBufferWriter}
    → IsFit (array_of props)
    → IsValid w
    → let (outcome, w') = Writer.unserialize alloc props w in IsSettled outcome × IsValid w'
unfolding Writer.unserialize
writer_unserialize-Keeps alloc props {w} fit v = elim (fetch_properties_lem props) [
  | inl (e, fails) ↦ rw (Writer.unserialize, fails) (tt, v)
  | inr (bytes, z, fetched, _, _) ↦
      let (small, inside) = fit bytes z fetched in
      let (w', made, _, _, _, valid) =
        writer_init_properties_lem alloc bytes (length bytes) (wrap 64 z) (omega arith)
          (omega arith) in
      rw (Writer.unserialize, fetched, made) (tt, valid inside)
]

writer_set_offset-IsSettled : (z : ℤ) (w : ByteBufferWriter) → IsSettled (Writer.set_offset z w).0
unfolding Writer.set_offset
writer_set_offset-IsSettled z w = ground arith

reserve-IsSettled :
    (alloc : Allocator) (z : ℤ) (w : ByteBufferWriter) → IsSettled (Writer.reserve alloc z w).0
unfolding Writer.reserve
reserve-IsSettled alloc z w = ground arith

construct-Keeps :
    (alloc : Allocator) (prefix : Option (List ℕ)) {w : ByteBufferWriter}
    → ((bytes : List ℕ) → prefix ≡ some bytes → length bytes < 2 ^ 63)
    → IsValid w
    → Keeps IsValid (replaced (Writer.construct alloc prefix) w)
unfolding Writer.construct
construct-Keeps alloc none {w} small v = (tt, omega (arith, alloc.length-emalloc 16))
construct-Keeps alloc (some bytes) {w} small v =
    let less : length bytes < 2 ^ 63 = small bytes refl in
    let (w', made, _, _, _, valid) =
      writer_init_properties_lem alloc bytes (length bytes) (length bytes) (omega arith)
        (omega arith) in
    rw made (tt, valid (omega arith))

properties-IsSettled :
    {w : ByteBufferWriter}
    → IsValid w
    → IsSettled (Writer.serialize w) × IsSettled (Writer.debug_info w)
unfolding Writer.serialize Writer.debug_info
properties-IsSettled {w} v = ground (arith, load_inside w.buffer 0 w.used)

module _ (coercions : Coercions) (alloc : Allocator) where
  -- A method settles and leaves the writer valid, if the offset is below 2 ^ 63 and a
  -- table that is unserialized has its offset in its string.
  pub writer_method-IsSafe :
      (m : WriterMethod) (args : List Argument) {w : ByteBufferWriter}
      → FitsWriter (some m) args
      → IsValid w
      → w.offset < 2 ^ 63
      → Keeps IsValid (writer_method coercions alloc m args w)
  unfolding writer_method
  writer_method-IsSafe WriterMethod.construct args {w} fit v room =
      parsed-Keeps IsValid _ (optional_argument (string_argument coercions) args) w _ v
        (optional-Parses _ (string_argument coercions) (string-Parses coercions) args)
        (λ prefix small. construct-Keeps alloc prefix small v)
  writer_method-IsSafe WriterMethod.get_data args {w} fit v room =
      none_throw-Keeps IsValid args _ (rw (get_data-view v) tt, v)
  writer_method-IsSafe WriterMethod.write_byte_array args {w} fit v room =
      with_string coercions IsValid args w v _ (λ s small.
        let (done, v', _) = write_byte_array-put alloc s v (omega arith) in (rw done tt, v'))
  writer_method-IsSafe WriterMethod.get_offset args {w} fit v room =
      none_throw-Keeps IsValid args _ (tt, v)
  writer_method-IsSafe WriterMethod.set_offset args {w} fit v room =
      with_long coercions IsValid args w v _ (λ z h. (
        map_result-IsSettled (λ _. void) _ (writer_set_offset-IsSettled z w),
        set_offset-IsValid z v,
      ))
  writer_method-IsSafe WriterMethod.get_used_length args {w} fit v room =
      none_throw-Keeps IsValid args _ (tt, v)
  writer_method-IsSafe WriterMethod.get_reserved_length args {w} fit v room =
      none_throw-Keeps IsValid args _ (tt, v)
  writer_method-IsSafe WriterMethod.reserve args {w} fit v room =
      with_long coercions IsValid args w v _ (λ z h. (
        map_result-IsSettled (λ _. void) _ (reserve-IsSettled alloc z w),
        reserve-IsValid alloc z v,
      ))
  writer_method-IsSafe WriterMethod.trim args {w} fit v room =
      none_throw-Keeps IsValid args _ (tt, trim-IsValid alloc v)
  writer_method-IsSafe WriterMethod.clear args {w} fit v room =
      none_throw-Keeps IsValid args _ (tt, clear-IsValid v)
  writer_method-IsSafe WriterMethod.serialize args {w} fit v room =
      none_throw-Keeps IsValid args _ (map_result-IsSettled table _ (properties-IsSettled v).0, v)
  writer_method-IsSafe WriterMethod.unserialize args {w} fit v room =
      with_array IsValid args w _ fit v (λ props fits.
        let (settled, v') = writer_unserialize-Keeps alloc props fits v in
        (map_result-IsSettled (λ _. void) _ settled, v'))
  writer_method-IsSafe WriterMethod.debug_info args {w} fit v room =
      none_throw-Keeps IsValid args _ (map_result-IsSettled table _ (properties-IsSettled v).1, v)
