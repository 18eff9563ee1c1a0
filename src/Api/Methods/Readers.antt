-- ===== src/Api/Methods/Readers.antt =====
-- The methods of valid readers, with any arguments.
use ext_encoding.Prelude.{some, arith, List}
use ext_encoding.Prelude.{inl, inr, true}
use ext_encoding.Prelude.Int.{ℤ}
use ext_encoding.Prelude.Word.{InRange}
use ext_encoding.Zend.{HashTable}
use ext_encoding.Serialized.{fetch_properties_lem}
use ext_encoding.Types.Safety.{map_result-IsSettled}
use ext_encoding.Serializers.Contract.{IsSettled}
use ext_encoding.Reader
use ext_encoding.Reader.{ByteBufferReader}
use ext_encoding.Reader.Laws
use ext_encoding.Reader.Laws.{construct-IsValid, read_byte_array_lem, set_offset-IsValid}
use ext_encoding.Api.Arguments.{Argument, array_of, Coercions, void, text}
use ext_encoding.Api.Methods.{ReaderMethod, reader_method}
use ext_encoding.Api.Methods.Keeps.{
  IsFit, FitsReader, Keeps, none_throw-Keeps, with_long, with_string, with_array,
}

reader_unserialize-Keeps :
    (props : HashTable) {r : ByteBufferReader}
    → IsFit (array_of props)
    → Laws.IsValid r
    → let (outcome, r') = Reader.unserialize props r in IsSettled outcome × Laws.IsValid r'
unfolding Reader.unserialize Reader.reader_init_properties
reader_unserialize-Keeps props {r} fit v = elim (fetch_properties_lem props) [
  | inl (e, fails) ↦ rw (Reader.unserialize, fails) (tt, v)
  | inr (bytes, z, fetched, _, _) ↦
      let (small, inside) = fit bytes z fetched in
      rw (Reader.unserialize, fetched) (tt, record { small = small; inside = inside })
]

read_byte_array-Keeps :
    (z : ℤ) {r : ByteBufferReader}
    → InRange true 64 z
    → Laws.IsValid r
    → let (outcome, r') = Reader.read_byte_array z r in IsSettled outcome × Laws.IsValid r'
read_byte_array-Keeps z {r} h v = elim (read_byte_array_lem z r v h) [
  | inl (_, e) ↦ rw e (tt, v)
  | inr (inl (_, enough, e)) ↦
      rw e (tt, record { small = v.small; inside = omega (arith, v.inside) })
  | inr (inr (_, _, e)) ↦ rw e (tt, v)
]

set_offset-IsSettled : (z : ℤ) (r : ByteBufferReader) → IsSettled (Reader.set_offset z r).0
unfolding Reader.set_offset
set_offset-IsSettled z r = ground arith

module _ (coercions : Coercions) where
  -- A method settles and leaves the reader valid, if a table that is unserialized has
  -- its offset in its string.
  pub reader_method-IsSafe :
      (m : ReaderMethod) (args : List Argument) {r : ByteBufferReader}
      → FitsReader (some m) args
      → Laws.IsValid r
      → Keeps Laws.IsValid (reader_method coercions m args r)
  unfolding reader_method
  reader_method-IsSafe ReaderMethod.construct args {r} fit v =
      with_string coercions Laws.IsValid args r v _ (λ s small. (tt, construct-IsValid s small))
  reader_method-IsSafe ReaderMethod.get_data args {r} fit v =
      none_throw-Keeps Laws.IsValid args _ (tt, v)
  reader_method-IsSafe ReaderMethod.read_byte_array args {r} fit v =
      with_long coercions Laws.IsValid args r v _ (λ z h.
        let (settled, v') = read_byte_array-Keeps z h v in
        (map_result-IsSettled text _ settled, v'))
  reader_method-IsSafe ReaderMethod.get_offset args {r} fit v =
      none_throw-Keeps Laws.IsValid args _ (tt, v)
  reader_method-IsSafe ReaderMethod.set_offset args {r} fit v =
      with_long coercions Laws.IsValid args r v _ (λ z h.
        (map_result-IsSettled (λ _. void) _ (set_offset-IsSettled z r), set_offset-IsValid z v))
  reader_method-IsSafe ReaderMethod.get_unread_length args {r} fit v =
      none_throw-Keeps Laws.IsValid args _ (tt, v)
  reader_method-IsSafe ReaderMethod.serialize args {r} fit v =
      none_throw-Keeps Laws.IsValid args _ (tt, v)
  reader_method-IsSafe ReaderMethod.unserialize args {r} fit v =
      with_array Laws.IsValid args r _ fit v (λ props fits.
        let (settled, v') = reader_unserialize-Keeps props fits v in
        (map_result-IsSettled (λ _. void) _ settled, v'))
  reader_method-IsSafe ReaderMethod.debug_info args {r} fit v =
      none_throw-Keeps Laws.IsValid args _ (tt, v)
