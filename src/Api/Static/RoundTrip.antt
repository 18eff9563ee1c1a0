-- ===== src/Api/Static/RoundTrip.antt =====
-- A value through the static functions by their names.
use mathlib.Core.Path.{fun_ext}
use ext_encoding.Prelude.{ℕ, ◌+◌, ◌^◌, ◌<◌, ◌≡◌, refl, arith, ap, ◌∙◌, List, [], ◌∷◌, some}
use ext_encoding.Zend.{Allocator, ok, map_result}
use ext_encoding.Serializers.Endian.{ByteOrder}
use ext_encoding.Reader.{ByteBufferReader}
use ext_encoding.Writer.{ByteBufferWriter}
use ext_encoding.Writer.Invariant.{IsValid}
use ext_encoding.Writer.Refine.{view}
use ext_encoding.Types.{
  FloatCasts, ZendType, zend_long, zend_double, ZendValue, zend_type, Codec, zif_write_type,
  zif_read_type,
}
use ext_encoding.Types.Encoding.{reserved}
use ext_encoding.Types.Values.{IsZendValue, IsValue, rounded}
use ext_encoding.Types.RoundTrip.{zif_write_type-put, zif_read_type-zif_write_type}
use ext_encoding.Types.Tables.{Operation, read, write}
use ext_encoding.Types.Tables.Lookup.{find_method_iff, class_of, method_name}
use ext_encoding.Objects.{Handle, update}
use ext_encoding.Objects.Sound.{update_same}
use ext_encoding.Api.Arguments.{
  Argument, reader, writer, Coercions, void, zend_value, zend_argument, argument_of,
}
use ext_encoding.Api.Live.{Live, on_reader, on_writer, returns}
use ext_encoding.Api.Static.{call_entry, call_static}

abbrev set_reader : Live → Handle → ByteBufferReader → Live
set_reader live h r = record live { readers = update live.readers h (some r) }

abbrev set_writer : Live → Handle → ByteBufferWriter → Live
set_writer live h w = record live { writers = update live.writers h (some w) }

zend_argument-argument_of :
    (coercions : Coercions) (t : ZendType) (z : ZendValue t)
    → IsZendValue t z
    → zend_argument coercions t (argument_of t z) ≡ ok z
zend_argument-argument_of coercions zend_long z fits = rw (coercions.to_long-long z fits) refl
zend_argument-argument_of coercions zend_double z fits = rw (coercions.to_double-double z fits) refl

module _ (alloc : Allocator) (casts : FloatCasts) (native : ByteOrder) (coercions : Coercions)
    (stack : List ℕ) where
  -- The name of a function in the class of its type calls that function.
  call_static_own :
      (o : Operation) (c : Codec) (args : List Argument) (live : Live)
      → call_static alloc casts native coercions stack (class_of c) (method_name o c) args live
        ≡ call_entry alloc casts native coercions stack o c args live
  unfolding call_static call_entry
  call_static_own o c args live =
      rw (call_static, (find_method_iff (class_of c) (method_name o c) o c).1 (refl, refl)) refl

  call_entry_write :
      (c : Codec) (z : ZendValue (zend_type c)) (h : Handle) (live : Live) (w : ByteBufferWriter)
      → live.writers h ≡ some w
      → IsZendValue (zend_type c) z
      → call_entry alloc casts native coercions stack write c
          (writer h ∷ argument_of (zend_type c) z ∷ [])
          live
        ≡ returns
            (λ _. void)
            (let (result, w') = zif_write_type alloc casts native c z w in
              (result, set_writer live h w'))
  unfolding call_entry
  call_entry_write c z h live w found zend =
      rw (call_entry, zend_argument-argument_of coercions (zend_type c) z zend, on_writer, found)
        refl

  call_entry_read :
      (c : Codec) (h : Handle) (live : Live) (r : ByteBufferReader)
      → live.readers h ≡ some r
      → call_entry alloc casts native coercions stack read c (reader h ∷ []) live
        ≡ returns
            (zend_value (zend_type c))
            (let (result, r') = zif_read_type casts native c r in (result, set_reader live h r'))
  unfolding call_entry
  call_entry_read c h live r found = rw (on_reader, found) refl

update_twice : {A : Type 0} (f : ℕ → A) (h : ℕ) (a b : A) → update (update f h a) h b ≡ update f h b
update_twice f h a b = fun_ext (λ q. ground arith)

-- The function `write` of a type, called by its name in its class with a writer and a value that
-- the type can hold, returns and changes no object but that writer. The function `read` of the
-- type, called by its name with a reader on the content of the writer at the old offset, on a
-- machine of any byte order, returns the value, a float at its precision, leaves the reader at the
-- offset of the writer and changes no other object. The writer is valid before and its content
-- stays below 2 ^ 63 bytes.
pub call_static_read-call_static_write :
    (alloc : Allocator) (casts : FloatCasts) (native native' : ByteOrder) (coercions : Coercions)
    (stack : List ℕ) (c : Codec) (z : ZendValue (zend_type c)) (h g : Handle) (live live' : Live)
    (w : ByteBufferWriter)
    → live.writers h ≡ some w
    → IsZendValue (zend_type c) z
    → IsValue c z
    → IsValid w
    → w.used + reserved c < 2 ^ 63
    → (w' : ByteBufferWriter) × (call_static alloc casts native coercions stack
          (class_of c)
          (method_name write c)
          (writer h ∷ argument_of (zend_type c) z ∷ [])
          live
        ≡ (ok void, set_writer live h w'))
      × (call_static alloc casts native' coercions stack
            (class_of c)
            (method_name read c)
            (reader g ∷ [])
            (set_reader live' g (record { buffer = (view w').content; offset = w.offset }))
          ≡ (
            ok (zend_value (zend_type c) (rounded casts c z)),
            set_reader live' g (record { buffer = (view w').content; offset = w'.offset }),
          ))
call_static_read-call_static_write alloc casts native native' coercions stack c z h g live live' w
      found zend fits valid room =
    let w' : ByteBufferWriter = (zif_write_type alloc casts native c z w).1 in
    let (done, _, _) = zif_write_type-put alloc casts native c z zend valid (omega arith) in
    let back = zif_read_type-zif_write_type alloc casts native native' c z zend fits valid room in
    let r : ByteBufferReader = record { buffer = (view w').content; offset = w.offset } in
    let r' : ByteBufferReader = record { buffer = (view w').content; offset = w'.offset } in
    (
      w',
      call_static_own alloc casts native coercions stack write c _ live
          ∙ call_entry_write alloc casts native coercions stack c z h live w found zend
          ∙ ap (λ o. (map_result (λ _. void) o, set_writer live h w')) done,
      call_static_own alloc casts native' coercions stack read c _ (set_reader live' g r)
          ∙ call_entry_read alloc casts native' coercions stack c g (set_reader live' g r) r
              (update_same live'.readers g (some r))
          ∙ ap
              (λ o. (
                map_result (zend_value (zend_type c)) o.0,
                set_reader (set_reader live' g r) g o.1,
              ))
              back
          ∙ ap
              (λ readers. (
                ok (zend_value (zend_type c) (rounded casts c z)),
                record live' { readers = readers },
              ))
              (update_twice live'.readers g (some r) (some r')),
    )
