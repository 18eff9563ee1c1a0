-- ===== src/Packet.antt =====
-- A packet: values of any types written one behind the other, and read back in the same order.
use ext_encoding.Prelude.{ℕ, ◌+◌, ◌^◌, ◌≤◌, ◌<◌, ◌≡◌, arith, ap, ap₂, sym, ◌∙◌}
use ext_encoding.Prelude.{
  List, [], ◌∷◌, ◌++◌, append_assoc, append-nil, length, length-append, drop, All, drop-append,
}
use ext_encoding.Prelude.{drop-drop, take-length, length-drop, drop_past}
use ext_encoding.Zend.{Allocator, Result, ok, throw, fault, stuck}
use ext_encoding.Spec.{Document, put, empty}
use ext_encoding.Serializers.Endian.{ByteOrder}
use ext_encoding.Writer.{ByteBufferWriter}
use ext_encoding.Writer.Invariant.{IsValid}
use ext_encoding.Writer.Refine.{view, length-view}
use ext_encoding.Reader.{ByteBufferReader}
use ext_encoding.Reader.Laws
use ext_encoding.Types.{Codec, FloatCasts, ZendValue, zend_type, cast_value, zif_read_type}
use ext_encoding.Types.Encoding.{encode, write_type-Writes}
use ext_encoding.Types.Values.{
  IsZendValue, IsValue, rounded, cast_value-Fits, assign_zval-cast_value,
}
use ext_encoding.Types.RoundTrip.{zif_read_type-encode}
use ext_encoding.Writer.Methods.{document_eq}
use ext_encoding.Session.Refine.{IsCall, run_refines}
use Prim.Native.Nat.{zero-le}
use ext_encoding.Session.{Call, write, run, spec_run, spec_step, total_cost}

-- A field: a codec with a value of its PHP type.
abbrev pub Field : Type 0
Field = (c : Codec) × ZendValue (zend_type c)

-- `write` of each field.
abbrev pub writes : List Field → List Call
writes [] = []
writes ((c, z) ∷ fields) = write c z ∷ writes fields

abbrev after_read :
    {A B : Type 0}
    → Result A × ByteBufferReader
    → (A → ByteBufferReader → Result B × ByteBufferReader)
    → Result B × ByteBufferReader
after_read (ok a, r) f = f a r
after_read (throw e, r) f = (throw e, r)
after_read (fault, r) f = (fault, r)
after_read (stuck, r) f = (stuck, r)

-- `read` of each codec, up to the first error.
pub read_fields :
    FloatCasts → ByteOrder → List Codec → ByteBufferReader → Result (List Field) × ByteBufferReader
read_fields casts native [] r = (ok [], r)
read_fields casts native (c ∷ codecs) r =
    after_read (zif_read_type casts native c r)
      λ z r. after_read (read_fields casts native codecs r) λ fields r. (ok ((c, z) ∷ fields), r)

abbrev pub codecs : List Field → List Codec
codecs [] = []
codecs ((c, z) ∷ fields) = c ∷ codecs fields

abbrev pub rounded_fields : FloatCasts → List Field → List Field
rounded_fields casts [] = []
rounded_fields casts ((c, z) ∷ fields) = (c, rounded casts c z) ∷ rounded_fields casts fields

abbrev pub AreValues : List Field → Type 0
AreValues [] = Unit
AreValues ((c, z) ∷ fields) = (IsZendValue (zend_type c) z × IsValue c z) × AreValues fields

-- The bytes of a packet.
abbrev pub payload : FloatCasts → List Field → List ℕ
payload casts [] = []
payload casts ((c, z) ∷ fields) = encode c (cast_value casts c z) ++ payload casts fields

put_at_end :
    (bytes before : List ℕ)
    → put bytes (record { content = before; position = length before })
      ≡ record { content = before ++ bytes; position = length (before ++ bytes) }
unfolding put
put_at_end bytes before =
    document_eq
      (ap₂ (λ (x y : List ℕ). x ++ (bytes ++ y)) (take-length before) past_end
        ∙ ap (λ (x : List ℕ). before ++ x) (append-nil bytes))
      (sym (length-append before bytes))
  where
    past_end : drop (length before + length bytes) before ≡ []
    past_end = drop_past before (length before + length bytes) (omega arith)

-- What stands behind the bytes that a read takes.
behind :
    (input front rest : List ℕ) (i : ℕ)
    → i ≤ length input
    → drop i input ≡ front ++ rest
    → (drop (i + length front) input ≡ rest) × (i + length front ≤ length input)
behind input front rest i inside e = (
  sym (drop-drop i (length front) input) ∙ ap (drop (length front)) e ∙ drop-append front rest,
  omega (arith, ap length e, length-append front rest, length-drop i input),
)

module _ (casts : FloatCasts) where
  -- At the end of a text the writes append the bytes of the packet.
  spec_run-writes :
      (fields : List Field) (before : List ℕ)
      → (spec_run casts (writes fields) (record { content = before; position = length before })).1
        ≡ record {
          content = before ++ payload casts fields;
          position = length (before ++ payload casts fields);
        }
  unfolding spec_run spec_step
  spec_run-writes [] before =
      document_eq (sym (append-nil before)) (ap length (sym (append-nil before)))
  spec_run-writes ((c, z) ∷ fields) before =
      let bytes : List ℕ = encode c (cast_value casts c z) in
      let joined = append_assoc before bytes (payload casts fields) in
      ap (λ (d : Document). (spec_run casts (writes fields) d).1) (put_at_end bytes before)
      ∙ spec_run-writes fields (before ++ bytes)
      ∙ document_eq joined (ap length joined)

  -- Where the bytes of a packet stand the reads return its values.
  read_fields-payload :
      (native : ByteOrder) (fields : List Field) (rest : List ℕ) {r : ByteBufferReader}
      → AreValues fields
      → Laws.IsValid r
      → drop r.offset r.buffer ≡ payload casts fields ++ rest
      → read_fields casts native (codecs fields) r ≡ (
        ok (rounded_fields casts fields),
        record r { offset = r.offset + length (payload casts fields) },
      )
  unfolding read_fields
  read_fields-payload native [] rest {r} h v found =
      ap (λ (i : ℕ). (ok [], record { buffer = r.buffer; offset = i })) (omega arith)
  read_fields-payload native ((c, z) ∷ fields) rest {r} h v found =
      let bytes : List ℕ = encode c (cast_value casts c z) in
      let found' : drop r.offset r.buffer ≡ bytes ++ (payload casts fields ++ rest) =
        found ∙ append_assoc bytes (payload casts fields) rest in
      let (next, inside) =
        behind r.buffer bytes (payload casts fields ++ rest) r.offset v.inside found' in
      let r' : ByteBufferReader = record r { offset = r.offset + length bytes } in
      let first : zif_read_type casts native c r ≡ (ok (rounded casts c z), r') =
        zif_read_type-encode casts native c (cast_value casts c z) (payload casts fields ++ rest)
          (cast_value-Fits casts c z h.0.0) v found'
        ∙ ap (λ a. (ok a, r')) (assign_zval-cast_value casts c z h.0.1) in
      rw
        (
          first,
          read_fields-payload native fields rest {r = r'} h.1
              (record { small = v.small; inside = inside }) next,
        )
        (ap
          (λ (i : ℕ). (
            ok ((c, rounded casts c z) ∷ rounded_fields casts fields),
            record { buffer = r.buffer; offset = i },
          ))
          (omega (arith, length-append bytes (payload casts fields))))

writes-IsCall : (fields : List Field) → AreValues fields → All IsCall (writes fields)
writes-IsCall [] h = tt
writes-IsCall ((c, z) ∷ fields) h = (h.0.0, writes-IsCall fields h.1)

length-payload :
    (alloc : Allocator) (casts : FloatCasts) (native : ByteOrder) (fields : List Field)
    → AreValues fields
    → length (payload casts fields) ≤ total_cost (writes fields)
length-payload alloc casts native [] h = omega arith
length-payload alloc casts native ((c, z) ∷ fields) h = omega (
  arith,
  length-append (encode c (cast_value casts c z)) (payload casts fields),
  (write_type-Writes alloc native c (cast_value casts c z) (cast_value-Fits casts c z h.0.0)).fits,
  length-payload alloc casts native fields h.1,
)

-- Values that their types can hold, written field by field into a valid empty writer, less than 2 ^
-- 63 bytes in all, and read back from its bytes in the same order on a machine of any byte order,
-- come back, floats at their precision; the reader then stands at the end.
pub read_fields-run :
    (alloc : Allocator) (casts : FloatCasts) (native native' : ByteOrder) (fields : List Field)
    {w : ByteBufferWriter}
    → AreValues fields
    → IsValid w
    → view w ≡ empty
    → total_cost (writes fields) < 2 ^ 63
    → let w' = (run alloc casts native (writes fields) w).1 in
      let sent = (view w').content in
      read_fields casts native' (codecs fields) (record { buffer = sent; offset = 0 })
      ≡ (ok (rounded_fields casts fields), record { buffer = sent; offset = length sent })
read_fields-run alloc casts native native' fields {w} h v fresh small =
    read_fields-payload casts native' fields [] h
      (record {
        small = omega (arith, ap length sent, length-payload alloc casts native fields h);
        inside = zero-le;
      })
      (sent ∙ sym (append-nil (payload casts fields)))
    ∙ ap (λ (i : ℕ). (ok (rounded_fields casts fields), record { buffer = content; offset = i }))
        (omega (arith, ap length sent))
  where
    empty_used : w.used ≡ 0
    empty_used = omega (arith, length-view v, ap (λ (d : Document). length d.content) fresh)

    content : List ℕ
    content = (view (run alloc casts native (writes fields) w).1).content

    sent : content ≡ payload casts fields
    sent =
        ap (λ (d : Document). d.content)
          ((run_refines alloc casts native (writes fields) (writes-IsCall fields h) v
              (omega (arith, empty_used))).2
            ∙ ap (λ (d : Document). (spec_run casts (writes fields) d).1) fresh
            ∙ spec_run-writes casts fields [])
