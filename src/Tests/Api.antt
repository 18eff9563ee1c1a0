-- ===== src/Tests/Api.antt =====
-- A script on concrete objects and arguments.
use mathlib.Core.Path.{subst}
use ext_encoding.Prelude.{
  ℕ, ◌^◌, ◌<◌, ◌≤◌, ◌==◌, ◌≡◌, refl, sym, ◌∙◌, arith, List, [], ◌∷◌, Option, none, some, All,
  length, true, ltb, if◌then◌else◌, Bool-cases, inl, inr,
}
use ext_encoding.Prelude.Int.{ℤ, pos, negsuc}
use ext_encoding.Prelude.Word.{InRange, wrap}
use ext_encoding.Zend.{ok, throw, Zval, HashTable, long, double, string, argument_count}
use ext_encoding.Serializers.Contract.{IsSettled}
use ext_encoding.Serializers.Endian.{little_endian, big_endian}
use ext_encoding.Spec.{empty}
use ext_encoding.Reader.{ByteBufferReader}
use ext_encoding.Reader.Laws
use ext_encoding.Writer.{ByteBufferWriter, writer_clone}
use ext_encoding.Serialized.{properties, fetch_properties-properties}
use ext_encoding.Api.Methods.Keeps.{IsFit}
use ext_encoding.Writer.Invariant.{IsValid}
use ext_encoding.Writer.Refine.{view}
use ext_encoding.Types.{triad, zif_write_type, write_type_common, write_type}
use ext_encoding.Serializers.Fixed.{write_fixed_size_type}
use ext_encoding.Serializers.Memory.{store, extend_buffer, load}
use ext_encoding.Types.Tables.{big_endian_class, little_endian_class}
use ext_encoding.Objects.{Handle, update}
use ext_encoding.Api.Arguments.{array_of, Coercions, value, reader, writer, void, int}
use ext_encoding.Types.{Codec, zend_type}
use ext_encoding.Types.Tables.{Operation}
use ext_encoding.Api.Methods.{ReaderMethod, WriterMethod}
use ext_encoding.Api.ArgInfo.{arg_info, reader_arg_info, writer_arg_info}
use ext_encoding.Api.ArgInfo.Agree.{Agrees}
use ext_encoding.Api.ArgInfo.Functions.{arg_info-Agrees}
use ext_encoding.Api.Live.{Live}
use ext_encoding.Api.Live.Valid.{AreValid}
use ext_encoding.Api.Static.{call_static, call_entry}
use ext_encoding.Api.Static.RoundTrip.{call_static_read-call_static_write}
use ext_encoding.Api.Methods.{call_writer, call_reader, writer_method, reader_method}
use ext_encoding.Api.Methods.Extra.{call_writer_clear}
use ext_encoding.Api.Script.{
  Statement, make_reader, copy_writer, static_call, reader_call, writer_call, run_script,
  run_statement,
}
use ext_encoding.Api.Script.Safe.{AreAllowed, run_script-IsSafe}
use ext_encoding.Tests.Samples.{
  zeroing, low_bits, zeros, a_writer, a_writer-IsValid, a_reader, a_reader-IsValid,
}

-- An argument of the type that is asked for is taken as it is, if it has the size of the type; no
-- other is converted.
abbrev kept : {A : Type 0} → ℕ → ℕ → A → Option A
kept n bound a = if ltb n bound then some a else none

kept_inside : {A : Type 0} (n bound : ℕ) (a : A) → n < bound → kept n bound a ≡ some a
kept_inside n bound a h = ground arith

kept-some : {A : Type 0} (n bound : ℕ) (a b : A) → kept n bound a ≡ some b → (a ≡ b) × (n < bound)
kept-some n bound a b e = elim (Bool-cases (ltb n bound)) [
  | inl inside ↦ let same : some a ≡ some b = (rw inside refl) ∙ e in (cc, ground (arith, inside))
  | inr outside ↦ let clash : none ≡ some b = (rw outside refl) ∙ e in cc
]

abbrev strict_long : Zval → Option ℤ
strict_long (long (pos n)) = kept n (2 ^ 63) (pos n)
strict_long (long (negsuc n)) = kept n (2 ^ 63) (negsuc n)
strict_long _ = none

abbrev strict_double : Zval → Option ℕ
strict_double (double d) = kept d (2 ^ 64) d
strict_double _ = none

abbrev strict_string : Zval → Option (List ℕ)
strict_string (string s) = kept (length s) (2 ^ 63) s
strict_string _ = none

strict_long-long : (z : ℤ) → InRange true 64 z → strict_long (long z) ≡ some z
strict_long-long (pos n) h = kept_inside n (2 ^ 63) (pos n) (omega arith)
strict_long-long (negsuc n) h = kept_inside n (2 ^ 63) (negsuc n) (omega arith)

strict_long-InRange : (zv : Zval) (z : ℤ) → strict_long zv ≡ some z → InRange true 64 z
strict_long-InRange (long (pos n)) z e =
    let (same, inside) = kept-some n (2 ^ 63) (pos n) z e in
    let here : InRange true 64 (pos n) = omega arith in subst (InRange true 64) same here
strict_long-InRange (long (negsuc n)) z e =
    let (same, inside) = kept-some n (2 ^ 63) (negsuc n) z e in
    let here : InRange true 64 (negsuc n) = omega arith in subst (InRange true 64) same here
strict_long-InRange _ z e = cc

strict_double-lt : (zv : Zval) (d : ℕ) → strict_double zv ≡ some d → d < 2 ^ 64
strict_double-lt (double n) d e =
    let (same, inside) = kept-some n (2 ^ 64) n d e in omega (arith, same)
strict_double-lt _ d e = cc

strict_string-lt : (zv : Zval) (s : List ℕ) → strict_string zv ≡ some s → length s < 2 ^ 63
strict_string-lt (string t) s e =
    let (same, inside) = kept-some (length t) (2 ^ 63) t s e in
    subst (λ (u : List ℕ). length u < 2 ^ 63) same inside
strict_string-lt _ s e = cc

abbrev strict : Coercions
strict = record {
  to_long = strict_long;
  to_double = strict_double;
  to_string = strict_string;
  to_long-long = strict_long-long;
  to_double-double = λ d h. kept_inside d (2 ^ 64) d h;
  to_string-string = λ s h. kept_inside (length s) (2 ^ 63) s h;
  to_long-InRange = strict_long-InRange;
  to_double-lt = strict_double-lt;
  to_string-lt = strict_string-lt;
}

abbrev live : Live
live = record {
  readers = λ h. if h == 0 then some a_reader else none;
  writers = λ h. if h == 0 then some a_writer else none;
}

live-AreValid : AreValid live
live-AreValid = record { readers = readers; writers = writers }
  where
    readers : (h : Handle) (r : ByteBufferReader) → live.readers h ≡ some r → Laws.IsValid r
    readers h r e = elim (Bool-cases (h == 0)) [
      | inl same ↦
          let both : some a_reader ≡ some r = rw same refl ∙ e in
          let is : a_reader ≡ r = cc in subst Laws.IsValid is a_reader-IsValid
      | inr other ↦ let clash : none ≡ some r = rw other refl ∙ e in cc
    ]

    writers : (h : Handle) (w : ByteBufferWriter) → live.writers h ≡ some w → IsValid w
    writers h w e = elim (Bool-cases (h == 0)) [
      | inl same ↦
          let both : some a_writer ≡ some w = rw same refl ∙ e in
          let is : a_writer ≡ w = cc in subst IsValid is a_writer-IsValid
      | inr other ↦ let clash : none ≡ some w = rw other refl ∙ e in cc
    ]

abbrev saved : HashTable
saved = properties (4 ∷ 5 ∷ []) (pos 1)

saved-IsFit : IsFit (array_of saved)
saved-IsFit bytes z e =
    let both : ok (4 ∷ 5 ∷ [], pos 1) ≡ ok (bytes, z) =
      sym (fetch_properties-properties (4 ∷ 5 ∷ []) (pos 1)) ∙ e in
    let same : (4 ∷ 5 ∷ [], pos 1) ≡ (bytes, z) = cc in
    subst (λ (p : List ℕ × ℤ). (length p.0 < 2 ^ 63) × (wrap 64 p.1 ≤ length p.0)) same
      (omega arith, omega arith)

-- A write, a call with an argument too many, a reader on two bytes, a read of four, a clone and a table.
abbrev script : List Statement
script =
    static_call little_endian_class "writeUnsignedShort" (writer 0 ∷ value (long (pos 7)) ∷ [])
    ∷ writer_call "getOffset" 0 (value (long (pos 1)) ∷ [])
    ∷ make_reader 1
    ∷ reader_call "__construct" 1 (value (string (1 ∷ 2 ∷ [])) ∷ [])
    ∷ static_call little_endian_class "readSignedInt" (reader 1 ∷ [])
    ∷ copy_writer 0 5
    ∷ reader_call "__unserialize" 1 (array_of saved ∷ [])
    ∷ []

allowed : AreAllowed zeroing low_bits little_endian strict (zeros 16) script live
unfolding run_statement call_static call_writer call_reader call_entry writer_method reader_method
    zif_write_type write_type_common write_type write_fixed_size_type store extend_buffer
    writer_clone load
allowed = (
  (((_, refl, omega arith)), (tt, tt)),
  (
    (_, refl, omega arith, tt),
    (tt, ((_, refl, tt), (((_, refl), tt), ((_, refl), ((_, refl, (saved-IsFit, tt)), tt))))),
  ),
)

run_script-IsSafe_example :
    let (results, live') =
      run_script zeroing low_bits little_endian strict (zeros 16) script live in
    All IsSettled results × AreValid live'
run_script-IsSafe_example =
    run_script-IsSafe zeroing low_bits little_endian strict (zeros 16) refl script live-AreValid
      allowed

call_static_read-call_static_write_example :
    (w' : ByteBufferWriter) × (call_static zeroing low_bits little_endian strict
        (zeros 16)
        big_endian_class
        "writeSignedTriad"
        (writer 0 ∷ value (long (negsuc 1)) ∷ [])
        live
      ≡ (ok void, record live { writers = update live.writers 0 (some w') }))
    × (call_static zeroing low_bits big_endian strict
          (zeros 16)
          big_endian_class
          "readSignedTriad"
          (reader 3 ∷ [])
          (record live {
            readers =
                update live.readers 3 (some (record { buffer = (view w').content; offset = 1 }));
          })
        ≡ (
          ok (int (negsuc 1)),
          record live {
            readers =
                update live.readers 3
                  (some (record { buffer = (view w').content; offset = w'.offset }));
          },
        ))
call_static_read-call_static_write_example =
    call_static_read-call_static_write zeroing low_bits little_endian big_endian strict (zeros 16)
      (triad true big_endian) (negsuc 1) 0 3 live live a_writer refl (omega arith) (omega arith)
      a_writer-IsValid (omega arith)

call_writer_clear_example :
    (w' : ByteBufferWriter) × (call_writer strict zeroing "clear" 0 (value (long (pos 1)) ∷ []) live
      ≡ (throw argument_count, record live { writers = update live.writers 0 (some w') }))
    × (view w' ≡ empty)
call_writer_clear_example =
    call_writer_clear zeroing strict 0 (value (long (pos 1))) [] live a_writer refl

arg_info-Agrees_example :
    let args = writer 0 ∷ value (long (pos 7)) ∷ [] in
    ((o : Operation) (c : Codec) (live : Live)
      → Agrees strict
          (arg_info o (zend_type c))
          args
          (call_entry zeroing low_bits little_endian strict (zeros 16) o c args live).0)
    × ((m : ReaderMethod) (r : ByteBufferReader)
        → Agrees strict (reader_arg_info m) args (reader_method strict m args r).0)
    × ((m : WriterMethod) (w : ByteBufferWriter)
        → Agrees strict (writer_arg_info m) args (writer_method strict zeroing m args w).0)
arg_info-Agrees_example =
    arg_info-Agrees zeroing low_bits little_endian strict (zeros 16)
      (writer 0 ∷ value (long (pos 7)) ∷ [])
