-- ===== src/Api/Live/Valid.antt =====
-- Valid objects of a script, and what keeps them so.
use mathlib.Core.Path.{subst}
use ext_encoding.Prelude.{◌^◌, ◌<◌, ◌≡◌, arith, some}
use ext_encoding.Prelude.{◌==◌, Bool-cases, inl, inr}
use ext_encoding.Zend.{Result, ok, throw, fault, stuck}
use ext_encoding.Serializers.Contract.{IsSettled}
use ext_encoding.Reader.{ByteBufferReader}
use ext_encoding.Reader.Laws
use ext_encoding.Writer.{ByteBufferWriter}
use ext_encoding.Writer.Invariant.{IsValid}
use ext_encoding.Objects.{Handle, update}
use ext_encoding.Api.Arguments.{
  Argument, value, array_of, reader, writer, Value, reader_argument, writer_argument, parsed,
}
use ext_encoding.Api.Live.{Live}
use ext_encoding.Api.Arguments.Laws.{Parses}

-- The objects of a script are valid.
pub record AreValid (live : Live) : Type 0 where
  pub readers : (h : Handle) (r : ByteBufferReader) → live.readers h ≡ some r → Laws.IsValid r
  pub writers : (h : Handle) (w : ByteBufferWriter) → live.writers h ≡ some w → IsValid w

-- An argument that is an object is one of the objects of the script; the offset of a writer is below
-- 2 ^ 63.
abbrev pub IsReference : Live → Argument → Type 0
IsReference live (reader h) = (r : ByteBufferReader) × (live.readers h ≡ some r)
IsReference live (writer h) =
    (w : ByteBufferWriter) × (live.writers h ≡ some w) × (w.offset < 2 ^ 63)
IsReference live _ = Unit

abbrev pub IsSafe : Result Value × Live → Type 0
IsSafe (result, live) = IsSettled result × AreValid live

pub parsed-IsSafe :
    {A : Type 0} (P : A → Type 0) (result : Result A) (live : Live) (f : A → Result Value × Live)
    → AreValid live
    → Parses P result
    → ((a : A) → P a → IsSafe (f a))
    → IsSafe (parsed result live f)
parsed-IsSafe P (ok a) live f valid h safe = safe a h
parsed-IsSafe P (throw e) live f valid h safe = (tt, valid)
parsed-IsSafe P fault live f valid h safe = absurd h
parsed-IsSafe P stuck live f valid h safe = absurd h

pub set_reader-AreValid :
    {live : Live} {r : ByteBufferReader} (h : Handle)
    → AreValid live
    → Laws.IsValid r
    → AreValid (record live { readers = update live.readers h (some r) })
set_reader-AreValid {live} {r} h valid v = record { readers = readers; writers = valid.writers }
  where
    readers :
        (h' : Handle) (r' : ByteBufferReader)
        → update live.readers h (some r) h' ≡ some r'
        → Laws.IsValid r'
    readers h' r' found = elim (Bool-cases (h' == h)) [
      | inl same ↦ subst Laws.IsValid (ground (arith, same, found)) v
      | inr other ↦ valid.readers h' r' (ground (arith, other, found))
    ]

pub set_writer-AreValid :
    {live : Live} {w : ByteBufferWriter} (h : Handle)
    → AreValid live
    → IsValid w
    → AreValid (record live { writers = update live.writers h (some w) })
set_writer-AreValid {live} {w} h valid v = record { readers = valid.readers; writers = writers }
  where
    writers :
        (h' : Handle) (w' : ByteBufferWriter)
        → update live.writers h (some w) h' ≡ some w'
        → IsValid w'
    writers h' w' found = elim (Bool-cases (h' == h)) [
      | inl same ↦ subst IsValid (ground (arith, same, found)) v
      | inr other ↦ valid.writers h' w' (ground (arith, other, found))
    ]

module _ (live : Live) where
  pub reader-Parses :
      (a : Argument)
      → IsReference live a
      → Parses (λ h. (r : ByteBufferReader) × (live.readers h ≡ some r)) (reader_argument a)
  reader-Parses (reader h) q = q
  reader-Parses (value zv) q = tt
  reader-Parses (array_of props) q = tt
  reader-Parses (writer h) q = tt

  pub writer-Parses :
      (a : Argument)
      → IsReference live a
      → Parses
          (λ h. (w : ByteBufferWriter) × (live.writers h ≡ some w) × (w.offset < 2 ^ 63))
          (writer_argument a)
  writer-Parses (writer h) q = q
  writer-Parses (value zv) q = tt
  writer-Parses (array_of props) q = tt
  writer-Parses (reader h) q = tt
