-- ===== src/Api/Methods/Keeps.antt =====
-- Parsed parameters, and the objects that methods leave.
use ext_encoding.Prelude.{Option, some, ℕ, ◌^◌, ◌≤◌, ◌<◌, ◌≡◌, List, [], ◌∷◌, All}
use ext_encoding.Prelude.{length, true}
use ext_encoding.Prelude.Int.{ℤ}
use ext_encoding.Prelude.Word.{InRange, wrap}
use ext_encoding.Zend.{Result, ok, throw, fault, stuck, HashTable}
use ext_encoding.Serialized.{fetch_properties}
use ext_encoding.Serializers.Contract.{IsSettled}
use ext_encoding.Api.Arguments.{
  Argument, value, array_of, reader, writer, Coercions, Value, array_argument, one_argument,
  long_argument, string_argument, parsed,
}
use ext_encoding.Api.Arguments.Laws.{Parses, one-Parses, one-Parses_any, string-Parses, long-Parses}
use ext_encoding.Api.Methods.{none_throw, ReaderMethod, WriterMethod}

-- What `__unserialize` is safe with: a string of less than 2 ^ 63 bytes with an offset in it, if
-- the properties are there.
abbrev pub IsFit : Argument → Type 0
IsFit (array_of props) =
    (bytes : List ℕ) (z : ℤ)
    → fetch_properties props ≡ ok (bytes, z)
    → (length bytes < 2 ^ 63) × (wrap 64 z ≤ length bytes)
IsFit _ = Unit

-- The arguments of `__unserialize` are fit; other methods take any.
abbrev pub FitsReader : Option ReaderMethod → List Argument → Type 0
FitsReader (some ReaderMethod.unserialize) args = All IsFit args
FitsReader _ args = Unit

abbrev pub FitsWriter : Option WriterMethod → List Argument → Type 0
FitsWriter (some WriterMethod.unserialize) args = All IsFit args
FitsWriter _ args = Unit

-- An outcome of the program that leaves a valid object.
abbrev pub Keeps : {S : Type 0} → (S → Type 0) → Result Value × S → Type 0
Keeps P (result, s) = IsSettled result × P s

pub parsed-Keeps :
    {A S : Type 0} (P : S → Type 0) (Q : A → Type 0) (result : Result A) (s : S)
    (f : A → Result Value × S)
    → P s
    → Parses Q result
    → ((a : A) → Q a → Keeps P (f a))
    → Keeps P (parsed result s f)
parsed-Keeps P Q (ok a) s f p q keeps = keeps a q
parsed-Keeps P Q (throw e) s f p q keeps = (tt, p)
parsed-Keeps P Q fault s f p q keeps = absurd q
parsed-Keeps P Q stuck s f p q keeps = absurd q

pub none_throw-Keeps :
    {S : Type 0} (P : S → Type 0) (args : List Argument) (r : Result Value × S)
    → Keeps P r
    → Keeps P (none_throw args r)
none_throw-Keeps P [] r k = k
none_throw-Keeps P (a ∷ args) (ok v, s) k = k
none_throw-Keeps P (a ∷ args) (throw e, s) k = k
none_throw-Keeps P (a ∷ args) (fault, s) k = k
none_throw-Keeps P (a ∷ args) (stuck, s) k = k

module _ (coercions : Coercions) {S : Type 0} (P : S → Type 0) (args : List Argument) (s : S)
    (p : P s) where
  pub with_long :
      (f : ℤ → Result Value × S)
      → ((z : ℤ) → InRange true 64 z → Keeps P (f z))
      → Keeps P (parsed (one_argument (long_argument coercions) args) s f)
  with_long f keeps =
      parsed-Keeps P (InRange true 64) (one_argument (long_argument coercions) args) s f p
        (one-Parses_any _ (long_argument coercions) (long-Parses coercions) args) keeps

  pub with_string :
      (f : List ℕ → Result Value × S)
      → ((bytes : List ℕ) → length bytes < 2 ^ 63 → Keeps P (f bytes))
      → Keeps P (parsed (one_argument (string_argument coercions) args) s f)
  with_string f keeps =
      parsed-Keeps P _ (one_argument (string_argument coercions) args) s f p
        (one-Parses_any _ (string_argument coercions) (string-Parses coercions) args) keeps

pub array-Parses :
    (a : Argument) → IsFit a → Parses (λ props. IsFit (array_of props)) (array_argument a)
array-Parses (array_of props) fit = fit
array-Parses (value zv) fit = tt
array-Parses (reader h) fit = tt
array-Parses (writer h) fit = tt

pub with_array :
    {S : Type 0} (P : S → Type 0) (args : List Argument) (s : S) (f : HashTable → Result Value × S)
    → All IsFit args
    → P s
    → ((props : HashTable) → IsFit (array_of props) → Keeps P (f props))
    → Keeps P (parsed (one_argument array_argument args) s f)
with_array P args s f fit p keeps =
    parsed-Keeps P _ (one_argument array_argument args) s f p
      (one-Parses _ array_argument IsFit array-Parses args fit) keeps
