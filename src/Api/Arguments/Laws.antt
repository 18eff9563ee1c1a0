-- ===== src/Api/Arguments/Laws.antt =====
-- What parsed parameters are.
use mathlib.Core.Path.{subst}
use ext_encoding.Prelude.{◌^◌, ◌<◌, ◌≡◌, List, [], ◌∷◌, some, All}
use ext_encoding.Prelude.{Option-cases, inl, inr, length, true}
use ext_encoding.Prelude.Word.{InRange}
use ext_encoding.Zend.{Result, ok, throw, fault, stuck}
use ext_encoding.Types.{ZendType, zend_long, zend_double}
use ext_encoding.Types.Values.{IsZendValue}
use ext_encoding.Api.Arguments.{
  ◌>>=◌, optional_argument, Argument, value, array_of, reader, writer, Coercions, string_argument,
  zend_argument, one_argument, two_arguments, long_argument,
}

-- Parameters are parsed, to something of which `P` holds, or an exception is thrown.
abbrev pub Parses : {A : Type 0} → (A → Type 0) → Result A → Type 0
Parses P (ok a) = P a
Parses P (throw e) = Unit
Parses P fault = ⊥
Parses P stuck = ⊥

pub one-Parses :
    {A : Type 0} (P : A → Type 0) (parse : Argument → Result A) (Q : Argument → Type 0)
    → ((a : Argument) → Q a → Parses P (parse a))
    → (args : List Argument) → All Q args
    → Parses P (one_argument parse args)
one-Parses P parse Q h [] q = tt
one-Parses P parse Q h (a ∷ []) q = h a q.0
one-Parses P parse Q h (a ∷ b ∷ rest) q = tt

pub one-Parses_any :
    {A : Type 0} (P : A → Type 0) (parse : Argument → Result A)
    → ((a : Argument) → Parses P (parse a))
    → (args : List Argument) → Parses P (one_argument parse args)
one-Parses_any P parse h [] = tt
one-Parses_any P parse h (a ∷ []) = h a
one-Parses_any P parse h (a ∷ b ∷ rest) = tt

pair-Parses :
    {A B : Type 0} (P : A → Type 0) (P' : B → Type 0) (x : Result A) (y : Result B)
    → Parses P x
    → Parses P' y
    → Parses (λ (a, b). P a × P' b) (x >>= λ a. y >>= λ b. ok (a, b))
pair-Parses P P' (ok a) (ok b) p p' = (p, p')
pair-Parses P P' (ok a) (throw e) p p' = tt
pair-Parses P P' (ok a) fault p p' = absurd p'
pair-Parses P P' (ok a) stuck p p' = absurd p'
pair-Parses P P' (throw e) y p p' = tt
pair-Parses P P' fault y p p' = absurd p
pair-Parses P P' stuck y p p' = absurd p

pub two-Parses :
    {A B : Type 0} (P : A → Type 0) (P' : B → Type 0) (parse : Argument → Result A)
    (parse' : Argument → Result B) (Q : Argument → Type 0)
    → ((a : Argument) → Q a → Parses P (parse a))
    → ((a : Argument) → Q a → Parses P' (parse' a))
    → (args : List Argument) → All Q args
    → Parses (λ (a, b). P a × P' b) (two_arguments parse parse' args)
two-Parses P P' parse parse' Q h h' [] q = tt
two-Parses P P' parse parse' Q h h' (a ∷ []) q = tt
two-Parses P P' parse parse' Q h h' (a ∷ b ∷ []) q =
    pair-Parses P P' (parse a) (parse' b) (h a q.0) (h' b q.1.0)
two-Parses P P' parse parse' Q h h' (a ∷ b ∷ c ∷ rest) q = tt

some-Parses :
    {A : Type 0} (P : A → Type 0) (x : Result A)
    → Parses P x
    → Parses (λ o. (a : A) → o ≡ some a → P a) (x >>= λ a. ok (some a))
some-Parses P (ok a) p = λ b e. subst P (let e' : some a ≡ some b = e in cc) p
some-Parses P (throw e) p = tt
some-Parses P fault p = absurd p
some-Parses P stuck p = absurd p

pub optional-Parses :
    {A : Type 0} (P : A → Type 0) (parse : Argument → Result A)
    → ((a : Argument) → Parses P (parse a))
    → (args : List Argument)
    → Parses (λ o. (a : A) → o ≡ some a → P a) (optional_argument parse args)
optional-Parses P parse h [] = λ a e. cc
optional-Parses P parse h (a ∷ []) = some-Parses P (parse a) (h a)
optional-Parses P parse h (a ∷ b ∷ rest) = tt

module _ (coercions : Coercions) where
  pub string-Parses : (a : Argument) → Parses (λ s. length s < 2 ^ 63) (string_argument coercions a)
  string-Parses (value zv) = elim (Option-cases (coercions.to_string zv)) [
    | inl none_there ↦ rw none_there tt
    | inr (s, found) ↦ rw found (coercions.to_string-lt zv s found)
  ]
  string-Parses (reader h) = tt
  string-Parses (array_of props) = tt
  string-Parses (writer h) = tt

  pub zend-Parses :
      (t : ZendType) (a : Argument) → Parses (IsZendValue t) (zend_argument coercions t a)
  zend-Parses zend_long (value zv) = elim (Option-cases (coercions.to_long zv)) [
    | inl none_there ↦ rw none_there tt
    | inr (z, found) ↦ rw found (coercions.to_long-InRange zv z found)
  ]
  zend-Parses zend_double (value zv) = elim (Option-cases (coercions.to_double zv)) [
    | inl none_there ↦ rw none_there tt
    | inr (d, found) ↦ rw found (coercions.to_double-lt zv d found)
  ]
  zend-Parses zend_long (reader h) = tt
  zend-Parses zend_long (array_of props) = tt
  zend-Parses zend_long (writer h) = tt
  zend-Parses zend_double (reader h) = tt
  zend-Parses zend_double (array_of props) = tt
  zend-Parses zend_double (writer h) = tt

  pub long-Parses : (a : Argument) → Parses (InRange true 64) (long_argument coercions a)
  long-Parses (value zv) = elim (Option-cases (coercions.to_long zv)) [
    | inl none_there ↦ rw none_there tt
    | inr (z, found) ↦ rw found (coercions.to_long-InRange zv z found)
  ]
  long-Parses (reader h) = tt
  long-Parses (array_of props) = tt
  long-Parses (writer h) = tt
