-- ===== src/Api/ArgInfo/Agree.antt =====
-- What it means that a call does what its function declares.
use ext_encoding.Prelude.{
  ℕ, ◌≤◌, ◌≡◌, refl, ◌∙◌, ap, arith, List, [], ◌∷◌, Option, none, some, length,
}
use ext_encoding.Prelude.Int.{ℤ}
use ext_encoding.Zend.{Result, ok, throw, fault, stuck, map_result}
use ext_encoding.Types.{ZendType, zend_long, zend_double, ZendValue}
use ext_encoding.Api.Arguments.{
  Argument, value, array_of, reader, writer, Coercions, Value, void, int, float, text, table,
  zend_value, reader_argument, writer_argument, string_argument, long_argument, double_argument,
  array_argument, zend_argument, one_argument, two_arguments, optional_argument, parsed,
}
use ext_encoding.Api.Arguments.Parsed.{parsed-ok, one_argument-ok, some-ok, pair-ok, typed-ok}
use ext_encoding.Api.Live.{returns}
use ext_encoding.Api.Methods.{none_throw}
use ext_encoding.Api.ArgInfo.{
  TypeCode, void_type, long_type, double_type, string_type, array_type, reader_type, writer_type,
  ArgInfo, type_code,
}

abbrev pub value_type : Value → TypeCode
value_type void = void_type
value_type (int z) = long_type
value_type (float d) = double_type
value_type (text s) = string_type
value_type (table props) = array_type

abbrev pub declared : Option TypeCode → TypeCode
declared none = void_type
declared (some t) = t

-- The engine takes an argument as one of a type.
abbrev pub IsTaken : Coercions → TypeCode → Argument → Type 0
IsTaken coercions long_type (value zv) = (z : ℤ) × (coercions.to_long zv ≡ some z)
IsTaken coercions double_type (value zv) = (d : ℕ) × (coercions.to_double zv ≡ some d)
IsTaken coercions string_type (value zv) = (s : List ℕ) × (coercions.to_string zv ≡ some s)
IsTaken coercions array_type (array_of props) = Unit
IsTaken coercions reader_type (reader h) = Unit
IsTaken coercions writer_type (writer h) = Unit
IsTaken coercions _ _ = ⊥

-- No more arguments than there are types.
abbrev pub AreTaken : Coercions → List TypeCode → List Argument → Type 0
AreTaken coercions types [] = Unit
AreTaken coercions [] (a ∷ args) = ⊥
AreTaken coercions (t ∷ types) (a ∷ args) = IsTaken coercions t a × AreTaken coercions types args

-- A call that returns does what is declared.
abbrev pub Agrees : Coercions → ArgInfo → List Argument → Result Value → Type 0
Agrees coercions info args result =
    (v : Value)
    → result ≡ ok v
    → (value_type v ≡ declared info.return_type)
      × (info.required ≤ length args)
      × AreTaken coercions info.arguments args

pub map_result-ok :
    {A : Type 0} (f : A → Value) (r : Result A) (v : Value)
    → map_result f r ≡ ok v
    → (a : A) × (v ≡ f a)
map_result-ok f (ok a) v e = (a, cc)
map_result-ok f (throw x) v e = cc
map_result-ok f fault v e = cc
map_result-ok f stuck v e = cc

pub mapped :
    {A : Type 0} (f : A → Value) (r : Result A) (t : TypeCode)
    → ((a : A) → value_type (f a) ≡ t)
    → (v : Value) → map_result f r ≡ ok v
    → value_type v ≡ t
mapped f r t h v e = let (a, is) = map_result-ok f r v e in ap value_type is ∙ h a

pub returned :
    {A S : Type 0} (f : A → Value) (r : Result A × S) (t : TypeCode)
    → ((a : A) → value_type (f a) ≡ t)
    → (v : Value) → (returns f r).0 ≡ ok v
    → value_type v ≡ t
returned f (r, s) t h v e = mapped f r t h v e

pub zend_value_type : (t : ZendType) (z : ZendValue t) → value_type (zend_value t z) ≡ type_code t
zend_value_type zend_long z = refl
zend_value_type zend_double z = refl

module _ (coercions : Coercions) where
  -- A parser takes what a type is for.
  abbrev ParsesType : {A : Type 0} → TypeCode → (Argument → Result A) → Type 0
  ParsesType {A} t parse = (x : Argument) (a : A) → parse x ≡ ok a → IsTaken coercions t x

  pub string-ParsesType : ParsesType string_type (string_argument coercions)
  string-ParsesType (value zv) s e = typed-ok (coercions.to_string zv) s e
  string-ParsesType (array_of props) s e = cc
  string-ParsesType (reader h) s e = cc
  string-ParsesType (writer h) s e = cc

  pub long-ParsesType : ParsesType long_type (long_argument coercions)
  long-ParsesType (value zv) z e = typed-ok (coercions.to_long zv) z e
  long-ParsesType (array_of props) z e = cc
  long-ParsesType (reader h) z e = cc
  long-ParsesType (writer h) z e = cc

  double-ParsesType : ParsesType double_type (double_argument coercions)
  double-ParsesType (value zv) d e = typed-ok (coercions.to_double zv) d e
  double-ParsesType (array_of props) d e = cc
  double-ParsesType (reader h) d e = cc
  double-ParsesType (writer h) d e = cc

  pub zend-ParsesType : (t : ZendType) → ParsesType (type_code t) (zend_argument coercions t)
  zend-ParsesType zend_long = long-ParsesType
  zend-ParsesType zend_double = double-ParsesType

  pub array-ParsesType : ParsesType array_type array_argument
  array-ParsesType (array_of props) a e = tt
  array-ParsesType (value zv) a e = cc
  array-ParsesType (reader h) a e = cc
  array-ParsesType (writer h) a e = cc

  pub reader-ParsesType : ParsesType reader_type reader_argument
  reader-ParsesType (reader h) a e = tt
  reader-ParsesType (value zv) a e = cc
  reader-ParsesType (array_of props) a e = cc
  reader-ParsesType (writer h) a e = cc

  pub writer-ParsesType : ParsesType writer_type writer_argument
  writer-ParsesType (writer h) a e = tt
  writer-ParsesType (value zv) a e = cc
  writer-ParsesType (array_of props) a e = cc
  writer-ParsesType (reader h) a e = cc

  pub one-Agrees :
      {A S : Type 0} (r : Option TypeCode) (t : TypeCode) (parse : Argument → Result A)
      (args : List Argument) (s : S) (f : A → Result Value × S)
      → ParsesType t parse
      → ((a : A) (v : Value) → (f a).0 ≡ ok v → value_type v ≡ declared r)
      → Agrees coercions
          (record { return_type = r; required = 1; arguments = t ∷ [] })
          args
          (parsed (one_argument parse args) s f).0
  one-Agrees r t parse args s f takes result v e =
      let (a, parses, returns_v) = parsed-ok (one_argument parse args) s f v e in
      let (x, one, parses_x) = one_argument-ok parse args a parses in
      rw one (result a v returns_v, omega arith, (takes x a parses_x, tt))

  pub none-Agrees :
      {S : Type 0} (t : TypeCode) (args : List Argument) (r : Result Value × S)
      → ((v : Value) → r.0 ≡ ok v → value_type v ≡ t)
      → Agrees coercions
          (record { return_type = some t; required = 0; arguments = [] })
          args
          (none_throw args r).0
  none-Agrees t [] r result v e = (result v e, omega arith, tt)
  none-Agrees t (a ∷ args) (ok x, s) result v e = cc
  none-Agrees t (a ∷ args) (throw x, s) result v e = cc
  none-Agrees t (a ∷ args) (fault, s) result v e = cc
  none-Agrees t (a ∷ args) (stuck, s) result v e = cc

  pub optional-Agrees :
      {A S : Type 0} (r : Option TypeCode) (t : TypeCode) (parse : Argument → Result A)
      (args : List Argument) (s : S) (f : Option A → Result Value × S)
      → ParsesType t parse
      → ((a : Option A) (v : Value) → (f a).0 ≡ ok v → value_type v ≡ declared r)
      → Agrees coercions
          (record { return_type = r; required = 0; arguments = t ∷ [] })
          args
          (parsed (optional_argument parse args) s f).0
  optional-Agrees r t parse [] s f takes result v e = (result none v e, omega arith, tt)
  optional-Agrees r t parse (x ∷ []) s f takes result v e =
      let (a, parses, returns_v) = some-ok (parse x) s f v e in
      (result (some a) v returns_v, omega arith, (takes x a parses, tt))
  optional-Agrees r t parse (x ∷ y ∷ rest) s f takes result v e = cc

  pub two-Agrees :
      {A B S : Type 0} (r : Option TypeCode) (t u : TypeCode) (parse : Argument → Result A)
      (parse' : Argument → Result B) (args : List Argument) (s : S) (f : A × B → Result Value × S)
      → ParsesType t parse
      → ParsesType u parse'
      → ((a : A × B) (v : Value) → (f a).0 ≡ ok v → value_type v ≡ declared r)
      → Agrees coercions
          (record { return_type = r; required = 2; arguments = t ∷ u ∷ [] })
          args
          (parsed (two_arguments parse parse' args) s f).0
  two-Agrees r t u parse parse' [] s f takes takes' result v e = cc
  two-Agrees r t u parse parse' (x ∷ []) s f takes takes' result v e = cc
  two-Agrees r t u parse parse' (x ∷ y ∷ []) s f takes takes' result v e =
      let (a, b, parses, parses', returns_v) = pair-ok (parse x) (parse' y) s f v e in
      (result (a, b) v returns_v, omega arith, (takes x a parses, (takes' y b parses', tt)))
  two-Agrees r t u parse parse' (x ∷ y ∷ z ∷ rest) s f takes takes' result v e = cc
