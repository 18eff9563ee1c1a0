-- ===== src/Api/Arguments.antt =====
-- The macros ZEND_PARSE_PARAMETERS_START to ZEND_PARSE_PARAMETERS_END as the functions use them. What
-- the engine converts an argument to is a parameter; so far as the code relies on it, a value of the
-- type that is asked for is taken as it is, ints and floats have 64 bits, and strings are shorter than
-- 2 ^ 63.
pub mod Laws
pub mod Parsed
use ext_encoding.Prelude.{
  ℕ, List, [], ◌∷◌, Option, none, some, ◌≡◌, Bool, true, false, ◌<◌, ◌^◌, length,
}
use ext_encoding.Prelude.Word.{InRange}
use ext_encoding.Prelude.Int.{ℤ}
use ext_encoding.Zend.{Zval, long, double, string, HashTable, Result, ok, throw, fault, stuck}
use ext_encoding.Zend.{argument_count, argument_type}
use ext_encoding.Objects.{Handle}
use ext_encoding.Types.{ZendType, zend_long, zend_double, ZendValue}

-- An argument: a value, an array, or an object of one of the classes.
pub data Argument : Type 0 where
  value : Zval → Argument
  array_of : HashTable → Argument
  reader writer : Handle → Argument

pub record Coercions : Type 0 where
  pub to_long : Zval → Option ℤ
  pub to_double : Zval → Option ℕ
  pub to_string : Zval → Option (List ℕ)
  pub to_long-long : (z : ℤ) → InRange true 64 z → to_long (long z) ≡ some z
  pub to_double-double : (d : ℕ) → d < 2 ^ 64 → to_double (double d) ≡ some d
  pub to_string-string : (s : List ℕ) → length s < 2 ^ 63 → to_string (string s) ≡ some s
  pub to_long-InRange : (zv : Zval) (z : ℤ) → to_long zv ≡ some z → InRange true 64 z
  pub to_double-lt : (zv : Zval) (d : ℕ) → to_double zv ≡ some d → d < 2 ^ 64
  pub to_string-lt : (zv : Zval) (s : List ℕ) → to_string zv ≡ some s → length s < 2 ^ 63

infixl 5 ◌>>=◌
abbrev pub ◌>>=◌ : {A B : Type 0} → Result A → (A → Result B) → Result B
ok a >>= f = f a
throw e >>= f = throw e
fault >>= f = fault
Result.stuck >>= f = Result.stuck

abbrev pub typed : {A : Type 0} → Option A → Result A
typed none = throw argument_type
typed (some a) = ok a

-- `Z_PARAM_LONG`, `Z_PARAM_DOUBLE`, `Z_PARAM_STR`, `Z_PARAM_ARRAY_HT` and `Z_PARAM_OBJECT_OF_CLASS_EX`
abbrev pub long_argument : Coercions → Argument → Result ℤ
long_argument coercions (value zv) = typed (coercions.to_long zv)
long_argument coercions _ = throw argument_type

abbrev pub double_argument : Coercions → Argument → Result ℕ
double_argument coercions (value zv) = typed (coercions.to_double zv)
double_argument coercions _ = throw argument_type

abbrev pub string_argument : Coercions → Argument → Result (List ℕ)
string_argument coercions (value zv) = typed (coercions.to_string zv)
string_argument coercions _ = throw argument_type

abbrev pub array_argument : Argument → Result HashTable
array_argument (array_of props) = ok props
array_argument _ = throw argument_type

abbrev pub reader_argument : Argument → Result Handle
reader_argument (reader h) = ok h
reader_argument _ = throw argument_type

abbrev pub writer_argument : Argument → Result Handle
writer_argument (writer h) = ok h
writer_argument _ = throw argument_type

abbrev pub zend_argument : Coercions → (t : ZendType) → Argument → Result (ZendValue t)
zend_argument coercions zend_long a = long_argument coercions a
zend_argument coercions zend_double a = double_argument coercions a

-- `ZEND_PARSE_PARAMETERS_START(n, n)`, and `zend_parse_parameters_none_throw`
abbrev pub no_arguments : List Argument → Result (Unit {0})
no_arguments [] = ok tt
no_arguments _ = throw argument_count

abbrev pub one_argument : {A : Type 0} → (Argument → Result A) → List Argument → Result A
one_argument parse (a ∷ []) = parse a
one_argument parse _ = throw argument_count

-- The parameters are parsed in order.
abbrev pub two_arguments :
    {A B : Type 0} → (Argument → Result A) → (Argument → Result B) → List Argument → Result (A × B)
two_arguments parse parse' (a ∷ b ∷ []) = do x ← parse a; y ← parse' b; ok (x, y)
two_arguments parse parse' _ = throw argument_count

-- `ZEND_PARSE_PARAMETERS_START(0, 1)` with `Z_PARAM_OPTIONAL`
abbrev pub optional_argument :
    {A : Type 0} → (Argument → Result A) → List Argument → Result (Option A)
optional_argument parse [] = ok none
optional_argument parse (a ∷ []) = do x ← parse a; ok (some x)
optional_argument parse _ = throw argument_count

-- What a call returns to the script.
pub data Value : Type 0 where
  void : Value
  int : ℤ → Value
  float : ℕ → Value
  text : List ℕ → Value
  table : HashTable → Value

abbrev pub zend_value : (t : ZendType) → ZendValue t → Value
zend_value zend_long z = int z
zend_value zend_double d = float d

-- The argument that a script passes for a value.
abbrev pub argument_of : (t : ZendType) → ZendValue t → Argument
argument_of zend_long z = value (long z)
argument_of zend_double d = value (double d)

-- The rest of a function runs only on parsed parameters; otherwise the state is as it was.
abbrev pub parsed {ℓ} :
    {A : Type 0} {B S : Type ℓ} → Result A → S → (A → Result B × S) → Result B × S
parsed (ok a) s f = f a
parsed (throw e) s f = (throw e, s)
parsed fault s f = (fault, s)
parsed stuck s f = (stuck, s)
