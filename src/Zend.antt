-- ===== src/Zend.antt =====
-- What the extension takes from the Zend engine: exceptions, the outcome of a call, a sequence of
-- reads that share an offset, and the allocator behind `emalloc` and `erealloc`.
use Prim.Native.String.{String}
use text.Mathlib.Text.{◌==◌ as str_eq}
use ext_encoding.Prelude.{ℕ, ◌≤◌, ◌≡◌, List, [], ◌∷◌, length, take, Bool, Option, none, some}
use ext_encoding.Prelude.{if◌then◌else◌}
use ext_encoding.Prelude.Int.{ℤ}

-- The types of PHP values, and the values: strings are bytes, and of a float the bit pattern is kept.
pub data ZvalType : Type 0 where
  is_null is_bool is_long is_double is_string is_array is_object : ZvalType

pub data Zval : Type 0 where
  null array object : Zval
  bool : Bool → Zval
  long : ℤ → Zval
  double : ℕ → Zval
  string : List ℕ → Zval

abbrev pub zval_type : Zval → ZvalType
zval_type null = is_null
zval_type array = is_array
zval_type object = is_object
zval_type (bool b) = is_bool
zval_type (long z) = is_long
zval_type (double d) = is_double
zval_type (string s) = is_string

-- A HashTable with string keys, in the order of insertion.
abbrev pub HashTable : Type 0
HashTable = List (String × Zval)

abbrev pub hash_find : HashTable → String → Option Zval
hash_find [] name = none
hash_find ((key, zv) ∷ rest) name = if str_eq key name then some zv else hash_find rest name

-- The exceptions that the extension raises, each named for its message.
pub data Exception : Type 0 where
  -- DataDecodeException "Need at least %zu bytes, but only have %zu bytes"
  need_bytes : ℕ → ℕ → Exception
  -- DataDecodeException "No bytes left in buffer"
  no_bytes_left : Exception
  -- DataDecodeException "VarInt did not terminate after %u bytes!"
  var_int_unterminated : ℕ → Exception
  -- ValueError "Length cannot be negative", "Length must be greater than zero"
  negative_length length_not_positive : Exception
  -- ValueError "Offset must not be less than zero or greater than ..."
  offset_out_of_range : Exception
  -- the engine's ArgumentCountError and TypeError, and its Error for a method that is not there
  argument_count argument_type : Exception
  undefined_method : String → Exception
  -- Exception "Serialized data is missing \"%s\""
  missing_property : String → Exception
  -- Exception "\"%s\" in serialized data should be of type %s, but have %s", with its three arguments
  wrong_property_type : String → ZvalType → ZvalType → Exception

-- `fault` is an access outside the memory at hand, which C++ leaves undefined. `stuck` is no
-- outcome of the program: a loop of the model ran out of fuel.
pub data Result {ℓ} (A : Type ℓ) : Type ℓ where
  ok : A → Result A
  throw : Exception → Result A
  fault : Result A
  stuck : Result A

abbrev pub map_result : {A B : Type 0} → (A → B) → Result A → Result B
map_result f (ok a) = ok (f a)
map_result f (throw e) = throw e
map_result f fault = fault
map_result f stuck = stuck

-- A call that takes the offset by reference: its outcome, and the offset that it leaves.
abbrev pub Reading : Type 0 → Type 0
Reading A = ℕ → Result A × ℕ

abbrev pub after : {A B : Type 0} → Result A × ℕ → (A → Reading B) → Result B × ℕ
after (ok a, offset) f = f a offset
after (throw e, offset) f = (throw e, offset)
after (fault, offset) f = (fault, offset)
after (stuck, offset) f = (stuck, offset)

abbrev pub pure : {A : Type 0} → A → Reading A
pure a offset = (ok a, offset)

infixl 5 ◌>>=◌
abbrev pub ◌>>=◌ : {A B : Type 0} → Reading A → (A → Reading B) → Reading B
◌>>=◌ m f offset = after (m offset) f

-- The request allocator. It returns a block of the size asked for, or does not return; a block that
-- is resized keeps its bytes as far as both sizes go, and nothing is known of the others.
pub record Allocator : Type 0 where
  pub emalloc : ℕ → List ℕ
  pub erealloc : List ℕ → ℕ → List ℕ
  pub length-emalloc : (n : ℕ) → length (emalloc n) ≡ n
  pub length-erealloc : (b : List ℕ) (n : ℕ) → length (erealloc b n) ≡ n
  pub erealloc_keeps :
      (b : List ℕ) (n k : ℕ) → k ≤ length b → k ≤ n → take k (erealloc b n) ≡ take k b
