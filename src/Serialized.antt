-- ===== src/Serialized.antt =====
-- `fetch_serialized_property`, which classes/ByteBufferReader.cpp and classes/ByteBufferWriter.cpp
-- both define, with the same text.
use Prim.Native.String.{String}
use ext_encoding.Prelude.{
  ℕ, ◌≡◌, refl, arith, Bool, true, false, none, some, List, ap, sym, ◌∙◌, ◌↔◌, [], ◌∷◌,
}
use ext_encoding.Prelude.{if◌then◌else◌}
use ext_encoding.Zend.{Zval, ZvalType, zval_type, HashTable, hash_find, Result, ok, throw, fault}
use ext_encoding.Zend.{missing_property, wrong_property_type, string, long, is_string, is_long}
use ext_encoding.Zend.{is_null, is_bool, is_double, is_array, is_object, null, array, object}
use ext_encoding.Zend.{double, bool}
use ext_encoding.Prelude.Int.{ℤ}
use ext_encoding.Prelude.{Bool-cases, Option-cases, ◌⊎◌, inl, inr}
use ext_encoding.Zend.{Exception}

abbrev pub same_type : ZvalType → ZvalType → Bool
same_type is_null is_null = true
same_type is_bool is_bool = true
same_type is_long is_long = true
same_type is_double is_double = true
same_type is_string is_string = true
same_type is_array is_array = true
same_type is_object is_object = true
same_type _ _ = false

same_type_self : (a : ZvalType) → same_type a a ≡ true
same_type_self is_null = refl
same_type_self _ = refl

pub same_type_iff : (a b : ZvalType) → (same_type a b ≡ true) ↔ (a ≡ b)
same_type_iff a b = (λ e. ground arith, λ e. ap (λ t. same_type a t) (sym e) ∙ same_type_self a)

unfoldable pub fetch_serialized_property : HashTable → String → ZvalType → Result Zval
fetch_serialized_property props name type = elim (hash_find props name) [
  | none ↦ throw (missing_property name)
  | some zv ↦
      if same_type (zval_type zv) type
      then ok zv
      else throw (wrong_property_type name (zval_type zv) type)
]

-- `Z_STR_P` and `Z_LVAL_P`, which are undefined on a value of another type.
abbrev pub string_value : Zval → Result (List ℕ)
string_value (string s) = ok s
string_value _ = fault

abbrev pub long_value : Zval → Result ℤ
long_value (long z) = ok z
long_value _ = fault

infixl 5 ◌>>=◌
abbrev pub ◌>>=◌ : {A B : Type 0} → Result A → (A → Result B) → Result B
ok a >>= f = f a
throw e >>= f = throw e
fault >>= f = fault
Result.stuck >>= f = Result.stuck

-- The two properties of the classes, in the order in which they are fetched.
unfoldable pub fetch_properties : HashTable → Result (List ℕ × ℤ)
fetch_properties props = do
  buffer ← fetch_serialized_property props "buffer" is_string
  offset ← fetch_serialized_property props "offset" is_long
  bytes ← string_value buffer
  z ← long_value offset
  ok (bytes, z)

-- What both classes store.
abbrev pub properties : List ℕ → ℤ → HashTable
properties bytes z = ("buffer", string bytes) ∷ ("offset", long z) ∷ []

pub fetch_properties-properties :
    (bytes : List ℕ) (z : ℤ) → fetch_properties (properties bytes z) ≡ ok (bytes, z)
unfolding fetch_properties fetch_serialized_property
fetch_properties-properties bytes z = refl

-- A property that is fetched is of the type asked for.
fetch_serialized_property_type :
    (props : HashTable) (name : String) (type : ZvalType)
    → ((e : Exception) × (fetch_serialized_property props name type ≡ throw e))
      ⊎ ((zv : Zval) × (fetch_serialized_property props name type ≡ ok zv)
          × (hash_find props name ≡ some zv)
          × (zval_type zv ≡ type))
unfolding fetch_serialized_property
fetch_serialized_property_type props name type = elim (Option-cases (hash_find props name)) [
  | inl missing ↦ inl (missing_property name, rw (fetch_serialized_property, missing) refl)
  | inr (zv, found) ↦ elim (Bool-cases (same_type (zval_type zv) type)) [
    | inl same ↦ inr (
      zv,
      rw (fetch_serialized_property, found, same) refl,
      found,
      (same_type_iff (zval_type zv) type).0 same,
    )
    | inr other ↦ inl (
      wrong_property_type name (zval_type zv) type,
      rw (fetch_serialized_property, found, other) refl,
    )
  ]
]

-- The values that are fetched, or an exception: no value is read as one of another type.
pub fetch_properties_lem :
    (props : HashTable)
    → ((e : Exception) × (fetch_properties props ≡ throw e))
      ⊎ ((bytes : List ℕ) × (z : ℤ) × (fetch_properties props ≡ ok (bytes, z))
          × (hash_find props "buffer" ≡ some (string bytes))
          × (hash_find props "offset" ≡ some (long z)))
unfolding fetch_properties
fetch_properties_lem props = elim (fetch_serialized_property_type props "buffer" is_string) [
  | inl (e, fails) ↦ inl (e, rw fails refl)
  | inr (buffer, fetched, found, type) ↦
      elim (fetch_serialized_property_type props "offset" is_long) [
        | inl (e, fails) ↦
            let (bytes, is) = string_of buffer type in inl (e, rw (fetched, is, fails) refl)
        | inr (offset, fetched', found', type') ↦
            let (bytes, is) = string_of buffer type in
            let (z, is') = long_of offset type' in
            inr (
              bytes,
              z,
              rw (fetched, fetched', is, is') refl,
              found ∙ ap some is,
              found' ∙ ap some is',
            )
      ]
]
  where
    string_of : (zv : Zval) → zval_type zv ≡ is_string → (bytes : List ℕ) × (zv ≡ string bytes)
    string_of (string bytes) e = (bytes, refl)
    string_of null e = cc
    string_of array e = cc
    string_of object e = cc
    string_of (bool b) e = cc
    string_of (long z) e = cc
    string_of (double d) e = cc

    long_of : (zv : Zval) → zval_type zv ≡ is_long → (z : ℤ) × (zv ≡ long z)
    long_of (long z) e = (z, refl)
    long_of null e = cc
    long_of array e = cc
    long_of object e = cc
    long_of (bool b) e = cc
    long_of (string s) e = cc
    long_of (double d) e = cc
