-- ===== src/Serializers/Array.antt =====
-- The array templates of Serializers.h. An element is its bit pattern; `size` is `sizeof(TValue)`.
pub mod Read
pub mod Write
use ext_encoding.Prelude.{ℕ, zero, suc, ◌*◌, List, [], ◌∷◌, ◌++◌, Option, none, some, ltb}
use ext_encoding.Prelude.{if◌then◌else◌, map, reverse, length, take, drop, ◌≡◌, refl}
use ext_encoding.Prelude.Word.{size_add, size_sub, size_mul}
use ext_encoding.Zend.{Allocator, Result, ok, throw, fault, stuck, need_bytes, Reading}
use ext_encoding.Serializers.Endian.{ByteOrder, big_endian, little_endian, same_order}
use ext_encoding.Serializers.Endian.{flipper_bytes, flipper_value}
use ext_encoding.Serializers.Memory.{Region, load, store, extended}
use ext_encoding.Serializers.Fixed.{read_fixed_size_type}

-- The first `count` elements of memory that holds elements of `size` bytes.
abbrev pub elements : ℕ → ℕ → List ℕ → List (List ℕ)
elements size zero bytes = []
elements size (suc count) bytes = take size bytes ∷ elements size count (drop size bytes)

-- The memory of elements one behind the other.
abbrev pub concat : List (List ℕ) → List ℕ
concat [] = []
concat (bs ∷ rest) = bs ++ concat rest

-- One round of the loops over the elements: through the Flipper, reversed, and back.
abbrev pub swap_bytes : ByteOrder → ℕ → ℕ → ℕ
swap_bytes native size value = flipper_value native (reverse (flipper_bytes native size value))

abbrev pub swap_array : ByteOrder → ℕ → ByteOrder → List ℕ → List ℕ
swap_array native size order values =
    if same_order order native then values else map (swap_bytes native size) values

-- The check is on `count * sizeof(TValue)` as a size_t; the elements that are copied lie in
-- `count * sizeof(TValue)` bytes of memory.
unfoldable pub read_fixed_size_type_array :
    ByteOrder → ℕ → ByteOrder → ℕ → List ℕ → ℕ → Reading (List ℕ)
read_fixed_size_type_array native size order count bytes used offset =
    let size_bytes = size_mul count size in
    if ltb (size_sub used offset) size_bytes
    then (throw (need_bytes size_bytes (size_sub used offset)), offset)
    else elim (load bytes offset (count * size)) [
      | some raw ↦ (
        ok (swap_array native size order (map (flipper_value native) (elements size count raw))),
        size_add offset size_bytes,
      )
      | none ↦ (fault, offset)
    ]

-- The elements are pushed to `result_array`, which keeps those before an error.
unfoldable pub read_complex_type_array {ℓ} :
    {A : Type ℓ}
    → (List ℕ → ℕ → ℕ → Result A × ℕ)
    → List ℕ
    → ℕ
    → ℕ
    → List A
    → ℕ
    → Result (Unit {0}) × ℕ × List A
read_complex_type_array read bytes used zero result_array offset = (ok tt, offset, result_array)
read_complex_type_array read bytes used (suc count) result_array offset =
    let (outcome, offset') = read bytes used offset in
    elim outcome [
      | ok value ↦
          read_complex_type_array read bytes used count (result_array ++ (value ∷ [])) offset'
      | throw e ↦ (throw e, offset', result_array)
      | fault ↦ (fault, offset', result_array)
      | stuck ↦ (stuck, offset', result_array)
    ]

-- The values are swapped in the caller's array, which is returned with the region.
unfoldable pub write_fixed_size_type_array :
    Allocator → ByteOrder → ℕ → ByteOrder → List ℕ → Region → Option (Region × List ℕ)
write_fixed_size_type_array alloc native size order value_array m =
    let array_size_bytes = size_mul (length value_array) size in
    let m' = extended alloc m array_size_bytes in
    let value_array' = swap_array native size order value_array in
    let memory = concat (map (flipper_bytes native size) value_array') in
    elim (store m'.buffer m'.offset (take array_size_bytes memory)) [
      | some buffer ↦ some (
        record m' { buffer = buffer; offset = size_add m'.offset array_size_bytes },
        value_array',
      )
      | none ↦ none
    ]

unfoldable pub write_complex_type_array {ℓ} :
    {A : Type ℓ} → (A → Region → Option Region) → List A → Region → Option Region
write_complex_type_array write [] m = some m
write_complex_type_array write (value ∷ value_array) m = elim (write value m) [
  | some m' ↦ write_complex_type_array write value_array m'
  | none ↦ none
]

array_test :
    (read_fixed_size_type_array little_endian 2 big_endian 2 (9 ∷ 1 ∷ 2 ∷ 3 ∷ 4 ∷ []) 5 1
      ≡ (ok (0x102 ∷ 0x304 ∷ []), 5))
    × (read_complex_type_array
          (read_fixed_size_type little_endian 2 big_endian)
          (9 ∷ 1 ∷ 2 ∷ 3 ∷ 4 ∷ [])
          5
          2
          []
          2
        ≡ (throw (need_bytes 2 1), 4, 0x203 ∷ []))
unfolding read_fixed_size_type_array read_complex_type_array read_fixed_size_type load
array_test = (refl, refl)
