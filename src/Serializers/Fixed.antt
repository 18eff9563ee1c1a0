-- ===== src/Serializers/Fixed.antt =====
-- `readByte`, `readFixedSizeType` and their write counterparts of Serializers.h. A value is its bit
-- pattern; `size` is `sizeof(TValue)` and `native` the byte order of the machine.
pub mod Laws
use ext_encoding.Prelude.{
  ℕ, List, [], ◌∷◌, Option, none, some, ltb, if◌then◌else◌, ◌≡◌, refl, get_elem?,
}
use ext_encoding.Prelude.Word.{size_add, size_sub}
use ext_encoding.Zend.{Allocator, need_bytes, ok, throw, fault, Reading}
use ext_encoding.Serializers.Endian.{ByteOrder, little_endian, big_endian}
use ext_encoding.Serializers.Endian.{flipper_bytes, flipper_value, flip}
use ext_encoding.Serializers.Memory.{Region, load, store, extended}

-- Its types have one byte.
unfoldable pub read_byte : List ℕ → ℕ → Reading ℕ
read_byte buffer used offset =
    if ltb (size_sub used offset) 1
    then (throw (need_bytes 1 (size_sub used offset)), offset)
    else elim (get_elem? buffer offset) [
      | some value ↦ (ok value, size_add offset 1)
      | none ↦ (fault, offset)
    ]

unfoldable pub read_fixed_size_type : ByteOrder → ℕ → ByteOrder → List ℕ → ℕ → Reading ℕ
read_fixed_size_type native size order bytes used offset =
    if ltb (size_sub used offset) size
    then (throw (need_bytes size (size_sub used offset)), offset)
    else elim (load bytes offset size) [
      | some raw ↦ (ok (flipper_value native (flip native order raw)), size_add offset size)
      | none ↦ (fault, offset)
    ]

unfoldable pub write_byte : Allocator → ℕ → Region → Option Region
write_byte alloc value m =
    let m' = extended alloc m 1 in
    elim (store m'.buffer m'.offset (value ∷ [])) [
      | some buffer ↦ some (record m' { buffer = buffer; offset = size_add m'.offset 1 })
      | none ↦ none
    ]

unfoldable pub write_fixed_size_type :
    Allocator → ByteOrder → ℕ → ByteOrder → ℕ → Region → Option Region
write_fixed_size_type alloc native size order value m =
    let m' = extended alloc m size in
    elim (store m'.buffer m'.offset (flip native order (flipper_bytes native size value))) [
      | some buffer ↦ some (record m' { buffer = buffer; offset = size_add m'.offset size })
      | none ↦ none
    ]

read_test :
    read_fixed_size_type little_endian 2 big_endian (9 ∷ 0x12 ∷ 0x34 ∷ []) 3 1 ≡ (ok 0x1234, 3)
unfolding read_fixed_size_type load
read_test = refl
