-- ===== src/Serializers/Triad.antt =====
-- `readInt24` and `writeInt24` of Serializers.h. Their types have 32 bits, and a value is its bit
-- pattern; `is_signed` is `std::is_signed<TValue>`.
pub mod Laws
use ext_encoding.Prelude.{ℕ, ◌+◌, ◌-◌, ◌*◌, List, [], ◌∷◌, Option, none, some, ltb, ◌==◌}
use ext_encoding.Prelude.{if◌then◌else◌, ◌≡◌, refl, Bool, true, false, bit_or, bit_and, get_elem?}
use ext_encoding.Prelude.Word.{size_add, size_sub, shl, shr, asr}
use ext_encoding.Zend.{Allocator, need_bytes, ok, throw, fault, Reading}
use ext_encoding.Serializers.Endian.{ByteOrder, little_endian, big_endian}
use ext_encoding.Serializers.Memory.{Region, store, extended}

-- `result |= lowest; result |= middle << 8; result |= highest << 16` from `result = 0`
abbrev join_bytes : ℕ → ℕ → ℕ → ℕ
join_bytes lowest middle highest =
    bit_or (bit_or (bit_or 0 lowest) (shl 32 middle 8)) (shl 32 highest 16)

-- `SIGNED_SHIFT` and the two shifts by it
abbrev sign_shift : Bool → ℕ
sign_shift is_signed = if is_signed then (4 - 3) * 8 else 0

abbrev extend_sign : Bool → ℕ → ℕ
extend_sign is_signed result =
    let shift = sign_shift is_signed in
    if ltb 0 shift then asr 32 (shl 32 result shift) shift else result

-- The three bytes of the triad in the order of significance, from the ones at the offset.
abbrev join_triad : ByteOrder → ℕ → ℕ → ℕ → ℕ
join_triad little_endian b0 b1 b2 = join_bytes b0 b1 b2
join_triad big_endian b0 b1 b2 = join_bytes b2 b1 b0

unfoldable pub read_int24 : Bool → ByteOrder → List ℕ → ℕ → Reading ℕ
read_int24 is_signed order bytes used offset =
    if ltb (size_sub used offset) 3
    then (throw (need_bytes 3 (size_sub used offset)), offset)
    else elim (get_elem? bytes offset) [
      | none ↦ (fault, offset)
      | some b0 ↦ elim (get_elem? bytes (size_add offset 1)) [
        | none ↦ (fault, offset)
        | some b1 ↦ elim (get_elem? bytes (size_add offset 2)) [
          | none ↦ (fault, offset)
          | some b2 ↦ (ok (extend_sign is_signed (join_triad order b0 b1 b2)), size_add offset 3)
        ]
      ]
    ]

-- `value >> k` is arithmetic for a signed type.
abbrev shift_right : Bool → ℕ → ℕ → ℕ
shift_right is_signed value k = if is_signed then asr 32 value k else shr value k

abbrev triad_byte : Bool → ℕ → ℕ → ℕ
triad_byte is_signed value k = bit_and (shift_right is_signed value k) 0xff

-- The bytes that are assigned to `buffer[offset]`, `buffer[offset + 1]` and `buffer[offset + 2]`.
abbrev triad_bytes : Bool → ByteOrder → ℕ → ℕ × ℕ × ℕ
triad_bytes s little_endian value =
    (bit_and value 0xff, triad_byte s value 8, triad_byte s value 16)
triad_bytes s big_endian value = (triad_byte s value 16, triad_byte s value 8, bit_and value 0xff)

infixl 5 ◌>>=◌
abbrev ◌>>=◌ {ℓ} : {A B : Type ℓ} → Option A → (A → Option B) → Option B
some a >>= f = f a
none >>= f = none

unfoldable pub write_int24 : Allocator → Bool → ByteOrder → ℕ → Region → Option Region
write_int24 alloc is_signed order value m = do
  let m' = extended alloc m 3
  let (b0, b1, b2) = triad_bytes is_signed order value
  buffer ← store m'.buffer m'.offset (b0 ∷ [])
  buffer ← store buffer (size_add m'.offset 1) (b1 ∷ [])
  buffer ← store buffer (size_add m'.offset 2) (b2 ∷ [])
  some (record m' { buffer = buffer; offset = size_add m'.offset 3 })

read_int24_test :
    (read_int24 true big_endian (0xff ∷ 0 ∷ 0 ∷ []) 3 0 ≡ (ok 0xffff_0000, 3))
    × (read_int24 true little_endian (0xff ∷ 0 ∷ 0 ∷ []) 3 0 ≡ (ok 255, 3))
    × (read_int24 false big_endian (0xff ∷ 0 ∷ 0 ∷ []) 3 0 ≡ (ok 16711680, 3))
unfolding read_int24
read_int24_test = (refl, refl, refl)
