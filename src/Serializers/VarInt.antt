-- ===== src/Serializers/VarInt.antt =====
-- The variable-length integers of Serializers.h. `bits` is the width of the type, and a value,
-- signed or not, is its bit pattern.
pub mod Masks
pub mod Write
pub mod Scan
pub mod Sign
use ext_encoding.Prelude.{ℕ, zero, suc, ◌+◌, ◌-◌, ◌*◌, ◌/◌, ◌%◌, ◌^◌, List, [], ◌∷◌, Option}
use ext_encoding.Prelude.{none, some, ltb, leb, ◌==◌, if◌then◌else◌, ◌≡◌, refl, Bool, true, false}
use ext_encoding.Prelude.{not, bit_or, bit_and, bit_xor, get_elem?}
use ext_encoding.Prelude.Word.{size_add, size_sub, shl, shr}
use ext_encoding.Zend.{Allocator, no_bytes_left, var_int_unterminated, ok, throw, fault, stuck}
use ext_encoding.Zend.{Reading, ◌>>=◌, pure}
use ext_encoding.Serializers.Memory.{Region, store, extended}

abbrev pub bits_per_byte : ℕ
bits_per_byte = 7

abbrev pub max_bytes : ℕ → ℕ
max_bytes bits = bits / bits_per_byte + (if ltb 0 (bits % bits_per_byte) then 1 else 0)

abbrev pub value_mask : ℕ
value_mask = (2 ^ 32 - 1 - 2 ^ bits_per_byte) % 256

abbrev pub msb_mask : ℕ
msb_mask = 2 ^ bits_per_byte % 256

-- The loop from `shift` on, with `fuel` rounds at most. The test of the loop ends it
-- first, as `Scan.read_loop-scan` shows.
unfoldable pub read_loop : ℕ → List ℕ → ℕ → ℕ → ℕ → ℕ → Reading ℕ
read_loop bits bytes used zero shift result offset = (stuck, offset)
read_loop bits bytes used (suc fuel) shift result offset = elim (ltb shift bits) [
  | false ↦ (throw (var_int_unterminated (max_bytes bits)), offset)
  | true ↦ elim (leb used offset) [
    | true ↦ (throw no_bytes_left, offset)
    | false ↦ elim (get_elem? bytes offset) [
      | none ↦ (fault, offset)
      | some byte ↦
          let result' = bit_or result (shl bits (bit_and byte value_mask) shift) in
          elim (bit_and byte msb_mask == 0) [
            | true ↦ (ok result', size_add offset 1)
            | false ↦
                read_loop bits bytes used fuel (shift + bits_per_byte) result' (size_add offset 1)
          ]
    ]
  ]
]

-- `shift` grows in each round, so that `bits` rounds and one for the last test are enough.
unfoldable pub read_unsigned_var_int : ℕ → List ℕ → ℕ → Reading ℕ
read_unsigned_var_int bits bytes used offset = read_loop bits bytes used (suc bits) 0 0 offset

-- `mask` is 0 or `~0`.
abbrev pub sign_mask : ℕ → Bool → ℕ
sign_mask bits negative = if negative then 2 ^ bits - 1 else 0

abbrev pub decode_sign : ℕ → ℕ → ℕ
decode_sign bits u = bit_xor (shr u 1) (sign_mask bits (not (bit_and u 1 == 0)))

unfoldable pub read_signed_var_int : ℕ → List ℕ → ℕ → Reading ℕ
read_signed_var_int bits bytes used = do
  unsigned_result ← read_unsigned_var_int bits bytes used
  pure (decode_sign bits unsigned_result)

-- The loop from `i` on, with `rounds` left. When none is left it ends with the offset unchanged.
unfoldable pub write_loop : ℕ → ℕ → ℕ → Region → Option Region
write_loop zero i remaining m = some m
write_loop (suc rounds) i remaining m =
    let next_byte = bit_and remaining value_mask in
    let next_remaining = shr remaining bits_per_byte in
    elim (next_remaining == 0) [
      | true ↦ elim (store m.buffer (size_add i m.offset) (next_byte ∷ [])) [
        | some buffer ↦ some (record m { buffer = buffer; offset = size_add m.offset (i + 1) })
        | none ↦ none
      ]
      | false ↦ elim (store m.buffer (size_add i m.offset) (bit_or next_byte msb_mask ∷ [])) [
        | some buffer ↦ write_loop rounds (i + 1) next_remaining (record m { buffer = buffer })
        | none ↦ none
      ]
    ]

unfoldable pub write_unsigned_var_int : Allocator → ℕ → ℕ → Region → Option Region
write_unsigned_var_int alloc bits value m =
    write_loop (max_bytes bits) 0 value (extended alloc m (max_bytes bits))

-- `(static_cast<TUnsignedType>(value) << 1) ^ mask`, where `value < 0` reads the sign bit
abbrev pub encode_sign : ℕ → ℕ → ℕ
encode_sign bits value = bit_xor (shl bits value 1) (sign_mask bits (leb (2 ^ (bits - 1)) value))

unfoldable pub write_signed_var_int : Allocator → ℕ → ℕ → Region → Option Region
write_signed_var_int alloc bits value = write_unsigned_var_int alloc bits (encode_sign bits value)

masks : (value_mask ≡ 0x7f) × (msb_mask ≡ 0x80) × (max_bytes 32 ≡ 5) × (max_bytes 64 ≡ 10)
masks = (refl, refl, refl, refl)

read_test : read_unsigned_var_int 32 (0xac ∷ 2 ∷ []) 2 0 ≡ (ok 300, 2)
unfolding read_unsigned_var_int read_loop
read_test = refl

read_unterminated :
    read_unsigned_var_int 32 (0x80 ∷ 0x80 ∷ 0x80 ∷ 0x80 ∷ 0x80 ∷ 0x80 ∷ []) 6 0
    ≡ (throw (var_int_unterminated 5), 5)
unfolding read_unsigned_var_int read_loop
read_unterminated = refl

-- -1 is written as 1.
sign_test : (encode_sign 32 0xffff_ffff ≡ 1) × (decode_sign 32 1 ≡ 0xffff_ffff)
sign_test = (refl, refl)
