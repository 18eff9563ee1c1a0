-- ===== src/Serializers/VarInt/Masks.antt =====
-- The masks of the variable-length integers as arithmetic.
use ext_encoding.Prelude.{ℕ, ◌+◌, ◌*◌, ◌/◌, ◌%◌, ◌<◌, ◌≡◌, arith, bit_and, bit_or}
use ext_encoding.Prelude.Digits.{bit_and_step}
use ext_encoding.Prelude.Bits.{bit_and_mask, bit_or_field}
use ext_encoding.Serializers.VarInt.{value_mask, msb_mask}

pub value_bits : (b : ℕ) → bit_and b value_mask ≡ b % 128
value_bits b = bit_and_mask 7 b

-- One binary digit of the mask at a time.
pub msb_bit : (b : ℕ) → bit_and b msb_mask ≡ b / 128 % 2 * 128
msb_bit b =
    rw
      (
        bit_and_step b 128,
        bit_and_step (b / 2) 64,
        bit_and_step (b / 2 / 2) 32,
        bit_and_step (b / 2 / 2 / 2) 16,
        bit_and_step (b / 2 / 2 / 2 / 2) 8,
        bit_and_step (b / 2 / 2 / 2 / 2 / 2) 4,
        bit_and_step (b / 2 / 2 / 2 / 2 / 2 / 2) 2,
        bit_and_mask 1 (b / 2 / 2 / 2 / 2 / 2 / 2 / 2),
      )
      (omega arith)

pub set_msb : (g : ℕ) → g < 128 → bit_or g msb_mask ≡ g + 128
set_msb g h = bit_or_field 7 g 1 h
