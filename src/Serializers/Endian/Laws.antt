-- ===== src/Serializers/Endian/Laws.antt =====
-- The bytes of an integer in a given order, whatever the machine's own order is.
use ext_encoding.Prelude.{ℕ, zero, suc, ◌/◌, ◌^◌, ◌<◌, List, [], ◌∷◌, reverse}
use ext_encoding.Prelude.{
  ◌≡◌, refl, ap, ap₂, ◌∙◌, arith, length, length-reverse, reverse-reverse, All,
}
use ext_encoding.Prelude.Word.{IsByte}
use ext_encoding.Serializers.Endian.{
  ByteOrder, big_endian, little_endian, le_bytes, from_le, flipper_bytes, flipper_value, flip,
}
use native.Mathlib.Nat.{pow-suc}

-- The specification: `size` bytes of `v` in the order `order`.
abbrev pub order_bytes : ByteOrder → ℕ → ℕ → List ℕ
order_bytes little_endian size v = le_bytes size v
order_bytes big_endian size v = reverse (le_bytes size v)

abbrev pub order_value : ByteOrder → List ℕ → ℕ
order_value little_endian bs = from_le bs
order_value big_endian bs = from_le (reverse bs)

pub length-le_bytes : (n v : ℕ) → length (le_bytes n v) ≡ n
length-le_bytes zero v = refl
length-le_bytes (suc n) v = ap suc (length-le_bytes n (v / 256))

pub length-order_bytes : (order : ByteOrder) (n v : ℕ) → length (order_bytes order n v) ≡ n
length-order_bytes little_endian n v = length-le_bytes n v
length-order_bytes big_endian n v = length-reverse (le_bytes n v) ∙ length-le_bytes n v

pub from_le-le_bytes : (n v : ℕ) → v < 256 ^ n → from_le (le_bytes n v) ≡ v
from_le-le_bytes zero v h = omega arith
from_le-le_bytes (suc n) v h =
    omega (arith, from_le-le_bytes n (v / 256) (omega (arith, pow-suc 256 n)))

pub le_bytes-from_le : (bs : List ℕ) → All IsByte bs → le_bytes (length bs) (from_le bs) ≡ bs
le_bytes-from_le [] h = refl
le_bytes-from_le (b ∷ bs) h =
    ap₂ ◌∷◌ (omega arith) (ap (le_bytes (length bs)) (omega arith) ∙ le_bytes-from_le bs h.1)

pub order_value-order_bytes :
    (order : ByteOrder) (n v : ℕ) → v < 256 ^ n → order_value order (order_bytes order n v) ≡ v
order_value-order_bytes little_endian n v h = from_le-le_bytes n v h
order_value-order_bytes big_endian n v h = ap from_le (reverse-reverse _) ∙ from_le-le_bytes n v h

-- What `Flipper` and the reversal make of a value is its bytes in the order asked for, on a machine
-- of either order; and back.
pub flip-flipper_bytes :
    (native order : ByteOrder) (n v : ℕ)
    → flip native order (flipper_bytes native n v) ≡ order_bytes order n v
flip-flipper_bytes big_endian big_endian n v = refl
flip-flipper_bytes big_endian little_endian n v = reverse-reverse _
flip-flipper_bytes little_endian big_endian n v = refl
flip-flipper_bytes little_endian little_endian n v = refl

pub flipper_value-flip :
    (native order : ByteOrder) (bs : List ℕ)
    → flipper_value native (flip native order bs) ≡ order_value order bs
flipper_value-flip big_endian big_endian bs = refl
flipper_value-flip big_endian little_endian bs = ap from_le (reverse-reverse _)
flipper_value-flip little_endian big_endian bs = refl
flipper_value-flip little_endian little_endian bs = refl
