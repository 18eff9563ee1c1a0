-- ===== src/Serializers/Endian.antt =====
-- `ByteOrder` and `Flipper` of Serializers.h: an integer and the bytes that it has in memory.
pub mod Laws
use ext_encoding.Prelude.{ℕ, zero, suc, ◌+◌, ◌*◌, ◌/◌, ◌%◌, List, [], ◌∷◌, reverse}
use ext_encoding.Prelude.{Bool, true, false, if◌then◌else◌, ◌≡◌, refl}

pub data ByteOrder : Type 0 where
  big_endian little_endian : ByteOrder

-- `byteOrder == ByteOrder::Native`
abbrev pub same_order : ByteOrder → ByteOrder → Bool
same_order big_endian big_endian = true
same_order big_endian little_endian = false
same_order little_endian big_endian = false
same_order little_endian little_endian = true

-- The lowest `n` bytes of `v`, lowest first, and the number that such bytes stand for.
abbrev pub le_bytes : ℕ → ℕ → List ℕ
le_bytes zero v = []
le_bytes (suc n) v = v % 256 ∷ le_bytes n (v / 256)

abbrev pub from_le : List ℕ → ℕ
from_le [] = 0
from_le (b ∷ bs) = b + 256 * from_le bs

-- A union of `char bytes[size]` and a `size`-byte value on a machine with the byte order `native`:
-- the bytes after a store to `value`, and the value after a store to `bytes`.
abbrev pub flipper_bytes : ByteOrder → ℕ → ℕ → List ℕ
flipper_bytes little_endian size v = le_bytes size v
flipper_bytes big_endian size v = reverse (le_bytes size v)

abbrev pub flipper_value : ByteOrder → List ℕ → ℕ
flipper_value little_endian bs = from_le bs
flipper_value big_endian bs = from_le (reverse bs)

-- `if (byteOrder != ByteOrder::Native) std::reverse(...)`
abbrev pub flip : ByteOrder → ByteOrder → List ℕ → List ℕ
flip native order bs = if same_order order native then bs else reverse bs

flip_test : flip big_endian little_endian (flipper_bytes big_endian 2 0x1234) ≡ 0x34 ∷ 0x12 ∷ []
flip_test = refl
