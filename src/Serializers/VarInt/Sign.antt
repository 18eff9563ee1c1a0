-- ===== src/Serializers/VarInt/Sign.antt =====
-- Signed variable-length integers: the sign goes into the lowest bit, so that integers of a small
-- absolute value stay short.
use ext_encoding.Prelude.{ℕ, suc, ◌+◌, ◌-◌, ◌*◌, ◌/◌, ◌%◌, ◌^◌, ◌≤◌, ◌<◌, ◌≡◌, arith}
use ext_encoding.Prelude.{List, ◌++◌, length, drop, some, ap, ◌∙◌}
use native.Mathlib.Nat.{mod-eq_of_lt, mul-add-mod_self_left}
use native.Mathlib.Decide.{dec_lt}
use ext_encoding.Prelude.{ltb, if◌then◌else◌}
use ext_encoding.Prelude.Bits.{bit_and_mask, bit_xor_ones, bit_xor-zero, two_pow_suc, half_power}
use ext_encoding.Zend.{Allocator, ok}
use ext_encoding.Serializers.Contract.{written, Writes, Reads, Settles}
use ext_encoding.Serializers.Memory.{Region}
use ext_encoding.Serializers.Memory.Laws.{HasRoom}
use ext_encoding.Serializers.VarInt.{max_bytes, encode_sign, decode_sign}
use ext_encoding.Serializers.VarInt.{read_signed_var_int}
use ext_encoding.Serializers.VarInt.{write_signed_var_int}
use ext_encoding.Serializers.VarInt.Write.{groups, write_unsigned_var_int-Writes}
use ext_encoding.Serializers.VarInt.Scan.{read_unsigned_var_int-Reads, read_unsigned_var_int_bounds}

-- The specification on a pattern of `w + 1` bits: 2 v for v ≥ 0, and -2 v - 1 for v < 0.
abbrev pub zigzag : ℕ → ℕ → ℕ
zigzag w v = if ltb v (2 ^ w) then 2 * v else 2 * (2 ^ suc w - v) - 1

-- Doubling a negative pattern drops the sign bit.
double_high : (w v : ℕ) → 2 ^ w ≤ v → v < 2 ^ suc w → v * 2 % 2 ^ suc w ≡ v * 2 - 2 ^ suc w
double_high w v high fits =
    ap (λ (t : ℕ). t % 2 ^ suc w) whole
    ∙ (mul-add-mod_self_left (2 ^ suc w) 1 (v * 2 - 2 ^ suc w)
        ∙ mod-eq_of_lt (omega (arith, two_pow_suc w)))
  where
    whole : v * 2 ≡ 2 ^ suc w * 1 + (v * 2 - 2 ^ suc w)
    whole = omega (arith, two_pow_suc w)

pub encode_sign-zigzag : (w v : ℕ) → v < 2 ^ suc w → encode_sign (suc w) v ≡ zigzag w v
encode_sign-zigzag w v fits = elim (dec_lt v (2 ^ w)) [
  | yes low ↦ ground (
    arith,
    half_power w,
    two_pow_suc w,
    mod-eq_of_lt (below low),
    bit_xor-zero (v * 2 % 2 ^ suc w),
  )
  | no high ↦ ground (
    arith,
    half_power w,
    two_pow_suc w,
    double_high w v (omega arith) fits,
    bit_xor_ones (suc w) (v * 2 - 2 ^ suc w) (omega arith),
  )
]
  where
    below : v < 2 ^ w → v * 2 < 2 ^ suc w
    below low = omega (arith, two_pow_suc w)

pub zigzag-lt : (w v : ℕ) → v < 2 ^ suc w → zigzag w v < 2 ^ suc w
zigzag-lt w v fits = ground (arith, two_pow_suc w)

pub decode_sign-zigzag : (w v : ℕ) → v < 2 ^ suc w → decode_sign (suc w) (zigzag w v) ≡ v
decode_sign-zigzag w v fits = elim (dec_lt v (2 ^ w)) [
  | yes low ↦ ground (arith, bit_and_mask 1 (2 * v), bit_xor-zero (2 * v / 2))
  | no high ↦ ground (
    arith,
    bit_and_mask 1 (2 * (2 ^ suc w - v) - 1),
    bit_xor_ones (suc w) ((2 * (2 ^ suc w - v) - 1) / 2),
  )
]

module _ (alloc : Allocator) where
  -- `writeSignedVarInt` writes the groups of the value with its sign in the lowest bit.
  pub write_signed_var_int-Writes :
      (w k v : ℕ)
      → max_bytes (suc w) ≡ suc k
      → 2 ^ suc w ≤ 128 ^ suc k
      → v < 2 ^ suc w
      → Writes alloc (write_signed_var_int alloc (suc w) v) (suc k) (groups k (zigzag w v))
  unfolding write_signed_var_int
  write_signed_var_int-Writes w k v e room fits = rw (encode_sign-zigzag w v fits) (
      write_unsigned_var_int-Writes alloc (suc w) k (zigzag w v) e
        (omega (arith, zigzag-lt w v fits)))

pub read_signed_var_int-Reads :
    (w k v : ℕ)
    → max_bytes (suc w) ≡ suc k
    → 2 ^ suc w ≤ 128 ^ suc k
    → v < 2 ^ suc w
    → Reads (read_signed_var_int (suc w)) (groups k (zigzag w v)) v
unfolding read_signed_var_int
read_signed_var_int-Reads w k v e room fits input offset rest within small found = ground (
  arith,
  zigzag-lt w v fits,
  decode_sign-zigzag w v fits,
  read_unsigned_var_int-Reads (suc w) k (zigzag w v) e (omega (arith, zigzag-lt w v fits))
      (zigzag-lt w v fits) input offset rest within small found,
)

pub read_signed_var_int-Settles : (bits : ℕ) → Settles (read_signed_var_int bits)
unfolding read_signed_var_int
read_signed_var_int-Settles bits input offset within small =
    ground (arith, read_unsigned_var_int_bounds bits input offset within small)

-- For a value of `w + 1` bits, which `MAX_BYTES` = `k + 1` groups can hold, `writeSignedVarInt` on
-- a region with room for these puts the groups of 2 v for v ≥ 0 and of -2 v - 1 for v < 0; and
-- wherever these groups stand in an input of less than 2 ^ 64 bytes, `readSignedVarInt` finds v and
-- moves behind them.
pub read_signed_var_int-write_signed_var_int :
    (alloc : Allocator) (w k v : ℕ) (m : Region) (input : List ℕ) (offset : ℕ) (rest : List ℕ)
    → max_bytes (suc w) ≡ suc k
    → 2 ^ suc w ≤ 128 ^ suc k
    → v < 2 ^ suc w
    → HasRoom m (suc k)
    → offset ≤ length input
    → length input < 2 ^ 64
    → drop offset input ≡ groups k (zigzag w v) ++ rest
    → (write_signed_var_int alloc (suc w) v m
        ≡ some (written alloc m (suc k) (groups k (zigzag w v))))
      × (read_signed_var_int (suc w) input (length input) offset
          ≡ (ok v, offset + length (groups k (zigzag w v))))
read_signed_var_int-write_signed_var_int alloc w k v m input offset rest e enough fits room within
      small found =
    (
      (write_signed_var_int-Writes alloc w k v e enough fits).writes m room,
      read_signed_var_int-Reads w k v e enough fits input offset rest within small found,
    )
