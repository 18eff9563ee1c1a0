-- ===== src/Prelude/Bits.antt =====
-- `&`, `|` and `^` as arithmetic at every width: masks of low bits, fields that do not overlap, and
-- the complement.
use Prim.Native.Nat.{ℕ, zero, suc, ◌+◌, ◌-◌, ◌*◌, ◌/◌, ◌%◌, ◌^◌, ◌≤◌, ◌<◌, differ}
use Prim.Native.Nat.{bit_and, bit_or, bit_xor, bit_or-bitwise, bit_xor-bitwise, bit_and-bitwise}
use mathlib.Core.Path.{◌≡◌, refl, ap, ◌∙◌}
use native.Mathlib.Nat.{
  pow-suc, one-le-pow, div-add-mod, mul-add-mod_self_left, mod-eq_of_lt, mod-lt, pow-le-pow_right,
  mul-le-mul_right,
}
use native.Mathlib.Decide.{dec_lt}
use Prim.Native.Nat.add
use native.Mathlib.Omega.{arith}
use ext_encoding.Prelude.Digits.{bit_and_step, bit_or_step, bit_xor_step}

pub two_pow_suc : (k : ℕ) → 2 ^ suc k ≡ 2 * 2 ^ k
two_pow_suc k = omega (arith, pow-suc 2 k)

pub two_pow_pos : (k : ℕ) → 1 ≤ 2 ^ k
two_pow_pos k = one-le-pow k 2 (omega arith)

pub half_power : (w : ℕ) → 2 ^ (suc w - 1) ≡ 2 ^ w
half_power w = ap (λ (t : ℕ). 2 ^ t) (omega arith)

pub zero-bit_and : (b : ℕ) → bit_and 0 b ≡ 0
zero-bit_and b = bit_and-bitwise 0 b

pub zero-bit_or : (b : ℕ) → bit_or 0 b ≡ b
zero-bit_or b = bit_or-bitwise 0 b

pub zero-bit_xor : (b : ℕ) → bit_xor 0 b ≡ b
zero-bit_xor b = bit_xor-bitwise 0 b

-- The laws at a right argument 0 go from `a / 2` to `a`; `n` bounds the rounds.
bit_and-zero_upto : (n a : ℕ) → a ≤ n → bit_and a 0 ≡ 0
bit_and-zero_upto n zero h = zero-bit_and 0
bit_and-zero_upto zero (suc a) h = absurd (omega arith)
bit_and-zero_upto (suc n) (suc a) h =
    omega (arith, bit_and_step (suc a) 0, bit_and-zero_upto n (suc a / 2) (omega arith))

differ-zero : (d : ℕ) → differ d 0 ≡ d
differ-zero zero = refl
differ-zero (suc d) = refl

differ-one : (d : ℕ) → d < 2 → differ d 1 ≡ 1 - d
differ-one zero h = refl
differ-one (suc zero) h = refl
differ-one (suc (suc d)) h = absurd (omega arith)

bit_xor-zero_upto : (n a : ℕ) → a ≤ n → bit_xor a 0 ≡ a
bit_xor-zero_upto n zero h = zero-bit_xor 0
bit_xor-zero_upto zero (suc a) h = absurd (omega arith)
bit_xor-zero_upto (suc n) (suc a) h = omega (
  arith,
  bit_xor_step (suc a) 0,
  bit_xor-zero_upto n (suc a / 2) (omega arith),
  differ-zero (suc a % 2),
)

pub bit_and-zero : (a : ℕ) → bit_and a 0 ≡ 0
bit_and-zero a = bit_and-zero_upto a a (omega arith)

pub bit_xor-zero : (a : ℕ) → bit_xor a 0 ≡ a
bit_xor-zero a = bit_xor-zero_upto a a (omega arith)

-- The remainder by a power of two, from the lowest digit up.
mod_two_pow_suc : (k a : ℕ) → a % 2 ^ suc k ≡ a / 2 % 2 ^ k * 2 + a % 2
mod_two_pow_suc k a =
    let p : ℕ = 2 ^ k in
    let r : ℕ = a / 2 % p * 2 + a % 2 in
    let below : r < 2 ^ suc k = omega (arith, two_pow_suc k, mod-lt (a / 2) (two_pow_pos k)) in
    let whole : a ≡ 2 ^ suc k * (a / 2 / p) + r =
      omega (arith, div-add-mod (a / 2) p, ap (λ (t : ℕ). t * (a / 2 / p)) (two_pow_suc k)) in
    ap (λ (t : ℕ). t % 2 ^ suc k) whole
    ∙ (mul-add-mod_self_left (2 ^ suc k) (a / 2 / p) r ∙ mod-eq_of_lt below)

ones_half : (k : ℕ) → (2 ^ suc k - 1) / 2 ≡ 2 ^ k - 1
ones_half k = omega (arith, two_pow_suc k, two_pow_pos k)

ones_odd : (k : ℕ) → (2 ^ suc k - 1) % 2 ≡ 1
ones_odd k = omega (arith, two_pow_suc k, two_pow_pos k)

-- A mask of `k` low bits is the remainder by `2 ^ k`.
pub bit_and_mask : (k a : ℕ) → bit_and a (2 ^ k - 1) ≡ a % 2 ^ k
bit_and_mask zero a = omega (arith, bit_and-zero a)
bit_and_mask (suc k) a =
    rw (bit_and_step, ones_half, ones_odd, bit_and_mask k (a / 2), mod_two_pow_suc) (omega arith)

-- Low bits joined with a field above them are their sum.
pub bit_or_field : (k low high : ℕ) → low < 2 ^ k → bit_or low (high * 2 ^ k) ≡ low + high * 2 ^ k
bit_or_field zero zero high h = omega (arith, zero-bit_or (high * 1))
bit_or_field zero (suc low) high h = absurd (omega arith)
bit_or_field (suc k) low high h = ground (
  arith,
  bit_or_step low (high * 2 ^ suc k),
  ap (λ (t : ℕ). high * t) (two_pow_suc k),
  bit_or_field k (low / 2) high (omega (arith, two_pow_suc k)),
)

-- Joining stays within the width.
pub bit_or-lt : (k a b : ℕ) → a < 2 ^ k → b < 2 ^ k → bit_or a b < 2 ^ k
bit_or-lt zero zero b p q = rw zero-bit_or q
bit_or-lt zero (suc a) b p q = absurd (omega arith)
bit_or-lt (suc k) a b p q = omega (
  arith,
  two_pow_suc k,
  bit_or_step a b,
  bit_or-lt k (a / 2) (b / 2) (omega (arith, two_pow_suc k)) (omega (arith, two_pow_suc k)),
)

-- `^` with all ones is the complement.
pub bit_xor_ones : (k a : ℕ) → a < 2 ^ k → bit_xor a (2 ^ k - 1) ≡ 2 ^ k - 1 - a
bit_xor_ones zero a h = omega (arith, bit_xor-zero a)
bit_xor_ones (suc k) a h =
    rw
      (
        bit_xor_step,
        ones_half,
        ones_odd,
        bit_xor_ones k (a / 2) (omega (arith, two_pow_suc k)),
        differ-one (a % 2) (omega arith),
      )
      (omega (arith, two_pow_suc k, two_pow_pos k))

pub two_pow_add : (a b : ℕ) → 2 ^ (a + b) ≡ 2 ^ a * 2 ^ b
two_pow_add zero b = rw add.zero (omega arith)
two_pow_add (suc a) b =
    rw (add.suc, two_pow_suc)
      (omega (arith, two_pow_add a b, ap (λ (t : ℕ). t * 2 ^ b) (two_pow_suc a)))

-- A power of two is below a larger one only.
pub lt_of_two_pow_lt : (a b : ℕ) → 2 ^ a < 2 ^ b → a < b
lt_of_two_pow_lt a b h = elim (dec_lt a b) [
  | yes p ↦ p
  | no p ↦
      absurd (omega (arith, pow-le-pow_right {n = 2} (omega arith) {i = b} {j = a} (omega arith)))
]

-- A field above `k` low bits, cut off at width `w`.
field_cut :
    (w k low high : ℕ)
    → k ≤ w
    → low < 2 ^ k
    → (low + high * 2 ^ k) % 2 ^ w ≡ low + high % 2 ^ (w - k) * 2 ^ k
field_cut w k low high le fits =
    ap (λ (t : ℕ). t % 2 ^ w) whole ∙ (mul-add-mod_self_left (2 ^ w) q x ∙ mod-eq_of_lt below)
  where
    r : ℕ
    r = high % 2 ^ (w - k)

    q : ℕ
    q = high / 2 ^ (w - k)

    x : ℕ
    x = low + high % 2 ^ (w - k) * 2 ^ k

    width : 2 ^ w ≡ 2 ^ (w - k) * 2 ^ k
    width = ap (λ (t : ℕ). 2 ^ t) (omega arith) ∙ two_pow_add (w - k) k

    below : x < 2 ^ w
    below = omega (arith, width, mul-le-mul_right (2 ^ k) (mod-lt high (two_pow_pos (w - k))))

    whole : low + high * 2 ^ k ≡ 2 ^ w * q + x
    whole = omega (
      arith,
      ap (λ (t : ℕ). t * q) width,
      ap (λ (t : ℕ). t * 2 ^ k) (div-add-mod high (2 ^ (w - k))),
    )

-- Low bits joined with a field that the width may cut off: their sum, cut off likewise.
pub bit_or_field_cut :
    (w k low high : ℕ)
    → k ≤ w
    → low < 2 ^ k
    → bit_or low (high * 2 ^ k % 2 ^ w) ≡ (low + high * 2 ^ k) % 2 ^ w
bit_or_field_cut w k low high le fits =
    let cut_off : high * 2 ^ k % 2 ^ w ≡ high % 2 ^ (w - k) * 2 ^ k =
      rw (add.zero, add.zero) at (field_cut w k 0 high le (two_pow_pos k)) in
    rw (cut_off, field_cut w k low high le fits) (bit_or_field k low (high % 2 ^ (w - k)) fits)
