-- ===== src/Prelude/Word.antt =====
-- Machine integers. A `w`-bit integer, signed or not, is its bit pattern, a number below `2 ^ w`.
use Prim.Native.Nat.{ℕ, ◌+◌, ◌-◌, ◌*◌, ◌/◌, ◌%◌, ◌^◌, ◌<◌}
use mathlib.Core.Path.{◌≡◌, refl}
use ext_encoding.Prelude.Tests.{ltb, if◌then◌else◌}
use mathlib.Core.Bool.{Bool, true, false}
use ext_encoding.Prelude.Int.{ℤ, pos, negsuc, ◌≤ℤ◌}

abbrev pub IsByte : ℕ → Type 0
IsByte b = b < 256

-- size_t has 64 bits.
abbrev pub size_max : ℕ
size_max = 2 ^ 64

abbrev pub size_add : ℕ → ℕ → ℕ
size_add a b = (a + b) % 2 ^ 64

-- `-` on ℕ stops at 0, so the modulus is added first.
abbrev pub size_sub : ℕ → ℕ → ℕ
size_sub a b = (a + 2 ^ 64 - b) % 2 ^ 64

abbrev pub size_mul : ℕ → ℕ → ℕ
size_mul a b = a * b % 2 ^ 64

-- `x << k` on `w` bits, and the logical `x >> k`.
abbrev pub shl : ℕ → ℕ → ℕ → ℕ
shl w x k = x * 2 ^ k % 2 ^ w

abbrev pub shr : ℕ → ℕ → ℕ
shr x k = x / 2 ^ k

-- The arithmetic `x >> k` of a signed `w`-bit integer: the sign bit comes in from above.
abbrev pub asr : ℕ → ℕ → ℕ → ℕ
asr w x k = if ltb x (2 ^ (w - 1)) then x / 2 ^ k else x / 2 ^ k + 2 ^ w - 2 ^ (w - k)

-- The integer that a signed `w`-bit pattern stands for, and the pattern of an integer mod `2 ^ w`.
abbrev pub signed : ℕ → ℕ → ℤ
signed w x = if ltb x (2 ^ (w - 1)) then pos x else negsuc (2 ^ w - x - 1)

abbrev pub wrap : ℕ → ℤ → ℕ
wrap w (pos n) = n % 2 ^ w
wrap w (negsuc n) = 2 ^ w - 1 - n % 2 ^ w

asr_test : asr 32 0xff00_0000 8 ≡ 0xffff_0000
asr_test = refl

signed_test : signed 16 0xfffe ≡ negsuc 1
signed_test = refl

-- The integers of `bits` bits, signed or not.
abbrev pub InRange : Bool → ℕ → ℤ → Type 0
InRange true bits z = (negsuc (2 ^ (bits - 1) - 1) ≤ℤ z) × (z ≤ℤ pos (2 ^ (bits - 1) - 1))
InRange false bits z = (pos 0 ≤ℤ z) × (z ≤ℤ pos (2 ^ bits - 1))
