-- ===== src/Serializers/VarInt/Scan.antt =====
-- `readUnsignedVarInt` on any input: what it returns, and how many bytes it takes.
pub mod Progress
use ext_encoding.Prelude.{ℕ, zero, suc, ◌+◌, ◌-◌, ◌*◌, ◌/◌, ◌%◌, ◌^◌, ◌≤◌, ◌<◌, ◌≡◌, refl, arith}
use ext_encoding.Prelude.{List, [], ◌∷◌, ◌++◌, Bool-cases, length, drop, get_elem?-drop, ap, ap₂}
use ext_encoding.Prelude.{◌==◌, if◌then◌else◌, ◌∙◌, length-drop, List-cases, inl, inr}
use ext_encoding.Prelude.Bits.{bit_or_field_cut, two_pow_add}
use ext_encoding.Zend.{Result, ok, throw, fault, stuck, no_bytes_left, var_int_unterminated}
use ext_encoding.Zend.{map_result}
use ext_encoding.Serializers.Contract.{Reads, IsSettled}
use ext_encoding.Serializers.VarInt.{max_bytes, read_loop}
use ext_encoding.Serializers.VarInt.{read_unsigned_var_int}
use ext_encoding.Serializers.VarInt.Masks.{value_bits, msb_bit}
use ext_encoding.Serializers.VarInt.Write.{groups}
use native.Mathlib.Nat.{pow-suc, mod-add-mod, mod-le, mul-le-mul_right, mod-eq_of_lt}

abbrev pub push_group : ℕ → Result ℕ × ℕ → Result ℕ × ℕ
push_group b (o, taken) = (map_result (λ v. b % 128 + 128 * v) o, suc taken)

-- The specification: seven bits of each byte, lowest group first, up to a byte with no mark; an
-- error if `max` bytes have no such byte among them, or if the bytes run out. With the outcome
-- stands the number of bytes taken.
pub scan : ℕ → ℕ → List ℕ → Result ℕ × ℕ
scan max zero bs = (throw (var_int_unterminated max), 0)
scan max (suc rounds) [] = (throw no_bytes_left, 0)
scan max (suc rounds) (b ∷ bs) =
    if b / 128 % 2 == 0 then (ok (b % 128), 1) else push_group b (scan max rounds bs)

-- The outcome of the loop from what is still to be scanned.
abbrev pub finish : ℕ → ℕ → ℕ → ℕ → Result ℕ × ℕ → Result ℕ × ℕ
finish bits shift acc offset (o, taken) =
    (map_result (λ v. (acc + v * 2 ^ shift) % 2 ^ bits) o, offset + taken)

two_pow_seven : (s : ℕ) → 2 ^ (s + 7) ≡ 128 * 2 ^ s
two_pow_seven s = omega (arith, two_pow_add s 7)

-- One group more: the value so far and the scan behind it, shifted, add up to the whole.
finish_group :
    (bits shift acc offset b : ℕ) (r : Result ℕ × ℕ)
    → finish bits (shift + 7) ((acc + b % 128 * 2 ^ shift) % 2 ^ bits) (offset + 1) r
      ≡ finish bits shift acc offset (push_group b r)
finish_group bits shift acc offset b (ok v, taken) =
    ap₂ (λ (x y : ℕ). (ok x, y))
      (mod-add-mod _ _ _
        ∙ ap (λ (t : ℕ). t % 2 ^ bits) (omega (arith, ap (λ (t : ℕ). v * t) (two_pow_seven shift))))
      (omega arith)
finish_group bits shift acc offset b (throw e, taken) = ground arith
finish_group bits shift acc offset b (fault, taken) = ground arith
finish_group bits shift acc offset b (stuck, taken) = ground arith

-- One round of the loop that finds a byte.
read_loop_byte :
    (bits used : ℕ) (input : List ℕ) (fuel shift acc offset b : ℕ) (rest : List ℕ)
    → used ≡ length input
    → used < 2 ^ 64
    → drop offset input ≡ b ∷ rest
    → shift < bits
    → acc < 2 ^ shift
    → read_loop bits input used (suc fuel) shift acc offset ≡ (
        let acc' = (acc + b % 128 * 2 ^ shift) % 2 ^ bits in
        let more = read_loop bits input used fuel (shift + 7) acc' (offset + 1) in
        if b / 128 % 2 == 0 then (ok acc', offset + 1) else more)
unfolding read_loop
read_loop_byte bits used input fuel shift acc offset b rest e small found lt low = ground (
  arith,
  get_elem?-drop offset input b rest found,
  value_bits b,
  msb_bit b,
  bit_or_field_cut bits shift acc (b % 128),
)

-- After a group the value so far fits the bits below the next shift.
group_fits :
    (bits shift acc b : ℕ)
    → acc < 2 ^ shift
    → (acc + b % 128 * 2 ^ shift) % 2 ^ bits < 2 ^ (shift + 7)
group_fits bits shift acc b low = omega (
  arith,
  two_pow_seven shift,
  mod-le (acc + b % 128 * 2 ^ shift) (2 ^ bits),
  mul-le-mul_right (2 ^ shift) (let top : b % 128 ≤ 127 = omega arith in top),
)

-- The loop scans: `rounds` is what `max_bytes` counts of the bits from `shift` on.
pub read_loop-scan :
    (bits : ℕ) (input : List ℕ) (rounds fuel shift acc offset : ℕ)
    → length input < 2 ^ 64
    → offset ≤ length input
    → acc < 2 ^ shift
    → bits - shift ≤ 7 * rounds
    → 7 * rounds < bits - shift + 7
    → rounds < fuel
    → read_loop bits input (length input) fuel shift acc offset
      ≡ finish bits shift acc offset (scan (max_bytes bits) rounds (drop offset input))
unfolding scan
read_loop-scan bits input rounds zero shift acc offset small within low p q f = absurd (omega arith)
read_loop-scan bits input zero (suc fuel) shift acc offset small within low p q f =
    unfold read_loop in ground arith
read_loop-scan bits input (suc rounds) (suc fuel) shift acc offset small within low p q f =
    elim (List-cases (drop offset input)) [
      | inl e ↦ rw e (unfold read_loop in ground (arith, length-drop offset input, ap length e))
      | inr (b, (bs, e)) ↦
          let acc' : ℕ = (acc + b % 128 * 2 ^ shift) % 2 ^ bits in
          let (at, rest, inside) = get_elem?-drop offset input b bs e in
          let on =
            read_loop-scan bits input rounds fuel (shift + 7) acc' (offset + 1) small
              (omega (arith, inside)) (group_fits bits shift acc b low) (omega arith) (omega arith)
              (omega arith) in
          rw
            (
              read_loop_byte bits (length input) input fuel shift acc offset b bs refl small e
                  (omega arith) low,
              e,
            )
            (elim (Bool-cases (b / 128 % 2 == 0)) [
              | inl last ↦ rw last
              | inr more ↦ rw more (
                  on
                  ∙ ap
                      (λ l.
                        finish bits (shift + 7) acc' (offset + 1) (scan (max_bytes bits) rounds l))
                      rest
                  ∙ finish_group bits shift acc offset b (scan (max_bytes bits) rounds bs))
            ])
    ]

finish_start :
    (bits offset : ℕ) (r : Result ℕ × ℕ)
    → finish bits 0 0 offset r ≡ (map_result (λ v. v % 2 ^ bits) r.0, offset + r.1)
finish_start bits offset (ok v, taken) = ground arith
finish_start bits offset (throw e, taken) = refl
finish_start bits offset (fault, taken) = refl
finish_start bits offset (stuck, taken) = refl

-- From an offset within an input of less than 2 ^ 64 bytes `readUnsignedVarInt` has the outcome of
-- a scan of the bytes from there on, a value cut off at the width of the type, and moves the offset
-- behind the bytes that were taken, after an error too.
pub read_unsigned_var_int-scan :
    (bits : ℕ) (input : List ℕ) (offset : ℕ)
    → length input < 2 ^ 64
    → offset ≤ length input
    → read_unsigned_var_int bits input (length input) offset ≡ (
        let (outcome, taken) = scan (max_bytes bits) (max_bytes bits) (drop offset input) in
        (map_result (λ v. v % 2 ^ bits) outcome, offset + taken))
unfolding read_unsigned_var_int
read_unsigned_var_int-scan bits input offset small within =
    read_loop-scan bits input (max_bytes bits) (suc bits) 0 0 offset small within (omega arith)
      (ground arith) (ground arith) (ground arith)
    ∙ finish_start bits offset (scan (max_bytes bits) (max_bytes bits) (drop offset input))

-- A scan takes no more bytes than there are, and than its rounds allow.
scan_bounds :
    (max rounds : ℕ) (bs : List ℕ)
    → let (outcome, taken) = scan max rounds bs in
      IsSettled outcome × (taken ≤ length bs) × (taken ≤ rounds)
unfolding scan
scan_bounds max zero bs = (tt, omega arith, omega arith)
scan_bounds max (suc rounds) [] = (tt, omega arith, omega arith)
scan_bounds max (suc rounds) (b ∷ bs) = ground (arith, scan_bounds max rounds bs)

-- From an offset within any input of less than 2 ^ 64 bytes `readUnsignedVarInt` ends with a value
-- or an exception, takes at most `MAX_BYTES` bytes and stays in the buffer.
pub read_unsigned_var_int_bounds :
    (bits : ℕ) (input : List ℕ) (offset : ℕ)
    → offset ≤ length input
    → length input < 2 ^ 64
    → let (outcome, offset') = read_unsigned_var_int bits input (length input) offset in
      IsSettled outcome
      × (offset ≤ offset')
      × (offset' ≤ length input)
      × (offset' ≤ offset + max_bytes bits)
read_unsigned_var_int_bounds bits input offset within small =
    rw (read_unsigned_var_int-scan bits input offset small within) (
      bounded (scan (max_bytes bits) (max_bytes bits) (drop offset input))
        (scan_bounds (max_bytes bits) (max_bytes bits) (drop offset input)))
  where
    bounded :
        (r : Result ℕ × ℕ)
        → IsSettled r.0 × (r.1 ≤ length (drop offset input)) × (r.1 ≤ max_bytes bits)
        → IsSettled (map_result (λ v. v % 2 ^ bits) r.0)
          × (offset ≤ offset + r.1)
          × (offset + r.1 ≤ length input)
          × (offset + r.1 ≤ offset + max_bytes bits)
    bounded (ok v, taken) h = omega (arith, length-drop offset input)
    bounded (throw e, taken) h = omega (arith, length-drop offset input)
    bounded (fault, taken) h = absurd h.0
    bounded (stuck, taken) h = absurd h.0

-- A scan finds the value whose groups stand at the front.
scan-groups :
    (max k v : ℕ) (rest : List ℕ)
    → v < 128 ^ suc k
    → scan max (suc k) (groups k v ++ rest) ≡ (ok v, length (groups k v))
unfolding scan
scan-groups max zero v rest fits = ground arith
scan-groups max (suc k) v rest fits =
    ground (arith, scan-groups max k (v / 128) rest (omega (arith, pow-suc 128 (suc k))))

-- `readUnsignedVarInt` reads the groups of a value of its width.
pub read_unsigned_var_int-Reads :
    (bits k v : ℕ)
    → max_bytes bits ≡ suc k
    → v < 128 ^ suc k
    → v < 2 ^ bits
    → Reads (read_unsigned_var_int bits) (groups k v) v
read_unsigned_var_int-Reads bits k v e fits narrow input offset rest within small found =
    read_unsigned_var_int-scan bits input offset small within
    ∙ ground (arith, found, e, scan-groups (max_bytes bits) k v rest fits, mod-eq_of_lt narrow)
