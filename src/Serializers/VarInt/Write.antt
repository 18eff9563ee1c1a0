-- ===== src/Serializers/VarInt/Write.antt =====
-- `writeUnsignedVarInt` writes groups of seven bits, lowest first, as few as the value needs.
use ext_encoding.Prelude.{ℕ, zero, suc, ◌+◌, ◌/◌, ◌%◌, ◌^◌, ◌≤◌, ◌<◌, ◌≡◌, arith}
use ext_encoding.Prelude.{
  List, [], ◌∷◌, ◌++◌, append_assoc, length, length-append, overwrite, overwrite-nil,
}
use ext_encoding.Prelude.{some, ltb, ◌↔◌, if◌then◌else◌, All}
use ext_encoding.Prelude.Word.{IsByte, size_add}
use ext_encoding.Zend.{Allocator}
use ext_encoding.Serializers.Memory.{Region, extended}
use ext_encoding.Serializers.Memory.Laws.{HasRoom, extended-HasRoom, store_behind}
use ext_encoding.Serializers.Contract.{Writes, written}
use ext_encoding.Serializers.VarInt.{max_bytes, write_loop}
use ext_encoding.Serializers.VarInt.{write_unsigned_var_int}
use ext_encoding.Serializers.VarInt.Masks.{value_bits, set_msb}
use native.Mathlib.Decide.{dec_lt}
use native.Mathlib.Nat.{pow-suc, pow-le-pow_right}

-- The specification: the groups of `v`, at most `k + 1` of them, each but the last marked by 128.
abbrev pub groups : ℕ → ℕ → List ℕ
groups zero v = v % 128 ∷ []
groups (suc k) v = if ltb v 128 then v ∷ [] else (v % 128 + 128) ∷ groups k (v / 128)

pub length-groups : (k v : ℕ) → (1 ≤ length (groups k v)) × (length (groups k v) ≤ k + 1)
length-groups zero v = omega arith
length-groups (suc k) v = ground (arith, length-groups k (v / 128))

pub groups-IsByte : (k v : ℕ) → All IsByte (groups k v)
groups-IsByte zero v = omega arith
groups-IsByte (suc k) v = ground (arith, groups-IsByte k (v / 128))

-- No shorter encoding: `n` groups are enough exactly for the values below 128 ^ n.
pub length-groups_iff :
    (k n v : ℕ) → v < 128 ^ suc k → (length (groups k v) ≤ suc n) ↔ (v < 128 ^ suc n)
length-groups_iff zero n v h = (
  λ _. omega (arith, pow-le-pow_right {n = 128} (omega arith) {i = 1} {j = suc n} (omega arith)),
  λ _. omega arith,
)
length-groups_iff (suc k) zero v h = ground (arith, length-groups k (v / 128))
length-groups_iff (suc k) (suc n) v h = ground (
  arith,
  length-groups k (v / 128),
  length-groups_iff k n (v / 128) (omega (arith, pow-suc 128 (suc k))),
  pow-suc 128 (suc n),
  pow-le-pow_right {n = 128} (omega arith) {i = 1} {j = suc n} (omega arith),
)

-- The region whose block holds `bytes` over `base` from `start` on.
abbrev region : List ℕ → ℕ → ℕ → List ℕ → ℕ → Region
region base len start bytes offset = record {
  buffer = overwrite base start bytes;
  length = len;
  offset = offset;
}

module _ (base front : List ℕ) (len start v rounds : ℕ)
    (room : start + length front + 1 ≤ length base) (small : length base < 2 ^ 64) where
  -- The round that ends the loop, and one that goes on.
  write_loop_last :
      v < 128
      → write_loop (suc rounds) (length front) v (region base len start front start)
        ≡ some (region base len start (front ++ (v ∷ [])) (start + length front + 1))
  unfolding write_loop
  write_loop_last last =
      ground (
        arith,
        value_bits v,
        store_behind base start front (v ∷ []) (size_add (length front) start),
      )

  write_loop_more :
      128 ≤ v
      → let front' : List ℕ = front ++ ((v % 128 + 128) ∷ []) in
        write_loop (suc rounds) (length front) v (region base len start front start)
        ≡ write_loop rounds (length front') (v / 128) (region base len start front' start)
  unfolding write_loop
  write_loop_more more = rw length-append (
      ground (
        arith,
        value_bits v,
        set_msb (v % 128),
        store_behind base start front ((v % 128 + 128) ∷ []) (size_add (length front) start),
      ))

write_loop-groups :
    (k v : ℕ) (base front : List ℕ) (len start : ℕ)
    → v < 128 ^ suc k
    → start + length front + suc k ≤ length base
    → length base < 2 ^ 64
    → write_loop (suc k) (length front) v (region base len start front start)
      ≡ some
          (region base len start (front ++ groups k v) (start + length front + length (groups k v)))
write_loop-groups zero v base front len start fits room small =
    rw (let low : v % 128 ≡ v = omega arith in low)
      (write_loop_last base front len start v 0 (omega arith) small (omega arith))
write_loop-groups (suc k) v base front len start fits room small =
    let front' : List ℕ = front ++ ((v % 128 + 128) ∷ []) in
    elim (dec_lt v 128) [
      | yes last ↦
          ground (arith, write_loop_last base front len start v (suc k) (omega arith) small last)
      | no more ↦ ground (
        arith,
        write_loop_more base front len start v (suc k) (omega arith) small (omega arith),
        length-append front ((v % 128 + 128) ∷ []),
        append_assoc front ((v % 128 + 128) ∷ []) (groups k (v / 128)),
        write_loop-groups k (v / 128) base front' len start (omega (arith, pow-suc 128 (suc k)))
            (omega (arith, length-append front ((v % 128 + 128) ∷ []))) small,
      )
    ]

module _ (alloc : Allocator) where
  -- `writeUnsignedVarInt` writes the groups of the value.
  pub write_unsigned_var_int-Writes :
      (bits k v : ℕ)
      → max_bytes bits ≡ suc k
      → v < 128 ^ suc k
      → Writes alloc (write_unsigned_var_int alloc bits v) (suc k) (groups k v)
  unfolding write_unsigned_var_int
  write_unsigned_var_int-Writes bits k v e fits = record {
    fits = omega (arith, length-groups k v);
    writes = λ m h.
        let m' : Region = extended alloc m (suc k) in
        ground (
          arith,
          extended-HasRoom alloc m (suc k) h,
          overwrite-nil m'.buffer m.offset,
          write_loop-groups k v m'.buffer [] m'.length m.offset fits,
        );
  }

-- On a region with room for `MAX_BYTES` = `k + 1` bytes `writeUnsignedVarInt` puts the seven-bit
-- groups of a value below 128 ^ (k + 1) at the offset, lowest first, each but the last marked by
-- its highest bit, and moves the offset behind the last.
pub write_unsigned_var_int_lem :
    (alloc : Allocator) (bits k v : ℕ) (m : Region)
    → max_bytes bits ≡ suc k
    → v < 128 ^ suc k
    → HasRoom m (suc k)
    → write_unsigned_var_int alloc bits v m ≡ some (written alloc m (suc k) (groups k v))
write_unsigned_var_int_lem alloc bits k v m e fits room =
    (write_unsigned_var_int-Writes alloc bits k v e fits).writes m room
