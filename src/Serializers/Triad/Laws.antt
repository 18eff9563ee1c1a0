-- ===== src/Serializers/Triad/Laws.antt =====
-- Triads meet the contract of the serializers: three bytes of the value, and its sign extended.
use ext_encoding.Prelude.{ℕ, ◌+◌, ◌-◌, ◌*◌, ◌/◌, ◌%◌, ◌^◌, ◌≤◌, ◌<◌, ◌≡◌, refl, arith}
use ext_encoding.Prelude.{List, [], ◌∷◌, some, Bool, true, false, bit_and}
use ext_encoding.Prelude.{
  length, drop, get_elem?, get_elem?-drop, get_elem?_inside, if◌then◌else◌, ltb,
}
use ext_encoding.Prelude.Bits.{bit_and_mask, bit_or_field, zero-bit_or}
use ext_encoding.Prelude.Word.{IsByte, size_add}
use ext_encoding.Zend.{Allocator, ok, throw, need_bytes}
use ext_encoding.Prelude.{◌⊎◌, inl, inr, take, All, All-drop, length-drop}
use native.Mathlib.Decide.{dec_lt}
use ext_encoding.Serializers.Endian.{ByteOrder, big_endian, little_endian}
use ext_encoding.Serializers.Endian.Laws.{order_bytes, order_value, length-order_bytes}
use ext_encoding.Serializers.Memory.{Region, extended}
use ext_encoding.Serializers.Memory.Laws.{HasRoom, extended-HasRoom, store_lem, store_behind}
use ext_encoding.Serializers.Contract.{Writes, Reads, Settles, written}
use ext_encoding.Serializers.Triad.{
  join_bytes, extend_sign, read_int24, triad_byte, triad_bytes, write_int24,
}

-- Three bytes joined by shifts and `|` are their weighted sum.
join_bytes_sum :
    (a b c : ℕ) → a < 256 → b < 256 → c < 256 → join_bytes a b c ≡ a + b * 256 + c * 65536
join_bytes_sum a b c ha hb hc =
    ground (arith, zero-bit_or a, bit_or_field 8 a b, bit_or_field 16 (a + b * 256) c)

-- The 24-bit value `t` as a pattern of 32 bits: sign-extended from bit 23 where the type is signed.
abbrev pub widen_triad : Bool → ℕ → ℕ
widen_triad true t = if ltb t (2 ^ 23) then t else t + 2 ^ 32 - 2 ^ 24
widen_triad false t = t

extend_sign_lem : (s : Bool) (t : ℕ) → t < 2 ^ 24 → extend_sign s t ≡ widen_triad s t
extend_sign_lem true t h = ground arith
extend_sign_lem false t h = refl

triad_bytes_lem :
    (s : Bool) (v : ℕ)
    → v < 2 ^ 32
    → (bit_and v 0xff ≡ v % 256)
      × (triad_byte s v 8 ≡ v / 256 % 256)
      × (triad_byte s v 16 ≡ v / 256 / 256 % 256)
triad_bytes_lem true v h = ground (
  arith,
  bit_and_mask 8 v,
  bit_and_mask 8 (v / 256),
  bit_and_mask 8 (v / 256 + 2 ^ 32 - 2 ^ 24),
  bit_and_mask 8 (v / 65536),
  bit_and_mask 8 (v / 65536 + 2 ^ 32 - 2 ^ 16),
)
triad_bytes_lem false v h =
    ground (arith, bit_and_mask 8 v, bit_and_mask 8 (v / 256), bit_and_mask 8 (v / 65536))

-- The bytes that are assigned are those of the lowest 24 bits in the order asked for.
triad_bytes-order_bytes :
    (s : Bool) (order : ByteOrder) (v : ℕ)
    → v < 2 ^ 32
    → let (b0, b1, b2) = triad_bytes s order v in b0 ∷ b1 ∷ b2 ∷ [] ≡ order_bytes order 3 v
triad_bytes-order_bytes s big_endian v h = ground (arith, triad_bytes_lem s v h)
triad_bytes-order_bytes s little_endian v h = ground (arith, triad_bytes_lem s v h)

module _ (alloc : Allocator) where
  -- `writeInt24` writes the three bytes of the value in the order asked for.
  pub write_int24-Writes :
      (s : Bool) (order : ByteOrder) (v : ℕ)
      → v < 2 ^ 32
      → Writes alloc (write_int24 alloc s order v) 3 (order_bytes order 3 v)
  unfolding write_int24
  write_int24-Writes s order v fits = record {
    fits = omega (arith, length-order_bytes order 3 v);
    writes = λ m h.
        let m' : Region = extended alloc m 3 in
        let (b0, b1, b2) = triad_bytes s order v in
        let b01 : List ℕ = b0 ∷ b1 ∷ [] in
        ground (
          arith,
          triad_bytes-order_bytes s order v fits,
          length-order_bytes order 3 v,
          extended-HasRoom alloc m 3 h,
          store_lem m'.buffer m.offset (b0 ∷ []),
          store_behind m'.buffer m.offset (b0 ∷ []) (b1 ∷ []) (size_add m.offset 1),
          store_behind m'.buffer m.offset b01 (b2 ∷ []) (size_add m.offset 2),
        );
  }

three_at :
    (offset : ℕ) (input : List ℕ) (b0 b1 b2 : ℕ) (rest : List ℕ)
    → drop offset input ≡ b0 ∷ b1 ∷ b2 ∷ rest
    → (get_elem? input offset ≡ some b0)
      × (get_elem? input (offset + 1) ≡ some b1)
      × (get_elem? input (offset + 2) ≡ some b2)
      × (offset + 2 < length input)
three_at offset input b0 b1 b2 rest e = ground (
  arith,
  get_elem?-drop offset input b0 (b1 ∷ b2 ∷ rest) e,
  get_elem?-drop (offset + 1) input b1 (b2 ∷ rest),
  get_elem?-drop (offset + 1 + 1) input b2 rest,
)

-- `readInt24` reads three bytes as the 24-bit value that they stand for, its sign extended.
pub read_int24-Reads :
    (s : Bool) (order : ByteOrder) (t : ℕ)
    → t < 2 ^ 24
    → Reads (read_int24 s order) (order_bytes order 3 t) (widen_triad s t)
unfolding read_int24
read_int24-Reads s little_endian t fits input offset rest within small e =
    let b0 : ℕ = t % 256 in
    let b1 : ℕ = t / 256 % 256 in
    let b2 : ℕ = t / 256 / 256 % 256 in
    ground (
      arith,
      three_at offset input b0 b1 b2 rest e,
      join_bytes_sum b0 b1 b2,
      extend_sign_lem s t fits,
    )
read_int24-Reads s big_endian t fits input offset rest within small e =
    let b0 : ℕ = t % 256 in
    let b1 : ℕ = t / 256 % 256 in
    let b2 : ℕ = t / 256 / 256 % 256 in
    ground (
      arith,
      three_at offset input b2 b1 b0 rest e,
      join_bytes_sum b0 b1 b2,
      extend_sign_lem s t fits,
    )

pub read_int24-Settles : (s : Bool) (order : ByteOrder) → Settles (read_int24 s order)
unfolding read_int24
read_int24-Settles s order input offset within small = ground (
  arith,
  get_elem?_inside input offset,
  get_elem?_inside input (offset + 1),
  get_elem?_inside input (offset + 2),
)

-- On a region with room for three bytes `writeInt24` puts the lowest three bytes of a 32-bit value,
-- signed or not, at the offset, in the order asked for, and moves the offset behind them.
pub write_int24_lem :
    (alloc : Allocator) (s : Bool) (order : ByteOrder) (v : ℕ) (m : Region)
    → v < 2 ^ 32
    → HasRoom m 3
    → write_int24 alloc s order v m ≡ some (written alloc m 3 (order_bytes order 3 v))
write_int24_lem alloc s order v m fits room =
    (write_int24-Writes alloc s order v fits).writes m room

-- Three bytes that are there are read.
read_three :
    (s : Bool) (order : ByteOrder) (input : List ℕ) (offset : ℕ) (found : List ℕ)
    → All IsByte found
    → drop offset input ≡ found
    → 3 ≤ length found
    → length input < 2 ^ 64
    → read_int24 s order input (length input) offset
      ≡ (ok (widen_triad s (order_value order (take 3 found))), offset + 3)
unfolding read_int24
read_three s order input offset [] h e enough small = absurd (omega arith)
read_three s order input offset (b0 ∷ []) h e enough small = absurd (omega arith)
read_three s order input offset (b0 ∷ b1 ∷ []) h e enough small = absurd (omega arith)
read_three s little_endian input offset (b0 ∷ b1 ∷ b2 ∷ rest) h e enough small = ground (
  arith,
  three_at offset input b0 b1 b2 rest e,
  join_bytes_sum b0 b1 b2,
  extend_sign_lem s (b0 + b1 * 256 + b2 * 65536),
)
read_three s big_endian input offset (b0 ∷ b1 ∷ b2 ∷ rest) h e enough small = ground (
  arith,
  three_at offset input b0 b1 b2 rest e,
  join_bytes_sum b2 b1 b0,
  extend_sign_lem s (b2 + b1 * 256 + b0 * 65536),
)

-- `readInt24` from an offset within an input of less than 2 ^ 64 bytes: with fewer than three bytes
-- left it throws and leaves the offset; else it returns the 24-bit number that the next three bytes
-- stand for in the order asked for, its sign extended if the type is signed, and moves behind them.
pub read_int24_lem :
    (s : Bool) (order : ByteOrder) (input : List ℕ) (offset : ℕ)
    → All IsByte input
    → offset ≤ length input
    → length input < 2 ^ 64
    → let left = length input - offset in
      let result = read_int24 s order input (length input) offset in
      let t = order_value order (take 3 (drop offset input)) in
      ((left < 3) × (result ≡ (throw (need_bytes 3 left), offset)))
      ⊎ ((3 ≤ left) × (result ≡ (ok (widen_triad s t), offset + 3)))
read_int24_lem s order input offset bytes within small = elim (dec_lt (length input - offset) 3) [
  | yes short ↦ inl (short, unfold read_int24 in ground arith)
  | no more ↦ inr (
    omega arith,
    read_three s order input offset (drop offset input) (All-drop IsByte offset input bytes) refl
        (omega (arith, length-drop offset input)) small,
  )
]
