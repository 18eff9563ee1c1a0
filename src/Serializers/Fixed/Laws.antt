-- ===== src/Serializers/Fixed/Laws.antt =====
-- Fixed-size integers meet the contract of the serializers, on a machine of either byte order.
use ext_encoding.Prelude.{ℕ, ◌+◌, ◌^◌, ◌≤◌, ◌<◌, ◌-◌, ◌⊎◌, ◌≡◌, ap, arith, List, [], ◌∷◌, some}
use ext_encoding.Prelude.{
  length, drop, take, length-append, length-drop, get_elem?-drop, get_elem?_inside,
}
use ext_encoding.Zend.{Allocator, ok, throw, need_bytes}
use ext_encoding.Serializers.Endian.{ByteOrder}
use ext_encoding.Serializers.Endian.Laws.{order_bytes, length-order_bytes, flip-flipper_bytes}
use ext_encoding.Serializers.Endian.Laws.{order_value, order_value-order_bytes, flipper_value-flip}
use ext_encoding.Serializers.Memory.{Region, extended}
use ext_encoding.Serializers.Memory.Laws.{
  HasRoom, extended-HasRoom, store_lem, load_lem, load_inside,
}
use ext_encoding.Serializers.Contract.{Writes, Reads, Settles, written}
use ext_encoding.Serializers.Fixed.{
  read_byte, read_fixed_size_type, write_byte, write_fixed_size_type,
}

module _ (alloc : Allocator) where
  -- `writeByte` writes the byte.
  pub write_byte-Writes : (v : ℕ) → Writes alloc (write_byte alloc v) 1 (v ∷ [])
  unfolding write_byte
  write_byte-Writes v = record {
    fits = omega arith;
    writes = λ m h. ground (
      arith,
      extended-HasRoom alloc m 1 h,
      store_lem (extended alloc m 1).buffer m.offset (v ∷ []),
    );
  }

  -- `writeFixedSizeType` writes the bytes of the value in the order asked for.
  pub write_fixed_size_type-Writes :
      (native : ByteOrder) (size : ℕ) (order : ByteOrder) (v : ℕ)
      → Writes alloc
          (write_fixed_size_type alloc native size order v)
          size
          (order_bytes order size v)
  unfolding write_fixed_size_type
  write_fixed_size_type-Writes native size order v = record {
    fits = omega (arith, length-order_bytes order size v);
    writes = λ m h. ground (
      arith,
      flip-flipper_bytes native order size v,
      extended-HasRoom alloc m size h,
      length-order_bytes order size v,
      store_lem (extended alloc m size).buffer m.offset (order_bytes order size v),
    );
  }

-- `readByte` reads it.
pub read_byte-Reads : (v : ℕ) → Reads read_byte (v ∷ []) v
unfolding read_byte
read_byte-Reads v input offset rest within small e =
    ground (arith, get_elem?-drop offset input v rest e)

pub read_byte-Settles : Settles read_byte
unfolding read_byte
read_byte-Settles input offset within small = ground (arith, get_elem?_inside input offset)

pub read_fixed_size_type-Reads :
    (native : ByteOrder) (size : ℕ) (order : ByteOrder) (v : ℕ)
    → v < 256 ^ size
    → Reads (read_fixed_size_type native size order) (order_bytes order size v) v
unfolding read_fixed_size_type
read_fixed_size_type-Reads native size order v fits input offset rest within small e = ground (
  arith,
  length-drop offset input,
  ap length e,
  length-append (order_bytes order size v) rest,
  length-order_bytes order size v,
  load_lem input offset (order_bytes order size v) rest,
  flipper_value-flip native order (order_bytes order size v),
  order_value-order_bytes order size v,
)

pub read_fixed_size_type-Settles :
    (native : ByteOrder) (size : ℕ) (order : ByteOrder)
    → Settles (read_fixed_size_type native size order)
unfolding read_fixed_size_type
read_fixed_size_type-Settles native size order input offset within small =
    ground (arith, load_inside input offset size)

-- On a region with room for them `writeFixedSizeType` puts the bytes of the value at the offset, in
-- the order asked for, whatever the byte order of the machine, and moves the offset behind them.
pub write_fixed_size_type_lem :
    (alloc : Allocator) (native : ByteOrder) (size : ℕ) (order : ByteOrder) (v : ℕ) (m : Region)
    → HasRoom m size
    → write_fixed_size_type alloc native size order v m
      ≡ some (written alloc m size (order_bytes order size v))
write_fixed_size_type_lem alloc native size order v m room =
    (write_fixed_size_type-Writes alloc native size order v).writes m room

-- `readFixedSizeType` from an offset within an input of less than 2 ^ 64 bytes: with too few bytes
-- left it throws and leaves the offset; else it returns the number that the next bytes stand for in
-- the order asked for, whatever the byte order of the machine, and moves behind them.
pub read_fixed_size_type_lem :
    (native : ByteOrder) (size : ℕ) (order : ByteOrder) (input : List ℕ) (offset : ℕ)
    → offset ≤ length input
    → length input < 2 ^ 64
    → let left = length input - offset in
      let result = read_fixed_size_type native size order input (length input) offset in
      ((left < size) × (result ≡ (throw (need_bytes size left), offset)))
      ⊎ ((size ≤ left)
          × (result ≡ (ok (order_value order (take size (drop offset input))), offset + size)))
unfolding read_fixed_size_type
read_fixed_size_type_lem native size order input offset within small = ground (
  arith,
  load_inside input offset size,
  flipper_value-flip native order (take size (drop offset input)),
)
