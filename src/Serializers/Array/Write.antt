-- ===== src/Serializers/Array/Write.antt =====
-- Arrays that are written: the loop that swaps each element before the whole memory is copied, and
-- the loop that writes element by element.
use ext_encoding.Prelude.{ℕ, zero, suc, ◌+◌, ◌*◌, ◌/◌, ◌≤◌, ◌≡◌, refl, ap, ap₂, sym, ◌∙◌, arith}
use ext_encoding.Prelude.{
  List, [], ◌∷◌, ◌++◌, length, take, drop, map, reverse, All, append_assoc, append-nil,
}
use ext_encoding.Prelude.{
  All-reverse, length-reverse, length-append, reverse-reverse, take-length, some,
}
use ext_encoding.Prelude.{overwrite-split, length-overwrite, take-append, length-take}
use ext_encoding.Prelude.Word.{IsByte}
use ext_encoding.Zend.{Allocator}
use ext_encoding.Serializers.Endian.{
  ByteOrder, big_endian, little_endian, flipper_bytes, le_bytes, from_le,
}
use ext_encoding.Serializers.Endian.Laws.{
  order_bytes, le_bytes-from_le, length-le_bytes, length-order_bytes,
}
use ext_encoding.Serializers.Memory.{Region, extended}
use ext_encoding.Serializers.Memory.Laws.{HasRoom, store_lem, extended-HasRoom, extended_keeps}
use ext_encoding.Serializers.Contract.{written}
use ext_encoding.Serializers.Fixed.{write_fixed_size_type}
use ext_encoding.Serializers.Fixed.Laws.{write_fixed_size_type_lem}
use ext_encoding.Serializers.Array.{
  concat, swap_array, write_fixed_size_type_array, write_complex_type_array,
}

le_bytes-IsByte : (size v : ℕ) → All IsByte (le_bytes size v)
le_bytes-IsByte zero v = tt
le_bytes-IsByte (suc size) v = (omega arith, le_bytes-IsByte size (v / 256))

-- Reversed bytes survive a store to the Flipper's value.
le_bytes-reverse :
    (size v : ℕ)
    → let reversed = reverse (le_bytes size v) in le_bytes size (from_le reversed) ≡ reversed
le_bytes-reverse size v =
    let reversed : List ℕ = reverse (le_bytes size v) in
    let long : length reversed ≡ size = length-reverse (le_bytes size v) ∙ length-le_bytes size v in
    ap (λ (n : ℕ). le_bytes n (from_le reversed)) (sym long)
    ∙ le_bytes-from_le reversed (All-reverse IsByte (le_bytes size v) (le_bytes-IsByte size v))

-- The memory of the swapped elements is their bytes in the order asked for.
concat-swap_array :
    (native order : ByteOrder) (size : ℕ) (values : List ℕ)
    → concat (map (flipper_bytes native size) (swap_array native size order values))
      ≡ concat (map (order_bytes order size) values)
concat-swap_array big_endian big_endian size values = refl
concat-swap_array little_endian little_endian size values = refl
concat-swap_array big_endian little_endian size [] = refl
concat-swap_array big_endian little_endian size (v ∷ values) =
    ap₂ (λ (x y : List ℕ). x ++ y)
      (ap (λ (xs : List ℕ). reverse (le_bytes size (from_le xs)))
          (reverse-reverse (reverse (le_bytes size v)))
        ∙ ap reverse (le_bytes-reverse size v)
        ∙ reverse-reverse (le_bytes size v))
      (concat-swap_array big_endian little_endian size values)
concat-swap_array little_endian big_endian size [] = refl
concat-swap_array little_endian big_endian size (v ∷ values) =
    ap₂ (λ (x y : List ℕ). x ++ y) (le_bytes-reverse size v)
      (concat-swap_array little_endian big_endian size values)

length-concat :
    (order : ByteOrder) (size : ℕ) (values : List ℕ)
    → length (concat (map (order_bytes order size) values)) ≡ length values * size
length-concat order size [] = omega arith
length-concat order size (v ∷ values) = omega (
  arith,
  length-append (order_bytes order size v) (concat (map (order_bytes order size) values)),
  length-order_bytes order size v,
  length-concat order size values,
)

-- `writeFixedSizeTypeArray` puts the bytes of all elements at the offset, each in the order asked for,
-- whatever the byte order of the machine, and moves the offset behind them. It leaves the caller's
-- array swapped if the order is not the machine's.
pub write_fixed_size_type_array_lem :
    (alloc : Allocator) (native : ByteOrder) (size : ℕ) (order : ByteOrder) (values : List ℕ)
    (m : Region)
    → HasRoom m (length values * size)
    → write_fixed_size_type_array alloc native size order values m
      ≡ some (
        written alloc m (length values * size) (concat (map (order_bytes order size) values)),
        swap_array native size order values,
      )
unfolding write_fixed_size_type_array
write_fixed_size_type_array_lem alloc native size order values m room =
    let n : ℕ = length values * size in
    let bytes : List ℕ = concat (map (order_bytes order size) values) in
    let whole : take n bytes ≡ bytes =
      ap (λ (k : ℕ). take k bytes) (sym (length-concat order size values)) ∙ take-length bytes in
    ground (
      arith,
      concat-swap_array native order size values,
      whole,
      length-concat order size values,
      extended-HasRoom alloc m n room,
      store_lem (extended alloc m n).buffer m.offset bytes,
    )

-- What stands before the new offset once bytes were written.
take-written :
    (alloc : Allocator) (m : Region) (n : ℕ) (bytes : List ℕ)
    → HasRoom m n
    → length bytes ≤ n
    → m.offset ≤ m.length
    → let m' = written alloc m n bytes in take m'.offset m'.buffer ≡ take m.offset m.buffer ++ bytes
take-written alloc m n bytes room fits inside =
    let grown : List ℕ = (extended alloc m n).buffer in
    let behind : List ℕ = drop (m.offset + length bytes) grown in
    let front : List ℕ = take m.offset grown ++ bytes in
    let facts = extended-HasRoom alloc m n room in
    let size : length front ≡ m.offset + length bytes = omega (
      arith,
      facts,
      length-append (take m.offset grown) bytes,
      length-take m.offset grown (omega (arith, facts)),
    ) in
    ap (take (m.offset + length bytes)) (
      overwrite-split grown m.offset bytes (omega (arith, facts))
      ∙ sym (append_assoc (take m.offset grown) bytes behind))
    ∙ ap (λ (k : ℕ). take k (front ++ behind)) (sym size)
    ∙ take-append front behind
    ∙ ap (λ (xs : List ℕ). xs ++ bytes) (extended_keeps alloc m n room m.offset inside)

-- The region after a write has room for what else was to be written.
written-HasRoom :
    (alloc : Allocator) (m : Region) (n k : ℕ) (bytes : List ℕ)
    → HasRoom m (n + k)
    → length bytes ≡ n
    → let m' = written alloc m n bytes in HasRoom m' k × (m'.offset ≤ m'.length)
written-HasRoom alloc m n k bytes room e =
    let room' : HasRoom m n = record {
      block = room.block;
      small = room.small;
      no_wrap = omega (arith, room.no_wrap);
    } in
    let facts = extended-HasRoom alloc m n room' in
    (
      record {
        block =
            length-overwrite (extended alloc m n).buffer m.offset bytes (omega (arith, facts))
            ∙ facts.0;
        small = omega (arith, facts);
        no_wrap = omega (arith, room.no_wrap);
      },
      omega (arith, facts),
    )

module _ (alloc : Allocator) (native : ByteOrder) (size : ℕ) (order : ByteOrder) where
  one_by_one :
      (values : List ℕ) (m : Region)
      → HasRoom m (length values * size)
      → m.offset ≤ m.length
      → (m' : Region) × (write_complex_type_array
            (write_fixed_size_type alloc native size order)
            values
            m
          ≡ some m')
        × (m'.offset ≡ m.offset + length values * size)
        × (take m'.offset m'.buffer
            ≡ take m.offset m.buffer ++ concat (map (order_bytes order size) values))
  unfolding write_complex_type_array
  one_by_one [] m room inside = (m, refl, omega arith, sym (append-nil (take m.offset m.buffer)))
  one_by_one (v ∷ values) m room inside =
      let bytes : List ℕ = order_bytes order size v in
      let m1 : Region = written alloc m size bytes in
      let first : HasRoom m size = record {
        block = room.block;
        small = room.small;
        no_wrap = omega (arith, room.no_wrap);
      } in
      let both : HasRoom m (size + length values * size) = record {
        block = room.block;
        small = room.small;
        no_wrap = omega (arith, room.no_wrap);
      } in
      let (room1, inside1) =
        written-HasRoom alloc m size (length values * size) bytes both
          (length-order_bytes order size v) in
      let (m', ran, moved, content) = one_by_one values m1 room1 inside1 in
      (
        m',
        ground (arith, write_fixed_size_type_lem alloc native size order v m first, ran),
        omega (arith, moved, length-order_bytes order size v),
        content
            ∙ ap (λ (xs : List ℕ). xs ++ concat (map (order_bytes order size) values))
                (take-written alloc m size bytes first
                  (omega (arith, length-order_bytes order size v)) inside)
            ∙ append_assoc (take m.offset m.buffer) bytes
                (concat (map (order_bytes order size) values)),
      )

  -- On a region with room for all elements and an offset within its block, the loop over
  -- `writeFixedSizeType` and `writeFixedSizeTypeArray` end at the same offset with the same bytes
  -- in front of it: those that were there before, and those of the elements.
  pub write_complex_type_array-write_fixed_size_type_array :
      (values : List ℕ) (m : Region)
      → HasRoom m (length values * size)
      → m.offset ≤ m.length
      → let bytes = take m.offset m.buffer ++ concat (map (order_bytes order size) values) in
        (m' m'' : Region) × (write_complex_type_array
            (write_fixed_size_type alloc native size order)
            values
            m
          ≡ some m')
        × (write_fixed_size_type_array alloc native size order values m
            ≡ some (m'', swap_array native size order values))
        × (m'.offset ≡ m''.offset)
        × (take m'.offset m'.buffer ≡ bytes)
        × (take m''.offset m''.buffer ≡ bytes)
  write_complex_type_array-write_fixed_size_type_array values m room inside =
      let (m', ran, moved, content) = one_by_one values m room inside in
      let bytes : List ℕ = concat (map (order_bytes order size) values) in
      (
        m',
        written alloc m (length values * size) bytes,
        ran,
        write_fixed_size_type_array_lem alloc native size order values m room,
        omega (arith, moved, length-concat order size values),
        content,
        take-written alloc m (length values * size) bytes room
            (omega (arith, length-concat order size values)) inside,
      )
