-- ===== src/Tests/Serializers.antt =====
-- The serializers on concrete buffers.
use ext_encoding.Prelude.{
  ◌+◌, ◌-◌, ◌^◌, ◌<◌, ◌≤◌, ◌%◌, ◌*◌, ◌≡◌, refl, arith, List, [], ◌∷◌, length, take, drop, some,
  true,
}
use ext_encoding.Prelude.{ℕ, ◌⊎◌, if◌then◌else◌, ltb}
use Prim.Native.Nat.{max}
use ext_encoding.Zend.{ok, throw, need_bytes, map_result}
use ext_encoding.Serializers.Endian.{big_endian, little_endian}
use ext_encoding.Serializers.Endian.Laws.{order_value}
use ext_encoding.Serializers.Memory.{extend_buffer}
use ext_encoding.Serializers.Memory.Laws.{HasRoom, extend_buffer_lem}
use ext_encoding.Serializers.Contract.{written, IsSettled}
use ext_encoding.Serializers.Fixed.{read_fixed_size_type, write_fixed_size_type}
use ext_encoding.Serializers.Fixed.Laws.{write_fixed_size_type_lem, read_fixed_size_type_lem}
use ext_encoding.Serializers.Triad.{read_int24, write_int24}
use ext_encoding.Serializers.Triad.Laws.{write_int24_lem, read_int24_lem, widen_triad}
use ext_encoding.Serializers.VarInt.{
  max_bytes, read_unsigned_var_int, write_unsigned_var_int, read_signed_var_int,
  write_signed_var_int,
}
use ext_encoding.Serializers.VarInt.Write.{groups, write_unsigned_var_int_lem}
use ext_encoding.Serializers.VarInt.Scan.{
  scan, read_unsigned_var_int-scan, read_unsigned_var_int_bounds,
}
use ext_encoding.Serializers.VarInt.Sign.{read_signed_var_int-write_signed_var_int, zigzag}
use ext_encoding.Prelude.{map, ◌++◌}
use ext_encoding.Serializers.Memory.{Region}
use ext_encoding.Serializers.Array.{
  elements, swap_array, read_fixed_size_type_array, read_complex_type_array,
  write_fixed_size_type_array, write_complex_type_array,
}
use ext_encoding.Serializers.Array.Read.{read_complex_type_array-read_fixed_size_type_array}
use ext_encoding.Serializers.Array.Write.{write_complex_type_array-write_fixed_size_type_array}
use ext_encoding.Tests.Samples.{zeroing, a_region, a_region-HasRoom}

-- 300 in two groups, and an unterminated number.
abbrev input : List ℕ
input = 0 ∷ 0xac ∷ 2 ∷ 0x80 ∷ 0x80 ∷ []

room : (n : ℕ) → n ≤ 10 → HasRoom a_region n
room n h = record {
  block = a_region-HasRoom.block;
  small = a_region-HasRoom.small;
  no_wrap = omega arith;
}

extend_buffer_lem_example :
    let (buffer', len') = extend_buffer zeroing (1 ∷ 2 ∷ 3 ∷ []) 3 2 4 in
    (length buffer' ≡ len')
    × (len' ≡ (if ltb 3 (2 + 4) then max (3 * 2) (2 + 4) else 3))
    × (take 3 buffer' ≡ 1 ∷ 2 ∷ 3 ∷ [])
extend_buffer_lem_example =
    extend_buffer_lem zeroing (1 ∷ 2 ∷ 3 ∷ []) 3 2 4 refl (omega arith) (omega arith)

write_fixed_size_type_lem_example :
    write_fixed_size_type zeroing little_endian 2 big_endian 0x1234 a_region
    ≡ some (written zeroing a_region 2 (0x12 ∷ 0x34 ∷ []))
write_fixed_size_type_lem_example =
    write_fixed_size_type_lem zeroing little_endian 2 big_endian 0x1234 a_region
      (room 2 (omega arith))

read_fixed_size_type_lem_example :
    let left = length input - 1 in
    let result = read_fixed_size_type little_endian 4 big_endian input (length input) 1 in
    ((left < 4) × (result ≡ (throw (need_bytes 4 left), 1)))
    ⊎ ((4 ≤ left) × (result ≡ (ok (order_value big_endian (take 4 (drop 1 input))), 1 + 4)))
read_fixed_size_type_lem_example =
    read_fixed_size_type_lem little_endian 4 big_endian input 1 (omega arith) (omega arith)

write_int24_lem_example :
    write_int24 zeroing true big_endian 0xffff_fffe a_region
    ≡ some (written zeroing a_region 3 (0xff ∷ 0xff ∷ 0xfe ∷ []))
write_int24_lem_example =
    write_int24_lem zeroing true big_endian 0xffff_fffe a_region (omega arith)
      (room 3 (omega arith))

read_int24_lem_example :
    let left = length input - 1 in
    let result = read_int24 true big_endian input (length input) 1 in
    let t = order_value big_endian (take 3 (drop 1 input)) in
    ((left < 3) × (result ≡ (throw (need_bytes 3 left), 1)))
    ⊎ ((3 ≤ left) × (result ≡ (ok (widen_triad true t), 1 + 3)))
read_int24_lem_example =
    read_int24_lem true big_endian input 1 (omega arith) (omega arith) (omega arith)

write_unsigned_var_int_lem_example :
    write_unsigned_var_int zeroing 32 300 a_region
    ≡ some (written zeroing a_region 5 (0xac ∷ 2 ∷ []))
write_unsigned_var_int_lem_example =
    write_unsigned_var_int_lem zeroing 32 4 300 a_region refl (omega arith) (room 5 (omega arith))

read_unsigned_var_int-scan_example : read_unsigned_var_int 32 input (length input) 1 ≡ (
    let (outcome, taken) = scan (max_bytes 32) (max_bytes 32) (drop 1 input) in
    (map_result (λ v. v % 2 ^ 32) outcome, 1 + taken))
read_unsigned_var_int-scan_example =
    read_unsigned_var_int-scan 32 input 1 (omega arith) (omega arith)

read_unsigned_var_int_bounds_example :
    let (outcome, offset') = read_unsigned_var_int 32 input (length input) 3 in
    IsSettled outcome × (3 ≤ offset') × (offset' ≤ length input) × (offset' ≤ 3 + max_bytes 32)
read_unsigned_var_int_bounds_example =
    read_unsigned_var_int_bounds 32 input 3 (omega arith) (omega arith)

read_signed_var_int-write_signed_var_int_example :
    (write_signed_var_int zeroing 32 150 a_region
      ≡ some (written zeroing a_region 5 (groups 4 (zigzag 31 150))))
    × (read_signed_var_int 32 input (length input) 1
        ≡ (ok 150, 1 + length (groups 4 (zigzag 31 150))))
read_signed_var_int-write_signed_var_int_example =
    read_signed_var_int-write_signed_var_int zeroing 31 4 150 a_region input 1 (0x80 ∷ 0x80 ∷ [])
      refl (omega arith) (omega arith) (room 5 (omega arith)) (omega arith) (omega arith) refl

abbrev shorts : List ℕ
shorts = 0x102 ∷ 0x304 ∷ 0x506 ∷ []

read_complex_type_array-read_fixed_size_type_array_example :
    let values = map (order_value big_endian) (elements 2 2 (drop 1 input)) in
    (read_fixed_size_type_array little_endian 2 big_endian 2 input (length input) 1
      ≡ (ok values, 1 + 2 * 2))
    × (read_complex_type_array
          (read_fixed_size_type little_endian 2 big_endian)
          input
          (length input)
          2
          (7 ∷ [])
          1
        ≡ (ok tt, 1 + 2 * 2, 7 ∷ values))
read_complex_type_array-read_fixed_size_type_array_example =
    read_complex_type_array-read_fixed_size_type_array little_endian 2 big_endian 2 input (7 ∷ []) 1
      (omega arith) (omega arith) (omega arith)

write_complex_type_array-write_fixed_size_type_array_example :
    let bytes = take 3 a_region.buffer ++ (1 ∷ 2 ∷ 3 ∷ 4 ∷ 5 ∷ 6 ∷ []) in
    (m' m'' : Region) × (write_complex_type_array
        (write_fixed_size_type zeroing little_endian 2 big_endian)
        shorts
        a_region
      ≡ some m')
    × (write_fixed_size_type_array zeroing little_endian 2 big_endian shorts a_region
        ≡ some (m'', swap_array little_endian 2 big_endian shorts))
    × (m'.offset ≡ m''.offset)
    × (take m'.offset m'.buffer ≡ bytes)
    × (take m''.offset m''.buffer ≡ bytes)
write_complex_type_array-write_fixed_size_type_array_example =
    write_complex_type_array-write_fixed_size_type_array zeroing little_endian 2 big_endian shorts
      a_region (room 6 (omega arith)) (omega arith)
