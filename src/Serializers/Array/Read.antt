-- ===== src/Serializers/Array/Read.antt =====
-- Arrays that are read: the copy of the whole memory with a loop that swaps each element, and the
-- loop that reads element by element.
use ext_encoding.Prelude.{
  ℕ, zero, suc, ◌+◌, ◌-◌, ◌*◌, ◌^◌, ◌≤◌, ◌<◌, ◌≡◌, refl, ap, ap₂, sym, ◌∙◌, arith,
}
use ext_encoding.Prelude.{
  List, [], ◌∷◌, ◌++◌, length, take, drop, map, reverse, All, append_assoc, append-nil,
}
use ext_encoding.Prelude.{
  All-drop, All-take, All-reverse, length-take, length-drop, length-reverse, ◌⊎◌,
}
use ext_encoding.Prelude.{take-take, drop-take, drop-drop, reverse-reverse, inl, inr}
use ext_encoding.Prelude.Word.{IsByte}
use ext_encoding.Zend.{Result, ok, throw, need_bytes}
use ext_encoding.Serializers.Endian.{
  ByteOrder, big_endian, little_endian, flipper_value, le_bytes, from_le,
}
use ext_encoding.Serializers.Endian.Laws.{order_value, le_bytes-from_le}
use ext_encoding.Serializers.Memory.Laws.{load_inside}
use ext_encoding.Serializers.Fixed.{read_fixed_size_type}
use ext_encoding.Serializers.Fixed.Laws.{read_fixed_size_type_lem}
use ext_encoding.Serializers.Array.{
  elements, swap_bytes, swap_array, read_fixed_size_type_array, read_complex_type_array,
}
use native.Mathlib.Decide.{dec_lt}

-- An element of `size` bytes.
abbrev IsElement : ℕ → List ℕ → Type 0
IsElement size bs = (length bs ≡ size) × All IsByte bs

le_bytes-from_le_at : (size : ℕ) (bs : List ℕ) → IsElement size bs → le_bytes size (from_le bs) ≡ bs
le_bytes-from_le_at size bs h =
    ap (λ (n : ℕ). le_bytes n (from_le bs)) (sym h.0) ∙ le_bytes-from_le bs h.1

-- An element that is loaded in the order of the machine and swapped stands for the number that its
-- bytes give in the other order.
swap_big :
    (size : ℕ) (bs : List ℕ)
    → IsElement size bs
    → swap_bytes big_endian size (flipper_value big_endian bs) ≡ from_le bs
swap_big size bs h =
    let back : List ℕ = reverse bs in
    let same : le_bytes size (from_le back) ≡ back =
      le_bytes-from_le_at size back (length-reverse bs ∙ h.0, All-reverse IsByte bs h.1) in
    ap (λ (xs : List ℕ). from_le (reverse (reverse (reverse xs)))) same
    ∙ ap from_le (reverse-reverse (reverse back) ∙ reverse-reverse bs)

swap_little :
    (size : ℕ) (bs : List ℕ)
    → IsElement size bs
    → swap_bytes little_endian size (flipper_value little_endian bs) ≡ from_le (reverse bs)
swap_little size bs h = ap (λ (xs : List ℕ). from_le (reverse xs)) (le_bytes-from_le_at size bs h)

swap_array-elements :
    (native order : ByteOrder) (size : ℕ) (xs : List (List ℕ))
    → All (IsElement size) xs
    → swap_array native size order (map (flipper_value native) xs) ≡ map (order_value order) xs
swap_array-elements big_endian big_endian size xs h = refl
swap_array-elements little_endian little_endian size xs h = refl
swap_array-elements big_endian little_endian size [] h = refl
swap_array-elements big_endian little_endian size (x ∷ xs) h =
    ap₂ ◌∷◌ (swap_big size x h.0) (swap_array-elements big_endian little_endian size xs h.1)
swap_array-elements little_endian big_endian size [] h = refl
swap_array-elements little_endian big_endian size (x ∷ xs) h =
    ap₂ ◌∷◌ (swap_little size x h.0) (swap_array-elements little_endian big_endian size xs h.1)

elements-IsElement :
    (size count : ℕ) (bytes : List ℕ)
    → count * size ≤ length bytes
    → All IsByte bytes
    → All (IsElement size) (elements size count bytes)
elements-IsElement size zero bytes room h = tt
elements-IsElement size (suc count) bytes room h = (
  (length-take size bytes (omega arith), All-take IsByte size bytes h),
  elements-IsElement size count (drop size bytes) (omega (arith, length-drop size bytes))
      (All-drop IsByte size bytes h),
)

-- The elements lie in the first `count * size` bytes.
elements-take :
    (size count n : ℕ) (bytes : List ℕ)
    → n ≡ count * size
    → elements size count (take n bytes) ≡ elements size count bytes
elements-take size zero n bytes e = refl
elements-take size (suc count) n bytes e = ap₂ ◌∷◌ (take-take size n bytes (omega arith)) (
    ap (elements size count) (drop-take size n bytes)
    ∙ elements-take size count (n - size) (drop size bytes) (omega arith))

-- `readFixedSizeTypeArray` from an offset within an input of less than 2 ^ 64 bytes, for an array
-- of less than 2 ^ 64 bytes: with too few bytes left it throws and leaves the offset; else it
-- returns the numbers that the next elements stand for in the order asked for, whatever the byte
-- order of the machine, and moves behind them.
pub read_fixed_size_type_array_lem :
    (native : ByteOrder) (size : ℕ) (order : ByteOrder) (count : ℕ) (input : List ℕ) (offset : ℕ)
    → All IsByte input
    → offset ≤ length input
    → length input < 2 ^ 64
    → count * size < 2 ^ 64
    → let left = length input - offset in
      let result = read_fixed_size_type_array native size order count input (length input) offset in
      let values = map (order_value order) (elements size count (drop offset input)) in
      ((left < count * size) × (result ≡ (throw (need_bytes (count * size) left), offset)))
      ⊎ ((count * size ≤ left) × (result ≡ (ok values, offset + count * size)))
read_fixed_size_type_array_lem native size order count input offset bytes within small fits =
    elim (dec_lt (length input - offset) (count * size)) [
      | yes short ↦ inl (short, unfold read_fixed_size_type_array in ground arith)
      | no more ↦
          let raw : List ℕ = take (count * size) (drop offset input) in
          let found = drop offset input in
          let room : count * size ≤ length found = omega (arith, length-drop offset input) in
          let values = swap_array-elements native order size (elements size count raw) (
            elements-IsElement size count raw (omega (arith, length-take (count * size) found room))
              (All-take IsByte (count * size) found (All-drop IsByte offset input bytes))) in
          inr (
            omega arith,
            unfold read_fixed_size_type_array in
                ground (
                  arith,
                  load_inside input offset (count * size),
                  values,
                  elements-take size count (count * size) found,
                ),
          )
    ]

-- A round of the loop that finds a value.
read_complex_type_array_round :
    (read : List ℕ → ℕ → ℕ → Result ℕ × ℕ) (bytes : List ℕ) (used count : ℕ) (array : List ℕ)
    (offset value offset' : ℕ)
    → read bytes used offset ≡ (ok value, offset')
    → read_complex_type_array read bytes used (suc count) array offset
      ≡ read_complex_type_array read bytes used count (array ++ (value ∷ [])) offset'
unfolding read_complex_type_array
read_complex_type_array_round read bytes used count array offset value offset' h = ground (arith, h)

-- Where the bytes of all elements are there, in an input of less than 2 ^ 64 bytes, the loop over
-- `readFixedSizeType` appends to its array what `readFixedSizeTypeArray` returns, and ends at the
-- same offset.
pub read_complex_type_array-read_fixed_size_type_array :
    (native : ByteOrder) (size : ℕ) (order : ByteOrder) (count : ℕ) (input : List ℕ)
    (array : List ℕ) (offset : ℕ)
    → All IsByte input
    → length input < 2 ^ 64
    → offset + count * size ≤ length input
    → let values = map (order_value order) (elements size count (drop offset input)) in
      (read_fixed_size_type_array native size order count input (length input) offset
        ≡ (ok values, offset + count * size))
      × (read_complex_type_array
            (read_fixed_size_type native size order)
            input
            (length input)
            count
            array
            offset
          ≡ (ok tt, offset + count * size, array ++ values))
read_complex_type_array-read_fixed_size_type_array native size order count input array offset bytes
      small room =
    (
      ground (
        arith,
        read_fixed_size_type_array_lem native size order count input offset bytes (omega arith)
            small (omega arith),
      ),
      one_by_one count array offset room,
    )
  where
    one_by_one :
        (count : ℕ) (array : List ℕ) (offset : ℕ)
        → offset + count * size ≤ length input
        → read_complex_type_array
            (read_fixed_size_type native size order)
            input
            (length input)
            count
            array
            offset
          ≡ (
            ok tt,
            offset + count * size,
            array ++ map (order_value order) (elements size count (drop offset input)),
          )
    one_by_one zero array offset room =
        unfold read_complex_type_array in
        ap₂ (λ (i : ℕ) (xs : List ℕ). (ok tt, i, xs)) (omega arith) (sym (append-nil array))
    one_by_one (suc count) array offset room =
        let value : ℕ = order_value order (take size (drop offset input)) in
        let rest : List ℕ =
          map (order_value order) (elements size count (drop (offset + size) input)) in
        let first : read_fixed_size_type native size order input (length input) offset
            ≡ (ok value, offset + size) =
          ground
            (arith, read_fixed_size_type_lem native size order input offset (omega arith) small) in
        let moved : drop size (drop offset input) ≡ drop (offset + size) input =
          drop-drop offset size input in
        read_complex_type_array_round (read_fixed_size_type native size order) input (length input)
          count array offset value (offset + size) first
        ∙ one_by_one count (array ++ (value ∷ [])) (offset + size) (omega arith)
        ∙ ap₂ (λ (i : ℕ) (xs : List ℕ). (ok tt, i, xs)) (omega arith)
            (append_assoc array (value ∷ []) rest
              ∙ ap
                  (λ (xs : List ℕ).
                    array ++ (value ∷ map (order_value order) (elements size count xs)))
                  (sym moved))
