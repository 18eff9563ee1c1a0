-- ===== src/Reader/Laws.antt =====
-- The invariant of a reader, and its methods on every branch.
use ext_encoding.Prelude.{ℕ, zero, suc, ◌+◌, ◌-◌, ◌^◌, ◌≤◌, ◌<◌, ◌≡◌, arith}
use ext_encoding.Prelude.{List, length, take, drop}
use ext_encoding.Prelude.Int.{ℤ, pos, negsuc, ◌≤ℤ◌}
use ext_encoding.Prelude.Word.{wrap, InRange}
use ext_encoding.Prelude.{◌⊎◌, true}
use ext_encoding.Zend.{ok, throw, need_bytes, negative_length, offset_out_of_range}
use ext_encoding.Serializers.Memory.Laws.{load_inside}
use ext_encoding.Reader.{ByteBufferReader, construct, read_byte_array, set_offset, get_offset}
use ext_encoding.Reader.{get_unread_length}

-- The offset lies in the string or at its end. PHP strings are shorter than 2 ^ 63.
pub record IsValid (r : ByteBufferReader) : Type 0 where
  pub small : length r.buffer < 2 ^ 63
  pub inside : r.offset ≤ length r.buffer

pub construct-IsValid : (s : List ℕ) → length s < 2 ^ 63 → IsValid (construct s)
unfolding construct
construct-IsValid s h = omega arith

-- `readByteArray` on a valid reader has three outcomes. An int of 0 to as many bytes as are left
-- returns the next bytes and moves behind them. A negative one is a ValueError. A larger one is a
-- DataDecodeException that names the bytes asked for and the bytes left. The reader stays as it was
-- in the last two.
pub read_byte_array_lem :
    (z : ℤ) (r : ByteBufferReader)
    → IsValid r
    → InRange true 64 z
    → let unread = length r.buffer - r.offset in
      let n = wrap 64 z in
      ((z ≤ℤ negsuc 0) × (read_byte_array z r ≡ (throw negative_length, r)))
      ⊎ (((pos 0 ≤ℤ z)
            × (n ≤ unread)
            × (read_byte_array z r
                ≡ (ok (take n (drop r.offset r.buffer)), record r { offset = r.offset + n })))
          ⊎ ((pos 0 ≤ℤ z)
              × (unread < n)
              × (read_byte_array z r ≡ (throw (need_bytes n unread), r))))
unfolding read_byte_array
read_byte_array_lem (negsuc n) r v h = ground arith
read_byte_array_lem (pos zero) r v h = ground arith
read_byte_array_lem (pos (suc n)) r v h = ground (arith, load_inside r.buffer r.offset (suc n))

-- `setOffset` of a valid reader moves to an offset from 0 to the length of the string, and refuses
-- any other int with the reader unchanged.
pub reader_set_offset_lem :
    (z : ℤ) (r : ByteBufferReader)
    → IsValid r
    → InRange true 64 z
    → ((pos 0 ≤ℤ z)
        × (z ≤ℤ pos (length r.buffer))
        × (set_offset z r ≡ (ok tt, record r { offset = wrap 64 z })))
      ⊎ (((z ≤ℤ negsuc 0) ⊎ (pos (suc (length r.buffer)) ≤ℤ z))
          × (set_offset z r ≡ (throw offset_out_of_range, r)))
unfolding set_offset
reader_set_offset_lem (pos n) r v h = ground arith
reader_set_offset_lem (negsuc n) r v h = ground arith

pub set_offset-IsValid : (z : ℤ) {r : ByteBufferReader} → IsValid r → IsValid (set_offset z r).1
unfolding set_offset
set_offset-IsValid (pos n) v = ground arith
set_offset-IsValid (negsuc n) v = v

-- `getOffset` and `getUnreadLength` add up to the length of the string.
pub get_offset-get_unread_length :
    (r : ByteBufferReader)
    → IsValid r
    → (get_offset r ≡ pos r.offset) × (get_unread_length r ≡ pos (length r.buffer - r.offset))
unfolding get_offset get_unread_length
get_offset-get_unread_length r v = ground arith
