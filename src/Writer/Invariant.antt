-- ===== src/Writer/Invariant.antt =====
-- The representation invariant of ByteBufferWriter.
use ext_encoding.Prelude.{ℕ, ◌+◌, ◌%◌, ◌^◌, ◌≤◌, ◌<◌, ◌≡◌, refl, arith}
use ext_encoding.Prelude.{List, length, take}
use ext_encoding.Prelude.{length-overwrite}
use ext_encoding.Prelude.{length-take, take-take, splice-whole}
use native.Mathlib.Decide.{dec_lt}
use ext_encoding.Prelude.Int.{ℤ, pos, negsuc}
use ext_encoding.Zend.{Allocator, ok}
use ext_encoding.Serializers.Memory.{Region, extended}
use ext_encoding.Serializers.Memory.Laws.{extended-HasRoom, load_inside, store_lem}
use ext_encoding.Serializers.Contract.{written}
use ext_encoding.Writer.{
  ByteBufferWriter, writer_init_properties, region, update_used, set_offset, reserve, trim, clear,
}

-- The block has the length that the writer states; the bytes in use lie in it, and the offset among
-- them or at their end.
pub record IsValid (w : ByteBufferWriter) : Type 0 where
  pub block : length w.buffer ≡ w.length
  pub small : w.length < 2 ^ 64
  pub used_inside : w.used ≤ w.length
  pub offset_inside : w.offset ≤ w.used

-- A write to the reference parameters, followed by the update of `used`.
pub update_used-IsValid :
    (alloc : Allocator) (w : ByteBufferWriter) (reserve : ℕ) (bytes : List ℕ)
    → IsValid w
    → length bytes ≤ reserve
    → w.offset + reserve < 2 ^ 64
    → IsValid (update_used w (written alloc (region w) reserve bytes))
update_used-IsValid alloc w reserve bytes v fits room = ground (
  arith,
  extended-HasRoom alloc (region w) reserve
      (record { block = v.block; small = v.small; no_wrap = room }),
  length-overwrite (extended alloc (region w) reserve).buffer w.offset bytes,
)

-- A copy of `n` bytes into a block of its own.
pub writer_init_properties_lem :
    (alloc : Allocator) (source : List ℕ) (n offset : ℕ)
    → n ≤ length source
    → n < 2 ^ 64
    → (w : ByteBufferWriter) × (writer_init_properties alloc source n offset ≡ ok w)
      × (take w.used w.buffer ≡ take n source)
      × (w.used ≡ n)
      × (w.offset ≡ offset)
      × (offset ≤ n → IsValid w)
unfolding writer_init_properties
writer_init_properties_lem alloc source n offset inside small = elim (dec_lt 0 n) [
  | no z ↦
      let fresh : ByteBufferWriter = record {
        buffer = alloc.emalloc 16;
        length = 16;
        offset = offset;
        used = n;
      } in
      let empty : n ≡ 0 = omega arith in
      (fresh, ground arith, rw empty, refl, refl, λ within. omega (arith, alloc.length-emalloc 16))
  | yes p ↦
      let copied : ByteBufferWriter = record {
        buffer = take n source;
        length = n;
        offset = offset;
        used = n;
      } in
      let size : length (take n source) ≡ n = length-take n source inside in
      (
        copied,
        ground (
          arith,
          load_inside source 0 n,
          store_lem (alloc.emalloc n) 0 (take n source),
          alloc.length-emalloc n,
          splice-whole (take n source) (alloc.emalloc n),
        ),
        rw (take-take n n source (omega arith)),
        refl,
        refl,
        λ within. omega arith,
      )
]

-- `setOffset` and `clear` keep the invariant.
pub set_offset-IsValid : (z : ℤ) {w : ByteBufferWriter} → IsValid w → IsValid (set_offset z w).1
unfolding set_offset
set_offset-IsValid (pos n) v = ground arith
set_offset-IsValid (negsuc n) v = v

pub clear-IsValid : {w : ByteBufferWriter} → IsValid w → IsValid (clear w)
unfolding clear
clear-IsValid v = omega arith

module _ (alloc : Allocator) where
  pub trim-IsValid : {w : ByteBufferWriter} → IsValid w → IsValid (trim alloc w)
  unfolding trim
  trim-IsValid {w} v = ground (arith, alloc.length-erealloc w.buffer w.used)

  pub reserve-IsValid : (z : ℤ) {w : ByteBufferWriter} → IsValid w → IsValid (reserve alloc z w).1
  unfolding reserve
  reserve-IsValid (pos n) {w} v =
      let m : Region = record { buffer = w.buffer; length = w.length; offset = n % 2 ^ 64 } in
      ground (
        arith,
        extended-HasRoom alloc m 0
            (record { block = v.block; small = v.small; no_wrap = omega arith }),
      )
  reserve-IsValid (negsuc n) v = v
