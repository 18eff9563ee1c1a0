-- ===== src/Tests/Samples.antt =====
-- An allocator that fills new memory with zeros, a conversion of doubles that keeps the low bits, and
-- a writer and a reader.
use ext_encoding.Prelude.{ℕ, zero, suc, ◌%◌, ◌^◌, ◌≤◌, ◌≡◌, refl, ap, ◌∙◌, arith}
use ext_encoding.Prelude.{List, [], ◌∷◌, ◌++◌, length, take, length-append, length-take, take-take}
use ext_encoding.Zend.{Allocator}
use ext_encoding.Serializers.Memory.{Region}
use ext_encoding.Serializers.Memory.Laws.{HasRoom}
use ext_encoding.Writer.{ByteBufferWriter}
use ext_encoding.Writer.Invariant.{IsValid}
use ext_encoding.Reader.{ByteBufferReader}
use ext_encoding.Reader.Laws
use ext_encoding.Types.{FloatCasts}
use native.Mathlib.Nat.{mod-lt}

abbrev pub zeros : ℕ → List ℕ
zeros zero = []
zeros (suc n) = 0 ∷ zeros n

pub length-zeros : (n : ℕ) → length (zeros n) ≡ n
length-zeros zero = refl
length-zeros (suc n) = ap suc (length-zeros n)

pub take-append_front : (k : ℕ) (xs ys : List ℕ) → k ≤ length xs → take k (xs ++ ys) ≡ take k xs
take-append_front zero xs ys h = refl
take-append_front (suc k) [] ys h = absurd (omega arith)
take-append_front (suc k) (x ∷ xs) ys h = ap (◌∷◌ x) (take-append_front k xs ys (omega arith))

abbrev pub zeroing : Allocator
zeroing = record {
  emalloc = zeros;
  erealloc = λ b n. take n (b ++ zeros n);
  length-emalloc = length-zeros;
  length-erealloc = λ b n.
      length-take n (b ++ zeros n) (omega (arith, length-append b (zeros n), length-zeros n));
  erealloc_keeps = λ b n k inside fits.
      take-take k n (b ++ zeros n) fits ∙ take-append_front k b (zeros n) inside;
}

abbrev pub low_bits : FloatCasts
low_bits = record {
  to_float = λ d. d % 2 ^ 32;
  to_double = λ f. f;
  to_float-lt = λ d. mod-lt d (omega arith);
}

-- The bytes 1, 2, 3 in a block of four, with the offset behind the first.
abbrev pub a_writer : ByteBufferWriter
a_writer = record { buffer = 1 ∷ 2 ∷ 3 ∷ 0 ∷ []; length = 4; offset = 1; used = 3 }

pub a_writer-IsValid : IsValid a_writer
a_writer-IsValid = record {
  block = refl;
  small = omega arith;
  used_inside = omega arith;
  offset_inside = omega arith;
}

abbrev pub empty_writer : ByteBufferWriter
empty_writer = record { buffer = zeros 16; length = 16; offset = 0; used = 0 }

pub empty_writer-IsValid : IsValid empty_writer
empty_writer-IsValid = record {
  block = refl;
  small = omega arith;
  used_inside = omega arith;
  offset_inside = omega arith;
}

abbrev pub a_region : Region
a_region = record { buffer = 1 ∷ 2 ∷ 3 ∷ 0 ∷ []; length = 4; offset = 3 }

pub a_region-HasRoom : HasRoom a_region 10
a_region-HasRoom = record { block = refl; small = omega arith; no_wrap = omega arith }

abbrev pub a_reader : ByteBufferReader
a_reader = record { buffer = 0x12 ∷ 0x34 ∷ 0x56 ∷ 0x78 ∷ []; offset = 1 }

pub a_reader-IsValid : Laws.IsValid a_reader
a_reader-IsValid = record { small = omega arith; inside = omega arith }
