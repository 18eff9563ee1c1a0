-- ===== src/Types/RoundTrip.antt =====
-- `write` on a writer and `read` on a reader: the bytes that are written, and the value that comes
-- back, on machines of any byte order.
use ext_encoding.Prelude.{ℕ, ◌+◌, ◌^◌, ◌≤◌, ◌<◌, ◌≡◌, refl, arith, ap, ap₂, sym, ◌∙◌}
use ext_encoding.Prelude.{List, ◌++◌, length, take, drop, drop-append, length-take}
use ext_encoding.Zend.{Allocator, ok}
use ext_encoding.Spec.{Document, put}
use ext_encoding.Serializers.Endian.{ByteOrder}
use ext_encoding.Serializers.Memory.Laws.{HasRoom}
use ext_encoding.Serializers.Contract.{written}
use ext_encoding.Writer.{ByteBufferWriter, region, update_used}
use ext_encoding.Writer.Invariant.{IsValid, update_used-IsValid}
use ext_encoding.Writer.Refine.{view, update_used-put, length-put, length-view}
use ext_encoding.Reader.{ByteBufferReader}
use ext_encoding.Reader.Laws
use ext_encoding.Types.{Codec, FloatCasts, ZendValue, zend_type, cast_value, assign_zval}
use ext_encoding.Types.{zif_write_type, zif_read_type, read_type_common}
use ext_encoding.Types.{write_type_common}
use ext_encoding.Types.Encoding.{encode, reserved, read_back, write_type-Writes, read_type-Reads}
use ext_encoding.Types.Encoding.{Fits}
use ext_encoding.Types.Values.{
  IsZendValue, IsValue, rounded, cast_value-Fits, assign_zval-cast_value,
}

module _ (alloc : Allocator) (native : ByteOrder) (c : Codec) (v : ℕ) (fits : Fits c v) where
  -- `writeTypeCommon` puts the bytes of the value.
  pub write_type_common-put :
      {w : ByteBufferWriter}
      → IsValid w
      → w.offset + reserved c < 2 ^ 64
      → let (outcome, w') = write_type_common alloc native c v w in
        (outcome ≡ ok tt) × IsValid w' × (view w' ≡ put (encode c v) (view w))
  write_type_common-put {w} valid room =
      let contract = write_type-Writes alloc native c v fits in
      rw ran (
        refl,
        update_used-IsValid alloc w (reserved c) (encode c v) valid contract.fits room,
        update_used-put alloc w (reserved c) (encode c v) valid contract.fits room,
      )
    where
      room' : HasRoom (region w) (reserved c)
      room' = record { block = valid.block; small = valid.small; no_wrap = room }

      ran :
          write_type_common alloc native c v w
          ≡ (ok tt, update_used w (written alloc (region w) (reserved c) (encode c v)))
      ran =
          unfold write_type_common in
          ground (arith, (write_type-Writes alloc native c v fits).writes (region w) room')

-- What was put stands at the old position.
drop-put :
    (bytes : List ℕ) (d : Document)
    → d.position ≤ length d.content
    → drop d.position (put bytes d).content ≡ bytes ++ drop (d.position + length bytes) d.content
unfolding put
drop-put bytes d h =
    let front : List ℕ = take d.position d.content in
    let back : List ℕ = bytes ++ drop (d.position + length bytes) d.content in
    ap (λ (n : ℕ). drop n (front ++ back)) (sym (length-take d.position d.content h))
    ∙ drop-append front back

module _ (alloc : Allocator) (casts : FloatCasts) (native : ByteOrder) (c : Codec)
    (z : ZendValue (zend_type c)) where
  -- `write` of a PHP value on a valid writer succeeds, puts the bytes of the native value into what
  -- users see, and leaves the writer valid, if the offset behind the bytes that are reserved is
  -- below 2 ^ 64.
  pub zif_write_type-put :
      {w : ByteBufferWriter}
      → IsZendValue (zend_type c) z
      → IsValid w
      → w.offset + reserved c < 2 ^ 64
      → let (outcome, w') = zif_write_type alloc casts native c z w in
        (outcome ≡ ok tt) × IsValid w' × (view w' ≡ put (encode c (cast_value casts c z)) (view w))
  zif_write_type-put value valid room =
      unfold zif_write_type in
      write_type_common-put alloc native c (cast_value casts c z) (cast_value-Fits casts c z value)
        valid room

-- `read` where the bytes of a value stand returns the value and moves behind them.
pub zif_read_type-encode :
    (casts : FloatCasts) (native : ByteOrder) (c : Codec) (v : ℕ) (rest : List ℕ)
    {r : ByteBufferReader}
    → Fits c v
    → Laws.IsValid r
    → drop r.offset r.buffer ≡ encode c v ++ rest
    → zif_read_type casts native c r ≡ (
      ok (assign_zval casts c (read_back c v)),
      record r { offset = r.offset + length (encode c v) },
    )
unfolding zif_read_type read_type_common
zif_read_type-encode casts native c v rest {r} fits valid found =
    rw (read_type-Reads native c v fits r.buffer r.offset rest valid.inside (omega arith) found)

-- A value that its type can hold, written at any position of a valid writer whose content stays
-- below 2 ^ 63 bytes, and read from there comes back, a float at its precision, and the reader then
-- stands where the writer stands. The byte orders of the two machines do not matter.
pub zif_read_type-zif_write_type :
    (alloc : Allocator) (casts : FloatCasts) (native native' : ByteOrder) (c : Codec)
    (z : ZendValue (zend_type c)) {w : ByteBufferWriter}
    → IsZendValue (zend_type c) z
    → IsValue c z
    → IsValid w
    → w.used + reserved c < 2 ^ 63
    → let w' = (zif_write_type alloc casts native c z w).1 in
      let sent = (view w').content in
      zif_read_type casts native' c (record { buffer = sent; offset = w.offset })
      ≡ (ok (rounded casts c z), record { buffer = sent; offset = w'.offset })
zif_read_type-zif_write_type alloc casts native native' c z {w} zend value valid room =
    zif_read_type-encode casts native' c v (drop (w.offset + length (encode c v)) (view w).content)
      (cast_value-Fits casts c z zend) (record { small = small; inside = within }) found
    ∙ ap₂ (λ a i. (ok a, record { buffer = (view w').content; offset = i }))
        (assign_zval-cast_value casts c z value) (sym moved)
  where
    v : ℕ
    v = cast_value casts c z

    w' : ByteBufferWriter
    w' = (zif_write_type alloc casts native c z w).1

    wrote :
        ((zif_write_type alloc casts native c z w).0 ≡ ok tt)
        × IsValid w'
        × (view w' ≡ put (encode c v) (view w))
    wrote = zif_write_type-put alloc casts native c z zend valid (omega arith)

    start : length (view w).content ≡ w.used
    start = length-view valid

    small : length (view w').content < 2 ^ 63
    small = omega (
      arith,
      start,
      ap (λ (d : Document). length d.content) wrote.2,
      length-put (encode c v) (view w) (omega (arith, start)),
      (write_type-Writes alloc native c v (cast_value-Fits casts c z zend)).fits,
    )

    found :
        drop w.offset (view w').content
        ≡ encode c v ++ drop (w.offset + length (encode c v)) (view w).content
    found =
        ap (λ (d : Document). drop w.offset d.content) wrote.2
        ∙ drop-put (encode c v) (view w) (omega (arith, start))

    moved : w'.offset ≡ w.offset + length (encode c v)
    moved = ap (λ (d : Document). d.position) wrote.2 ∙ (unfold put in refl)

    within : w.offset ≤ length (view w').content
    within = omega (arith, wrote.1, moved, length-take w'.used w'.buffer (omega (arith, wrote.1)))
