-- ===== src/Writer/Refine.antt =====
-- The writer refines `Spec`: users see the bytes in use and the offset, and nothing of the memory
-- that is reserved.
use ext_encoding.Prelude.{ℕ, ◌+◌, ◌-◌, ◌^◌, ◌≤◌, ◌<◌, ◌≡◌, refl, arith, ap, ap₂, ◌∙◌}
use ext_encoding.Prelude.{List, ◌++◌, length, take, drop, overwrite}
use ext_encoding.Prelude.{ltb, if◌then◌else◌, sym, overwrite-split}
use ext_encoding.Prelude.{
  append_assoc, length-append, length-take, take-take, drop-take, length-drop,
}
use ext_encoding.Prelude.{take-append_add}
use ext_encoding.Zend.{Allocator, ok}
use ext_encoding.Spec.{Document, put}
use ext_encoding.Serializers.Memory.{extended}
use ext_encoding.Serializers.Memory.Laws.{HasRoom, extended-HasRoom, extended_keeps}
use ext_encoding.Serializers.Memory.Laws.{load_inside}
use ext_encoding.Serializers.Contract.{written}
use ext_encoding.Writer.{ByteBufferWriter, region, update_used, write_byte_array, get_data}
use ext_encoding.Writer.Invariant.{IsValid, update_used-IsValid}

abbrev pub view : ByteBufferWriter → Document
view w = record { content = take w.used w.buffer; position = w.offset }

-- A write lengthens the content by at most what is written.
pub length-put :
    (bytes : List ℕ) (d : Document)
    → d.position ≤ length d.content
    → length (put bytes d).content ≤ length d.content + length bytes
unfolding put
length-put bytes d h = omega (
  arith,
  length-append (take d.position d.content) (bytes ++ drop (d.position + length bytes) d.content),
  length-append bytes (drop (d.position + length bytes) d.content),
  length-take d.position d.content h,
  length-drop (d.position + length bytes) d.content,
)

pub length-view : {w : ByteBufferWriter} → IsValid w → length (view w).content ≡ w.used
length-view {w} v = length-take w.used w.buffer (omega arith)

-- What stands in use after a block over `[i, i + length bytes)`, in a buffer that agrees with the
-- old one on the `used` bytes.
take-overwrite :
    (old new bytes : List ℕ) (used i : ℕ)
    → i ≤ used
    → take used new ≡ take used old
    → i + length bytes ≤ length new
    → used ≤ length new
    → take (i + length bytes + (used - (i + length bytes))) (overwrite new i bytes)
      ≡ take i (take used old) ++ (bytes ++ drop (i + length bytes) (take used old))
take-overwrite old new bytes used i within same room inside =
    let j : ℕ = i + length bytes in
    let front : List ℕ = take i new ++ bytes in
    let size : length front ≡ j =
      omega (arith, length-append (take i new) bytes, length-take i new (omega arith)) in
    ap (take (j + (used - j)))
      (overwrite-split new i bytes room ∙ sym (append_assoc (take i new) bytes (drop j new)))
    ∙ ap (λ (n : ℕ). take (n + (used - j)) (front ++ drop j new)) (sym size)
    ∙ take-append_add front (drop j new) (used - j)
    ∙ append_assoc (take i new) bytes _
    ∙ ap₂ (λ (x y : List ℕ). x ++ (bytes ++ y))
        (sym (take-take i used new within) ∙ ap (take i) same)
        (sym (drop-take j used new) ∙ ap (drop j) same)

-- A write of `bytes` to the reference parameters, followed by the update of `used`, is `put`.
pub update_used-put :
    (alloc : Allocator) (w : ByteBufferWriter) (reserve : ℕ) (bytes : List ℕ)
    → IsValid w
    → length bytes ≤ reserve
    → w.offset + reserve < 2 ^ 64
    → view (update_used w (written alloc (region w) reserve bytes)) ≡ put bytes (view w)
unfolding put
update_used-put alloc w reserve bytes v fits room = ap₂ document contents refl
  where
    document : List ℕ → ℕ → Document
    document c p = record { content = c; position = p }

    room' : HasRoom (region w) reserve
    room' = record { block = v.block; small = v.small; no_wrap = room }

    j : ℕ
    j = w.offset + length bytes

    used_after : (if ltb w.used j then j else w.used) ≡ j + (w.used - j)
    used_after = ground arith

    contents :
        take (if ltb w.used j then j else w.used) (written alloc (region w) reserve bytes).buffer
        ≡ take w.offset (take w.used w.buffer) ++ (bytes ++ drop j (take w.used w.buffer))
    contents =
        ap (λ (n : ℕ). take n (written alloc (region w) reserve bytes).buffer) used_after
        ∙ take-overwrite w.buffer (extended alloc (region w) reserve).buffer bytes w.used w.offset
            v.offset_inside (extended_keeps alloc (region w) reserve room' w.used v.used_inside)
            (omega (arith, extended-HasRoom alloc (region w) reserve room'))
            (omega (arith, extended-HasRoom alloc (region w) reserve room'))

-- `getData` returns the content.
pub get_data-view : {w : ByteBufferWriter} → IsValid w → get_data w ≡ ok (view w).content
unfolding get_data
get_data-view {w} v = ground (arith, load_inside w.buffer 0 w.used)

-- `writeByteArray` on a valid writer succeeds, puts its argument into what users see, and leaves
-- the writer valid, if the offset behind it is below 2 ^ 64.
pub write_byte_array-put :
    (alloc : Allocator) (value : List ℕ) {w : ByteBufferWriter}
    → IsValid w
    → w.offset + length value < 2 ^ 64
    → let (outcome, w') = write_byte_array alloc value w in
      (outcome ≡ ok tt) × IsValid w' × (view w' ≡ put value (view w))
write_byte_array-put alloc value {w} v room = rw ran (
  refl,
  update_used-IsValid alloc w (length value) value v (omega arith) room,
  update_used-put alloc w (length value) value v (omega arith) room,
)
  where
    room' : HasRoom (region w) (length value)
    room' = record { block = v.block; small = v.small; no_wrap = room }

    ran :
        write_byte_array alloc value w
        ≡ (ok tt, update_used w (written alloc (region w) (length value) value))
    ran =
        unfold write_byte_array in
        ground (arith, extended-HasRoom alloc (region w) (length value) room')
