-- ===== src/Writer/Methods.antt =====
-- The other methods of ByteBufferWriter: what their users see of them, and the memory they reserve.
use ext_encoding.Prelude.{ℕ, zero, suc, ◌*◌, ◌%◌, ◌^◌, ◌≤◌, ◌<◌, ◌≡◌, refl, arith, ap}
use ext_encoding.Prelude.{List, [], ◌∷◌, append-nil, some, length, take}
use ext_encoding.Prelude.{if◌then◌else◌, sym, ◌∙◌, ◌↔◌, true}
use ext_encoding.Prelude.{take-length, drop-nil, length-take}
use ext_encoding.Prelude.Int.{ℤ, pos, negsuc, ◌≤ℤ◌}
use ext_encoding.Prelude.Word.{InRange, wrap}
use Prim.Native.Nat.{max}
use ext_encoding.Prelude.{◌⊎◌, leb}
use ext_encoding.Zend.{Allocator, ok, throw, offset_out_of_range, length_not_positive}
use ext_encoding.Spec.{Document, put, seek, empty}
use ext_encoding.Serializers.Memory.{Region, extend_buffer}
use ext_encoding.Serializers.Memory.Laws.{HasRoom, extended-HasRoom, extended_keeps, load_inside}
use ext_encoding.Writer.{
  ByteBufferWriter, writer_clone, construct, set_offset, reserve, trim, clear,
  writer_compare_objects, bytes_equal,
}
use ext_encoding.Writer.Invariant.{IsValid, writer_init_properties_lem}
use ext_encoding.Writer.Refine.{view}

pub document_eq :
    {c c' : List ℕ} {p p' : ℕ}
    → c ≡ c'
    → p ≡ p'
    → ◌≡◌ {A = Document}
        (record { content = c; position = p })
        (record { content = c'; position = p' })
document_eq e f = λ i. record { content = e i; position = f i }

-- `__construct` with a string of less than 2 ^ 64 bytes makes a valid writer that users see as if
-- the string had been written to an empty one.
pub construct-put :
    (alloc : Allocator) (prefix : List ℕ)
    → length prefix < 2 ^ 64
    → (w : ByteBufferWriter) × (construct alloc (some prefix) ≡ ok w)
      × IsValid w
      × (view w ≡ put prefix empty)
unfolding construct put
construct-put alloc prefix small =
    let (w, made, content, used, offset, valid) =
      writer_init_properties_lem alloc prefix (length prefix) (length prefix) (omega arith) small in
    (
      w,
      made,
      valid (omega arith),
      document_eq (content ∙ take-length prefix ∙ (rw (drop-nil, append-nil)))
          (offset ∙ omega arith),
    )

-- A clone of a valid writer is made without a fault, is valid, and has the same content and offset.
pub writer_clone-view :
    (alloc : Allocator) {w : ByteBufferWriter}
    → IsValid w
    → (w' : ByteBufferWriter) × (writer_clone alloc w ≡ ok w') × IsValid w' × (view w' ≡ view w)
unfolding writer_clone
writer_clone-view alloc {w} v =
    let (w', made, content, used, offset, valid) =
      writer_init_properties_lem alloc w.buffer w.used w.offset (omega arith) (omega arith) in
    (w', made, valid v.offset_inside, document_eq content offset)

-- `setOffset` on a valid writer seeks an offset from 0 to the used length, and refuses any other
-- int with the writer unchanged: the bound is not the reserved length.
pub set_offset_lem :
    (w : ByteBufferWriter) (z : ℤ)
    → IsValid w
    → InRange true 64 z
    → let (outcome, w') = set_offset z w in
      ((pos 0 ≤ℤ z) × (z ≤ℤ pos w.used) × (outcome ≡ ok tt) × (view w' ≡ seek (wrap 64 z) (view w)))
      ⊎ (((z ≤ℤ negsuc 0) ⊎ (pos (suc w.used) ≤ℤ z))
          × (outcome ≡ throw offset_out_of_range)
          × (w' ≡ w))
unfolding set_offset seek
set_offset_lem w (pos n) v h = ground arith
set_offset_lem w (negsuc n) v h = ground arith

module _ (alloc : Allocator) {w : ByteBufferWriter} (v : IsValid w) where
  -- A reservation makes the block at least n bytes long and shows the users no change.
  pub reserve-view :
      (n : ℕ)
      → 0 < n
      → n < 2 ^ 63
      → let (outcome, w') = reserve alloc (pos n) w in
        (outcome ≡ ok tt) × (n ≤ w'.length) × (w.length ≤ w'.length) × (view w' ≡ view w)
  unfolding reserve
  reserve-view n positive small =
      let m : Region = record { buffer = w.buffer; length = w.length; offset = n % 2 ^ 64 } in
      let room : HasRoom m 0 = record { block = v.block; small = v.small; no_wrap = omega arith } in
      let grown = extended-HasRoom alloc m 0 room in
      (
        ground arith,
        ground (arith, grown),
        ground (arith, grown),
        ground (arith, extended_keeps alloc m 0 room w.used v.used_inside),
      )

  -- On a valid writer whose block is shorter than 2 ^ 63 bytes `reserve` of more than 0 bytes
  -- succeeds. It leaves a block of so many bytes as it is, and grows any other to twice its length
  -- or to what is asked for, whichever is more. It refuses any other int with the writer unchanged.
  -- Content and offset stay as they were.
  pub reserve_lem :
      (z : ℤ)
      → InRange true 64 z
      → w.length < 2 ^ 63
      → let (outcome, w') = reserve alloc z w in
        let n = wrap 64 z in
        (view w' ≡ view w)
        × (((z ≤ℤ pos 0) × (outcome ≡ throw length_not_positive) × (w' ≡ w))
            ⊎ ((pos 1 ≤ℤ z)
                × (outcome ≡ ok tt)
                × (w'.length ≡ (if leb n w.length then w.length else max (w.length * 2) n))))
  unfolding reserve extend_buffer
  reserve_lem (pos zero) h small = ground arith
  reserve_lem (negsuc n) h small = ground arith
  reserve_lem (pos (suc n)) h small =
      let (_, _, _, seen) = reserve-view (suc n) (omega arith) (omega arith) in (seen, ground arith)

  -- On a valid writer `trim` leaves a block of just the bytes in use, and shows its users no
  -- change.
  pub trim_lem : let w' = trim alloc w in (w'.length ≡ w.used) × (view w' ≡ view w)
  unfolding trim
  trim_lem = ground (arith, alloc.erealloc_keeps w.buffer w.used w.used)

-- `clear` empties the content, and keeps the block.
pub clear_lem :
    (w : ByteBufferWriter)
    → (view (clear w) ≡ empty) × ((clear w).length ≡ w.length) × ((clear w).buffer ≡ w.buffer)
unfolding clear
clear_lem w = (refl, refl, refl)

pub bytes_equal_iff : (xs ys : List ℕ) → (bytes_equal xs ys ≡ true) ↔ (xs ≡ ys)
bytes_equal_iff [] [] = (λ _. refl, λ _. refl)
bytes_equal_iff [] (y ∷ ys) = ground arith
bytes_equal_iff (x ∷ xs) [] = ground arith
bytes_equal_iff (x ∷ xs) (y ∷ ys) = ground (arith, bytes_equal_iff xs ys)

-- Two valid writers compare equal exactly when their users see the same content and offset,
-- whatever they have reserved.
pub writer_compare_objects_iff :
    {v w : ByteBufferWriter}
    → IsValid v
    → IsValid w
    → (writer_compare_objects v w ≡ ok 0) ↔ (view v ≡ view w)
unfolding writer_compare_objects
writer_compare_objects_iff {v} {w} p q =
    (same, λ e. equal (ap (λ (d : Document). d.content) e) (ap (λ (d : Document). d.position) e))
  where
    xs : List ℕ
    xs = take v.used v.buffer

    ys : List ℕ
    ys = take v.used w.buffer

    same : writer_compare_objects v w ≡ ok 0 → view v ≡ view w
    same h =
        let facts : (v.offset ≡ w.offset) × (v.used ≡ w.used) × (xs ≡ ys) = ground (
          arith,
          load_inside v.buffer 0 v.used,
          load_inside w.buffer 0 v.used,
          bytes_equal_iff xs ys,
        ) in
        document_eq (facts.2 ∙ ap (λ (n : ℕ). take n w.buffer) facts.1) facts.0

    equal :
        take v.used v.buffer ≡ take w.used w.buffer
        → v.offset ≡ w.offset
        → writer_compare_objects v w ≡ ok 0
    equal contents offsets =
        let used : v.used ≡ w.used = omega (
          arith,
          ap length contents,
          length-take v.used v.buffer (omega arith),
          length-take w.used w.buffer (omega arith),
        ) in
        ground (
          arith,
          load_inside v.buffer 0 v.used,
          load_inside w.buffer 0 v.used,
          (bytes_equal_iff xs ys).1 (contents ∙ ap (λ (n : ℕ). take n w.buffer) (sym used)),
        )
