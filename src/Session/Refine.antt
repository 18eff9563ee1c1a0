-- ===== src/Session/Refine.antt =====
-- Any sequence of calls on a writer has the outcomes and the visible state of the specification.
use ext_encoding.Prelude.{ℕ, ◌+◌, ◌^◌, ◌≤◌, ◌<◌, ◌≡◌, refl, arith, ap, ap₂}
use ext_encoding.Prelude.{List, [], ◌∷◌, length}
use ext_encoding.Prelude.{◌∙◌, All}
use ext_encoding.Prelude.Int.{pos, negsuc}
use ext_encoding.Zend.{Allocator, Result, ok}
use native.Mathlib.Decide.{dec_lt}
use ext_encoding.Spec.{Document, put, seek}
use ext_encoding.Serializers.Endian.{ByteOrder}
use ext_encoding.Writer.{ByteBufferWriter, set_offset, reserve, clear, trim}
use ext_encoding.Writer.Invariant.{IsValid, reserve-IsValid, trim-IsValid}
use ext_encoding.Writer.Refine.{view, write_byte_array-put, length-put, length-view}
use ext_encoding.Writer.Methods.{reserve-view, trim_lem}
use ext_encoding.Types.{zend_long, FloatCasts, zend_type, cast_value, zif_write_type}
use ext_encoding.Types.Encoding.{encode, reserved, write_type-Writes}
use ext_encoding.Types.Values.{IsZendValue, cast_value-Fits}
use ext_encoding.Types.RoundTrip.{zif_write_type-put}
use ext_encoding.Session.{
  Call, write, write_bytes, seek_to, reserve_bytes, trim_buffer, clear_buffer, step, run, spec_step,
  spec_run, cost, total_cost,
}

-- The arguments are PHP values: ints of 64 bits and a sign, floats of 64 bits.
abbrev pub IsCall : Call → Type 0
IsCall (write c z) = IsZendValue (zend_type c) z
IsCall (seek_to z) = IsZendValue zend_long z
IsCall (reserve_bytes z) = IsZendValue zend_long z
IsCall _ = Unit

abbrev pub content : Document → List ℕ
content d = d.content

-- What one call keeps, and how the used length grows.
abbrev pub StepRefines :
    Result (Unit {0}) × ByteBufferWriter → Result (Unit {0}) × Document → ℕ → Type 0
StepRefines (outcome, w) (outcome', d) bound =
    (outcome ≡ outcome') × IsValid w × (view w ≡ d) × (w.used ≤ bound)

put_refines :
    (bytes : List ℕ) (n : ℕ) {w : ByteBufferWriter} (r : Result (Unit {0}) × ByteBufferWriter)
    → IsValid w
    → length bytes ≤ n
    → (r.0 ≡ ok tt) × IsValid r.1 × (view r.1 ≡ put bytes (view w))
    → StepRefines r (ok tt, put bytes (view w)) (w.used + n)
put_refines bytes n {w} r v small (done, valid, seen) = (
  done,
  valid,
  seen,
  omega (
    arith,
    length-view valid,
    length-view v,
    ap (λ (d : Document). length d.content) seen,
    length-put bytes (view w) (omega (arith, length-view v)),
  ),
)

module _ (alloc : Allocator) (casts : FloatCasts) (native : ByteOrder) where
  pub step_refines :
      (call : Call) {w : ByteBufferWriter}
      → IsCall call
      → IsValid w
      → w.used + cost call < 2 ^ 64
      → StepRefines
          (step alloc casts native call w)
          (spec_step casts call (view w))
          (w.used + cost call)
  unfolding step spec_step
  step_refines (write c z) {w} value v room =
      put_refines (encode c (cast_value casts c z)) (reserved c)
        (zif_write_type alloc casts native c z w) v
        (write_type-Writes alloc native c (cast_value casts c z)
          (cast_value-Fits casts c z value)).fits
        (zif_write_type-put alloc casts native c z value v (omega arith))
  step_refines (write_bytes bytes) {w} value v room =
      put_refines bytes (length bytes) _ v (omega arith)
        (write_byte_array-put alloc bytes v (omega arith))
  step_refines (seek_to (pos n)) {w} value v room =
      unfold set_offset seek in ground (arith, length-view v)
  step_refines (seek_to (negsuc n)) {w} value v room =
      unfold set_offset in (refl, v, refl, omega arith)
  step_refines (reserve_bytes (pos n)) {w} value v room = elim (dec_lt 0 n) [
    | yes p ↦
        let (done, _, _, seen) = reserve-view alloc v n p (omega arith) in
        let valid = reserve-IsValid alloc (pos n) v in
        ground
          (arith, done, seen, valid, length-view v, length-view valid, ap length (ap content seen))
    | no p ↦ unfold reserve in ground arith
  ]
  step_refines (reserve_bytes (negsuc n)) {w} value v room =
      unfold reserve in (refl, v, refl, omega arith)
  step_refines trim_buffer {w} value v room =
      let (_, seen) = trim_lem alloc v in
      let valid = trim-IsValid alloc v in
      let bound : (trim alloc w).used ≤ w.used + 0 =
        omega (arith, length-view v, length-view valid, ap length (ap content seen)) in
      (refl, valid, seen, bound)
  step_refines clear_buffer {w} value v room =
      unfold clear in (refl, omega arith, refl, omega arith)

  -- Any sequence of writes, seeks, reservations, trims and clears on a valid writer, with PHP
  -- values as arguments, has the outcomes that the specification gives, none of them a fault,
  -- leaves the writer valid, and leaves the content and the offset of the specification. The used
  -- length and all that the calls can write together must be below 2 ^ 64.
  pub run_refines :
      (calls : List Call) {w : ByteBufferWriter}
      → All IsCall calls
      → IsValid w
      → w.used + total_cost calls < 2 ^ 64
      → let (outcomes, w') = run alloc casts native calls w in
        let (outcomes', d) = spec_run casts calls (view w) in
        (outcomes ≡ outcomes') × IsValid w' × (view w' ≡ d)
  unfolding run spec_run
  run_refines [] h v room = (refl, v, refl)
  run_refines (call ∷ calls) {w} h v room =
      let (same, valid, seen, bound) = step_refines call h.0 v (omega arith) in
      let (sames, valid', seen') = run_refines calls h.1 valid (omega (arith, bound)) in
      (
        ap₂ ◌∷◌ same (sames ∙ ap (λ (d : Document). (spec_run casts calls d).0) seen),
        valid',
        seen' ∙ ap (λ (d : Document). (spec_run casts calls d).1) seen,
      )
