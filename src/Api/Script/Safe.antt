-- ===== src/Api/Script/Safe.antt =====
-- Scripts on valid objects.
use Prim.Native.String.{String}
use mathlib.Core.Path.{subst}
use ext_encoding.Prelude.{ℕ, ◌^◌, ◌<◌, ◌≡◌, arith, List, [], ◌∷◌, some, All}
use ext_encoding.Prelude.{Option-cases, inl, inr, length}
use ext_encoding.Zend.{Allocator, ok}
use ext_encoding.Serializers.Contract.{IsSettled}
use ext_encoding.Serializers.Endian.{ByteOrder}
use ext_encoding.Reader.{ByteBufferReader, reader_new, reader_clone}
use ext_encoding.Writer.{ByteBufferWriter, writer_new}
use ext_encoding.Writer.Invariant.{IsValid, writer_init_properties_lem}
use ext_encoding.Writer.Methods.{writer_clone-view}
use ext_encoding.Types.{FloatCasts, stack_size}
use ext_encoding.Objects.{Handle}
use ext_encoding.Api.Arguments.{Argument, Coercions}
use ext_encoding.Api.Live.{Live, on_reader, on_writer}
use ext_encoding.Api.Live.Valid.{
  AreValid, IsReference, IsSafe, set_reader-AreValid, set_writer-AreValid,
}
use ext_encoding.Api.Static.Laws.{call_static-IsSafe}
use ext_encoding.Api.Methods.{find_entry, reader_methods, writer_methods, call_reader, call_writer}
use ext_encoding.Api.Methods.Keeps.{FitsReader, FitsWriter}
use ext_encoding.Api.Methods.Readers.{reader_method-IsSafe}
use ext_encoding.Api.Methods.Writers.{writer_method-IsSafe}
use ext_encoding.Api.Script.{
  Statement, make_reader, make_writer, copy_reader, copy_writer, static_call, reader_call,
  writer_call, run_statement, run_script,
}

-- A statement refers to objects that are there, a writer's offset is below 2 ^ 63, and what
-- `__unserialize` is given has its offset in its string.
abbrev pub IsAllowed : Statement → Live → Type 0
IsAllowed (make_reader h) live = Unit
IsAllowed (make_writer h) live = Unit
IsAllowed (copy_reader source h) live = (r : ByteBufferReader) × (live.readers source ≡ some r)
IsAllowed (copy_writer source h) live = (w : ByteBufferWriter) × (live.writers source ≡ some w)
IsAllowed (static_call class name args) live = All (IsReference live) args
IsAllowed (reader_call name h args) live =
    (r : ByteBufferReader) × (live.readers h ≡ some r)
    × FitsReader (find_entry reader_methods name) args
IsAllowed (writer_call name h args) live =
    (w : ByteBufferWriter) × (live.writers h ≡ some w)
    × (w.offset < 2 ^ 63)
    × FitsWriter (find_entry writer_methods name) args

module _ (alloc : Allocator) (casts : FloatCasts) (native : ByteOrder) (coercions : Coercions)
    (stack : List ℕ) where
  -- Each statement is allowed in the state that those before it leave.
  abbrev pub AreAllowed : List Statement → Live → Type 0
  AreAllowed [] live = Unit
  AreAllowed (statement ∷ statements) live =
      IsAllowed statement live
      × AreAllowed statements (run_statement alloc casts native coercions stack statement live).1

writer_new-IsValid :
    (alloc : Allocator) → (w : ByteBufferWriter) × (writer_new alloc ≡ ok w) × IsValid w
unfolding writer_new
writer_new-IsValid alloc =
    let (w, made, _, _, _, valid) =
      writer_init_properties_lem alloc [] 0 0 (omega arith) (omega arith) in
    (w, made, valid (omega arith))

module _ (alloc : Allocator) (casts : FloatCasts) (native : ByteOrder) (coercions : Coercions)
    (stack : List ℕ) (size : length stack ≡ stack_size) where
  call_reader-IsSafe :
      (name : String) (h : Handle) (args : List Argument) {live : Live} (r : ByteBufferReader)
      → AreValid live
      → live.readers h ≡ some r
      → FitsReader (find_entry reader_methods name) args
      → IsSafe (call_reader coercions name h args live)
  unfolding call_reader
  call_reader-IsSafe name h args {live} r valid found fit =
      elim (Option-cases (find_entry reader_methods name)) [
        | inl missing ↦ rw (missing, call_reader) (tt, valid)
        | inr (m, entry) ↦
            let (settled, v) =
              reader_method-IsSafe coercions m args (subst (λ o. FitsReader o args) entry fit)
                (valid.readers h r found) in
            rw (entry, call_reader, on_reader, found) (settled, set_reader-AreValid h valid v)
      ]

  call_writer-IsSafe :
      (name : String) (h : Handle) (args : List Argument) {live : Live} (w : ByteBufferWriter)
      → AreValid live
      → live.writers h ≡ some w
      → w.offset < 2 ^ 63
      → FitsWriter (find_entry writer_methods name) args
      → IsSafe (call_writer coercions alloc name h args live)
  unfolding call_writer
  call_writer-IsSafe name h args {live} w valid found room fit =
      elim (Option-cases (find_entry writer_methods name)) [
        | inl missing ↦ rw (missing, call_writer) (tt, valid)
        | inr (m, entry) ↦
            let (settled, v) =
              writer_method-IsSafe coercions alloc m args (subst (λ o. FitsWriter o args) entry fit)
                (valid.writers h w found) room in
            rw (entry, call_writer, on_writer, found) (settled, set_writer-AreValid h valid v)
      ]

  -- An allowed statement settles and leaves the objects valid.
  pub run_statement-IsSafe :
      (statement : Statement) {live : Live}
      → AreValid live
      → IsAllowed statement live
      → IsSafe (run_statement alloc casts native coercions stack statement live)
  unfolding run_statement
  run_statement-IsSafe (make_reader h) {live} valid allowed = (
    tt,
    set_reader-AreValid h valid
        (unfold reader_new in record { small = omega arith; inside = omega arith }),
  )
  run_statement-IsSafe (make_writer h) {live} valid allowed =
      let (w, made, v) = writer_new-IsValid alloc in rw made (tt, set_writer-AreValid h valid v)
  run_statement-IsSafe (copy_reader source h) {live} valid (r, found) =
      rw (found, run_statement)
        (tt, set_reader-AreValid h valid (unfold reader_clone in valid.readers source r found))
  run_statement-IsSafe (copy_writer source h) {live} valid (w, found) =
      let (w', made, v, _) = writer_clone-view alloc (valid.writers source w found) in
      rw (found, made, run_statement) (tt, set_writer-AreValid h valid v)
  run_statement-IsSafe (static_call class name args) {live} valid allowed =
      call_static-IsSafe alloc casts native coercions stack size valid class name args allowed
  run_statement-IsSafe (reader_call name h args) {live} valid (r, found, fit) =
      call_reader-IsSafe name h args r valid found fit
  run_statement-IsSafe (writer_call name h args) {live} valid (w, found, room, fit) =
      call_writer-IsSafe name h args w valid found room fit

  -- Take a script that never calls `__unserialize` with a table whose two properties are a string
  -- and an offset outside it, or a string of 2 ^ 63 bytes or more. It starts with valid objects,
  -- and makes objects, clones them and calls static functions and the other methods by any names
  -- with any arguments. The objects that a statement refers to are there, the offset of a writer
  -- among them is below 2 ^ 63, and the stack of `pack` has 16 bytes. Then each statement returns
  -- or throws, none faults, and every object is left valid.
  pub run_script-IsSafe :
      (statements : List Statement) {live : Live}
      → AreValid live
      → AreAllowed alloc casts native coercions stack statements live
      → let (results, live') = run_script alloc casts native coercions stack statements live in
        All IsSettled results × AreValid live'
  unfolding run_script
  run_script-IsSafe [] valid allowed = (tt, valid)
  run_script-IsSafe (statement ∷ statements) valid (allowed, later) =
      let (settled, valid') = run_statement-IsSafe statement valid allowed in
      let (all_settled, valid'') = run_script-IsSafe statements valid' later in
      ((settled, all_settled), valid'')
