-- ===== src/Api/Script.antt =====
-- A script: calls by name on the objects that it holds, and the operations of the engine on these.
pub mod Safe
use Prim.Native.String.{String}
use ext_encoding.Prelude.{ℕ, List, [], ◌∷◌, Option, none, some}
use ext_encoding.Zend.{Allocator, Result, ok, throw, fault, stuck}
use ext_encoding.Serializers.Endian.{ByteOrder}
use ext_encoding.Reader.{ByteBufferReader, reader_new, reader_clone}
use ext_encoding.Writer.{ByteBufferWriter, writer_new, writer_clone}
use ext_encoding.Types.{FloatCasts}
use ext_encoding.Types.Tables.{ClassName}
use ext_encoding.Objects.{Handle, update}
use ext_encoding.Api.Arguments.{Argument, Coercions, Value, void}
use ext_encoding.Api.Live.{Live}
use ext_encoding.Api.Static.{call_static}
use ext_encoding.Api.Methods.{call_reader, call_writer}

pub data Statement : Type 0 where
  make_reader make_writer : Handle → Statement
  copy_reader copy_writer : Handle → Handle → Statement
  static_call : ClassName → String → List Argument → Statement
  reader_call writer_call : String → Handle → List Argument → Statement

-- A writer that is made, in the variable `h`.
abbrev pub place_writer : Result ByteBufferWriter → Handle → Live → Result Value × Live
place_writer (ok w) h live = (ok void, record live { writers = update live.writers h (some w) })
place_writer (throw e) h live = (throw e, live)
place_writer fault h live = (fault, live)
place_writer stuck h live = (stuck, live)

abbrev pub place_reader : ByteBufferReader → Handle → Live → Result Value × Live
place_reader r h live = (ok void, record live { readers = update live.readers h (some r) })

module _ (alloc : Allocator) (casts : FloatCasts) (native : ByteOrder) (coercions : Coercions)
    (stack : List ℕ) where
  unfoldable pub run_statement : Statement → Live → Result Value × Live
  run_statement (make_reader h) live = place_reader reader_new h live
  run_statement (make_writer h) live = place_writer (writer_new alloc) h live
  run_statement (copy_reader source h) live = elim (live.readers source) [
    | none ↦ (fault, live)
    | some r ↦ place_reader (reader_clone r) h live
  ]
  run_statement (copy_writer source h) live = elim (live.writers source) [
    | none ↦ (fault, live)
    | some w ↦ place_writer (writer_clone alloc w) h live
  ]
  run_statement (static_call class name args) live =
      call_static alloc casts native coercions stack class name args live
  run_statement (reader_call name h args) live = call_reader coercions name h args live
  run_statement (writer_call name h args) live = call_writer coercions alloc name h args live

  unfoldable pub run_script : List Statement → Live → List (Result Value) × Live
  run_script [] live = ([], live)
  run_script (statement ∷ statements) live =
      let (result, live') = run_statement statement live in
      let (results, live'') = run_script statements live' in (result ∷ results, live'')
