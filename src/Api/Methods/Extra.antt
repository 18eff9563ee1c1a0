-- ===== src/Api/Methods/Extra.antt =====
-- Arguments for methods that take none.
use ext_encoding.Prelude.{◌≡◌, refl, List, ◌∷◌, some}
use ext_encoding.Zend.{Allocator, throw, argument_count}
use ext_encoding.Spec.{empty}
use ext_encoding.Writer.{ByteBufferWriter, clear}
use ext_encoding.Writer.Methods.{clear_lem}
use ext_encoding.Writer.Refine.{view}
use ext_encoding.Objects.{Handle, update}
use ext_encoding.Api.Arguments.{Argument, Coercions}
use ext_encoding.Api.Live.{Live, on_writer}
use ext_encoding.Api.Methods.{call_writer, writer_method}

-- `clear` of a writer, called by its name with an argument or more, throws ArgumentCountError, and
-- yet leaves the writer empty to its users. No other object changes.
pub call_writer_clear :
    (alloc : Allocator) (coercions : Coercions) (h : Handle) (a : Argument) (args : List Argument)
    (live : Live) (w : ByteBufferWriter)
    → live.writers h ≡ some w
    → (w' : ByteBufferWriter) × (call_writer coercions alloc "clear" h (a ∷ args) live
        ≡ (throw argument_count, record live { writers = update live.writers h (some w') }))
      × (view w' ≡ empty)
unfolding call_writer writer_method
call_writer_clear alloc coercions h a args live w found =
    (clear w, rw (call_writer, on_writer, found) refl, (clear_lem w).0)
