-- ===== src/Api/Live.antt =====
-- The objects of a script, and functions on one of them.
pub mod Valid
use ext_encoding.Prelude.{Option, none, some}
use ext_encoding.Zend.{Result, fault, map_result}
use ext_encoding.Reader.{ByteBufferReader}
use ext_encoding.Writer.{ByteBufferWriter}
use ext_encoding.Objects.{Handle, update}
use ext_encoding.Api.Arguments.{Value}

-- The objects of a script.
pub record Live : Type 0 where
  pub readers : Handle → Option ByteBufferReader
  pub writers : Handle → Option ByteBufferWriter

-- A function on the reader or the writer that an argument refers to.
abbrev pub on_reader :
    {A : Type 0}
    → Handle
    → Live
    → (ByteBufferReader → Result A × ByteBufferReader)
    → Result A × Live
on_reader h live f = elim (live.readers h) [
  | none ↦ (fault, live)
  | some r ↦
      let (result, r') = f r in (result, record live { readers = update live.readers h (some r') })
]

abbrev pub on_writer :
    {A : Type 0}
    → Handle
    → Live
    → (ByteBufferWriter → Result A × ByteBufferWriter)
    → Result A × Live
on_writer h live f = elim (live.writers h) [
  | none ↦ (fault, live)
  | some w ↦
      let (result, w') = f w in (result, record live { writers = update live.writers h (some w') })
]

abbrev pub returns : {A S : Type 0} → (A → Value) → Result A × S → Result Value × S
returns f (result, s) = (map_result f result, s)
