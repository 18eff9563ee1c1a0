-- ===== src/Strings/Leak.antt =====
-- `__unserialize` on a reader that holds a string.
use mathlib.Core.Path.{subst}
use ext_encoding.Prelude.{◌+◌, ◌<◌, ◌≡◌, ◌≢◌, arith, some, false}
use ext_encoding.Prelude.Int.{ℤ}
use ext_encoding.Prelude.Word.{wrap}
use ext_encoding.Zend.{ok}
use ext_encoding.Objects.{Ptr, Handle, update}
use ext_encoding.Strings.{
  ZendString, ReaderObject, Request, addref, counted, get_reader, set_reader, unserialize_reader,
}
use ext_encoding.Strings.Counts.{refs, refs-set_reader, one_at, Counts, IsCount}
use ext_encoding.Strings.Balance.{total, IsBalanced, held_string}

-- In a request whose references are all counted, `__unserialize` with a string that the script
-- holds, on an object that refers to another string, one that is counted, succeeds and leaves that
-- other string as it was, with a count of one more than the references to it.
pub unserialize_reader_leaks :
    {r : Request} (h : Handle) (p : Ptr) (z : ℤ) {o : ReaderObject} {s : ZendString}
    → IsBalanced r
    → get_reader r.readers h ≡ some o
    → r.strings o.buffer ≡ some s
    → s.interned ≡ false
    → 0 < r.held p
    → p ≢ o.buffer
    → (r' : Request) × (unserialize_reader h p z r ≡ ok r')
      × (r'.strings o.buffer ≡ some s)
      × (s.refcount ≡ r'.held o.buffer + refs o.buffer r'.readers + 1)
unfolding unserialize_reader addref
unserialize_reader_leaks {r} h p z {o} {s} balanced e there counted_s held other =
    let (t, found) = held_string balanced held in
    let new : ReaderObject = record { buffer = p; offset = wrap 64 z } in
    let counts : IsCount s.interned s.refcount (total r o.buffer) =
      subst (λ x. Counts x (total r o.buffer)) there (balanced.counts o.buffer) in
    let exact : IsCount false s.refcount (total r o.buffer) =
      subst (λ b. IsCount b s.refcount (total r o.buffer)) counted_s counts in
    let here : one_at o.buffer o.buffer ≡ 1 = ground arith in
    let not_here : one_at p o.buffer ≡ 0 = ground arith in
    (
      record r {
        strings = update r.strings p (counted t);
        readers = set_reader r.readers h (some new);
      },
      ground (arith, e, found),
      ground (arith, there),
      omega (arith, exact.0, refs-set_reader o.buffer r.readers h o (some new) e, here, not_here),
    )
