-- ===== src/Tests/Strings.antt =====
-- Strings of a request, from their creation to their release.
use ext_encoding.Prelude.{◌+◌, ◌<◌, ◌≡◌, refl, arith, [], ◌∷◌, none, some, false}
use ext_encoding.Prelude.{◌⊎◌}
use ext_encoding.Prelude.Int.{pos}
use ext_encoding.Zend.{ok}
use ext_encoding.Serializers.Endian.{little_endian}
use ext_encoding.Strings.{
  ZendString, ReaderObject, Request, addref, release, new_reader, clone_reader, free_reader,
  construct_reader, unserialize_reader, make_string, drop_string,
}
use ext_encoding.Strings.Counts.{refs}
use ext_encoding.Strings.Balance.{IsInterned, IsBalanced, Works}
use ext_encoding.Strings.Reach.{
  Event, make, drop, create, construct_on, clone_of, destroy, exec_event, start, Reach, here, next,
  Reach-Works, Reach-Counts, Reach-IsBalanced,
}
use ext_encoding.Strings.Leak.{unserialize_reader_leaks}
use ext_encoding.Tests.Samples.{low_bits}

-- A string with two readers on it, the second a clone; the script has dropped its own reference, and
-- the first reader is freed.
abbrev after_event : Event → Request → Request
after_event event r = elim (exec_event low_bits little_endian event r) [ ok r' ↦ r' | _ ↦ r ]

abbrev r1 : Request
r1 = after_event (make 2 (7 ∷ 8 ∷ [])) start

abbrev r2 : Request
r2 = after_event create r1

abbrev r3 : Request
r3 = after_event (construct_on 2 0) r2

abbrev r4 : Request
r4 = after_event (drop 2) r3

abbrev r5 : Request
r5 = after_event (clone_of 0) r4

abbrev r6 : Request
r6 = after_event (destroy 0) r5

reached : Reach low_bits little_endian r6
unfolding exec_event make_string new_reader construct_reader drop_string clone_reader free_reader
    addref release
reached =
    next r5 r6 (destroy 0)
      (next r4 r5 (clone_of 0)
        (next r3 r4 (drop 2)
          (next r2 r3 (construct_on 2 0)
            (next r1 r2 create (next start r1 (make 2 (7 ∷ 8 ∷ [])) here refl refl) tt refl)
            ((_, refl), omega arith) refl)
          (omega arith) refl)
        (_, refl) refl)
      (_, refl) refl

Reach-Works_example : Works (exec_event low_bits little_endian (destroy 1) r6)
unfolding exec_event make_string new_reader construct_reader drop_string clone_reader free_reader
    addref release
Reach-Works_example = Reach-Works (destroy 1) reached (_, refl)

Reach-Counts_example :
    IsInterned r6.strings 2
    ⊎ (((r6.strings 2 ≡ none) × (r6.held 2 + refs 2 r6.readers ≡ 0))
        ⊎ ((s : ZendString) × (r6.strings 2 ≡ some s)
            × (s.refcount ≡ r6.held 2 + refs 2 r6.readers)
            × (0 < r6.held 2 + refs 2 r6.readers)))
Reach-Counts_example = Reach-Counts 2 reached

-- A second string is unserialized into the reader of the first.
abbrev two_strings : Request
two_strings = after_event (make 3 (9 ∷ [])) r3

two_strings-IsBalanced : IsBalanced two_strings
unfolding exec_event make_string new_reader construct_reader addref release
two_strings-IsBalanced = Reach-IsBalanced {casts = low_bits} {native = little_endian} (
    next r3 two_strings (make 3 (9 ∷ []))
      (next r2 r3 (construct_on 2 0)
        (next r1 r2 create (next start r1 (make 2 (7 ∷ 8 ∷ [])) here refl refl) tt refl)
        ((_, refl), omega arith) refl)
      refl refl)

unserialize_reader_leaks_example :
    let o : ReaderObject = record { buffer = 2; offset = 0 } in
    let s : ZendString = record { bytes = 7 ∷ 8 ∷ []; refcount = 2; interned = false } in
    (r' : Request) × (unserialize_reader 0 3 (pos 1) two_strings ≡ ok r')
    × (r'.strings 2 ≡ some s)
    × (2 ≡ r'.held 2 + refs 2 r'.readers + 1)
unfolding exec_event make_string new_reader construct_reader addref release
unserialize_reader_leaks_example =
    unserialize_reader_leaks 0 3 (pos 1) two_strings-IsBalanced refl refl refl (omega arith)
      (λ e. omega (arith, e))
