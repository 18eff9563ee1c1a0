-- ===== src/Strings/Readers.antt =====
-- The handlers and methods that make a reader refer to a string, or give up its reference.
use mathlib.Core.Path.{subst}
use ext_encoding.Prelude.{ℕ, zero, suc, ◌+◌, ◌<◌, ◌≡◌, refl, ap, ◌∙◌, arith, List, [], ◌∷◌, ◌++◌}
use ext_encoding.Prelude.{Option, none, some, ◌==◌, false, Bool-cases, inl, inr}
use ext_encoding.Prelude.Int.{ℤ}
use ext_encoding.Prelude.Word.{wrap}
use ext_encoding.Zend.{ok}
use ext_encoding.Reader.{ByteBufferReader}
use ext_encoding.Objects.{Ptr, Handle, update}
use ext_encoding.Strings.{
  ZendString, ReaderObject, Request, counted, uncounted, get_reader, set_reader, count, new_reader,
  clone_reader, free_reader, construct_reader, unserialize_reader, read_object, make_string,
  empty_string, init_reader,
}
use ext_encoding.Strings.Counts.{
  one_at, refs, refs-append, refs-set_reader, get_reader-append, Counts, AllCount, referred,
  addref-AllCount, release-AllCount,
}
use ext_encoding.Strings.Balance.{
  total, IsInterned, IsBalanced, Works, reader_string, held_string, forget, counted-IsInterned,
  uncounted-IsInterned,
}

-- The references without the one of the object `h`.
abbrev pub without : Request → Handle → Ptr → ℕ
without r h q = r.held q + refs q (set_reader r.readers h none)

without-total :
    (r : Request) (h : Handle) (o : ReaderObject) (q : Ptr)
    → get_reader r.readers h ≡ some o
    → total r q ≡ without r h q + one_at o.buffer q
without-total r h o q e = omega (arith, refs-set_reader q r.readers h o none e)

-- `reader_init_properties` of an object whose reference was given up.
pub init_reader-Works :
    (r : Request) (h : Handle) (p : Ptr) (offset : ℕ) {o : ReaderObject} {s : ZendString}
    → get_reader r.readers h ≡ some o
    → AllCount r.strings (without r h)
    → IsInterned r.strings empty_string
    → r.strings p ≡ some s
    → Works (init_reader h p offset r)
init_reader-Works r h p offset {o} {s} e counts has_empty there =
    let new : ReaderObject = record { buffer = p; offset = offset } in
    let r' : Request = record r { readers = set_reader r.readers h (some new) } in
    let (ran, counts') = addref-AllCount p r' s (without r h) (total r') there counts (λ q. omega (
      arith,
      refs-set_reader q r.readers h o none e,
      refs-set_reader q r.readers h o (some new) e,
    )) in
    (
      record r' { strings = update r.strings p (counted s) },
      ran,
      record {
        counts = counts';
        has_empty = counted-IsInterned r.strings p empty_string s there has_empty;
      },
    )

module _ {r : Request} (balanced : IsBalanced r) where
  pub free_reader-Works :
      (h : Handle) {o : ReaderObject} → get_reader r.readers h ≡ some o → Works (free_reader h r)
  unfolding free_reader
  free_reader-Works h {o} e =
      let (s, there) = reader_string balanced h e in
      let (ran, counts) =
        release-AllCount o.buffer r s (total r) (without r h) there balanced.counts
          (λ q. without-total r h o q e) in
      (
        record r {
          strings = update r.strings o.buffer (uncounted s);
          readers = set_reader r.readers h none;
        },
        ground (arith, e, ran),
        record {
          counts = counts;
          has_empty =
              uncounted-IsInterned r.strings o.buffer empty_string s there balanced.has_empty;
        },
      )

  pub construct_reader-Works :
      (h : Handle) (p : Ptr) {o : ReaderObject}
      → get_reader r.readers h ≡ some o
      → 0 < r.held p
      → Works (construct_reader h p r)
  unfolding construct_reader
  construct_reader-Works h p {o} e held =
      let (s, there) = reader_string balanced h e in
      let (ran, counts) =
        release-AllCount o.buffer r s (total r) (without r h) there balanced.counts
          (λ q. without-total r h o q e) in
      let r' : Request = record r { strings = update r.strings o.buffer (uncounted s) } in
      let (t, found) = referred (r'.strings p) (without r h p) (counts p) (omega (arith, held)) in
      let (r'', ran', balanced') =
        init_reader-Works r' h p 0 e counts
          (uncounted-IsInterned r.strings o.buffer empty_string s there balanced.has_empty) found in
      (r'', ground (arith, e, ran, ran'), balanced')

  -- On an object whose string is interned, such as one that was just made, `__unserialize` has
  -- nothing to give up.
  pub unserialize_reader-Works :
      (h : Handle) (p : Ptr) (z : ℤ) {o : ReaderObject}
      → get_reader r.readers h ≡ some o
      → IsInterned r.strings o.buffer
      → 0 < r.held p
      → Works (unserialize_reader h p z r)
  unfolding unserialize_reader
  unserialize_reader-Works h p z {o} e interned held =
      let (t, found) = held_string balanced held in
      let (r', ran, balanced') =
        init_reader-Works r h p (wrap 64 z) e
          (forget r.strings (total r) (without r h) o.buffer interned balanced.counts
            (λ q. without-total r h o q e))
          balanced.has_empty found in
      (r', ground (arith, e, ran), balanced')

  pub new_reader-Works :
      (r' : Request) × (new_reader r ≡ ok r')
      × IsBalanced r'
      × (r'.readers ≡ r.readers ++ (some (record { buffer = empty_string; offset = 0 }) ∷ []))
      × (r'.held ≡ r.held)
  unfolding new_reader
  new_reader-Works =
      let new : ReaderObject = record { buffer = empty_string; offset = 0 } in
      let (s, there, interned) = balanced.has_empty in
      let r' : Request = record r { readers = r.readers ++ (some new ∷ []) } in
      let (ran, counts) =
        addref-AllCount empty_string r' s (total r) (total r') there balanced.counts
          (λ q. omega (arith, refs-append q r.readers (some new))) in
      (
        record r' { strings = update r.strings empty_string (counted s) },
        ran,
        record {
          counts = counts;
          has_empty =
              counted-IsInterned r.strings empty_string empty_string s there balanced.has_empty;
        },
        refl,
        refl,
      )

get_reader_longer :
    (xs : List (Option ReaderObject)) (y : Option ReaderObject) (h : Handle) {o : ReaderObject}
    → get_reader xs h ≡ some o
    → get_reader (xs ++ (y ∷ [])) h ≡ some o
get_reader_longer [] y h e = cc
get_reader_longer (x ∷ xs) y zero e = e
get_reader_longer (x ∷ xs) y (suc h) e = get_reader_longer xs y h e

module _ {r : Request} (balanced : IsBalanced r) where
  -- A clone refers to the string of the original; the empty string that it was made with needs not
  -- be given up.
  pub clone_reader-Works :
      (h : Handle) {o : ReaderObject} → get_reader r.readers h ≡ some o → Works (clone_reader h r)
  unfolding clone_reader
  clone_reader-Works h {o} e =
      let new : ReaderObject = record { buffer = empty_string; offset = 0 } in
      let (r', ran, balanced', readers, _) = new_reader-Works balanced in
      let last : Handle = count r.readers in
      let there : get_reader r'.readers last ≡ some new =
        ap (λ xs. get_reader xs last) readers ∙ get_reader-append r.readers (some new) in
      let source : get_reader r'.readers h ≡ some o =
        ap (λ xs. get_reader xs h) readers ∙ get_reader_longer r.readers (some new) h e in
      let (s, found) = reader_string balanced' h source in
      let (r'', ran', balanced'') =
        init_reader-Works r' last o.buffer o.offset there
          (forget r'.strings (total r') (without r' last) empty_string balanced'.has_empty
            balanced'.counts (λ q. without-total r' last new q there))
          balanced'.has_empty found in
      (r'', ground (arith, e, ran, ran'), balanced'')

  pub read_object-Works :
      {A : Type 0} (method : ByteBufferReader → A × ByteBufferReader) (h : Handle)
      {o : ReaderObject}
      → get_reader r.readers h ≡ some o
      → (s : ZendString) × (r' : Request) × (r.strings o.buffer ≡ some s)
        × (read_object method h r
            ≡ ok ((method (record { buffer = s.bytes; offset = o.offset })).0, r'))
        × IsBalanced r'
  unfolding read_object
  read_object-Works method h {o} e =
      let (s, there) = reader_string balanced h e in
      let reader : ByteBufferReader = (method (record { buffer = s.bytes; offset = o.offset })).1 in
      let moved : ReaderObject = record o { offset = reader.offset } in
      (
        s,
        record r { readers = set_reader r.readers h (some moved) },
        there,
        ground (arith, e, there),
        record {
          counts = λ q.
              subst (Counts (r.strings q))
                (omega (arith, refs-set_reader q r.readers h o (some moved) e)) (balanced.counts q);
          has_empty = balanced.has_empty;
        },
      )

  -- A new string at an address where none is.
  pub make_string-Works :
      (p : Ptr) (bytes : List ℕ) → r.strings p ≡ none → Works (make_string p bytes r)
  unfolding make_string
  make_string-Works p bytes free =
      let unused : total r p ≡ 0 = subst (λ o. Counts o (total r p)) free (balanced.counts p) in
      let (s, there, interned) = balanced.has_empty in
      (
        record r {
          strings =
              update r.strings p (some (record { bytes = bytes; refcount = 1; interned = false }));
          held = update r.held p 1;
        },
        refl,
        record {
          counts = λ q. elim (Bool-cases (q == p)) [
            | inl same ↦
                let at : q ≡ p = ground (arith, same) in
                let none_there : refs q r.readers ≡ 0 =
                  ap (λ i. refs i r.readers) at ∙ omega (arith, unused) in
                ground (arith, same, none_there)
            | inr other ↦ ground (arith, other, balanced.counts q)
          ];
          has_empty = (s, ground (arith, there, free), interned);
        },
      )
