-- ===== src/Strings/Reach.antt =====
-- Any sequence of events on readers and strings, from the start of a request.
use mathlib.Core.Path.{subst}
use ext_encoding.Prelude.{ℕ, ◌+◌, ◌<◌, ◌≡◌, refl, ap, sym, ◌∙◌, arith, List, [], none, some, ◌==◌}
use ext_encoding.Prelude.{if◌then◌else◌, true, false, Bool-cases, Option-cases, inl, inr, ◌⊎◌}
use ext_encoding.Prelude.Int.{ℤ}
use ext_encoding.Zend.{Result, ok, throw, fault, stuck}
use ext_encoding.Serializers.Endian.{ByteOrder}
use ext_encoding.Types.{Codec, FloatCasts, zif_read_type}
use ext_encoding.Reader.{ByteBufferReader, read_byte_array, set_offset}
use ext_encoding.Objects.{Ptr, Handle}
use ext_encoding.Strings.{
  ZendString, ReaderObject, Request, get_reader, new_reader, clone_reader, free_reader,
  construct_reader, unserialize_reader, return_string, read_object, make_string, drop_string,
  empty_string,
}
use ext_encoding.Strings.Counts.{refs, Counts, IsCount}
use ext_encoding.Strings.Balance.{
  total, IsInterned, IsBalanced, Works, return_string-Works, drop_string-Works,
}
use ext_encoding.Strings.Readers.{
  free_reader-Works, construct_reader-Works, unserialize_reader-Works, new_reader-Works,
  clone_reader-Works, read_object-Works, make_string-Works,
}

pub data Event : Type 0 where
  make : Ptr → List ℕ → Event
  drop : Ptr → Event
  create : Event
  clone_of destroy return_from : Handle → Event
  construct_on : Ptr → Handle → Event
  unserialize_on : Ptr → ℤ → Handle → Event
  read_with : Codec → Handle → Event
  read_bytes seek_in : ℤ → Handle → Event

abbrev pub request_of : {A : Type 0} → Result (A × Request) → Result Request
request_of (ok (a, r)) = ok r
request_of (throw e) = throw e
request_of fault = fault
request_of stuck = stuck

unfoldable pub exec_event : FloatCasts → ByteOrder → Event → Request → Result Request
exec_event casts native (make p bytes) r = make_string p bytes r
exec_event casts native (drop p) r = drop_string p r
exec_event casts native create r = new_reader r
exec_event casts native (clone_of h) r = clone_reader h r
exec_event casts native (destroy h) r = free_reader h r
exec_event casts native (return_from h) r = return_string h r
exec_event casts native (construct_on p h) r = construct_reader h p r
exec_event casts native (unserialize_on p z h) r = unserialize_reader h p z r
exec_event casts native (read_with c h) r =
    request_of (read_object (λ reader. zif_read_type casts native c reader) h r)
exec_event casts native (read_bytes z h) r = request_of (read_object (read_byte_array z) h r)
exec_event casts native (seek_in z h) r = request_of (read_object (set_offset z) h r)

abbrev pub IsThere : Request → Handle → Type 0
IsThere r h = (o : ReaderObject) × (get_reader r.readers h ≡ some o)

-- The engine calls the handlers of live objects, an argument is a string that the caller refers to,
-- a new string has an address of its own, and `__unserialize` comes on an object whose string is
-- interned, as that of a new object is.
abbrev pub IsLegal : Event → Request → Type 0
IsLegal (make p bytes) r = r.strings p ≡ none
IsLegal (drop p) r = 0 < r.held p
IsLegal create r = Unit
IsLegal (clone_of h) r = IsThere r h
IsLegal (destroy h) r = IsThere r h
IsLegal (return_from h) r = IsThere r h
IsLegal (construct_on p h) r = IsThere r h × (0 < r.held p)
IsLegal (unserialize_on p z h) r =
    (o : ReaderObject) × (get_reader r.readers h ≡ some o)
    × IsInterned r.strings o.buffer
    × (0 < r.held p)
IsLegal (read_with c h) r = IsThere r h
IsLegal (read_bytes z h) r = IsThere r h
IsLegal (seek_in z h) r = IsThere r h

-- A request starts with the empty string, which is interned.
abbrev pub start : Request
start = record {
  strings = λ p.
      if p == empty_string
      then some (record { bytes = []; refcount = 1; interned = true })
      else none;
  readers = [];
  held = λ p. 0;
}

start-IsBalanced : IsBalanced start
start-IsBalanced = record {
  counts = λ q. ground arith;
  has_empty = (record { bytes = []; refcount = 1; interned = true }, refl, refl);
}

method-Works :
    {A : Type 0} (method : ByteBufferReader → A × ByteBufferReader) (h : Handle) {r : Request}
    {o : ReaderObject}
    → IsBalanced r
    → get_reader r.readers h ≡ some o
    → Works (request_of (read_object method h r))
method-Works method h b there =
    let (s, r', _, ran, balanced) = read_object-Works b method h there in
    (r', ap request_of ran, balanced)

module _ (casts : FloatCasts) (native : ByteOrder) where
  exec_event-Works :
      (event : Event) {r : Request}
      → IsBalanced r
      → IsLegal event r
      → Works (exec_event casts native event r)
  unfolding exec_event
  exec_event-Works (make p bytes) b legal = make_string-Works b p bytes legal
  exec_event-Works (drop p) b legal = drop_string-Works b legal
  exec_event-Works create b legal =
      let (r', ran, balanced, _, _) = new_reader-Works b in (r', ran, balanced)
  exec_event-Works (clone_of h) b (o, there) = clone_reader-Works b h there
  exec_event-Works (destroy h) b (o, there) = free_reader-Works b h there
  exec_event-Works (return_from h) b (o, there) = return_string-Works b h there
  exec_event-Works (construct_on p h) b ((o, there), held) = construct_reader-Works b h p there held
  exec_event-Works (unserialize_on p z h) b (o, there, interned, held) =
      unserialize_reader-Works b h p z there interned held
  exec_event-Works (read_with c h) b (o, there) =
      method-Works (λ reader. zif_read_type casts native c reader) h b there
  exec_event-Works (read_bytes z h) b (o, there) = method-Works (read_byte_array z) h b there
  exec_event-Works (seek_in z h) b (o, there) = method-Works (set_offset z) h b there

  -- The requests that legal events lead to.
  pub data Reach : Request → Type 0 where
    here : Reach start
    next :
        (r r' : Request) (event : Event)
        → Reach r
        → IsLegal event r
        → exec_event casts native event r ≡ ok r'
        → Reach r'

module _ {casts : FloatCasts} {native : ByteOrder} where
  pub Reach-IsBalanced : {r : Request} → Reach casts native r → IsBalanced r
  Reach-IsBalanced here = start-IsBalanced
  Reach-IsBalanced (next r r' event reach legal ran) =
      let (r'', ran', balanced) =
        exec_event-Works casts native event (Reach-IsBalanced reach) legal in
      let both : ok r'' ≡ ok r' = sym ran' ∙ ran in
      let same : r'' ≡ r' = cc in subst IsBalanced same balanced

  -- In any request that legal events lead to from its start, a legal event succeeds, so that no
  -- string is used or released after it was freed, and leaves all references counted. The events
  -- make and drop strings of the script, and make, clone, construct, unserialize, read and free
  -- readers. They are legal if the objects are there, an argument is a string that the script
  -- refers to, a new string has a free address, and `__unserialize` is called on an object whose
  -- string is interned.
  pub Reach-Works :
      (event : Event) {r : Request}
      → Reach casts native r
      → IsLegal event r
      → Works (exec_event casts native event r)
  Reach-Works event reach legal = exec_event-Works casts native event (Reach-IsBalanced reach) legal

  -- In any request that legal events lead to from its start, of any address: an interned string
  -- stands there, or no string does and nothing refers to it, or a string does whose reference
  -- count is the number of references that objects and the script have to it, at least one. An
  -- event is legal if the engine calls the handler of a live object, an argument is a string that
  -- the caller refers to, a new string has an address of its own, and `__unserialize` comes on an
  -- object whose string is interned, as that of a new object is. On any other string
  -- `__unserialize` leaves a count that is one too many, and nothing is said here of what follows.
  pub Reach-Counts :
      {r : Request} (p : Ptr)
      → Reach casts native r
      → IsInterned r.strings p
        ⊎ (((r.strings p ≡ none) × (r.held p + refs p r.readers ≡ 0))
            ⊎ ((s : ZendString) × (r.strings p ≡ some s)
                × (s.refcount ≡ r.held p + refs p r.readers)
                × (0 < r.held p + refs p r.readers)))
  Reach-Counts {r} p reach =
      let counts : Counts (r.strings p) (total r p) = (Reach-IsBalanced reach).counts p in
      elim (Option-cases (r.strings p)) [
        | inl free ↦ inr (inl (free, subst (λ o. Counts o (total r p)) free counts))
        | inr (s, there) ↦
            let counts' : IsCount s.interned s.refcount (total r p) =
              subst (λ o. Counts o (total r p)) there counts in
            elim (Bool-cases s.interned) [
              | inl interned ↦ inl (s, there, interned)
              | inr counted ↦
                  let n : IsCount false s.refcount (total r p) =
                    subst (λ b. IsCount b s.refcount (total r p)) counted counts' in
                  inr (inr (s, there, n.0, n.1))
            ]
      ]
