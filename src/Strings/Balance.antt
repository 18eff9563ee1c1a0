-- ===== src/Strings/Balance.antt =====
-- Requests in which every reference to a string is counted.
use mathlib.Core.Path.{subst}
use ext_encoding.Prelude.{ℕ, suc, ◌+◌, ◌-◌, ◌<◌, ◌≡◌, refl, ap, sym, ◌∙◌, arith}
use ext_encoding.Prelude.{Option, some, ◌==◌, true, Bool-cases, inl, inr}
use ext_encoding.Zend.{Result, ok}
use ext_encoding.Objects.{Ptr, Handle, update}
use ext_encoding.Strings.{
  ZendString, ReaderObject, Request, counted, uncounted, get_reader, return_string, drop_string,
  empty_string,
}
use ext_encoding.Strings.Counts.{
  one_at, refs, refs-get_reader, Counts, IsCount, AllCount, referred, addref-AllCount,
  release-AllCount,
}

abbrev pub total : Request → Ptr → ℕ
total r q = r.held q + refs q r.readers

abbrev pub IsInterned : (Ptr → Option ZendString) → Ptr → Type 0
IsInterned strings p = (s : ZendString) × (strings p ≡ some s) × (s.interned ≡ true)

pub record IsBalanced (r : Request) : Type 0 where
  pub counts : AllCount r.strings (total r)
  pub has_empty : IsInterned r.strings empty_string

-- An interned string may have any number of references.
pub forget :
    (strings : Ptr → Option ZendString) (n m : Ptr → ℕ) (p : Ptr)
    → IsInterned strings p
    → AllCount strings n
    → ((q : Ptr) → n q ≡ m q + one_at p q)
    → AllCount strings m
forget strings n m p (s, there, interned) h less q = elim (Bool-cases (q == p)) [
  | inl same ↦
      let at : q ≡ p = ground (arith, same) in
      let found : strings q ≡ some s = ap strings at ∙ there in
      rw found (subst (λ b. IsCount b s.refcount (m q)) (sym interned) tt)
  | inr other ↦
      let sum : n q ≡ m q = ground (arith, other, less q) in subst (Counts (strings q)) sum (h q)
]

-- Interned strings stay as they are.
update-IsInterned :
    (strings : Ptr → Option ZendString) (p e : Ptr) (s : ZendString) (y : Option ZendString)
    → strings p ≡ some s
    → (s.interned ≡ true → y ≡ some s)
    → IsInterned strings e
    → IsInterned (update strings p y) e
update-IsInterned strings p e s y there same_string (t, found, interned) =
    elim (Bool-cases (e == p)) [
      | inl same ↦
          let at : e ≡ p = ground (arith, same) in
          let both : some t ≡ some s = sym found ∙ (ap strings at ∙ there) in
          let is : t ≡ s = cc in
          let interned_s : s.interned ≡ true =
            ap (λ (x : ZendString). x.interned) (sym is) ∙ interned in
          (s, ground (arith, same, same_string interned_s), interned_s)
      | inr other ↦ (t, ground (arith, other, found), interned)
    ]

pub counted-IsInterned :
    (strings : Ptr → Option ZendString) (p e : Ptr) (s : ZendString)
    → strings p ≡ some s
    → IsInterned strings e
    → IsInterned (update strings p (counted s)) e
counted-IsInterned strings p e s there h =
    update-IsInterned strings p e s (counted s) there (λ i. rw i refl) h

pub uncounted-IsInterned :
    (strings : Ptr → Option ZendString) (p e : Ptr) (s : ZendString)
    → strings p ≡ some s
    → IsInterned strings e
    → IsInterned (update strings p (uncounted s)) e
uncounted-IsInterned strings p e s there h =
    update-IsInterned strings p e s (uncounted s) there (λ i. rw i refl) h

-- A call succeeds, and leaves the references counted.
abbrev pub Works : Result Request → Type 0
Works result = (r : Request) × (result ≡ ok r) × IsBalanced r

module _ {r : Request} (balanced : IsBalanced r) where
  pub reader_string :
      (h : Handle) {o : ReaderObject}
      → get_reader r.readers h ≡ some o
      → (s : ZendString) × (r.strings o.buffer ≡ some s)
  reader_string h {o} e =
      referred (r.strings o.buffer) (total r o.buffer) (balanced.counts o.buffer)
        (omega (arith, refs-get_reader r.readers h o e))

  pub held_string : {p : Ptr} → 0 < r.held p → (s : ZendString) × (r.strings p ≡ some s)
  held_string {p} e = referred (r.strings p) (total r p) (balanced.counts p) (omega (arith, e))

  pub return_string-Works :
      (h : Handle) {o : ReaderObject} → get_reader r.readers h ≡ some o → Works (return_string h r)
  unfolding return_string
  return_string-Works h {o} e =
      let (s, there) = reader_string h e in
      let held' : Ptr → ℕ = update r.held o.buffer (suc (r.held o.buffer)) in
      let (ran, counts) =
        addref-AllCount o.buffer r s (total r) (λ q. held' q + refs q r.readers) there
          balanced.counts (λ q. ground arith) in
      (
        record r { strings = update r.strings o.buffer (counted s); held = held' },
        ground (arith, e, ran),
        record {
          counts = counts;
          has_empty = counted-IsInterned r.strings o.buffer empty_string s there balanced.has_empty;
        },
      )

  pub drop_string-Works : {p : Ptr} → 0 < r.held p → Works (drop_string p r)
  unfolding drop_string
  drop_string-Works {p} e =
      let (s, there) = held_string e in
      let held' : Ptr → ℕ = update r.held p (r.held p - 1) in
      let (ran, counts) =
        release-AllCount p r s (total r) (λ q. held' q + refs q r.readers) there balanced.counts
          (λ q. ground arith) in
      (
        record r { strings = update r.strings p (uncounted s); held = held' },
        ground (arith, ran),
        record {
          counts = counts;
          has_empty = uncounted-IsInterned r.strings p empty_string s there balanced.has_empty;
        },
      )
