-- ===== src/Strings/Counts.antt =====
-- How many objects refer to a string, and a reference count that agrees with a number of references.
use mathlib.Core.Path.{subst}
use ext_encoding.Prelude.{
  ℕ, zero, suc, ◌+◌, ◌≤◌, ◌<◌, ◌≡◌, refl, ap, ◌∙◌, arith, List, [], ◌∷◌, ◌++◌,
}
use ext_encoding.Prelude.{
  Option, none, some, ◌==◌, if◌then◌else◌, Bool, true, false, Bool-cases, inl, inr,
}
use ext_encoding.Zend.{ok}
use ext_encoding.Objects.{Ptr, Handle, update}
use ext_encoding.Strings.{
  ZendString, ReaderObject, Request, counted, uncounted, addref, release, get_reader, set_reader,
  count,
}

abbrev pub one_at : Ptr → Ptr → ℕ
one_at p q = if q == p then 1 else 0

abbrev pub refs_of : Ptr → Option ReaderObject → ℕ
refs_of q none = 0
refs_of q (some o) = one_at o.buffer q

abbrev pub refs : Ptr → List (Option ReaderObject) → ℕ
refs q [] = 0
refs q (x ∷ xs) = refs_of q x + refs q xs

pub refs-append :
    (q : Ptr) (xs : List (Option ReaderObject)) (y : Option ReaderObject)
    → refs q (xs ++ (y ∷ [])) ≡ refs q xs + refs_of q y
refs-append q [] y = omega arith
refs-append q (x ∷ xs) y = omega (arith, refs-append q xs y)

pub refs-set_reader :
    (q : Ptr) (xs : List (Option ReaderObject)) (h : Handle) (o : ReaderObject)
    (y : Option ReaderObject)
    → get_reader xs h ≡ some o
    → refs q (set_reader xs h y) + one_at o.buffer q ≡ refs q xs + refs_of q y
refs-set_reader q [] h o y e = cc
refs-set_reader q (x ∷ xs) zero o y e =
    let here : refs_of q x ≡ one_at o.buffer q = ap (refs_of q) e in omega (arith, here)
refs-set_reader q (x ∷ xs) (suc h) o y e = omega (arith, refs-set_reader q xs h o y e)

pub refs-get_reader :
    (xs : List (Option ReaderObject)) (h : Handle) (o : ReaderObject)
    → get_reader xs h ≡ some o
    → 1 ≤ refs o.buffer xs
refs-get_reader [] h o e = cc
refs-get_reader (x ∷ xs) zero o e =
    let here : refs_of o.buffer x ≡ 1 = ap (refs_of o.buffer) e ∙ ground arith in
    omega (arith, here)
refs-get_reader (x ∷ xs) (suc h) o e = omega (arith, refs-get_reader xs h o e)

pub get_reader-append :
    (xs : List (Option ReaderObject)) (y : Option ReaderObject)
    → get_reader (xs ++ (y ∷ [])) (count xs) ≡ y
get_reader-append [] y = refl
get_reader-append (x ∷ xs) y = get_reader-append xs y

abbrev pub IsCount : Bool → ℕ → ℕ → Type 0
IsCount true refcount n = Unit
IsCount false refcount n = (refcount ≡ n) × (0 < n)

-- A string that is there has the count of its references, at least one of them; to an address where
-- none is there is no reference. Interned strings are not counted.
abbrev pub Counts : Option ZendString → ℕ → Type 0
Counts none n = n ≡ 0
Counts (some s) n = IsCount s.interned s.refcount n

counted-Counts : (s : ZendString) (n : ℕ) → Counts (some s) n → Counts (counted s) (n + 1)
counted-Counts s n h = elim (Bool-cases s.interned) [
  | inl yes_interned ↦ ground (arith, yes_interned)
  | inr not_interned ↦ ground (arith, not_interned)
]

uncounted-Counts : (s : ZendString) (n : ℕ) → Counts (some s) (n + 1) → Counts (uncounted s) n
uncounted-Counts s n h = elim (Bool-cases s.interned) [
  | inl yes_interned ↦ ground (arith, yes_interned)
  | inr not_interned ↦ ground (arith, not_interned)
]

-- The counts of all strings.
abbrev pub AllCount : (Ptr → Option ZendString) → (Ptr → ℕ) → Type 0
AllCount strings n = (q : Ptr) → Counts (strings q) (n q)

pub referred :
    (o : Option ZendString) (n : ℕ) → Counts o n → 0 < n → (s : ZendString) × (o ≡ some s)
referred none n h pos = absurd (omega arith)
referred (some s) n h pos = (s, refl)

module _ (p : Ptr) (r : Request) (s : ZendString) (n m : Ptr → ℕ) (there : r.strings p ≡ some s)
    (counts : AllCount r.strings n) where
  here : Counts (some s) (n p)
  here = subst (λ o. Counts o (n p)) there (counts p)

  pub addref-AllCount :
      ((q : Ptr) → m q ≡ n q + one_at p q)
      → (addref p r ≡ ok (record r { strings = update r.strings p (counted s) }))
        × AllCount (update r.strings p (counted s)) m
  unfolding addref
  addref-AllCount more = (
    ground (arith, there),
    λ q. elim (Bool-cases (q == p)) [
      | inl same ↦
          let at : q ≡ p = ground (arith, same) in
          let sum : n p + 1 ≡ m q = ground (arith, same, at, more q, ap n at) in
          rw same (subst (Counts (counted s)) sum (counted-Counts s (n p) here))
      | inr other ↦
          let sum : n q ≡ m q = ground (arith, other, more q) in
          rw other (subst (Counts (r.strings q)) sum (counts q))
    ],
  )

  pub release-AllCount :
      ((q : Ptr) → n q ≡ m q + one_at p q)
      → (release p r ≡ ok (record r { strings = update r.strings p (uncounted s) }))
        × AllCount (update r.strings p (uncounted s)) m
  unfolding release
  release-AllCount less = (
    ground (arith, there),
    λ q. elim (Bool-cases (q == p)) [
      | inl same ↦
          let at : q ≡ p = ground (arith, same) in
          let sum : n p ≡ m q + 1 = ground (arith, same, at, less q, ap n at) in
          rw same (uncounted-Counts s (m q) (subst (Counts (some s)) sum here))
      | inr other ↦
          let sum : n q ≡ m q = ground (arith, other, less q) in
          rw other (subst (Counts (r.strings q)) sum (counts q))
    ],
  )
