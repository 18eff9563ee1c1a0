-- ===== src/Prelude/Lists.antt =====
-- Lists measured and indexed by native numbers, under the library's names, and the write of a
-- block of elements over a list.
use Prim.Native.Nat.{ℕ, zero, suc, ◌+◌, ◌-◌, ◌≤◌, ◌<◌}
use Prim.Native.Nat.add
use Prim.Native.Nat.sub
use mathlib.Core.Path.{◌≡◌, refl, sym, ap, ◌∙◌}
use mathlib.Core.List.{List, [], ◌∷◌, ◌++◌, map, reverse, reverse-append}
use mathlib.Core.Option.{Option, none, some}
use native.Mathlib.Omega.{arith}

module _ {ℓ} {A : Type ℓ} where
  abbrev pub length : List A → ℕ
  length [] = 0
  length (x ∷ xs) = suc (length xs)

  abbrev pub get_elem? : List A → ℕ → Option A
  get_elem? [] i = none
  get_elem? (x ∷ xs) zero = some x
  get_elem? (x ∷ xs) (suc i) = get_elem? xs i

  abbrev pub take : ℕ → List A → List A
  take zero xs = []
  take (suc n) [] = []
  take (suc n) (x ∷ xs) = x ∷ take n xs

  abbrev pub drop : ℕ → List A → List A
  drop zero xs = xs
  drop (suc n) [] = []
  drop (suc n) (x ∷ xs) = drop n xs

  abbrev pub All {κ} : (A → Type κ) → List A → Type κ
  All P [] = Unit {κ}
  All P (x ∷ xs) = P x × All P xs

  -- The elements of the first list over the head of the second, as far as that goes.
  abbrev pub splice : List A → List A → List A
  splice [] ys = ys
  splice (x ∷ xs) [] = []
  splice (x ∷ xs) (y ∷ ys) = x ∷ splice xs ys

  -- `src` over the elements of `dst` from index `i` on.
  abbrev pub overwrite : List A → ℕ → List A → List A
  overwrite dst zero src = splice src dst
  overwrite [] (suc i) src = []
  overwrite (y ∷ dst) (suc i) src = y ∷ overwrite dst i src

module _ {ℓ} {A : Type ℓ} where
  pub length-append : (xs ys : List A) → length (xs ++ ys) ≡ length xs + length ys
  length-append [] ys = omega arith
  length-append (x ∷ xs) ys = omega (arith, length-append xs ys)

  pub length-reverse : (xs : List A) → length (reverse xs) ≡ length xs
  length-reverse [] = refl
  length-reverse (x ∷ xs) =
      ap length (reverse-append (x ∷ []) xs)
      ∙ omega (arith, length-append (reverse xs) (x ∷ []), length-reverse xs)

  pub length-map {κ} : {B : Type κ} (f : A → B) (xs : List A) → length (map f xs) ≡ length xs
  length-map f [] = refl
  length-map f (x ∷ xs) = ap suc (length-map f xs)

  pub length-take : (n : ℕ) (xs : List A) → n ≤ length xs → length (take n xs) ≡ n
  length-take zero xs h = refl
  length-take (suc n) [] h = absurd (omega arith)
  length-take (suc n) (x ∷ xs) h = omega (arith, length-take n xs (omega arith))

  pub length-drop : (n : ℕ) (xs : List A) → length (drop n xs) ≡ length xs - n
  length-drop zero xs = omega arith
  length-drop (suc n) [] = omega arith
  length-drop (suc n) (x ∷ xs) = omega (arith, length-drop n xs)

  pub drop-drop : (n m : ℕ) (xs : List A) → drop m (drop n xs) ≡ drop (n + m) xs
  drop-drop zero m xs = rw add.zero
  drop-drop (suc n) zero [] = rw add.suc
  drop-drop (suc n) (suc m) [] = rw add.suc
  drop-drop (suc n) m (x ∷ xs) = rw add.suc (drop-drop n m xs)

  pub drop-append : (xs ys : List A) → drop (length xs) (xs ++ ys) ≡ ys
  drop-append [] ys = refl
  drop-append (x ∷ xs) ys = drop-append xs ys

  pub take-append : (xs ys : List A) → take (length xs) (xs ++ ys) ≡ xs
  take-append [] ys = refl
  take-append (x ∷ xs) ys = ap (λ r. x ∷ r) (take-append xs ys)

  pub take-length : (xs : List A) → take (length xs) xs ≡ xs
  take-length [] = refl
  take-length (x ∷ xs) = ap (λ r. x ∷ r) (take-length xs)

  -- The element at an index is the head of what follows it.
  pub get_elem?-drop :
      (i : ℕ) (xs : List A) (y : A) (ys : List A)
      → drop i xs ≡ y ∷ ys
      → (get_elem? xs i ≡ some y) × (drop (i + 1) xs ≡ ys) × (i < length xs)
  get_elem?-drop zero [] y ys h = ground arith
  get_elem?-drop zero (x ∷ xs) y ys h = ground arith
  get_elem?-drop (suc i) [] y ys h = ground arith
  get_elem?-drop (suc i) (x ∷ xs) y ys h =
      let (found, after, inside) = get_elem?-drop i xs y ys h in
      (found, rw add.suc after, omega arith)

  pub get_elem?_inside : (xs : List A) (i : ℕ) → i < length xs → (x : A) × (get_elem? xs i ≡ some x)
  get_elem?_inside [] i h = absurd (omega arith)
  get_elem?_inside (x ∷ xs) zero h = (x, refl)
  get_elem?_inside (x ∷ xs) (suc i) h = get_elem?_inside xs i (omega arith)

  pub drop-get_elem? :
      (i : ℕ) (xs : List A) (y : A) → get_elem? xs i ≡ some y → drop i xs ≡ y ∷ drop (i + 1) xs
  drop-get_elem? zero [] y h = ground arith
  drop-get_elem? zero (x ∷ xs) y h = cc
  drop-get_elem? (suc i) [] y h = ground arith
  drop-get_elem? (suc i) (x ∷ xs) y h = rw add.suc (drop-get_elem? i xs y h)

  pub get_elem?_past : (xs : List A) (i : ℕ) → length xs ≤ i → get_elem? xs i ≡ none
  get_elem?_past [] i h = refl
  get_elem?_past (x ∷ xs) zero h = absurd (omega arith)
  get_elem?_past (x ∷ xs) (suc i) h = get_elem?_past xs i (omega arith)

  pub length-splice : (xs ys : List A) → length xs ≤ length ys → length (splice xs ys) ≡ length ys
  length-splice [] ys h = refl
  length-splice (x ∷ xs) [] h = absurd (omega arith)
  length-splice (x ∷ xs) (y ∷ ys) h = ap suc (length-splice xs ys (omega arith))

  pub length-overwrite :
      (dst : List A) (i : ℕ) (src : List A)
      → i + length src ≤ length dst
      → length (overwrite dst i src) ≡ length dst
  length-overwrite dst zero src h = length-splice src dst (omega arith)
  length-overwrite [] (suc i) src h = absurd (omega arith)
  length-overwrite (y ∷ dst) (suc i) src h = ap suc (length-overwrite dst i src (omega arith))

  -- A block that covers all of the list.
  pub splice-whole : (xs ys : List A) → length xs ≡ length ys → splice xs ys ≡ xs
  splice-whole [] [] h = refl
  splice-whole [] (y ∷ ys) h = absurd (omega arith)
  splice-whole (x ∷ xs) [] h = absurd (omega arith)
  splice-whole (x ∷ xs) (y ∷ ys) h = ap (λ r. x ∷ r) (splice-whole xs ys (omega arith))

  pub overwrite-nil : (dst : List A) (i : ℕ) → overwrite dst i [] ≡ dst
  overwrite-nil dst zero = refl
  overwrite-nil [] (suc i) = refl
  overwrite-nil (y ∷ dst) (suc i) = ap (λ r. y ∷ r) (overwrite-nil dst i)

  splice-append :
      (xs ys dst : List A)
      → length xs + length ys ≤ length dst
      → splice (xs ++ ys) dst ≡ overwrite (splice xs dst) (length xs) ys
  splice-append [] ys dst h = refl
  splice-append (x ∷ xs) ys [] h = absurd (omega arith)
  splice-append (x ∷ xs) ys (y ∷ dst) h = ap (λ r. x ∷ r) (splice-append xs ys dst (omega arith))

  -- Two blocks written one behind the other are one block.
  pub overwrite-overwrite :
      (dst : List A) (i : ℕ) (xs ys : List A)
      → i + length xs + length ys ≤ length dst
      → overwrite (overwrite dst i xs) (i + length xs) ys ≡ overwrite dst i (xs ++ ys)
  overwrite-overwrite dst zero xs ys h = rw add.zero (sym (splice-append xs ys dst (omega arith)))
  overwrite-overwrite [] (suc i) xs ys h = absurd (omega arith)
  overwrite-overwrite (y ∷ dst) (suc i) xs ys h =
      rw add.suc (ap (λ r. y ∷ r) (overwrite-overwrite dst i xs ys (omega arith)))

  splice-split : (xs ys : List A) → length xs ≤ length ys → splice xs ys ≡ xs ++ drop (length xs) ys
  splice-split [] ys h = refl
  splice-split (x ∷ xs) [] h = absurd (omega arith)
  splice-split (x ∷ xs) (y ∷ ys) h = ap (λ r. x ∷ r) (splice-split xs ys (omega arith))

  pub overwrite-split :
      (dst : List A) (i : ℕ) (src : List A)
      → i + length src ≤ length dst
      → overwrite dst i src ≡ take i dst ++ (src ++ drop (i + length src) dst)
  overwrite-split dst zero src h = rw add.zero (splice-split src dst (omega arith))
  overwrite-split [] (suc i) src h = absurd (omega arith)
  overwrite-split (y ∷ dst) (suc i) src h =
      rw add.suc (ap (λ r. y ∷ r) (overwrite-split dst i src (omega arith)))

  pub length-take_le : (n : ℕ) (xs : List A) → length (take n xs) ≤ n
  length-take_le zero xs = omega arith
  length-take_le (suc n) [] = omega arith
  length-take_le (suc n) (x ∷ xs) = omega (arith, length-take_le n xs)

  pub take-take : (i n : ℕ) (xs : List A) → i ≤ n → take i (take n xs) ≡ take i xs
  take-take zero n xs h = refl
  take-take (suc i) zero xs h = absurd (omega arith)
  take-take (suc i) (suc n) [] h = refl
  take-take (suc i) (suc n) (x ∷ xs) h = ap (λ r. x ∷ r) (take-take i n xs (omega arith))

  pub take-nil : (n : ℕ) → take {A = A} n [] ≡ []
  take-nil zero = refl
  take-nil (suc n) = refl

  pub drop-nil : (n : ℕ) → drop {A = A} n [] ≡ []
  drop-nil zero = refl
  drop-nil (suc n) = refl

  pub drop-take : (i n : ℕ) (xs : List A) → drop i (take n xs) ≡ take (n - i) (drop i xs)
  drop-take zero n xs = rw sub.zero
  drop-take (suc i) zero xs = rw sub.zero-suc
  drop-take (suc i) (suc n) [] = sym (take-nil _)
  drop-take (suc i) (suc n) (x ∷ xs) = rw sub.suc-suc (drop-take i n xs)

  pub take-append_add : (xs ys : List A) (k : ℕ) → take (length xs + k) (xs ++ ys) ≡ xs ++ take k ys
  take-append_add [] ys k = rw add.zero
  take-append_add (x ∷ xs) ys k = rw add.suc (ap (λ r. x ∷ r) (take-append_add xs ys k))

  pub append-take-drop : (n : ℕ) (xs : List A) → take n xs ++ drop n xs ≡ xs
  append-take-drop zero xs = refl
  append-take-drop (suc n) [] = refl
  append-take-drop (suc n) (x ∷ xs) = ap (λ r. x ∷ r) (append-take-drop n xs)

  pub drop_past : (xs : List A) (n : ℕ) → length xs ≤ n → drop n xs ≡ []
  drop_past [] n h = drop-nil n
  drop_past (x ∷ xs) zero h = absurd (omega arith)
  drop_past (x ∷ xs) (suc n) h = drop_past xs n (omega arith)
