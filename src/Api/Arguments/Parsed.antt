-- ===== src/Api/Arguments/Parsed.antt =====
-- What the arguments were if the parameters were parsed.
use ext_encoding.Prelude.{◌≡◌, refl, List, [], ◌∷◌, Option, none, some}
use ext_encoding.Zend.{Result, ok, throw, fault, stuck}
use ext_encoding.Api.Arguments.{Argument, Value, one_argument, parsed, typed, ◌>>=◌}

pub parsed-ok :
    {A S : Type 0} (p : Result A) (s : S) (f : A → Result Value × S) (v : Value)
    → (parsed p s f).0 ≡ ok v
    → (a : A) × (p ≡ ok a) × ((f a).0 ≡ ok v)
parsed-ok (ok a) s f v e = (a, refl, e)
parsed-ok (throw x) s f v e = cc
parsed-ok fault s f v e = cc
parsed-ok stuck s f v e = cc

pub one_argument-ok :
    {A : Type 0} (parse : Argument → Result A) (args : List Argument) (a : A)
    → one_argument parse args ≡ ok a
    → (x : Argument) × (args ≡ x ∷ []) × (parse x ≡ ok a)
one_argument-ok parse [] a e = cc
one_argument-ok parse (x ∷ []) a e = (x, refl, e)
one_argument-ok parse (x ∷ y ∷ rest) a e = cc

pub some-ok :
    {A S : Type 0} (p : Result A) (s : S) (f : Option A → Result Value × S) (v : Value)
    → (parsed (p >>= λ a. ok (some a)) s f).0 ≡ ok v
    → (a : A) × (p ≡ ok a) × ((f (some a)).0 ≡ ok v)
some-ok (ok a) s f v e = (a, refl, e)
some-ok (throw x) s f v e = cc
some-ok fault s f v e = cc
some-ok stuck s f v e = cc

pub pair-ok :
    {A B S : Type 0} (p : Result A) (q : Result B) (s : S) (f : A × B → Result Value × S)
    (v : Value)
    → (parsed (p >>= λ a. q >>= λ b. ok (a, b)) s f).0 ≡ ok v
    → (a : A) × (b : B) × (p ≡ ok a) × (q ≡ ok b) × ((f (a, b)).0 ≡ ok v)
pair-ok (ok a) (ok b) s f v e = (a, b, refl, refl, e)
pair-ok (ok a) (throw x) s f v e = cc
pair-ok (ok a) fault s f v e = cc
pair-ok (ok a) stuck s f v e = cc
pair-ok (throw x) q s f v e = cc
pair-ok fault q s f v e = cc
pair-ok stuck q s f v e = cc

pub typed-ok : {A : Type 0} (o : Option A) (a : A) → typed o ≡ ok a → (b : A) × (o ≡ some b)
typed-ok none a e = cc
typed-ok (some b) a e = (b, refl)
