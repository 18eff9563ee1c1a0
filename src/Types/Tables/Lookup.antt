-- ===== src/Types/Tables/Lookup.antt =====
-- Which function a class has under a name.
use Prim.Native.String.{String, ◌++◌ as join}
use text.Mathlib.Text.{◌==◌ as str_eq}
use text.Mathlib.TextEquality.{eq_iff}
use mathlib.Core.Path.{subst}
use ext_encoding.Prelude.{[], ◌∷◌, ◌++◌, some, Bool, true, false, ◌≡◌, refl, All, ◌↔◌}
use ext_encoding.Prelude.{if◌then◌else◌, All-append, Bool-cases, inl, inr, ap, sym, ◌∙◌}
use ext_encoding.Serializers.Endian.{ByteOrder, big_endian, little_endian}
use ext_encoding.Types.{Codec, byte, short, int, long, triad, float, double, var_int, var_long}
use ext_encoding.Types.Tables.{
  Operation, read, unpack, write, pack, Table, type_entries, int_entries, endian_entries, ClassName,
  byte_class, big_endian_class, little_endian_class, var_int_class, methods, find_method,
}

-- The documented names: a class for each byte order, and the signedness before the type.
abbrev pub class_of_order : ByteOrder → ClassName
class_of_order big_endian = big_endian_class
class_of_order little_endian = little_endian_class

abbrev pub class_of : Codec → ClassName
class_of (byte s) = byte_class
class_of (short s o) = class_of_order o
class_of (int s o) = class_of_order o
class_of (long s o) = class_of_order o
class_of (triad s o) = class_of_order o
class_of (float o) = class_of_order o
class_of (double o) = class_of_order o
class_of (var_int s) = var_int_class
class_of (var_long s) = var_int_class

abbrev pub type_name : Codec → String
type_name (byte s) = if s then "Signed" else "Unsigned"
type_name (short s o) = if s then "SignedShort" else "UnsignedShort"
type_name (int s o) = if s then "SignedInt" else "UnsignedInt"
type_name (long s o) = if s then "SignedLong" else "UnsignedLong"
type_name (triad s o) = if s then "SignedTriad" else "UnsignedTriad"
type_name (float o) = "Float"
type_name (double o) = "Double"
type_name (var_int s) = if s then "SignedInt" else "UnsignedInt"
type_name (var_long s) = if s then "SignedLong" else "UnsignedLong"

abbrev pub operation_name : Operation → String
operation_name read = "read"
operation_name unpack = "unpack"
operation_name write = "write"
operation_name pack = "pack"

abbrev pub method_name : Operation → Codec → String
method_name o c = join (operation_name o) (type_name c)

abbrev pub Finds : ClassName → Operation → Codec → Type 0
Finds k o c = find_method (methods k) (method_name o c) ≡ some (o, c)

-- Each codec is found under its names in its class: no other entry stands before it.
find_own :
    (c : Codec)
    → Finds (class_of c) read c
      × Finds (class_of c) unpack c
      × Finds (class_of c) write c
      × Finds (class_of c) pack c
find_own (byte true) = (refl, refl, refl, refl)
find_own (byte false) = (refl, refl, refl, refl)
find_own (var_int true) = (refl, refl, refl, refl)
find_own (var_int false) = (refl, refl, refl, refl)
find_own (var_long true) = (refl, refl, refl, refl)
find_own (var_long false) = (refl, refl, refl, refl)
find_own (short true big_endian) = (refl, refl, refl, refl)
find_own (short true little_endian) = (refl, refl, refl, refl)
find_own (short false big_endian) = (refl, refl, refl, refl)
find_own (short false little_endian) = (refl, refl, refl, refl)
find_own (int true big_endian) = (refl, refl, refl, refl)
find_own (int true little_endian) = (refl, refl, refl, refl)
find_own (int false big_endian) = (refl, refl, refl, refl)
find_own (int false little_endian) = (refl, refl, refl, refl)
find_own (long true big_endian) = (refl, refl, refl, refl)
find_own (long true little_endian) = (refl, refl, refl, refl)
find_own (long false big_endian) = (refl, refl, refl, refl)
find_own (long false little_endian) = (refl, refl, refl, refl)
find_own (triad true big_endian) = (refl, refl, refl, refl)
find_own (triad true little_endian) = (refl, refl, refl, refl)
find_own (triad false big_endian) = (refl, refl, refl, refl)
find_own (triad false little_endian) = (refl, refl, refl, refl)
find_own (float big_endian) = (refl, refl, refl, refl)
find_own (float little_endian) = (refl, refl, refl, refl)
find_own (double big_endian) = (refl, refl, refl, refl)
find_own (double little_endian) = (refl, refl, refl, refl)

-- The entry has the name of its operation and codec, and stands in the class of the codec.
abbrev IsOwn : ClassName → String × (Operation × Codec) → Type 0
IsOwn k (name, (o, c)) = (k ≡ class_of c) × (name ≡ method_name o c)

-- A table of such entries.
record IsTable (k : ClassName) (t : Table) : Type 0 where
  own : All (IsOwn k) t

append-IsTable : {k : ClassName} {t u : Table} → IsTable k t → IsTable k u → IsTable k (t ++ u)
append-IsTable {k} {t} {u} h g = record { own = All-append (IsOwn k) t u h.own g.own }

type_entries-IsTable :
    {k : ClassName} (name : String) (c : Codec)
    → k ≡ class_of c
    → name ≡ type_name c
    → IsTable k (type_entries name c)
type_entries-IsTable name c e f = record {
  own = (
    (e, ap (join "read") f),
    ((e, ap (join "unpack") f), ((e, ap (join "write") f), ((e, ap (join "pack") f), tt))),
  );
}

int_entries-IsTable :
    {k : ClassName} (name : String) (c : Bool → Codec)
    → ((s : Bool) → k ≡ class_of (c s))
    → join "Unsigned" name ≡ type_name (c false)
    → join "Signed" name ≡ type_name (c true)
    → IsTable k (int_entries name c)
int_entries-IsTable name c e f g =
    append-IsTable (type_entries-IsTable (join "Unsigned" name) (c false) (e false) f)
      (type_entries-IsTable (join "Signed" name) (c true) (e true) g)

endian_entries-IsTable : (o : ByteOrder) → IsTable (class_of_order o) (endian_entries o)
endian_entries-IsTable o =
    append-IsTable (int_entries-IsTable "Short" (λ s. short s o) (λ s. refl) refl refl) (
      append-IsTable (int_entries-IsTable "Int" (λ s. int s o) (λ s. refl) refl refl) (
        append-IsTable (int_entries-IsTable "Long" (λ s. long s o) (λ s. refl) refl refl) (
          append-IsTable (type_entries-IsTable "Float" (float o) refl refl) (
            append-IsTable (type_entries-IsTable "Double" (double o) refl refl)
              (int_entries-IsTable "Triad" (λ s. triad s o) (λ s. refl) refl refl)))))

methods-IsTable : (k : ClassName) → IsTable k (methods k)
methods-IsTable byte_class =
    append-IsTable (type_entries-IsTable "Unsigned" (byte false) refl refl)
      (type_entries-IsTable "Signed" (byte true) refl refl)
methods-IsTable big_endian_class = endian_entries-IsTable big_endian
methods-IsTable little_endian_class = endian_entries-IsTable little_endian
methods-IsTable var_int_class =
    append-IsTable (int_entries-IsTable "Int" var_int (λ s. refl) refl refl)
      (int_entries-IsTable "Long" var_long (λ s. refl) refl refl)

-- What a lookup finds stands in the table.
find_method-IsOwn :
    (k : ClassName) (t : Table) (name : String) (found : Operation × Codec)
    → All (IsOwn k) t
    → find_method t name ≡ some found
    → IsOwn k (name, found)
find_method-IsOwn k [] name found h e = cc
find_method-IsOwn k ((key, entry) ∷ t) name found h e = elim (Bool-cases (str_eq key name)) [
  | inr other ↦
      find_method-IsOwn k t name found h.1
        (sym (ap (λ b. if b then some entry else find_method t name) other) ∙ e)
  | inl same ↦
      let here : some entry ≡ some found =
        sym (ap (λ b. if b then some entry else find_method t name) same) ∙ e in
      let key_is : key ≡ name = (eq_iff key name).0 same in
      let entry_is : entry ≡ found = cc in
      subst (λ n. IsOwn k (n, found)) key_is (subst (λ f. IsOwn k (key, f)) entry_is h.0)
]

-- A class has a function under a name exactly if that is the documented name of the operation and
-- the codec and the class is the codec's own: `read`, `unpack`, `write` or `pack`, the signedness
-- and the type, in BE and LE for the byte orders. No entry is missing, misnamed, wired to another
-- codec or hidden by one of the same name.
pub find_method_iff :
    (k : ClassName) (name : String) (o : Operation) (c : Codec)
    → (find_method (methods k) name ≡ some (o, c)) ↔ ((k ≡ class_of c) × (name ≡ method_name o c))
find_method_iff k name o c = (
  find_method-IsOwn k (methods k) name (o, c) (methods-IsTable k).own,
  λ h.
      subst (λ n. find_method (methods k) n ≡ some (o, c)) (sym h.1)
        (subst (λ j. find_method (methods j) (method_name o c) ≡ some (o, c)) (sym h.0) (own o)),
)
  where
    own : (o : Operation) → Finds (class_of c) o c
    own read = (find_own c).0
    own unpack = (find_own c).1
    own write = (find_own c).2
    own pack = (find_own c).3
