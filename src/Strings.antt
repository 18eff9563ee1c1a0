-- ===== src/Strings.antt =====
-- The strings of ByteBufferReader: objects hold a zend_string by a reference that counts. These are
-- create_object, clone_obj and free_obj of classes/ByteBufferReader.cpp and the methods that take or
-- give up a reference, with what a PHP script does to its own references. A released string is freed
-- with its last reference, and a use of it then is a fault; the engine's interned strings, such as
-- the empty one, are neither counted nor freed.
pub mod Counts
pub mod Balance
pub mod Readers
pub mod Reach
pub mod Leak
use ext_encoding.Prelude.{
  ℕ, zero, suc, ◌+◌, ◌-◌, List, [], ◌∷◌, ◌++◌, Option, none, some, ◌==◌, Bool, true, false,
}
use ext_encoding.Prelude.{if◌then◌else◌, ◌≡◌, refl}
use ext_encoding.Prelude.Int.{ℤ}
use ext_encoding.Prelude.Word.{wrap}
use ext_encoding.Zend.{Result, ok, throw, fault, stuck}
use ext_encoding.Reader.{ByteBufferReader}
use ext_encoding.Objects.{Ptr, Handle, update}

pub record ZendString : Type 0 where
  pub bytes : List ℕ
  pub refcount : ℕ
  pub interned : Bool

-- `byte_buffer_reader_t`
pub record ReaderObject : Type 0 where
  pub buffer : Ptr
  pub offset : ℕ

-- The strings by address, the objects by handle, and how often PHP values refer to each string.
pub record Request : Type 0 where
  pub strings : Ptr → Option ZendString
  pub readers : List (Option ReaderObject)
  pub held : Ptr → ℕ

infixl 5 ◌>>=◌
abbrev pub ◌>>=◌ : {A B : Type 0} → Result A → (A → Result B) → Result B
ok a >>= f = f a
throw e >>= f = throw e
fault >>= f = fault
Result.stuck >>= f = Result.stuck

-- `zend_string_addref` and `zend_string_release_ex`, on what is at the address.
abbrev pub counted : ZendString → Option ZendString
counted s = some (if s.interned then s else record s { refcount = suc s.refcount })

abbrev pub uncounted : ZendString → Option ZendString
uncounted s =
    if s.interned
    then some s
    else (if s.refcount == 1 then none else some (record s { refcount = s.refcount - 1 }))

unfoldable pub addref : Ptr → Request → Result Request
addref p r = elim (r.strings p) [
  | none ↦ fault
  | some s ↦ ok (record r { strings = update r.strings p (counted s) })
]

unfoldable pub release : Ptr → Request → Result Request
release p r = elim (r.strings p) [
  | none ↦ fault
  | some s ↦ ok (record r { strings = update r.strings p (uncounted s) })
]

abbrev pub get_reader : List (Option ReaderObject) → Handle → Option ReaderObject
get_reader [] h = none
get_reader (x ∷ xs) zero = x
get_reader (x ∷ xs) (suc h) = get_reader xs h

abbrev pub set_reader :
    List (Option ReaderObject) → Handle → Option ReaderObject → List (Option ReaderObject)
set_reader [] h y = []
set_reader (x ∷ xs) zero y = y ∷ xs
set_reader (x ∷ xs) (suc h) y = x ∷ set_reader xs h y

abbrev pub find_reader : Handle → Request → Result ReaderObject
find_reader h r = elim (get_reader r.readers h) [ none ↦ fault | some o ↦ ok o ]

-- `reader_init_properties` on the object `h`
abbrev pub init_reader : Handle → Ptr → ℕ → Request → Result Request
init_reader h p offset r =
    addref p (record r {
      readers = set_reader r.readers h (some (record { buffer = p; offset = offset }));
    })

-- `zend_empty_string`
abbrev pub empty_string : Ptr
empty_string = 1

-- The object with the next handle, with `zend_empty_string`.
unfoldable pub new_reader : Request → Result Request
new_reader r =
    addref empty_string (record r {
      readers = r.readers ++ (some (record { buffer = empty_string; offset = 0 }) ∷ []);
    })

abbrev pub count : List (Option ReaderObject) → Handle
count [] = 0
count (x ∷ xs) = suc (count xs)

unfoldable pub clone_reader : Handle → Request → Result Request
clone_reader h r = do
  old ← find_reader h r
  r' ← new_reader r
  init_reader (count r.readers) old.buffer old.offset r'

unfoldable pub free_reader : Handle → Request → Result Request
free_reader h r = do
  o ← find_reader h r
  r' ← release o.buffer r
  ok (record r' { readers = set_reader r'.readers h none })

unfoldable pub construct_reader : Handle → Ptr → Request → Result Request
construct_reader h p r = do o ← find_reader h r; r' ← release o.buffer r; init_reader h p 0 r'

-- `__unserialize` with a string at `p` and an int in its table: the old string is not released.
unfoldable pub unserialize_reader : Handle → Ptr → ℤ → Request → Result Request
unserialize_reader h p z r = do o ← find_reader h r; init_reader h p (wrap 64 z) r

-- `getData`, `__serialize` and `__debugInfo` give a PHP value a reference to the string.
unfoldable pub return_string : Handle → Request → Result Request
return_string h r = do
  o ← find_reader h r
  r' ← addref o.buffer r
  ok (record r' { held = update r'.held o.buffer (suc (r'.held o.buffer)) })

-- A method that reads or moves the offset, on the string and the offset of the object.
unfoldable pub read_object :
    {A : Type 0}
    → (ByteBufferReader → A × ByteBufferReader)
    → Handle
    → Request
    → Result (A × Request)
read_object method h r = do
  o ← find_reader h r
  let found = r.strings o.buffer
  s ← (elim found [ none ↦ fault | some s ↦ ok s ])
  let (a, reader) = method (record { buffer = s.bytes; offset = o.offset })
  ok (a, record r { readers = set_reader r.readers h (some (record o { offset = reader.offset })) })

-- What the script does: it makes a string, and drops a reference.
unfoldable pub make_string : Ptr → List ℕ → Request → Result Request
make_string p bytes r = ok (record r {
  strings = update r.strings p (some (record { bytes = bytes; refcount = 1; interned = false }));
  held = update r.held p 1;
})

unfoldable pub drop_string : Ptr → Request → Result Request
drop_string p r = do r' ← release p r; ok (record r' { held = update r'.held p (r'.held p - 1) })
