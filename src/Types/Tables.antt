-- ===== src/Types/Tables.antt =====
-- The method tables of the classes Byte, BE, LE and VarInt: what the macros of classes/Types.cpp
-- expand to.
pub mod Lookup
use Prim.Native.String.{String, ◌++◌ as join}
use text.Mathlib.Text.{◌==◌ as str_eq}
use ext_encoding.Prelude.{List, [], ◌∷◌, ◌++◌, Option, none, some, Bool, true, false, ◌≡◌, refl}
use ext_encoding.Prelude.{if◌then◌else◌}
use ext_encoding.Serializers.Endian.{ByteOrder, big_endian, little_endian}
use ext_encoding.Types.{Codec, byte, short, int, long, triad, float, double, var_int, var_long}

pub data Operation : Type 0 where
  read unpack write pack : Operation

-- An entry names the template of the function, which is given by its operation, with its arguments.
abbrev pub Table : Type 0
Table = List (String × (Operation × Codec))

-- `TYPE_ENTRIES`
abbrev pub type_entries : String → Codec → Table
type_entries type_name codec =
    (join "read" type_name, (read, codec))
    ∷ (join "unpack" type_name, (unpack, codec))
    ∷ (join "write" type_name, (write, codec))
    ∷ (join "pack" type_name, (pack, codec))
    ∷ []

-- `FIXED_INT_ENTRIES`, `TRIAD_ENTRIES` and `VARINT_ENTRIES`, by the codec of each signedness
abbrev pub int_entries : String → (Bool → Codec) → Table
int_entries zend_name codec =
    type_entries (join "Unsigned" zend_name) (codec false)
    ++ type_entries (join "Signed" zend_name) (codec true)

-- `ENDIAN_ENTRIES`
abbrev pub endian_entries : ByteOrder → Table
endian_entries order =
    int_entries "Short" (λ s. short s order)
    ++ (int_entries "Int" (λ s. int s order)
        ++ (int_entries "Long" (λ s. long s order)
            ++ (type_entries "Float" (float order)
                ++ (type_entries "Double" (double order)
                    ++ int_entries "Triad" (λ s. triad s order)))))

pub data ClassName : Type 0 where
  byte_class big_endian_class little_endian_class var_int_class : ClassName

-- `byte_methods`, `big_endian_methods`, `little_endian_methods` and `varint_methods`, each without
-- its private constructor, as `init_class_Types` gives them to the classes
abbrev pub methods : ClassName → Table
methods byte_class = type_entries "Unsigned" (byte false) ++ type_entries "Signed" (byte true)
methods big_endian_class = endian_entries big_endian
methods little_endian_class = endian_entries little_endian
methods var_int_class = int_entries "Int" var_int ++ int_entries "Long" var_long

-- The lookup of a static method by its name.
abbrev pub find_method : Table → String → Option (Operation × Codec)
find_method [] name = none
find_method ((key, entry) ∷ rest) name =
    if str_eq key name then some entry else find_method rest name

find_test :
    (find_method (methods little_endian_class) "readSignedTriad"
      ≡ some (read, triad true little_endian))
    × (find_method (methods byte_class) "readSignedTriad" ≡ none)
find_test = (refl, refl)
