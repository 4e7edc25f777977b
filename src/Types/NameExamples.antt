-- ===== src/Types/NameExamples.antt =====
-- Concrete names of types.
use utbot_cpp.Base.{true, List, [], ◌∷◌, ◌≡◌, refl, Text, codes, text_eq, lookup_text, ok}
use utbot_cpp.Types.Queries.{is_simple}
use utbot_cpp.Types.Creation.{int_type, create_simple_type_from_name}
use utbot_cpp.Types.Handler.{TypesHandler, is_integer_type, integer_types_to_sizes, type_size}
use utbot_cpp.Types.Names.{
  const_qualifier, get_integer_validation_type, ValidationType, is_unsigned_type,
}
use utbot_cpp.Types.NameRules.{bits_of, is_unsigned, get_integer_validation_type_lem}

abbrev const_c : List Text
const_c = const_qualifier ∷ (b'c' ∷ []) ∷ []

abbrev no_types : TypesHandler
no_types = record { structs = []; enums = []; pointer_size = 8 }

int_type-is_integer : is_integer_type int_type ≡ true
unfolding is_integer_type is_simple int_type create_simple_type_from_name lookup_text
    integer_types_to_sizes text_eq codes
int_type-is_integer = refl

get_integer_validation_type_lem_example :
    (v : ValidationType) × (get_integer_validation_type int_type ≡ ok v)
    × (type_size no_types int_type ≡ ok (bits_of v))
    × (is_unsigned v ≡ is_unsigned_type int_type)
get_integer_validation_type_lem_example =
    get_integer_validation_type_lem no_types int_type int_type-is_integer
