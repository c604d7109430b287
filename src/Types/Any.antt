-- ===== src/Types/Any.antt =====
-- `AnyDataObject`, `AnyDataArray`, `tc_map` and `infer_from_python` of pyignite/datatypes/internal.py,
-- and `is_hinted` of pyignite/utils.py. The classes of numbers with a fraction, of dates and times
-- and of complex objects are the parameter `others`.
pub mod Wire
pub mod Nested
pub mod Guess
pub mod Leaf
pub mod Element
pub mod Dicts
pub mod Texts
pub mod Choice
use ignite_python_thin_clien.Base.{
  ℕ, zero, suc, ◌+◌, Bool, true, false, List, [], ◌∷◌, length, ℤ, pos, negsuc, ◌==◌, ◌&&◌, ◌||◌,
  if◌then◌else◌, Option, none, some, get_elem?, map,
}
use ignite_python_thin_clien.Base.Bytes.{from_bytes}
use ignite_python_thin_clien.Result.{
  Result, ok, err, type_error, index_error, key_error, parse_error, overflow_error, recursion_error,
  ◌>>=◌,
}
use ignite_python_thin_clien.Stream.{Stream, write, slice, here, tell, seek_cur}
use ignite_python_thin_clien.Ctypes.{CType, CObject, get_int, type_code}
use ignite_python_thin_clien.Value.{
  Value, Values, nil, cons, none_value, bool, int, float, str, bytes, uuid, decimal, list, tuple,
  dict, data_class, iterate, to_list, ClassName, null_class, byte_object, short_object, int_object,
  long_object, float_object, double_object, char_object, bool_object, uuid_object, date_object,
  timestamp_object, time_object, enum_object, binary_enum_object, byte_array, short_array,
  int_array, long_array, float_array, double_array, char_array, bool_array, uuid_array, date_array,
  timestamp_array, time_array, enum_array, string_object, string_array, decimal_object,
  decimal_array, object_array, collection_object, map_object, binary_object, wrapped_object,
}
use ignite_python_thin_clien.Value.Equality.{find}
use ignite_python_thin_clien.Types.{
  tc_byte, tc_short, tc_int, tc_long, tc_float, tc_double, tc_char, tc_bool, tc_string, tc_uuid,
  tc_date, tc_byte_array, tc_short_array, tc_int_array, tc_long_array, tc_float_array,
  tc_double_array, tc_char_array, tc_bool_array, tc_string_array, tc_uuid_array, tc_date_array,
  tc_object_array, tc_collection, tc_map, tc_wrapped, tc_enum, tc_enum_array, tc_decimal,
  tc_decimal_array, tc_timestamp, tc_timestamp_array, tc_time, tc_time_array, tc_binary_enum,
  tc_complex_object, tc_null,
}
use ignite_python_thin_clien.Types.Primitive
use ignite_python_thin_clien.Types.Nullable.{null_c_type}
use ignite_python_thin_clien.Types.DataObject.{data_object}
use ignite_python_thin_clien.Types.String.{string_class}
use ignite_python_thin_clien.Types.Array.{array_class, write_length}
use ignite_python_thin_clien.Types.Sequence.{
  DataType, nullable, counted, parse_sequence, read_sequence, write_elements,
}
use ignite_python_thin_clien.Types.Standard.{
  uuid_class, enum_class, standard_array_class, enum_array_class,
}
use ignite_python_thin_clien.Types.Complex.{
  items_of, object_array_class, collection_class, map_object_class, wrapped_class,
}

-- The keys of `tc_map`.
unfoldable pub code_of_class : ClassName → ℕ
code_of_class null_class = tc_null
code_of_class byte_object = tc_byte
code_of_class short_object = tc_short
code_of_class int_object = tc_int
code_of_class long_object = tc_long
code_of_class float_object = tc_float
code_of_class double_object = tc_double
code_of_class char_object = tc_char
code_of_class bool_object = tc_bool
code_of_class uuid_object = tc_uuid
code_of_class date_object = tc_date
code_of_class timestamp_object = tc_timestamp
code_of_class time_object = tc_time
code_of_class enum_object = tc_enum
code_of_class binary_enum_object = tc_binary_enum
code_of_class byte_array = tc_byte_array
code_of_class short_array = tc_short_array
code_of_class int_array = tc_int_array
code_of_class long_array = tc_long_array
code_of_class float_array = tc_float_array
code_of_class double_array = tc_double_array
code_of_class char_array = tc_char_array
code_of_class bool_array = tc_bool_array
code_of_class uuid_array = tc_uuid_array
code_of_class date_array = tc_date_array
code_of_class timestamp_array = tc_timestamp_array
code_of_class time_array = tc_time_array
code_of_class enum_array = tc_enum_array
code_of_class string_object = tc_string
code_of_class string_array = tc_string_array
code_of_class decimal_object = tc_decimal
code_of_class decimal_array = tc_decimal_array
code_of_class object_array = tc_object_array
code_of_class collection_object = tc_collection
code_of_class map_object = tc_map
code_of_class binary_object = tc_complex_object
code_of_class wrapped_object = tc_wrapped

abbrev pub class_names : List ClassName
class_names =
    null_class ∷ byte_object ∷ short_object ∷ int_object ∷ long_object ∷ float_object
    ∷ double_object ∷ char_object ∷ bool_object ∷ uuid_object ∷ date_object ∷ timestamp_object
    ∷ time_object ∷ enum_object ∷ binary_enum_object ∷ byte_array ∷ short_array ∷ int_array
    ∷ long_array ∷ float_array ∷ double_array ∷ char_array ∷ bool_array ∷ uuid_array ∷ date_array
    ∷ timestamp_array ∷ time_array ∷ enum_array ∷ string_object ∷ string_array ∷ decimal_object
    ∷ decimal_array ∷ object_array ∷ collection_object ∷ map_object ∷ binary_object ∷ wrapped_object
    ∷ []

unfoldable pub find_class : List ClassName → ℕ → Option ClassName
unfolding code_of_class
find_class [] code = none
find_class (c ∷ cs) code =
    let rest = find_class cs code in if code_of_class c == code then some c else rest

-- tc_map(key)
unfoldable pub tc_map_get : List ℕ → Result ClassName
unfolding find_class
tc_map_get (code ∷ []) = elim (find_class class_names code) [ some c ↦ ok c | none ↦ err key_error ]
tc_map_get _ = err key_error

-- Null
abbrev pub null_type : DataType
null_type = record {
  parse = λ s. ok (null_c_type, seek_cur 1 s);
  to_python = λ o. ok none_value;
  from_python = λ s v. ok (write s (tc_null ∷ []));
}

-- The class behind a name, where `element` is what the elements of a container go through.
unfoldable pub class_of :
    (others : ClassName → DataType) (element : DataType) → ClassName → DataType
class_of others element null_class = null_type
class_of others element byte_object = nullable (data_object Primitive.byte)
class_of others element short_object = nullable (data_object Primitive.short)
class_of others element int_object = nullable (data_object Primitive.int_type)
class_of others element long_object = nullable (data_object Primitive.long)
class_of others element char_object = nullable (data_object Primitive.char)
class_of others element bool_object = nullable (data_object Primitive.bool_type)
class_of others element uuid_object = nullable uuid_class
class_of others element enum_object = nullable (enum_class tc_enum)
class_of others element binary_enum_object = nullable (enum_class tc_binary_enum)
class_of others element byte_array = nullable (array_class Primitive.byte)
class_of others element short_array = nullable (array_class Primitive.short)
class_of others element int_array = nullable (array_class Primitive.int_type)
class_of others element long_array = nullable (array_class Primitive.long)
class_of others element char_array = nullable (array_class Primitive.char)
class_of others element bool_array = nullable (array_class Primitive.bool_type)
class_of others element uuid_array =
    nullable (standard_array_class tc_uuid_array (nullable uuid_class))
class_of others element date_array =
    nullable (standard_array_class tc_date_array (others date_object))
class_of others element timestamp_array =
    nullable (standard_array_class tc_timestamp_array (others timestamp_object))
class_of others element time_array =
    nullable (standard_array_class tc_time_array (others time_object))
class_of others element enum_array = nullable (enum_array_class (nullable (enum_class tc_enum)))
class_of others element string_object = nullable string_class
class_of others element string_array =
    nullable (standard_array_class tc_string_array (nullable string_class))
class_of others element decimal_array =
    nullable (standard_array_class tc_decimal_array (others decimal_object))
class_of others element object_array = nullable (object_array_class element)
class_of others element collection_object = nullable (collection_class element)
class_of others element map_object = nullable (map_object_class element)
class_of others element wrapped_object = nullable wrapped_class
class_of others element c = others c
