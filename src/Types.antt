-- ===== src/Types.antt =====
-- pyignite/datatypes/type_codes.py, the base class `Nullable` and the null object.
pub mod Primitive
pub mod Nullable
pub mod DataObject
pub mod String
pub mod Array
pub mod Sequence
pub mod Standard
pub mod Complex
pub mod Any
use ignite_python_thin_clien.Base.{ℕ}

abbrev pub tc_byte : ℕ
tc_byte = 0x01

abbrev pub tc_short : ℕ
tc_short = 0x02

abbrev pub tc_int : ℕ
tc_int = 0x03

abbrev pub tc_long : ℕ
tc_long = 0x04

abbrev pub tc_char : ℕ
tc_char = 0x07

abbrev pub tc_bool : ℕ
tc_bool = 0x08

abbrev pub tc_string : ℕ
tc_string = 0x09

abbrev pub tc_uuid : ℕ
tc_uuid = 0x0a

abbrev pub tc_byte_array : ℕ
tc_byte_array = 0x0c

abbrev pub tc_short_array : ℕ
tc_short_array = 0x0d

abbrev pub tc_int_array : ℕ
tc_int_array = 0x0e

abbrev pub tc_long_array : ℕ
tc_long_array = 0x0f

abbrev pub tc_char_array : ℕ
tc_char_array = 0x12

abbrev pub tc_bool_array : ℕ
tc_bool_array = 0x13

abbrev pub tc_string_array : ℕ
tc_string_array = 0x14

abbrev pub tc_uuid_array : ℕ
tc_uuid_array = 0x15

abbrev pub tc_object_array : ℕ
tc_object_array = 0x17

abbrev pub tc_collection : ℕ
tc_collection = 0x18

abbrev pub tc_map : ℕ
tc_map = 0x19

abbrev pub tc_wrapped : ℕ
tc_wrapped = 0x1b

abbrev pub tc_decimal : ℕ
tc_decimal = 0x1e

abbrev pub tc_null : ℕ
tc_null = 0x65

abbrev pub tc_float : ℕ
tc_float = 0x05

abbrev pub tc_double : ℕ
tc_double = 0x06

abbrev pub tc_date : ℕ
tc_date = 0x0b

abbrev pub tc_float_array : ℕ
tc_float_array = 0x10

abbrev pub tc_double_array : ℕ
tc_double_array = 0x11

abbrev pub tc_date_array : ℕ
tc_date_array = 0x16

abbrev pub tc_enum : ℕ
tc_enum = 0x1c

abbrev pub tc_enum_array : ℕ
tc_enum_array = 0x1d

abbrev pub tc_decimal_array : ℕ
tc_decimal_array = 0x1f

abbrev pub tc_timestamp : ℕ
tc_timestamp = 0x21

abbrev pub tc_timestamp_array : ℕ
tc_timestamp_array = 0x22

abbrev pub tc_time : ℕ
tc_time = 0x24

abbrev pub tc_time_array : ℕ
tc_time_array = 0x25

abbrev pub tc_binary_enum : ℕ
tc_binary_enum = 0x26

abbrev pub tc_complex_object : ℕ
tc_complex_object = 0x67
