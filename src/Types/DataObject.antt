-- ===== src/Types/DataObject.antt =====
-- pyignite/datatypes/primitive_objects.py: a primitive behind its type code.
pub mod Laws
use ignite_python_thin_clien.Base.{
  ℕ, List, [], ◌∷◌, Bool, true, false, not, ◌^◌, ◌%◌, ℤ, pos, negsuc, eq_ℤ, bit_xor, ◌/◌,
  if◌then◌else◌,
}
use ignite_python_thin_clien.Base.Bytes.{le_bytes, wrap}
use ignite_python_thin_clien.Result.{Result, ok, err, type_error, ◌>>=◌}
use ignite_python_thin_clien.Stream.{Stream, write, seek_cur}
use ignite_python_thin_clien.Ctypes.{
  CType, CObject, c_byte, struct, field, end, get_int, type_code, value, sizeof,
}
use ignite_python_thin_clien.Value.{Value, int, bool, str, index}
use ignite_python_thin_clien.Types.{tc_byte, tc_short, tc_int, tc_long, tc_char, tc_bool}
use ignite_python_thin_clien.Types.Primitive.{
  Primitive, byte, short, int_type, long, char, bool_type, c_type, width, char_value, to_bytes,
  decode_char,
}
use ignite_python_thin_clien.Types.Nullable.{DataClass}

abbrev pub code_of : Primitive → ℕ
code_of byte = tc_byte
code_of short = tc_short
code_of int_type = tc_int
code_of long = tc_long
code_of char = tc_char
code_of bool_type = tc_bool

-- build_c_type(cls)
unfoldable pub build_c_type : Primitive → CType
unfolding c_type
build_c_type p = struct (field type_code c_byte (field value (c_type p) end))

-- The bytes of the structure whose `value` has been assigned an integer.
abbrev pub object_bytes : Primitive → ℤ → List ℕ
object_bytes p z = code_of p ∷ le_bytes (width p) (wrap (width p) z)

unfoldable pub write_not_null : Primitive → Stream → Value → Result Stream
write_not_null char s v = do
  z ← char_value v
  bs ← to_bytes 2 z
  ok (write (write s (tc_char ∷ [])) bs)
write_not_null p s v = do z ← index v; ok (write s (object_bytes p z))

unfoldable pub parse_not_null : Primitive → Stream → Result (CType × Stream)
unfolding build_c_type
parse_not_null p s = ok (build_c_type p, seek_cur (sizeof (build_c_type p)) s)

unfoldable pub read_not_null : Primitive → CObject → Result Value
read_not_null bool_type o = do z ← get_int o value; ok (bool (not (eq_ℤ z (pos 0))))
read_not_null char o = do z ← get_int o value; decode_char z
read_not_null _ o = do z ← get_int o value; ok (int z)

-- ByteObject, ShortObject, IntObject, LongObject, CharObject and BoolObject.
abbrev pub data_object : Primitive → DataClass
data_object p = record {
  from_python_not_null = write_not_null p;
  parse_not_null = parse_not_null p;
  to_python_not_null = read_not_null p;
}
