-- ===== src/Types/Standard.antt =====
-- UUIDs, enumerations and arrays of standard objects, of pyignite/datatypes/standard.py.
pub mod Laws
use ignite_python_thin_clien.Base.{
  ℕ, zero, ◌+◌, true, List, [], ◌∷◌, ◌++◌, length, map, set, get_or, replicate, ℤ,
}
use ignite_python_thin_clien.Base.Bytes.{le_bytes, wrap}
use ignite_python_thin_clien.Result.{Result, ok, err, attribute_error, ◌>>=◌}
use ignite_python_thin_clien.Stream.{Stream, write, seek_cur}
use ignite_python_thin_clien.Ctypes.{
  CType, CObject, c_byte, c_int, array, struct, field, end, get_int, get_ints, type_code, type_id,
  ordinal, value, sizeof,
}
use ignite_python_thin_clien.Value.{
  Value, Values, nil, cons, int, uuid, list, tuple, index, iterate,
}
use ignite_python_thin_clien.Types.{tc_uuid, tc_enum_array}
use ignite_python_thin_clien.Types.Nullable.{DataClass}
use ignite_python_thin_clien.Types.Array.{write_length}
use ignite_python_thin_clien.Types.Sequence.{
  DataType, Layout, counted, coded, identified, parse_sequence, read_sequence, write_elements,
  value_to_signed_bytes, unpack_pair,
}

-- UUIDObject.UUID_BYTE_ORDER
abbrev pub uuid_byte_order : List ℕ
uuid_byte_order = 7 ∷ 6 ∷ 5 ∷ 4 ∷ 3 ∷ 2 ∷ 1 ∷ 0 ∷ 15 ∷ 14 ∷ 13 ∷ 12 ∷ 11 ∷ 10 ∷ 9 ∷ 8 ∷ []

-- UUIDObject.build_c_type()
unfoldable pub uuid_c_type : CType
uuid_c_type = struct (field type_code c_byte (field value (array true 1 16) end))

-- for i, byte in zip(order, bytes): buf[i] = byte
unfoldable pub store : List ℕ → List ℕ → List ℕ → List ℕ
store [] bs buf = buf
store (i ∷ is) [] buf = buf
store (i ∷ is) (b ∷ bs) buf = store is bs (set buf i b)

-- value.bytes
abbrev uuid_bytes : Value → Result (List ℕ)
uuid_bytes (uuid bs) = ok bs
uuid_bytes _ = err attribute_error

unfoldable pub write_uuid : Stream → Value → Result Stream
unfolding store
write_uuid s v = do
  bs ← uuid_bytes v
  ok (write s (tc_uuid ∷ store uuid_byte_order bs (replicate 16 0)))

-- StandardObject.parse_not_null(stream)
unfoldable pub parse_standard : CType → Stream → Result (CType × Stream)
parse_standard t s = ok (t, seek_cur (sizeof t) s)

unfoldable pub read_uuid : CObject → Result Value
read_uuid o = do
  zs ← get_ints o value
  ok (uuid (map (λ i. get_or (map (λ z. wrap 1 z) zs) i 0) uuid_byte_order))

abbrev pub uuid_class : DataClass
uuid_class = record {
  from_python_not_null = write_uuid;
  parse_not_null = parse_standard uuid_c_type;
  to_python_not_null = read_uuid;
}

-- EnumObject.build_c_type()
unfoldable pub enum_c_type : CType
enum_c_type = struct (field type_code c_byte (field type_id c_int (field ordinal c_int end)))

-- EnumObject and BinaryEnumObject, by their type code.
unfoldable pub write_enum : ℕ → Stream → Value → Result Stream
unfolding unpack_pair
write_enum code s v = do
  (x, y) ← unpack_pair v
  a ← index x
  b ← index y
  ok (write s (code ∷ (le_bytes 4 (wrap 4 a) ++ le_bytes 4 (wrap 4 b))))

unfoldable pub read_enum : CObject → Result Value
read_enum o = do
  a ← get_int o type_id
  b ← get_int o ordinal
  ok (tuple (cons (int a) (cons (int b) nil)))

abbrev pub enum_class : ℕ → DataClass
enum_class code = record {
  from_python_not_null = write_enum code;
  parse_not_null = parse_standard enum_c_type;
  to_python_not_null = read_enum;
}

-- len(value)
unfoldable pub len : Value → Result ℕ
len v = do vs ← iterate v; ok (length vs)

-- _StandardArrayBase._from_python(stream, value), where `header` writes the header of a value.
unfoldable pub write_array :
    (Stream → Value → Result Stream) → DataType → Stream → Value → Result Stream
unfolding write_elements
write_array header standard_type s v = do
  s' ← header s v
  vs ← iterate v
  write_elements standard_type s' vs

-- StandardArray._write_header(stream, value)
unfoldable pub write_counted_header : Stream → Value → Result Stream
unfolding len write_length
write_counted_header s v = len v >>= write_length s

-- _StandardArrayBase._to_python(ctypes_object)
unfoldable pub read_array : DataType → CObject → Result Value
unfolding read_sequence
read_array standard_type o = do vs ← read_sequence standard_type o; ok (list vs)

-- _StandardArrayBase._parse(stream), behind any of the headers.
abbrev pub parse_array : Layout → DataType → Stream → Result (CType × Stream)
parse_array layout standard_type = parse_sequence layout 1 standard_type

-- StandardArray, payload only.
unfoldable pub standard_array : DataType → DataType
unfolding read_array write_array write_counted_header
standard_array standard_type = record {
  parse = parse_array counted standard_type;
  to_python = read_array standard_type;
  from_python = write_array write_counted_header standard_type;
}

-- StandardArrayObject._write_header(stream, value)
unfoldable pub write_coded_header : ℕ → Stream → Value → Result Stream
unfolding len write_length
write_coded_header code s v = len v >>= write_length (write s (code ∷ []))

-- StringArrayObject, UUIDArrayObject and the like, by their type code and the type of the items.
abbrev pub standard_array_class : ℕ → DataType → DataClass
standard_array_class code standard_type = record {
  from_python_not_null = write_array (write_coded_header code) standard_type;
  parse_not_null = parse_array coded standard_type;
  to_python_not_null = read_array standard_type;
}

-- EnumArrayObject._write_header(stream, value, type_id)
unfoldable pub write_enum_header : Value → Stream → Value → Result Stream
unfolding len write_length value_to_signed_bytes
write_enum_header id s v = do
  bs ← value_to_signed_bytes 4 id
  n ← len v
  write_length (write (write s (tc_enum_array ∷ [])) bs) n

unfoldable pub write_enum_array : DataType → Stream → Value → Result Stream
unfolding unpack_pair write_array write_enum_header
write_enum_array standard_type s v =
    unpack_pair v >>= λ p. write_array (write_enum_header p.0) standard_type s p.1

unfoldable pub read_enum_array : DataType → CObject → Result Value
unfolding read_array
read_enum_array standard_type o = do
  z ← get_int o type_id
  v ← read_array standard_type o
  ok (tuple (cons (int z) (cons v nil)))

abbrev pub enum_array_class : DataType → DataClass
enum_array_class standard_type = record {
  from_python_not_null = write_enum_array standard_type;
  parse_not_null = parse_array identified standard_type;
  to_python_not_null = read_enum_array standard_type;
}
