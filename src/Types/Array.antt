-- ===== src/Types/Array.antt =====
-- pyignite/datatypes/primitive_arrays.py: arrays of primitives, without a type code (`PrimitiveArray`)
-- and with one (`PrimitiveArrayObject`).
pub mod Laws
pub mod Items
use ignite_python_thin_clien.Base.{
  ℕ, zero, suc, ◌+◌, ◌*◌, ◌^◌, ◌<◌, List, [], ◌∷◌, ◌++◌, length, map, take, ℤ, pos, negsuc, Bool,
  true, false, not, eq_ℤ, ltb, leb, if◌then◌else◌,
}
use ignite_python_thin_clien.Base.Bytes.{le_bytes, from_bytes, wrap}
use ignite_python_thin_clien.Result.{
  Result, ok, err, value_error, overflow_error, index_error, type_error, ◌>>=◌,
}
use ignite_python_thin_clien.Stream.{Stream, write, slice, tell, seek_cur}
use ignite_python_thin_clien.Ctypes.{
  CType, CObject, c_byte, c_int, array, struct, field, end, get_int, get_ints, type_code,
  length_attr, data_attr, sizeof,
}
use ignite_python_thin_clien.Value.{Value, int, bool, str, bytes, list, of_list, iterate, index}
use ignite_python_thin_clien.Types.{
  tc_byte_array, tc_short_array, tc_int_array, tc_long_array, tc_char_array, tc_bool_array,
}
use ignite_python_thin_clien.Types.Primitive
use ignite_python_thin_clien.Types.Primitive.{
  Primitive, byte, short, int_type, long, char, bool_type, width, to_bytes, decode_char,
}
use ignite_python_thin_clien.Types.Nullable.{DataClass}

abbrev pub array_code : Primitive → ℕ
array_code byte = tc_byte_array
array_code short = tc_short_array
array_code int_type = tc_int_array
array_code long = tc_long_array
array_code char = tc_char_array
array_code bool_type = tc_bool_array

-- `primitive_type.c_type * length`
abbrev pub items : Primitive → ℕ → CType
items p n = array true (width p) n

-- The type of the payload, and that of the object.
unfoldable pub payload_c_type : Primitive → ℕ → CType
payload_c_type p n = struct (field length_attr c_int (field data_attr (items p n) end))

unfoldable pub object_c_type : Primitive → ℕ → CType
object_c_type p n =
    struct (field type_code c_byte (field length_attr c_int (field data_attr (items p n) end)))

-- PrimitiveArray.parse(stream)
unfoldable pub parse_payload : Primitive → Stream → Result (CType × Stream)
unfolding payload_c_type
parse_payload p s =
    let n = from_bytes (slice (pos (tell s)) 4 s) in
    ok (payload_c_type p n, seek_cur (sizeof (payload_c_type p n)) s)

-- PrimitiveArrayObject.parse_not_null(stream)
unfoldable pub parse_object : Primitive → Stream → Result (CType × Stream)
unfolding object_c_type
parse_object p s =
    let n = from_bytes (slice (pos (tell s + 1)) 4 s) in
    ok (object_c_type p n, seek_cur (sizeof (object_c_type p n)) s)

-- PrimitiveArray._write_header(stream, value), of a value with `n` items
unfoldable pub write_length : Stream → ℕ → Result Stream
unfolding to_bytes
write_length s n = do bs ← to_bytes 4 (pos n); ok (write s bs)

-- for x in value: primitive_type.from_python(stream, x)
unfoldable pub write_items : Primitive → Stream → List Value → Result Stream
write_items p s [] = ok s
write_items p s (v ∷ vs) = do s' ← Primitive.from_python p s v; write_items p s' vs

-- An item of `bytearray(value)`.
unfoldable pub plain_byte : Value → Result ℕ
plain_byte v = do
  z ← index v
  elim z [ pos n ↦ if ltb n 256 then ok n else err value_error | negsuc n ↦ err value_error ]

-- An item from -128 to 255, as an unsigned byte.
unfoldable pub any_byte : Value → Result ℕ
any_byte v = do
  z ← index v
  elim z [
    | pos n ↦ if ltb n 256 then ok n else err value_error
    | negsuc n ↦ if ltb n 128 then ok (wrap 1 (negsuc n)) else err value_error
  ]

unfoldable pub map_result : (Value → Result ℕ) → List Value → Result (List ℕ)
map_result f [] = ok []
map_result f (v ∷ vs) = do b ← f v; bs ← map_result f vs; ok (b ∷ bs)

-- The buffer that ByteArrayObject.from_python_not_null writes: a ValueError of `bytearray(value)` is
-- followed by the loop over signed bytes.
unfoldable pub byte_buffer : List Value → Result (List ℕ)
unfolding map_result plain_byte any_byte
byte_buffer vs = elim (map_result plain_byte vs) [
  | ok bs ↦ ok bs
  | err value_error ↦ map_result any_byte vs
  | err e ↦ err e
]

-- What `bytearray(value)` iterates over: a `str` is refused.
abbrev byte_items : Value → Result (List Value)
byte_items (str cs) = err type_error
byte_items v = iterate v

-- PrimitiveArray.from_python(stream, value)
unfoldable pub write_payload : Primitive → Stream → Value → Result Stream
unfolding write_length write_items map_result
write_payload byte s v = do
  vs ← byte_items v
  s' ← write_length s (length vs)
  bs ← map_result plain_byte vs
  ok (write s' bs)
write_payload p s v = do vs ← iterate v; s' ← write_length s (length vs); write_items p s' vs

-- PrimitiveArrayObject.from_python_not_null(stream, value)
unfoldable pub write_object : Primitive → Stream → Value → Result Stream
unfolding write_length write_items byte_buffer
write_object byte s v = do
  vs ← byte_items v
  s' ← write_length (write s (tc_byte_array ∷ [])) (length vs)
  bs ← byte_buffer vs
  ok (write s' bs)
write_object p s v = do
  vs ← iterate v
  s' ← write_length (write s (array_code p ∷ [])) (length vs)
  write_items p s' vs

-- [ctypes_object.data[i] for i in range(ctypes_object.length)]
unfoldable pub take_items : ℕ → List ℤ → Result (List ℤ)
take_items zero zs = ok []
take_items (suc n) [] = err index_error
take_items (suc n) (z ∷ zs) = do rest ← take_items n zs; ok (z ∷ rest)

abbrev pub range_length : ℤ → ℕ
range_length (pos n) = n
range_length (negsuc n) = 0

unfoldable pub read_items : CObject → Result (List ℤ)
unfolding take_items
read_items o = do
  n ← get_int o length_attr
  zs ← get_ints o data_attr
  take_items (range_length n) zs

unfoldable pub decode_chars : List ℤ → Result (List Value)
unfolding decode_char
decode_chars [] = ok []
decode_chars (z ∷ zs) = do v ← decode_char z; vs ← decode_chars zs; ok (v ∷ vs)

-- PrimitiveArray.to_python(ctypes_object)
unfoldable pub read_payload : Primitive → CObject → Result Value
unfolding read_items
read_payload byte o = do zs ← get_ints o data_attr; ok (bytes (map (λ z. wrap 1 z) zs))
read_payload p o = do zs ← read_items o; ok (list (of_list (map int zs)))

-- PrimitiveArrayObject.to_python_not_null(ctypes_object)
unfoldable pub read_object : Primitive → CObject → Result Value
unfolding read_items decode_chars
read_object byte o = do zs ← get_ints o data_attr; ok (bytes (map (λ z. wrap 1 z) zs))
read_object char o = do zs ← read_items o; vs ← decode_chars zs; ok (list (of_list vs))
read_object bool_type o = do
  zs ← read_items o
  ok (list (of_list (map (λ z. bool (not (eq_ℤ z (pos 0)))) zs)))
read_object p o = do zs ← read_items o; ok (list (of_list (map int zs)))

abbrev pub array_class : Primitive → DataClass
array_class p = record {
  from_python_not_null = write_object p;
  parse_not_null = parse_object p;
  to_python_not_null = read_object p;
}
