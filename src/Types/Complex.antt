-- ===== src/Types/Complex.antt =====
-- pyignite/datatypes/complex.py, over what reads and writes an element: object arrays, collections,
-- maps and wrapped data. `any` stands for `AnyDataObject`, whose `from_python` here is
-- `infer_from_python`.
pub mod Laws
pub mod Maps
use ignite_python_thin_clien.Base.{
  if◌then◌else◌, eq_ℤ, ℕ, zero, suc, ◌+◌, true, List, [], ◌∷◌, length, map, ℤ, pos,
}
use ignite_python_thin_clien.Base.Bytes.{from_bytes, wrap}
use ignite_python_thin_clien.Result.{Result, ok, err, attribute_error, parse_error, ◌>>=◌}
use ignite_python_thin_clien.Stream.{Stream, write, slice, tell, seek_cur}
use ignite_python_thin_clien.Ctypes.{
  CType, CObject, c_byte, c_int, array, struct, field, end, getattr, get_int, get_ints, type_code,
  type_id, length_attr, type_attr, payload, offset, element, sizeof,
}
use ignite_python_thin_clien.Value.{
  Value, Values, Entries, nil, cons, empty, entry, none_value, int, bytes, list, tuple, dict,
  ordered_dict, iterate,
}
use ignite_python_thin_clien.Value.Equality.{set_item}
use ignite_python_thin_clien.Types.{tc_object_array, tc_collection, tc_map, tc_null}
use ignite_python_thin_clien.Types.Nullable.{DataClass}
use ignite_python_thin_clien.Types.Array.{write_length, range_length}
use ignite_python_thin_clien.Types.Sequence.{
  DataType, Layout, counted, typed, identified, parse_sequence, read_sequence, write_elements,
  value_to_signed_bytes, unpack_pair,
}

-- A value with no length is the only item of a list.
unfoldable pub items_of : Value → List Value
items_of v = elim (iterate v) [ ok vs ↦ vs | err _ ↦ v ∷ [] ]

-- The pair of the integer in the header and a list.
unfoldable pub with_list : Result ℤ → Result Values → Result Value
with_list header elements = do
  vs ← elements
  z ← header
  ok (tuple (cons (int z) (cons (list vs) nil)))

-- ObjectArrayObject.__write_header(stream, value), of a value with `n` items
unfoldable pub write_object_array_header : Stream → Value → ℕ → Result Stream
unfolding write_length value_to_signed_bytes
write_object_array_header s id n = do
  bs ← value_to_signed_bytes 4 id
  write_length (write (write s (tc_object_array ∷ [])) bs) n

unfoldable pub write_object_array : DataType → Stream → Value → Result Stream
unfolding unpack_pair items_of write_object_array_header write_elements
write_object_array any s v = do
  (id, xs) ← unpack_pair v
  s' ← write_object_array_header s id (length (items_of xs))
  write_elements any s' (items_of xs)

unfoldable pub read_object_array : DataType → CObject → Result Value
unfolding read_sequence with_list
read_object_array any o = with_list (get_int o type_id) (read_sequence any o)

-- ObjectArrayObject.parse_not_null(stream)
abbrev pub parse_object_array : DataType → Stream → Result (CType × Stream)
parse_object_array any = parse_sequence identified 1 any

abbrev pub object_array_class : DataType → DataClass
object_array_class any = record {
  from_python_not_null = write_object_array any;
  parse_not_null = parse_object_array any;
  to_python_not_null = read_object_array any;
}

-- CollectionObject.__write_header(stream, type_id, length)
unfoldable pub write_collection_header : Stream → Value → ℕ → Result Stream
unfolding write_length value_to_signed_bytes
write_collection_header s id n = do
  s' ← write_length (write s (tc_collection ∷ [])) n
  bs ← value_to_signed_bytes 1 id
  ok (write s' bs)

unfoldable pub write_collection : DataType → Stream → Value → Result Stream
unfolding unpack_pair items_of write_collection_header write_elements
write_collection any s v = do
  (id, xs) ← unpack_pair v
  s' ← write_collection_header s id (length (items_of xs))
  write_elements any s' (items_of xs)

unfoldable pub read_collection : DataType → CObject → Result Value
unfolding read_sequence with_list
read_collection any o = with_list (get_int o type_attr) (read_sequence any o)

-- CollectionObject.parse_not_null(stream)
abbrev pub parse_collection : DataType → Stream → Result (CType × Stream)
parse_collection any = parse_sequence typed 1 any

abbrev pub collection_class : DataType → DataClass
collection_class any = record {
  from_python_not_null = write_collection any;
  parse_not_null = parse_collection any;
  to_python_not_null = read_collection any;
}

-- _MapBase._to_python(ctypes_object), from the element `i` on, for `n` entries.
unfoldable pub read_entries : DataType → (i n : ℕ) → CObject → Entries → Result Entries
unfolding set_item
read_entries any i zero o result = ok result
read_entries any i (suc n) o result = do
  x ← getattr o (element i)
  k ← any.to_python x
  y ← getattr o (element (suc i))
  v ← any.to_python y
  result' ← set_item result k v
  read_entries any (suc (suc i)) n o result'

abbrev pub hash_map : ℤ
hash_map = pos 1

abbrev pub linked_hash_map : ℤ
linked_hash_map = pos 2

-- __get_map_class(ctypes_object), of the attribute `type`, and the map of this class
unfoldable pub map_of : ℤ → Entries → Value
map_of map_type es = if eq_ℤ map_type linked_hash_map then ordered_dict es else dict es

-- _MapBase._to_python(ctypes_object), of an object with this `type`
unfoldable pub read_map : DataType → ℤ → CObject → Result Value
unfolding read_entries map_of
read_map any map_type o = do
  n ← get_int o length_attr
  es ← read_entries any 0 (range_length n) o empty
  ok (map_of map_type es)

abbrev pub count_entries : Entries → ℕ
count_entries empty = 0
count_entries (entry k v es) = suc (count_entries es)

-- for k, v in value.items()
unfoldable pub write_entries : DataType → Stream → Entries → Result Stream
write_entries any s empty = ok s
write_entries any s (entry k v es) = do
  s1 ← any.from_python s k
  s2 ← any.from_python s1 v
  write_entries any s2 es

-- value.items()
abbrev pub items : Value → Result Entries
items (dict es) = ok es
items (ordered_dict es) = ok es
items _ = err attribute_error

-- _MapBase._from_python(stream, value, type_id), where `header` writes the header of a length.
unfoldable pub write_map : (Stream → ℕ → Result Stream) → DataType → Stream → Value → Result Stream
unfolding write_entries
write_map header any s v = do
  ks ← iterate v
  s' ← header s (length ks)
  es ← items v
  write_entries any s' es

-- _MapBase._parse(stream), behind either header.
abbrev pub parse_map : Layout → DataType → Stream → Result (CType × Stream)
parse_map layout any = parse_sequence layout 2 any

-- Map, payload only: its structure has no `type`.
unfoldable pub map_payload : DataType → DataType
unfolding read_map write_map write_length
map_payload any = record {
  parse = parse_map counted any;
  to_python = λ o. read_map any hash_map o;
  from_python = write_map write_length any;
}

-- MapObject._write_header(stream, type_id, length)
unfoldable pub write_map_header : Value → Stream → ℕ → Result Stream
unfolding write_length value_to_signed_bytes
write_map_header id s n = do
  s' ← write_length (write s (tc_map ∷ [])) n
  bs ← value_to_signed_bytes 1 id
  ok (write s' bs)

-- MapObject.from_python_not_null(stream, value)
unfoldable pub write_map_object : DataType → Stream → Value → Result Stream
unfolding unpack_pair write_map write_map_header
write_map_object any s v = unpack_pair v >>= λ p. elim p.1 [
  | none_value ↦ ok (write s (tc_null ∷ []))
  | x ↦ write_map (write_map_header p.0) any s x
]

unfoldable pub read_map_object : DataType → CObject → Result Value
unfolding read_map
read_map_object any o = do
  z ← get_int o type_attr
  m ← read_map any z o
  ok (tuple (cons (int z) (cons m nil)))

abbrev pub map_object_class : DataType → DataClass
map_object_class any = record {
  from_python_not_null = write_map_object any;
  parse_not_null = parse_map typed any;
  to_python_not_null = read_map_object any;
}

-- WrappedDataObject
abbrev wrapped_c_type : ℕ → CType
wrapped_c_type n = struct (
    field type_code c_byte
      (field length_attr c_int (field payload (array true 1 n) (field offset c_int end))))

unfoldable pub parse_wrapped : Stream → Result (CType × Stream)
parse_wrapped s =
    let n = from_bytes (slice (pos (tell s + sizeof c_byte)) 4 s) in
    ok (wrapped_c_type n, seek_cur (sizeof (wrapped_c_type n)) s)

unfoldable pub read_wrapped : CObject → Result Value
read_wrapped o = do
  zs ← get_ints o payload
  z ← get_int o offset
  ok (tuple (cons (bytes (map (λ z. wrap 1 z) zs)) (cons (int z) nil)))

unfoldable pub write_wrapped : Stream → Value → Result Stream
write_wrapped s v = err parse_error

abbrev pub wrapped_class : DataClass
wrapped_class = record {
  from_python_not_null = write_wrapped;
  parse_not_null = parse_wrapped;
  to_python_not_null = read_wrapped;
}
