-- ===== src/Types/Sequence.antt =====
-- What arrays, collections and maps of pyignite/datatypes/standard.py and complex.py share: a header
-- with a count, and elements that another class parses, reads and writes one after the other.
pub mod Laws
pub mod Header
pub mod Coded
use ignite_python_thin_clien.Base.{
  ℕ, zero, suc, ◌+◌, ◌*◌, List, [], ◌∷◌, length, ℤ, pos, Option, none, some,
}
use ignite_python_thin_clien.Base.Bytes.{from_bytes}
use ignite_python_thin_clien.Result.{
  Result, ok, err, attribute_error, type_error, value_error, ◌>>=◌,
}
use ignite_python_thin_clien.Stream.{Stream, write, slice, tell, seek_cur}
use ignite_python_thin_clien.Ctypes.{
  CType, CObject, Fields, c_byte, c_int, struct, field, end, getattr, get_int, type_code, type_id,
  length_attr, type_attr, element, sizeof, sizeof_fields,
}
use ignite_python_thin_clien.Value.{
  Value, Values, nil, cons, bool, int, list, of_list, of_bool, iterate,
}
use ignite_python_thin_clien.Types.Nullable
use ignite_python_thin_clien.Types.Nullable.{DataClass}
use ignite_python_thin_clien.Types.Array.{write_length, range_length}
use ignite_python_thin_clien.Query.{to_signed_bytes}

-- The methods of an IgniteDataType.
pub record DataType : Type 0 where
  pub parse : Stream → Result (CType × Stream)
  pub to_python : CObject → Result Value
  pub from_python : Stream → Value → Result Stream

-- A class that inherits them from `Nullable`.
abbrev pub nullable : DataClass → DataType
nullable cls = record {
  parse = Nullable.parse cls;
  to_python = Nullable.to_python cls;
  from_python = Nullable.from_python cls;
}

-- The headers: a count alone (`Map`, `StandardArray`); behind a type code (`StandardArrayObject`);
-- with the collection's or map's type behind it (`CollectionObject`, `MapObject`); with a type id
-- in front of it (`ObjectArrayObject`, `EnumArrayObject`).
pub data Layout : Type 0 where
  counted coded typed identified : Layout

-- The `_fields_` of the header, and those that follow.
unfoldable pub layout_fields : Layout → Fields → Fields
layout_fields counted fs = field length_attr c_int fs
layout_fields coded fs = field type_code c_byte (field length_attr c_int fs)
layout_fields typed fs =
    field type_code c_byte (field length_attr c_int (field type_attr c_byte fs))
layout_fields identified fs =
    field type_code c_byte (field type_id c_int (field length_attr c_int fs))

-- Where the count stands.
unfoldable pub length_offset : Layout → ℕ
length_offset counted = 0
length_offset identified = sizeof c_byte + sizeof c_int
length_offset _ = sizeof c_byte

-- How far the header is skipped.
unfoldable pub header_size : Layout → ℕ
header_size counted = sizeof c_int
header_size coded = sizeof c_int + sizeof c_byte
header_size typed = sizeof c_int + 2 * sizeof c_byte
header_size identified = 2 * sizeof c_int + sizeof c_byte

-- for i in range(n): fields.append((f'element_{i}', cls.parse(stream)))
unfoldable pub parse_elements : DataType → (i n : ℕ) → Stream → Result (Fields × Stream)
parse_elements cls i zero s = ok (end, s)
parse_elements cls i (suc n) s = do
  (t, s') ← cls.parse s
  (fs, last) ← parse_elements cls (suc i) n s'
  ok (field (element i) t fs, last)

-- `times` is what the count is multiplied by: 2 for the keys and values of a map.
unfoldable pub parse_sequence : Layout → (times : ℕ) → DataType → Stream → Result (CType × Stream)
unfolding length_offset header_size layout_fields parse_elements
parse_sequence layout times cls s =
    let n = from_bytes (slice (pos (tell s + length_offset layout)) 4 s) in
    parse_elements cls 0 (times * n) (seek_cur (header_size layout) s) >>= λ r.
    ok (struct (layout_fields layout r.0), r.1)

-- [cls.to_python(getattr(ctypes_object, f'element_{i}')) for i in range(i, i + n)]
unfoldable pub read_elements : DataType → (i n : ℕ) → CObject → Result Values
read_elements cls i zero o = ok nil
read_elements cls i (suc n) o = do
  x ← getattr o (element i)
  v ← cls.to_python x
  vs ← read_elements cls (suc i) n o
  ok (cons v vs)

unfoldable pub read_sequence : DataType → CObject → Result Values
unfolding read_elements
read_sequence cls o = do n ← get_int o length_attr; read_elements cls 0 (range_length n) o

-- for x in value: cls.from_python(stream, x)
unfoldable pub write_elements : DataType → Stream → List Value → Result Stream
write_elements cls s [] = ok s
write_elements cls s (v ∷ vs) = do s' ← cls.from_python s v; write_elements cls s' vs

-- value.to_bytes(k, byteorder, signed=True)
unfoldable pub value_to_signed_bytes : ℕ → Value → Result (List ℕ)
unfolding to_signed_bytes
value_to_signed_bytes k (int z) = to_signed_bytes k z
value_to_signed_bytes k (bool b) = to_signed_bytes k (of_bool b)
value_to_signed_bytes k _ = err attribute_error

-- first, second = value
unfoldable pub unpack_pair : Value → Result (Value × Value)
unpack_pair v = iterate v >>= λ vs. elim vs [ x ∷ y ∷ [] ↦ ok (x, y) | _ ↦ err value_error ]
