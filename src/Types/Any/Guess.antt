-- ===== src/Types/Any/Guess.antt =====
-- How `AnyDataObject` of pyignite/datatypes/internal.py finds a class for a value, and
-- `infer_from_python`.
use ignite_python_thin_clien.Base.{
  ℕ, zero, suc, Bool, true, false, List, [], ◌∷◌, length, pos, ◌==◌, ◌&&◌, if◌then◌else◌, Option,
  none, some, get_elem?,
}
use ignite_python_thin_clien.Result.{
  Result, ok, err, type_error, index_error, key_error, parse_error, recursion_error, ◌>>=◌,
}
use ignite_python_thin_clien.Stream.{Stream, slice, here}
use ignite_python_thin_clien.Ctypes.{CType, CObject, get_int, type_code, length_attr}
use ignite_python_thin_clien.Value.{
  Value, nil, cons, none_value, bool, int, float, str, bytes, uuid, decimal, list, tuple, dict,
  ordered_dict, data_class, iterate, to_list, ClassName, null_class, long_object, double_object,
  bool_object, uuid_object, byte_array, long_array, double_array, bool_array, uuid_array,
  string_object, string_array, decimal_object, decimal_array, collection_object, map_object,
}
use ignite_python_thin_clien.Value.Equality.{find}
use ignite_python_thin_clien.Types.Primitive.{to_bytes}
use ignite_python_thin_clien.Types.Array.{write_length, range_length}
use ignite_python_thin_clien.Types.Sequence.{
  DataType, counted, parse_sequence, read_elements, write_elements,
}
use ignite_python_thin_clien.Types.Complex.{items_of}
use ignite_python_thin_clien.Types.Any.{tc_map_get, class_of}

-- type(value); `type_class` is the type of the data classes.
pub data PyType : Type 0 where
  type_none type_bool type_int type_float type_str type_bytes type_uuid : PyType
  type_decimal type_list type_tuple type_dict type_ordered_dict type_class : PyType

unfoldable pub type_of : Value → PyType
type_of none_value = type_none
type_of (bool b) = type_bool
type_of (int z) = type_int
type_of (float bits) = type_float
type_of (str cs) = type_str
type_of (bytes bs) = type_bytes
type_of (uuid bs) = type_uuid
type_of (decimal sign digits e) = type_decimal
type_of (list vs) = type_list
type_of (tuple vs) = type_tuple
type_of (dict es) = type_dict
type_of (ordered_dict es) = type_ordered_dict
type_of (data_class c) = type_class

-- A type, or a base class of it: `bool` is an `int`, and `OrderedDict` a `dict`.
abbrev pub is_subtype : PyType → PyType → Bool
is_subtype type_none type_none = true
is_subtype type_bool type_bool = true
is_subtype type_bool type_int = true
is_subtype type_int type_int = true
is_subtype type_float type_float = true
is_subtype type_str type_str = true
is_subtype type_bytes type_bytes = true
is_subtype type_uuid type_uuid = true
is_subtype type_decimal type_decimal = true
is_subtype type_list type_list = true
is_subtype type_tuple type_tuple = true
is_subtype type_dict type_dict = true
is_subtype type_ordered_dict type_ordered_dict = true
is_subtype type_ordered_dict type_dict = true
is_subtype type_class type_class = true
is_subtype _ _ = false

unfoldable pub isinstance : Value → PyType → Bool
unfolding type_of
isinstance v t = is_subtype (type_of v) t

-- object_array_python_types
abbrev pub allows_none : PyType → Bool
allows_none type_str = true
allows_none type_decimal = true
allows_none type_uuid = true
allows_none _ = false

abbrev is_none : Value → Bool
is_none none_value = true
is_none _ = false

unfoldable pub all_of : PyType → List Value → Bool
unfolding isinstance
all_of t [] = true
all_of t (v ∷ vs) =
    let rest = all_of t vs in
    if isinstance v t then rest else (if is_none v then allows_none t && rest else false)

-- AnyDataObject.get_subtype(iterable): None where the items are of several types.
unfoldable pub get_subtype : List Value → Result (Option PyType)
unfolding all_of type_of
get_subtype [] = err type_error
get_subtype (none_value ∷ vs) = get_subtype vs
get_subtype (v ∷ vs) = ok (if all_of (type_of v) vs then some (type_of v) else none)

-- _python_map
unfoldable pub python_map : PyType → Option ClassName
python_map type_int = some long_object
python_map type_float = some double_object
python_map type_str = some string_object
python_map type_bytes = some byte_array
python_map type_bool = some bool_object
python_map type_none = some null_class
python_map type_uuid = some uuid_object
python_map type_decimal = some decimal_object
python_map _ = none

-- _python_array_map
unfoldable pub python_array_map : PyType → Option ClassName
python_array_map type_int = some long_array
python_array_map type_float = some double_array
python_array_map type_str = some string_array
python_array_map type_bool = some bool_array
python_array_map type_uuid = some uuid_array
python_array_map type_decimal = some decimal_array
python_array_map _ = none

-- value[i]
unfoldable pub item : Value → ℕ → Result Value
item (list vs) i = elim (get_elem? (to_list vs) i) [ some v ↦ ok v | none ↦ err index_error ]
item (tuple vs) i = elim (get_elem? (to_list vs) i) [ some v ↦ ok v | none ↦ err index_error ]
item (dict es) i = elim (find es (int (pos i))) [ some v ↦ ok v | none ↦ err key_error ]
item (ordered_dict es) i = elim (find es (int (pos i))) [ some v ↦ ok v | none ↦ err key_error ]
item _ i = err type_error

abbrev is_dict : Value → Bool
is_dict (dict es) = true
is_dict (ordered_dict es) = true
is_dict _ = false

-- is_iterable(value)
unfoldable pub is_iterable : Value → Bool
is_iterable v = elim (iterate v) [ ok _ ↦ true | err _ ↦ false ]

-- "a little heuristics": every condition of `all([...])` is evaluated.
unfoldable pub pair_class : Bool → ℕ → Value → Result ClassName
unfolding item isinstance is_iterable
pair_class mixed n v = do
  first ← item v 0
  second ← item v 1
  (if (mixed && (n == 2)) && isinstance first type_int
      then (if is_dict second
          then ok map_object
          else if is_iterable second
          then ok collection_object
          else err type_error)
      else err type_error)

unfoldable pub array_or_pair : Value → ℕ → Option PyType → Result ClassName
unfolding python_array_map pair_class
array_or_pair v n none = pair_class true n v
array_or_pair v n (some t) = elim (python_array_map t) [
  | some c ↦ ok c
  | none ↦ pair_class false n v
]

unfoldable pub iterable_class : Value → Result ClassName
unfolding get_subtype array_or_pair
iterable_class v = do vs ← iterate v; subtype ← get_subtype vs; array_or_pair v (length vs) subtype

-- AnyDataObject.map_python_type(value). No value of the model is a complex object.
unfoldable pub map_python_type : Value → Result ClassName
unfolding python_map iterable_class type_of
map_python_type v = elim (python_map (type_of v)) [ some c ↦ ok c | none ↦ iterable_class v ]

-- __unpack_hinted(value) with is_hinted(value): a pair whose second item is no class raises in
-- `issubclass`.
unfoldable pub unpack_hinted : Value → Result (Value × Option ClassName)
unpack_hinted (tuple (cons v (cons (data_class c) nil))) = ok (v, some c)
unpack_hinted (tuple (cons v (cons w nil))) = err type_error
unpack_hinted v = ok (v, none)

module _ (classes : ClassName → DataType) where
  -- AnyDataObject.parse(stream)
  unfoldable pub parse_any : Stream → Result (CType × Stream)
  unfolding tc_map_get
  parse_any s = elim (tc_map_get (slice here 1 s)) [
    | ok c ↦ (classes c).parse s
    | err _ ↦ err parse_error
  ]

  -- AnyDataObject.to_python(ctypes_object)
  unfoldable pub read_any : CObject → Result Value
  unfolding tc_map_get to_bytes
  read_any o = do
    z ← get_int o type_code
    bs ← to_bytes 1 z
    c ← tc_map_get bs
    (classes c).to_python o

  -- AnyDataObject.from_python(stream, value)
  unfoldable pub write_any : Stream → Value → Result Stream
  unfolding map_python_type
  write_any s v = do c ← map_python_type v; (classes c).from_python s v

  -- infer_from_python(stream, value)
  unfoldable pub infer_from_python : Stream → Value → Result Stream
  unfolding unpack_hinted write_any
  infer_from_python s v = unpack_hinted v >>= λ p. elim p.1 [
    | some c ↦ (classes c).from_python s p.0
    | none ↦ write_any s p.0
  ]

  -- AnyDataObject
  abbrev pub any_data_object : DataType
  any_data_object = record { parse = parse_any; to_python = read_any; from_python = write_any }

  -- What an element of a container goes through.
  abbrev pub element_type : DataType
  element_type = record { parse = parse_any; to_python = read_any; from_python = infer_from_python }

abbrev too_deep : DataType
too_deep = record {
  parse = λ s. err recursion_error;
  to_python = λ o. err recursion_error;
  from_python = λ s v. err recursion_error;
}

-- Elements nested up to `depth` deep; Python's recursion ends there.
unfoldable pub elements : (others : ClassName → DataType) → (depth : ℕ) → DataType
unfolding class_of parse_any read_any infer_from_python
elements others zero = too_deep
elements others (suc depth) = element_type (class_of others (elements others depth))

unfoldable pub classes : (others : ClassName → DataType) → (depth : ℕ) → ClassName → DataType
unfolding class_of elements
classes others depth = class_of others (elements others depth)

-- AnyDataArray.to_python(ctypes_object), as Python 3.12 runs it: a structure with no length is empty.
unfoldable pub read_any_array : (ClassName → DataType) → CObject → Result Value
unfolding read_elements parse_any read_any infer_from_python
read_any_array cls o = elim (get_int o length_attr) [
  | err _ ↦ ok (list nil)
  | ok n ↦ do vs ← read_elements (element_type cls) 0 (range_length n) o; ok (list vs)
]

-- AnyDataArray.from_python(stream, value)
unfoldable pub write_any_array : (ClassName → DataType) → Stream → Value → Result Stream
unfolding write_elements items_of write_length infer_from_python
write_any_array cls s v = do
  s' ← write_length s (length (items_of v))
  write_elements (element_type cls) s' (items_of v)

-- AnyDataArray: parse(stream), to_python(ctypes_object) and from_python(stream, value) for a
-- `counter_type` of `c_int`, which is the only one used.
abbrev pub any_data_array : (ClassName → DataType) → DataType
any_data_array cls = record {
  parse = parse_sequence counted 1 (element_type cls);
  to_python = read_any_array cls;
  from_python = write_any_array cls;
}

-- hint or AnyDataObject
abbrev pub hint_or : DataType → Option DataType → DataType
hint_or any none = any
hint_or any (some t) = t
