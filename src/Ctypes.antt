-- ===== src/Ctypes.antt =====
-- What the client uses of the standard library's `ctypes`: packed little-endian structures of
-- integers, integer arrays and structures, their size, and `from_buffer_copy`.
pub mod Laws
use ignite_python_thin_clien.Base.{
  ℕ, zero, suc, ◌+◌, ◌-◌, ◌*◌, ◌<◌, Bool, true, false, List, [], ◌∷◌, ◌++◌, replicate, ℤ, pos, ltb,
  ◌==◌, if◌then◌else◌, length, take, drop,
}
use ignite_python_thin_clien.Base.Bytes.{from_bytes, signed}
use ignite_python_thin_clien.Result.{
  Result, ok, err, value_error, attribute_error, type_error, ◌>>=◌,
}

-- The attribute names of the structures; `element i` is `f'element_{i}'`.
pub data Attr : Type 0 where
  type_code length_attr value data_attr scale type_id ordinal type_attr : Attr
  payload offset op_code query_id flags status_code : Attr
  affinity_version affinity_minor error_message success count : Attr
  element : ℕ → Attr

-- An integer has a signedness and a number of bytes; an array, those of its items and their count.
-- `chars n` is `c_char * n`.
mutual
  pub data CType : Type 0 where
    scalar : Bool → ℕ → CType
    array : Bool → ℕ → ℕ → CType
    chars : ℕ → CType
    struct : Fields → CType

  pub data Fields : Type 0 where
    end : Fields
    field : Attr → CType → Fields → Fields

abbrev pub c_byte : CType
c_byte = scalar true 1

abbrev pub c_short : CType
c_short = scalar true 2

abbrev pub c_int : CType
c_int = scalar true 4

abbrev pub c_longlong : CType
c_longlong = scalar true 8

unfoldable mutual
  pub sizeof : CType → ℕ
  sizeof (scalar s k) = k
  sizeof (array s k n) = k * n
  sizeof (chars n) = n
  sizeof (struct fs) = sizeof_fields fs

  pub sizeof_fields : Fields → ℕ
  sizeof_fields end = 0
  sizeof_fields (field a t fs) = sizeof t + sizeof_fields fs

-- An instance: integers as Python reads them.
mutual
  pub data CObject : Type 0 where
    int : ℤ → CObject
    ints : List ℤ → CObject
    text : List ℕ → CObject
    members : Members → CObject

  pub data Members : Type 0 where
    none_left : Members
    member : Attr → CObject → Members → Members

unfoldable pub read_int : Bool → ℕ → List ℕ → ℤ
read_int true k bs = signed k (from_bytes bs)
read_int false k bs = pos (from_bytes bs)

unfoldable pub read_ints : Bool → ℕ → ℕ → List ℕ → List ℤ
read_ints s k zero bs = []
read_ints s k (suc n) bs = read_int s k (take k bs) ∷ read_ints s k n (drop k bs)

-- A field of type `c_char * n` is a C string: it is read, and copied, up to the first zero.
unfoldable pub cut : List ℕ → List ℕ
cut [] = []
cut (b ∷ bs) = if b == 0 then [] else b ∷ cut bs

-- obj.data = bs, at such a field of `length bs` bytes.
unfoldable pub assign_chars : List ℕ → List ℕ
unfolding cut
assign_chars bs = cut bs ++ replicate (length bs - length (cut bs)) 0

unfoldable mutual
  pub decode : CType → List ℕ → CObject
  decode (scalar s k) bs = int (read_int s k (take k bs))
  decode (array s k n) bs = ints (read_ints s k n bs)
  decode (chars n) bs = text (cut (take n bs))
  decode (struct fs) bs = members (decode_fields fs bs)

  pub decode_fields : Fields → List ℕ → Members
  decode_fields end bs = none_left
  decode_fields (field a t fs) bs = member a (decode t bs) (decode_fields fs (drop (sizeof t) bs))

-- ctype_class.from_buffer_copy(buf): the buffer must hold the whole structure.
unfoldable pub from_buffer_copy : CType → List ℕ → Result CObject
from_buffer_copy t buf = if ltb (length buf) (sizeof t) then err value_error else ok (decode t buf)

abbrev pub attr_eq : Attr → Attr → Bool
attr_eq type_code type_code = true
attr_eq length_attr length_attr = true
attr_eq value value = true
attr_eq data_attr data_attr = true
attr_eq scale scale = true
attr_eq type_id type_id = true
attr_eq ordinal ordinal = true
attr_eq type_attr type_attr = true
attr_eq payload payload = true
attr_eq offset offset = true
attr_eq op_code op_code = true
attr_eq query_id query_id = true
attr_eq flags flags = true
attr_eq status_code status_code = true
attr_eq affinity_version affinity_version = true
attr_eq affinity_minor affinity_minor = true
attr_eq error_message error_message = true
attr_eq success success = true
attr_eq count count = true
attr_eq (element i) (element j) = i == j
attr_eq _ _ = false

unfoldable pub lookup_member : Attr → Members → Result CObject
lookup_member a none_left = err attribute_error
lookup_member a (member b o ms) = if attr_eq a b then ok o else lookup_member a ms

-- getattr(obj, name)
unfoldable pub getattr : CObject → Attr → Result CObject
unfolding lookup_member
getattr (members ms) a = lookup_member a ms
getattr (int z) a = err attribute_error
getattr (ints zs) a = err attribute_error
getattr (text bs) a = err attribute_error

abbrev pub as_int : CObject → Result ℤ
as_int (int z) = ok z
as_int _ = err type_error

abbrev pub as_ints : CObject → Result (List ℤ)
as_ints (ints zs) = ok zs
as_ints _ = err type_error

abbrev pub as_text : CObject → Result (List ℕ)
as_text (text bs) = ok bs
as_text _ = err type_error

abbrev pub get_text : CObject → Attr → Result (List ℕ)
get_text o a = getattr o a >>= as_text

abbrev pub get_int : CObject → Attr → Result ℤ
get_int o a = getattr o a >>= as_int

abbrev pub get_ints : CObject → Attr → Result (List ℤ)
get_ints o a = getattr o a >>= as_ints
