-- ===== src/Types/Primitive.antt =====
-- pyignite/datatypes/primitive.py: payloads with no type code.
pub mod Laws
use ignite_python_thin_clien.Base.{
  ℕ, zero, suc, ◌+◌, ◌*◌, ◌^◌, ◌<◌, Bool, true, false, List, [], ◌∷◌, ◌&&◌, ltb, leb, not, eq_ℤ,
  if◌then◌else◌, ℤ, pos, negsuc,
}
use ignite_python_thin_clien.Base.Bytes.{le_bytes, from_bytes, wrap}
use ignite_python_thin_clien.Result.{
  Result, ok, err, struct_error, overflow_error, attribute_error, type_error, ◌>>=◌,
}
use ignite_python_thin_clien.Stream.{Stream, write, seek_cur}
use ignite_python_thin_clien.Ctypes.{
  CType, CObject, as_int, c_byte, c_short, c_int, c_longlong, sizeof,
}
use ignite_python_thin_clien.Text.{utf16_encode, utf16_decode_unit}
use ignite_python_thin_clien.Value.{
  Value, none_value, bool, int, float, str, bytes, index, truthy, of_bool,
}

pub data Primitive : Type 0 where
  byte short int_type long char bool_type : Primitive

unfoldable pub c_type : Primitive → CType
c_type byte = c_byte
c_type short = c_short
c_type int_type = c_int
c_type long = c_longlong
c_type char = c_short
c_type bool_type = c_byte

abbrev pub width : Primitive → ℕ
width byte = 1
width short = 2
width int_type = 4
width long = 8
width char = 2
width bool_type = 1

abbrev pub in_range : ℕ → ℤ → Bool
in_range k (pos n) = ltb (2 * n) (256 ^ k)
in_range k (negsuc n) = leb (2 * suc n) (256 ^ k)

-- struct.pack("<b", z), "<h", "<i", "<q": out of range is an error.
unfoldable pub struct_pack : ℕ → Value → Result (List ℕ)
struct_pack k v = elim (index v) [
  | ok z ↦ if in_range k z then ok (le_bytes k (wrap k z)) else err struct_error
  | err e ↦ err struct_error
]

-- z.to_bytes(k, 'little')
unfoldable pub to_bytes : ℕ → ℤ → Result (List ℕ)
to_bytes k (pos n) = if ltb n (256 ^ k) then ok (le_bytes k n) else err overflow_error
to_bytes k (negsuc n) = err overflow_error

-- The three steps by which `Char` and `CharObject` turn what they are given into an integer.
unfoldable pub char_value : Value → Result ℤ
char_value (str cs) = do bs ← utf16_encode cs; ok (pos (from_bytes bs))
char_value (bytes bs) = ok (pos (from_bytes bs))
char_value (int z) = ok z
char_value (bool b) = ok (of_bool b)
char_value _ = err attribute_error

unfoldable pub pack : Primitive → Value → Result (List ℕ)
unfolding struct_pack to_bytes char_value
pack byte v = struct_pack 1 v
pack short v = struct_pack 2 v
pack int_type v = struct_pack 4 v
pack long v = struct_pack 8 v
pack char v = do z ← char_value v; to_bytes 2 z
pack bool_type v = struct_pack 1 (int (of_bool (truthy v)))

-- from_python(cls, stream, value)
unfoldable pub from_python : Primitive → Stream → Value → Result Stream
from_python p s v = do bs ← pack p v; ok (write s bs)

-- parse(cls, stream)
unfoldable pub parse : Primitive → Stream → Result (CType × Stream)
unfolding c_type
parse p s = ok (c_type p, seek_cur (sizeof (c_type p)) s)

-- v.to_bytes(2, 'little').decode('utf-16le'), as `Char`, `CharObject` and `CharArrayObject` have it.
unfoldable pub decode_char : ℤ → Result Value
unfolding to_bytes
decode_char z = do bs ← to_bytes 2 z; cs ← utf16_decode_unit bs; ok (str cs)

-- to_python(cls, v) of the integer that a structure's attribute reads as. `Char` takes `v.value`,
-- which an `int` does not have.
unfoldable pub to_python : Primitive → ℤ → Result Value
to_python bool_type z = ok (bool (not (eq_ℤ z (pos 0))))
to_python char z = err attribute_error
to_python _ z = ok (int z)
