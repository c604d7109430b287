-- ===== src/Types/Nullable.antt =====
-- pyignite/datatypes/null_object.py: values that may be null, over the class of their other values.
pub mod Laws
use ignite_python_thin_clien.Base.{
  ℕ, Bool, true, false, List, [], ◌∷◌, ◌==◌, if◌then◌else◌, pos, eq_ℤ,
}
use ignite_python_thin_clien.Result.{Result, ok, err, ◌>>=◌}
use ignite_python_thin_clien.Stream.{Stream, write, slice, here, seek_cur, decode_with}
use ignite_python_thin_clien.Ctypes.{
  CType, CObject, c_byte, struct, field, end, get_int, type_code, sizeof,
}
use ignite_python_thin_clien.Value.{Value, none_value}
use ignite_python_thin_clien.Types.{tc_null}

-- The three methods that a subclass of `Nullable` defines.
pub record DataClass : Type 0 where
  pub from_python_not_null : Stream → Value → Result Stream
  pub parse_not_null : Stream → Result (CType × Stream)
  pub to_python_not_null : CObject → Result Value

-- Null.build_c_type()
abbrev pub null_c_type : CType
null_c_type = struct (field type_code c_byte end)

-- stream.slice(offset=1) == TC_NULL
abbrev pub is_null_code : List ℕ → Bool
is_null_code (b ∷ []) = b == tc_null
is_null_code _ = false

unfoldable pub from_python : DataClass → Stream → Value → Result Stream
from_python cls s none_value = ok (write s (tc_null ∷ []))
from_python cls s v = cls.from_python_not_null s v

unfoldable pub parse : DataClass → Stream → Result (CType × Stream)
parse cls s =
    let rest = cls.parse_not_null s in
    if is_null_code (slice here 1 s) then ok (null_c_type, seek_cur 1 s) else rest

unfoldable pub to_python : DataClass → CObject → Result Value
to_python cls o = do
  code ← get_int o type_code
  if eq_ℤ code (pos tc_null) then ok none_value else cls.to_python_not_null o

-- A value read from the stream.
unfoldable pub loads : DataClass → Stream → Result (Value × Stream)
unfolding decode_with
loads cls = decode_with (parse cls) (to_python cls)
