-- ===== src/Types/String.antt =====
-- `String` of pyignite/datatypes/standard.py: a length and that many bytes of UTF-8.
pub mod Laws
pub mod Cut
use ignite_python_thin_clien.Base.{
  ℕ, zero, ◌+◌, List, [], ◌∷◌, ◌++◌, length, ℤ, pos, ltb_ℤ, if◌then◌else◌,
}
use ignite_python_thin_clien.Base.Bytes.{le_bytes, from_bytes, wrap}
use ignite_python_thin_clien.Result.{Result, ok, err, type_error, ◌>>=◌}
use ignite_python_thin_clien.Stream.{Stream, write, slice, tell, seek_cur}
use ignite_python_thin_clien.Ctypes.{
  CType, CObject, c_byte, c_int, chars, struct, field, end, get_int, get_text, assign_chars,
  type_code, length_attr, data_attr, sizeof,
}
use ignite_python_thin_clien.Text.{utf8_encode, utf8_decode}
use ignite_python_thin_clien.Value.{Value, str, bytes}
use ignite_python_thin_clien.Types.{tc_string}
use ignite_python_thin_clien.Types.Nullable.{DataClass}

-- build_c_type(cls, length)
unfoldable pub build_c_type : ℕ → CType
build_c_type n =
    struct (field type_code c_byte (field length_attr c_int (field data_attr (chars n) end)))

-- A `str` is encoded; bytes are taken as they are.
unfoldable pub encoded : Value → Result (List ℕ)
encoded (str cs) = utf8_encode cs
encoded (bytes bs) = ok bs
encoded _ = err type_error

abbrev pub string_bytes : List ℕ → List ℕ
string_bytes bs = tc_string ∷ (le_bytes 4 (wrap 4 (pos (length bs))) ++ assign_chars bs)

unfoldable pub write_not_null : Stream → Value → Result Stream
unfolding encoded
write_not_null s v = do bs ← encoded v; ok (write s (string_bytes bs))

unfoldable pub parse_not_null : Stream → Result (CType × Stream)
unfolding build_c_type
parse_not_null s =
    let n = from_bytes (slice (pos (tell s + 1)) 4 s) in
    ok (build_c_type n, seek_cur (sizeof (build_c_type n)) s)

-- The text of the field, where it is not empty.
unfoldable pub text_of : ℤ → List ℕ → Result Value
text_of n bs = if ltb_ℤ (pos 0) n then (do cs ← utf8_decode bs; ok (str cs)) else ok (str [])

unfoldable pub read_not_null : CObject → Result Value
unfolding text_of
read_not_null o = do n ← get_int o length_attr; bs ← get_text o data_attr; text_of n bs

abbrev pub string_class : DataClass
string_class = record {
  from_python_not_null = write_not_null;
  parse_not_null = parse_not_null;
  to_python_not_null = read_not_null;
}
