-- ===== src/Types/DataObject/Laws.antt =====
-- What a primitive object is written as, and what it is read back as.
use ignite_python_thin_clien.Base.{
  ℕ, ◌<◌, ◌≤◌, ◌≡◌, ◌≢◌, refl, sym, arith, Bool, true, false, List, [], ◌∷◌, ◌++◌, ℤ, pos, length,
  lt→ltb, take, take-all,
}
use ignite_python_thin_clien.Base.Bytes.{
  le_bytes, wrap, wrap-lt, signed, from_bytes, from_bytes-le_bytes, length-le_bytes,
}
use ignite_python_thin_clien.Result.{Result, ok, err, overflow_error, ◌>>=◌}
use ignite_python_thin_clien.Stream.{Stream, write, seek_cur}
use ignite_python_thin_clien.Stream.Writes.{written_at_end}
use ignite_python_thin_clien.Stream.Laws.{stream_at, advanced, write_end_twice}
use ignite_python_thin_clien.Ctypes.{decode, sizeof, read_int, getattr, get_int, value, type_code}
use ignite_python_thin_clien.Value.{Value, int, bool, str, of_bool}
use ignite_python_thin_clien.Text.{is_surrogate, utf16_encode, utf16_char, utf16_decode_unit}
use ignite_python_thin_clien.Types.{tc_null, tc_char}
use ignite_python_thin_clien.Types.Primitive.{
  Primitive, byte, short, int_type, long, char, bool_type, width, in_range, char_value, to_bytes,
  decode_char,
}
use ignite_python_thin_clien.Types.Primitive.Laws.{signed-wrap}
use ignite_python_thin_clien.Types.Nullable.{from_python, loads}
use ignite_python_thin_clien.Types.Nullable.Laws.{RoundTrips, loads_not_null}
use ignite_python_thin_clien.Types.DataObject.{
  code_of, build_c_type, object_bytes, write_not_null, parse_not_null, read_not_null, data_object,
}

-- A stored integer reads back as the signed value of its bytes.
pub read_int-le_bytes :
    (k : ℕ) (z : ℤ) → read_int true k (take k (le_bytes k (wrap k z))) ≡ signed k (wrap k z)
unfolding read_int
read_int-le_bytes k z = rw (
  take-all k (le_bytes k (wrap k z)) (sym (length-le_bytes k (wrap k z))),
  from_bytes-le_bytes k (wrap k z) (wrap-lt k z),
)

pub decode_value :
    (p : Primitive) (z : ℤ)
    → get_int (decode (build_c_type p) (object_bytes p z)) value
      ≡ ok (signed (width p) (wrap (width p) z))
unfolding decode build_c_type getattr sizeof
decode_value byte z = rw (read_int-le_bytes 1 z)
decode_value short z = rw (read_int-le_bytes 2 z)
decode_value int_type z = rw (read_int-le_bytes 4 z)
decode_value long z = rw (read_int-le_bytes 8 z)
decode_value char z = rw (read_int-le_bytes 2 z)
decode_value bool_type z = rw (read_int-le_bytes 1 z)

pub decode_code :
    (p : Primitive) (z : ℤ)
    → get_int (decode (build_c_type p) (object_bytes p z)) type_code ≡ ok (pos (code_of p))
unfolding decode build_c_type getattr sizeof read_int from_bytes signed
decode_code byte z = refl
decode_code _ z = refl

pub object_size : (p : Primitive) (z : ℤ) → length (object_bytes p z) ≡ sizeof (build_c_type p)
unfolding build_c_type sizeof
object_size byte z = rw (length-le_bytes 1 (wrap 1 z))
object_size short z = rw (length-le_bytes 2 (wrap 2 z))
object_size int_type z = rw (length-le_bytes 4 (wrap 4 z))
object_size long z = rw (length-le_bytes 8 (wrap 8 z))
object_size char z = rw (length-le_bytes 2 (wrap 2 z))
object_size bool_type z = rw (length-le_bytes 1 (wrap 1 z))

pub code_ne_null : (p : Primitive) → code_of p ≢ tc_null
code_ne_null byte = omega arith
code_ne_null _ = omega arith

module _ (p : Primitive) (pre rest : List ℕ) where
  -- The bytes of an object read as whatever `read_not_null` makes of them.
  pub loads_object :
      (z : ℤ) (w : Result Value)
      → read_not_null p (decode (build_c_type p) (object_bytes p z)) ≡ w
      → loads (data_object p) (stream_at pre (object_bytes p z ++ rest))
        ≡ (w >>= λ v. ok (v, advanced pre (object_bytes p z ++ rest) (length (object_bytes p z))))
  loads_object z w e =
      loads_not_null (data_object p) pre rest (build_c_type p) (code_of p)
        (le_bytes (width p) (wrap (width p) z)) w (code_ne_null p)
        (unfold parse_not_null seek_cur in refl) (object_size p z) (decode_code p z) e

-- ByteObject, ShortObject, IntObject and LongObject hold an integer.
abbrev pub IsInteger : Primitive → Type 0
IsInteger char = ⊥
IsInteger bool_type = ⊥
IsInteger _ = Unit {0}

pub read_integer :
    (p : Primitive) (z : ℤ)
    → IsInteger p
    → in_range (width p) z ≡ true
    → read_not_null p (decode (build_c_type p) (object_bytes p z)) ≡ ok (int z)
unfolding read_not_null
read_integer char z i h = absurd i
read_integer bool_type z i h = absurd i
read_integer byte z i h = rw (decode_value byte z, signed-wrap 1 z h)
read_integer short z i h = rw (decode_value short z, signed-wrap 2 z h)
read_integer int_type z i h = rw (decode_value int_type z, signed-wrap 4 z h)
read_integer long z i h = rw (decode_value long z, signed-wrap 8 z h)

pub write_integer :
    (p : Primitive) (s : Stream) (z : ℤ)
    → IsInteger p
    → write_not_null p s (int z) ≡ ok (write s (object_bytes p z))
unfolding write_not_null
write_integer char s z i = absurd i
write_integer bool_type s z i = absurd i
write_integer _ s z i = refl

-- An integer that fits the class is written behind its type code, little-endian in two's complement,
-- and is read back, whatever stands before and after it.
pub integer_round_trip :
    (p : Primitive) (pre rest : List ℕ) (z : ℤ)
    → IsInteger p
    → in_range (width p) z ≡ true
    → RoundTrips (data_object p) pre rest (int z) (int z) (object_bytes p z)
unfolding from_python
integer_round_trip p pre rest z i h = (
  written_at_end pre (object_bytes p z) (write_integer p (stream_at pre []) z i),
  loads_object p pre rest z (ok (int z)) (read_integer p z i h),
)

pub read_bool :
    (b : Bool)
    → read_not_null bool_type (decode (build_c_type bool_type) (object_bytes bool_type (of_bool b)))
      ≡ ok (bool b)
unfolding read_not_null
read_bool true = rw (decode_value bool_type (pos 1)) (unfold signed wrap in refl)
read_bool false = rw (decode_value bool_type (pos 0)) (unfold signed wrap in refl)

pub write_bool :
    (s : Stream) (b : Bool)
    → write_not_null bool_type s (bool b) ≡ ok (write s (object_bytes bool_type (of_bool b)))
unfolding write_not_null
write_bool s b = refl

-- A boolean is written as the byte 1 or 0, and is read back.
pub bool_round_trip :
    (pre rest : List ℕ) (b : Bool)
    → RoundTrips
        (data_object bool_type)
        pre
        rest
        (bool b)
        (bool b)
        (object_bytes bool_type (of_bool b))
unfolding from_python
bool_round_trip pre rest b = (
  written_at_end pre (object_bytes bool_type (of_bool b)) (write_bool (stream_at pre []) b),
  loads_object bool_type pre rest (of_bool b) (ok (bool b)) (read_bool b),
)

abbrev char_bytes : ℕ → List ℕ
char_bytes c = object_bytes char (pos c)

char_value_bmp :
    (c : ℕ) → c < 0x10000 → is_surrogate c ≡ false → char_value (str (c ∷ [])) ≡ ok (pos c)
unfolding char_value utf16_encode utf16_char from_bytes
char_value_bmp c h n = rw (n, lt→ltb c 0x10000 h) (ground arith)

wrap_char : (c : ℕ) → c < 0x10000 → wrap 2 (pos c) ≡ c
unfolding wrap
wrap_char c h = omega arith

write_char :
    (pre : List ℕ) (c : ℕ)
    → c < 0x10000
    → is_surrogate c ≡ false
    → write_not_null char (stream_at pre []) (str (c ∷ []))
      ≡ ok (stream_at (pre ++ char_bytes c) [])
unfolding write_not_null to_bytes
write_char pre c h n = rw (
  char_value_bmp c h n,
  lt→ltb c 0x10000 h,
  write_end_twice pre (tc_char ∷ []) (le_bytes 2 c),
  wrap_char c h,
)

read_char :
    (c : ℕ)
    → c < 0x8000
    → read_not_null char (decode (build_c_type char) (char_bytes c)) ≡ ok (str (c ∷ []))
unfolding read_not_null decode_char utf16_decode_unit le_bytes
read_char c h = rw (decode_value char (pos c), signed-wrap 2 (pos c) (ground arith)) (ground arith)

read_char_high :
    (c : ℕ)
    → 0x8000 ≤ c
    → c < 0x10000
    → read_not_null char (decode (build_c_type char) (char_bytes c)) ≡ err overflow_error
unfolding read_not_null decode_char signed wrap
read_char_high c h k = rw (decode_value char (pos c)) (ground arith)

-- A character below U+8000 is read back.
pub char_round_trip :
    (pre rest : List ℕ) (c : ℕ)
    → c < 0x8000
    → RoundTrips (data_object char) pre rest (str (c ∷ [])) (str (c ∷ [])) (char_bytes c)
unfolding from_python
char_round_trip pre rest c h = (
  write_char pre c (omega arith) (ground arith),
  loads_object char pre rest (pos c) (ok (str (c ∷ []))) (read_char c h),
)

-- Any other character of the plane that is no surrogate is written, and cannot be read back: the
-- unit is read as a negative `c_short`, which `to_bytes` refuses.
pub char_high_unreadable :
    (pre rest : List ℕ) (c : ℕ)
    → 0x8000 ≤ c
    → c < 0x10000
    → is_surrogate c ≡ false
    → (from_python (data_object char) (stream_at pre []) (str (c ∷ []))
        ≡ ok (stream_at (pre ++ char_bytes c) []))
      × (loads (data_object char) (stream_at pre (char_bytes c ++ rest)) ≡ err overflow_error)
unfolding from_python
char_high_unreadable pre rest c h k n = (
  write_char pre c k n,
  loads_object char pre rest (pos c) (err overflow_error) (read_char_high c h k),
)
