-- ===== src/Types/Any/Leaf.antt =====
-- The values without elements that the classes of `tc_map` store.
use ignite_python_thin_clien.Base.{
  ℕ, ◌^◌, ◌<◌, ◌≡◌, refl, ap, ◌∙◌, arith, Bool, true, List, [], ◌∷◌, length, map, ℤ, All,
}
use ignite_python_thin_clien.Base.Bytes.{le_bytes, wrap, from_bytes, signed}
use ignite_python_thin_clien.Result.{ok}
use ignite_python_thin_clien.Stream.Laws.{seek_past, advanced-stream_at}
use ignite_python_thin_clien.Ctypes.{decode, sizeof, getattr, read_int}
use ignite_python_thin_clien.Text.{IsScalar, utf8_encode}
use ignite_python_thin_clien.Value.{none_value, bool, int, str, list, of_list, of_bool}
use ignite_python_thin_clien.Types.{tc_null, tc_string}
use ignite_python_thin_clien.Types.Primitive.{Primitive, bool_type, width, in_range}
use ignite_python_thin_clien.Types.Nullable
use ignite_python_thin_clien.Types.Nullable.{null_c_type}
use ignite_python_thin_clien.Types.DataObject.{
  code_of, build_c_type, object_bytes, data_object, parse_not_null,
}
use ignite_python_thin_clien.Types.DataObject.Laws as ObjectLaws
use ignite_python_thin_clien.Types.DataObject.Laws.{
  IsInteger, object_size, write_integer, read_integer, read_bool, write_bool,
}
use ignite_python_thin_clien.Types.String
use ignite_python_thin_clien.Types.String.{string_class, string_bytes}
use ignite_python_thin_clien.Types.String.Laws as StringLaws
use ignite_python_thin_clien.Types.String.Cut.{cut-nonzero}
use ignite_python_thin_clien.Types.Array.{array_code, array_class, object_c_type}
use ignite_python_thin_clien.Types.Array.Items.{IsWide, InRange, array_bytes, write_wide}
use ignite_python_thin_clien.Types.Array.Laws as ArrayLaws
use ignite_python_thin_clien.Types.Sequence.{nullable}
use ignite_python_thin_clien.Types.Sequence.Laws.{Piece}
use ignite_python_thin_clien.Types.Sequence.Coded.{Coded, nullable-Coded}
use ignite_python_thin_clien.Types.Any.{null_type}

abbrev pub null_piece : Piece
null_piece = record {
  given = none_value;
  stored = tc_null ∷ [];
  c_type = null_c_type;
  returned = none_value;
}

pub null-Coded : Coded null_type tc_null null_piece
null-Coded = record {
  stores = record {
    writes = λ s. refl;
    parses = λ pre rest. rw (seek_past pre (tc_null ∷ []) rest 1 refl);
    size = unfold sizeof in refl;
    reads = refl;
  };
  more = [];
  starts = refl;
  tagged = unfold decode getattr sizeof read_int from_bytes signed in refl;
}

abbrev pub integer_piece : Primitive → ℤ → Piece
integer_piece p z = record {
  given = int z;
  stored = object_bytes p z;
  c_type = build_c_type p;
  returned = int z;
}

pub integer-Coded :
    (p : Primitive) (z : ℤ)
    → IsInteger p
    → in_range (width p) z ≡ true
    → Coded (nullable (data_object p)) (code_of p) (integer_piece p z)
integer-Coded p z i h =
    nullable-Coded (data_object p) (int z) (code_of p) (le_bytes (width p) (wrap (width p) z))
      (build_c_type p) (int z) (ObjectLaws.code_ne_null p)
      (λ s. unfold Nullable.from_python in write_integer p s z i)
      (λ pre rest.
        unfold parse_not_null in
        rw (seek_past pre (object_bytes p z) rest (sizeof (build_c_type p)) (object_size p z)))
      (object_size p z) (ObjectLaws.decode_code p z) (read_integer p z i h)

abbrev pub boolean_piece : Bool → Piece
boolean_piece b = record {
  given = bool b;
  stored = object_bytes bool_type (of_bool b);
  c_type = build_c_type bool_type;
  returned = bool b;
}

pub boolean-Coded :
    (b : Bool) → Coded (nullable (data_object bool_type)) (code_of bool_type) (boolean_piece b)
boolean-Coded b =
    let bs = object_bytes bool_type (of_bool b) in
    nullable-Coded (data_object bool_type) (bool b) (code_of bool_type)
      (le_bytes 1 (wrap 1 (of_bool b))) (build_c_type bool_type) (bool b)
      (ObjectLaws.code_ne_null bool_type) (λ s. unfold Nullable.from_python in write_bool s b)
      (λ pre rest.
        unfold parse_not_null in
        rw (
          seek_past pre bs rest (sizeof (build_c_type bool_type))
            (object_size bool_type (of_bool b))))
      (object_size bool_type (of_bool b)) (ObjectLaws.decode_code bool_type (of_bool b))
      (read_bool b)

-- Text `cs` whose UTF-8 form is `bs`.
abbrev pub string_piece : List ℕ → List ℕ → Piece
string_piece cs bs = record {
  given = str cs;
  stored = string_bytes bs;
  c_type = String.build_c_type (length bs);
  returned = str cs;
}

pub string-Coded :
    (cs bs : List ℕ)
    → All IsScalar cs
    → All (λ c. 0 < c) cs
    → utf8_encode cs ≡ ok bs
    → length bs < 2 ^ 31
    → Coded (nullable string_class) tc_string (string_piece cs bs)
string-Coded cs bs h nz e l =
    nullable-Coded string_class (str cs) tc_string _ (String.build_c_type (length bs)) (str cs)
      (omega arith) (λ s. unfold Nullable.from_python in StringLaws.write_string s cs bs e)
      (λ pre rest.
        StringLaws.parse_string pre rest bs l
        ∙ ap (λ s. ok (String.build_c_type (length bs), s))
            (advanced-stream_at pre (string_bytes bs) rest _ (StringLaws.length_bytes bs)))
      (StringLaws.length_bytes bs) (StringLaws.decode_code bs)
      (StringLaws.read_string cs bs h e l ∙ ap (λ l. ok (str l)) (cut-nonzero cs nz))

abbrev pub array_piece : Primitive → List ℤ → Piece
array_piece p zs = record {
  given = list (of_list (map int zs));
  stored = array_bytes p zs;
  c_type = object_c_type p (length zs);
  returned = list (of_list (map int zs));
}

pub array-Coded :
    (p : Primitive) (zs : List ℤ)
    → IsWide p
    → InRange (width p) zs
    → length zs < 2 ^ 31
    → Coded (nullable (array_class p)) (array_code p) (array_piece p zs)
array-Coded p zs i h l =
    nullable-Coded (array_class p) (list (of_list (map int zs))) (array_code p) _
      (object_c_type p (length zs)) (list (of_list (map int zs))) (ArrayLaws.code_ne_null p)
      (λ s. unfold Nullable.from_python in write_wide p s zs i h l)
      (λ pre rest.
        ArrayLaws.parse_array p zs l pre rest
        ∙ ap (λ s. ok (object_c_type p (length zs), s))
            (advanced-stream_at pre (array_bytes p zs) rest _ (ArrayLaws.array_size p zs)))
      (ArrayLaws.array_size p zs) (ArrayLaws.decode_code p zs l) (ArrayLaws.read_wide p zs l i h)
