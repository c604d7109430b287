-- ===== src/Types/Any/Texts.antt =====
-- What `AnyDataObject` makes of a list of texts, with None among them.
use ignite_python_thin_clien.Base.{
  ℕ, suc, ◌^◌, ◌<◌, ◌≡◌, refl, ap, subst, arith, true, List, [], ◌∷◌, ◌++◌, length, All, Option,
  some, none,
}
use ignite_python_thin_clien.Base.Bytes.{le_bytes}
use ignite_python_thin_clien.Result.{ok}
use ignite_python_thin_clien.Stream.{decode_with}
use ignite_python_thin_clien.Stream.Laws.{stream_at, advanced}
use ignite_python_thin_clien.Stream.Writes.{written_at_end}
use ignite_python_thin_clien.Text.{IsScalar, utf8_encode}
use ignite_python_thin_clien.Value.{
  Value, ClassName, cons, str, none_value, list, of_list, iterate, string_array, to_list-of_list,
}
use ignite_python_thin_clien.Types.{tc_string_array}
use ignite_python_thin_clien.Types.Sequence.{DataType, nullable, coded, layout_fields}
use ignite_python_thin_clien.Ctypes.{struct}
use ignite_python_thin_clien.Types.Sequence.Laws.{
  Piece, Stores, bytes_of, fields_of, given_of, returned_of,
}
use ignite_python_thin_clien.Types.Sequence.Header.{header_bytes}
use ignite_python_thin_clien.Types.String.{string_class}
use ignite_python_thin_clien.Types.Standard.Laws.{
  null_piece, null-Stores, standard_array_piece, standard_array-Coded,
}
use ignite_python_thin_clien.Types.Any.{class_of, code_of_class}
use ignite_python_thin_clien.Types.Any.Guess.{
  type_str, map_python_type, type_of, python_map, iterable_class, get_subtype, all_of, isinstance,
  array_or_pair, python_array_map, any_data_object, classes,
}
use ignite_python_thin_clien.Types.Any.Leaf.{string_piece, string-Coded}
use ignite_python_thin_clien.Types.Any.Element.{any-Stores}
use ignite_python_thin_clien.Types.Any.Nested.{loads_stored}

-- A text and its UTF-8 form, or None.
abbrev pub OptionalText : Type 0
OptionalText = Option (List ℕ × List ℕ)

-- Scalar values other than U+0000, whose UTF-8 form is shorter than 2^31 bytes.
abbrev pub IsText : OptionalText → Type 0
IsText none = Unit {0}
IsText (some (cs, bs)) =
    All IsScalar cs × All (λ c. 0 < c) cs × (utf8_encode cs ≡ ok bs) × (length bs < 2 ^ 31)

abbrev pub text_piece : OptionalText → Piece
text_piece none = null_piece
text_piece (some (cs, bs)) = string_piece cs bs

unfoldable pub text_pieces : List OptionalText → List Piece
text_pieces [] = []
text_pieces (t ∷ ts) = text_piece t ∷ text_pieces ts

length-text_pieces : (ts : List OptionalText) → length (text_pieces ts) ≡ length ts
unfolding text_pieces
length-text_pieces [] = refl
length-text_pieces (t ∷ ts) = ap suc (length-text_pieces ts)

text-Stores : (t : OptionalText) → IsText t → Stores (nullable string_class) (text_piece t)
text-Stores none h = null-Stores string_class
text-Stores (some (cs, bs)) (s, n, e, l) = (string-Coded cs bs s n e l).stores

texts-Stores :
    (ts : List OptionalText) → All IsText ts → All (Stores (nullable string_class)) (text_pieces ts)
unfolding text_pieces
texts-Stores [] h = tt
texts-Stores (t ∷ ts) (h, hs) = (text-Stores t h, texts-Stores ts hs)

all_texts : (ts : List OptionalText) → all_of type_str (given_of (text_pieces ts)) ≡ true
unfolding all_of isinstance type_of text_pieces given_of
all_texts [] = refl
all_texts (none ∷ ts) = rw (all_texts ts)
all_texts (some (cs, bs) ∷ ts) = rw (all_texts ts)

map_python_type-texts :
    (cs bs : List ℕ) (ts : List OptionalText)
    → map_python_type (list (of_list (given_of (text_pieces (some (cs, bs) ∷ ts)))))
      ≡ ok string_array
unfolding map_python_type type_of python_map iterable_class iterate get_subtype array_or_pair
    python_array_map
map_python_type-texts cs bs ts =
    rw (to_list-of_list (given_of (text_pieces (some (cs, bs) ∷ ts))))
      (unfold text_pieces given_of get_subtype type_of array_or_pair in rw (all_texts ts))

-- The values of texts, and what is read back from them: the same.
unfoldable pub text_values : List OptionalText → List Value
text_values [] = []
text_values (none ∷ ts) = none_value ∷ text_values ts
text_values (some (cs, bs) ∷ ts) = str cs ∷ text_values ts

given-text_pieces : (ts : List OptionalText) → given_of (text_pieces ts) ≡ text_values ts
unfolding given_of text_pieces text_values
given-text_pieces [] = refl
given-text_pieces (none ∷ ts) = ap (λ l. none_value ∷ l) (given-text_pieces ts)
given-text_pieces (some (cs, bs) ∷ ts) = ap (λ l. str cs ∷ l) (given-text_pieces ts)

returned-text_pieces :
    (ts : List OptionalText) → returned_of (text_pieces ts) ≡ of_list (text_values ts)
unfolding returned_of text_pieces text_values of_list
returned-text_pieces [] = refl
returned-text_pieces (none ∷ ts) = ap (λ l. cons none_value l) (returned-text_pieces ts)
returned-text_pieces (some (cs, bs) ∷ ts) = ap (λ l. cons (str cs) l) (returned-text_pieces ts)

-- The bytes of an array of texts: its type code and count, and each text or null.
unfoldable pub text_array_bytes : List OptionalText → List ℕ
text_array_bytes ts = tc_string_array ∷ (le_bytes 4 (length ts) ++ bytes_of (text_pieces ts))

-- The piece that such a list is.
abbrev texts_piece : List OptionalText → Piece
texts_piece ts = record {
  given = list (of_list (text_values ts));
  stored = text_array_bytes ts;
  c_type = struct (layout_fields coded (fields_of 0 (text_pieces ts)));
  returned = list (of_list (text_values ts));
}

texts_piece_lem :
    (ts : List OptionalText)
    → standard_array_piece tc_string_array (text_pieces ts) ≡ texts_piece ts
unfolding text_array_bytes header_bytes
texts_piece_lem ts = λ i. record {
  given = list (of_list (given-text_pieces ts i));
  stored = tc_string_array ∷ (le_bytes 4 (length-text_pieces ts i) ++ bytes_of (text_pieces ts));
  c_type = struct (layout_fields coded (fields_of 0 (text_pieces ts)));
  returned = list (returned-text_pieces ts i);
}

texts_piece-Stores :
    (others : ClassName → DataType) (d : ℕ) (cs bs : List ℕ) (ts : List OptionalText)
    → All IsText (some (cs, bs) ∷ ts)
    → length (some (cs, bs) ∷ ts) < 2 ^ 31
    → Stores (any_data_object (classes others d)) (texts_piece (some (cs, bs) ∷ ts))
unfolding classes class_of code_of_class
texts_piece-Stores others d cs bs ts h l =
    let all = some (cs, bs) ∷ ts in
    let n : length (text_pieces all) ≡ length all = length-text_pieces all in
    let small : length (text_pieces all) < 2 ^ 31 = omega (arith, n) in
    subst (Stores (any_data_object (classes others d))) (texts_piece_lem all) (
      any-Stores (classes others d) string_array
        (standard_array_piece tc_string_array (text_pieces all))
        (standard_array-Coded (nullable string_class) tc_string_array (text_pieces all) small
          (texts-Stores all h) (omega arith) (omega arith))
        (map_python_type-texts cs bs ts))

-- A list that begins with a text and goes on with texts and None, fewer than 2^31 and each text of
-- scalar values other than U+0000 with a UTF-8 form shorter than 2^31 bytes, is written by
-- `AnyDataObject` as a string array and is read back, None included, whatever stands before and
-- after it.
pub texts_round_trip :
    (others : ClassName → DataType) (d : ℕ) (cs bs : List ℕ) (ts : List OptionalText)
    (pre rest : List ℕ)
    → All IsText (some (cs, bs) ∷ ts)
    → length (some (cs, bs) ∷ ts) < 2 ^ 31
    → ((any_data_object (classes others d)).from_python
          (stream_at pre [])
          (list (of_list (text_values (some (cs, bs) ∷ ts))))
        ≡ ok (stream_at (pre ++ text_array_bytes (some (cs, bs) ∷ ts)) []))
      × (decode_with
            (any_data_object (classes others d)).parse
            (any_data_object (classes others d)).to_python
            (stream_at pre (text_array_bytes (some (cs, bs) ∷ ts) ++ rest))
          ≡ ok (
            list (of_list (text_values (some (cs, bs) ∷ ts))),
            advanced pre
                (text_array_bytes (some (cs, bs) ∷ ts) ++ rest)
                (length (text_array_bytes (some (cs, bs) ∷ ts))),
          ))
texts_round_trip others d cs bs ts pre rest h l =
    let stores = texts_piece-Stores others d cs bs ts h l in
    (written_at_end pre _ (stores.writes (stream_at pre [])), loads_stored _ _ pre rest stores)
