-- ===== src/Runs/Nested.antt =====
-- Nested values and values of unknown class, at concrete values.
use ignite_python_thin_clien.Base.{
  inl, ◌≡◌, refl, arith, [], ◌∷◌, ◌++◌, length, pos, negsuc, some, none,
}
use ignite_python_thin_clien.Base.Bytes.{le_bytes, wrap}
use ignite_python_thin_clien.Ctypes.{assign_chars, cut}
use ignite_python_thin_clien.Types.Sequence.Header.{header_bytes}
use ignite_python_thin_clien.Result.{ok, err, type_error, index_error, parse_error}
use ignite_python_thin_clien.Stream.{new_stream, decode_with}
use ignite_python_thin_clien.Stream.Laws.{stream_at, advanced}
use ignite_python_thin_clien.Text.{utf8_encode, utf8_char}
use ignite_python_thin_clien.Value.{
  ClassName, int, str, bytes, list, dict, nil, cons, empty, entry, of_list, collection_object,
}
use ignite_python_thin_clien.Value.Equality.{hashable, put}
use ignite_python_thin_clien.Types.Primitive.{short, long}
use ignite_python_thin_clien.Types.Array.Items.{array_bytes}
use ignite_python_thin_clien.Types.Sequence.{DataType}
use ignite_python_thin_clien.Types.Sequence.Laws.{bytes_of}
use ignite_python_thin_clien.Types.Complex.{map_of, map_payload}
use ignite_python_thin_clien.Types.Complex.Laws.{pair}
use ignite_python_thin_clien.Types.Complex.Maps.{flatten, entries_of, put_all, Hashable}
use ignite_python_thin_clien.Types.Any.Guess.{
  elements, classes, any_data_object, map_python_type, infer_from_python, type_of, python_array_map,
}
use ignite_python_thin_clien.Types.Any.Wire.{
  Item, Pairs, null, integer, whole, text, collection, mapping, no_items, item, no_pairs, pairs,
  piece, pieces, pairs_of, Valid, PairsValid,
}
use ignite_python_thin_clien.Types.Any.Nested.{
  nested_round_trip, map_payload_round_trip, any_map_round_trip,
}
use ignite_python_thin_clien.Types.Any.Choice.{collection_pair-nested, single_item-index_error}
use ignite_python_thin_clien.Types.Any.Dicts.{dict_values-lost}
use ignite_python_thin_clien.Types.Any.Texts.{text_array_bytes, text_values, texts_round_trip}

-- Classes that are left out of the model, and are not used here.
abbrev no_others : ClassName → DataType
no_others c = record {
  parse = λ s. err parse_error;
  to_python = λ o. err parse_error;
  from_python = λ s v. err type_error;
}

abbrev key_items : Pairs
key_items = pairs (text (97 ∷ []) (97 ∷ [])) (whole (pos 3)) no_pairs

-- (1, [None, (-2, ShortObject), (1, {'a': 3}, MapObject)]) with CollectionObject as the hint.
abbrev nested_item : Item
nested_item =
    collection (pos 1)
      (item null (item (integer short (negsuc 1)) (item (mapping (pos 1) key_items) no_items)))

key_items-Valid : PairsValid 1 key_items
unfolding Valid utf8_encode utf8_char
key_items-Valid = (((inl (omega arith), tt), (omega arith, tt), refl, omega arith), refl, tt)

key_items-Hashable : Hashable (pairs_of key_items)
unfolding pairs_of hashable
key_items-Hashable = (refl, tt)

nested_item-Valid : Valid 3 nested_item
unfolding Valid pieces pairs_of hashable utf8_encode utf8_char
nested_item-Valid = (
  refl,
  omega arith,
  (
    tt,
    (
      (tt, refl),
      (
        (
          refl,
          omega arith,
          (refl, tt),
          (((inl (omega arith), tt), (omega arith, tt), refl, omega arith), refl, tt),
        ),
        tt,
      ),
    ),
  ),
)

nested_round_trip_example :
    ((elements no_others 3).from_python (stream_at (7 ∷ []) []) (piece nested_item).given
      ≡ ok (stream_at ((7 ∷ []) ++ (piece nested_item).stored) []))
    × (decode_with
          (elements no_others 3).parse
          (elements no_others 3).to_python
          (stream_at (7 ∷ []) ((piece nested_item).stored ++ (9 ∷ [])))
        ≡ ok (
          (piece nested_item).returned,
          advanced
              (7 ∷ [])
              ((piece nested_item).stored ++ (9 ∷ []))
              (length (piece nested_item).stored),
        ))
nested_round_trip_example =
    nested_round_trip no_others 3 nested_item (7 ∷ []) (9 ∷ []) nested_item-Valid

-- What the bytes of the nested collection are.
nested_bytes :
    (piece nested_item).stored
    ≡ 24 ∷ 3 ∷ 0 ∷ 0 ∷ 0 ∷ 1 ∷ 101 ∷ 2 ∷ 254 ∷ 255 ∷ 25 ∷ 1 ∷ 0 ∷ 0 ∷ 0 ∷ 1 ∷ 9 ∷ 1 ∷ 0 ∷ 0 ∷ 0 ∷ 97
      ∷ 4 ∷ 3 ∷ 0 ∷ 0 ∷ 0 ∷ 0 ∷ 0 ∷ 0 ∷ 0 ∷ []
unfolding piece pieces pairs_of bytes_of flatten header_bytes le_bytes wrap assign_chars cut
nested_bytes = refl

map_payload_round_trip_example :
    ((map_payload (elements no_others 1)).from_python
        (stream_at [] [])
        (dict (entries_of (pairs_of key_items)))
      ≡ ok (
          stream_at
            ([]
              ++ (le_bytes 4 (length (pairs_of key_items))
                  ++ bytes_of (flatten (pairs_of key_items))))
            []))
    × (decode_with
          (map_payload (elements no_others 1)).parse
          (map_payload (elements no_others 1)).to_python
          (stream_at [] (
            (le_bytes 4 (length (pairs_of key_items)) ++ bytes_of (flatten (pairs_of key_items)))
            ++ (9 ∷ [])))
        ≡ ok (
          dict (put_all (pairs_of key_items) empty),
          advanced []
              ((le_bytes 4 (length (pairs_of key_items)) ++ bytes_of (flatten (pairs_of key_items)))
                ++ (9 ∷ []))
              (length (
                le_bytes 4 (length (pairs_of key_items))
                ++ bytes_of (flatten (pairs_of key_items)))),
        ))
map_payload_round_trip_example =
    map_payload_round_trip no_others 1 key_items [] (9 ∷ []) key_items-Valid
      (unfold pairs_of in omega arith) key_items-Hashable

key_map-Valid : Valid 2 (mapping (pos 1) key_items)
unfolding Valid pairs_of hashable utf8_encode utf8_char
key_map-Valid = (
  refl,
  omega arith,
  (refl, tt),
  (((inl (omega arith), tt), (omega arith, tt), refl, omega arith), refl, tt),
)

any_map_round_trip_example :
    ((any_data_object (classes no_others 1)).from_python
        (stream_at [] [])
        (pair (int (pos 1)) (dict (entries_of (pairs_of key_items))))
      ≡ ok (stream_at ([] ++ (piece (mapping (pos 1) key_items)).stored) []))
    × (decode_with
          (any_data_object (classes no_others 1)).parse
          (any_data_object (classes no_others 1)).to_python
          (stream_at [] ((piece (mapping (pos 1) key_items)).stored ++ []))
        ≡ ok (
          pair (int (pos 1)) (map_of (pos 1) (put_all (pairs_of key_items) empty)),
          advanced []
              ((piece (mapping (pos 1) key_items)).stored ++ [])
              (length (piece (mapping (pos 1) key_items)).stored),
        ))
any_map_round_trip_example = any_map_round_trip no_others 1 (pos 1) key_items [] [] key_map-Valid

-- What is read back from the map is the dict that was given.
key_items-read :
    map_of (pos 1) (put_all (pairs_of key_items) empty) ≡ dict (entries_of (pairs_of key_items))
unfolding map_of put_all put entries_of pairs_of piece
key_items-read = refl

-- ['a', None]
texts_round_trip_example :
    ((any_data_object (classes no_others 0)).from_python
        (stream_at [] [])
        (list (of_list (text_values (some (97 ∷ [], 97 ∷ []) ∷ none ∷ []))))
      ≡ ok (stream_at ([] ++ text_array_bytes (some (97 ∷ [], 97 ∷ []) ∷ none ∷ [])) []))
    × (decode_with
          (any_data_object (classes no_others 0)).parse
          (any_data_object (classes no_others 0)).to_python
          (stream_at [] (text_array_bytes (some (97 ∷ [], 97 ∷ []) ∷ none ∷ []) ++ (9 ∷ [])))
        ≡ ok (
          list (of_list (text_values (some (97 ∷ [], 97 ∷ []) ∷ none ∷ []))),
          advanced []
              (text_array_bytes (some (97 ∷ [], 97 ∷ []) ∷ none ∷ []) ++ (9 ∷ []))
              (length (text_array_bytes (some (97 ∷ [], 97 ∷ []) ∷ none ∷ []))),
        ))
texts_round_trip_example =
    texts_round_trip no_others 0 (97 ∷ []) (97 ∷ []) (none ∷ []) [] (9 ∷ [])
      (
        (
          (inl (omega arith), tt),
          (omega arith, tt),
          unfold utf8_encode utf8_char in refl,
          omega arith,
        ),
        (tt, tt),
      )
      (omega arith)

collection_pair-nested_example :
    (map_python_type (pair (int (pos 1)) (list (cons (int (pos 5)) nil))) ≡ ok collection_object)
    × (infer_from_python
          (classes no_others 3)
          (new_stream [])
          (pair (int (pos 1)) (list (cons (int (pos 5)) nil)))
        ≡ err type_error)
collection_pair-nested_example =
    collection_pair-nested (classes no_others 3) (new_stream []) (pos 1) (cons (int (pos 5)) nil)

single_item-index_error_example :
    map_python_type (list (cons (bytes (1 ∷ [])) nil)) ≡ err index_error
single_item-index_error_example =
    single_item-index_error (bytes (1 ∷ [])) (unfold python_array_map type_of in refl) (λ e. cc)

dict_values-lost_example :
    ((any_data_object (classes no_others 0)).from_python
        (stream_at [] [])
        (dict (entry (int (pos 1)) (str (97 ∷ [])) empty))
      ≡ ok (stream_at ([] ++ array_bytes long (pos 1 ∷ [])) []))
    × (decode_with
          (any_data_object (classes no_others 0)).parse
          (any_data_object (classes no_others 0)).to_python
          (stream_at [] (array_bytes long (pos 1 ∷ []) ++ []))
        ≡ ok (
          list (cons (int (pos 1)) nil),
          advanced []
              (array_bytes long (pos 1 ∷ []) ++ [])
              (length (array_bytes long (pos 1 ∷ []))),
        ))
unfolding of_list
dict_values-lost_example =
    dict_values-lost no_others 0 (pos 1) (str (97 ∷ [])) [] [] [] (refl, tt) (omega arith)
