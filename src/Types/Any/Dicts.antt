-- ===== src/Types/Any/Dicts.antt =====
-- What `AnyDataObject` makes of a dict without a type.
use ignite_python_thin_clien.Base.{ℕ, ◌^◌, ◌<◌, ◌≡◌, List, [], ◌∷◌, ◌++◌, length, map, ℤ}
use ignite_python_thin_clien.Result.{ok}
use ignite_python_thin_clien.Stream.{decode_with}
use ignite_python_thin_clien.Stream.Laws.{stream_at, advanced}
use ignite_python_thin_clien.Stream.Writes.{written_at_end}
use ignite_python_thin_clien.Value.{Value, ClassName, int, dict, list, of_list, long_array}
use ignite_python_thin_clien.Types.Primitive.{long}
use ignite_python_thin_clien.Types.Nullable
use ignite_python_thin_clien.Types.Array.Items.{InRange, array_bytes, write_iterated}
use ignite_python_thin_clien.Types.Sequence.{DataType}
use ignite_python_thin_clien.Types.Any.{class_of, code_of_class}
use ignite_python_thin_clien.Types.Any.Guess.{
  map_python_type, type_of, python_map, iterable_class, get_subtype, array_or_pair,
  python_array_map, write_any, any_data_object, classes,
}
use ignite_python_thin_clien.Types.Any.Leaf.{array_piece, array-Coded}
use ignite_python_thin_clien.Types.Any.Element.{any-Reads}
use ignite_python_thin_clien.Types.Any.Choice.{whole_keys, whole_entries, iterate_whole}
use ignite_python_thin_clien.Types.Any.Nested.{all_whole, loads_read}

map_python_type-whole_keys :
    (z : ℤ) (v : Value) (qs : List (ℤ × Value))
    → map_python_type (dict (whole_entries ((z, v) ∷ qs))) ≡ ok long_array
unfolding map_python_type type_of python_map iterable_class get_subtype array_or_pair
    python_array_map
map_python_type-whole_keys z v qs = rw (iterate_whole ((z, v) ∷ qs), all_whole (whole_keys qs))

-- A dict whose keys are integers of 64 bits, fewer than 2^31 and at least one, is written by
-- `AnyDataObject` as the array of its keys, whatever its values are, and is read back as the list of
-- the keys.
pub dict_values-lost :
    (others : ClassName → DataType) (d : ℕ) (z : ℤ) (v : Value) (qs : List (ℤ × Value))
    (pre rest : List ℕ)
    → InRange 8 (z ∷ whole_keys qs)
    → length (z ∷ whole_keys qs) < 2 ^ 31
    → ((any_data_object (classes others d)).from_python
          (stream_at pre [])
          (dict (whole_entries ((z, v) ∷ qs)))
        ≡ ok (stream_at (pre ++ array_bytes long (z ∷ whole_keys qs)) []))
      × (decode_with
            (any_data_object (classes others d)).parse
            (any_data_object (classes others d)).to_python
            (stream_at pre (array_bytes long (z ∷ whole_keys qs) ++ rest))
          ≡ ok (
            list (of_list (map int (z ∷ whole_keys qs))),
            advanced pre
                (array_bytes long (z ∷ whole_keys qs) ++ rest)
                (length (array_bytes long (z ∷ whole_keys qs))),
          ))
unfolding write_any classes class_of code_of_class Nullable.from_python
dict_values-lost others d z v qs pre rest h l =
    let zs = z ∷ whole_keys qs in
    (
      rw (map_python_type-whole_keys z v qs) (
          written_at_end pre (array_bytes long zs) (
            write_iterated long (stream_at pre []) (dict (whole_entries ((z, v) ∷ qs))) zs
              (iterate_whole ((z, v) ∷ qs)) tt h l)),
      loads_read (any_data_object (classes others d)) (array_piece long zs) pre rest (
          any-Reads (classes others d) long_array (array_piece long zs)
            (array-Coded long zs tt h l)),
    )
