-- ===== src/Types/Any/Choice.antt =====
-- Which class `AnyDataObject` takes for a value.
use ignite_python_thin_clien.Base.{◌≡◌, ◌≢◌, refl, ap, List, [], ◌∷◌, map, ℤ, none}
use ignite_python_thin_clien.Result.{ok, err, type_error, index_error}
use ignite_python_thin_clien.Stream.{Stream}
use ignite_python_thin_clien.Value.{
  Value, Values, Entries, nil, cons, empty, entry, keys, ClassName, none_value, bool, int, float,
  str, bytes, uuid, decimal, data_class, list, tuple, dict, ordered_dict, to_list, iterate,
  collection_object, map_object,
}
use ignite_python_thin_clien.Types.Sequence.{DataType}
use ignite_python_thin_clien.Types.Complex.Laws.{pair}
use ignite_python_thin_clien.Types.Any.Guess.{
  unpack_hinted, map_python_type, type_of, python_map, iterable_class, get_subtype, all_of,
  isinstance, array_or_pair, python_array_map, pair_class, item, is_iterable, infer_from_python,
}

-- A pair of an integer and a dict is a map.
pub map_python_type-map :
    (z : ℤ) (es : Entries) → map_python_type (pair (int z) (dict es)) ≡ ok map_object
unfolding map_python_type type_of python_map iterable_class iterate to_list get_subtype all_of
    isinstance array_or_pair pair_class item
map_python_type-map z es = refl

pub map_python_type-collection :
    (z : ℤ) (vs : Values) → map_python_type (pair (int z) (list vs)) ≡ ok collection_object
unfolding map_python_type type_of python_map iterable_class iterate to_list get_subtype all_of
    isinstance array_or_pair pair_class item is_iterable
map_python_type-collection z vs = refl

-- A pair of an integer and a list is a collection where the class is guessed for it as a value of its
-- own, but not where it is an element: `is_hinted` then takes the list for a hint, and `issubclass`
-- raises TypeError.
pub collection_pair-nested :
    (cls : ClassName → DataType) (s : Stream) (z : ℤ) (vs : Values)
    → (map_python_type (pair (int z) (list vs)) ≡ ok collection_object)
      × (infer_from_python cls s (pair (int z) (list vs)) ≡ err type_error)
unfolding infer_from_python unpack_hinted
collection_pair-nested cls s z vs = (map_python_type-collection z vs, refl)

-- For a list of one value that is not None and for whose type there is no array, the choice of a class
-- raises IndexError: the heuristics for pairs look at the second item of the list.
pub single_item-index_error :
    (v : Value)
    → python_array_map (type_of v) ≡ none
    → v ≢ none_value
    → map_python_type (list (cons v nil)) ≡ err index_error
unfolding map_python_type type_of python_map iterable_class iterate to_list get_subtype all_of
    isinstance array_or_pair python_array_map pair_class item
single_item-index_error none_value h ne = absurd (ne refl)
single_item-index_error (bool b) h ne = cc
single_item-index_error (int z) h ne = cc
single_item-index_error (float b) h ne = cc
single_item-index_error (str cs) h ne = cc
single_item-index_error (uuid bs) h ne = cc
single_item-index_error (decimal a b e) h ne = cc
single_item-index_error (bytes bs) h ne = refl
single_item-index_error (list vs) h ne = refl
single_item-index_error (tuple vs) h ne = refl
single_item-index_error (dict es) h ne = refl
single_item-index_error (ordered_dict es) h ne = refl
single_item-index_error (data_class c) h ne = refl

-- A dict whose keys are integers.
abbrev pub whole_keys : List (ℤ × Value) → List ℤ
whole_keys [] = []
whole_keys ((z, v) ∷ qs) = z ∷ whole_keys qs

abbrev pub whole_entries : List (ℤ × Value) → Entries
whole_entries [] = empty
whole_entries ((z, v) ∷ qs) = entry (int z) v (whole_entries qs)

keys_whole : (qs : List (ℤ × Value)) → keys (whole_entries qs) ≡ map int (whole_keys qs)
keys_whole [] = refl
keys_whole ((z, v) ∷ qs) = ap (λ l. int z ∷ l) (keys_whole qs)

pub iterate_whole :
    (qs : List (ℤ × Value)) → iterate (dict (whole_entries qs)) ≡ ok (map int (whole_keys qs))
unfolding iterate
iterate_whole qs = ap ok (keys_whole qs)
