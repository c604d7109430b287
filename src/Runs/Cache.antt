-- ===== src/Runs/Cache.antt =====
-- `unwrap_binary` at a concrete value.
use ignite_python_thin_clien.Base.{ℕ, true, List, [], ◌∷◌, ℤ, pos, ◌≡◌, refl}
use ignite_python_thin_clien.Result.{Result, ok, err, parse_error}
use ignite_python_thin_clien.Value.{
  Value, nil, cons, empty, entry, int, str, list, tuple, dict, none_value,
}
use ignite_python_thin_clien.Value.Equality.{hashable, eq_key, number}
use ignite_python_thin_clien.Cache.{unwrap_binary}
use ignite_python_thin_clien.Cache.Intact.{unwrap_binary-intact, is_plain, is_new}

abbrev no_object : List ℕ → ℤ → Result Value
no_object blob offset = err parse_error

-- (1, {'a': (2, ['b', None]), 7: 8})
abbrev some_map : Value
some_map = tuple (
    cons (int (pos 1)) (
      cons
        (dict (
          entry (str (97 ∷ []))
            (tuple
              (cons (int (pos 2)) (cons (list (cons (str (98 ∷ [])) (cons none_value nil))) nil)))
            (entry (int (pos 7)) (int (pos 8)) empty)))
        nil))

some_map-is_plain : is_plain some_map ≡ true
unfolding is_plain hashable is_new eq_key number
some_map-is_plain = refl

unwrap_binary-intact_example : unwrap_binary no_object some_map ≡ ok some_map
unwrap_binary-intact_example = unwrap_binary-intact no_object some_map some_map-is_plain
