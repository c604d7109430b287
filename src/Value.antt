-- ===== src/Value.antt =====
-- The Python values that the client serializes.
-- A `str` is its code points, a `bytes` its bytes, a `float` the 64 bits of its IEEE 754 double, a
-- `uuid.UUID` its 16 bytes in network order, a `decimal.Decimal` its sign, digits and exponent.
pub mod Equality
use ignite_python_thin_clien.Base.{
  ℕ, zero, suc, ◌≡◌, Bool, true, false, not, List, [], ◌∷◌, map, ℤ, pos, negsuc, ◌==◌,
  if◌then◌else◌,
}
use ignite_python_thin_clien.Result.{Result, ok, err, type_error}

-- The data classes that `tc_map` lists, which may also stand in a pair as the hint of its value.
pub data ClassName : Type 0 where
  null_class byte_object short_object int_object long_object float_object : ClassName
  double_object char_object bool_object uuid_object date_object : ClassName
  timestamp_object time_object enum_object binary_enum_object : ClassName
  byte_array short_array int_array long_array float_array double_array : ClassName
  char_array bool_array uuid_array date_array timestamp_array : ClassName
  time_array enum_array string_object string_array decimal_object : ClassName
  decimal_array object_array collection_object map_object : ClassName
  binary_object wrapped_object : ClassName

mutual
  pub data Value : Type 0 where
    none_value : Value
    bool : Bool → Value
    int : ℤ → Value
    float : ℕ → Value
    str : List ℕ → Value
    bytes : List ℕ → Value
    uuid : List ℕ → Value
    decimal : Bool → List ℕ → ℤ → Value
    list tuple : Values → Value
    dict ordered_dict : Entries → Value
    data_class : ClassName → Value

  pub data Values : Type 0 where
    nil : Values
    cons : Value → Values → Values

  pub data Entries : Type 0 where
    empty : Entries
    entry : Value → Value → Entries → Entries

abbrev pub of_bool : Bool → ℤ
of_bool true = pos 1
of_bool false = pos 0

-- `__index__`: an `int`, or a `bool` as 0 or 1.
abbrev pub index : Value → Result ℤ
index (int z) = ok z
index (bool b) = ok (of_bool b)
index _ = err type_error

abbrev pub is_zero_double : ℕ → Bool
is_zero_double bits = if bits == 0 then true else bits == 0x8000000000000000

abbrev all_zero : List ℕ → Bool
all_zero [] = true
all_zero (d ∷ ds) = if d == 0 then all_zero ds else false

-- The truth value of an object.
abbrev pub truthy : Value → Bool
truthy none_value = false
truthy (bool b) = b
truthy (int (pos zero)) = false
truthy (int (pos (suc n))) = true
truthy (int (negsuc n)) = true
truthy (float bits) = not (is_zero_double bits)
truthy (str []) = false
truthy (str (c ∷ cs)) = true
truthy (bytes []) = false
truthy (bytes (b ∷ bs)) = true
truthy (uuid bs) = true
truthy (decimal sign digits exponent) = not (all_zero digits)
truthy (list nil) = false
truthy (list (cons v vs)) = true
truthy (tuple nil) = false
truthy (tuple (cons v vs)) = true
truthy (dict empty) = false
truthy (dict (entry k v es)) = true
truthy (ordered_dict empty) = false
truthy (ordered_dict (entry k v es)) = true
truthy (data_class c) = true

unfoldable pub to_list : Values → List Value
to_list nil = []
to_list (cons v vs) = v ∷ to_list vs

unfoldable pub of_list : List Value → Values
of_list [] = nil
of_list (v ∷ vs) = cons v (of_list vs)

abbrev pub keys : Entries → List Value
keys empty = []
keys (entry k v es) = k ∷ keys es

-- What `iter(value)` yields, for the values that also have a `len`.
unfoldable pub iterate : Value → Result (List Value)
unfolding to_list
iterate (str cs) = ok (map (λ c. str (c ∷ [])) cs)
iterate (bytes bs) = ok (map (λ b. int (pos b)) bs)
iterate (list vs) = ok (to_list vs)
iterate (tuple vs) = ok (to_list vs)
iterate (dict es) = ok (keys es)
iterate (ordered_dict es) = ok (keys es)
iterate _ = err type_error

pub to_list-of_list : (vs : List Value) → to_list (of_list vs) ≡ vs
unfolding to_list of_list
to_list-of_list [] = λ i. []
to_list-of_list (v ∷ vs) = λ i. v ∷ to_list-of_list vs i
