-- ===== src/Value/Equality.antt =====
-- Equality of Python values as far as it decides which entries of a `dict` are the same, and
-- `result[k] = v`.
use ignite_python_thin_clien.Base.{
  ℕ, suc, ◌+◌, ◌*◌, ◌/◌, ◌%◌, ◌^◌, Bool, true, false, List, [], ◌∷◌, ℤ, pos, negsuc, Option, none,
  some, ◌==◌, ◌&&◌, ◌||◌, leb, if◌then◌else◌,
}
use ignite_python_thin_clien.Result.{Result, ok, err, type_error}
use ignite_python_thin_clien.Value.{
  Value, Values, Entries, nil, cons, empty, entry, none_value, bool, int, float, str, bytes, uuid,
  decimal, list, tuple, dict, ordered_dict, of_bool,
}

-- A finite number: whether it is negative, and its size as a fraction.
pub record Number : Type 0 where
  pub negative : Bool
  pub numerator : ℕ
  pub denominator : ℕ

abbrev of_int : ℤ → Number
of_int (pos n) = record { negative = false; numerator = n; denominator = 1 }
of_int (negsuc n) = record { negative = true; numerator = suc n; denominator = 1 }

abbrev double_exponent : ℕ → ℕ
double_exponent bits = bits / 2 ^ 52 % 2 ^ 11

-- The double with these bits, unless it is an infinity or no number.
unfoldable pub of_double : ℕ → Option Number
of_double bits =
    let fraction = bits % 2 ^ 52 in
    let sign = leb (2 ^ 63) bits in
    if double_exponent bits == 2047
    then none
    else some (
        if double_exponent bits == 0
        then record { negative = sign; numerator = fraction; denominator = 2 ^ 1074 }
        else record {
          negative = sign;
          numerator = (2 ^ 52 + fraction) * 2 ^ double_exponent bits;
          denominator = 2 ^ 1075;
        })

abbrev of_digits : ℕ → List ℕ → ℕ
of_digits acc [] = acc
of_digits acc (d ∷ ds) = of_digits (acc * 10 + d) ds

abbrev of_decimal : Bool → List ℕ → ℤ → Number
of_decimal sign digits (pos e) = record {
  negative = sign;
  numerator = of_digits 0 digits * 10 ^ e;
  denominator = 1;
}
of_decimal sign digits (negsuc e) = record {
  negative = sign;
  numerator = of_digits 0 digits;
  denominator = 10 ^ suc e;
}

-- The number that a value of a numeric type is.
unfoldable pub number : Value → Option Number
unfolding of_double
number (bool b) = some (of_int (of_bool b))
number (int z) = some (of_int z)
number (float bits) = of_double bits
number (decimal sign digits e) = some (of_decimal sign digits e)
number _ = none

abbrev same_sign : Bool → Bool → Bool
same_sign true b = b
same_sign false true = false
same_sign false false = true

unfoldable pub eq_number : Number → Number → Bool
eq_number a b =
    (a.numerator * b.denominator == b.numerator * a.denominator)
    && ((a.numerator == 0) || same_sign a.negative b.negative)

abbrev pub eq_list : List ℕ → List ℕ → Bool
eq_list [] [] = true
eq_list [] (y ∷ ys) = false
eq_list (x ∷ xs) [] = false
eq_list (x ∷ xs) (y ∷ ys) = (x == y) && eq_list xs ys

-- `inf` and `-inf` are equal to themselves.
abbrev eq_special : ℕ → ℕ → Bool
eq_special a b = (a == b) && (a % 2 ^ 52 == 0)

abbrev eq_optional : Option Number → Option Number → Bool
eq_optional (some a) (some b) = eq_number a b
eq_optional _ _ = false

-- a == b, of values that may be keys.
unfoldable mutual
  pub eq_key : Value → Value → Bool
  eq_key none_value none_value = true
  eq_key (str a) (str b) = eq_list a b
  eq_key (bytes a) (bytes b) = eq_list a b
  eq_key (uuid a) (uuid b) = eq_list a b
  eq_key (tuple a) (tuple b) = eq_keys a b
  eq_key (float a) (float b) = eq_special a b || eq_optional (number (float a)) (number (float b))
  eq_key a b = eq_optional (number a) (number b)

  pub eq_keys : Values → Values → Bool
  eq_keys nil nil = true
  eq_keys (cons a as') (cons b bs) = eq_key a b && eq_keys as' bs
  eq_keys nil (cons b bs) = false
  eq_keys (cons a as') nil = false

-- Whether `hash(value)` is defined.
unfoldable mutual
  pub hashable : Value → Bool
  hashable (list vs) = false
  hashable (dict es) = false
  hashable (ordered_dict es) = false
  hashable (tuple vs) = all_hashable vs
  hashable _ = true

  pub all_hashable : Values → Bool
  all_hashable nil = true
  all_hashable (cons v vs) = hashable v && all_hashable vs

-- An entry keeps its place, and its key, when its value is replaced.
unfoldable pub put : Entries → Value → Value → Entries
put empty k v = entry k v empty
put (entry k' v' es) k v =
    let rest = put es k v in if eq_key k k' then entry k' v es else entry k' v' rest

-- result[k] = v
unfoldable pub set_item : Entries → Value → Value → Result Entries
unfolding put
set_item es k v = if hashable k then ok (put es k v) else err type_error

-- es[k]
unfoldable pub find : Entries → Value → Option Value
find empty k = none
find (entry k' v' es) k = let rest = find es k in if eq_key k k' then some v' else rest
