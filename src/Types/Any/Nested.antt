-- ===== src/Types/Any/Nested.antt =====
-- Nested values are stored as the protocol has it, and read back.
use ignite_python_thin_clien.Base.{
  ℕ, zero, suc, ◌^◌, ◌<◌, ◌≡◌, refl, sym, ap, ◌∙◌, Bool, true, List, [], ◌∷◌, ◌++◌, length, map, ℤ,
  pos, All, Option, none, some,
}
use ignite_python_thin_clien.Result.{ok}
use ignite_python_thin_clien.Stream.Laws.{stream_at, advanced, decode_with_at, advanced-stream_at}
use ignite_python_thin_clien.Stream.{decode_with}
use ignite_python_thin_clien.Stream.Writes.{written_at_end}
use ignite_python_thin_clien.Value.{
  Value, ClassName, none_value, bool, str, int, dict, empty, list, of_list, iterate, null_class,
  long_object, bool_object, string_object, long_array, map_object, to_list-of_list,
}
use ignite_python_thin_clien.Types.Primitive.{
  Primitive, byte, short, int_type, long, char, bool_type, width, in_range,
}
use ignite_python_thin_clien.Types.DataObject.Laws.{IsInteger}
use ignite_python_thin_clien.Types.Sequence.{DataType}
use ignite_python_thin_clien.Types.Sequence.Laws.{Piece, Stores, Reads, bytes_of}
use ignite_python_thin_clien.Types.Sequence.Coded.{Coded}
use ignite_python_thin_clien.Types.Complex.Laws.{pair, collection-Coded, object_array-Coded}
use ignite_python_thin_clien.Base.Bytes.{le_bytes}
use ignite_python_thin_clien.Ctypes.{sizeof}
use ignite_python_thin_clien.Types.Complex.{map_of, map_payload}
use ignite_python_thin_clien.Types.Complex.Maps.{
  flatten, entries_of, put_all, Hashable, map_piece, map-Coded, payload-Stores,
}
use ignite_python_thin_clien.Types.Sequence.Header.{header_bytes}
use ignite_python_thin_clien.Types.Any.Choice.{map_python_type-map}
use ignite_python_thin_clien.Types.Any.{code_of_class, class_of}
use ignite_python_thin_clien.Types.Any.Guess.{
  type_int, unpack_hinted, map_python_type, elements, classes, type_of, python_map, iterable_class,
  get_subtype, all_of, isinstance, array_or_pair, python_array_map, any_data_object, hint_or,
}
use ignite_python_thin_clien.Types.Any.Leaf.{
  integer_piece, null-Coded, integer-Coded, boolean-Coded, string-Coded, array-Coded,
}
use ignite_python_thin_clien.Types.Any.Element.{
  hinted-Stores, guessed-Stores, any-Stores, any-Reads,
}
use ignite_python_thin_clien.Types.Any.Wire.{
  Item, Items, Pairs, null, integer, whole, truth, text, whole_list, collection, objects, mapping,
  no_items, item, no_pairs, pairs, integer_class, bare, class_of_item, hint_of, piece, pieces,
  pairs_of, Valid, AllValid, PairsValid,
}

pub all_whole : (zs : List ℤ) → all_of type_int (map int zs) ≡ true
unfolding all_of isinstance type_of
all_whole [] = refl
all_whole (z ∷ zs) = rw (all_whole zs)

-- The class chosen for a list of integers.
pub map_python_type-whole :
    (z : ℤ) (zs : List ℤ) → map_python_type (list (of_list (map int (z ∷ zs)))) ≡ ok long_array
unfolding map_python_type type_of python_map iterable_class iterate get_subtype array_or_pair
    python_array_map
map_python_type-whole z zs = rw (to_list-of_list (map int (z ∷ zs)), all_whole zs)

-- A value that has no hint and whose class is found by its type.
abbrev IsPlain : Value → ClassName → Type 0
IsPlain v c = (unpack_hinted v ≡ ok (v, none)) × (map_python_type v ≡ ok c)

none-IsPlain : IsPlain none_value null_class
unfolding unpack_hinted map_python_type type_of python_map
none-IsPlain = (refl, refl)

int-IsPlain : (z : ℤ) → IsPlain (int z) long_object
unfolding unpack_hinted map_python_type type_of python_map
int-IsPlain z = (refl, refl)

bool-IsPlain : (b : Bool) → IsPlain (bool b) bool_object
unfolding unpack_hinted map_python_type type_of python_map
bool-IsPlain b = (refl, refl)

str-IsPlain : (cs : List ℕ) → IsPlain (str cs) string_object
unfolding unpack_hinted map_python_type type_of python_map
str-IsPlain cs = (refl, refl)

list-IsPlain : (z : ℤ) (zs : List ℤ) → IsPlain (list (of_list (map int (z ∷ zs)))) long_array
unfolding unpack_hinted
list-IsPlain z zs = (refl, map_python_type-whole z zs)

module _ (others : ClassName → DataType) (el : DataType) where
  class_of-integer :
      (p : Primitive) (z : ℤ)
      → IsInteger p
      → in_range (width p) z ≡ true
      → Coded
          (class_of others el (integer_class p))
          (code_of_class (integer_class p))
          (integer_piece p z)
  unfolding class_of code_of_class
  class_of-integer byte z i h = integer-Coded byte z i h
  class_of-integer short z i h = integer-Coded short z i h
  class_of-integer int_type z i h = integer-Coded int_type z i h
  class_of-integer long z i h = integer-Coded long z i h
  class_of-integer char z i h = absurd i
  class_of-integer bool_type z i h = absurd i

-- What the class of an item stores is stored as an element, with the hint or the class guessed.
as_element :
    (others : ClassName → DataType) (d : ℕ) (i : Item)
    → Coded (classes others d (class_of_item i)) (code_of_class (class_of_item i)) (bare i)
    → Stores (elements others (suc d)) (piece i)
unfolding elements classes class_of_item bare piece
as_element others d (integer p z) h = hinted-Stores _ _ _ h
as_element others d (collection kind is) h = hinted-Stores _ _ _ h
as_element others d (objects kind is) h = hinted-Stores _ _ _ h
as_element others d (mapping kind ps) h = hinted-Stores _ _ _ h
as_element others d null h = guessed-Stores _ _ _ h none-IsPlain.0 none-IsPlain.1
as_element others d (whole z) h = guessed-Stores _ _ _ h (int-IsPlain z).0 (int-IsPlain z).1
as_element others d (truth b) h = guessed-Stores _ _ _ h (bool-IsPlain b).0 (bool-IsPlain b).1
as_element others d (text cs bs) h = guessed-Stores _ _ _ h (str-IsPlain cs).0 (str-IsPlain cs).1
as_element others d (whole_list z zs) h =
    guessed-Stores _ _ _ h (list-IsPlain z zs).0 (list-IsPlain z zs).1

module _ (others : ClassName → DataType) where
  mutual
    unfolding elements classes class_of code_of_class Valid piece bare class_of_item flatten

    pub item-Coded :
        (i : Item) (d : ℕ)
        → Valid (suc d) i
        → Coded (classes others d (class_of_item i)) (code_of_class (class_of_item i)) (bare i)
    item-Coded null d h = null-Coded
    item-Coded (integer p z) d (i, h) = class_of-integer others (elements others d) p z i h
    item-Coded (whole z) d h = integer-Coded long z tt h
    item-Coded (truth b) d h = boolean-Coded b
    item-Coded (text cs bs) d (s, n, e, l) = string-Coded cs bs s n e l
    item-Coded (whole_list z zs) d (r, l) = array-Coded long (z ∷ zs) tt r l
    item-Coded (collection kind is) d (k, l, h) =
        collection-Coded (elements others d) kind (pieces is) l (items-Stores is d h) k
    item-Coded (objects kind is) d (k, l, h) =
        object_array-Coded (elements others d) kind (pieces is) l (items-Stores is d h) k
    item-Coded (mapping kind ps) d (k, l, u, h) =
        map-Coded (elements others d) kind (pairs_of ps) l (pairs-Stores ps d h) u k

    pub items-Stores :
        (is : Items) (d : ℕ) → AllValid d is → All (Stores (elements others d)) (pieces is)
    items-Stores no_items d h = tt
    items-Stores (item i is) zero (h, hs) = absurd h
    items-Stores (item i is) (suc d) (h, hs) =
        (as_element others d i (item-Coded i d h), items-Stores is (suc d) hs)

    pub pairs-Stores :
        (ps : Pairs) (d : ℕ)
        → PairsValid d ps
        → All (Stores (elements others d)) (flatten (pairs_of ps))
    pairs-Stores no_pairs d h = tt
    pairs-Stores (pairs k v ps) zero (hk, hv, hs) = absurd hk
    pairs-Stores (pairs k v ps) (suc d) (hk, hv, hs) = (
      as_element others d k (item-Coded k d hk),
      (as_element others d v (item-Coded v d hv), pairs-Stores ps (suc d) hs),
    )

  pub element-Stores : (i : Item) (d : ℕ) → Valid d i → Stores (elements others d) (piece i)
  unfolding Valid
  element-Stores i zero h = absurd h
  element-Stores i (suc d) h = as_element others d i (item-Coded i d h)

-- An argument of the API with its hint, or without where `AnyDataObject` needs none.
module _ (others : ClassName → DataType) (d : ℕ) where
  abbrev pub argument_hint : Item → Option DataType
  argument_hint i = elim (hint_of i) [ none ↦ none | some c ↦ some (classes others d c) ]

  pub argument-Stores :
      (i : Item)
      → Valid (suc d) i
      → Stores (hint_or (any_data_object (classes others d)) (argument_hint i)) (bare i)
  unfolding hint_of class_of_item bare piece
  argument-Stores (integer p z) h = (item-Coded others (integer p z) d h).stores
  argument-Stores (collection kind is) h = (item-Coded others (collection kind is) d h).stores
  argument-Stores (objects kind is) h = (item-Coded others (objects kind is) d h).stores
  argument-Stores (mapping kind ps) h = (item-Coded others (mapping kind ps) d h).stores
  argument-Stores null h = any-Stores _ _ _ (item-Coded others null d h) none-IsPlain.1
  argument-Stores (whole z) h = any-Stores _ _ _ (item-Coded others (whole z) d h) (int-IsPlain z).1
  argument-Stores (truth b) h =
      any-Stores _ _ _ (item-Coded others (truth b) d h) (bool-IsPlain b).1
  argument-Stores (text cs bs) h =
      any-Stores _ _ _ (item-Coded others (text cs bs) d h) (str-IsPlain cs).1
  argument-Stores (whole_list z zs) h =
      any-Stores _ _ _ (item-Coded others (whole_list z zs) d h) (list-IsPlain z zs).1

  pub item-Reads :
      (i : Item) → Valid (suc d) i → Reads (any_data_object (classes others d)) (bare i)
  item-Reads i h = any-Reads (classes others d) (class_of_item i) (bare i) (item-Coded others i d h)

-- What a data type reads is read from the bytes, and the stream stops behind them.
pub loads_read :
    (cls : DataType) (p : Piece) (pre rest : List ℕ)
    → Reads cls p
    → decode_with cls.parse cls.to_python (stream_at pre (p.stored ++ rest))
      ≡ ok (p.returned, advanced pre (p.stored ++ rest) (length p.stored))
loads_read cls p pre rest h = rw (h.size) (
    decode_with_at cls.parse cls.to_python p.c_type pre p.stored rest (ok p.returned)
      (h.parses pre rest
        ∙ ap (λ s. ok (p.c_type, s))
            (sym (advanced-stream_at pre p.stored rest (sizeof p.c_type) h.size)))
      h.size h.reads)

pub loads_stored :
    (cls : DataType) (p : Piece) (pre rest : List ℕ)
    → Stores cls p
    → decode_with cls.parse cls.to_python (stream_at pre (p.stored ++ rest))
      ≡ ok (p.returned, advanced pre (p.stored ++ rest) (length p.stored))
loads_stored cls p pre rest h =
    loads_read cls p pre rest (record { parses = h.parses; size = h.size; reads = h.reads })

-- A valid item - null, integers, booleans, text, lists of integers, and collections, object arrays
-- and maps of items, nested less than `d` deep - is written as an element as the bytes that the
-- protocol has for it, and those bytes are read back as the item's value, whatever stands before
-- and after them and whatever the classes are that the model leaves out.
pub nested_round_trip :
    (others : ClassName → DataType) (d : ℕ) (i : Item) (pre rest : List ℕ)
    → Valid d i
    → ((elements others d).from_python (stream_at pre []) (piece i).given
        ≡ ok (stream_at (pre ++ (piece i).stored) []))
      × (decode_with
            (elements others d).parse
            (elements others d).to_python
            (stream_at pre ((piece i).stored ++ rest))
          ≡ ok (
            (piece i).returned,
            advanced pre ((piece i).stored ++ rest) (length (piece i).stored),
          ))
nested_round_trip others d i pre rest h =
    let s = element-Stores others i d h in
    (
      written_at_end pre _ (s.writes (stream_at pre [])),
      loads_stored (elements others d) (piece i) pre rest s,
    )

-- The payload `Map`, of keys and values that are valid items, whose keys can be hashed and of which
-- there are fewer than 2^31, is written as its count and its keys and values in turn, and is read
-- back as the entries put one after the other, whatever stands before and after it.
pub map_payload_round_trip :
    (others : ClassName → DataType) (d : ℕ) (ps : Pairs) (pre rest : List ℕ)
    → PairsValid d ps
    → length (pairs_of ps) < 2 ^ 31
    → Hashable (pairs_of ps)
    → ((map_payload (elements others d)).from_python
          (stream_at pre [])
          (dict (entries_of (pairs_of ps)))
        ≡ ok (
            stream_at
              (pre ++ (le_bytes 4 (length (pairs_of ps)) ++ bytes_of (flatten (pairs_of ps))))
              []))
      × (decode_with
            (map_payload (elements others d)).parse
            (map_payload (elements others d)).to_python
            (stream_at pre
              ((le_bytes 4 (length (pairs_of ps)) ++ bytes_of (flatten (pairs_of ps))) ++ rest))
          ≡ ok (
            dict (put_all (pairs_of ps) empty),
            advanced pre
                ((le_bytes 4 (length (pairs_of ps)) ++ bytes_of (flatten (pairs_of ps))) ++ rest)
                (length (le_bytes 4 (length (pairs_of ps)) ++ bytes_of (flatten (pairs_of ps)))),
          ))
unfolding header_bytes
map_payload_round_trip others d ps pre rest h l u =
    let s =
      payload-Stores (elements others d) (pos 0) (pairs_of ps) l (pairs-Stores others ps d h) u in
    (
      written_at_end pre _ (s.writes (stream_at pre [])),
      loads_stored (map_payload (elements others d)) _ pre rest s,
    )

-- `AnyDataObject` takes a pair of an integer and a dict for a map, without a hint: for valid keys
-- and values that can be hashed, fewer than 2^31, and a type that fits a byte, it is written and
-- read back as `MapObject` does it, an `OrderedDict` where the type is LINKED_HASH_MAP and a dict
-- otherwise, whatever stands before and after it.
pub any_map_round_trip :
    (others : ClassName → DataType) (d : ℕ) (kind : ℤ) (ps : Pairs) (pre rest : List ℕ)
    → Valid (suc d) (mapping kind ps)
    → ((any_data_object (classes others d)).from_python
          (stream_at pre [])
          (pair (int kind) (dict (entries_of (pairs_of ps))))
        ≡ ok (stream_at (pre ++ (piece (mapping kind ps)).stored) []))
      × (decode_with
            (any_data_object (classes others d)).parse
            (any_data_object (classes others d)).to_python
            (stream_at pre ((piece (mapping kind ps)).stored ++ rest))
          ≡ ok (
            pair (int kind) (map_of kind (put_all (pairs_of ps) empty)),
            advanced pre
                ((piece (mapping kind ps)).stored ++ rest)
                (length (piece (mapping kind ps)).stored),
          ))
unfolding classes class_of code_of_class Valid piece
any_map_round_trip others d kind ps pre rest (k, l, u, h) =
    let s =
      any-Stores (class_of others (elements others d)) map_object (map_piece kind (pairs_of ps))
        (map-Coded (elements others d) kind (pairs_of ps) l (pairs-Stores others ps d h) u k)
        (map_python_type-map kind (entries_of (pairs_of ps))) in
    (written_at_end pre _ (s.writes (stream_at pre [])), loads_stored _ _ pre rest s)
