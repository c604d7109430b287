-- ===== src/Types/Any/Wire.antt =====
-- The values that a client can nest in each other, and the bytes that Ignite's binary protocol has
-- for them: a description that does not mention streams, classes or structures' fields.
use ignite_python_thin_clien.Base.{
  ℕ, zero, suc, ◌^◌, ◌<◌, ◌≡◌, Bool, true, List, [], ◌∷◌, length, ℤ, All, Option, some, none,
}
use ignite_python_thin_clien.Result.{ok}
use ignite_python_thin_clien.Text.{IsScalar, utf8_encode}
use ignite_python_thin_clien.Value.{
  ClassName, data_class, byte_object, short_object, int_object, long_object, bool_object,
  string_object, long_array, null_class, collection_object, object_array, map_object,
}
use ignite_python_thin_clien.Types.Primitive.{
  Primitive, byte, short, int_type, long, width, in_range,
}
use ignite_python_thin_clien.Types.DataObject.Laws.{IsInteger}
use ignite_python_thin_clien.Types.Array.Items.{InRange}
use ignite_python_thin_clien.Types.Sequence.Laws.{Piece}
use ignite_python_thin_clien.Types.Complex.Laws.{pair, collection_piece, object_array_piece}
use ignite_python_thin_clien.Types.Complex.Maps.{Hashable, map_piece}
use ignite_python_thin_clien.Types.Any.Leaf.{
  null_piece, integer_piece, boolean_piece, string_piece, array_piece,
}

-- `integer p z` is an integer with the class of `p` as its hint, `whole z` one without; `text cs bs`
-- has the UTF-8 form `bs`; `whole_list` is a list of integers that is not empty; the containers have
-- the class as their hint, and a type or a type id.
mutual
  pub data Item : Type 0 where
    null : Item
    integer : Primitive → ℤ → Item
    whole : ℤ → Item
    truth : Bool → Item
    text : List ℕ → List ℕ → Item
    whole_list : ℤ → List ℤ → Item
    collection : ℤ → Items → Item
    objects : ℤ → Items → Item
    mapping : ℤ → Pairs → Item

  pub data Items : Type 0 where
    no_items : Items
    item : Item → Items → Items

  pub data Pairs : Type 0 where
    no_pairs : Pairs
    pairs : Item → Item → Pairs → Pairs

abbrev pub integer_class : Primitive → ClassName
integer_class byte = byte_object
integer_class short = short_object
integer_class int_type = int_object
integer_class _ = long_object

abbrev pub hinted : Piece → ClassName → Piece
hinted p c = record p { given = pair p.given (data_class c) }

-- What is given to the client for an item, the bytes it is stored as, and what is read back.
unfoldable mutual
  pub piece : Item → Piece
  piece null = null_piece
  piece (integer p z) = hinted (integer_piece p z) (integer_class p)
  piece (whole z) = integer_piece long z
  piece (truth b) = boolean_piece b
  piece (text cs bs) = string_piece cs bs
  piece (whole_list z zs) = array_piece long (z ∷ zs)
  piece (collection kind is) = hinted (collection_piece kind (pieces is)) collection_object
  piece (objects kind is) = hinted (object_array_piece kind (pieces is)) object_array
  piece (mapping kind ps) = hinted (map_piece kind (pairs_of ps)) map_object

  pub pieces : Items → List Piece
  pieces no_items = []
  pieces (item i is) = piece i ∷ pieces is

  pub pairs_of : Pairs → List (Piece × Piece)
  pairs_of no_pairs = []
  pairs_of (pairs k v ps) = (piece k, piece v) ∷ pairs_of ps

-- What is given for an item where the hint is an argument of its own, and the hint.
unfoldable pub bare : Item → Piece
unfolding piece
bare (integer p z) = integer_piece p z
bare (collection kind is) = collection_piece kind (pieces is)
bare (objects kind is) = object_array_piece kind (pieces is)
bare (mapping kind ps) = map_piece kind (pairs_of ps)
bare i = piece i

unfoldable pub class_of_item : Item → ClassName
class_of_item null = null_class
class_of_item (integer p z) = integer_class p
class_of_item (whole z) = long_object
class_of_item (truth b) = bool_object
class_of_item (text cs bs) = string_object
class_of_item (whole_list z zs) = long_array
class_of_item (collection kind is) = collection_object
class_of_item (objects kind is) = object_array
class_of_item (mapping kind ps) = map_object

unfoldable pub hint_of : Item → Option ClassName
unfolding class_of_item
hint_of (integer p z) = some (integer_class p)
hint_of (collection kind is) = some collection_object
hint_of (objects kind is) = some object_array
hint_of (mapping kind ps) = some map_object
hint_of i = none

-- An item is nested less than `d` deep, its integers fit their classes, its texts are scalar values
-- other than U+0000, its counts are less than 2^31, and the keys of its maps can be hashed.
unfoldable mutual
  unfolding piece

  pub Valid : ℕ → Item → Type 0
  Valid zero i = ⊥
  Valid (suc d) null = Unit {0}
  Valid (suc d) (integer p z) = IsInteger p × (in_range (width p) z ≡ true)
  Valid (suc d) (whole z) = in_range 8 z ≡ true
  Valid (suc d) (truth b) = Unit {0}
  Valid (suc d) (text cs bs) =
      All IsScalar cs × All (λ c. 0 < c) cs × (utf8_encode cs ≡ ok bs) × (length bs < 2 ^ 31)
  Valid (suc d) (whole_list z zs) = InRange 8 (z ∷ zs) × (length (z ∷ zs) < 2 ^ 31)
  Valid (suc d) (collection kind is) =
      (in_range 1 kind ≡ true) × (length (pieces is) < 2 ^ 31) × AllValid d is
  Valid (suc d) (objects kind is) =
      (in_range 4 kind ≡ true) × (length (pieces is) < 2 ^ 31) × AllValid d is
  Valid (suc d) (mapping kind ps) =
      (in_range 1 kind ≡ true)
      × (length (pairs_of ps) < 2 ^ 31)
      × Hashable (pairs_of ps)
      × PairsValid d ps

  pub AllValid : ℕ → Items → Type 0
  AllValid d no_items = Unit {0}
  AllValid d (item i is) = Valid d i × AllValid d is

  pub PairsValid : ℕ → Pairs → Type 0
  PairsValid d no_pairs = Unit {0}
  PairsValid d (pairs k v ps) = Valid d k × Valid d v × PairsValid d ps
