-- ===== src/Types/Complex/Laws.antt =====
-- Object arrays and collections store what their elements' class stores.
use ignite_python_thin_clien.Base.{
  ℕ, ◌^◌, ◌<◌, ◌≡◌, refl, arith, true, List, [], ◌∷◌, ◌++◌, length, ℤ, All,
}
use ignite_python_thin_clien.Base.Bytes.{le_bytes, wrap}
use ignite_python_thin_clien.Result.{ok}
use ignite_python_thin_clien.Stream.{Stream, write}
use ignite_python_thin_clien.Ctypes.{struct, decode}
use ignite_python_thin_clien.Value.{
  Value, nil, cons, int, list, tuple, of_list, to_list, iterate, to_list-of_list,
}
use ignite_python_thin_clien.Types.{tc_object_array, tc_collection}
use ignite_python_thin_clien.Types.Primitive.{in_range}
use ignite_python_thin_clien.Types.Nullable
use ignite_python_thin_clien.Types.Array.Items.{write_length_lem}
use ignite_python_thin_clien.Stream.Writes.{write-write}
use ignite_python_thin_clien.Types.Sequence.{
  DataType, write_elements, nullable, typed, identified, layout_fields, value_to_signed_bytes,
  unpack_pair,
}
use ignite_python_thin_clien.Query.{to_signed_bytes}
use ignite_python_thin_clien.Types.Sequence.Laws.{
  Piece, Stores, bytes_of, fields_of, given_of, returned_of, length-given_of, write_elements_lem,
}
use ignite_python_thin_clien.Types.Sequence.Header.{
  header_bytes, code_found, type_found, type_id_found, sequence_size, parse_sequence_lem,
  read_sequence_lem,
}
use ignite_python_thin_clien.Types.Sequence.Coded.{Coded, nullable-Coded}
use ignite_python_thin_clien.Types.Complex.{
  items_of, with_list, write_object_array, write_object_array_header, read_object_array,
  object_array_class, write_collection, write_collection_header, read_collection, collection_class,
}

abbrev pub pair : Value → Value → Value
pair v w = tuple (cons v (cons w nil))

pub unpack_pair-pair : (v w : Value) → unpack_pair (pair v w) ≡ ok (v, w)
unfolding unpack_pair iterate to_list
unpack_pair-pair v w = refl

items_of-list : (vs : List Value) → items_of (list (of_list vs)) ≡ vs
unfolding items_of iterate
items_of-list vs = to_list-of_list vs

pub signed_bytes :
    (k : ℕ) (z : ℤ)
    → in_range k z ≡ true
    → value_to_signed_bytes k (int z) ≡ ok (le_bytes k (wrap k z))
unfolding value_to_signed_bytes to_signed_bytes
signed_bytes k z h = rw h

collection_header :
    (s : Stream) (kind : ℤ) (n : ℕ)
    → n < 2 ^ 31
    → in_range 1 kind ≡ true
    → write_collection_header s (int kind) n
      ≡ ok (write s (header_bytes typed tc_collection kind n))
unfolding write_collection_header header_bytes
collection_header s kind n small h = rw (
  write_length_lem (write s (tc_collection ∷ [])) n small,
  signed_bytes 1 kind h,
  write-write s (tc_collection ∷ []) (le_bytes 4 n),
  write-write s (tc_collection ∷ le_bytes 4 n) (le_bytes 1 (wrap 1 kind)),
)

object_array_header :
    (s : Stream) (kind : ℤ) (n : ℕ)
    → n < 2 ^ 31
    → in_range 4 kind ≡ true
    → write_object_array_header s (int kind) n
      ≡ ok (write s (header_bytes identified tc_object_array kind n))
unfolding write_object_array_header header_bytes
object_array_header s kind n small h = rw (
  signed_bytes 4 kind h,
  write_length_lem (write (write s (tc_object_array ∷ [])) (le_bytes 4 (wrap 4 kind))) n small,
  write-write s (tc_object_array ∷ []) (le_bytes 4 (wrap 4 kind)),
  write-write s (tc_object_array ∷ le_bytes 4 (wrap 4 kind)) (le_bytes 4 n),
)

abbrev pub collection_piece : ℤ → List Piece → Piece
collection_piece kind ps = record {
  given = pair (int kind) (list (of_list (given_of ps)));
  stored = header_bytes typed tc_collection kind (length ps) ++ bytes_of ps;
  c_type = struct (layout_fields typed (fields_of 0 ps));
  returned = pair (int kind) (list (returned_of ps));
}

abbrev pub object_array_piece : ℤ → List Piece → Piece
object_array_piece kind ps = record {
  given = pair (int kind) (list (of_list (given_of ps)));
  stored = header_bytes identified tc_object_array kind (length ps) ++ bytes_of ps;
  c_type = struct (layout_fields identified (fields_of 0 ps));
  returned = pair (int kind) (list (returned_of ps));
}

module _ (cls : DataType) (kind : ℤ) (ps : List Piece) (small : length ps < 2 ^ 31)
    (h : All (Stores cls) ps) where
  pub write_given :
      (s : Stream) (front : List ℕ)
      → write_elements cls (write s front) (given_of ps) ≡ ok (write s (front ++ bytes_of ps))
  write_given s front =
      rw (write_elements_lem cls ps (write s front) h, write-write s front (bytes_of ps))

  write_collection_lem :
      (s : Stream)
      → in_range 1 kind ≡ true
      → write_collection cls s (pair (int kind) (list (of_list (given_of ps))))
        ≡ ok (write s (collection_piece kind ps).stored)
  unfolding write_collection
  write_collection_lem s k = rw (
    unpack_pair-pair (int kind) (list (of_list (given_of ps))),
    items_of-list (given_of ps),
    length-given_of ps,
    collection_header s kind (length ps) small k,
    write_given s (header_bytes typed tc_collection kind (length ps)),
  )

  read_collection_lem :
      in_range 1 kind ≡ true
      → read_collection cls
          (decode (collection_piece kind ps).c_type (collection_piece kind ps).stored)
        ≡ ok (collection_piece kind ps).returned
  unfolding read_collection with_list
  read_collection_lem k = rw (
    read_sequence_lem cls kind ps small h typed tc_collection,
    type_found tc_collection kind (length ps) (fields_of 0 ps) (bytes_of ps) k,
  )

  -- CollectionObject stores the collection of what its elements store.
  pub collection-Coded :
      in_range 1 kind ≡ true
      → Coded (nullable (collection_class cls)) tc_collection (collection_piece kind ps)
  unfolding header_bytes
  collection-Coded k =
      nullable-Coded (collection_class cls) _ tc_collection _ _ _ (omega arith)
        (λ s. unfold Nullable.from_python in write_collection_lem s k)
        (λ pre rest.
          parse_sequence_lem cls typed tc_collection kind (length ps) ps 1 pre rest h small
            (omega arith))
        (sequence_size cls typed tc_collection kind (length ps) ps h)
        (code_found typed tc_collection kind (length ps) (fields_of 0 ps) (bytes_of ps)
          (omega arith) tt)
        (read_collection_lem k)

  write_object_array_lem :
      (s : Stream)
      → in_range 4 kind ≡ true
      → write_object_array cls s (pair (int kind) (list (of_list (given_of ps))))
        ≡ ok (write s (object_array_piece kind ps).stored)
  unfolding write_object_array
  write_object_array_lem s k = rw (
    unpack_pair-pair (int kind) (list (of_list (given_of ps))),
    items_of-list (given_of ps),
    length-given_of ps,
    object_array_header s kind (length ps) small k,
    write_given s (header_bytes identified tc_object_array kind (length ps)),
  )

  read_object_array_lem :
      in_range 4 kind ≡ true
      → read_object_array cls
          (decode (object_array_piece kind ps).c_type (object_array_piece kind ps).stored)
        ≡ ok (object_array_piece kind ps).returned
  unfolding read_object_array with_list
  read_object_array_lem k = rw (
    read_sequence_lem cls kind ps small h identified tc_object_array,
    type_id_found tc_object_array kind (length ps) (fields_of 0 ps) (bytes_of ps) k,
  )

  -- ObjectArrayObject stores the array of what its elements store.
  pub object_array-Coded :
      in_range 4 kind ≡ true
      → Coded (nullable (object_array_class cls)) tc_object_array (object_array_piece kind ps)
  unfolding header_bytes
  object_array-Coded k =
      nullable-Coded (object_array_class cls) _ tc_object_array _ _ _ (omega arith)
        (λ s. unfold Nullable.from_python in write_object_array_lem s k)
        (λ pre rest.
          parse_sequence_lem cls identified tc_object_array kind (length ps) ps 1 pre rest h small
            (omega arith))
        (sequence_size cls identified tc_object_array kind (length ps) ps h)
        (code_found identified tc_object_array kind (length ps) (fields_of 0 ps) (bytes_of ps)
          (omega arith) tt)
        (read_object_array_lem k)
