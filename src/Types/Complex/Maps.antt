-- ===== src/Types/Complex/Maps.antt =====
-- Maps store what the class of their keys and values stores.
use ignite_python_thin_clien.Base.{
  ℕ, suc, ◌*◌, ◌^◌, ◌<◌, ◌≡◌, refl, ap, arith, true, List, [], ◌∷◌, ◌++◌, length, ℤ, All,
}
use ignite_python_thin_clien.Base.Bytes.{le_bytes, wrap}
use ignite_python_thin_clien.Result.{Result, ok}
use ignite_python_thin_clien.Stream.{Stream, write}
use ignite_python_thin_clien.Ctypes.{Members, members, struct, decode, decode_fields}
use ignite_python_thin_clien.Value.{Entries, empty, entry, int, dict, keys, iterate}
use ignite_python_thin_clien.Value.Equality.{hashable, put, set_item}
use ignite_python_thin_clien.Types.{tc_map}
use ignite_python_thin_clien.Types.Primitive.{in_range}
use ignite_python_thin_clien.Types.Nullable
use ignite_python_thin_clien.Types.Sequence.{
  DataType, Layout, counted, typed, nullable, layout_fields,
}
use ignite_python_thin_clien.Types.Sequence.Laws.{
  Piece, Stores, FoundIn, bytes_of, fields_of, decode_first,
}
use ignite_python_thin_clien.Types.Sequence.Header.{
  header_bytes, count_found, code_found, type_found, elements_found, sequence_size,
  parse_sequence_lem,
}
use ignite_python_thin_clien.Types.Sequence.Coded.{Coded, nullable-Coded}
use ignite_python_thin_clien.Types.Complex.{
  read_entries, map_of, hash_map, read_map, write_entries, write_map, write_map_header,
  write_map_object, read_map_object, map_object_class, map_payload,
}
use ignite_python_thin_clien.Types.Array.{write_length}
use ignite_python_thin_clien.Types.Array.Items.{write_length_lem}
use ignite_python_thin_clien.Stream.Writes.{write-write}
use ignite_python_thin_clien.Types.Complex.Laws.{pair, unpack_pair-pair, signed_bytes}

-- The keys and the values, in the order in which they are stored.
unfoldable pub flatten : List (Piece × Piece) → List Piece
flatten [] = []
flatten ((k, v) ∷ qs) = k ∷ v ∷ flatten qs

unfoldable pub entries_of : List (Piece × Piece) → Entries
entries_of [] = empty
entries_of ((k, v) ∷ qs) = entry k.given v.given (entries_of qs)

-- The entries that are read, one put after the other.
unfoldable pub put_all : List (Piece × Piece) → Entries → Entries
unfolding put
put_all [] es = es
put_all ((k, v) ∷ qs) es = put_all qs (put es k.returned v.returned)

-- Every key that is read can be a key.
abbrev pub Hashable : List (Piece × Piece) → Type 0
Hashable qs = All (λ q. hashable (q.0).returned ≡ true) qs

pub length-flatten : (qs : List (Piece × Piece)) → length (flatten qs) ≡ 2 * length qs
unfolding flatten
length-flatten [] = refl
length-flatten ((k, v) ∷ qs) = omega (arith, length-flatten qs)

length-keys : (qs : List (Piece × Piece)) → length (keys (entries_of qs)) ≡ length qs
unfolding entries_of
length-keys [] = refl
length-keys ((k, v) ∷ qs) = ap suc (length-keys qs)

module _ (cls : DataType) where
  write_entries_lem :
      (qs : List (Piece × Piece)) (s : Stream)
      → All (Stores cls) (flatten qs)
      → write_entries cls s (entries_of qs) ≡ ok (write s (bytes_of (flatten qs)))
  unfolding write_entries entries_of flatten bytes_of write
  write_entries_lem [] s h = refl
  write_entries_lem ((k, v) ∷ qs) s (hk, (hv, hs)) = rw (
    hk.writes s,
    hv.writes (write s k.stored),
    write_entries_lem qs (write (write s k.stored) v.stored) hs,
    write-write (write s k.stored) v.stored (bytes_of (flatten qs)),
    write-write s k.stored (v.stored ++ bytes_of (flatten qs)),
  )

  read_entries_lem :
      (qs : List (Piece × Piece)) (i : ℕ) (ms : Members) (es : Entries)
      → All (Stores cls) (flatten qs)
      → Hashable qs
      → FoundIn i ms (decode_fields (fields_of i (flatten qs)) (bytes_of (flatten qs)))
      → read_entries cls i (length qs) (members ms) es ≡ ok (put_all qs es)
  unfolding read_entries flatten put_all set_item
  read_entries_lem [] i ms es h u found = refl
  read_entries_lem ((k, v) ∷ qs) i ms es (hk, (hv, hs)) (u, us) found =
      let key = decode_first cls k (v ∷ flatten qs) i ms hk found in
      let val = decode_first cls v (flatten qs) (suc i) ms hv key.1 in
      rw (
        key.0,
        hk.reads,
        val.0,
        hv.reads,
        u,
        read_entries_lem qs (suc (suc i)) ms (put es k.returned v.returned) hs us val.1,
      )

map_header :
    (s : Stream) (kind : ℤ) (n : ℕ)
    → n < 2 ^ 31
    → in_range 1 kind ≡ true
    → write_map_header (int kind) s n ≡ ok (write s (header_bytes typed tc_map kind n))
unfolding write_map_header header_bytes
map_header s kind n small h = rw (
  write_length_lem (write s (tc_map ∷ [])) n small,
  signed_bytes 1 kind h,
  write-write s (tc_map ∷ []) (le_bytes 4 n),
  write-write s (tc_map ∷ le_bytes 4 n) (le_bytes 1 (wrap 1 kind)),
)

abbrev pub map_piece : ℤ → List (Piece × Piece) → Piece
map_piece kind qs = record {
  given = pair (int kind) (dict (entries_of qs));
  stored = header_bytes typed tc_map kind (length qs) ++ bytes_of (flatten qs);
  c_type = struct (layout_fields typed (fields_of 0 (flatten qs)));
  returned = pair (int kind) (map_of kind (put_all qs empty));
}

abbrev pub payload_piece : ℤ → List (Piece × Piece) → Piece
payload_piece kind qs = record {
  given = dict (entries_of qs);
  stored = header_bytes counted 0 kind (length qs) ++ bytes_of (flatten qs);
  c_type = struct (layout_fields counted (fields_of 0 (flatten qs)));
  returned = dict (put_all qs empty);
}

module _ (cls : DataType) (kind : ℤ) (qs : List (Piece × Piece)) (small : length qs < 2 ^ 31)
    (h : All (Stores cls) (flatten qs)) where
  write_given :
      (header : Stream → ℕ → Result Stream) (s : Stream) (front : List ℕ)
      → header s (length qs) ≡ ok (write s front)
      → write_map header cls s (dict (entries_of qs))
        ≡ ok (write s (front ++ bytes_of (flatten qs)))
  unfolding write_map iterate
  write_given header s front e = rw (
    length-keys qs,
    e,
    write_entries_lem cls qs (write s front) h,
    write-write s front (bytes_of (flatten qs)),
  )

  read_map_lem :
      (map_type : ℤ) (layout : Layout) (code : ℕ)
      → Hashable qs
      → read_map cls map_type (
          decode
            (struct (layout_fields layout (fields_of 0 (flatten qs))))
            (header_bytes layout code kind (length qs) ++ bytes_of (flatten qs)))
        ≡ ok (map_of map_type (put_all qs empty))
  unfolding read_map
  read_map_lem map_type layout code u =
      let o =
        decode (struct (layout_fields layout (fields_of 0 (flatten qs))))
          (header_bytes layout code kind (length qs) ++ bytes_of (flatten qs)) in
      let found : read_entries cls 0 (length qs) o empty ≡ ok (put_all qs empty) =
        unfold decode in
        read_entries_lem cls qs 0 _ empty h u (
          elements_found layout code kind (length qs) (fields_of 0 (flatten qs))
            (bytes_of (flatten qs))) in
      rw (
        count_found layout code kind (length qs) (fields_of 0 (flatten qs)) (bytes_of (flatten qs))
            small,
        found,
      )

  write_map_object_lem :
      (s : Stream)
      → in_range 1 kind ≡ true
      → write_map_object cls s (map_piece kind qs).given ≡ ok (write s (map_piece kind qs).stored)
  unfolding write_map_object
  write_map_object_lem s k = rw (
    unpack_pair-pair (int kind) (dict (entries_of qs)),
    write_given (write_map_header (int kind)) s (header_bytes typed tc_map kind (length qs))
        (map_header s kind (length qs) small k),
  )

  read_map_object_lem :
      Hashable qs
      → in_range 1 kind ≡ true
      → read_map_object cls (decode (map_piece kind qs).c_type (map_piece kind qs).stored)
        ≡ ok (map_piece kind qs).returned
  unfolding read_map_object
  read_map_object_lem u k = rw (
    type_found tc_map kind (length qs) (fields_of 0 (flatten qs)) (bytes_of (flatten qs)) k,
    read_map_lem kind typed tc_map u,
  )

  -- MapObject stores the map of what its keys and values store.
  pub map-Coded :
      Hashable qs
      → in_range 1 kind ≡ true
      → Coded (nullable (map_object_class cls)) tc_map (map_piece kind qs)
  unfolding header_bytes
  map-Coded u k =
      nullable-Coded (map_object_class cls) _ tc_map _ _ _ (omega arith)
        (λ s. unfold Nullable.from_python in write_map_object_lem s k)
        (λ pre rest.
          parse_sequence_lem cls typed tc_map kind (length qs) (flatten qs) 2 pre rest h small
            (length-flatten qs))
        (sequence_size cls typed tc_map kind (length qs) (flatten qs) h)
        (code_found typed tc_map kind (length qs) (fields_of 0 (flatten qs)) (bytes_of (flatten qs))
          (omega arith) tt)
        (read_map_object_lem u k)

  -- Map, the payload without a type code.
  pub payload-Stores : Hashable qs → Stores (map_payload cls) (payload_piece kind qs)
  unfolding map_payload
  payload-Stores u = record {
    writes = λ s.
        write_given write_length s (header_bytes counted 0 kind (length qs))
          (unfold header_bytes in write_length_lem s (length qs) small);
    parses = λ pre rest.
        parse_sequence_lem cls counted 0 kind (length qs) (flatten qs) 2 pre rest h small
          (length-flatten qs);
    size = sequence_size cls counted 0 kind (length qs) (flatten qs) h;
    reads = (unfold map_of in read_map_lem hash_map counted 0 u);
  }
