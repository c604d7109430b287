-- ===== src/Types/Standard/Laws.antt =====
-- Arrays of standard objects store what their class stores; any class stores None.
use ignite_python_thin_clien.Base.{
  ℕ, ◌^◌, ◌<◌, ◌≡◌, ◌≢◌, refl, ap, ◌∙◌, arith, List, [], ◌∷◌, ◌++◌, length, pos, All,
}
use ignite_python_thin_clien.Base.Bytes.{le_bytes}
use ignite_python_thin_clien.Result.{ok}
use ignite_python_thin_clien.Stream.{Stream, write}
use ignite_python_thin_clien.Stream.Laws.{advanced-stream_at}
use ignite_python_thin_clien.Stream.Writes.{write-write}
use ignite_python_thin_clien.Ctypes.{struct, sizeof}
use ignite_python_thin_clien.Value.{none_value, list, of_list, iterate, to_list-of_list}
use ignite_python_thin_clien.Types.{tc_null}
use ignite_python_thin_clien.Types.Nullable
use ignite_python_thin_clien.Types.Nullable.{DataClass, null_c_type}
use ignite_python_thin_clien.Types.Nullable.Laws.{parse_null, to_python_null}
use ignite_python_thin_clien.Types.Array.Items.{write_length_lem}
use ignite_python_thin_clien.Types.Sequence.{DataType, nullable, coded, layout_fields}
use ignite_python_thin_clien.Types.Sequence.Laws.{
  Piece, Stores, bytes_of, fields_of, given_of, returned_of, length-given_of, write_elements_lem,
}
use ignite_python_thin_clien.Types.Sequence.Header.{
  header_bytes, code_found, sequence_size, parse_sequence_lem, read_sequence_lem,
}
use ignite_python_thin_clien.Types.Sequence.Coded.{Coded, nullable-Coded}
use ignite_python_thin_clien.Types.Standard.{
  len, write_array, write_coded_header, read_array, standard_array_class,
}

abbrev pub null_piece : Piece
null_piece = record {
  given = none_value;
  stored = tc_null ∷ [];
  c_type = null_c_type;
  returned = none_value;
}

pub null-Stores : (cls : DataClass) → Stores (nullable cls) null_piece
null-Stores cls = record {
  writes = λ s. unfold Nullable.from_python in refl;
  parses = λ pre rest.
      parse_null cls pre rest
      ∙ ap (λ s. ok (null_c_type, s))
          (advanced-stream_at pre (tc_null ∷ []) rest (sizeof null_c_type) (unfold sizeof in refl));
  size = unfold sizeof in refl;
  reads = to_python_null cls [] [];
}

abbrev pub standard_array_piece : ℕ → List Piece → Piece
standard_array_piece code ps = record {
  given = list (of_list (given_of ps));
  stored = header_bytes coded code (pos 0) (length ps) ++ bytes_of ps;
  c_type = struct (layout_fields coded (fields_of 0 ps));
  returned = list (returned_of ps);
}

module _ (cls : DataType) (code : ℕ) (ps : List Piece) (small : length ps < 2 ^ 31)
    (h : All (Stores cls) ps) where
  write_array_lem :
      (s : Stream)
      → write_array (write_coded_header code) cls s (list (of_list (given_of ps)))
        ≡ ok (write s (standard_array_piece code ps).stored)
  unfolding write_array write_coded_header len iterate header_bytes
  write_array_lem s = rw (
    to_list-of_list (given_of ps),
    length-given_of ps,
    write_length_lem (write s (code ∷ [])) (length ps) small,
    write-write s (code ∷ []) (le_bytes 4 (length ps)),
    write_elements_lem cls ps (write s (code ∷ le_bytes 4 (length ps))) h,
    write-write s (code ∷ le_bytes 4 (length ps)) (bytes_of ps),
  )

  -- The array of what the class of the items stores.
  pub standard_array-Coded :
      code ≢ tc_null
      → code < 128
      → Coded (nullable (standard_array_class code cls)) code (standard_array_piece code ps)
  unfolding header_bytes
  standard_array-Coded ne lt =
      nullable-Coded (standard_array_class code cls) _ code _ _ _ ne
        (λ s. unfold Nullable.from_python in write_array_lem s)
        (λ pre rest.
          parse_sequence_lem cls coded code (pos 0) (length ps) ps 1 pre rest h small (omega arith))
        (sequence_size cls coded code (pos 0) (length ps) ps h)
        (code_found coded code (pos 0) (length ps) (fields_of 0 ps) (bytes_of ps) lt tt)
        (unfold read_array in rw (read_sequence_lem cls (pos 0) ps small h coded code))
