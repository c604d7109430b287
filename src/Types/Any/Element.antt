-- ===== src/Types/Any/Element.antt =====
-- What an element of a container, or a value of unknown class, is stored as: its class is found from
-- the hint or the value when it is written, from its type code when it is read.
use ignite_python_thin_clien.Base.{ℕ, ◌≡◌, refl, ap, ◌∙◌, List, [], ◌∷◌, ◌++◌, take, pos, none}
use ignite_python_thin_clien.Base.Bytes.{le_bytes}
use ignite_python_thin_clien.Result.{ok}
use ignite_python_thin_clien.Stream.{slice, here}
use ignite_python_thin_clien.Stream.Laws.{stream_at, slice-here}
use ignite_python_thin_clien.Ctypes.{decode}
use ignite_python_thin_clien.Value.{ClassName, null_class, data_class}
use ignite_python_thin_clien.Types.Primitive.{to_bytes}
use ignite_python_thin_clien.Types.Sequence.{DataType}
use ignite_python_thin_clien.Types.Sequence.Laws.{Piece, Stores, Reads}
use ignite_python_thin_clien.Types.Sequence.Coded.{Coded}
use ignite_python_thin_clien.Types.Complex.Laws.{pair}
use ignite_python_thin_clien.Types.Any.{code_of_class, find_class, tc_map_get}
use ignite_python_thin_clien.Types.Any.Guess.{
  unpack_hinted, map_python_type, parse_any, read_any, write_any, infer_from_python, element_type,
  any_data_object,
}

-- Every class that `tc_map` lists is found under its own type code, which is one byte and no other
-- class's.
pub tc_map_get-code_of_class :
    (c : ClassName)
    → (to_bytes 1 (pos (code_of_class c)) ≡ ok (code_of_class c ∷ []))
      × (tc_map_get (code_of_class c ∷ []) ≡ ok c)
unfolding to_bytes le_bytes code_of_class tc_map_get find_class
tc_map_get-code_of_class null_class = (refl, refl)
tc_map_get-code_of_class _ = (refl, refl)

module _ (classes : ClassName → DataType) (c : ClassName) (p : Piece)
    (h : Coded (classes c) (code_of_class c) p) where
  parse_coded :
      (pre rest : List ℕ)
      → parse_any classes (stream_at pre (p.stored ++ rest))
        ≡ ok (p.c_type, stream_at (pre ++ p.stored) rest)
  unfolding parse_any
  parse_coded pre rest =
      let first : slice here 1 (stream_at pre (p.stored ++ rest)) ≡ code_of_class c ∷ [] =
        slice-here pre (p.stored ++ rest) 1 ∙ ap (λ l. take 1 (l ++ rest)) h.starts in
      rw (parse_any, first, (tc_map_get-code_of_class c).1, h.stores.parses pre rest)

  read_coded : read_any classes (decode p.c_type p.stored) ≡ ok p.returned
  unfolding read_any
  read_coded =
      rw (h.tagged, (tc_map_get-code_of_class c).0, (tc_map_get-code_of_class c).1, h.stores.reads)

  -- A value with a hint is stored by the class that the hint names.
  pub hinted-Stores :
      Stores (element_type classes) (record p { given = pair p.given (data_class c) })
  hinted-Stores = record {
    writes = λ s. unfold infer_from_python unpack_hinted in h.stores.writes s;
    parses = parse_coded;
    size = h.stores.size;
    reads = read_coded;
  }

  -- A value without a hint is stored by the class that is chosen for it, as an element and as a value
  -- of its own.
  pub guessed-Stores :
      unpack_hinted p.given ≡ ok (p.given, none)
      → map_python_type p.given ≡ ok c
      → Stores (element_type classes) p
  guessed-Stores u m = record {
    writes = λ s. unfold infer_from_python write_any in rw (u, m, h.stores.writes s);
    parses = parse_coded;
    size = h.stores.size;
    reads = read_coded;
  }

  -- Whatever class has stored a value, it is read back by its type code.
  pub any-Reads : Reads (any_data_object classes) p
  any-Reads = record { parses = parse_coded; size = h.stores.size; reads = read_coded }

  pub any-Stores : map_python_type p.given ≡ ok c → Stores (any_data_object classes) p
  any-Stores m = record {
    writes = λ s. unfold write_any in rw (m, h.stores.writes s);
    parses = parse_coded;
    size = h.stores.size;
    reads = read_coded;
  }
