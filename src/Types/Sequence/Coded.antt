-- ===== src/Types/Sequence/Coded.antt =====
-- Values that a `Nullable` class stores behind a type code.
use ignite_python_thin_clien.Base.{ℕ, ◌≡◌, ◌≢◌, refl, List, ◌∷◌, ◌++◌, length, pos}
use ignite_python_thin_clien.Result.{ok}
use ignite_python_thin_clien.Stream.{Stream, write}
use ignite_python_thin_clien.Stream.Laws.{stream_at, slice-here}
use ignite_python_thin_clien.Ctypes.{CType, sizeof, decode, get_int, type_code}
use ignite_python_thin_clien.Value.{Value}
use ignite_python_thin_clien.Types.{tc_null}
use ignite_python_thin_clien.Types.Nullable
use ignite_python_thin_clien.Types.Nullable.{DataClass}
use ignite_python_thin_clien.Types.Nullable.Laws.{not_null, not_null_code}
use ignite_python_thin_clien.Types.Sequence.{DataType, nullable}
use ignite_python_thin_clien.Types.Sequence.Laws.{Piece, Stores}

-- A piece that is stored behind a code, under which its structure finds it.
pub record Coded (cls : DataType) (code : ℕ) (p : Piece) : Type 0 where
  pub stores : Stores cls p
  pub more : List ℕ
  pub starts : p.stored ≡ code ∷ more
  pub tagged : get_int (decode p.c_type p.stored) type_code ≡ ok (pos code)

pub nullable-Coded :
    (cls : DataClass) (v : Value) (code : ℕ) (more : List ℕ) (t : CType) (w : Value)
    → code ≢ tc_null
    → ((s : Stream) → Nullable.from_python cls s v ≡ ok (write s (code ∷ more)))
    → ((pre rest : List ℕ)
        → cls.parse_not_null (stream_at pre ((code ∷ more) ++ rest))
          ≡ ok (t, stream_at (pre ++ (code ∷ more)) rest))
    → length (code ∷ more) ≡ sizeof t
    → get_int (decode t (code ∷ more)) type_code ≡ ok (pos code)
    → cls.to_python_not_null (decode t (code ∷ more)) ≡ ok w
    → Coded
        (nullable cls)
        code
        (record { given = v; stored = code ∷ more; c_type = t; returned = w })
nullable-Coded cls v code more t w ne writes parses size tagged reads = record {
  stores = record {
    writes = writes;
    parses = λ pre rest.
        unfold Nullable.parse in
        rw (slice-here pre (code ∷ (more ++ rest)) 1, not_null code ne, parses pre rest);
    size = size;
    reads = unfold Nullable.to_python in rw (tagged, not_null_code code ne, reads);
  };
  more = more;
  starts = refl;
  tagged = tagged;
}
