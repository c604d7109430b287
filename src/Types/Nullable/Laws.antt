-- ===== src/Types/Nullable/Laws.antt =====
-- The null object, and the values of a class behind their type code.
use ignite_python_thin_clien.Base.{
  ℕ, ◌≡◌, ◌≢◌, refl, arith, List, [], ◌∷◌, ◌++◌, length, pos, ◌==◌, false, eq_ℤ,
}
use ignite_python_thin_clien.Result.{Result, ok, ◌>>=◌}
use ignite_python_thin_clien.Stream.{seek_cur}
use ignite_python_thin_clien.Stream.Laws.{
  stream_at, advanced, slice-here, write_end, decode_with_at,
}
use ignite_python_thin_clien.Ctypes.{CType, sizeof, decode, get_int, getattr, type_code, read_int}
use ignite_python_thin_clien.Base.Bytes.{signed, from_bytes}
use ignite_python_thin_clien.Value.{Value, none_value}
use ignite_python_thin_clien.Types.{tc_null}
use ignite_python_thin_clien.Types.Nullable.{
  DataClass, null_c_type, from_python, parse, to_python, loads,
}

pub not_null : (code : ℕ) → code ≢ tc_null → (code == tc_null) ≡ false
not_null code ne = ground arith

pub not_null_code : (code : ℕ) → code ≢ tc_null → eq_ℤ (pos code) (pos tc_null) ≡ false
not_null_code code ne = ground arith

module _ (cls : DataClass) (pre rest : List ℕ) where
  -- `v` is written as `bs`, and `bs` is read as `w`, with nothing of what follows taken.
  abbrev pub RoundTrips : Value → Value → List ℕ → Type 0
  RoundTrips v w bs =
      (from_python cls (stream_at pre []) v ≡ ok (stream_at (pre ++ bs) []))
      × (loads cls (stream_at pre (bs ++ rest)) ≡ ok (w, advanced pre (bs ++ rest) (length bs)))

  pub parse_null :
      parse cls (stream_at pre (tc_null ∷ rest))
      ≡ ok (null_c_type, advanced pre (tc_null ∷ rest) (sizeof null_c_type))
  unfolding parse seek_cur sizeof
  parse_null = rw (slice-here pre (tc_null ∷ rest) 1)

  pub to_python_null : to_python cls (decode null_c_type (tc_null ∷ [])) ≡ ok none_value
  unfolding to_python decode getattr sizeof read_int signed from_bytes
  to_python_null = refl

  -- None is the null object for every class.
  pub none_round_trip : RoundTrips none_value none_value (tc_null ∷ [])
  unfolding from_python loads sizeof
  none_round_trip = (
    rw (write_end pre (tc_null ∷ [])),
    decode_with_at (parse cls) (to_python cls) null_c_type pre (tc_null ∷ []) rest (ok none_value)
        parse_null refl to_python_null,
  )

  -- A class whose values begin with a code other than null's reads what its own methods read.
  pub loads_not_null :
      (t : CType) (code : ℕ) (bs : List ℕ) (w : Result Value)
      → code ≢ tc_null
      → cls.parse_not_null (stream_at pre ((code ∷ bs) ++ rest))
        ≡ ok (t, advanced pre ((code ∷ bs) ++ rest) (sizeof t))
      → length (code ∷ bs) ≡ sizeof t
      → get_int (decode t (code ∷ bs)) type_code ≡ ok (pos code)
      → cls.to_python_not_null (decode t (code ∷ bs)) ≡ w
      → loads cls (stream_at pre ((code ∷ bs) ++ rest))
        ≡ (w >>= λ v. ok (v, advanced pre ((code ∷ bs) ++ rest) (length (code ∷ bs))))
  unfolding loads
  loads_not_null t code bs w ne p l g e = rw l (
      decode_with_at (parse cls) (to_python cls) t pre (code ∷ bs) rest w
        (unfold parse in rw (slice-here pre (code ∷ (bs ++ rest)) 1, not_null code ne, p)) l
        (unfold to_python in rw (g, not_null_code code ne, e)))
