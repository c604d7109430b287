-- ===== src/Types/String/Laws.antt =====
-- Which strings are read back as they were written.
use ignite_python_thin_clien.Base.{
  ℕ, ◌+◌, ◌^◌, ◌<◌, ◌≡◌, refl, sym, ap, ◌∙◌, arith, List, [], ◌∷◌, ◌++◌, pos, length, take, All,
  take-append, drop-append, length-append, append_assoc, ltb_ℤ, take-all, true,
}
use ignite_python_thin_clien.Base.Bytes.{
  le_bytes, wrap, wrap-lt, signed-wrap_pos, signed, from_bytes, from_bytes-le_bytes,
  length-le_bytes,
}
use ignite_python_thin_clien.Result.{ok}
use ignite_python_thin_clien.Stream.Writes.{written_at_end}
use ignite_python_thin_clien.Stream.{Stream, write, seek_cur, tell, slice}
use ignite_python_thin_clien.Stream.Laws.{stream_at, advanced, slice_at}
use ignite_python_thin_clien.Ctypes.{
  decode, sizeof, read_int, getattr, get_int, get_text, cut, assign_chars, type_code, length_attr,
  data_attr,
}
use ignite_python_thin_clien.Text.{IsScalar, utf8_encode, utf8_decode, utf8_loop}
use ignite_python_thin_clien.Value.{str}
use ignite_python_thin_clien.Types.{tc_string}
use ignite_python_thin_clien.Types.Nullable.{from_python}
use ignite_python_thin_clien.Types.Nullable.Laws.{RoundTrips, loads_not_null}
use ignite_python_thin_clien.Types.String.{
  build_c_type, encoded, string_bytes, write_not_null, parse_not_null, text_of, read_not_null,
  string_class,
}
use ignite_python_thin_clien.Types.String.Cut.{
  length-assign_chars, cut-assign_chars, cut-nonzero, decode-cut,
}

pub length_bytes : (bs : List ℕ) → length (string_bytes bs) ≡ sizeof (build_c_type (length bs))
unfolding build_c_type sizeof
length_bytes bs = omega (
  arith,
  length-append (le_bytes 4 (wrap 4 (pos (length bs)))) (assign_chars bs),
  length-le_bytes 4 (wrap 4 (pos (length bs))),
  length-assign_chars bs,
)

stored_length : (n : ℕ) → n < 2 ^ 31 → from_bytes (le_bytes 4 (wrap 4 (pos n))) ≡ n
stored_length n h =
    let small : n < 256 ^ 4 = omega arith in
    rw (from_bytes-le_bytes 4 (wrap 4 (pos n)) (wrap-lt 4 (pos n))) (unfold wrap in omega arith)

pub parse_string :
    (pre rest bs : List ℕ)
    → length bs < 2 ^ 31
    → parse_not_null (stream_at pre (string_bytes bs ++ rest))
      ≡ ok (
        build_c_type (length bs),
        advanced pre (string_bytes bs ++ rest) (sizeof (build_c_type (length bs))),
      )
unfolding parse_not_null tell seek_cur
parse_string pre rest bs h =
    let le = le_bytes 4 (wrap 4 (pos (length bs))) in
    let four : 4 ≡ length le = sym (length-le_bytes 4 (wrap 4 (pos (length bs)))) in
    let seen : slice (pos (length pre + 1)) 4 (stream_at pre (string_bytes bs ++ rest)) ≡ le =
      slice_at pre (string_bytes bs ++ rest) 1 4
      ∙ ap (λ l. take 4 l) (append_assoc le (assign_chars bs) rest)
      ∙ take-append 4 le (assign_chars bs ++ rest) four in
    rw (seen, stored_length (length bs) h) refl

decode_length :
    (bs : List ℕ)
    → length bs < 2 ^ 31
    → get_int (decode (build_c_type (length bs)) (string_bytes bs)) length_attr
      ≡ ok (pos (length bs))
unfolding decode build_c_type getattr sizeof read_int
decode_length bs h = rw (
  take-append 4 (le_bytes 4 (wrap 4 (pos (length bs)))) (assign_chars bs)
      (sym (length-le_bytes 4 (wrap 4 (pos (length bs))))),
  from_bytes-le_bytes 4 (wrap 4 (pos (length bs))) (wrap-lt 4 (pos (length bs))),
  signed-wrap_pos 4 (length bs) (omega arith),
)

decode_text :
    (bs : List ℕ)
    → get_text (decode (build_c_type (length bs)) (string_bytes bs)) data_attr ≡ ok (cut bs)
unfolding decode build_c_type getattr sizeof
decode_text bs = rw (
  drop-append 4 (le_bytes 4 (wrap 4 (pos (length bs)))) (assign_chars bs)
      (sym (length-le_bytes 4 (wrap 4 (pos (length bs))))),
  take-all (length bs) (assign_chars bs) (sym (length-assign_chars bs)),
  cut-assign_chars bs,
)

text_of-cut :
    (cs bs : List ℕ)
    → utf8_decode (cut bs) ≡ ok (cut cs)
    → text_of (pos (length bs)) (cut bs) ≡ ok (str (cut cs))
unfolding text_of
text_of-cut cs [] d =
    let empty : utf8_decode (cut []) ≡ ok [] = unfold cut utf8_decode utf8_loop in refl in
    let same : cut cs ≡ [] = cc in cc
text_of-cut cs (b ∷ bs) d =
    let some_bytes : ltb_ℤ (pos 0) (pos (length (b ∷ bs))) ≡ true = ground arith in
    rw (some_bytes, d)

pub read_string :
    (cs bs : List ℕ)
    → All IsScalar cs
    → utf8_encode cs ≡ ok bs
    → length bs < 2 ^ 31
    → read_not_null (decode (build_c_type (length bs)) (string_bytes bs)) ≡ ok (str (cut cs))
unfolding read_not_null
read_string cs bs h e l =
    rw (decode_length bs l, decode_text bs) (text_of-cut cs bs (decode-cut cs bs h e))

pub decode_code :
    (bs : List ℕ)
    → get_int (decode (build_c_type (length bs)) (string_bytes bs)) type_code ≡ ok (pos tc_string)
unfolding decode build_c_type getattr sizeof read_int from_bytes signed
decode_code bs = refl

pub write_string :
    (s : Stream) (cs bs : List ℕ)
    → utf8_encode cs ≡ ok bs
    → write_not_null s (str cs) ≡ ok (write s (string_bytes bs))
unfolding write_not_null encoded
write_string s cs bs e = rw e

-- Text of scalar values whose UTF-8 form `bs` is shorter than 2^31 bytes is written behind its type
-- code and its length in bytes. It is read back up to its first U+0000 (`cut`), and the stream
-- stops behind it, whatever stands before and after it.
pub string_read_to_nul :
    (pre rest cs bs : List ℕ)
    → All IsScalar cs
    → utf8_encode cs ≡ ok bs
    → length bs < 2 ^ 31
    → RoundTrips string_class pre rest (str cs) (str (cut cs)) (string_bytes bs)
unfolding from_python
string_read_to_nul pre rest cs bs h e l = (
  written_at_end pre (string_bytes bs) (write_string (stream_at pre []) cs bs e),
  loads_not_null string_class pre rest (build_c_type (length bs)) tc_string
      (le_bytes 4 (wrap 4 (pos (length bs))) ++ assign_chars bs) (ok (str (cut cs))) (omega arith)
      (parse_string pre rest bs l) (length_bytes bs) (decode_code bs) (read_string cs bs h e l),
)

-- Text of scalar values without U+0000, whose UTF-8 form `bs` is shorter than 2^31 bytes, is written
-- behind its type code and its length in bytes, and is read back whole, whatever stands before and
-- after it.
pub string_round_trip :
    (pre rest cs bs : List ℕ)
    → All IsScalar cs
    → All (λ c. 0 < c) cs
    → utf8_encode cs ≡ ok bs
    → length bs < 2 ^ 31
    → RoundTrips string_class pre rest (str cs) (str cs) (string_bytes bs)
string_round_trip pre rest cs bs h n e l =
    read_as cs (sym (cut-nonzero cs n)) (string_read_to_nul pre rest cs bs h e l)
  where
    read_as :
        (w : List ℕ)
        → w ≡ cut cs
        → RoundTrips string_class pre rest (str cs) (str (cut cs)) (string_bytes bs)
        → RoundTrips string_class pre rest (str cs) (str w) (string_bytes bs)
    read_as w e r = rw e r
