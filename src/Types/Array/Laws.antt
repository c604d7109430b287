-- ===== src/Types/Array/Laws.antt =====
-- Arrays of integers are read back as they were written.
use ignite_python_thin_clien.Base.{
  ℕ, ◌+◌, ◌*◌, ◌^◌, ◌<◌, ◌≡◌, ◌≢◌, refl, sym, ap, ◌∙◌, arith, List, [], ◌++◌, length, map, take, ℤ,
  pos, length-append, take-append, drop-append, append_assoc, lt→ltb, ltb, if◌then◌else◌, negsuc,
  ◌-◌,
}
use ignite_python_thin_clien.Base.Bytes.{
  le_bytes, signed, from_bytes, from_bytes-le_bytes, length-le_bytes,
}
use ignite_python_thin_clien.Result.{ok}
use ignite_python_thin_clien.Stream.{seek_cur, tell, slice}
use ignite_python_thin_clien.Stream.Laws.{stream_at, advanced, slice_at}
use ignite_python_thin_clien.Ctypes.{
  decode, sizeof, read_int, getattr, get_int, get_ints, type_code, length_attr, data_attr,
}
use ignite_python_thin_clien.Value.{int, list, of_list}
use ignite_python_thin_clien.Types.{tc_null}
use ignite_python_thin_clien.Types.Primitive.{
  Primitive, byte, short, int_type, long, char, bool_type, width,
}
use ignite_python_thin_clien.Types.Nullable.{from_python}
use ignite_python_thin_clien.Types.Nullable.Laws.{RoundTrips, loads_not_null}
use ignite_python_thin_clien.Types.Array.{
  array_code, object_c_type, parse_object, read_items, read_object, array_class,
}
use ignite_python_thin_clien.Stream.Writes.{written_at_end}
use ignite_python_thin_clien.Types.Array.Items.{
  IsWide, item_bytes, array_bytes, InRange, length-item_bytes, read_ints-item_bytes, take_items-all,
  write_wide,
}

pub array_size :
    (p : Primitive) (zs : List ℤ) → length (array_bytes p zs) ≡ sizeof (object_c_type p (length zs))
unfolding object_c_type sizeof
array_size p zs = omega (
  arith,
  length-append (le_bytes 4 (length zs)) (item_bytes (width p) zs),
  length-le_bytes 4 (length zs),
  length-item_bytes (width p) zs,
)

module _ (p : Primitive) (zs : List ℤ) (small : length zs < 2 ^ 31) where
  stored : from_bytes (le_bytes 4 (length zs)) ≡ length zs
  stored = from_bytes-le_bytes 4 (length zs) (omega arith)

  pub parse_array :
      (pre rest : List ℕ)
      → parse_object p (stream_at pre (array_bytes p zs ++ rest))
        ≡ ok (
          object_c_type p (length zs),
          advanced pre (array_bytes p zs ++ rest) (sizeof (object_c_type p (length zs))),
        )
  unfolding parse_object tell seek_cur
  parse_array pre rest =
      let le = le_bytes 4 (length zs) in
      let seen : slice (pos (length pre + 1)) 4 (stream_at pre (array_bytes p zs ++ rest)) ≡ le =
        slice_at pre (array_bytes p zs ++ rest) 1 4
        ∙ ap (λ l. take 4 l) (append_assoc le (item_bytes (width p) zs) rest)
        ∙ take-append 4 le (item_bytes (width p) zs ++ rest)
            (sym (length-le_bytes 4 (length zs))) in
      rw (seen, stored) refl

  decode_length :
      get_int (decode (object_c_type p (length zs)) (array_bytes p zs)) length_attr
      ≡ ok (pos (length zs))
  unfolding decode object_c_type getattr sizeof read_int signed
  decode_length =
      rw
        (
          take-append 4 (le_bytes 4 (length zs)) (item_bytes (width p) zs)
              (sym (length-le_bytes 4 (length zs))),
          stored,
        )
        (rw (lt→ltb (2 * length zs) (256 ^ 4) (omega arith)) refl)

  decode_items :
      InRange (width p) zs
      → get_ints (decode (object_c_type p (length zs)) (array_bytes p zs)) data_attr ≡ ok zs
  unfolding decode object_c_type getattr sizeof
  decode_items h = rw (
    drop-append 4 (le_bytes 4 (length zs)) (item_bytes (width p) zs)
        (sym (length-le_bytes 4 (length zs))),
    read_ints-item_bytes (width p) zs h,
  )

  read_items_lem :
      InRange (width p) zs
      → read_items (decode (object_c_type p (length zs)) (array_bytes p zs)) ≡ ok zs
  unfolding read_items
  read_items_lem h = rw (decode_length, decode_items h, take_items-all zs)

  pub decode_code :
      get_int (decode (object_c_type p (length zs)) (array_bytes p zs)) type_code
      ≡ ok (pos (array_code p))
  unfolding decode object_c_type getattr sizeof read_int from_bytes signed
  decode_code = code p
    where
      code :
          (q : Primitive)
          → ok (
              if ltb (2 * (array_code q + 256 * 0)) 256
              then pos (array_code q + 256 * 0)
              else negsuc (255 - (array_code q + 256 * 0)))
            ≡ ok (pos (array_code q))
      code byte = refl
      code _ = refl

pub read_wide :
    (p : Primitive) (zs : List ℤ)
    → length zs < 2 ^ 31
    → IsWide p
    → InRange (width p) zs
    → read_object p (decode (object_c_type p (length zs)) (array_bytes p zs))
      ≡ ok (list (of_list (map int zs)))
unfolding read_object
read_wide short zs l i h = rw (read_items_lem short zs l h)
read_wide int_type zs l i h = rw (read_items_lem int_type zs l h)
read_wide long zs l i h = rw (read_items_lem long zs l h)
read_wide byte zs l i h = absurd i
read_wide char zs l i h = absurd i
read_wide bool_type zs l i h = absurd i

pub code_ne_null : (p : Primitive) → array_code p ≢ tc_null
code_ne_null byte = omega arith
code_ne_null _ = omega arith

-- A list of fewer than 2^31 integers that all fit the items of a ShortArrayObject, IntArrayObject or
-- LongArrayObject is written behind the type code and its length, item by item, and is read back,
-- whatever stands before and after it.
pub array_round_trip :
    (p : Primitive) (pre rest : List ℕ) (zs : List ℤ)
    → IsWide p
    → InRange (width p) zs
    → length zs < 2 ^ 31
    → RoundTrips
        (array_class p)
        pre
        rest
        (list (of_list (map int zs)))
        (list (of_list (map int zs)))
        (array_bytes p zs)
unfolding from_python
array_round_trip p pre rest zs i h l = (
  written_at_end pre (array_bytes p zs) (write_wide p (stream_at pre []) zs i h l),
  loads_not_null (array_class p) pre rest (object_c_type p (length zs)) (array_code p)
      (le_bytes 4 (length zs) ++ item_bytes (width p) zs) (ok (list (of_list (map int zs))))
      (code_ne_null p) (parse_array p zs l pre rest) (array_size p zs) (decode_code p zs l)
      (read_wide p zs l i h),
)
