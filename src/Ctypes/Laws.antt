-- ===== src/Ctypes/Laws.antt =====
-- Reading a structure that is all of a buffer, or its start.
use ignite_python_thin_clien.Base.{
  ℕ, zero, suc, ◌*◌, ◌≤◌, ◌≡◌, refl, ap, arith, List, ◌++◌, length, le→ltb, Bool, take-append_le,
  drop-append_le, length-drop, drop,
}
use native.Mathlib.Nat.{mul-suc}
use ignite_python_thin_clien.Result.{ok}
use ignite_python_thin_clien.Ctypes.{
  CType, Fields, scalar, array, chars, struct, end, field, int, ints, text, members, sizeof,
  sizeof_fields, read_int, read_ints, cut, decode, decode_fields, from_buffer_copy,
}

pub from_buffer_copy_all :
    (t : CType) (bs : List ℕ) → length bs ≡ sizeof t → from_buffer_copy t bs ≡ ok (decode t bs)
unfolding from_buffer_copy
from_buffer_copy_all t bs h = rw (le→ltb (length bs) (sizeof t) (omega arith))

read_ints-append :
    (s : Bool) (k n : ℕ) (bs more : List ℕ)
    → k * n ≤ length bs
    → read_ints s k n (bs ++ more) ≡ read_ints s k n bs
unfolding read_ints
read_ints-append s k zero bs more h = refl
read_ints-append s k (suc n) bs more h =
    let first : k ≤ length bs = omega (arith, mul-suc k n) in
    let left : k * n ≤ length (drop k bs) = omega (arith, mul-suc k n, length-drop k bs) in
    rw (
      take-append_le k bs more first,
      drop-append_le k bs more first,
      read_ints-append s k n (drop k bs) more left,
    )

mutual
  unfolding decode sizeof decode_fields sizeof_fields

  -- What follows a structure is not read.
  pub decode-append :
      (t : CType) (bs more : List ℕ) → sizeof t ≤ length bs → decode t (bs ++ more) ≡ decode t bs
  decode-append (scalar s k) bs more h = ap (λ l. int (read_int s k l)) (take-append_le k bs more h)
  decode-append (array s k n) bs more h = ap ints (read_ints-append s k n bs more h)
  decode-append (chars n) bs more h = ap (λ l. text (cut l)) (take-append_le n bs more h)
  decode-append (struct fs) bs more h = ap members (decode_fields-append fs bs more h)

  pub decode_fields-append :
      (fs : Fields) (bs more : List ℕ)
      → sizeof_fields fs ≤ length bs
      → decode_fields fs (bs ++ more) ≡ decode_fields fs bs
  decode_fields-append end bs more h = refl
  decode_fields-append (field a t fs) bs more h =
      let first : sizeof t ≤ length bs = omega arith in
      let left : sizeof_fields fs ≤ length (drop (sizeof t) bs) =
        omega (arith, length-drop (sizeof t) bs) in
      rw (
        decode-append t bs more first,
        drop-append_le (sizeof t) bs more first,
        decode_fields-append fs (drop (sizeof t) bs) more left,
      )
