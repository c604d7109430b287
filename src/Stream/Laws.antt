-- ===== src/Stream/Laws.antt =====
-- Writing at the end of a stream, and reading from a known position.
use ignite_python_thin_clien.Base.{
  ℕ, ◌+◌, ◌-◌, ◌≡◌, refl, sym, ap, arith, List, [], ◌∷◌, ◌++◌, length, take, drop, length-append,
  take-append, take-all, drop-append, drop-all, drop-drop, append-nil, append_assoc, none, pos,
  le→leb,
}
use ignite_python_thin_clien.Ctypes.{CType, CObject, sizeof, decode}
use ignite_python_thin_clien.Ctypes.Laws.{from_buffer_copy_all}
use ignite_python_thin_clien.Result.{Result, ok, ◌>>=◌}
use ignite_python_thin_clien.Stream.{
  Stream, seek_cur, overwrite, write, slice, read_ctype, read_backward, read_forward, decode_with,
  here,
}

-- The stream between what has been passed and what is still to come.
abbrev pub stream_at : List ℕ → List ℕ → Stream
stream_at pre rest = record { buffer = pre ++ rest; position = length pre }

-- The stream `n` bytes on.
abbrev pub advanced : List ℕ → List ℕ → ℕ → Stream
advanced pre rest n = record { buffer = pre ++ rest; position = length pre + n }

overwrite_end : (buf bs : List ℕ) → overwrite buf (length buf) bs ≡ buf ++ bs
unfolding overwrite
overwrite_end buf bs =
    let none_added : length buf - length buf ≡ 0 = omega arith in
    rw (
      none_added,
      take-all (length buf) buf refl,
      drop-all (length buf + length bs) buf (omega arith),
      append-nil,
      append-nil,
    )

pub write_end : (pre bs : List ℕ) → write (stream_at pre []) bs ≡ stream_at (pre ++ bs) []
unfolding write
write_end pre [] = rw (append-nil pre, append-nil pre) refl
write_end pre (b ∷ bs) =
    rw (append-nil pre, append-nil (pre ++ (b ∷ bs)))
      (λ i. record {
        buffer = overwrite_end pre (b ∷ bs) i;
        position = sym (length-append pre (b ∷ bs)) i;
      })

pub write_end_twice :
    (pre front bs : List ℕ)
    → write (write (stream_at pre []) front) bs ≡ stream_at (pre ++ (front ++ bs)) []
write_end_twice pre front bs =
    rw (write_end pre front, write_end (pre ++ front) bs)
      (ap (λ l. stream_at l []) (append_assoc pre front bs))

pub slice_at :
    (pre rest : List ℕ) (i k : ℕ)
    → slice (pos (length pre + i)) k (stream_at pre rest) ≡ take k (drop i rest)
unfolding slice
slice_at pre rest i k =
    let size : length pre + i + k - (length pre + i) ≡ k = omega arith in
    rw (size, ← drop-drop i (length pre) (pre ++ rest), drop-append (length pre) pre rest refl)

pub slice-here : (pre rest : List ℕ) (k : ℕ) → slice here k (stream_at pre rest) ≡ take k rest
unfolding slice
slice-here pre rest k =
    let size : length pre + k - length pre ≡ k = omega arith in
    rw (size, drop-append (length pre) pre rest refl)

pub read_back :
    (t : CType) (pre bs rest : List ℕ)
    → length bs ≡ sizeof t
    → read_ctype t none read_backward (advanced pre (bs ++ rest) (sizeof t)) ≡ ok (decode t bs)
unfolding read_ctype
read_back t pre bs rest h =
    let lo : length pre + sizeof t - sizeof t ≡ length pre = omega arith in
    let hi : length pre + sizeof t - length pre ≡ sizeof t = omega arith in
    rw
      (
        le→leb (sizeof t) (length pre + sizeof t) (omega arith),
        lo,
        hi,
        drop-append (length pre) pre (bs ++ rest) refl,
        take-append (sizeof t) bs rest (omega arith),
      )
      (from_buffer_copy_all t bs h)

-- The bytes of a structure are read as what `to_python` makes of them, and the stream stops behind
-- them, whatever follows.
pub decode_with_at {ℓ} :
    {A : Type ℓ} (parse : Stream → Result (CType × Stream)) (to_python : CObject → Result A)
    (t : CType) (pre bs rest : List ℕ) (r : Result A)
    → parse (stream_at pre (bs ++ rest)) ≡ ok (t, advanced pre (bs ++ rest) (sizeof t))
    → length bs ≡ sizeof t
    → to_python (decode t bs) ≡ r
    → decode_with parse to_python (stream_at pre (bs ++ rest))
      ≡ (r >>= λ v. ok (v, advanced pre (bs ++ rest) (sizeof t)))
unfolding decode_with
decode_with_at parse to_python t pre bs rest r p h e = rw (p, read_back t pre bs rest h, e)

-- Passing the bytes of what has been parsed.
pub seek_past :
    (pre bs rest : List ℕ) (n : ℕ)
    → length bs ≡ n
    → seek_cur n (stream_at pre (bs ++ rest)) ≡ stream_at (pre ++ bs) rest
unfolding seek_cur
seek_past pre bs rest n h = λ i. record {
  buffer = sym (append_assoc pre bs rest) i;
  position =
      (let e : length pre + n ≡ length (pre ++ bs) = omega (arith, h, length-append pre bs) in e) i;
}

pub advanced-stream_at :
    (pre bs rest : List ℕ) (n : ℕ)
    → length bs ≡ n
    → advanced pre (bs ++ rest) n ≡ stream_at (pre ++ bs) rest
advanced-stream_at pre bs rest n h = unfold seek_cur in seek_past pre bs rest n h

pub seek_none : (s : Stream) → seek_cur 0 s ≡ s
unfolding seek_cur
seek_none s = λ i. record {
  buffer = s.buffer;
  position = (let e : s.position + 0 ≡ s.position = omega arith in e) i;
}

pub read_forward_at :
    (t : CType) (pre bs rest : List ℕ)
    → length bs ≡ sizeof t
    → read_ctype t none read_forward (stream_at pre (bs ++ rest)) ≡ ok (decode t bs)
unfolding read_ctype
read_forward_at t pre bs rest h =
    let size : length pre + sizeof t - length pre ≡ sizeof t = omega arith in
    rw
      (size, drop-append (length pre) pre (bs ++ rest) refl, take-append (sizeof t) bs rest (sym h))
      (from_buffer_copy_all t bs h)
