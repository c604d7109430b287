-- ===== src/Stream.antt =====
-- pyignite/stream/binary_stream.py: a position in a byte buffer (`io.BytesIO`).
-- The cached memory view `_buffer` holds no state of its own and is left out.
pub mod Laws
pub mod Writes
use ignite_python_thin_clien.Base.{
  ℕ, ◌+◌, ◌-◌, List, [], ◌∷◌, ◌++◌, ℤ, pos, negsuc, ltb, sub_ℕ, if◌then◌else◌, length, take, drop,
  replicate, Option, none, some,
}
use ignite_python_thin_clien.Result.{Result, ok, ◌>>=◌}
use ignite_python_thin_clien.Ctypes.{CType, CObject, sizeof, from_buffer_copy}

pub record Stream : Type 0 where
  pub buffer : List ℕ
  pub position : ℕ

pub data Direction : Type 0 where
  read_forward read_backward : Direction

abbrev pub new_stream : List ℕ → Stream
new_stream buf = record { buffer = buf; position = 0 }

unfoldable pub tell : Stream → ℕ
tell s = s.position

-- seek(n, SEEK_CUR)
unfoldable pub seek_cur : ℕ → Stream → Stream
seek_cur n s = record s { position = s.position + n }

-- seek(n)
unfoldable pub seek_set : ℕ → Stream → Stream
seek_set n s = record s { position = n }

-- A write at a position: the gap up to it is filled with zeros, and what stood there is replaced.
-- Nothing is done where there are no bytes to write.
unfoldable pub overwrite : List ℕ → ℕ → List ℕ → List ℕ
overwrite buf p bs =
    (take p buf ++ replicate (p - length buf) 0) ++ (bs ++ drop (p + length bs) buf)

unfoldable pub write : Stream → List ℕ → Stream
unfolding overwrite
write s [] = s
write s (b ∷ bs) = record {
  buffer = overwrite s.buffer s.position (b ∷ bs);
  position = s.position + length (b ∷ bs);
}

-- A `bytearray` of the size asked for, filled as far as the buffer goes.
unfoldable pub read : ℕ → Stream → List ℕ × Stream
read size s =
    let got = take size (drop s.position s.buffer) in
    (got ++ replicate (size - length got) 0, record s { position = s.position + length got })

abbrev pub buffer_slice : List ℕ → ℕ → ℕ → List ℕ
buffer_slice buf start stop = take (stop - start) (drop start buf)

-- A negative start of a Python slice counts from the end.
abbrev pub slice_start : ℕ → ℤ → ℕ
slice_start n (pos i) = i
slice_start n (negsuc i) = n - (i + 1)

-- slice(start, offset): a negative `start`, the default, stands for the position.
unfoldable pub slice : ℤ → ℕ → Stream → List ℕ
slice (pos start) offset s = buffer_slice s.buffer start (start + offset)
slice (negsuc _) offset s = buffer_slice s.buffer s.position (s.position + offset)

abbrev pub here : ℤ
here = negsuc 0

unfoldable pub read_ctype : CType → Option ℕ → Direction → Stream → Result CObject
read_ctype t position direction s =
    let ctype_len = sizeof t in
    let init_position : ℕ = elim position [ none ↦ s.position | some p ↦ p ] in
    elim direction [
      | read_forward ↦
          from_buffer_copy t (buffer_slice s.buffer init_position (init_position + ctype_len))
      | read_backward ↦ from_buffer_copy t (
          buffer_slice s.buffer (slice_start (length s.buffer) (sub_ℕ init_position ctype_len))
            init_position)
    ]

-- How the client decodes with any data type: the type is parsed, which moves past the value, the
-- structure is read back from the bytes passed, and is turned into a Python value.
unfoldable pub decode_with {ℓ} :
    {A : Type ℓ}
    → (Stream → Result (CType × Stream))
    → (CObject → Result A)
    → Stream
    → Result (A × Stream)
decode_with parse to_python s = do
  (t, s') ← parse s
  obj ← read_ctype t none read_backward s'
  v ← to_python obj
  ok (v, s')
