-- ===== src/Query/Laws.antt =====
-- The request that a query is written as.
use ignite_python_thin_clien.Base.{
  ℕ, ◌+◌, ◌-◌, ◌<◌, ◌≡◌, refl, sym, ap, arith, List, [], ◌∷◌, ◌++◌, length, replicate, ℤ, pos,
  length-append, length-replicate, take-append, take-all, take-beyond, drop-append, drop-all,
  drop-drop, append-nil, append_assoc,
}
use ignite_python_thin_clien.Base.Bytes.{le_bytes, wrap, length-le_bytes}
use ignite_python_thin_clien.Base.Dict.{Dict}
use ignite_python_thin_clien.Result.{ok}
use ignite_python_thin_clien.Stream.{Stream, overwrite, write, tell, seek_cur, seek_set}
use ignite_python_thin_clien.Stream.Laws.{stream_at}
use ignite_python_thin_clien.Ctypes.{sizeof}
use ignite_python_thin_clien.Query.{
  Field, Query, Header, header_c_type, header_bytes, build_header, lookup_value, write_fields,
  write_header, from_python,
}

-- A stream whose position is `n` behind what it holds, and then what has been written from there.
abbrev gapped : List ℕ → ℕ → List ℕ → Stream
gapped pre n [] = record { buffer = pre; position = length pre + n }
gapped pre n (x ∷ xs) = record {
  buffer = pre ++ (replicate n 0 ++ (x ∷ xs));
  position = length pre + n + length (x ∷ xs);
}

length-zeros : (n : ℕ) → length {A = ℕ} (replicate n 0) ≡ n
length-zeros n = length-replicate n 0

overwrite_gap :
    (pre : List ℕ) (n : ℕ) (bs : List ℕ)
    → overwrite pre (length pre + n) bs ≡ pre ++ (replicate n 0 ++ bs)
unfolding overwrite
overwrite_gap pre n bs =
    let added : length pre + n - length pre ≡ n = omega arith in
    rw
      (
        take-beyond (length pre + n) pre (omega arith),
        added,
        drop-all (length pre + n + length bs) pre (omega arith),
        append-nil bs,
      )
      (append_assoc pre (replicate n 0) bs)

overwrite_end : (buf bs : List ℕ) (p : ℕ) → p ≡ length buf → overwrite buf p bs ≡ buf ++ bs
unfolding overwrite
overwrite_end buf bs p h =
    let none_added : p - length buf ≡ 0 = omega arith in
    rw (
      none_added,
      take-all p buf h,
      drop-all (p + length bs) buf (omega arith),
      append-nil,
      append-nil bs,
    )

overwrite_over :
    (pre zs rest bs : List ℕ)
    → length zs ≡ length bs
    → overwrite (pre ++ (zs ++ rest)) (length pre) bs ≡ pre ++ (bs ++ rest)
unfolding overwrite
overwrite_over pre zs rest bs h =
    let none_added : length pre - length (pre ++ (zs ++ rest)) ≡ 0 =
      omega (arith, length-append pre (zs ++ rest)) in
    rw (
      none_added,
      take-append (length pre) pre (zs ++ rest) refl,
      append-nil,
      ← drop-drop (length bs) (length pre) (pre ++ (zs ++ rest)),
      drop-append (length pre) pre (zs ++ rest) refl,
      drop-append (length bs) zs rest (sym h),
    )

write-gapped :
    (pre : List ℕ) (n : ℕ) (xs ys : List ℕ) → write (gapped pre n xs) ys ≡ gapped pre n (xs ++ ys)
unfolding write
write-gapped pre n [] [] = refl
write-gapped pre n [] (y ∷ ys) = rw (overwrite_gap pre n (y ∷ ys)) refl
write-gapped pre n (x ∷ xs) [] = rw (append-nil xs) refl
write-gapped pre n (x ∷ xs) (y ∷ ys) =
    let here : length pre + n + length (x ∷ xs) ≡ length (pre ++ (replicate n 0 ++ (x ∷ xs))) =
      omega (
        arith,
        length-append pre (replicate n 0 ++ (x ∷ xs)),
        length-append (replicate n 0) (x ∷ xs),
        length-zeros n,
      ) in
    rw
      (
        overwrite_end (pre ++ (replicate n 0 ++ (x ∷ xs))) (y ∷ ys) _ here,
        append_assoc,
        append_assoc,
      )
      (ap (λ p. record { buffer = pre ++ (replicate n 0 ++ (x ∷ (xs ++ (y ∷ ys)))); position = p })
        (omega (arith, length-append xs (y ∷ ys))))

-- The fields of `following` write what stands in the list of the same length, one after the other.
pub data Writes {ℓ} {V : Type ℓ} (values : Dict ℕ V) : List (Field V) → List ℕ → Type ℓ where
  nothing : Writes values [] []
  writes :
      {f : Field V} {fs : List (Field V)} (v : V) (bs rest : List ℕ)
      → lookup_value values f.name ≡ ok v
      → ((s : Stream) → f.from_python s v ≡ ok (write s bs))
      → Writes values fs rest
      → Writes values (f ∷ fs) (bs ++ rest)

write_fields-gapped {ℓ} :
    {V : Type ℓ} (values : Dict ℕ V) (pre : List ℕ) (n : ℕ) {fs : List (Field V)} {bs : List ℕ}
    → Writes values fs bs
    → (xs : List ℕ) → write_fields fs values (gapped pre n xs) ≡ ok (gapped pre n (xs ++ bs))
unfolding write_fields
write_fields-gapped values pre n nothing xs = rw (append-nil xs) refl
write_fields-gapped values pre n (writes v bs rest found wrote ws) xs =
    rw
      (
        found,
        wrote (gapped pre n xs),
        write-gapped pre n xs bs,
        write_fields-gapped values pre n ws (xs ++ bs),
        append_assoc xs bs rest,
      )
      refl

header_size : (h : Header) → length (header_bytes h) ≡ 14
unfolding header_bytes
header_size h = omega (
  arith,
  length-append (le_bytes 4 (wrap 4 h.length))
      (le_bytes 2 (wrap 2 h.op_code) ++ le_bytes 8 (wrap 8 h.query_id)),
  length-append (le_bytes 2 (wrap 2 h.op_code)) (le_bytes 8 (wrap 8 h.query_id)),
  length-le_bytes 4 (wrap 4 h.length),
  length-le_bytes 2 (wrap 2 h.op_code),
  length-le_bytes 8 (wrap 8 h.query_id),
)

write_some :
    (s : Stream) (bs : List ℕ)
    → 0 < length bs
    → write s bs
      ≡ record { buffer = overwrite s.buffer s.position bs; position = s.position + length bs }
unfolding write
write_some s [] h = absurd (omega arith)
write_some s (b ∷ bs) h = refl

-- The header is put in front of what has been written behind the gap left for it.
over_gap :
    (pre bs hs : List ℕ)
    → length hs ≡ 14
    → write (seek_set (length pre) (gapped pre 14 bs)) hs
      ≡ record { buffer = pre ++ (hs ++ bs); position = length pre + 14 }
unfolding seek_set
over_gap pre [] hs h =
    rw
      (
        write_some (record { buffer = pre; position = length pre }) hs (omega arith),
        overwrite_end pre hs (length pre) refl,
        h,
        append-nil hs,
      )
      refl
over_gap pre (x ∷ xs) hs h =
    let filled : 0 < length hs = omega arith in
    let gap : List ℕ = replicate 14 0 in
    let start : Stream = record { buffer = pre ++ (gap ++ (x ∷ xs)); position = length pre } in
    rw (write_some start hs filled, overwrite_over pre gap (x ∷ xs) hs (sym h), h) refl

gapped-tell : (pre bs : List ℕ) → tell (gapped pre 14 bs) ≡ length pre + 14 + length bs
unfolding tell
gapped-tell pre [] = omega arith
gapped-tell pre (x ∷ xs) = refl

written_header :
    (pre bs : List ℕ) (h : Header)
    → write_header (gapped pre 14 bs) h (length pre) ≡ record {
      buffer = pre ++ (header_bytes (record h { length = pos (10 + length bs) }) ++ bs);
      position = length pre + 14;
    }
unfolding write_header sizeof
written_header pre bs h =
    let size : length pre + 14 + length bs - length pre - 4 ≡ 10 + length bs = omega arith in
    rw (gapped-tell pre bs, size)
      (over_gap pre bs (header_bytes (record h { length = pos (10 + length bs) })) (header_size _))

-- The header that a request has.
abbrev pub request_header {ℓ} : {V : Type ℓ} → Query V → ℤ → List ℕ → Header
request_header q random body = record (build_header q random (stream_at [] [])).0 {
  length = pos (10 + length body);
}

-- A query whose fields write `body` is written at the end of a stream as its header, whose length
-- counts every byte behind the length itself, and `body`. The stream stops behind the header.
pub from_python-request {ℓ} :
    {V : Type ℓ} (q : Query V) (random : ℤ) (values : Dict ℕ V) (pre body : List ℕ)
    → Writes values q.following body
    → from_python q random (stream_at pre []) values
      ≡ ok (record {
        buffer = pre ++ (header_bytes (request_header q random body) ++ body);
        position = length pre + 14;
      })
unfolding from_python build_header tell seek_cur header_c_type sizeof
from_python-request q random values pre body ws =
    rw (append-nil pre, write_fields-gapped values pre 14 ws [])
      (ap ok (written_header pre body (build_header q random (stream_at pre [])).0))
