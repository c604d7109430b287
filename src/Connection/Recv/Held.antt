-- ===== src/Connection/Recv/Held.antt =====
-- The rounds of the loop on a buffer that holds what has been received.
use ignite_python_thin_clien.Base.{
  ℕ, zero, suc, ◌+◌, ◌-◌, ◌≤◌, ◌<◌, ◌≡◌, ◌≢◌, refl, sym, ap, ◌∙◌, arith, List, ◌∷◌, ◌++◌, length,
  drop, replicate, length-append, length-replicate, take-append, drop-append, drop-drop,
  append_assoc, append-nil, some, leb, ◌==◌, if◌then◌else◌, le→ltb, le→leb, lt→leb, false,
}
use ignite_python_thin_clien.Result.{ok}
use ignite_python_thin_clien.Stream.{overwrite}
use ignite_python_thin_clien.Connection.Recv.{
  Arrival, chunk, Progress, again, finished, round, check_done, recv_into, recv_loop,
}

abbrev pub zeros : ℕ → List ℕ
zeros n = replicate n 0

-- The variables of the loop when `got` has been received into a buffer of `room` bytes.
abbrev pub held : List ℕ → ℕ → ℕ → Progress
held got room len = record {
  data_bytes = got ++ zeros (room - length got);
  start = length got;
  total = length got;
  to_receive = len;
}

length-zeros : (n : ℕ) → length (zeros n) ≡ n
length-zeros n = length-replicate n 0

pub drop-replicate : (n m : ℕ) → drop n (zeros m) ≡ zeros (m - n)
drop-replicate zero m = ap (λ k. zeros k) (omega arith)
drop-replicate (suc n) zero = let e : 0 ≡ 0 - suc n = omega arith in ap zeros e
drop-replicate (suc n) (suc m) = drop-replicate n m ∙ ap (λ k. zeros k) (omega arith)

pub replicate-append : (m n : ℕ) → zeros m ++ zeros n ≡ zeros (m + n)
replicate-append zero n = ap (λ k. zeros k) (omega arith)
replicate-append (suc m) n =
    ap (λ l. 0 ∷ l) (replicate-append m n)
    ∙ ap (λ k. zeros k) (let e : suc (m + n) ≡ suc m + n = omega arith in e)

pub length-held :
    (got : List ℕ) (room : ℕ) → length got ≤ room → length (got ++ zeros (room - length got)) ≡ room
length-held got room h =
    omega (arith, length-append got (zeros (room - length got)), length-zeros (room - length got))

-- What is received goes behind what is held.
pub overwrite-held :
    (got bs : List ℕ) (room : ℕ)
    → length got + length bs ≤ room
    → overwrite (got ++ zeros (room - length got)) (length got) bs
      ≡ (got ++ bs) ++ zeros (room - length (got ++ bs))
unfolding overwrite
overwrite-held got bs room h =
    let gap : length got - length (got ++ zeros (room - length got)) ≡ 0 =
      omega (arith, length-held got room (omega arith)) in
    let left : room - length got - length bs ≡ room - length (got ++ bs) =
      omega (arith, length-append got bs) in
    rw
      (
        gap,
        take-append (length got) got (zeros (room - length got)) refl,
        ← drop-drop (length bs) (length got) (got ++ zeros (room - length got)),
        drop-append (length got) got (zeros (room - length got)) refl,
        drop-replicate (length bs) (room - length got),
        left,
        append-nil,
      )
      (sym (append_assoc got bs _))

round-held :
    (got bs : List ℕ) (room len : ℕ)
    → length got + length bs ≤ room
    → 4 ≤ length got + length bs
    → len ≢ 0
    → round (held got room len) bs ≡ (
        if leb len (length got + length bs)
        then finished ((got ++ bs) ++ zeros (room - length (got ++ bs)))
        else again (held (got ++ bs) room len))
unfolding round check_done
round-held got bs room len h four nz =
    let known : (len == 0) ≡ false = ground arith in
    rw (
      overwrite-held got bs room h,
      le→ltb (length got + length bs) 4 four,
      known,
      length-append got bs,
    )

pub round_more :
    (got bs : List ℕ) (room len : ℕ)
    → length got + length bs ≤ room
    → 4 ≤ length got + length bs
    → length got + length bs < len
    → round (held got room len) bs ≡ again (held (got ++ bs) room len)
round_more got bs room len h four more =
    round-held got bs room len h four (ground arith) ∙ rw (lt→leb len (length got + length bs) more)

pub round_last :
    (got bs : List ℕ) (room len : ℕ)
    → length got + length bs ≤ room
    → 4 ≤ length got + length bs
    → len ≢ 0
    → len ≤ length got + length bs
    → round (held got room len) bs ≡ finished ((got ++ bs) ++ zeros (room - length (got ++ bs)))
round_last got bs room len h four nz last =
    round-held got bs room len h four nz ∙ rw (le→leb len (length got + length bs) last)

pub recv_into-chunk :
    (size : ℕ) (c : List ℕ) (socket : List Arrival)
    → length c ≤ size
    → recv_into size (chunk c ∷ socket) ≡ some (ok (c, socket))
unfolding recv_into
recv_into-chunk size c socket h = rw (le→ltb size (length c) h)

view_size :
    (got : List ℕ) (room : ℕ)
    → length got ≤ room
    → length (got ++ zeros (room - length got)) - length got ≡ room - length got
view_size got room h = rw (length-held got room h)

module _ (fuel : ℕ) (socket socket' : List Arrival) (p : Progress) (bs : List ℕ)
    (got : recv_into (length p.data_bytes - p.start) socket ≡ some (ok (bs, socket')))
    (one : 0 < length bs) where
  pub loop_again :
      (p' : Progress)
      → round p bs ≡ again p'
      → recv_loop (suc fuel) socket p ≡ recv_loop fuel socket' p'
  unfolding recv_loop
  loop_again p' r =
      let some_bytes : (length bs == 0) ≡ false = ground arith in
      rw (got, recv_loop) (rw some_bytes (rw (r, recv_loop)))

  pub loop_done :
      (d : List ℕ)
      → round p bs ≡ finished d
      → recv_loop (suc fuel) socket p ≡ some (ok (d, socket'))
  unfolding recv_loop
  loop_done d r =
      let some_bytes : (length bs == 0) ≡ false = ground arith in
      rw (got, recv_loop) (rw some_bytes (rw (r, recv_loop)))

pub held_recv :
    (got c : List ℕ) (room len : ℕ) (socket : List Arrival)
    → length got + length c ≤ room
    → recv_into (length (held got room len).data_bytes - length got) (chunk c ∷ socket)
      ≡ some (ok (c, socket))
held_recv got c room len socket h =
    rw (view_size got room (omega arith))
      (recv_into-chunk (room - length got) c socket (omega arith))
