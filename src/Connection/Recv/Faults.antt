-- ===== src/Connection/Recv/Faults.antt =====
-- Two ways of cutting a response that `recv` does not put together.
use ignite_python_thin_clien.Base.{
  ℕ, zero, suc, ◌+◌, ◌-◌, ◌≤◌, ◌<◌, ◌≡◌, refl, ◌∙◌, arith, List, [], ◌∷◌, ◌++◌, length, take,
  length-append, drop-append, drop-drop, some, lt→ltb, le→ltb, le→leb,
}
use ignite_python_thin_clien.Base.Bytes.{from_bytes}
use ignite_python_thin_clien.Result.{ok}
use ignite_python_thin_clien.Stream.{overwrite}
use ignite_python_thin_clien.Connection.Recv.{
  Arrival, chunk, Progress, again, finished, round, check_done, read_length, recv_loop, recv,
  pending,
}
use ignite_python_thin_clien.Connection.Recv.Held.{
  zeros, held, loop_again, loop_done, held_recv, overwrite-held, drop-replicate, length-held,
  recv_into-chunk,
}
use ignite_python_thin_clien.Connection.Recv.Delivery.{recv-held, round_only, length_read}

-- The test for the end compares with the length without its own four bytes. Where a response of at
-- most 1024 bytes arrives in two pieces, and the first has the length and stops within the last four
-- bytes, zeros are returned in place of the rest, which stays in the socket, in front of what comes
-- later.
pub recv_short :
    (c d : List ℕ) (later : List Arrival) (len : ℕ)
    → 4 ≤ length c
    → from_bytes (take 4 c) ≡ len
    → len ≤ length c
    → length (c ++ d) ≡ len + 4
    → len + 4 ≤ 1024
    → recv (chunk c ∷ chunk d ∷ later) ≡ some (ok (c ++ zeros (1024 - length c), chunk d ∷ later))
recv_short c d later len four head stop sum fits =
    let size : length (c ++ d) ≡ length c + length d = length-append c d in
    recv-held (chunk c ∷ chunk d ∷ later)
    ∙ loop_done (pending (chunk c ∷ chunk d ∷ later)) (chunk c ∷ chunk d ∷ later) (chunk d ∷ later)
        (held [] 1024 0) c (held_recv [] c 1024 0 (chunk d ∷ later) (omega arith)) (omega arith)
        (c ++ zeros (1024 - length c)) (round_only c 1024 len four (omega arith) head stop fits)

-- The loop after fewer than four bytes: they are counted, and the view has not moved.
abbrev overlaid : List ℕ → ℕ → Progress
overlaid a room = record {
  data_bytes = a ++ zeros (room - length a);
  start = 0;
  total = length a;
  to_receive = 0;
}

module _ (a : List ℕ) (room : ℕ) (few : length a < 4) (fits : length a ≤ room) where
  round_few : round (held [] room 0) a ≡ again (overlaid a room)
  unfolding round
  round_few =
      let n : 0 + length a ≡ length a = omega arith in
      rw (overwrite-held [] a room (omega arith), n, lt→ltb (length a) 4 few)

  overwrite-overlaid :
      (b : List ℕ)
      → length a ≤ length b
      → length b ≤ room
      → overwrite (a ++ zeros (room - length a)) 0 b ≡ b ++ zeros (room - length b)
  unfolding overwrite
  overwrite-overlaid b le h =
      let n : 0 + length b ≡ length a + (length b - length a) = omega arith in
      let left : room - length a - (length b - length a) ≡ room - length b = omega arith in
      let none_missing : 0 - length (a ++ zeros (room - length a)) ≡ 0 = omega arith in
      rw (
        none_missing,
        n,
        ← drop-drop (length b - length a) (length a) (a ++ zeros (room - length a)),
        drop-append (length a) a (zeros (room - length a)) refl,
        drop-replicate (length b - length a) (room - length a),
        left,
      )

  round-overlaid :
      (b : List ℕ) (len : ℕ)
      → 4 ≤ length b
      → length b ≤ room
      → from_bytes (take 4 b) ≡ len
      → len + 4 ≤ room
      → len ≤ length a + length b
      → round (overlaid a room) b ≡ finished (b ++ zeros (room - length b))
  unfolding round
  round-overlaid b len four h head ok_len stop =
      rw (overwrite-overlaid b (omega arith) h, le→ltb (length a + length b) 4 (omega arith))
        (unfold read_length in
          rw
            (length_read b room len four h head, length-held b room h, le→ltb room (len + 4) ok_len)
            (unfold check_done in rw (le→leb len (length a + length b) stop)))

-- After a first piece of one to three bytes the view is not moved on: a second piece of four to 1024
-- bytes replaces it, and the length is read from the second piece. Where that length fits the buffer
-- and is no more than what both pieces have, the second piece alone is returned.
pub recv_lost :
    (a b : List ℕ) (later : List Arrival) (len : ℕ)
    → 0 < length a
    → length a < 4
    → 4 ≤ length b
    → length b ≤ 1024
    → from_bytes (take 4 b) ≡ len
    → len + 4 ≤ 1024
    → len ≤ length a + length b
    → recv (chunk a ∷ chunk b ∷ later) ≡ some (ok (b ++ zeros (1024 - length b), later))
recv_lost a b later len one few four view head fits stop =
    recv-held (chunk a ∷ chunk b ∷ later)
    ∙ steps (pending (chunk a ∷ chunk b ∷ later)) (unfold pending in omega arith)
  where
    steps :
        (fuel : ℕ)
        → 0 < fuel
        → recv_loop (suc fuel) (chunk a ∷ chunk b ∷ later) (held [] 1024 0)
          ≡ some (ok (b ++ zeros (1024 - length b), later))
    steps zero h = absurd (omega arith)
    steps (suc fuel) h =
        loop_again (suc fuel) (chunk a ∷ chunk b ∷ later) (chunk b ∷ later) (held [] 1024 0) a
          (held_recv [] a 1024 0 (chunk b ∷ later) (omega arith)) one (overlaid a 1024)
          (round_few a 1024 few (omega arith))
        ∙ loop_done fuel (chunk b ∷ later) later (overlaid a 1024) b
            (rw (length-held a 1024 (omega arith)) (recv_into-chunk 1024 b later view))
            (omega arith) (b ++ zeros (1024 - length b))
            (round-overlaid a 1024 few (omega arith) b len four view head fits stop)
