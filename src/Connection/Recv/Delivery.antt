-- ===== src/Connection/Recv/Delivery.antt =====
-- When a response arrives in pieces that `recv` puts together.
use ignite_python_thin_clien.Base.{
  ℕ, zero, suc, ◌+◌, ◌-◌, ◌≤◌, ◌<◌, ◌≡◌, ◌≢◌, refl, ap, ◌∙◌, arith, List, [], ◌∷◌, ◌++◌, length,
  take, length-append, append_assoc, append-nil, some, ltb, le→ltb, le→leb, lt→leb, Bool-cases, inl,
  inr,
}
use Prim.Native.Nat.{max}
use ignite_python_thin_clien.Base.Bytes.{from_bytes}
use ignite_python_thin_clien.Result.{ok}
use ignite_python_thin_clien.Connection.Recv.{
  Arrival, chunk, again, finished, round, check_done, read_length, recv_loop, recv, initial,
  pending,
}
use ignite_python_thin_clien.Connection.Recv.Held.{
  zeros, held, replicate-append, length-held, overwrite-held, round_more, round_last, loop_again,
  loop_done, held_recv,
}

abbrev pub concat : List (List ℕ) → List ℕ
concat [] = []
concat (c ∷ cs) = c ++ concat cs

-- The socket on which the pieces arrive, one for each call.
abbrev pub arrivals : List (List ℕ) → List Arrival → List Arrival
arrivals [] later = later
arrivals (c ∷ cs) later = chunk c ∷ arrivals cs later

-- Each piece has a byte at least, and one that is not the last leaves more than four to come.
abbrev pub Steady : List (List ℕ) → Type 0
Steady [] = Unit
Steady (c ∷ []) = 0 < length c
Steady (c ∷ d ∷ cs) = (0 < length c) × (4 < length (concat (d ∷ cs))) × Steady (d ∷ cs)

module _ (later : List Arrival) (room len : ℕ) (nz : len ≢ 0) (fits : len + 4 ≤ room) where
  deliver :
      (fuel : ℕ) (got c : List ℕ) (cs : List (List ℕ))
      → 4 ≤ length got
      → Steady (c ∷ cs)
      → length got + length (concat (c ∷ cs)) ≡ len + 4
      → length (concat (c ∷ cs)) < fuel
      → recv_loop fuel (arrivals (c ∷ cs) later) (held got room len)
        ≡ some (ok ((got ++ concat (c ∷ cs)) ++ zeros (room - (len + 4)), later))
  deliver zero got c cs four st sum enough = absurd (omega arith)
  deliver (suc fuel) got c [] four st sum enough =
      let size : length (c ++ []) ≡ length c = ap length (append-nil c) in
      let all : length (got ++ c) ≡ len + 4 = omega (arith, length-append got c) in
      loop_done fuel (chunk c ∷ later) later (held got room len) c
        (held_recv got c room len later (omega arith)) st
        ((got ++ c) ++ zeros (room - length (got ++ c)))
        (round_last got c room len (omega arith) (omega arith) nz (omega arith))
      ∙ rw (all, append-nil)
  deliver (suc fuel) got c (d ∷ cs) four (one, tail, st) sum enough =
      let size : length (c ++ concat (d ∷ cs)) ≡ length c + length (concat (d ∷ cs)) =
        length-append c (concat (d ∷ cs)) in
      let more : length (got ++ c) ≡ length got + length c = length-append got c in
      loop_again fuel (arrivals (c ∷ d ∷ cs) later) (arrivals (d ∷ cs) later) (held got room len) c
        (held_recv got c room len (arrivals (d ∷ cs) later) (omega arith)) one
        (held (got ++ c) room len)
        (round_more got c room len (omega arith) (omega arith) (omega arith))
      ∙ deliver fuel (got ++ c) d cs (omega arith) st (omega arith) (omega arith)
      ∙ rw (append_assoc got c (concat (d ∷ cs)))

take-append_le : (n : ℕ) (xs ys : List ℕ) → n ≤ length xs → take n (xs ++ ys) ≡ take n xs
take-append_le zero xs ys h = refl
take-append_le (suc n) [] ys h = absurd (omega arith)
take-append_le (suc n) (x ∷ xs) ys h = ap (λ l. x ∷ l) (take-append_le n xs ys (omega arith))

grow :
    (c : List ℕ) (room more : ℕ)
    → length c ≤ room
    → (c ++ zeros (room - length c)) ++ zeros (more - room) ≡ c ++ zeros (max room more - length c)
grow c room more h =
    let e : room - length c + (more - room) ≡ max room more - length c = omega arith in
    append_assoc c (zeros (room - length c)) (zeros (more - room))
    ∙ rw (replicate-append (room - length c) (more - room), e)

-- The first piece: the length is read from it, and the buffer is made long enough.
module _ (c : List ℕ) (room len : ℕ) (four : 4 ≤ length c) (view : length c ≤ room)
    (head : from_bytes (take 4 c) ≡ len) where
  pub length_read : from_bytes (take 4 (c ++ zeros (room - length c))) ≡ len
  length_read = rw (take-append_le 4 c (zeros (room - length c)) four) head

  pub round_first :
      length c < len → round (held [] room 0) c ≡ again (held c (max room (len + 4)) len)
  unfolding round
  round_first more =
      let n : 0 + length c ≡ length c = omega arith in
      rw (overwrite-held [] c room (omega arith), n, le→ltb (length c) 4 four)
        (unfold read_length in
          rw (length_read, length-held c room view)
            (elim (Bool-cases (ltb room (len + 4))) [
              | inl e ↦ rw (e, grow c room (len + 4) view)
              | inr e ↦
                  let full : max room (len + 4) ≡ room = ground arith in
                  rw e (unfold check_done in rw (lt→leb len (length c) more, full))
            ]))

  pub round_only :
      len ≤ length c
      → len + 4 ≤ room
      → round (held [] room 0) c ≡ finished (c ++ zeros (room - length c))
  unfolding round
  round_only done fits =
      let n : 0 + length c ≡ length c = omega arith in
      rw (overwrite-held [] c room (omega arith), n, le→ltb (length c) 4 four)
        (unfold read_length in
          rw (length_read, length-held c room view, le→ltb room (len + 4) fits)
            (unfold check_done in rw (le→leb len (length c) done)))

pub initial-held : initial ≡ held [] 1024 0
unfolding initial
initial-held = refl

pub recv-held :
    (socket : List Arrival) → recv socket ≡ recv_loop (suc (pending socket)) socket (held [] 1024 0)
unfolding recv
recv-held socket = rw initial-held

pub pending-arrivals :
    (cs : List (List ℕ)) (later : List Arrival)
    → pending (arrivals cs later) ≡ length (concat cs) + pending later
unfolding pending
pending-arrivals [] later = omega arith
pending-arrivals (c ∷ cs) later =
    omega (arith, pending-arrivals cs later, length-append c (concat cs))

module _ (c : List ℕ) (later : List Arrival) (len : ℕ) (four : 4 ≤ length c)
    (view : length c ≤ 1024) (head : from_bytes (take 4 c) ≡ len) (nz : len ≢ 0) where
  delivers :
      (fuel : ℕ) (cs : List (List ℕ))
      → Steady (c ∷ cs)
      → length (concat (c ∷ cs)) ≡ len + 4
      → length (concat (c ∷ cs)) < fuel
      → recv_loop fuel (arrivals (c ∷ cs) later) (held [] 1024 0)
        ≡ some (ok (concat (c ∷ cs) ++ zeros (1024 - (len + 4)), later))
  delivers zero cs st sum enough = absurd (omega arith)
  delivers (suc fuel) [] st sum enough =
      let size : length (c ++ []) ≡ length c = ap length (append-nil c) in
      let all : length c ≡ len + 4 = omega arith in
      loop_done fuel (chunk c ∷ later) later (held [] 1024 0) c
        (held_recv [] c 1024 0 later (omega arith)) st (c ++ zeros (1024 - length c))
        (round_only c 1024 len four view head (omega arith) (omega arith))
      ∙ rw (all, append-nil)
  delivers (suc fuel) (d ∷ cs) (one, tail, st) sum enough =
      let size : length (c ++ concat (d ∷ cs)) ≡ length c + length (concat (d ∷ cs)) =
        length-append c (concat (d ∷ cs)) in
      let rest : max 1024 (len + 4) - (len + 4) ≡ 1024 - (len + 4) = omega arith in
      loop_again fuel (arrivals (c ∷ d ∷ cs) later) (arrivals (d ∷ cs) later) (held [] 1024 0) c
        (held_recv [] c 1024 0 (arrivals (d ∷ cs) later) (omega arith)) one
        (held c (max 1024 (len + 4)) len) (round_first c 1024 len four view head (omega arith))
      ∙ deliver later (max 1024 (len + 4)) len nz (omega arith) fuel c d cs four st (omega arith)
          (omega arith)
      ∙ rw rest

-- A response, whose length is not 0, arrives in pieces of a byte at least: the first holds its four
-- length bytes and has at most 1024, and no cut is within its last four bytes. It is returned whole,
-- with zeros behind it up to 1024 bytes, and nothing of what arrives later is taken.
pub recv_delivers :
    (c : List ℕ) (cs : List (List ℕ)) (later : List Arrival) (len : ℕ)
    → 4 ≤ length c
    → length c ≤ 1024
    → Steady (c ∷ cs)
    → from_bytes (take 4 c) ≡ len
    → len ≢ 0
    → length (concat (c ∷ cs)) ≡ len + 4
    → recv (arrivals (c ∷ cs) later)
      ≡ some (ok (concat (c ∷ cs) ++ zeros (1024 - (len + 4)), later))
recv_delivers c cs later len four view st head nz sum =
    recv-held (arrivals (c ∷ cs) later)
    ∙ delivers c later len four view head nz (suc (pending (arrivals (c ∷ cs) later))) cs st sum
        (omega (arith, pending-arrivals (c ∷ cs) later))
