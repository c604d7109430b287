-- ===== src/Connection/Recv.antt =====
-- `Connection.recv` of pyignite/connection/connection.py, on what arrives on the socket. Recv.Failed
-- has the test for a closed connection, and what is done about a connection error.
pub mod Failed
pub mod Rounds
pub mod Held
pub mod Delivery
pub mod Faults
use ignite_python_thin_clien.Base.{
  ℕ, zero, suc, ◌+◌, ◌-◌, ◌≤◌, ◌<◌, List, [], ◌∷◌, ◌++◌, length, take, drop, replicate, ltb, leb,
  ◌==◌, if◌then◌else◌, Option, none, some,
}
use ignite_python_thin_clien.Base.Bytes.{from_bytes}
use ignite_python_thin_clien.Result.{Result, ok, err, socket_error}
use ignite_python_thin_clien.Stream.{overwrite}

-- What the socket does on successive calls of `recv_into`: bytes that have arrived, or a connection
-- error. A chunk of no bytes is a peer that has closed; behind the end of the list the peer is silent.
pub data Arrival : Type 0 where
  chunk : List ℕ → Arrival
  failure : Arrival

-- The local variables of the loop. `buffer` is the memory view `data[start:]`.
pub record Progress : Type 0 where
  pub data_bytes : List ℕ
  pub start : ℕ
  pub total : ℕ
  pub to_receive : ℕ

pub data Round : Type 0 where
  again : Progress → Round
  finished : List ℕ → Round

-- data = bytearray(1024)
unfoldable pub initial : Progress
initial = record { data_bytes = replicate 1024 0; start = 0; total = 0; to_receive = 0 }

-- `if bytes_total_received >= bytes_to_receive: break`, else `buffer = buffer[bytes_received:]`
unfoldable pub check_done : Progress → ℕ → Round
check_done p n =
    if leb p.to_receive p.total
    then finished p.data_bytes
    else again (record p { start = p.start + n })

-- The branch `bytes_to_receive == 0`: the length is read, and `data` grows where it is too short.
unfoldable pub read_length : Progress → ℕ → Round
unfolding check_done
read_length p n =
    let response_len = from_bytes (take 4 p.data_bytes) in
    if ltb (length p.data_bytes) (response_len + 4)
    then again (record {
      data_bytes = p.data_bytes ++ replicate (response_len + 4 - length p.data_bytes) 0;
      start = p.total;
      total = p.total;
      to_receive = response_len;
    })
    else check_done (record p { to_receive = response_len }) n

-- One round of the loop, after `recv_into` has put `bs` at the front of the view.
unfoldable pub round : Progress → List ℕ → Round
unfolding overwrite read_length
round p bs =
    let n = length bs in
    let p' = record p { data_bytes = overwrite p.data_bytes p.start bs; total = p.total + n } in
    if ltb p'.total 4
    then again p'
    else if p'.to_receive == 0
    then read_length p' n
    else check_done p' n

-- What one call of `recv_into` with a view of `size` bytes gets, and what is left for the next; none
-- for a call that blocks.
unfoldable pub recv_into : ℕ → List Arrival → Option (Result (List ℕ × List Arrival))
recv_into size [] = none
recv_into size (failure ∷ socket) = some (err socket_error)
recv_into size (chunk bs ∷ socket) =
    if ltb size (length bs)
    then some (ok (take size bs, chunk (drop size bs) ∷ socket))
    else some (ok (bs, socket))

unfoldable pub recv_loop : ℕ → List Arrival → Progress → Option (Result (List ℕ × List Arrival))
recv_loop zero socket p = none
recv_loop (suc fuel) socket p = elim (recv_into (length p.data_bytes - p.start) socket) [
  | none ↦ none
  | some (err e) ↦ some (err e)
  | some (ok (bs, socket')) ↦
      if length bs == 0 then some (err socket_error) else elim (round p bs) [
        | finished d ↦ some (ok (d, socket'))
        | again p' ↦ recv_loop fuel socket' p'
      ]
]

-- The bytes that may still arrive. Each round takes one at least.
unfoldable pub pending : List Arrival → ℕ
pending [] = 0
pending (chunk bs ∷ socket) = length bs + pending socket
pending (failure ∷ socket) = pending socket

-- The loop of recv(self); none where it blocks.
unfoldable pub recv : List Arrival → Option (Result (List ℕ × List Arrival))
unfolding recv_loop recv_into round pending
recv socket = recv_loop (suc (pending socket)) socket initial
