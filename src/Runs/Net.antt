-- ===== src/Runs/Net.antt =====
-- Receiving, connecting and choosing a node, on concrete runs of the network.
use ignite_python_thin_clien.Base.{
  ℕ, ◌+◌, ◌-◌, ◌≡◌, refl, arith, inl, inr, true, false, List, [], ◌∷◌, ◌++◌, length, none, some,
}
use ignite_python_thin_clien.Result.{Result, ok, err, reconnect_error}
use ignite_python_thin_clien.Base.Bytes.{from_bytes}
use ignite_python_thin_clien.Connection.Recv.{chunk, failure, recv}
use ignite_python_thin_clien.Connection.Recv.Held.{zeros}
use ignite_python_thin_clien.Connection.Recv.Delivery.{arrivals, concat, recv_delivers}
use ignite_python_thin_clien.Connection.Recv.Faults.{recv_short, recv_lost}
use ignite_python_thin_clien.Connection.Protocol.{
  ProtocolContext, set_version, version_in, version_eq,
}
use ignite_python_thin_clien.Connection.State.{
  Connection, refused, broken, answered, accepted, rejected, alive, connect, returns,
  initial_context, response_end, connect_with, connect_version, finish,
}
use ignite_python_thin_clien.Connection.State.Laws.{
  ContextConsistent, IsUp, connect-IsConsistent, connect-IsUp,
}
use ignite_python_thin_clien.Connection.State.Faults.{connect_negotiates}
use ignite_python_thin_clien.Pool.{Pool, Network, partition_aware, random_node, new_connection}
use ignite_python_thin_clien.Pool.Laws.{ReturnsAlive, random_node-ReturnsAlive}
use ignite_python_thin_clien.Pool.Faults.{random_node-refused, refused_node-returned}

abbrev front : List ℕ
front = 6 ∷ 0 ∷ 0 ∷ 0 ∷ 1 ∷ []

abbrev back : List ℕ
back = 2 ∷ 3 ∷ 4 ∷ 5 ∷ 6 ∷ []

front_length : from_bytes (6 ∷ 0 ∷ 0 ∷ 0 ∷ []) ≡ 6
unfolding from_bytes
front_length = refl

recv_delivers_example :
    recv (arrivals (front ∷ back ∷ []) (failure ∷ []))
    ≡ some (ok (concat (front ∷ back ∷ []) ++ zeros (1024 - (6 + 4)), failure ∷ []))
recv_delivers_example =
    recv_delivers front (back ∷ []) (failure ∷ []) 6 (omega arith) (omega arith)
      (omega arith, omega arith, omega arith) front_length (omega arith) refl

recv_short_example :
    recv (chunk (front ++ (2 ∷ [])) ∷ chunk (3 ∷ 4 ∷ 5 ∷ 6 ∷ []) ∷ failure ∷ [])
    ≡ some (
        ok (
          (front ++ (2 ∷ [])) ++ zeros (1024 - length (front ++ (2 ∷ []))),
          chunk (3 ∷ 4 ∷ 5 ∷ 6 ∷ []) ∷ failure ∷ [],
        ))
recv_short_example =
    recv_short (front ++ (2 ∷ [])) (3 ∷ 4 ∷ 5 ∷ 6 ∷ []) (failure ∷ []) 6 (omega arith) front_length
      (omega arith) refl (omega arith)

recv_lost_example :
    recv (chunk (10 ∷ 0 ∷ []) ∷ chunk front ∷ failure ∷ [])
    ≡ some (ok (front ++ zeros (1024 - length front), failure ∷ []))
recv_lost_example =
    recv_lost (10 ∷ 0 ∷ []) front (failure ∷ []) 6 (omega arith) (omega arith) (omega arith)
      (omega arith) front_length (omega arith) (omega arith)

abbrev old_context : ProtocolContext
old_context = record { version = (1, 4, 0); features = none }

connect-IsConsistent_example :
    ContextConsistent
      (connect
        (some old_context)
        (answered (rejected (1, 7, 0) 1))
        (answered (accepted 4 9))
        new_connection).context
connect-IsConsistent_example =
    connect-IsConsistent (some old_context) (answered (rejected (1, 7, 0) 1))
      (answered (accepted 4 9)) new_connection (inr refl)

connected :
    (connect none (answered (accepted 4 9)) broken new_connection).outcome
    ≡ returns (response_end initial_context 4 9)
unfolding connect connect_with connect_version finish
connected = refl

connect-IsUp_example : IsUp (connect none (answered (accepted 4 9)) broken new_connection)
connect-IsUp_example =
    connect-IsUp none (answered (accepted 4 9)) broken new_connection
      (response_end initial_context 4 9, connected)

nonzero_version : version_eq (1, 4, 0) (0, 0, 0) ≡ false
unfolding version_eq
nonzero_version = refl

supported_version :
    version_in
      (1, 4, 0)
      ((1, 7, 0) ∷ (1, 6, 0) ∷ (1, 5, 0) ∷ (1, 4, 0) ∷ (1, 3, 0) ∷ (1, 2, 0) ∷ [])
    ≡ true
unfolding version_in
supported_version = refl

connect_negotiates_example :
    (p : ProtocolContext) × ((connect none
        (answered (rejected (1, 4, 0) 1))
        (answered (accepted 4 9))
        new_connection).context
      ≡ some p)
    × (p.version ≡ (1, 4, 0))
    × ((connect none
          (answered (rejected (1, 4, 0) 1))
          (answered (accepted 4 9))
          new_connection).outcome
        ≡ returns (response_end (set_version (1, 4, 0) initial_context) 4 9))
connect_negotiates_example =
    connect_negotiates (1, 4, 0) 1 nonzero_version 4 9 new_connection supported_version

abbrev broken_connection : Connection
broken_connection = record { has_socket = true; failed = true; uuid = some 1 }

abbrev live_connection : Connection
live_connection = record { has_socket = true; failed = false; uuid = some 2 }

broken_is_dead : alive broken_connection ≡ false
unfolding alive
broken_is_dead = refl

live_is_alive : alive live_connection ≡ true
unfolding alive
live_is_alive = refl

abbrev two_nodes : Connection → Connection → ProtocolContext → Pool
two_nodes c d p = record {
  nodes = c ∷ d ∷ [];
  context = some p;
  current_node = 0;
  is_asked = false;
}

-- A choice that takes the first.
abbrev first_of : ℕ → List ℕ → ℕ
first_of j js = j

random_node-ReturnsAlive_example : ReturnsAlive (
    random_node first_of
      (λ i. (answered (accepted 4 9), refused))
      (two_nodes broken_connection live_connection old_context))
random_node-ReturnsAlive_example =
    random_node-ReturnsAlive first_of (λ j js. inl refl) (λ i. (answered (accepted 4 9), refused))
      (two_nodes broken_connection live_connection old_context)

abbrev refuse_all : Network
refuse_all i = (refused, refused)

two_nodes-unaware :
    partition_aware (two_nodes broken_connection live_connection old_context) ≡ false
unfolding partition_aware
two_nodes-unaware = refl

-- The second node is alive, and is not returned.
random_node-refused_example :
    (random_node first_of refuse_all (two_nodes broken_connection live_connection old_context)).0
    ≡ err reconnect_error
random_node-refused_example =
    random_node-refused first_of refuse_all
      (two_nodes broken_connection live_connection old_context) broken_connection two_nodes-unaware
      refl broken_is_dead (λ i. refl)

new_unaware : partition_aware (two_nodes broken_connection new_connection old_context) ≡ false
unfolding partition_aware
new_unaware = refl

-- The second node was never connected.
refused_node-returned_example :
    ((random_node first_of refuse_all (two_nodes broken_connection new_connection old_context)).0
      ≡ err reconnect_error)
    × ((random_node first_of refuse_all
          (random_node first_of refuse_all
            (two_nodes broken_connection new_connection old_context)).1).0
        ≡ ok 1)
refused_node-returned_example =
    refused_node-returned first_of refuse_all
      (two_nodes broken_connection new_connection old_context) broken_connection new_unaware refl
      broken_is_dead refuse_all new_connection refl refl (λ e. cc e) (λ i. refl)
