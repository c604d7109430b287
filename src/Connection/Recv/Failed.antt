-- ===== src/Connection/Recv/Failed.antt =====
-- `Connection.recv` of pyignite/connection/connection.py around its loop: a closed connection, and the
-- handler of a connection error.
use ignite_python_thin_clien.Base.{ℕ, Bool, not, List, Option, none, some, if◌then◌else◌}
use ignite_python_thin_clien.Result.{ok, err}
use ignite_python_thin_clien.Connection.Protocol.{ProtocolContext}
use ignite_python_thin_clien.Connection.State.{
  Connection, Attempt, Outcome, returns, raises, connection_error, connection_failed,
}
use ignite_python_thin_clien.Connection.Recv.{Arrival, recv}

-- recv(reconnect=again); none where the loop blocks.
unfoldable pub receive :
    List Arrival
    → Bool
    → Option ProtocolContext
    → Attempt
    → Attempt
    → Connection
    → Option (Outcome (List ℕ × List Arrival) × Option ProtocolContext × Connection)
unfolding recv connection_failed
receive socket again p first second c =
    if not c.has_socket then some (raises connection_error, p, c) else elim (recv socket) [
      | none ↦ none
      | some (ok r) ↦ some (returns r, p, c)
      | some (err e) ↦
          let done = connection_failed again p first second c in
          some (raises done.0, done.1, done.2)
    ]
