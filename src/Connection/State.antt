-- ===== src/Connection/State.antt =====
-- The state of a connection: `BaseConnection` and `Connection` of pyignite/connection/connection.py.
-- What the network does in one run of `_connect_version` is a parameter.
pub mod Laws
pub mod Faults
use ignite_python_thin_clien.Base.{
  ℕ, Bool, true, false, not, ◌&&◌, ◌==◌, List, [], ◌∷◌, if◌then◌else◌, Option, none, some,
}
use ignite_python_thin_clien.Connection.Protocol.{
  Version, ProtocolContext, protocols, version_in, version_eq, max_version, new_context,
  set_version, set_features, all_supported, is_feature_flags_supported,
  is_partition_awareness_supported,
}

-- `_socket` is an object or None.
pub record Connection : Type 0 where
  pub has_socket : Bool
  pub failed : Bool
  pub uuid : Option ℕ

unfoldable pub alive : Connection → Bool
alive c = not c.failed && c.has_socket

-- The two forms of the server's answer, with what it puts in them.
pub data Handshake : Type 0 where
  accepted : ℕ → ℕ → Handshake
  rejected : Version → ℕ → Handshake

-- What a run of `_connect_version` meets: the TCP connection is refused, it breaks before the answer
-- is whole, or there is an answer.
pub data Attempt : Type 0 where
  refused broken : Attempt
  answered : Handshake → Attempt

-- A HandshakeError, another connection error, and an AuthenticationError.
pub data ConnectError : Type 0 where
  handshake_error : Version → ConnectError
  connection_error authentication_error : ConnectError

-- result.get('features') and result.get('node_uuid')
pub record HandshakeResponse : Type 0 where
  pub features : Option ℕ
  pub node_uuid : Option ℕ

pub data Outcome {ℓ} (A : Type ℓ) : Type ℓ where
  returns : A → Outcome A
  raises : ConnectError → Outcome A

-- The fields behind the start of an answer that is no error.
unfoldable pub response_end : ProtocolContext → ℕ → ℕ → HandshakeResponse
response_end c f u =
    if is_feature_flags_supported c
    then record { features = some f; node_uuid = some u }
    else if is_partition_awareness_supported c
    then record { features = none; node_uuid = some u }
    else record { features = none; node_uuid = none }

abbrev pub auth_failure : ℕ
auth_failure = 2000

-- _process_handshake_error(response)
unfoldable pub handshake_failure : Version → ℕ → ConnectError
handshake_failure v status =
    if not (version_eq v (0, 0, 0))
    then handshake_error v
    else if status == auth_failure
    then authentication_error
    else handshake_error v

-- close()
unfoldable pub close : Connection → Connection
close c = record c { has_socket = false }

-- _connect_version(): a socket is made before it is connected, and a failure of `send` or `recv`
-- marks the connection.
unfoldable pub connect_version :
    ProtocolContext → Attempt → Connection → Outcome HandshakeResponse × Connection
unfolding response_end handshake_failure close
connect_version p refused c = (raises connection_error, record c { has_socket = true })
connect_version p broken c =
    (raises connection_error, record c { has_socket = true; failed = true })
connect_version p (answered (rejected v status)) c =
    (raises (handshake_failure v status), close (record c { has_socket = true }))
connect_version p (answered (accepted f u)) c =
    (returns (response_end p f u), record c { has_socket = true })

-- What `connect` leaves: the client's protocol context, the connection, and the result.
pub record Connected : Type 0 where
  pub outcome : Outcome HandshakeResponse
  pub context : Option ProtocolContext
  pub connection : Connection

-- The lines behind the `try` statement.
unfoldable pub finish : ProtocolContext → HandshakeResponse → Connection → Connected
unfolding set_features
finish p r c = record {
  outcome = returns r;
  context = some (set_features r.features p);
  connection = record c { uuid = r.node_uuid; failed = false };
}

-- The second run, with the version that the server expects.
unfoldable pub fallback : Version → ProtocolContext → Attempt → Connection → Connected
unfolding connect_version finish
fallback v p second c =
    let p' = set_version v p in
    let run = connect_version p' second c in
    elim run.0 [
      | returns r ↦ finish p' r run.1
      | raises e ↦ record { outcome = raises e; context = some p'; connection = run.1 }
    ]

unfoldable pub handle : Bool → ProtocolContext → ConnectError → Attempt → Connection → Connected
unfolding fallback
handle detecting p (handshake_error v) second c =
    if version_in v protocols
    then fallback v p second c
    else record { outcome = raises (handshake_error v); context = some p; connection = c }
handle detecting p connection_error second c = record {
  outcome = raises connection_error;
  context = if detecting then none else some p;
  connection = c;
}
handle detecting p authentication_error second c = record {
  outcome = raises authentication_error;
  context = some p;
  connection = c;
}

abbrev pub initial_context : ProtocolContext
initial_context = new_context (max_version (1, 2, 0) protocols) (some all_supported)

unfoldable pub connect_with : Bool → ProtocolContext → Attempt → Attempt → Connection → Connected
unfolding connect_version finish handle
connect_with detecting p first second c =
    let run = connect_version p first c in
    elim run.0 [ returns r ↦ finish p r run.1 | raises e ↦ handle detecting p e second run.1 ]

-- connect(), where `first` and `second` are what its runs of `_connect_version` meet.
unfoldable pub connect : Option ProtocolContext → Attempt → Attempt → Connection → Connected
unfolding connect_with
connect none first second c = connect_with true initial_context first second c
connect (some p) first second c = connect_with false p first second c

-- `connection_errors` hold a HandshakeError and no AuthenticationError.
unfoldable pub is_connection_error : ConnectError → Bool
is_connection_error authentication_error = false
is_connection_error _ = true

-- reconnect(): connection errors are silenced.
unfoldable pub reconnect :
    Option ProtocolContext
    → Attempt
    → Attempt
    → Connection
    → Option ConnectError × Option ProtocolContext × Connection
unfolding alive close connect is_connection_error
reconnect p first second c =
    if alive c
    then (none, p, c)
    else (let done = connect p first second (close c) in
        (
          elim done.outcome [
            | returns r ↦ none
            | raises e ↦ if is_connection_error e then none else some e
          ],
          done.context,
          done.connection,
        ))

-- What `sendall` does.
pub data Sending : Type 0 where
  sent send_failed : Sending

-- The handler of a connection error in `send` and in `recv`: the connection is marked, and
-- reconnected where that is asked for; the error is raised again.
unfoldable pub connection_failed :
    Bool
    → Option ProtocolContext
    → Attempt
    → Attempt
    → Connection
    → ConnectError × Option ProtocolContext × Connection
unfolding reconnect
connection_failed again p first second c =
    let c' = record c { failed = true } in
    if again
    then (let done = reconnect p first second c' in
        elim done.0 [ none ↦ (connection_error, done.1, done.2) | some e ↦ (e, done.1, done.2) ])
    else (connection_error, p, c')

-- send(data, reconnect=again)
unfoldable pub send :
    Sending
    → Bool
    → Option ProtocolContext
    → Attempt
    → Attempt
    → Connection
    → Outcome (Unit {0}) × Option ProtocolContext × Connection
unfolding connection_failed
send result again p first second c =
    if not c.has_socket then (raises connection_error, p, c) else elim result [
      | sent ↦ (returns tt, p, c)
      | send_failed ↦
          let done = connection_failed again p first second c in (raises done.0, done.1, done.2)
    ]
