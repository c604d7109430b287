-- ===== src/Connection/State/Laws.antt =====
-- What `connect` leaves behind.
use ignite_python_thin_clien.Base.{
  ℕ, ap, ◌≡◌, inl, inr, refl, Bool, true, false, Option, none, some, Bool-cases,
}
use ignite_python_thin_clien.Connection.Protocol.{
  Version, ProtocolContext, protocols, version_in, new_context, set_version, set_features,
  IsConsistent, ensure_consistency-IsConsistent,
}
use ignite_python_thin_clien.Connection.State.{
  Connection, alive, Attempt, refused, broken, answered, accepted, rejected, ConnectError,
  handshake_error, connection_error, authentication_error, HandshakeResponse, returns, raises,
  response_end, handshake_failure, close, connect_version, Connected, finish, fallback, handle,
  initial_context, connect_with, connect,
}

abbrev pub ContextConsistent : Option ProtocolContext → Type 0
ContextConsistent none = Unit {0}
ContextConsistent (some p) = IsConsistent p

finish-IsConsistent :
    (p : ProtocolContext) (r : HandshakeResponse) (c : Connection)
    → ContextConsistent (finish p r c).context
unfolding finish set_features
finish-IsConsistent p r c = ensure_consistency-IsConsistent (record p { features = r.features })

fallback-IsConsistent :
    (v : Version) (p : ProtocolContext) (second : Attempt) (c : Connection)
    → ContextConsistent (fallback v p second c).context
unfolding fallback set_version connect_version
fallback-IsConsistent v p refused c = ensure_consistency-IsConsistent (record p { version = v })
fallback-IsConsistent v p broken c = ensure_consistency-IsConsistent (record p { version = v })
fallback-IsConsistent v p (answered (rejected w s)) c =
    ensure_consistency-IsConsistent (record p { version = v })
fallback-IsConsistent v p (answered (accepted f u)) c =
    finish-IsConsistent (set_version v p) (response_end (set_version v p) f u)
      (record c { has_socket = true })

handle-IsConsistent :
    (detecting : Bool) (p : ProtocolContext) (e : ConnectError) (second : Attempt) (c : Connection)
    → IsConsistent p
    → ContextConsistent (handle detecting p e second c).context
unfolding handle
handle-IsConsistent d p (handshake_error v) second c h =
    elim (Bool-cases (version_in v protocols)) [
      | inl t ↦ rw t (fallback-IsConsistent v p second c)
      | inr f ↦ rw f h
    ]
handle-IsConsistent true p connection_error second c h = tt
handle-IsConsistent false p connection_error second c h = h
handle-IsConsistent d p authentication_error second c h = h

connect_with-IsConsistent :
    (detecting : Bool) (p : ProtocolContext) (first second : Attempt) (c : Connection)
    → IsConsistent p
    → ContextConsistent (connect_with detecting p first second c).context
unfolding connect_with connect_version
connect_with-IsConsistent d p refused second c h =
    handle-IsConsistent d p connection_error second (record c { has_socket = true }) h
connect_with-IsConsistent d p broken second c h =
    handle-IsConsistent d p connection_error second (record c { has_socket = true; failed = true })
      h
connect_with-IsConsistent d p (answered (rejected v s)) second c h =
    handle-IsConsistent d p (handshake_failure v s) second (close (record c { has_socket = true }))
      h
connect_with-IsConsistent d p (answered (accepted f u)) second c h =
    finish-IsConsistent p (response_end p f u) (record c { has_socket = true })

initial-IsConsistent : IsConsistent initial_context
unfolding new_context
initial-IsConsistent = ensure_consistency-IsConsistent _

-- Whatever the network does in the two runs, `connect` leaves the client with no protocol context or
-- with a consistent one, when it starts that way: one that has features for a version with feature
-- masks only.
pub connect-IsConsistent :
    (p : Option ProtocolContext) (first second : Attempt) (c : Connection)
    → ContextConsistent p
    → ContextConsistent (connect p first second c).context
unfolding connect
connect-IsConsistent none first second c h =
    connect_with-IsConsistent true initial_context first second c initial-IsConsistent
connect-IsConsistent (some p) first second c h = connect_with-IsConsistent false p first second c h

abbrev pub Returned : Connected → Type 0
Returned d = (r : HandshakeResponse) × (d.outcome ≡ returns r)

-- A connection that is open and not failed, and a client that knows the protocol.
abbrev pub IsUp : Connected → Type 0
IsUp d = (alive d.connection ≡ true) × ((p : ProtocolContext) × (d.context ≡ some p))

finish-IsUp :
    (p : ProtocolContext) (f u : ℕ) (c : Connection)
    → IsUp (finish p (response_end p f u) (record c { has_socket = true }))
unfolding finish alive
finish-IsUp p f u c = (refl, (set_features (response_end p f u).features p, refl))

fallback-IsUp :
    (v : Version) (p : ProtocolContext) (second : Attempt) (c : Connection)
    → Returned (fallback v p second c)
    → IsUp (fallback v p second c)
unfolding fallback connect_version
fallback-IsUp v p refused c (r, e) = absurd cc
fallback-IsUp v p broken c (r, e) = absurd cc
fallback-IsUp v p (answered (rejected w s)) c (r, e) = absurd cc
fallback-IsUp v p (answered (accepted f u)) c h = finish-IsUp (set_version v p) f u c

handle-supported :
    (d : Bool) (p : ProtocolContext) (v : Version) (second : Attempt) (c : Connection)
    → version_in v protocols ≡ true
    → handle d p (handshake_error v) second c ≡ fallback v p second c
unfolding handle
handle-supported d p v second c t = rw t

handle-unsupported :
    (d : Bool) (p : ProtocolContext) (v : Version) (second : Attempt) (c : Connection)
    → version_in v protocols ≡ false
    → handle d p (handshake_error v) second c
      ≡ record { outcome = raises (handshake_error v); context = some p; connection = c }
unfolding handle
handle-unsupported d p v second c f = rw f

handle-IsUp :
    (d : Bool) (p : ProtocolContext) (e : ConnectError) (second : Attempt) (c : Connection)
    → Returned (handle d p e second c)
    → IsUp (handle d p e second c)
unfolding handle
handle-IsUp d p (handshake_error v) second c h = elim (Bool-cases (version_in v protocols)) [
  | inl t ↦
      let same = handle-supported d p v second c t in
      rw same (fallback-IsUp v p second c (rw (← same) h))
  | inr f ↦
      let (r, e) = h in
      let same = ap (λ o. o.outcome) (handle-unsupported d p v second c f) in absurd cc
]
handle-IsUp d p connection_error second c (r, e) = absurd cc
handle-IsUp d p authentication_error second c (r, e) = absurd cc

connect_with-IsUp :
    (d : Bool) (p : ProtocolContext) (first second : Attempt) (c : Connection)
    → Returned (connect_with d p first second c)
    → IsUp (connect_with d p first second c)
unfolding connect_with connect_version
connect_with-IsUp d p refused second c h = handle-IsUp d p connection_error second _ h
connect_with-IsUp d p broken second c h = handle-IsUp d p connection_error second _ h
connect_with-IsUp d p (answered (rejected v s)) second c h =
    handle-IsUp d p (handshake_failure v s) second _ h
connect_with-IsUp d p (answered (accepted f u)) second c h = finish-IsUp p f u c

-- When `connect` returns, in whatever way, the connection is open and not failed, and the client has
-- a protocol context.
pub connect-IsUp :
    (p : Option ProtocolContext) (first second : Attempt) (c : Connection)
    → Returned (connect p first second c)
    → IsUp (connect p first second c)
unfolding connect
connect-IsUp none first second c h = connect_with-IsUp true initial_context first second c h
connect-IsUp (some p) first second c h = connect_with-IsUp false p first second c h
