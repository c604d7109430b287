-- ===== src/Connection/State/Faults.antt =====
-- Negotiation of the version, and what is left after a failure.
use ignite_python_thin_clien.Base.{ℕ, ◌≡◌, refl, arith, ◌∙◌, true, false, Option, none, some}
use ignite_python_thin_clien.Connection.Protocol.{
  Version, ProtocolContext, protocols, version_in, version_eq, set_version, ensure_consistency,
  set_features,
}
use ignite_python_thin_clien.Connection.State.{
  Connection, alive, Attempt, answered, accepted, rejected, handshake_error, returns, raises,
  response_end, handshake_failure, close, connect_version, finish, fallback, handle,
  initial_context, connect_with, connect,
}

ensure_consistency-version : (p : ProtocolContext) → (ensure_consistency p).version ≡ p.version
unfolding ensure_consistency
ensure_consistency-version p = ground arith

set_features-version : (f : Option ℕ) (p : ProtocolContext) → (set_features f p).version ≡ p.version
unfolding set_features
set_features-version f p = ensure_consistency-version (record p { features = f })

set_version-version : (v : Version) (p : ProtocolContext) → (set_version v p).version ≡ v
unfolding set_version
set_version-version v p = ensure_consistency-version (record p { version = v })

module _ (v : Version) (status : ℕ) (nonzero : version_eq v (0, 0, 0) ≡ false) where
  rejected_first :
      (second : Attempt) (c : Connection)
      → connect none (answered (rejected v status)) second c
        ≡ handle true initial_context (handshake_error v) second (record c { has_socket = false })
  unfolding connect connect_with connect_version handshake_failure close
  rejected_first second c = rw nonzero

  -- A client that does not know the protocol, and whose server asks for a version it supports, other
  -- than 0.0.0, and accepts it, is connected with that version. The features and the node's UUID are
  -- those that the second answer has for that version.
  pub connect_negotiates :
      (f u : ℕ) (c : Connection)
      → version_in v protocols ≡ true
      → (p : ProtocolContext) × ((connect none
            (answered (rejected v status))
            (answered (accepted f u))
            c).context
          ≡ some p)
        × (p.version ≡ v)
        × ((connect none (answered (rejected v status)) (answered (accepted f u)) c).outcome
            ≡ returns (response_end (set_version v initial_context) f u))
  connect_negotiates f u c h =
      let p = set_version v initial_context in
      let r = response_end p f u in
      (
        set_features r.features p,
        rw (rejected_first (answered (accepted f u)) c)
            (unfold handle fallback connect_version finish in rw h),
        set_features-version r.features p ∙ set_version-version v initial_context,
        rw (rejected_first (answered (accepted f u)) c)
            (unfold handle fallback connect_version finish in rw h),
      )

  -- A client that does not know the protocol, and whose server asks for a version other than 0.0.0
  -- that it does not support, raises the error and keeps the context it has begun with: it takes the
  -- protocol as known from then on.
  pub connect_unsupported :
      (second : Attempt) (c : Connection)
      → version_in v protocols ≡ false
      → ((connect none (answered (rejected v status)) second c).outcome
          ≡ raises (handshake_error v))
        × ((connect none (answered (rejected v status)) second c).context ≡ some initial_context)
        × (alive (connect none (answered (rejected v status)) second c).connection ≡ false)
  connect_unsupported second c h =
      rw (rejected_first second c) (unfold handle alive in rw h (refl, refl, ground arith))
