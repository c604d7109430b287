-- ===== src/Connection.antt =====
-- pyignite/connection: receiving a response, the protocol context, the handshake and the state of a
-- connection.
pub mod Recv
pub mod Protocol
pub mod State
