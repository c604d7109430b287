-- ===== src/Connection/Recv/Rounds.antt =====
-- The loop ends where the connection does: a round that goes on has taken a byte.
use ignite_python_thin_clien.Base.{List, [], ◌∷◌}
use ignite_python_thin_clien.Result.{Result}
use ignite_python_thin_clien.Connection.Recv.{Arrival, chunk, failure}

-- At some time there is a connection error, or the peer closes.
abbrev pub Ends : List Arrival → Type 0
Ends [] = ⊥
Ends (failure ∷ socket) = Unit {0}
Ends (chunk [] ∷ socket) = Unit {0}
Ends (chunk (b ∷ bs) ∷ socket) = Ends socket
