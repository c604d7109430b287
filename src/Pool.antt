-- ===== src/Pool.antt =====
-- The pool of connections of `Client`, pyignite/client.py. What the network does when a node is tried
-- is a function of the node's index.
pub mod Laws
pub mod Refused
pub mod Faults
use ignite_python_thin_clien.Base.{
  ℕ, zero, suc, ◌+◌, ◌-◌, Bool, true, false, not, ◌||◌, List, [], ◌∷◌, ◌++◌, length, get_elem?, set,
  ◌&&◌, ltb, leb, if◌then◌else◌, Option, none, some,
}
use ignite_python_thin_clien.Result.{
  Result, ok, err, authentication_error, index_error, reconnect_error,
}
use ignite_python_thin_clien.Connection.Protocol.{ProtocolContext, is_partition_awareness_supported}
use ignite_python_thin_clien.Connection.State.{
  Connection, alive, Attempt, ConnectError, returns, raises, close, connect, reconnect,
  is_connection_error,
}

-- What the two runs of `_connect_version` meet when a node is tried.
abbrev pub Network : Type 0
Network = ℕ → Attempt × Attempt

-- `_nodes`, `_protocol_context`, `_current_node` and `_partition_aware`, here `is_asked`
pub record Pool : Type 0 where
  pub nodes : List Connection
  pub context : Option ProtocolContext
  pub current_node : ℕ
  pub is_asked : Bool

-- Connection(self, host, port)
abbrev pub new_connection : Connection
new_connection = record { has_socket = false; failed = false; uuid = none }

abbrev unknown : Option ProtocolContext → Bool
unknown none = true
unknown (some p) = false

-- `partition_aware`: what the user asks for, and what the protocol supports, if that is known.
unfoldable pub partition_aware : Pool → Bool
partition_aware s =
    s.is_asked && elim s.context [ none ↦ false | some p ↦ is_partition_awareness_supported p ]

abbrev append_node : Option ProtocolContext → Connection → Pool → Pool
append_node p c s = record s { nodes = s.nodes ++ (c ∷ []); context = p }

-- The handler of the loop of `_connect`: the failure is marked, and with partition awareness the
-- node is tried once more.
unfoldable pub connect_failed :
    Attempt × Attempt → Option ProtocolContext → Connection → Pool → Result Pool
unfolding partition_aware
connect_failed again p c s =
    if partition_aware (record s { context = p })
    then (let done = reconnect p again.0 again.1 (record c { failed = true }) in
        elim done.0 [ none ↦ ok (append_node done.1 done.2 s) | some e ↦ err authentication_error ])
    else ok (append_node p (record c { failed = true }) s)

-- One round of the loop of `_connect`, for the node `i`.
unfoldable pub connect_node : Network → Network → ℕ → Pool → Result Pool
unfolding connect_failed partition_aware
connect_node net again i s =
    if unknown s.context || partition_aware s
    then (let done = connect s.context (net i).0 (net i).1 new_connection in
        elim done.outcome [
          | returns r ↦ ok (
              append_node done.context done.connection (
                if partition_aware (record s { context = done.context })
                then s
                else record s { current_node = i }))
          | raises e ↦
              if is_connection_error e
              then connect_failed (again i) done.context done.connection s
              else err authentication_error
        ])
    else ok (append_node s.context new_connection s)

-- The rounds for `count` nodes, from the node `i`.
unfoldable pub connect_nodes : Network → Network → ℕ → ℕ → Pool → Result Pool
unfolding connect_node
connect_nodes net again zero i s = ok s
connect_nodes net again (suc count) i s = elim (connect_node net again i s) [
  | ok s' ↦ connect_nodes net again count (suc i) s'
  | err e ↦ err e
]

-- _connect(nodes)
unfoldable pub connect_pool : Network → Network → ℕ → Pool → Result Pool
unfolding connect_nodes
connect_pool net again count s = elim (connect_nodes net again count 0 s) [
  | err e ↦ err e
  | ok s' ↦ if unknown s'.context then err reconnect_error else ok s'
]

-- close()
unfoldable pub close_pool : Pool → Pool
close_pool s = record s { nodes = [] }

abbrev pub range_from : ℕ → ℕ → List ℕ
range_from i zero = []
range_from i (suc n) = i ∷ range_from (suc i) n

-- chain(range(current, num_nodes), range(current))
abbrev pub indices : ℕ → ℕ → List ℕ
indices current n = range_from current (n - current) ++ range_from 0 current

-- The loop of `random_node`: the first node that can be connected to.
unfoldable pub try_nodes : Network → List ℕ → Pool → Result ℕ × Pool
try_nodes net [] s = (err reconnect_error, s)
try_nodes net (i ∷ rest) s = elim (get_elem? s.nodes i) [
  | none ↦ (err index_error, s)
  | some c ↦
      let done = connect s.context (net i).0 (net i).1 c in
      let s' = record s { nodes = set s.nodes i done.connection; context = done.context } in
      elim done.outcome [
        | returns r ↦ (ok i, s')
        | raises e ↦ elim (is_connection_error e) [
          | true ↦ try_nodes net rest s'
          | false ↦ (err authentication_error, s')
        ]
      ]
]

abbrev pub advance : ℕ → ℕ → ℕ
advance current n = if leb n (suc current) then 0 else suc current

-- `random_node` without partition awareness.
unfoldable pub current_or_next : Network → Pool → Result ℕ × Pool
unfolding try_nodes
current_or_next net s = elim (get_elem? s.nodes s.current_node) [
  | none ↦ (err index_error, s)
  | some c ↦
      if alive c
      then (ok s.current_node, s)
      else (let next = advance s.current_node (length s.nodes) in
          try_nodes net (indices next (length s.nodes))
            (record s { nodes = set s.nodes s.current_node (close c); current_node = next }))
]

-- The indices of the nodes that are alive, from the index of the first.
unfoldable pub alive_nodes : ℕ → List Connection → List ℕ
alive_nodes i [] = []
alive_nodes i (c ∷ cs) = if alive c then i ∷ alive_nodes (suc i) cs else alive_nodes (suc i) cs

-- `for n in self._nodes: n.reconnect()`, of the nodes from `i`.
unfoldable pub reconnect_nodes :
    Network
    → ℕ
    → List Connection
    → Option ProtocolContext
    → Option ConnectError × Option ProtocolContext × List Connection
reconnect_nodes net i [] p = (none, p, [])
reconnect_nodes net i (c ∷ cs) p =
    let done = reconnect p (net i).0 (net i).1 c in
    elim done.0 [
      | some e ↦ (some e, done.1, done.2 ∷ cs)
      | none ↦ let rest = reconnect_nodes net (suc i) cs done.1 in (rest.0, rest.1, done.2 ∷ rest.2)
    ]

module _ (choice : ℕ → List ℕ → ℕ) where
  -- random.choice of the nodes that are alive; none where there are none.
  abbrev pub choose_alive : List Connection → Option ℕ
  choose_alive cs = elim (alive_nodes 0 cs) [ [] ↦ none | j ∷ js ↦ some (choice j js) ]

  -- _get_random_node()
  unfoldable pub get_random_node : Network → Pool → Result ℕ × Pool
  unfolding alive_nodes reconnect_nodes
  get_random_node net s = elim (choose_alive s.nodes) [
    | some j ↦ (ok j, s)
    | none ↦
        let done = reconnect_nodes net 0 s.nodes s.context in
        let s' = record s { nodes = done.2; context = done.1 } in
        elim done.0 [
          | some e ↦ (err authentication_error, s')
          | none ↦ elim (choose_alive s'.nodes) [
            | some j ↦ (ok j, s')
            | none ↦ (err reconnect_error, s')
          ]
        ]
  ]

  -- random_node
  unfoldable pub random_node : Network → Pool → Result ℕ × Pool
  unfolding get_random_node current_or_next partition_aware
  random_node net s = if partition_aware s then get_random_node net s else current_or_next net s
