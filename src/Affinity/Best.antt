-- ===== src/Affinity/Best.antt =====
-- `get_best_node` of pyignite/client.py, with `_get_affinity` and its retries. What becomes of the
-- request for the mappings, sent over the connection with this index, and the pool that it leaves
-- are a parameter, as are the hash code that a class gives a key and what the network does in each
-- round; `time.sleep` is left out. No key is a complex object.
pub mod Laws
pub mod Rounds
use ignite_python_thin_clien.Base.{
  ℕ, zero, suc, ◌-◌, List, [], ◌∷◌, length, map, Bool, true, false, ◌&&◌, not, ℤ, pos, eq_ℤ, Option,
  none, some, if◌then◌else◌,
}
use ignite_python_thin_clien.Base.Dict.{Dict, get, put, int_eq}
use ignite_python_thin_clien.Result.{
  Result, Error, ok, err, cache_error, sql_error, socket_error, handshake_error,
  authentication_error, ◌>>=◌,
}
use ignite_python_thin_clien.Value.{Value, ClassName, none_value}
use ignite_python_thin_clien.Connection.State.{Connection, alive}
use ignite_python_thin_clien.Pool.{partition_aware, Pool, Network, random_node, reconnect_nodes}
use ignite_python_thin_clien.Cache.{key_class}
use ignite_python_thin_clien.Affinity.{
  Node, CacheMapping, AffinityState, get_node_by_hashcode, caches_to_update, update_affinity,
}

-- The result of `cache_get_node_partitions`; the last two are its value where the status is 0.
pub record Answer : Type 0 where
  pub status : ℤ
  pub version : ℕ × ℕ
  pub partition_mapping : Dict ℤ (Option CacheMapping)

pub record Client : Type 0 where
  pub pool : Pool
  pub affinity : AffinityState

-- A connection of the pool by its index, or the node that a partition belongs to.
pub data Chosen : Type 0 where
  connection : ℕ → Chosen
  owner : Node → Chosen

abbrev pub affinity_retries : ℕ
affinity_retries = 32

abbrev pub node_of : Connection → Node
node_of c = record { uuid = c.uuid; alive = alive c }

abbrev some_mapping : Dict ℤ (Option CacheMapping) → Bool
some_mapping [] = false
some_mapping (m ∷ ms) = true

-- result.status == 0 and result.value['partition_mapping']
abbrev pub is_mapped : Answer → Bool
is_mapped r = eq_ℤ r.status (pos 0) && some_mapping r.partition_mapping

abbrev pub is_connection_error : Error → Bool
is_connection_error socket_error = true
is_connection_error handshake_error = true
is_connection_error _ = false

abbrev pub is_cache_error : Error → Bool
is_cache_error cache_error = true
is_cache_error sql_error = true
is_cache_error _ = false

-- The loop of `_get_affinity`, from one attempt on with so many left after it.
unfoldable pub ask_again :
    (ask : ℕ → Pool → Result Answer × Pool) → ℕ → ℕ → Pool → Result Answer × Pool
ask_again ask attempt zero p = ask attempt p
ask_again ask attempt (suc left) p =
    let (answer, p') = ask attempt p in
    elim answer [
      | err e ↦ (err e, p')
      | ok r ↦ elim (is_mapped r) [
        | true ↦ (ok r, p')
        | false ↦ ask_again ask (suc attempt) left p'
      ]
    ]

-- _get_affinity(conn, caches)
unfoldable pub get_affinity : (ask : ℕ → Pool → Result Answer × Pool) → Pool → Result Answer × Pool
unfolding ask_again
get_affinity ask p =
    let (answer, p') = ask_again ask 0 (affinity_retries - 1) p in
    ((do r ← answer; if eq_ℤ r.status (pos 0) then ok r else err cache_error), p')

-- self._affinity['partition_mapping'][cache_id], of a defaultdict: a key that is missing is added.
unfoldable pub cache_partition_mapping : ℤ → AffinityState → Option CacheMapping × AffinityState
unfolding get put
cache_partition_mapping c s = elim (get s.partition_mapping c) [
  | some m ↦ (m, s)
  | none ↦ (none, record s { partition_mapping = put s.partition_mapping c none })
]

abbrev pub parts_of : Option CacheMapping → ℕ
parts_of none = 0
parts_of (some m) = m.number_of_partitions

abbrev pub nodes_of : Option CacheMapping → Dict ℕ (List ℕ)
nodes_of none = []
nodes_of (some m) = m.node_mapping

-- `for conn in self._nodes`: the loop leaves its variable at the last node.
abbrev pub last_index : ℕ → List Connection → ℕ
last_index conn [] = conn
last_index conn (c ∷ cs) = length cs

abbrev pub has_key : Value → Bool
has_key none_value = false
has_key _ = true

-- What the rounds of `while True` end with: the mappings, the connection that is returned without
-- them, or an error.
pub data Refreshed : Type 0 where
  mapped : ℕ → Answer → Refreshed
  without : ℕ → Refreshed
  failed : Error → Refreshed

module _ (choice : ℕ → List ℕ → ℕ) (net : ℕ → Network) (later : Network)
    (ask : ℕ → ℕ → List ℤ → ℕ → Pool → Result Answer × Pool)
    (hashcode : ClassName → Value → Result ℤ) where
  -- The rounds from this one on, of at most so many; none if these were not enough.
  unfoldable pub refresh : ℕ → ℕ → List ℤ → ℕ → Pool → Option (Refreshed × Pool)
  unfolding get_affinity random_node
  refresh zero round caches conn p = none
  refresh (suc fuel) round caches conn p =
      let (answer, p') = get_affinity (ask round conn caches) p in
      let (node, q) = random_node choice (net round) p' in
      elim answer [
        | ok r ↦ some (mapped conn r, p')
        | err e ↦ elim (is_connection_error e) [
          | true ↦ elim node [
            | ok j ↦ refresh fuel (suc round) caches j q
            | err e' ↦ some (failed e', q)
          ]
          | false ↦ some ((if is_cache_error e then without conn else failed e), p')
        ]
      ]

  -- The choice behind the refresh.
  unfoldable pub choose_node : ℕ → ℤ → Value → Option ClassName → Client → Result Chosen × Client
  unfolding cache_partition_mapping key_class get_node_by_hashcode
  choose_node conn cache key hint s =
      let (m, a) = cache_partition_mapping cache s.affinity in
      let s' = record s { affinity = a } in
      elim (parts_of m) [
        | zero ↦ (ok (connection conn), s')
        | suc k ↦ (
          (do
            c ← key_class key hint
            h ← hashcode c key
            best ← get_node_by_hashcode (nodes_of m) (map node_of s.pool.nodes) h (suc k)
            ok (elim best [ none ↦ connection conn | some n ↦ owner n ])),
          s',
        )
      ]

  -- self._update_affinity(full_affinity), and every node that is not alive reconnected
  unfoldable pub take_mappings : ℕ → Answer → Client → Result ℕ × Client
  unfolding update_affinity reconnect_nodes
  take_mappings conn r s =
      let a = update_affinity r.version r.partition_mapping s.affinity in
      let done = reconnect_nodes later 0 s.pool.nodes s.pool.context in
      let s' : Client = record {
        affinity = a;
        pool = record s.pool { nodes = done.2; context = done.1 };
      } in
      elim done.0 [
        | some e ↦ (err authentication_error, s')
        | none ↦ (ok (last_index conn done.2), s')
      ]

  unfoldable pub behind_refresh :
      ℤ → Value → Option ClassName → Refreshed → Client → Result Chosen × Client
  unfolding choose_node take_mappings
  behind_refresh cache key hint (without j) s = (ok (connection j), s)
  behind_refresh cache key hint (failed e) s = (err e, s)
  behind_refresh cache key hint (mapped j r) s =
      let (last, s') = take_mappings j r s in
      elim last [ err e ↦ (err e, s') | ok j' ↦ choose_node j' cache key hint s' ]

  -- The branch of a partition-aware client with a key, behind the first `random_node`.
  unfoldable pub best_for_key :
      ℕ → ℕ → ℤ → Value → Option ClassName → Client → Option (Result Chosen × Client)
  unfolding refresh choose_node behind_refresh caches_to_update
  best_for_key fuel conn cache key hint s = elim (caches_to_update s.affinity) [
    | [] ↦ some (choose_node conn cache key hint s)
    | c ∷ cs ↦ elim (refresh fuel 1 (c ∷ cs) conn s.pool) [
      | none ↦ none
      | some done ↦ some (behind_refresh cache key hint done.0 (record s { pool = done.1 }))
    ]
  ]

  -- What is done behind the first `random_node`.
  unfoldable pub with_node :
      ℕ → ℤ → Value → Option ClassName → Result ℕ → Client → Option (Result Chosen × Client)
  unfolding best_for_key partition_aware
  with_node fuel cache key hint (err e) s = some (err e, s)
  with_node fuel cache key hint (ok conn) s = elim (partition_aware s.pool && has_key key) [
    | true ↦ best_for_key fuel conn cache key hint s
    | false ↦ some (ok (connection conn), s)
  ]

  -- get_best_node(cache, key, key_hint), of a cache's number
  unfoldable pub get_best_node :
      ℕ → ℤ → Value → Option ClassName → Client → Option (Result Chosen × Client)
  unfolding with_node random_node
  get_best_node fuel cache key hint s =
      let first = random_node choice (net 0) s.pool in
      with_node fuel cache key hint first.0 (record s { pool = first.1 })
