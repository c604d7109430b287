-- ===== src/Runs/Best.antt =====
-- The choice of the best node, at concrete states.
use ignite_python_thin_clien.Base.{
  ℕ, zero, suc, ◌≡◌, refl, List, [], ◌∷◌, inl, true, false, ℤ, pos, none, some,
}
use ignite_python_thin_clien.Base.Dict.{get, put, update}
use ignite_python_thin_clien.Result.{Result, ok, Error, err, socket_error}
use ignite_python_thin_clien.Value.{Value, ClassName, str, string_object}
use ignite_python_thin_clien.Connection.State.{Connection, broken, alive, connect, reconnect, close}
use ignite_python_thin_clien.Connection.Protocol.{ProtocolContext}
use ignite_python_thin_clien.Pool.{Pool, Network, reconnect_nodes}
use ignite_python_thin_clien.Affinity.{AffinityState, caches_to_update, update_affinity}
use ignite_python_thin_clien.Affinity.Best.{
  Answer, Client, Refreshed, connection, mapped, parts_of, cache_partition_mapping, get_affinity,
  ask_again, is_connection_error, refresh, behind_refresh, get_best_node,
}
use ignite_python_thin_clien.Pool.Laws.{AliveAt}
use ignite_python_thin_clien.Affinity.Best.Rounds.{Sound, refresh-Sound}
use ignite_python_thin_clien.Affinity.Best.Laws.{
  ReturnsUsable, get_best_node-ReturnsUsable, behind_refresh-last,
}

abbrev first_of : ℕ → List ℕ → ℕ
first_of j js = j

abbrev network : ℕ → Network
network t i = (broken, broken)

abbrev live : Connection
live = record { has_socket = true; failed = false; uuid = some 4 }

abbrev dead : Connection
dead = record { has_socket = false; failed = true; uuid = some 5 }

abbrev protocol : ProtocolContext
protocol = record { version = (1, 7, 0); features = none }

abbrev pool : Pool
pool = record {
  nodes = live ∷ dead ∷ [];
  context = some protocol;
  current_node = 0;
  is_asked = true;
}

-- The mapping of cache 7: two partitions, both on node 4.
abbrev affinity : AffinityState
affinity = record {
  partition_aware = true;
  affinity_version = (3, 0);
  version = (3, 0);
  partition_mapping =
      (
        pos 7,
        some (record {
          is_applicable = true;
          cache_config = [];
          node_mapping = (4, 0 ∷ 1 ∷ []) ∷ [];
          number_of_partitions = 2;
        }),
      )
      ∷ [];
}

abbrev client : Client
client = record { pool = pool; affinity = affinity }

abbrev answer : Answer
answer = record { status = pos 0; version = (4, 0); partition_mapping = (pos 8, none) ∷ [] }

abbrev ask : ℕ → ℕ → List ℤ → ℕ → Pool → Result Answer × Pool
ask round conn caches attempt p = (ok answer, p)

abbrev hash_one : ClassName → Value → Result ℤ
hash_one c v = ok (pos 1)

abbrev key : Value
key = str (97 ∷ [])

up_to_date : caches_to_update affinity ≡ []
unfolding caches_to_update
up_to_date = refl

get_best_node-ReturnsUsable_example : ReturnsUsable (
    get_best_node first_of network
      (network 0)
      ask
      hash_one
      0
      (pos 7)
      key
      (some string_object)
      client)
get_best_node-ReturnsUsable_example =
    get_best_node-ReturnsUsable first_of network (network 0) ask hash_one (λ j js. inl refl) 0
      (pos 7) key (some string_object) client up_to_date

abbrev broken_again : Connection
broken_again = record { has_socket = true; failed = true; uuid = some 5 }

-- The connection breaks in the handshake, and is not alive behind it.
reconnected :
    reconnect_nodes (network 0) 0 (live ∷ dead ∷ []) (some protocol)
    ≡ (none, some protocol, live ∷ broken_again ∷ [])
unfolding reconnect_nodes reconnect alive connect close
reconnected = refl

no_partitions :
    parts_of
      (cache_partition_mapping (pos 8) (update_affinity (4, 0) answer.partition_mapping affinity)).0
    ≡ 0
unfolding cache_partition_mapping update_affinity get put update
no_partitions = refl

behind_refresh-last_example :
    (behind_refresh first_of network
      (network 0)
      ask
      hash_one
      (pos 8)
      key
      (some string_object)
      (mapped 0 answer)
      client).0
    ≡ ok (connection 1)
behind_refresh-last_example =
    behind_refresh-last first_of network (network 0) ask hash_one (pos 8) key (some string_object) 0
      answer client (some protocol) live (broken_again ∷ []) reconnected no_partitions

-- The connection breaks in the first round, and the second is answered.
abbrev flaky : ℕ → ℕ → List ℤ → ℕ → Pool → Result Answer × Pool
flaky (suc zero) conn caches attempt p = (err socket_error, p)
flaky round conn caches attempt p = (ok answer, p)

pool-AliveAt : AliveAt pool 0
unfolding alive
pool-AliveAt = (live, refl, refl)

flaky-answers :
    (j : ℕ) (q : Pool) (e : Error)
    → (get_affinity (flaky 2 j (pos 7 ∷ [])) q).0 ≡ err e
    → is_connection_error e ≡ false
unfolding get_affinity ask_again
flaky-answers j q e h = cc h

refresh-Sound_example :
    (done : Refreshed × Pool) × (refresh first_of network
        (network 0)
        flaky
        hash_one
        2
        1
        (pos 7 ∷ [])
        0
        pool
      ≡ some done)
    × Sound first_of network (network 0) flaky hash_one (pos 7 ∷ []) done
refresh-Sound_example =
    refresh-Sound first_of network (network 0) flaky hash_one (λ j js. inl refl) 1 1 2 (pos 7 ∷ [])
      0 pool pool-AliveAt refl flaky-answers
