-- ===== src/Affinity.antt =====
-- Partition awareness: `BaseClient` of pyignite/client.py.
pub mod Partition
pub mod Choice
pub mod Best
use ignite_python_thin_clien.Base.{
  ℕ, zero, ◌+◌, ◌-◌, ◌/◌, ◌^◌, List, [], ◌∷◌, ◌++◌, Bool, true, false, not, ◌&&◌, ◌||◌, ℤ, ltb,
  ◌==◌, bit_and, Option, none, some, if◌then◌else◌,
}
use ignite_python_thin_clien.Base.Dict.{Dict, get, put, update, int_eq}
use ignite_python_thin_clien.Result.{Result, ok, err, assertion_error, ◌>>=◌, ◌>>◌, guard}
use ignite_python_thin_clien.Value.{Value, int, str}
use ignite_python_thin_clien.Value.Equality.{eq_key}
use ignite_python_thin_clien.Hash.{xor_ℤ, and_ℤ, floordiv, abs, unsigned}

-- A connection, as the choice of a node sees it: its UUID, which is not known before a handshake,
-- and whether it is alive.
pub record Node : Type 0 where
  pub uuid : Option ℕ
  pub alive : Bool

-- What the server has told of a cache.
pub record CacheMapping : Type 0 where
  pub is_applicable : Bool
  pub cache_config : Dict ℤ ℤ
  pub node_mapping : Dict ℕ (List ℕ)
  pub number_of_partitions : ℕ

-- The partition of a hash code, with the assertion behind it. The caller has `parts` above 0.
unfoldable pub partition : ℕ → ℤ → Result ℕ
partition parts hashcode =
    let mask = parts - 1 in
    let part =
      if bit_and parts mask == 0
      then and_ℤ (xor_ℤ hashcode (unsigned 4 hashcode / 2 ^ 16)) mask
      else abs (floordiv hashcode parts) in
    if ltb part parts then ok part else err assertion_error

abbrev pub elem : ℕ → List ℕ → Bool
elem x [] = false
elem x (y ∷ ys) = x == y || elem x ys

-- The first node whose partitions hold the one looked for.
unfoldable pub find_owner : ℕ → Dict ℕ (List ℕ) → Option ℕ
find_owner part [] = none
find_owner part ((u, p) ∷ mapping) = if elem part p then some u else find_owner part mapping

abbrev pub has_uuid : ℕ → Node → Bool
has_uuid u n = elim n.uuid [ none ↦ false | some v ↦ v == u ]

unfoldable pub find_node : ℕ → List Node → Option Node
find_node u [] = none
find_node u (n ∷ nodes) = if has_uuid u n then some n else find_node u nodes

abbrev if_alive : Option Node → Option Node
if_alive none = none
if_alive (some n) = if n.alive then some n else none

-- _get_node_by_hashcode(cache_id, hashcode, parts), of the cache's node mapping.
unfoldable pub get_node_by_hashcode : Dict ℕ (List ℕ) → List Node → ℤ → ℕ → Result (Option Node)
unfolding partition find_owner find_node
get_node_by_hashcode mapping nodes hashcode parts = do
  part ← partition parts hashcode
  ok (elim (find_owner part mapping) [ none ↦ none | some u ↦ if_alive (find_node u nodes) ])

-- `self.affinity_version` and `self._affinity`; a cache that is registered and not yet mapped has
-- the empty dict, `none`. `partition_aware` is the client's property of that name.
pub record AffinityState : Type 0 where
  pub partition_aware : Bool
  pub affinity_version : ℕ × ℕ
  pub version : ℕ × ℕ
  pub partition_mapping : Dict ℤ (Option CacheMapping)

-- Tuples compare lexicographically.
abbrev pub version_lt : ℕ × ℕ → ℕ × ℕ → Bool
version_lt (a, b) (c, d) = ltb a c || (a == c && ltb b d)

-- The keys of `self._affinity`: 'version' and 'partition_mapping'.
abbrev pub affinity_keys : List Value
affinity_keys =
    str (118 ∷ 101 ∷ 114 ∷ 115 ∷ 105 ∷ 111 ∷ 110 ∷ [])
    ∷ str (
        112 ∷ 97 ∷ 114 ∷ 116 ∷ 105 ∷ 116 ∷ 105 ∷ 111 ∷ 110 ∷ 95 ∷ 109 ∷ 97 ∷ 112 ∷ 112 ∷ 105 ∷ 110
        ∷ 103 ∷ [])
    ∷ []

-- key in keys
unfoldable pub contains : List Value → Value → Bool
contains [] k = false
contains (j ∷ js) k = eq_key k j || contains js k

-- register_cache(cache_id)
unfoldable pub register_cache : ℤ → AffinityState → AffinityState
unfolding put contains
register_cache cache s =
    if s.partition_aware && not (contains affinity_keys (int cache))
    then record s { partition_mapping = put s.partition_mapping cache none }
    else s

unfoldable pub all_keys : Dict ℤ (Option CacheMapping) → List ℤ
all_keys [] = []
all_keys ((c, m) ∷ d) = c ∷ all_keys d

unfoldable pub unmapped : Dict ℤ (Option CacheMapping) → List ℤ
unmapped [] = []
unmapped ((c, none) ∷ d) = c ∷ unmapped d
unmapped ((c, some m) ∷ d) = unmapped d

-- _caches_to_update_affinity()
unfoldable pub caches_to_update : AffinityState → List ℤ
unfolding all_keys unmapped
caches_to_update s =
    if version_lt s.version s.affinity_version
    then all_keys s.partition_mapping
    else unmapped s.partition_mapping

-- _update_affinity(full_affinity)
unfoldable pub update_affinity :
    ℕ × ℕ → Dict ℤ (Option CacheMapping) → AffinityState → AffinityState
unfolding update
update_affinity new_version full_mapping s = record s {
  version = new_version;
  partition_mapping = update s.partition_mapping full_mapping;
}
