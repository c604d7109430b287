-- ===== src/Runs/Choice.antt =====
-- Partition awareness at concrete hash codes.
use ignite_python_thin_clien.Base.{
  ℕ, ◌/◌, ◌%◌, ◌^◌, ◌≡◌, refl, arith, true, bit_xor, List, [], ◌∷◌, In, pos, negsuc, some,
}
use ignite_python_thin_clien.Base.Bytes.{wrap}
use ignite_python_thin_clien.Base.Dict.{Dict}
use ignite_python_thin_clien.Result.{ok, err, assertion_error}
use ignite_python_thin_clien.Affinity.{
  Node, partition, get_node_by_hashcode, elem, AffinityState, register_cache, caches_to_update,
}
use ignite_python_thin_clien.Affinity.Partition.{partition_pow, partition_fails}
use ignite_python_thin_clien.Affinity.Choice.{get_node_sound, register_cache_forgets}

partition_pow_example :
    partition (2 ^ 10) (negsuc 4)
    ≡ ok (bit_xor (wrap 4 (negsuc 4)) (wrap 4 (negsuc 4) / 2 ^ 16) % 2 ^ 10)
partition_pow_example = partition_pow 10 (negsuc 4) (omega arith)

partition_fails_example : partition 100 (pos 20000) ≡ err assertion_error
partition_fails_example = partition_fails 100 20000 (omega arith) (omega arith)

abbrev sample_mapping : Dict ℕ (List ℕ)
sample_mapping = (7, 0 ∷ 1 ∷ []) ∷ (8, 2 ∷ 3 ∷ []) ∷ []

abbrev sample_node : Node
sample_node = record { uuid = some 8; alive = true }

chosen : get_node_by_hashcode sample_mapping (sample_node ∷ []) (pos 2) 4 ≡ ok (some sample_node)
unfolding get_node_by_hashcode wrap
chosen = refl

get_node_sound_example :
    (part : ℕ) × (u : ℕ) × (ps : List ℕ) × (partition 4 (pos 2) ≡ ok part)
    × In (u, ps) sample_mapping
    × (elem part ps ≡ true)
    × In sample_node (sample_node ∷ [])
    × (sample_node.uuid ≡ some u)
    × (sample_node.alive ≡ true)
get_node_sound_example =
    get_node_sound sample_mapping (sample_node ∷ []) (pos 2) 4 sample_node chosen

abbrev sample_state : AffinityState
sample_state = record {
  partition_aware = true;
  affinity_version = (3, 0);
  version = (3, 0);
  partition_mapping =
      (
        pos 5,
        some (record {
          is_applicable = true;
          cache_config = [];
          node_mapping = sample_mapping;
          number_of_partitions = 4;
        }),
      )
      ∷ [];
}

register_cache_forgets_example : In (pos 5) (caches_to_update (register_cache (pos 5) sample_state))
register_cache_forgets_example = register_cache_forgets (pos 5) sample_state refl
