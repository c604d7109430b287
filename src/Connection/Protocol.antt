-- ===== src/Connection/Protocol.antt =====
-- pyignite/connection/protocol_context.py, and `PROTOCOLS` of pyignite/constants.py.
use ignite_python_thin_clien.Base.{
  ℕ, ◌≡◌, ◌⊎◌, refl, Bool, true, false, not, ◌&&◌, ◌||◌, ltb, ◌==◌, List, [], ◌∷◌, if◌then◌else◌,
  Option, none, some, bit_and, Bool-cases, inl, inr,
}

abbrev pub Version : Type 0
Version = ℕ × ℕ × ℕ

-- Tuples compare lexicographically.
unfoldable pub version_lt : Version → Version → Bool
version_lt (a, b, c) (x, y, z) = ltb a x || (a == x && (ltb b y || (b == y && ltb c z)))

unfoldable pub version_eq : Version → Version → Bool
version_eq (a, b, c) (x, y, z) = a == x && (b == y && c == z)

abbrev pub at_least : Version → Version → Bool
at_least v w = not (version_lt v w)

abbrev pub protocols : List Version
protocols = (1, 7, 0) ∷ (1, 6, 0) ∷ (1, 5, 0) ∷ (1, 4, 0) ∷ (1, 3, 0) ∷ (1, 2, 0) ∷ []

unfoldable pub version_in : Version → List Version → Bool
unfolding version_eq
version_in v [] = false
version_in v (w ∷ ws) = version_eq v w || version_in v ws

-- max(versions), from the first of them.
unfoldable pub max_version : Version → List Version → Version
unfolding version_lt
max_version v [] = v
max_version v (w ∷ ws) = if version_lt v w then max_version w ws else max_version v ws

-- `_version` and `_features`, the latter as its bit mask.
pub record ProtocolContext : Type 0 where
  pub version : Version
  pub features : Option ℕ

unfoldable pub is_partition_awareness_supported : ProtocolContext → Bool
is_partition_awareness_supported c = at_least c.version (1, 4, 0)

unfoldable pub is_status_flags_supported : ProtocolContext → Bool
is_status_flags_supported c = at_least c.version (1, 4, 0)

unfoldable pub is_feature_flags_supported : ProtocolContext → Bool
is_feature_flags_supported c = at_least c.version (1, 7, 0)

unfoldable pub is_expiry_policy_supported : ProtocolContext → Bool
is_expiry_policy_supported c = at_least c.version (1, 6, 0)

-- BitmaskFeature.CLUSTER_API
abbrev pub cluster_api : ℕ
cluster_api = 4

unfoldable pub is_cluster_api_supported : ProtocolContext → Bool
is_cluster_api_supported c = elim c.features [
  | none ↦ false
  | some f ↦ bit_and f cluster_api == cluster_api
]

unfoldable pub ensure_consistency : ProtocolContext → ProtocolContext
unfolding is_feature_flags_supported
ensure_consistency c = if is_feature_flags_supported c then c else record c { features = none }

-- ProtocolContext(version, features)
unfoldable pub new_context : Version → Option ℕ → ProtocolContext
unfolding ensure_consistency
new_context v f = ensure_consistency (record { version = v; features = f })

unfoldable pub set_version : Version → ProtocolContext → ProtocolContext
unfolding ensure_consistency
set_version v c = ensure_consistency (record c { version = v })

unfoldable pub set_features : Option ℕ → ProtocolContext → ProtocolContext
unfolding ensure_consistency
set_features f c = ensure_consistency (record c { features = f })

-- BitmaskFeature.all_supported()
abbrev pub all_supported : ℕ
all_supported = cluster_api

-- Features are kept for a version that has feature masks only.
abbrev pub IsConsistent : ProtocolContext → Type 0
IsConsistent c = (is_feature_flags_supported c ≡ true) ⊎ (c.features ≡ none)

pub ensure_consistency-IsConsistent : (c : ProtocolContext) → IsConsistent (ensure_consistency c)
unfolding ensure_consistency
ensure_consistency-IsConsistent c = elim (Bool-cases (is_feature_flags_supported c)) [
  | inl h ↦ rw h (inl h)
  | inr h ↦ rw h (inr refl)
]
