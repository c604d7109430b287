-- ===== src/Affinity/Choice.antt =====
-- Which node a key is sent to, and which mappings are asked for.
use ignite_python_thin_clien.Base.{
  ℕ, ◌≡◌, refl, sym, ap, arith, List, [], ◌∷◌, true, false, inl, inr, ℤ, Option, none, some, In,
  eq_ℤ, eq_ℤ_iff, Bool-cases,
}
use ignite_python_thin_clien.Value.{int}
use ignite_python_thin_clien.Value.Equality.{eq_key, number}
use ignite_python_thin_clien.Base.Dict.{Dict, put, int_eq}
use ignite_python_thin_clien.Result.{ok, >>=-eq-ok}
use ignite_python_thin_clien.Affinity.{
  Node, CacheMapping, AffinityState, partition, elem, find_owner, find_node, has_uuid, if_alive,
  get_node_by_hashcode, register_cache, affinity_keys, contains, caches_to_update, all_keys,
  unmapped, version_lt,
}

find_owner-In :
    (part : ℕ) (mapping : Dict ℕ (List ℕ)) (u : ℕ)
    → find_owner part mapping ≡ some u
    → (ps : List ℕ) × In (u, ps) mapping × (elem part ps ≡ true)
unfolding find_owner
find_owner-In part [] u e = cc
find_owner-In part ((v, ps) ∷ mapping) u e = elim (Bool-cases (elem part ps)) [
  | inl h ↦ (ps, inl (ground (arith, h)), h)
  | inr h ↦
      let rest : find_owner part mapping ≡ some u = ground (arith, h) in
      let (qs, i, f) = find_owner-In part mapping u rest in (qs, inr i, f)
]

has_uuid→uuid : (u : ℕ) (n : Node) → has_uuid u n ≡ true → n.uuid ≡ some u
has_uuid→uuid u n h = ground arith

find_node-In :
    (u : ℕ) (nodes : List Node) (n : Node)
    → find_node u nodes ≡ some n
    → In n nodes × (n.uuid ≡ some u)
unfolding find_node
find_node-In u [] n e = cc
find_node-In u (m ∷ nodes) n e = elim (Bool-cases (has_uuid u m)) [
  | inl h ↦ (
    inl (ground (arith, h)),
    let same : m ≡ n = ground (arith, h) in rw (← same) (has_uuid→uuid u m h),
  )
  | inr h ↦
      let rest : find_node u nodes ≡ some n = ground (arith, h) in
      let (i, f) = find_node-In u nodes n rest in (inr i, f)
]

if_alive-some : (o : Option Node) (n : Node) → if_alive o ≡ some n → (o ≡ some n) × (n.alive ≡ true)
if_alive-some none n e = cc
if_alive-some (some m) n e = elim (Bool-cases m.alive) [
  | inl h ↦ let same : m ≡ n = ground (arith, h) in (ap some same, rw (← same) h)
  | inr h ↦ ground (arith, h)
]

-- The choice behind the partition.
abbrev chosen : List Node → Option ℕ → Option Node
chosen nodes o = elim o [ none ↦ none | some u ↦ if_alive (find_node u nodes) ]

chosen-some :
    (nodes : List Node) (o : Option ℕ) (n : Node)
    → chosen nodes o ≡ some n
    → (u : ℕ) × (o ≡ some u) × (find_node u nodes ≡ some n) × (n.alive ≡ true)
chosen-some nodes none n e = cc
chosen-some nodes (some u) n e =
    let (found, alive) = if_alive-some (find_node u nodes) n e in (u, refl, found, alive)

-- A node that is chosen is one of the client's, is alive, and has the UUID of a node to which the
-- server has mapped the partition of the hash code.
pub get_node_sound :
    (mapping : Dict ℕ (List ℕ)) (nodes : List Node) (hashcode : ℤ) (parts : ℕ) (n : Node)
    → get_node_by_hashcode mapping nodes hashcode parts ≡ ok (some n)
    → (part : ℕ) × (u : ℕ) × (ps : List ℕ) × (partition parts hashcode ≡ ok part)
      × In (u, ps) mapping
      × (elem part ps ≡ true)
      × In n nodes
      × (n.uuid ≡ some u)
      × (n.alive ≡ true)
unfolding get_node_by_hashcode
get_node_sound mapping nodes hashcode parts n h =
    let (part, p, e) = >>=-eq-ok (partition parts hashcode) _ h in
    let picked : chosen nodes (find_owner part mapping) ≡ some n = cc e in
    let (u, owner, found, alive) = chosen-some nodes (find_owner part mapping) n picked in
    let (ps, i, f) = find_owner-In part mapping u owner in
    let (j, known) = find_node-In u nodes n found in (part, u, ps, p, i, f, j, known, alive)

In-all_keys-put : (d : Dict ℤ (Option CacheMapping)) (c : ℤ) → In c (all_keys (put d c none))
unfolding put all_keys
In-all_keys-put [] c = inl refl
In-all_keys-put ((j, m) ∷ d) c = elim (Bool-cases (eq_ℤ j c)) [
  | inl h ↦ rw h (inl (sym ((eq_ℤ_iff j c).0 h)))
  | inr h ↦ rw h (inr (In-all_keys-put d c))
]

In-unmapped-cons :
    (c j : ℤ) (m : Option CacheMapping) (d : Dict ℤ (Option CacheMapping))
    → In c (unmapped d)
    → In c (unmapped ((j, m) ∷ d))
unfolding unmapped
In-unmapped-cons c j none d i = inr i
In-unmapped-cons c j (some m) d i = i

In-unmapped-put : (d : Dict ℤ (Option CacheMapping)) (c : ℤ) → In c (unmapped (put d c none))
unfolding put
In-unmapped-put [] c = unfold unmapped in inl refl
In-unmapped-put ((j, m) ∷ d) c = elim (Bool-cases (eq_ℤ j c)) [
  | inl h ↦ rw h (unfold unmapped in inl (sym ((eq_ℤ_iff j c).0 h)))
  | inr h ↦ rw h (In-unmapped-cons c j m (put d c none) (In-unmapped-put d c))
]

-- A cache's number is not equal to a string.
affinity_keys-contains : (c : ℤ) → contains affinity_keys (int c) ≡ false
unfolding contains eq_key number
affinity_keys-contains c = refl

-- With partition awareness, a cache that is registered has its mapping asked for next, also one that was mapped already: the
-- guard against registering it again never holds.
pub register_cache_forgets :
    (c : ℤ) (s : AffinityState)
    → s.partition_aware ≡ true
    → In c (caches_to_update (register_cache c s))
unfolding register_cache caches_to_update
register_cache_forgets c s aware =
    rw (aware, affinity_keys-contains c)
      (elim (Bool-cases (version_lt s.version s.affinity_version)) [
        | inl h ↦ rw h (In-all_keys-put s.partition_mapping c)
        | inr h ↦ rw h (In-unmapped-put s.partition_mapping c)
      ])
