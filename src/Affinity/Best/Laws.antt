-- ===== src/Affinity/Best/Laws.antt =====
-- What `get_best_node` returns.
use ignite_python_thin_clien.Base.{
  ℕ, zero, suc, ◌≡◌, refl, List, [], ◌∷◌, length, map, true, ℤ, Option, none, some, In, inl, inr,
  ◌⊎◌, Bool-cases, ◌&&◌,
}
use ignite_python_thin_clien.Base.Dict.{Dict}
use ignite_python_thin_clien.Result.{Result, Error, ok, err, >>=-eq-ok}
use ignite_python_thin_clien.Value.{Value, ClassName}
use ignite_python_thin_clien.Connection.Protocol.{ProtocolContext}
use ignite_python_thin_clien.Connection.State.{Connection}
use ignite_python_thin_clien.Pool.{partition_aware, Pool, Network, random_node, reconnect_nodes}
use ignite_python_thin_clien.Pool.Laws.{AliveAt, ReturnsAlive, random_node-ReturnsAlive}
use ignite_python_thin_clien.Cache.{key_class}
use ignite_python_thin_clien.Affinity.{
  Node, get_node_by_hashcode, caches_to_update, update_affinity,
}
use ignite_python_thin_clien.Affinity.Choice.{get_node_sound}
use ignite_python_thin_clien.Affinity.Best.{
  Answer, Client, Chosen, connection, owner, node_of, parts_of, nodes_of, mapped,
  cache_partition_mapping, choose_node, take_mappings, behind_refresh, best_for_key, with_node,
  has_key, get_best_node,
}

-- What is chosen is alive in the pool that the call leaves.
abbrev pub Usable : Client → Chosen → Type 0
Usable s (connection j) = AliveAt s.pool j
Usable s (owner n) = In n (map node_of s.pool.nodes) × (n.alive ≡ true)

abbrev pub ReturnsUsable : Option (Result Chosen × Client) → Type 0
ReturnsUsable none = ⊥
ReturnsUsable (some (ok c, s)) = Usable s c
ReturnsUsable (some (err e, s)) = Unit {0}

pub Result-cases {ℓ} :
    {A : Type ℓ} (r : Result A) → ((a : A) × (r ≡ ok a)) ⊎ ((e : Error) × (r ≡ err e))
Result-cases (ok a) = inl (a, refl)
Result-cases (err e) = inr (e, refl)

result-ReturnsUsable :
    (r : Result Chosen) (s : Client)
    → ((c : Chosen) → r ≡ ok c → Usable s c)
    → ReturnsUsable (some (r, s))
result-ReturnsUsable (ok c) s f = f c refl
result-ReturnsUsable (err e) s f = tt

Nat-cases : (n : ℕ) → (n ≡ 0) ⊎ ((k : ℕ) × (n ≡ suc k))
Nat-cases zero = inl refl
Nat-cases (suc k) = inr (k, refl)

best-Usable :
    (best : Option Node) (conn : ℕ) (s : Client) (c : Chosen)
    → AliveAt s.pool conn
    → ((n : Node) → best ≡ some n → Usable s (owner n))
    → ok (elim best [ none ↦ connection conn | some n ↦ owner n ]) ≡ ok c
    → Usable s c
best-Usable none conn s c h f e = let same : connection conn ≡ c = cc e in rw (← same) h
best-Usable (some n) conn s c h f e = let same : owner n ≡ c = cc e in rw (← same) (f n refl)

owner-Usable :
    (mapping : Dict ℕ (List ℕ)) (s : Client) (hash : ℤ) (parts : ℕ) (n : Node)
    → get_node_by_hashcode mapping (map node_of s.pool.nodes) hash parts ≡ ok (some n)
    → Usable s (owner n)
owner-Usable mapping s hash parts n e =
    let (part, u, ps, p, i, f, j, known, lives) =
      get_node_sound mapping (map node_of s.pool.nodes) hash parts n e in
    (j, lives)

module _ (choice : ℕ → List ℕ → ℕ) (net : ℕ → Network) (later : Network)
    (ask : ℕ → ℕ → List ℤ → ℕ → Pool → Result Answer × Pool)
    (hashcode : ClassName → Value → Result ℤ) where
  choose_node-Usable :
      (conn : ℕ) (cache : ℤ) (key : Value) (hint : Option ClassName) (s : Client)
      → AliveAt s.pool conn
      → ReturnsUsable (some (choose_node choice net later ask hashcode conn cache key hint s))
  unfolding choose_node
  choose_node-Usable conn cache key hint s h =
      let m = (cache_partition_mapping cache s.affinity).0 in
      elim (Nat-cases (parts_of m)) [
        | inl z ↦ rw (z, ReturnsUsable, choose_node) h
        | inr (k, e) ↦
            rw (e, ReturnsUsable, choose_node)
              (result-ReturnsUsable _ _ (λ c done.
                let (cls, e1, rest) = >>=-eq-ok (key_class key hint) _ done in
                let (hash, e2, rest') = >>=-eq-ok (hashcode cls key) _ rest in
                let (best, e3, last) =
                  >>=-eq-ok
                    (get_node_by_hashcode (nodes_of m) (map node_of s.pool.nodes) hash (suc k)) _
                    rest' in
                best-Usable best conn
                  (record s { affinity = (cache_partition_mapping cache s.affinity).1 }) c h
                  (λ n found.
                    owner-Usable (nodes_of m)
                      (record s { affinity = (cache_partition_mapping cache s.affinity).1 }) hash
                      (suc k) n (rw (e3, found) refl))
                  last))
      ]

  with_node-Usable :
      (fuel : ℕ) (cache : ℤ) (key : Value) (hint : Option ClassName) (s : Client) (first : Result ℕ)
      → ReturnsAlive (first, s.pool)
      → caches_to_update s.affinity ≡ []
      → ReturnsUsable (with_node choice net later ask hashcode fuel cache key hint first s)
  unfolding with_node best_for_key
  with_node-Usable fuel cache key hint s (err e) h u = tt
  with_node-Usable fuel cache key hint s (ok conn) h u =
      elim (Bool-cases (partition_aware s.pool && has_key key)) [
        | inl t ↦ rw (t, with_node, u, best_for_key) (choose_node-Usable conn cache key hint s h)
        | inr f ↦ rw (f, with_node) h
      ]

  -- When `random.choice` takes a member of what it is given and no mapping has to be asked for,
  -- `get_best_node` returns, whatever the fuel, and a connection that it returns is alive in the pool
  -- that the call leaves: one of the pool's, or the owner of the key's partition, which is one of them.
  pub get_best_node-ReturnsUsable :
      (member : (j : ℕ) (js : List ℕ) → In (choice j js) (j ∷ js)) (fuel : ℕ) (cache : ℤ)
      (key : Value) (hint : Option ClassName) (s : Client)
      → caches_to_update s.affinity ≡ []
      → ReturnsUsable (get_best_node choice net later ask hashcode fuel cache key hint s)
  unfolding get_best_node
  get_best_node-ReturnsUsable member fuel cache key hint s h =
      let first = random_node choice (net 0) s.pool in
      with_node-Usable fuel cache key hint (record s { pool = first.1 }) first.0
        (random_node-ReturnsAlive choice member (net 0) s.pool) h

  choose_node-none :
      (conn : ℕ) (cache : ℤ) (key : Value) (hint : Option ClassName) (s : Client)
      → parts_of (cache_partition_mapping cache s.affinity).0 ≡ 0
      → (choose_node choice net later ask hashcode conn cache key hint s).0 ≡ ok (connection conn)
  unfolding choose_node
  choose_node-none conn cache key hint s h = rw (h, choose_node) refl

  take_mappings-last :
      (conn : ℕ) (r : Answer) (s : Client) (p : Option ProtocolContext) (c : Connection)
      (cs : List Connection)
      → reconnect_nodes later 0 s.pool.nodes s.pool.context ≡ (none, p, c ∷ cs)
      → take_mappings choice net later ask hashcode conn r s ≡ (
        ok (length cs),
        record {
          affinity = update_affinity r.version r.partition_mapping s.affinity;
          pool = record s.pool { nodes = c ∷ cs; context = p };
        },
      )
  unfolding take_mappings
  take_mappings-last conn r s p c cs done = rw (done, take_mappings, done) refl

  -- Behind an answer with the mappings, when no node raises on being reconnected and the cache has no
  -- partitions, the connection returned is the last of the pool, alive or not, and not the one
  -- that was chosen.
  pub behind_refresh-last :
      (cache : ℤ) (key : Value) (hint : Option ClassName) (conn : ℕ) (r : Answer) (s : Client)
      (p : Option ProtocolContext) (c : Connection) (cs : List Connection)
      → reconnect_nodes later 0 s.pool.nodes s.pool.context ≡ (none, p, c ∷ cs)
      → parts_of
          (cache_partition_mapping cache
            (update_affinity r.version r.partition_mapping s.affinity)).0
        ≡ 0
      → (behind_refresh choice net later ask hashcode cache key hint (mapped conn r) s).0
        ≡ ok (connection (length cs))
  unfolding behind_refresh take_mappings choose_node
  behind_refresh-last cache key hint conn r s p c cs done h =
      let taken = take_mappings-last conn r s p c cs done in
      rw (taken, behind_refresh, taken)
        (choose_node-none (length cs) cache key hint
          (record {
            affinity = update_affinity r.version r.partition_mapping s.affinity;
            pool = record s.pool { nodes = c ∷ cs; context = p };
          })
          h)
