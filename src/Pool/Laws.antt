-- ===== src/Pool/Laws.antt =====
-- A node that `random_node` returns is alive.
use ignite_python_thin_clien.Base.{
  ℕ, subst, zero, suc, ◌+◌, ◌≡◌, ◌⊎◌, refl, arith, Bool, true, false, List, [], ◌∷◌, length,
  get_elem?, set, In, inl, inr, none, some, Bool-cases, Option-cases, if◌then◌else◌,
}
use ignite_python_thin_clien.Result.{
  Result, ok, err, authentication_error, index_error, reconnect_error,
}
use ignite_python_thin_clien.Connection.State.{
  Connection, alive, close, returns, raises, connect, is_connection_error, Outcome, ConnectError,
}
use ignite_python_thin_clien.Connection.State.Laws.{connect-IsUp}
use ignite_python_thin_clien.Pool.{
  Network, Pool, indices, advance, try_nodes, current_or_next, alive_nodes, reconnect_nodes,
  choose_alive, get_random_node, partition_aware, random_node,
}

-- The node at `i` is there and alive.
abbrev pub AliveAt : Pool → ℕ → Type 0
AliveAt s i = (c : Connection) × (get_elem? s.nodes i ≡ some c) × (alive c ≡ true)

pub get_elem-set {ℓ} :
    {A : Type ℓ} (xs : List A) (i : ℕ) (x y : A)
    → get_elem? xs i ≡ some x
    → get_elem? (set xs i y) i ≡ some y
get_elem-set [] i x y h = absurd cc
get_elem-set (z ∷ xs) zero x y h = refl
get_elem-set (z ∷ xs) (suc i) x y h = get_elem-set xs i x y h

-- What a call has returned, if a node, is alive in the pool that the call leaves.
abbrev pub ReturnsAlive : Result ℕ × Pool → Type 0
ReturnsAlive (ok i, s) = AliveAt s i
ReturnsAlive (err e, s) = Unit {0}

Outcome-cases {ℓ} :
    {A : Type ℓ} (o : Outcome A)
    → ((a : A) × (o ≡ returns a)) ⊎ ((e : ConnectError) × (o ≡ raises e))
Outcome-cases (returns a) = inl (a, refl)
Outcome-cases (raises e) = inr (e, refl)

as_equal : (x y : Result ℕ × Pool) → x ≡ y → ReturnsAlive y → ReturnsAlive x
as_equal x y e r = rw e r

try_nodes-ReturnsAlive :
    (net : Network) (is : List ℕ) (s : Pool) → ReturnsAlive (try_nodes net is s)
unfolding try_nodes
try_nodes-ReturnsAlive net [] s = tt
try_nodes-ReturnsAlive net (i ∷ rest) s = elim (Option-cases (get_elem? s.nodes i)) [
  | inl absent ↦
      as_equal (try_nodes net (i ∷ rest) s) (err index_error, s) (rw (try_nodes, absent)) tt
  | inr (c, found) ↦
      let done = connect s.context (net i).0 (net i).1 c in
      let s' = record s { nodes = set s.nodes i done.connection; context = done.context } in
      elim (Outcome-cases done.outcome) [
        | inl (r, e) ↦
            as_equal (try_nodes net (i ∷ rest) s) (ok i, s') (rw (try_nodes, found, e))
              (
                done.connection,
                get_elem-set s.nodes i c done.connection found,
                (connect-IsUp s.context (net i).0 (net i).1 c (r, e)).0,
              )
        | inr (x, e) ↦ elim (Bool-cases (is_connection_error x)) [
          | inl t ↦
              as_equal (try_nodes net (i ∷ rest) s) (try_nodes net rest s')
                (rw (try_nodes, found, e, t)) (try_nodes-ReturnsAlive net rest s')
          | inr f ↦
              as_equal (try_nodes net (i ∷ rest) s) (err authentication_error, s')
                (rw (try_nodes, found, e, f)) tt
        ]
      ]
]

alive_nodes-In :
    (k j : ℕ) (cs : List Connection)
    → In j (alive_nodes k cs)
    → (m : ℕ) × (j ≡ k + m) × (c : Connection) × (get_elem? cs m ≡ some c) × (alive c ≡ true)
unfolding alive_nodes
alive_nodes-In k j [] h = absurd h
alive_nodes-In k j (c ∷ cs) h = seen (alive c) refl (alive_nodes-In (suc k) j cs) h
  where
    later :
        ((m : ℕ) × (j ≡ suc k + m)
          × (d : Connection) × (get_elem? cs m ≡ some d)
          × (alive d ≡ true))
        → (m : ℕ) × (j ≡ k + m)
          × (d : Connection) × (get_elem? (c ∷ cs) m ≡ some d)
          × (alive d ≡ true)
    later (m, e, d, found, up) = (suc m, omega arith, d, found, up)

    seen :
        (b : Bool)
        → alive c ≡ b
        → (In j (alive_nodes (suc k) cs)
            → (m : ℕ) × (j ≡ suc k + m)
              × (d : Connection) × (get_elem? cs m ≡ some d)
              × (alive d ≡ true))
        → In j (if b then k ∷ alive_nodes (suc k) cs else alive_nodes (suc k) cs)
        → (m : ℕ) × (j ≡ k + m)
          × (d : Connection) × (get_elem? (c ∷ cs) m ≡ some d)
          × (alive d ≡ true)
    seen true e ih (inl here) = (0, omega arith, c, refl, e)
    seen true e ih (inr rest) = later (ih rest)
    seen false e ih h = later (ih h)

current_or_next-ReturnsAlive : (net : Network) (s : Pool) → ReturnsAlive (current_or_next net s)
unfolding current_or_next
current_or_next-ReturnsAlive net s = elim (Option-cases (get_elem? s.nodes s.current_node)) [
  | inl absent ↦
      as_equal (current_or_next net s) (err index_error, s) (rw (current_or_next, absent)) tt
  | inr (c, found) ↦ elim (Bool-cases (alive c)) [
    | inl up ↦
        as_equal (current_or_next net s) (ok s.current_node, s) (rw (current_or_next, found, up))
          (c, found, up)
    | inr down ↦
        let next = advance s.current_node (length s.nodes) in
        let is = indices next (length s.nodes) in
        let s' = record s { nodes = set s.nodes s.current_node (close c); current_node = next } in
        as_equal (current_or_next net s) (try_nodes net is s') (rw (current_or_next, found, down))
          (try_nodes-ReturnsAlive net is s')
  ]
]

module _ (choice : ℕ → List ℕ → ℕ)
    (choice-In : (j : ℕ) (js : List ℕ) → In (choice j js) (j ∷ js)) where
  choose_alive-AliveAt :
      (cs : List Connection) (j : ℕ)
      → choose_alive choice cs ≡ some j
      → (c : Connection) × (get_elem? cs j ≡ some c) × (alive c ≡ true)
  choose_alive-AliveAt cs j e = from_alive (alive_nodes 0 cs) refl e
    where
      coerced :
          (k : ℕ) (ks : List ℕ) (i : ℕ)
          → choice k ks ≡ i
          → In (choice k ks) (k ∷ ks)
          → In i (k ∷ ks)
      coerced k ks i same h = subst (λ x. In x (k ∷ ks)) same h

      chosen :
          (k : ℕ) (ks : List ℕ)
          → alive_nodes 0 cs ≡ k ∷ ks
          → choice k ks ≡ j
          → In j (alive_nodes 0 cs)
      chosen k ks q same = rw q (coerced k ks j same (choice-In k ks))

      from_alive :
          (l : List ℕ)
          → alive_nodes 0 cs ≡ l
          → elim l [ [] ↦ none | k ∷ ks ↦ some (choice k ks) ] ≡ some j
          → (c : Connection) × (get_elem? cs j ≡ some c) × (alive c ≡ true)
      from_alive [] q h = absurd cc
      from_alive (k ∷ ks) q h =
          let same : choice k ks ≡ j = cc in
          let (m, at_m, d, found, up) = alive_nodes-In 0 j cs (chosen k ks q same) in
          let same_index : j ≡ m = omega arith in rw same_index (d, found, up)

  get_random_node-ReturnsAlive :
      (net : Network) (s : Pool) → ReturnsAlive (get_random_node choice net s)
  unfolding get_random_node
  get_random_node-ReturnsAlive net s = elim (Option-cases (choose_alive choice s.nodes)) [
    | inr (j, e) ↦
        as_equal (get_random_node choice net s) (ok j, s) (rw (get_random_node, e))
          (choose_alive-AliveAt s.nodes j e)
    | inl n ↦
        let done = reconnect_nodes net 0 s.nodes s.context in
        let s' = record s { nodes = done.2; context = done.1 } in
        elim (Option-cases done.0) [
          | inr (x, e) ↦
              as_equal (get_random_node choice net s) (err authentication_error, s')
                (rw (get_random_node, n, e)) tt
          | inl m ↦ elim (Option-cases (choose_alive choice s'.nodes)) [
            | inr (j, e) ↦
                as_equal (get_random_node choice net s) (ok j, s') (rw (get_random_node, n, m, e))
                  (choose_alive-AliveAt s'.nodes j e)
            | inl e ↦
                as_equal (get_random_node choice net s) (err reconnect_error, s')
                  (rw (get_random_node, n, m, e)) tt
          ]
        ]
  ]

  -- When `random.choice` takes a member of what it is given, a node that `random_node` returns is
  -- alive, with partition awareness or without, whatever state the pool was in and whatever the
  -- network does.
  pub random_node-ReturnsAlive :
      (net : Network) (s : Pool) → ReturnsAlive (random_node choice net s)
  unfolding random_node
  random_node-ReturnsAlive net s = elim (Bool-cases (partition_aware s)) [
    | inl t ↦
        as_equal (random_node choice net s) (get_random_node choice net s) (rw t)
          (get_random_node-ReturnsAlive net s)
    | inr f ↦
        as_equal (random_node choice net s) (current_or_next net s) (rw f)
          (current_or_next-ReturnsAlive net s)
  ]
