-- ===== src/Affinity/Best/Rounds.antt =====
-- The loop of `get_best_node` that asks for the mappings: when it ends, and with what.
use ignite_python_thin_clien.Base.{
  ℕ, zero, suc, ◌+◌, ◌≡◌, refl, subst, ap, arith, List, true, false, ℤ, some, In, ◌∷◌, inl, inr,
  ◌⊎◌, Bool-cases, if◌then◌else◌,
}
use ignite_python_thin_clien.Result.{Result, Error, ok, err}
use ignite_python_thin_clien.Value.{Value, ClassName}
use ignite_python_thin_clien.Pool.{Pool, Network, random_node}
use ignite_python_thin_clien.Pool.Laws.{AliveAt, ReturnsAlive, random_node-ReturnsAlive}
use ignite_python_thin_clien.Affinity.Best.{
  Answer, Refreshed, mapped, without, failed, is_connection_error, is_cache_error, get_affinity,
  refresh,
}
use ignite_python_thin_clien.Affinity.Best.Laws.{Result-cases}

module _ (choice : ℕ → List ℕ → ℕ) (net : ℕ → Network) (later : Network)
    (ask : ℕ → ℕ → List ℤ → ℕ → Pool → Result Answer × Pool)
    (hashcode : ClassName → Value → Result ℤ) where
  -- In some round the connection `j` was alive, was asked, and gave this, leaving the pool `p`.
  abbrev pub Asked : List ℤ → ℕ → Result Answer → Pool → Type 0
  Asked caches j answer p =
      (round : ℕ) × (q : Pool) × AliveAt q j × (get_affinity (ask round j caches) q ≡ (answer, p))

  -- Mappings, and the lack of them, are reported with the connection that was asked; an error that is
  -- reported is that of asking, or that of choosing another node.
  abbrev pub Sound : List ℤ → Refreshed × Pool → Type 0
  Sound caches (mapped j r, p) = Asked caches j (ok r) p
  Sound caches (without j, p) = (e : Error) × Asked caches j (err e) p × (is_cache_error e ≡ true)
  Sound caches (failed e, p) =
      ((j : ℕ) × Asked caches j (err e) p
        × (is_connection_error e ≡ false)
        × (is_cache_error e ≡ false))
      ⊎ ((round : ℕ) × (q : Pool) × (random_node choice (net round) q ≡ (err e, p)))

  asked :
      (round : ℕ) (caches : List ℤ) (conn : ℕ) (p : Pool) (answer : Result Answer)
      → AliveAt p conn
      → (get_affinity (ask round conn caches) p).0 ≡ answer
      → Asked caches conn answer (get_affinity (ask round conn caches) p).1
  asked round caches conn p answer up e =
      (round, p, up, ap (λ x. (x, (get_affinity (ask round conn caches) p).1)) e)

  stopped-Sound :
      (round : ℕ) (caches : List ℤ) (conn : ℕ) (p : Pool) (e : Error)
      → AliveAt p conn
      → (get_affinity (ask round conn caches) p).0 ≡ err e
      → is_connection_error e ≡ false
      → Sound caches (
        (if is_cache_error e then without conn else failed e),
        (get_affinity (ask round conn caches) p).1,
      )
  stopped-Sound round caches conn p e up raised n = elim (Bool-cases (is_cache_error e)) [
    | inl t ↦ rw (t, Sound) (e, asked round caches conn p (err e) up raised, t)
    | inr f ↦ rw (f, Sound) (inl (conn, asked round caches conn p (err e) up raised, n, f))
  ]

  next-AliveAt :
      (member : (j : ℕ) (js : List ℕ) → In (choice j js) (j ∷ js)) (round j : ℕ) (q : Pool)
      → (random_node choice (net round) q).0 ≡ ok j
      → AliveAt (random_node choice (net round) q).1 j
  next-AliveAt member round j q e =
      subst (λ x. ReturnsAlive (x, (random_node choice (net round) q).1)) e
        (random_node-ReturnsAlive choice member (net round) q)

  -- When `random.choice` takes a member of what it is given, the loop that asks for the mappings,
  -- started in some round with a connection that is alive, ends within `k + 1` rounds, if asking in
  -- the round that is `k` later raises no connection error, whichever connection and pool it is asked
  -- with. What it ends with was obtained from a connection that was alive when it was asked, and is
  -- reported with that connection, or it is the error with which no other node could be chosen.
  pub refresh-Sound :
      (member : (j : ℕ) (js : List ℕ) → In (choice j js) (j ∷ js)) (k round last : ℕ)
      (caches : List ℤ) (conn : ℕ) (p : Pool)
      → AliveAt p conn
      → last ≡ round + k
      → ((j : ℕ) (q : Pool) (e : Error)
          → (get_affinity (ask last j caches) q).0 ≡ err e
          → is_connection_error e ≡ false)
      → (done : Refreshed × Pool) × (refresh choice net later ask hashcode
            (suc k)
            round
            caches
            conn
            p
          ≡ some done)
        × Sound caches done
  unfolding refresh
  refresh-Sound member zero round last caches conn p up l h =
      let same : round ≡ last = omega arith in
      elim (Result-cases (get_affinity (ask round conn caches) p).0) [
        | inl (r, e) ↦ rw (e, refresh) (_, refl, asked round caches conn p (ok r) up e)
        | inr (e', e) ↦
            let n =
              h conn p e' (subst (λ x. (get_affinity (ask x conn caches) p).0 ≡ err e') same e) in
            rw (e, refresh, n) (_, refl, stopped-Sound round caches conn p e' up e n)
      ]
  refresh-Sound member (suc k) round last caches conn p up l h =
      let tried = get_affinity (ask round conn caches) p in
      let next = random_node choice (net round) tried.1 in
      elim (Result-cases tried.0) [
        | inl (r, e) ↦ rw (e, refresh) (_, refl, asked round caches conn p (ok r) up e)
        | inr (e', e) ↦ elim (Bool-cases (is_connection_error e')) [
          | inl t ↦ elim (Result-cases next.0) [
            | inl (j, f) ↦
                rw (e, refresh, t, f)
                  (refresh-Sound member k (suc round) last caches j next.1
                    (next-AliveAt member round j tried.1 f) (omega arith) h)
            | inr (e'', f) ↦
                rw (e, refresh, t, f) (_, refl, inr (round, tried.1, ap (λ x. (x, next.1)) f))
          ]
          | inr n ↦ rw (e, refresh, n) (_, refl, stopped-Sound round caches conn p e' up e n)
        ]
      ]
