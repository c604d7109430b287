-- ===== src/Pool/Refused.antt =====
-- Trying nodes that refuse a TCP connection.
use ignite_python_thin_clien.Base.{
  ℕ, zero, suc, ◌+◌, ◌-◌, ◌<◌, ◌≤◌, ◌≡◌, ◌≢◌, refl, arith, subst, true, false, List, [], ◌∷◌, ◌++◌,
  length, get_elem?, set, All, Option, some, none,
}
use ignite_python_thin_clien.Result.{err, reconnect_error}
use ignite_python_thin_clien.Connection.Protocol.{ProtocolContext}
use ignite_python_thin_clien.Connection.State.{
  Connection, alive, Attempt, refused, raises, connection_error, connect, connect_with,
  connect_version, handle, is_connection_error,
}
use ignite_python_thin_clien.Pool.{Pool, Network, range_from, indices, advance, try_nodes}
use ignite_python_thin_clien.Pool.Laws.{AliveAt}

-- A socket is made, and stays.
connect-refused :
    (p : Option ProtocolContext) (second : Attempt) (c : Connection)
    → connect p refused second c ≡ record {
      outcome = raises connection_error;
      context = p;
      connection = record c { has_socket = true };
    }
unfolding connect connect_with connect_version handle
connect-refused none second c = refl
connect-refused (some p) second c = refl

pub length-set {ℓ} : {A : Type ℓ} (xs : List A) (i : ℕ) (x : A) → length (set xs i x) ≡ length xs
length-set [] i x = refl
length-set (y ∷ ys) zero x = refl
length-set (y ∷ ys) (suc i) x = omega (arith, length-set ys i x)

get_elem-lt {ℓ} :
    {A : Type ℓ} (xs : List A) (i : ℕ) → i < length xs → (x : A) × (get_elem? xs i ≡ some x)
get_elem-lt [] i h = absurd (omega arith)
get_elem-lt (x ∷ xs) zero h = (x, refl)
get_elem-lt (x ∷ xs) (suc i) h = get_elem-lt xs i (omega arith)

pub lt-get_elem {ℓ} :
    {A : Type ℓ} (xs : List A) (i : ℕ) (x : A) → get_elem? xs i ≡ some x → i < length xs
lt-get_elem [] i x e = cc
lt-get_elem (y ∷ ys) zero x e = omega arith
lt-get_elem (y ∷ ys) (suc i) x e = let h : i < length ys = lt-get_elem ys i x e in omega arith

pub get_elem-other {ℓ} :
    {A : Type ℓ} (xs : List A) (i j : ℕ) (x : A) → i ≢ j → get_elem? (set xs i x) j ≡ get_elem? xs j
get_elem-other [] i j x ne = refl
get_elem-other (y ∷ ys) zero zero x ne = absurd (ne refl)
get_elem-other (y ∷ ys) zero (suc j) x ne = refl
get_elem-other (y ∷ ys) (suc i) zero x ne = refl
get_elem-other (y ∷ ys) (suc i) (suc j) x ne = get_elem-other ys i j x (λ e. ne (omega arith))

pub unfailed-alive :
    (c : Connection) → c.failed ≡ false → alive (record c { has_socket = true }) ≡ true
unfolding alive
unfailed-alive c h = rw h

alive-unfailed : (c : Connection) → alive c ≡ true → c.failed ≡ false
unfolding alive
alive-unfailed c h = ground arith

-- A connection that counts as alive still does where any is given a socket.
still_alive :
    (cs : List Connection) (i j : ℕ) (b c : Connection)
    → get_elem? cs i ≡ some b
    → get_elem? cs j ≡ some c
    → alive c ≡ true
    → (d : Connection) × (get_elem? (set cs i (record b { has_socket = true })) j ≡ some d)
      × (alive d ≡ true)
still_alive [] i j b c e f up = cc
still_alive (d ∷ ds) zero zero b c e f up =
    let same : c ≡ b = cc in
    (_, refl, unfailed-alive b (alive-unfailed b (subst (λ x. alive x ≡ true) same up)))
still_alive (d ∷ ds) zero (suc j) b c e f up = (c, f, up)
still_alive (d ∷ ds) (suc i) zero b c e f up = (c, f, up)
still_alive (d ∷ ds) (suc i) (suc j) b c e f up = still_alive ds i j b c e f up

-- The pool with a connection whose TCP connection was refused.
abbrev pub refused_at : ℕ → Connection → Pool → Pool
refused_at i c s = record s { nodes = set s.nodes i (record c { has_socket = true }) }

module _ (net : Network) (refuses : (i : ℕ) → (net i).0 ≡ refused) where
  pub try_nodes-next :
      (i : ℕ) (rest : List ℕ) (s : Pool) (c : Connection)
      → get_elem? s.nodes i ≡ some c
      → try_nodes net (i ∷ rest) s ≡ try_nodes net rest (refused_at i c s)
  unfolding try_nodes is_connection_error
  try_nodes-next i rest s c found =
      let e : connect s.context (net i).0 (net i).1 c ≡ record {
        outcome = raises connection_error;
        context = s.context;
        connection = record c { has_socket = true };
      } =
        rw (refuses i) (connect-refused s.context (net i).1 c) in
      rw (found, try_nodes, e, try_nodes, e) refl

  -- The nodes that are tried are all refused; a node that counts as alive still does.
  pub try_nodes-refused :
      (is : List ℕ) (s : Pool)
      → All (λ i. i < length s.nodes) is
      → ((try_nodes net is s).0 ≡ err reconnect_error)
        × ((try_nodes net is s).1.context ≡ s.context)
        × ((try_nodes net is s).1.is_asked ≡ s.is_asked)
        × ((try_nodes net is s).1.current_node ≡ s.current_node)
        × ((j : ℕ) → AliveAt s j → AliveAt (try_nodes net is s).1 j)
  try_nodes-refused [] s h = unfold try_nodes in (refl, refl, refl, refl, λ j up. up)
  try_nodes-refused (i ∷ rest) s (h, hs) =
      let (c, found) = get_elem-lt s.nodes i h in
      let valid : All (λ j. j < length (refused_at i c s).nodes) rest =
        rw (length-set s.nodes i (record c { has_socket = true })) hs in
      let (raised, context, is_asked, current, kept) =
        try_nodes-refused rest (refused_at i c s) valid in
      rw (try_nodes-next i rest s c found) (
        raised,
        context,
        is_asked,
        current,
        λ j up. kept j (still_alive s.nodes i j c up.0 found up.1 up.2),
      )

range_from-below : (i k n : ℕ) → i + k ≤ n → All (λ j. j < n) (range_from i k)
range_from-below i zero n h = tt
range_from-below i (suc k) n h = (omega arith, range_from-below (suc i) k n (omega arith))

append-below :
    (n : ℕ) (xs ys : List ℕ)
    → All (λ j. j < n) xs
    → All (λ j. j < n) ys
    → All (λ j. j < n) (xs ++ ys)
append-below n [] ys h g = g
append-below n (x ∷ xs) ys (h, hs) g = (h, append-below n xs ys hs g)

pub indices-below : (current n : ℕ) → current < n → All (λ j. j < n) (indices current n)
indices-below current n h =
    append-below n (range_from current (n - current)) (range_from 0 current)
      (range_from-below current (n - current) n (omega arith))
      (range_from-below 0 current n (omega arith))

pub indices-first :
    (current n : ℕ)
    → current < n
    → indices current n
      ≡ current ∷ (range_from (suc current) (n - suc current) ++ range_from 0 current)
indices-first current n h = let e : n - current ≡ suc (n - suc current) = omega arith in rw e refl

pub advance-lt : (current n : ℕ) → current < n → advance current n < n
advance-lt current n h = ground arith
