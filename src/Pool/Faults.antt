-- ===== src/Pool/Faults.antt =====
-- Failover where the nodes refuse a TCP connection.
use ignite_python_thin_clien.Base.{
  ℕ, suc, ◌-◌, ◌<◌, ◌≡◌, ◌≢◌, ◌∙◌, refl, ap, subst, true, false, List, ◌∷◌, ◌++◌, length, get_elem?,
  set, All, some,
}
use ignite_python_thin_clien.Result.{ok, err, reconnect_error}
use ignite_python_thin_clien.Connection.State.{Connection, alive, refused, close}
use ignite_python_thin_clien.Pool.{
  Pool, Network, partition_aware, range_from, indices, advance, try_nodes, current_or_next,
  random_node,
}
use ignite_python_thin_clien.Pool.Laws.{AliveAt, get_elem-set}
use ignite_python_thin_clien.Pool.Refused.{
  length-set, lt-get_elem, get_elem-other, unfailed-alive, indices-below, indices-first, advance-lt,
  refused_at, try_nodes-next, try_nodes-refused,
}

-- The current node closed, and the next one current.
abbrev advanced : Connection → Pool → Pool
advanced c s = record s {
  nodes = set s.nodes s.current_node (close c);
  current_node = advance s.current_node (length s.nodes);
}

-- A current node that counts as alive is returned.
current-returned :
    (choice : ℕ → List ℕ → ℕ) (net : Network) (s : Pool)
    → partition_aware s ≡ false
    → AliveAt s s.current_node
    → random_node choice net s ≡ (ok s.current_node, s)
unfolding random_node current_or_next
current-returned choice net s unaware (c, found, up) = rw (unaware, current_or_next, found, up) refl

module _ (choice : ℕ → List ℕ → ℕ) (net : Network) (s : Pool) (c : Connection)
    (unaware : partition_aware s ≡ false) (current : get_elem? s.nodes s.current_node ≡ some c)
    (down : alive c ≡ false) where
  random_node-advanced :
      random_node choice net s
      ≡ try_nodes net
          (indices (advance s.current_node (length s.nodes)) (length s.nodes))
          (advanced c s)
  unfolding random_node current_or_next
  random_node-advanced = rw (unaware, current_or_next, current, down) refl

  next-below : advance s.current_node (length s.nodes) < length s.nodes
  next-below =
      advance-lt s.current_node (length s.nodes) (lt-get_elem s.nodes s.current_node c current)

  valid-advanced :
      All
        (λ j. j < length (advanced c s).nodes)
        (indices (advance s.current_node (length s.nodes)) (length s.nodes))
  valid-advanced =
      rw (length-set s.nodes s.current_node (close c))
        (indices-below (advance s.current_node (length s.nodes)) (length s.nodes) next-below)

  -- Without partition awareness, where the current node is not alive and every node refuses a new TCP
  -- connection, `random_node` raises that it is out of nodes, whatever the other nodes are: one that is
  -- alive is connected to anew, and not returned.
  pub random_node-refused :
      ((i : ℕ) → (net i).0 ≡ refused) → (random_node choice net s).0 ≡ err reconnect_error
  random_node-refused refuses =
      rw random_node-advanced
        (try_nodes-refused net refuses
          (indices (advance s.current_node (length s.nodes)) (length s.nodes)) (advanced c s)
          valid-advanced).0

  left :
      (d : Connection)
      → get_elem? s.nodes (advance s.current_node (length s.nodes)) ≡ some d
      → d.failed ≡ false
      → s.current_node ≢ advance s.current_node (length s.nodes)
      → ((i : ℕ) → (net i).0 ≡ refused)
      → ((random_node choice net s).0 ≡ err reconnect_error)
        × ((random_node choice net s).1.context ≡ s.context)
        × ((random_node choice net s).1.is_asked ≡ s.is_asked)
        × ((random_node choice net s).1.current_node ≡ advance s.current_node (length s.nodes))
        × AliveAt (random_node choice net s).1 (advance s.current_node (length s.nodes))
  left d next sound other refuses =
      let n = advance s.current_node (length s.nodes) in
      let rest = range_from (suc n) (length s.nodes - suc n) ++ range_from 0 n in
      let first = indices-first n (length s.nodes) next-below in
      let found : get_elem? (advanced c s).nodes n ≡ some d =
        get_elem-other s.nodes s.current_node n (close c) other ∙ next in
      let valid : All (λ j. j < length (advanced c s).nodes) (n ∷ rest) =
        subst (λ is. All (λ j. j < length (advanced c s).nodes) is) first valid-advanced in
      let refused_next = refused_at n d (advanced c s) in
      let (raised, context, is_asked, now, kept) =
        try_nodes-refused net refuses rest refused_next
          (rw (length-set (advanced c s).nodes n (record d { has_socket = true })) valid.1) in
      rw (random_node-advanced, first, try_nodes-next net refuses n rest (advanced c s) d found)
        (
          raised,
          context,
          is_asked,
          now,
          kept n (
            _,
            get_elem-set (advanced c s).nodes n d (record d { has_socket = true }) found,
            unfailed-alive d sound,
          ),
        )

  -- Without partition awareness, where the current node is not alive, the node behind it is another
  -- one that has not failed, and every node refuses a new TCP connection, `random_node` raises that it
  -- is out of nodes, and the next call returns the node behind the current one, whatever the network
  -- does then: the socket of the refused connection is kept, and counts as alive.
  pub refused_node-returned :
      (net' : Network) (d : Connection)
      → get_elem? s.nodes (advance s.current_node (length s.nodes)) ≡ some d
      → d.failed ≡ false
      → s.current_node ≢ advance s.current_node (length s.nodes)
      → ((i : ℕ) → (net i).0 ≡ refused)
      → ((random_node choice net s).0 ≡ err reconnect_error)
        × ((random_node choice net' (random_node choice net s).1).0
            ≡ ok (advance s.current_node (length s.nodes)))
  refused_node-returned net' d next sound other refuses =
      let (raised, context, is_asked, now, up) = left d next sound other refuses in
      (
        raised,
        ap (λ r. r.0)
              (current-returned choice net' (random_node choice net s).1
                (unfold partition_aware in rw (context, is_asked) unaware) (rw now up))
            ∙ ap ok now,
      )
