-- ===== src/Manager/Rounds.antt =====
-- A round of the manager, over all resources: which updates it sends to the API server.
use kube_static_egress_ip.Prelude.{◌≡◌, refl, sym, String, List, [], ◌∷◌, ◌++◌, arith}
use mathlib.Core.List.{append-nil, append_assoc}
use kube_static_egress_ip.Effect.{
  Outcome, ok, err, panicked, exited, Settles, ◌>>=◌, attempt, on_error, or_fatal, logged, for_each,
}
use kube_static_egress_ip.Api.{Node, StaticEgressIp}
use kube_static_egress_ip.Host.{Host}
use kube_static_egress_ip.Cluster.{Cluster}
use kube_static_egress_ip.Manager.Safety.{choose_from-Settles}
use kube_static_egress_ip.Manager.{choose_from, choose_gateway_node, with_gateway, assign, round}

-- An update request: the namespace and the object.
abbrev pub Request : Type 0
Request = String × StaticEgressIp

module _ {W : Type 0} (k : Cluster W) where
  open k use {list_nodes, list_egress_ips, update_egress_ip}

  -- An API server whose nodes do not change while it is read and updated, and that answers the
  -- lists; the requests that it received are a view of the world, and an update may be refused.
  pub record ApiLaws (nodes : List Node) : Type 0 where
    pub requests : W → List Request
    pub list_nodes_answers : (w : W) → (list_nodes w).0 ≡ ok nodes
    pub requests-list_nodes : (w : W) → requests (list_nodes w).1 ≡ requests w
    pub requests-list_egress_ips : (w : W) → requests (list_egress_ips w).1 ≡ requests w
    pub update_settles :
        (n : String) (e : StaticEgressIp) (w : W) → Settles (update_egress_ip n e w).0
    pub requests-update :
        (n : String) (e : StaticEgressIp) (w : W)
        → requests (update_egress_ip n e w).1 ≡ requests w ++ (n, e) ∷ []

module _ {W : Type 0} (h : Host W) (nodes : List Node) where
  -- The request for one resource: none when no gateway can be chosen.
  abbrev pub wanted : StaticEgressIp → List Request
  wanted e = elim (choose_from h e nodes) [ ok g ↦ (e.namespace, with_gateway e g) ∷ [] | _ ↦ [] ]

  abbrev pub all_wanted : List StaticEgressIp → List Request
  all_wanted [] = []
  all_wanted (e ∷ l) = wanted e ++ all_wanted l

module _ {W : Type 0} (h : Host W) (k : Cluster W) (nodes : List Node) (L : ApiLaws k nodes) where
  open k use {list_nodes, list_egress_ips, update_egress_ip}
  open L use {requests}

  pub choose_lem :
      (e : StaticEgressIp) (w : W)
      → choose_gateway_node h k e w ≡ (choose_from h e nodes, (list_nodes w).1)
  unfolding choose_gateway_node on_error ◌>>=◌
  choose_lem e w = ground (arith, L.list_nodes_answers w)

  -- One resource: what its update asks for is sent, and the loop goes on.
  pub assign_lem :
      (e : StaticEgressIp) (w : W)
      → ((assign h k e w).0 ≡ ok tt)
        × (requests (assign h k e w).1 ≡ requests w ++ wanted h nodes e)
  unfolding assign logged attempt ◌>>=◌
  assign_lem e w = go (choose_from h e nodes) refl (choose_from-Settles h e nodes)
    where
      go :
          (r : Outcome (String × String))
          → choose_from h e nodes ≡ r
          → Settles r
          → ((assign h k e w).0 ≡ ok tt)
            × (requests (assign h k e w).1 ≡ requests w ++ wanted h nodes e)
      go (ok g) q s = ground (
        arith,
        q,
        choose_lem e w,
        L.requests-list_nodes w,
        L.requests-update e.namespace (with_gateway e g) (list_nodes w).1,
        L.update_settles e.namespace (with_gateway e g) (list_nodes w).1,
      )
      go (err x) q s =
          ground (arith, q, choose_lem e w, L.requests-list_nodes w, append-nil (requests w))
      go (panicked m) q s = absurd s
      go (exited m) q s = absurd s

  pub for_each-assign :
      (l : List StaticEgressIp) (w : W)
      → ((for_each (assign h k) l w).0 ≡ ok tt)
        × (requests (for_each (assign h k) l w).1 ≡ requests w ++ all_wanted h nodes l)
  unfolding for_each ◌>>=◌
  for_each-assign [] w = (refl, sym (append-nil (requests w)))
  for_each-assign (e ∷ l) w = ground (
    arith,
    assign_lem e w,
    for_each-assign l (assign h k e w).1,
    append_assoc (requests w) (wanted h nodes e) (all_wanted h nodes l),
  )

  -- With an API server that answers the lists and whose nodes stay the same during the round, a
  -- round over the resources that the store lists returns, and sends exactly one update for each
  -- resource for which a gateway can be chosen, in the order of the list, with the chosen node and
  -- address and all else unchanged; a resource without a choice and an update that is refused do
  -- not stop the others.
  pub round_requests :
      (l : List StaticEgressIp) (w : W)
      → (list_egress_ips w).0 ≡ ok l
      → ((round h k w).0 ≡ ok tt) × (requests (round h k w).1 ≡ requests w ++ all_wanted h nodes l)
  unfolding round or_fatal ◌>>=◌
  round_requests l w listed =
      ground (arith, for_each-assign l (list_egress_ips w).1, L.requests-list_egress_ips w)
