-- ===== src/Manager/Leading.antt =====
-- A manager that leads: what its ticks, up to the end of its context, make of the store.
use kube_static_egress_ip.Prelude.{
  ◌≡◌, refl, sym, ℕ, zero, suc, String, true, List, [], ◌∷◌, ◌++◌, map, arith,
}
use mathlib.Core.List.{append-nil, append_assoc, map-map, map-id}
use kube_static_egress_ip.Effect.{
  Outcome, ok, err, panicked, exited, Settles, ◌>>=◌, attempt, or_fatal, logged, for_each,
}
use kube_static_egress_ip.Api.{Node, StaticEgressIp}
use kube_static_egress_ip.Host.{Host}
use kube_static_egress_ip.Cluster.{Cluster}
use kube_static_egress_ip.Manager.Safety.{choose_from-Settles}
use kube_static_egress_ip.Manager.Rounds.{
  Request, ApiLaws, all_wanted, choose_lem, assign_lem, round_requests,
}
use kube_static_egress_ip.Manager.Settled.{
  replaced, IsDistinct, settled, updated, all_updated, map-all_updated, IsDistinct-settled,
  all_wanted-settled, map-settled_again,
}
use kube_static_egress_ip.Manager.{
  Event, tick, done, choose_from, with_gateway, assign, round, lead,
}

module _ {W : Type 0} (k : Cluster W) (nodes : List Node) where
  open k use {list_nodes, list_egress_ips, update_egress_ip}

  -- An API server as in ApiLaws that accepts every update, with a store of the resources that the
  -- lister lists and that shows an update at once.
  pub record StoreLaws : Type 0 where
    pub api : ApiLaws k nodes
    pub stored : W → List StaticEgressIp
    pub list_answers : (w : W) → (list_egress_ips w).0 ≡ ok (stored w)
    pub stored-list_egress_ips : (w : W) → stored (list_egress_ips w).1 ≡ stored w
    pub stored-list_nodes : (w : W) → stored (list_nodes w).1 ≡ stored w
    pub stored-update :
        (e : StaticEgressIp) (w : W)
        → stored (update_egress_ip e.namespace e w).1 ≡ map (replaced e) (stored w)

-- So many ticks before the context ends.
abbrev pub ticks : ℕ → List Event → List Event
ticks zero l = l
ticks (suc n) l = tick ∷ ticks n l

abbrev pub repeated : ℕ → List Request → List Request
repeated zero l = []
repeated (suc n) l = l ++ repeated n l

module _ {W : Type 0} (h : Host W) (k : Cluster W) (nodes : List Node) (L : StoreLaws k nodes) where
  open k use {list_nodes, list_egress_ips, update_egress_ip}
  open L use {stored, api}
  open api use {requests}

  stored-assign :
      (e : StaticEgressIp) (w : W) → stored (assign h k e w).1 ≡ map (updated h nodes e) (stored w)
  unfolding assign logged attempt ◌>>=◌ updated
  stored-assign e w = go (choose_from h e nodes) refl (choose_from-Settles h e nodes)
    where
      go :
          (r : Outcome (String × String))
          → choose_from h e nodes ≡ r
          → Settles r
          → stored (assign h k e w).1 ≡ map (updated h nodes e) (stored w)
      go (ok g) q s = ground (
        arith,
        q,
        choose_lem h k nodes api e w,
        L.stored-list_nodes w,
        L.stored-update (with_gateway e g) (list_nodes w).1,
        api.update_settles e.namespace (with_gateway e g) (list_nodes w).1,
      )
      go (err x) q s =
          ground (arith, q, choose_lem h k nodes api e w, L.stored-list_nodes w, map-id (stored w))
      go (panicked m) q s = absurd s
      go (exited m) q s = absurd s

  stored-for_each :
      (l : List StaticEgressIp) (w : W)
      → stored (for_each (assign h k) l w).1 ≡ map (all_updated h nodes l) (stored w)
  unfolding for_each ◌>>=◌ all_updated
  stored-for_each [] w = sym (map-id (stored w))
  stored-for_each (e ∷ l) w = ground (
    arith,
    assign_lem h k nodes api e w,
    stored-assign e w,
    stored-for_each l (assign h k e w).1,
    map-map (all_updated h nodes l) (updated h nodes e) (stored w),
  )

  stored-round :
      (w : W) → IsDistinct (stored w) → stored (round h k w).1 ≡ map (settled h nodes) (stored w)
  unfolding round or_fatal ◌>>=◌
  stored-round w d = ground (
    arith,
    L.list_answers w,
    stored-for_each (stored w) (list_egress_ips w).1,
    L.stored-list_egress_ips w,
    map-all_updated h nodes (stored w) d,
  )

  -- One tick: it returns, gives each resource its gateway and sends the updates that are wanted.
  round_lem :
      (w : W)
      → IsDistinct (stored w)
      → ((round h k w).0 ≡ ok tt)
        × (stored (round h k w).1 ≡ map (settled h nodes) (stored w))
        × (requests (round h k w).1 ≡ requests w ++ all_wanted h nodes (stored w))
  round_lem w d =
      let (returns, sent) = round_requests h k nodes api (stored w) w (L.list_answers w) in
      (returns, stored-round w d, sent)

  -- A manager leads over resources with different namespaces and names, with an API server that
  -- accepts and shows each update at once and whose nodes stay the same: after one tick or more the
  -- end of its context makes the loop return, each resource then has the gateway that is chosen for
  -- it, and stays as it was if none can be; and every tick, also one after which nothing changes,
  -- has sent the same updates again.
  pub lead_settles :
      (n : ℕ) (l : List Event) (w : W)
      → IsDistinct (stored w)
      → ((lead h k (tick ∷ ticks n (done ∷ l)) w).0 ≡ ok true)
        × (stored (lead h k (tick ∷ ticks n (done ∷ l)) w).1 ≡ map (settled h nodes) (stored w))
        × (requests (lead h k (tick ∷ ticks n (done ∷ l)) w).1
            ≡ requests w ++ repeated (suc n) (all_wanted h nodes (stored w)))
  unfolding lead ◌>>=◌
  lead_settles zero l w d =
      ground (arith, round_lem w d, append-nil (all_wanted h nodes (stored w)))
  lead_settles (suc n) l w d =
      let w' = (round h k w).1 in
      let (returns, now, sent) = round_lem w d in
      let again = lead_settles n l w' (rw now (IsDistinct-settled h nodes (stored w) d)) in
      ground (
        arith,
        returns,
        again,
        now,
        sent,
        all_wanted-settled h nodes (stored w),
        map-settled_again h nodes (stored w),
        append_assoc (requests w) (all_wanted h nodes (stored w))
            (repeated (suc n) (all_wanted h nodes (stored w))),
      )
