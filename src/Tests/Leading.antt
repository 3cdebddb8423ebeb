-- ===== src/Tests/Leading.antt =====
-- A leading manager, pkg/ha/gateway_manager.go, over a store that shows each update.
use kube_static_egress_ip.Prelude.{◌≡◌, refl, Bool, true, List, [], ◌∷◌, ◌++◌, map}
use kube_static_egress_ip.Effect.{Outcome, ok, pure}
use kube_static_egress_ip.Api.{StaticEgressIp}
use kube_static_egress_ip.Cluster.{Cluster}
use kube_static_egress_ip.Utils.{ip_text, get_node_ip, lookup, append_address, group_addresses}
use kube_static_egress_ip.Manager.{
  name_gateway, choose_from, with_gateway, ready_after, ready_until_break, is_master,
  current_is_ready, scan_node, scan_nodes, first_ready, deref, tick, done, lead,
}
use kube_static_egress_ip.Manager.Rounds.{Request}
use kube_static_egress_ip.Manager.Settled.{replaced, same_key, has_key, IsDistinct, settled}
use kube_static_egress_ip.Manager.Leading.{StoreLaws, lead_settles}
use kube_static_egress_ip.Tests.Inert.{inert, empty_cluster}
use kube_static_egress_ip.Tests.Manager.{master, worker, new_resource}

-- The resources of the store, and the updates that were sent.
abbrev Store : Type 0
Store = List StaticEgressIp × List Request

abbrev storing : Cluster Store
storing = record (empty_cluster {W = Store}) {
  list_nodes = pure (master ∷ worker ∷ []);
  list_egress_ips = λ w. (ok w.0, w);
  update_egress_ip = λ namespace e w. (ok tt, (map (replaced e) w.0, w.1 ++ (namespace, e) ∷ []));
}

abbrev storing_laws : StoreLaws storing (master ∷ worker ∷ [])
storing_laws = record {
  api = record {
    requests = λ w. w.1;
    list_nodes_answers = λ w. refl;
    requests-list_nodes = λ w. refl;
    requests-list_egress_ips = λ w. refl;
    update_settles = λ n e w. tt;
    requests-update = λ n e w. refl;
  };
  stored = λ w. w.0;
  list_answers = λ w. refl;
  stored-list_egress_ips = λ w. refl;
  stored-list_nodes = λ w. refl;
  stored-update = λ e w. refl;
}

abbrev other_resource : StaticEgressIp
other_resource = record new_resource { name = "other" }

abbrev given_worker : StaticEgressIp → StaticEgressIp
given_worker e = with_gateway e ("uid-1", "192.168.1.201")

abbrev both : List Request
both = ("default", given_worker new_resource) ∷ ("default", given_worker other_resource) ∷ []

abbrev two_ticks : Outcome Bool × Store
two_ticks = lead inert storing (tick ∷ tick ∷ done ∷ []) (new_resource ∷ other_resource ∷ [], [])

lead_settles_example :
    (two_ticks.0 ≡ ok true)
    × (two_ticks.1.0 ≡ given_worker new_resource ∷ given_worker other_resource ∷ [])
    × (two_ticks.1.1 ≡ both ++ both)
unfolding choose_from scan_node scan_nodes first_ready deref current_is_ready ready_after is_master
    ready_until_break name_gateway get_node_ip lookup append_address group_addresses ip_text
    same_key has_key IsDistinct settled
lead_settles_example =
    lead_settles inert storing (master ∷ worker ∷ []) storing_laws 1 []
      (new_resource ∷ other_resource ∷ [], []) (refl, (refl, tt))
