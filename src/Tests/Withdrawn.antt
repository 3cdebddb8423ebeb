-- ===== src/Tests/Withdrawn.antt =====
-- The handlers of delete and update events, on the simulated host.
use kube_static_egress_ip.Prelude.{
  ◌≡◌, refl, String, not, ◌&&◌, some, [], ◌∷◌, inl, inr, Bool-cases, arith,
}
use kube_static_egress_ip.Effect.{ok, pure, attempt, ◌>>=◌}
use kube_static_egress_ip.Effect.Calm.{IsCalm}
use kube_static_egress_ip.Host.{RuleSpec}
use kube_static_egress_ip.Host.Rules.{has_rule}
use kube_static_egress_ip.Gateway.{nat_chain, snat_rule}
use kube_static_egress_ip.Gateway.Translated.{snats}
use kube_static_egress_ip.Gateway.Clearing.{IsSingle}
use kube_static_egress_ip.Controller.Translating.Total.{is_rule_from}
use kube_static_egress_ip.Controller.Handlers.Leaving.{leaving_gateway_untranslates}
use kube_static_egress_ip.Api.{Node, StaticEgressIp}
use kube_static_egress_ip.Host.Simulated.{World, simulated, simulated_rules}
use kube_static_egress_ip.Cluster.{Cluster}
use kube_static_egress_ip.Utils.{get_node_object}
use kube_static_egress_ip.Director.Directed.{directed, IsClean}
use kube_static_egress_ip.Director.Directed.Removals.{Removable}
use kube_static_egress_ip.Controller.{generate_rule_id, do_director_processing}
use kube_static_egress_ip.Controller.Directing.{is_pair, do_director_processing_adds}
use kube_static_egress_ip.Controller.Handlers.{
  tombstone, delete_static_egress_ip, update_static_egress_ip,
}
use kube_static_egress_ip.Controller.Handlers.Withdrawing.{deleted_undirects}
use kube_static_egress_ip.Controller.Handlers.Moving.{Finds, becoming_gateway_undirects}
use kube_static_egress_ip.Tests.Directed.{
  director, fresh, fresh-IsClean, served, listing, on_director, simulated-IsReliable,
}
use kube_static_egress_ip.Tests.Translated.{paths, links}

simulated-Removable : Removable simulated simulated_rules
simulated-Removable = record {
  reliable = simulated-IsReliable;
  delete_ok = λ t c r w there. rw there tt;
  set_destroy_ok = λ s. record { at = λ w. tt };
}

-- The node directs the traffic of the resource.
abbrev serving : World
serving = (do_director_processing simulated listing on_director served fresh).1

serving-IsClean : IsClean serving.rules
serving-IsClean =
    (do_director_processing_adds simulated simulated_rules listing
      (λ n s. record { at = λ w. refl }) on_director served fresh fresh-IsClean).0

deleted_undirects_example :
    let r =
      delete_static_egress_ip simulated listing on_director (tombstone (some served)) serving in
    (r.0 ≡ ok tt)
    × ((s d : String)
        → directed r.1.rules s d
          ≡ (directed serving.rules s d && not (is_pair simulated served s d)))
deleted_undirects_example =
    deleted_undirects simulated simulated_rules simulated-Removable listing
      (λ s. record { at = λ w. refl }) (λ s. record { at = λ w. tt }) on_director director
      (tombstone (some served)) served serving refl refl serving-IsClean

abbrev pub this_node : Node
this_node = record { name = "node-1"; uid = "uid-2"; labels = []; conditions = []; addresses = [] }

abbrev with_nodes : Cluster World
with_nodes = record listing { get_node = λ name. pure this_node }

this_node-Finds : Finds simulated simulated_rules with_nodes this_node
unfolding get_node_object attempt ◌>>=◌
this_node-Finds = record { found = λ w. refl; quiet = record { at = λ w. refl } }

-- The gateway of the resource moves to this node.
abbrev moved : StaticEgressIp
moved = record served { status = record { gateway_node = "uid-2"; gateway_ip = "192.168.1.201" } }

becoming_gateway_undirects_example :
    let r = update_static_egress_ip simulated with_nodes on_director served moved serving in
    (r.0 ≡ ok tt)
    × ((s d : String)
        → directed r.1.rules s d
          ≡ (directed serving.rules s d && not (is_pair simulated served s d)))
becoming_gateway_undirects_example =
    becoming_gateway_undirects simulated simulated_rules simulated-Removable with_nodes
      (λ n s. record { at = λ w. refl }) (paths with_nodes (λ name. record { at = λ w. refl }))
      links this_node this_node-Finds (λ s. record { at = λ w. refl })
      (λ s. record { at = λ w. tt }) on_director director served moved serving refl
      (record { at = λ w. tt }, tt) refl refl serving-IsClean

-- The node translates the traffic of the resource, as its gateway.
abbrev translating : World
translating = record fresh {
  rules = λ t c.
      snat_rule (generate_rule_id simulated "default" "eip" 0) "4.2.2.2/32" "100.137.146.100" ∷ [];
}

translating-IsSingle : IsSingle (translating.rules "nat" nat_chain)
translating-IsSingle s d e = ground arith

sim_delete-IsCalm : (t c : String) (r : RuleSpec) → IsCalm (simulated.delete t c r)
sim_delete-IsCalm t c r = record {
  at = λ w. elim (Bool-cases (has_rule r (w.rules t c))) [
    | inl there ↦ rw there tt
    | inr absent ↦ rw absent tt
  ];
}

leaving_gateway_untranslates_example :
    let r = update_static_egress_ip simulated with_nodes on_director moved served translating in
    (r.0 ≡ ok tt)
    × ((s d a : String)
        → snats r.1.rules s d a ≡ (
            snats translating.rules s d a
            && not (is_rule_from simulated moved 0 moved.spec.rules s d a)))
leaving_gateway_untranslates_example =
    leaving_gateway_untranslates simulated simulated_rules simulated-Removable with_nodes
      (λ n s. record { at = λ w. refl }) (paths with_nodes (λ name. record { at = λ w. refl }))
      links sim_delete-IsCalm this_node this_node-Finds (λ s. record { at = λ w. refl })
      (λ s. record { at = λ w. tt }) on_director moved served translating refl
      (record { at = λ w. tt }, tt) refl refl translating-IsSingle
