-- ===== src/Tests/Translated.antt =====
-- The sync of a resource on its gateway node, on the simulated host.
use kube_static_egress_ip.Prelude.{◌≡◌, refl, String, ◌||◌, some, [], ◌∷◌}
use kube_static_egress_ip.Effect.{ok, pure}
use kube_static_egress_ip.Effect.Keeps.{Keeps}
use kube_static_egress_ip.Api.{Endpoints}
use kube_static_egress_ip.Host.Simulated.{World, simulated, simulated_rules}
use kube_static_egress_ip.Cluster.{Cluster}
use kube_static_egress_ip.Cluster.Calls.{PathsKeep}
use kube_static_egress_ip.Gateway.StaticIp.Calm.{CalmLinks}
use kube_static_egress_ip.Gateway.Translated.{accepted, snats, returns}
use kube_static_egress_ip.Controller.{do_gateway_processing}
use kube_static_egress_ip.Controller.Directing.{is_pair_from}
use kube_static_egress_ip.Controller.Translating.Total.{
  is_rule_from, is_return_of, do_gateway_processing_translates,
}
use kube_static_egress_ip.Tests.Inert.{empty_cluster}
use kube_static_egress_ip.Tests.Directed.{fresh, served, on_director, simulated-IsReliable}

abbrev pods : Endpoints
pods = record {
  subsets =
      record {
        addresses = record { ip = "10.244.1.3"; node_name = some "worker-1" } ∷ [];
        ports = 80 ∷ [];
      }
      ∷ [];
}

abbrev listing : Cluster World
listing = record (empty_cluster {W = World}) { get_endpoints = λ namespace name. pure pods }

pub paths :
    (k : Cluster World)
    → ((name : String) → Keeps (λ (w : World). w.rules) (k.get_node name))
    → PathsKeep simulated k (λ w. w.rules)
paths k node = record {
  output-keeps = λ args. record { at = λ w. refl };
  run-keeps = λ args. record { at = λ w. refl };
  interfaces-keeps = record { at = λ w. refl };
  addrs-keeps = λ i. record { at = λ w. refl };
  route_get-keeps = λ ip. record { at = λ w. refl };
  parse_addr-keeps = λ a. record { at = λ w. refl };
  link_by_name-keeps = λ n. record { at = λ w. refl };
  addr_add-keeps = λ l a. record { at = λ w. refl };
  addr_del-keeps = λ l a. record { at = λ w. refl };
  get_node-keeps = node;
}

pub links : CalmLinks simulated
links = record {
  interfaces_calm = record { at = λ w. tt };
  addrs_calm = λ i. record { at = λ w. tt };
  route_get_calm = λ ip. record { at = λ w. tt };
  parse_addr_calm = λ a. record { at = λ w. tt };
  link_by_name_calm = λ n. record { at = λ w. tt };
  addr_add_calm = λ l a. record { at = λ w. tt };
  addr_del_calm = λ l a. record { at = λ w. tt };
}

do_gateway_processing_translates_example :
    let r = do_gateway_processing simulated listing on_director served fresh in
    (r.0 ≡ ok tt)
    × ((s d : String)
        → accepted r.1.rules s d
          ≡ (is_pair_from simulated served 0 served.spec.rules s d || accepted fresh.rules s d))
    × ((s d ip : String)
        → snats r.1.rules s d ip
          ≡ (is_rule_from simulated served 0 served.spec.rules s d ip || snats fresh.rules s d ip))
    × ((d ip : String)
        → returns r.1.rules d ip
          ≡ (is_return_of served.spec.rules d ip || returns fresh.rules d ip))
do_gateway_processing_translates_example =
    do_gateway_processing_translates simulated simulated_rules listing
      (λ n s. record { at = λ w. refl }) (paths listing (λ name. record { at = λ w. refl }))
      simulated-IsReliable links (λ name. record { at = λ w. tt }) on_director served fresh refl
      ((pods, λ w. refl, ((tt, tt), tt)), tt)
