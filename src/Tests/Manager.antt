-- ===== src/Tests/Manager.antt =====
-- pkg/ha/gateway_manager.go and pkg/utils/node.go on a small cluster.
use kube_static_egress_ip.Prelude.{◌≡◌, refl, String, some, List, [], ◌∷◌, ◌++◌}
use kube_static_egress_ip.Effect.{ok, pure, Settles}
use kube_static_egress_ip.Api.{Node, NodeAddress, StaticEgressIp}
use kube_static_egress_ip.Cluster.{Cluster}
use kube_static_egress_ip.Utils.{ip_text, get_node_ip, lookup, append_address, group_addresses}
use kube_static_egress_ip.Utils.Addresses.{get_node_ip-eq-preferred}
use kube_static_egress_ip.Manager.{
  name_gateway, choose_from, with_gateway, round, ready_after, ready_until_break, is_master,
  current_is_ready, scan_node, scan_nodes, first_ready, deref, node_role_master_label,
}
use kube_static_egress_ip.Manager.Choice.{choose_from-last, choose_from_stable}
use kube_static_egress_ip.Manager.Safety.{choose_from-Settles}
use kube_static_egress_ip.Manager.Rounds.{Request, ApiLaws, round_requests}
use kube_static_egress_ip.Tests.Inert.{inert, empty_cluster}

abbrev Requests : Type 0
Requests = List Request

abbrev address : String → List NodeAddress
address ip =
    record { address_type = "Hostname"; address = "host" }
    ∷ record { address_type = "InternalIP"; address = ip }
    ∷ []

abbrev pub worker : Node
worker = record {
  name = "worker-1";
  uid = "uid-1";
  labels = [];
  conditions = record { condition_type = "Ready"; condition_status = "True" } ∷ [];
  addresses = address "192.168.1.201";
}

-- A master that is not ready.
abbrev pub master : Node
master = record {
  name = "master";
  uid = "uid-0";
  labels = (node_role_master_label, "") ∷ [];
  conditions = record { condition_type = "Ready"; condition_status = "Unknown" } ∷ [];
  addresses = address "192.168.1.200";
}

abbrev pub new_resource : StaticEgressIp
new_resource = record {
  name = "eip";
  namespace = "default";
  spec = record { rules = [] };
  status = record { gateway_node = ""; gateway_ip = "" };
}

-- The unready master, listed last, becomes the gateway.
choose_from-last_example :
    choose_from (inert {W = Requests}) new_resource (worker ∷ master ∷ [])
    ≡ ok ("uid-0", "192.168.1.200")
unfolding current_is_ready ready_after is_master ready_until_break name_gateway get_node_ip lookup
    append_address group_addresses ip_text
choose_from-last_example = choose_from-last inert new_resource (worker ∷ []) master

choose_from_stable_example :
    choose_from
      (inert {W = Requests})
      (with_gateway new_resource ("uid-1", "192.168.1.201"))
      (master ∷ worker ∷ [])
    ≡ ok ("uid-1", "192.168.1.201")
unfolding choose_from scan_node scan_nodes first_ready deref current_is_ready ready_after is_master
    ready_until_break name_gateway get_node_ip lookup append_address group_addresses ip_text
choose_from_stable_example =
    choose_from_stable (inert {W = Requests}) new_resource (master ∷ worker ∷ [])
      ("uid-1", "192.168.1.201") refl

choose_from-Settles_example :
    Settles (choose_from (inert {W = Requests}) new_resource (worker ∷ master ∷ []))
choose_from-Settles_example = choose_from-Settles inert new_resource (worker ∷ master ∷ [])

-- An API server that records the updates.
abbrev recording : Cluster Requests
recording = record (empty_cluster {W = Requests}) {
  list_nodes = pure (master ∷ worker ∷ []);
  list_egress_ips = pure (new_resource ∷ new_resource ∷ []);
  update_egress_ip = λ namespace e w. (ok tt, w ++ (namespace, e) ∷ []);
}

abbrev recording_laws : ApiLaws recording (master ∷ worker ∷ [])
recording_laws = record {
  requests = λ w. w;
  list_nodes_answers = λ w. refl;
  requests-list_nodes = λ w. refl;
  requests-list_egress_ips = λ w. refl;
  update_settles = λ n e w. tt;
  requests-update = λ n e w. refl;
}

abbrev assigned : Request
assigned = ("default", with_gateway new_resource ("uid-1", "192.168.1.201"))

round_requests_example :
    ((round inert recording []).0 ≡ ok tt)
    × ((round inert recording []).1 ≡ assigned ∷ assigned ∷ [])
unfolding choose_from scan_node scan_nodes first_ready deref current_is_ready ready_after is_master
    ready_until_break name_gateway get_node_ip lookup append_address group_addresses ip_text
round_requests_example =
    round_requests inert recording (master ∷ worker ∷ []) recording_laws
      (new_resource ∷ new_resource ∷ []) [] refl

get_node_ip-eq-preferred_example :
    get_node_ip (inert {W = Requests}) worker ≡ ok (some "192.168.1.201")
get_node_ip-eq-preferred_example = get_node_ip-eq-preferred inert worker
