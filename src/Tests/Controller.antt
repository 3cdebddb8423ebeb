-- ===== src/Tests/Controller.antt =====
-- pkg/controller/controller.go on inert and on simulated hosts.
use kube_static_egress_ip.Prelude.{
  ◌≡◌, ◌≢◌, refl, ℕ, zero, suc, String, true, false, Option, none, some, List, [], ◌∷◌, ◌++◌, elem,
  arith, length,
}
use kube_static_egress_ip.Prelude.Text.{◌<>◌}
use kube_static_egress_ip.Effect.{ok, M, pure, ◌>>=◌, on_error}
use kube_static_egress_ip.Api.{Rule, StaticEgressIp, EndpointSubset}
use kube_static_egress_ip.Host.Simulated.{World, simulated, simulated_rules}
use kube_static_egress_ip.Cluster.{Cluster, Item, key}
use kube_static_egress_ip.Cluster.Calls.{CallsKeep}
use kube_static_egress_ip.Gateway.{nat_chain, forward_chain, snat_rule}
use kube_static_egress_ip.Controller.{
  Controller, once_for_each_port, endpoint_ips, generate_rule_id, sync_handler, find_egress_ip,
}
use kube_static_egress_ip.Controller.Endpoints.{
  is_endpoint, occurrences, listings, endpoint_ips_lem,
}
use kube_static_egress_ip.Controller.RuleId.{generate_rule_id_collides}
use kube_static_egress_ip.Controller.Handlers.{resource, delete_static_egress_ip}
use kube_static_egress_ip.Controller.Handlers.Transitions.{deleted-Keeps_snat}
use kube_static_egress_ip.Controller.Queue.{process_next_work_item, run_worker}
use kube_static_egress_ip.Controller.Queue.Items.{
  Told, done, forget, requeue, QueueLaws, process_next_work_item_key,
}
use kube_static_egress_ip.Controller.Queue.Ends.{ShutdownLaws, run_worker_ends}
use kube_static_egress_ip.Tests.Inert.{inert, empty_cluster, inert_calls}

abbrev pub director_only : Controller
director_only = record {
  traffic_director = some (record { node_ip = "192.168.1.201" });
  traffic_gateway = some tt;
  node_ip = "192.168.1.201";
}

abbrev rule_a : Rule
rule_a = record { service_name = "service-a"; egress_ip = "100.137.146.100"; cidr = "4.2.2.2/32" }

abbrev served : StaticEgressIp
served = record {
  name = "eip";
  namespace = "default";
  spec = record { rules = rule_a ∷ [] };
  status = record { gateway_node = "uid-1"; gateway_ip = "192.168.1.200" };
}

abbrev Tells : Type 0
Tells = List Told

-- A queue that records what it is told.
abbrev recording : Cluster Tells
recording = record (empty_cluster {W = Tells}) {
  queue_get = pure (some (key "ns/eip"));
  queue_done = λ i w. (ok tt, w ++ done i ∷ []);
  queue_forget = λ i w. (ok tt, w ++ forget i ∷ []);
  queue_add_rate_limited = λ s w. (ok tt, w ++ requeue s ∷ []);
}

abbrev recording_laws : QueueLaws recording
recording_laws = record {
  told = λ w. w;
  told-queue_get = λ w. refl;
  told-queue_done = λ i w. refl;
  told-queue_forget = λ i w. refl;
  told-requeue = λ s w. refl;
  queue_done_ok = λ i w. refl;
  queue_forget_ok = λ i w. refl;
  requeue_ok = λ s w. refl;
}

abbrev recording_calls : CallsKeep inert recording (λ (w : Tells). w)
recording_calls =
    inert_calls recording (λ w. w) (λ name. record { at = λ w. refl })
      (λ namespace name. record { at = λ w. refl }) (λ namespace name. record { at = λ w. refl })

-- A resource that is gone is forgotten and done.
process_next_work_item_key_example :
    ((process_next_work_item inert recording director_only []).0 ≡ ok true)
    × ((process_next_work_item inert recording director_only []).1
        ≡ forget (key "ns/eip") ∷ done (key "ns/eip") ∷ [])
unfolding sync_handler ◌>>=◌ on_error find_egress_ip
process_next_work_item_key_example =
    process_next_work_item_key inert recording recording_laws recording_calls director_only "ns/eip"
      [] refl

abbrev count_down : M ℕ (Option Item)
count_down zero = (ok none, zero)
count_down (suc n) = (ok (some (key "ns/eip")), n)

-- A queue that hands out as many items as the world counts.
abbrev counting : Cluster ℕ
counting = record (empty_cluster {W = ℕ}) { queue_get = count_down }

abbrev counting_laws : ShutdownLaws counting
counting_laws = record {
  left = λ w. w;
  get_last = λ w e. rw e refl;
  left-queue_get = λ w n e. rw e refl;
  queue_done-keeps = λ i. record { at = λ w. refl };
  queue_forget-keeps = λ i. record { at = λ w. refl };
  requeue-keeps = λ s. record { at = λ w. refl };
}

abbrev counting_calls : CallsKeep inert counting (λ (w : ℕ). w)
counting_calls =
    inert_calls counting (λ w. w) (λ name. record { at = λ w. refl })
      (λ namespace name. record { at = λ w. refl }) (λ namespace name. record { at = λ w. refl })

run_worker_ends_example : (run_worker inert counting 3 director_only 2).0 ≢ ok false
run_worker_ends_example =
    run_worker_ends inert counting counting_laws counting_calls director_only 3 2 (omega arith)

-- A node with the SNAT rule of the resource.
abbrev with_snat : World
with_snat = record {
  rules = λ t c. snat_rule "EGRESS-IP-A" "4.2.2.2/32" "100.137.146.100" ∷ [];
  members = λ s. [];
  commands = [];
  routes = "";
}

abbrev simulated_cluster : Cluster World
simulated_cluster = empty_cluster {W = World}

deleted-Keeps_snat_example :
    let w' =
      (delete_static_egress_ip simulated simulated_cluster director_only
        (resource served)
        with_snat).1 in
    (w'.rules "nat" nat_chain ≡ snat_rule "EGRESS-IP-A" "4.2.2.2/32" "100.137.146.100" ∷ [])
    × (w'.rules "filter" forward_chain
        ≡ snat_rule "EGRESS-IP-A" "4.2.2.2/32" "100.137.146.100" ∷ [])
deleted-Keeps_snat_example =
    deleted-Keeps_snat simulated simulated_rules simulated_cluster (λ s. record { at = λ w. refl })
      director_only (resource served) with_snat

abbrev subset : EndpointSubset
subset = record {
  addresses =
      record { ip = "10.244.1.3"; node_name = some "worker-1" }
      ∷ record { ip = "10.244.1.4"; node_name = none }
      ∷ [];
  ports = 80 ∷ 443 ∷ [];
}

endpoint_ips_lem_example :
    ((ip : String) → elem ip (endpoint_ips (subset ∷ [])) ≡ is_endpoint ip (subset ∷ []))
    × ((ip : String) → occurrences ip (endpoint_ips (subset ∷ [])) ≡ listings ip (subset ∷ []))
    × (length (endpoint_ips (subset ∷ [])) ≡ 4)
endpoint_ips_lem_example = endpoint_ips_lem (subset ∷ [])

once_for_each : occurrences "10.244.1.4" (endpoint_ips (subset ∷ [])) ≡ 2
unfolding endpoint_ips once_for_each_port
once_for_each = refl

generate_rule_id_collides_example :
    (generate_rule_id simulated "team-a" "egress" 1
      ≡ generate_rule_id simulated "team" "-aegress" 1)
    × (generate_rule_id simulated "team" ("egress" <> "1") 1
        ≡ generate_rule_id simulated "team" "egress" 11)
generate_rule_id_collides_example = generate_rule_id_collides simulated "team" "-a" "egress" 1
