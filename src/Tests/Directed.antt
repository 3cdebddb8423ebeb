-- ===== src/Tests/Directed.antt =====
-- The set of pairs that a director directs, on the simulated host.
use kube_static_egress_ip.Prelude.{◌≡◌, refl, String, false, some, List, [], ◌∷◌, arith}
use kube_static_egress_ip.Effect.{ok, ◌>>=◌, on_error, for_each, logged, pure}
use kube_static_egress_ip.Api.{Rule, StaticEgressIp}
use kube_static_egress_ip.Host.Rules.{edit}
use kube_static_egress_ip.Host.Sets.{put_members}
use kube_static_egress_ip.Host.Simulated.{World, simulated, simulated_rules}
use kube_static_egress_ip.Host.Reliable.{IsReliable}
use kube_static_egress_ip.Cluster.{Cluster}
use kube_static_egress_ip.Chains.{ensure_first, ensure_last, ensure_gone, open_set, add_ips}
use kube_static_egress_ip.Prelude.Text.{contains, without_dots}
use kube_static_egress_ip.Director.{
  EgressDirector, tunnel_name, mark_and_bypass, unmark_and_unbypass, open_tunnel, add_route,
  delete_route, address_of_cidr, add_route_to_gateway, delete_route_to_gateway,
}
use kube_static_egress_ip.Director.Directed.{directed, IsClean}
use kube_static_egress_ip.Director.Directed.Runs.{
  Call, add, remove, replay, is_named, perform, run_refines, attempts_leave,
}
use kube_static_egress_ip.Controller.{Controller}
use kube_static_egress_ip.Tests.Inert.{empty_cluster}

abbrev pub director : EgressDirector
director = record { node_ip = "192.168.1.201" }

abbrev pub fresh : World
fresh = record { rules = λ t c. []; members = λ s. []; commands = []; routes = "" }

pub fresh-IsClean : IsClean fresh.rules
fresh-IsClean = record { marks_once = λ s d. omega arith; accepts_once = λ s d. omega arith }

-- Two additions, and a deletion of the first.
abbrev calls : List Call
calls =
    add "EGRESS-IP-A" ("10.244.1.3" ∷ []) "4.2.2.2/32" "192.168.1.200"
    ∷ add "EGRESS-IP-B" [] "8.8.8.8/32" "192.168.1.200"
    ∷ remove "EGRESS-IP-A" "4.2.2.2/32" "192.168.1.200"
    ∷ []

abbrev after_calls : World
after_calls = (for_each (perform simulated director) calls fresh).1

calls_ok : for_each (perform simulated director) calls fresh ≡ (ok tt, after_calls)
unfolding perform for_each add_route_to_gateway delete_route_to_gateway mark_and_bypass
    unmark_and_unbypass open_tunnel add_route delete_route open_set add_ips ensure_first ensure_last
    ensure_gone ◌>>=◌ on_error edit put_members contains address_of_cidr without_dots tunnel_name
calls_ok = refl

run_refines_example :
    IsClean after_calls.rules × (directed after_calls.rules ≡ replay calls (directed fresh.rules))
run_refines_example =
    run_refines simulated simulated_rules director calls fresh after_calls fresh-IsClean calls_ok

attempts_leave_example :
    let x = (for_each (λ c. logged (perform simulated director c)) calls fresh).1.rules in
    IsClean x
    × ((s d : String) → is_named calls s d ≡ false → directed x s d ≡ directed fresh.rules s d)
attempts_leave_example = attempts_leave simulated simulated_rules director calls fresh fresh-IsClean

abbrev pub rule_a : Rule
rule_a = record { service_name = "service-a"; egress_ip = "100.137.146.100"; cidr = "4.2.2.2/32" }

abbrev pub served : StaticEgressIp
served = record {
  name = "eip";
  namespace = "default";
  spec = record { rules = rule_a ∷ [] };
  status = record { gateway_node = "uid-1"; gateway_ip = "192.168.1.200" };
}

abbrev pub on_director : Controller
on_director = record {
  traffic_director = some director;
  traffic_gateway = some tt;
  node_ip = "192.168.1.201";
}

-- A lister that knows every service.
abbrev pub listing : Cluster World
listing = record (empty_cluster {W = World}) {
  get_endpoints = λ namespace name. pure (record { subsets = [] });
}

pub simulated-IsReliable : IsReliable simulated
simulated-IsReliable = record {
  exists_ok = λ t c r. record { at = λ w. tt };
  insert_ok = λ t c n r. record { at = λ w. tt };
  append_ok = λ t c r. record { at = λ w. tt };
  ipset_new_ok = λ n k. record { at = λ w. tt };
  set_add_ok = λ s ip timeout. record { at = λ w. tt };
  output_ok = λ args. record { at = λ w. tt };
  run_ok = λ args. record { at = λ w. tt };
}
