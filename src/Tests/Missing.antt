-- ===== src/Tests/Missing.antt =====
-- A sync on a director node where the lister knows one of three services, on the simulated host.
use kube_static_egress_ip.Prelude.{
  ◌≡◌, refl, String, [], ◌∷◌, ◌==◌, ◌||◌, if◌then◌else◌, eq_iff, arith,
}
use kube_static_egress_ip.Effect.{ok, err, panicked, not_found}
use kube_static_egress_ip.Api.{Rule, StaticEgressIp}
use kube_static_egress_ip.Host.Simulated.{World, simulated, simulated_rules}
use kube_static_egress_ip.Cluster.{Cluster}
use kube_static_egress_ip.Director.Directed.{directed}
use kube_static_egress_ip.Controller.{do_director_processing, nil_dereference}
use kube_static_egress_ip.Controller.Directing.{is_pair_from}
use kube_static_egress_ip.Controller.Directing.Missing.{missing_endpoints_panic}
use kube_static_egress_ip.Tests.Inert.{empty_cluster}
use kube_static_egress_ip.Tests.Directed.{
  director, fresh, rule_a, served, on_director, simulated-IsReliable,
}

abbrev unserved : Rule
unserved = record rule_a { service_name = "service-b" }

abbrev last : Rule
last = record rule_a { cidr = "8.8.8.8/32" }

abbrev three_rules : StaticEgressIp
three_rules = record served { spec = record { rules = rule_a ∷ unserved ∷ last ∷ [] } }

abbrev partial : Cluster World
partial = record (empty_cluster {W = World}) {
  get_endpoints = λ namespace name w.
      (if name == "service-a" then ok (record { subsets = [] }) else err (not_found name), w);
}

missing_endpoints_panic_example :
    let r = do_director_processing simulated partial on_director three_rules fresh in
    (r.0 ≡ panicked nil_dereference)
    × ((s d : String)
        → directed r.1.rules s d
          ≡ (is_pair_from simulated three_rules 0 (rule_a ∷ []) s d || directed fresh.rules s d))
missing_endpoints_panic_example =
    missing_endpoints_panic simulated simulated_rules partial (λ n s. record { at = λ w. refl })
      simulated-IsReliable on_director director three_rules refl unserved (last ∷ [])
      (record { at = λ w. (not_found "service-b", refl) }) (rule_a ∷ []) fresh refl
      (λ same. ground (arith, eq_iff "192.168.1.200" "")) (record { at = λ w. tt }, tt)
