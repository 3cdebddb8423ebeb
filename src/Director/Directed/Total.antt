-- ===== src/Director/Directed/Total.antt =====
-- An addition of the director on a host on which no call fails.
use kube_static_egress_ip.Prelude.{String, List}
use kube_static_egress_ip.Effect.Succeeds.{Succeeds, succeeds_rules}
use kube_static_egress_ip.Host.{Host}
use kube_static_egress_ip.Host.Reliable.{IsReliable}
use kube_static_egress_ip.Chains.Succeeds.{
  ensure_first-Succeeds, ensure_last-Succeeds, open_set-Succeeds, add_ips-Succeeds,
}
use kube_static_egress_ip.Director.{
  EgressDirector, mark_and_bypass, open_tunnel, add_route, add_route_to_gateway,
}

module _ {W : Type 0} (h : Host W) (G : IsReliable h) where
  pub add_route_to_gateway-Succeeds :
      (d : EgressDirector) (s : String) (ips : List String) (cidr g : String)
      → Succeeds (add_route_to_gateway h d s ips cidr g)
  unfolding add_route_to_gateway mark_and_bypass open_tunnel add_route
  add_route_to_gateway-Succeeds d s ips cidr g =
      search
        (
          succeeds_rules, open_set-Succeeds, add_ips-Succeeds, ensure_first-Succeeds,
          ensure_last-Succeeds, G.output_ok, G.run_ok,
        )
        depth 9
