-- ===== src/Controller/Translating.antt =====
-- The steps of the sync of a resource on its gateway node, where no call fails.
pub mod Total
use kube_static_egress_ip.Prelude.{
  ◌≡◌, refl, sym, subst, ap, ◌∙◌, ℕ, suc, String, Bool, true, false, ◌&&◌, ◌||◌, Option, none, some,
  List, [], ◌∷◌, ◌==◌, arith, eq_iff, if◌then◌else◌,
}
use kube_static_egress_ip.Prelude.Text.{◌<>◌}
use kube_static_egress_ip.Effect.{
  M, Outcome, ok, err, panicked, exited, panic, pure, ◌>>=◌, attempt, logged, for_each,
  for_each_from,
}
use kube_static_egress_ip.Effect.Keeps.{Keeps, Keeps-for_each}
use kube_static_egress_ip.Effect.Edits.{
  Edits, After, Returns, Edits-bind, Edits-bind_known, Edits-Keeps, Edits-pure,
}
use kube_static_egress_ip.Effect.Succeeds.{
  IsOk, IsSome, Succeeds, Succeeds-option, Succeeds-some, Succeeds-bind, Succeeds-pure,
  Succeeds-attempt, Succeeds-for_each, Edits-Succeeds, Edits-attempt, After-total, succeeds_rules,
}
use kube_static_egress_ip.Effect.Calm.{
  IsCalm, IsCalm-bind, IsCalm-result, attempt-IsCalm, logged-IsCalm,
}
use kube_static_egress_ip.Api.{Rule, StaticEgressIp, Endpoints, EndpointAddress, EndpointSubset}
use kube_static_egress_ip.Host.{Host}
use kube_static_egress_ip.Host.Rules.{Tables, IptablesLaws}
use kube_static_egress_ip.Host.Reliable.{IsReliable}
use kube_static_egress_ip.Cluster.{Cluster}
use kube_static_egress_ip.Cluster.Calls.{PathsKeep}
use kube_static_egress_ip.Chains.Succeeds.{
  ensure_first-Succeeds, ensure_last-Succeeds, open_set-Succeeds, add_ips-Succeeds,
}
use kube_static_egress_ip.Utils.{get_node_ip_by_node_name, ip_text}
use kube_static_egress_ip.Utils.Addresses.{get_node_ip-Settles}
use kube_static_egress_ip.Gateway.{insert_rule, forward_and_translate, add_static_iptables_rule}
use kube_static_egress_ip.Gateway.Rules.{Adding, added, add_static_rules}
use kube_static_egress_ip.Gateway.Translated.{
  accepted, snats, returns, accepted-added, snats-added, returns-added,
}
use kube_static_egress_ip.Gateway.StaticIp.{configure_static_ip}
use kube_static_egress_ip.Gateway.StaticIp.Calm.{CalmLinks, configure_static_ip-IsCalm}
use kube_static_egress_ip.Controller.Directing.{endpoints_of-Keeps}
use kube_static_egress_ip.Controller.Sync.Steps.{Keeps-logged}
use kube_static_egress_ip.Controller.Sync.Paths.{reach_subset-Keeps, configure_static_ip-Keeps}
use kube_static_egress_ip.Controller.{
  Controller, endpoint_ips, generate_rule_id, gateway_add, endpoints_of, return_path, reach_address,
  reach_subset, translate_rule, do_gateway_processing,
}

-- Every address of the endpoints names its node.
abbrev pub HasNode : EndpointAddress → Type 0
HasNode a = IsSome a.node_name

abbrev pub HaveNodes : List EndpointAddress → Type 0
HaveNodes [] = Unit
HaveNodes (a ∷ l) = HasNode a × HaveNodes l

abbrev pub ArePlaced : List EndpointSubset → Type 0
ArePlaced [] = Unit
ArePlaced (s ∷ l) = HaveNodes s.addresses × ArePlaced l

module _ {W : Type 0} (h : Host W) (k : Cluster W) (G : IsReliable h)
    (calm_nodes : (name : String) → IsCalm (k.get_node name)) where
  return_path-Succeeds :
      (c : Controller) (ip remote : String) → Succeeds (return_path h k c ip remote)
  unfolding return_path
  return_path-Succeeds c ip remote = search (succeeds_rules, G.output_ok, G.run_ok) depth 12

  found : (name : String) → IsCalm (get_node_ip_by_node_name h k name)
  unfolding get_node_ip_by_node_name
  found name = IsCalm-bind (calm_nodes name) (λ n. IsCalm-result _ (get_node_ip-Settles h n))

  reach_address-Succeeds :
      (c : Controller) (a : EndpointAddress) → HasNode a → Succeeds (reach_address h k c a)
  unfolding reach_address
  reach_address-Succeeds c a has = Succeeds-some a.node_name _ _ has λ name.
      Succeeds-bind (attempt-IsCalm (found name)) λ o.
        Succeeds-option o _ _ (Succeeds-pure tt) (λ ip. return_path-Succeeds c a.ip (ip_text h ip))

  reach_all-Succeeds :
      (c : Controller) (l : List EndpointAddress)
      → HaveNodes l
      → Succeeds (for_each (reach_address h k c) l)
  unfolding for_each
  reach_all-Succeeds c [] have = Succeeds-pure tt
  reach_all-Succeeds c (a ∷ l) (first, rest) =
      Succeeds-bind (reach_address-Succeeds c a first) (λ _. reach_all-Succeeds c l rest)

  pub reach_subsets-Succeeds :
      (c : Controller) (l : List EndpointSubset)
      → ArePlaced l
      → Succeeds (for_each (reach_subset h k c) l)
  unfolding for_each reach_subset
  reach_subsets-Succeeds c [] placed = Succeeds-pure tt
  reach_subsets-Succeeds c (s ∷ l) (first, rest) =
      Succeeds-bind (Succeeds-for_each _ s.ports (λ _. reach_all-Succeeds c s.addresses first))
        (λ _. reach_subsets-Succeeds c l rest)

  pub add_static-Succeeds :
      (s : String) (ips : List String) (cidr e : String)
      → Succeeds (add_static_iptables_rule h s ips cidr e)
  unfolding add_static_iptables_rule forward_and_translate insert_rule
  add_static-Succeeds s ips cidr e =
      search
        (
          succeeds_rules, open_set-Succeeds, add_ips-Succeeds, ensure_first-Succeeds,
          ensure_last-Succeeds, G.exists_ok, G.insert_ok,
        )
        depth 9
