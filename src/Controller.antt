-- ===== src/Controller.antt =====
-- pkg/controller/controller.go: what a node does for each StaticEgressIP resource.
pub mod Handlers
pub mod Memory
pub mod Queue
pub mod Run
pub mod Endpoints
pub mod RuleId
pub mod Sync
pub mod Directing
pub mod Translating
use Prim.Native.String.{slice}
use kube_static_egress_ip.Prelude.{
  ℕ, String, Bool, true, false, not, ◌&&◌, Option, none, some, List, [], ◌∷◌, ◌++◌, ◌==◌, map,
  if◌then◌else◌,
}
use kube_static_egress_ip.Prelude.Text.{◌<>◌, contains, itoa}
use kube_static_egress_ip.Effect.{
  Error, plain, not_found, iptables_error, text, because, Outcome, ok, err, panicked, exited, M,
  pure, fail, panic, ◌>>=◌, ◌>>◌, on_error, attempt, logged, or_fatal, for_each, for_each_from,
  when,
}
use kube_static_egress_ip.Api
use kube_static_egress_ip.Api.{Rule, StaticEgressIp, EndpointAddress, EndpointSubset}
use kube_static_egress_ip.Host.{Host}
use kube_static_egress_ip.Cluster.{Cluster}
use kube_static_egress_ip.Chains.{open_set, add_ips}
use kube_static_egress_ip.Utils.{get_node_object, get_node_ip, get_node_ip_by_node_name, ip_text}
use kube_static_egress_ip.Director
use kube_static_egress_ip.Director.{
  EgressDirector, route_table_name, tunnel_name, add_route_to_gateway, delete_route_to_gateway,
  clear_stale_route_to_gateway, new_egress_director,
}
use kube_static_egress_ip.Gateway
use kube_static_egress_ip.Gateway.{
  add_static_iptables_rule, clear_static_iptables_rule, new_egress_gateway,
}
use kube_static_egress_ip.Gateway.StaticIp.{configure_static_ip, remove_static_ip}

-- The state of the Controller that is not a client or a lister. The director and the gateway are
-- nil until Run has made them; a gateway holds nothing but the handle of iptables.
pub record Controller : Type 0 where
  pub traffic_director : Option EgressDirector
  pub traffic_gateway : Option (Unit {0})
  pub node_ip : String

-- The addresses of one subset: all of them, once for each port.
unfoldable pub once_for_each_port : List ℕ → List String → List String
once_for_each_port [] ips = []
once_for_each_port (port ∷ l) ips = ips ++ once_for_each_port l ips

-- The three loops that fill `ips`.
unfoldable pub endpoint_ips : List EndpointSubset → List String
unfolding once_for_each_port
endpoint_ips [] = []
endpoint_ips (subset ∷ l) =
    once_for_each_port subset.ports (map (λ a. a.ip) subset.addresses) ++ endpoint_ips l

abbrev pub nil_dereference : String
nil_dereference = "invalid memory address or nil pointer dereference"

module _ {W : Type 0} (h : Host W) where
  open h use {encoded_hash, output, run, Ip}

  unfoldable pub generate_rule_id : String → String → ℕ → String
  generate_rule_id namespace resource_name rule_no =
      "EGRESS-IP-" <> slice (encoded_hash (namespace <> resource_name <> itoa rule_no)) 0 16

  -- A method call through the pointer c.trafficDirector: with nil, AddRouteToGateway and
  -- DeleteRouteToGateway get as far as their calls of ipset, and ClearStaleRouteToGateway nowhere.
  through_director :
      Controller → M W (Unit {0}) → (EgressDirector → M W (Unit {0})) → M W (Unit {0})
  through_director c before call = elim c.traffic_director [
    | some d ↦ call d
    | none ↦ before >> panic nil_dereference
  ]

  -- The same through c.trafficGateway.
  through_gateway : Controller → M W (Unit {0}) → M W (Unit {0}) → M W (Unit {0})
  through_gateway c before call = elim c.traffic_gateway [
    | some _ ↦ call
    | none ↦ before >> panic nil_dereference
  ]

  -- c.trafficDirector.AddRouteToGateway(...)
  pub director_add : Controller → String → List String → String → String → M W (Unit {0})
  unfolding through_director
  director_add c set_name ips cidr gateway_ip =
      through_director c
        (do
          set ← open_set h "Failed to create ipset with name " set_name
          add_ips h set_name set ips)
        (λ d. add_route_to_gateway h d set_name ips cidr gateway_ip)

  -- c.trafficDirector.DeleteRouteToGateway(...)
  unfoldable pub director_delete : Controller → String → String → String → M W (Unit {0})
  unfolding through_director
  director_delete c set_name cidr gateway_ip =
      through_director c (do _ ← open_set h "Failed to get ipset with name " set_name; pure tt)
        (λ _. delete_route_to_gateway h set_name cidr gateway_ip)

  -- c.trafficDirector.ClearStaleRouteToGateway(...)
  unfoldable pub director_clear : Controller → String → String → String → M W (Unit {0})
  unfolding through_director
  director_clear c set_name cidr gateway_ip =
      through_director c (pure tt) (λ _. clear_stale_route_to_gateway h set_name cidr gateway_ip)

  -- c.trafficGateway.AddStaticIptablesRule(...)
  pub gateway_add : Controller → String → List String → String → String → M W (Unit {0})
  unfolding through_gateway
  gateway_add c set_name ips cidr egress_ip =
      through_gateway c
        (do
          set ← open_set h "Failed to create ipset with name " set_name
          add_ips h set_name set ips)
        (add_static_iptables_rule h set_name ips cidr egress_ip)

  -- c.trafficGateway.ClearStaticIptablesRule(...)
  unfoldable pub gateway_clear : Controller → String → String → String → M W (Unit {0})
  unfolding through_gateway
  gateway_clear c set_name cidr egress_ip =
      through_gateway c (pure tt) (clear_static_iptables_rule h set_name cidr egress_ip)

  module _ (k : Cluster W) where
    open k use {
      get_egress_ip, get_endpoints, queue_add_rate_limited, split_key, key_of, wait_for_cache_sync,
    }

    -- The error of the lister is logged, and the nil object is dereferenced then.
    unfoldable pub endpoints_of : String → String → M W Api.Endpoints
    endpoints_of namespace service_name = do
      endpoint ← attempt (get_endpoints namespace service_name)
      elim endpoint [ some e ↦ pure e | none ↦ panic nil_dereference ]

    unfoldable pub is_egress_gateway : StaticEgressIp → M W Bool
    is_egress_gateway e = do node ← get_node_object h k ""; pure (e.status.gateway_node == node.uid)

    -- One rule on a director node.
    unfoldable pub direct_rule : Controller → StaticEgressIp → ℕ → Rule → M W (Unit {0})
    unfolding director_add
    direct_rule c e i rule = do
      endpoint ← endpoints_of e.namespace rule.service_name
      logged (
          director_add c (generate_rule_id e.namespace e.name i) (endpoint_ips endpoint.subsets)
            rule.cidr e.status.gateway_ip)

    unfoldable pub do_director_processing : Controller → StaticEgressIp → M W (Unit {0})
    do_director_processing c e =
        if e.status.gateway_ip == ""
        then pure tt
        else for_each_from 0 (direct_rule c e) e.spec.rules

    -- The tunnel and the route back to an endpoint on another node, whose address is `remote`.
    return_path : Controller → String → String → M W (Unit {0})
    return_path c ip remote = do
      let tunnel = tunnel_name remote
      out ←
          on_error (because "Failed to verify required tunnel to director node exists. ")
            (output ("ip" ∷ "link" ∷ "list" ∷ []))
      if remote == c.node_ip then pure tt else do
        when (not (contains out tunnel)) (
            on_error (because "Failed to tunnel interface to gateway node due to: ") (
              run (
                "ip" ∷ "tunnel" ∷ "add" ∷ tunnel ∷ "mode" ∷ "gre" ∷ "remote" ∷ remote ∷ "local"
                ∷ c.node_ip ∷ [])))
        on_error (because "Failed to set tunnel interface to up due to: ")
            (run ("ip" ∷ "link" ∷ "set" ∷ "up" ∷ tunnel ∷ []))
        routes ←
            on_error (because "Failed to verify required default route to gatewat exists. ")
              (output ("ip" ∷ "route" ∷ "list" ∷ "table" ∷ route_table_name ∷ []))
        when (not (contains routes ip)) (
            on_error (because "Failed to add route in custom route table due to: ") (
              run ("ip" ∷ "route" ∷ "add" ∷ ip ∷ "dev" ∷ tunnel ∷ "table" ∷ route_table_name ∷ [])))

    -- One address of an endpoint: an address whose node is not found is skipped.
    reach_address : Controller → EndpointAddress → M W (Unit {0})
    unfolding return_path
    reach_address c address = elim address.node_name [
      | none ↦ panic nil_dereference
      | some name ↦ (do
        node_ip ← attempt (get_node_ip_by_node_name h k name)
        elim node_ip [ none ↦ pure tt | some ip ↦ return_path c address.ip (ip_text h ip) ])
    ]

    -- The addresses that `ips` collects are those of `endpoint_ips`: each is appended before any
    -- step of its round, and an error of a round ends the function.
    pub reach_subset : Controller → EndpointSubset → M W (Unit {0})
    unfolding reach_address
    reach_subset c subset = for_each (λ _. for_each (reach_address c) subset.addresses) subset.ports

    -- One rule on the gateway node.
    unfoldable pub translate_rule : Controller → StaticEgressIp → ℕ → Rule → M W (Unit {0})
    unfolding reach_subset gateway_add
    translate_rule c e i rule = do
      endpoint ← endpoints_of e.namespace rule.service_name
      for_each (reach_subset c) endpoint.subsets
      logged (
          gateway_add c (generate_rule_id e.namespace e.name i) (endpoint_ips endpoint.subsets)
            rule.cidr rule.egress_ip)
      logged (configure_static_ip h (rule.egress_ip <> "/32"))

    -- doGatewyProcessing
    unfoldable pub do_gateway_processing : Controller → StaticEgressIp → M W (Unit {0})
    do_gateway_processing c e = for_each_from 0 (translate_rule c e) e.spec.rules

    -- `none` is a resource that no longer exists.
    abbrev unless_gone : Outcome StaticEgressIp → Outcome (Option StaticEgressIp)
    unless_gone (ok e) = ok (some e)
    unless_gone (err (not_found m)) = ok none
    unless_gone (err (plain m)) = err (plain m)
    unless_gone (err (iptables_error n m)) = err (iptables_error n m)
    unless_gone (panicked m) = panicked m
    unless_gone (exited m) = exited m

    unfoldable pub find_egress_ip : String → String → M W (Option StaticEgressIp)
    find_egress_ip namespace name w =
        let (r, w') = get_egress_ip namespace name w in (unless_gone r, w')

    unfoldable pub process_resource : Controller → String → StaticEgressIp → M W (Unit {0})
    process_resource c key e = if e.status.gateway_node == "" then pure tt else do
      is_gateway ←
          on_error
            (because ("Failed to identify the gateway for static egress IP: " <> key <> " due to"))
            (is_egress_gateway e)
      if is_gateway then do_gateway_processing c e else do_director_processing c e

    unfoldable pub sync_handler : Controller → String → M W (Unit {0})
    unfolding find_egress_ip process_resource
    sync_handler c key = elim (split_key key) [
      | none ↦ pure tt
      | some (namespace, name) ↦ (do
        found ← find_egress_ip namespace name
        elim found [ none ↦ pure tt | some e ↦ process_resource c key e ])
    ]
