-- ===== src/Controller/Sync.antt =====
-- What a sync leaves alone of a view of the world.
pub mod Steps
pub mod Paths
use kube_static_egress_ip.Prelude.{ℕ, suc, refl, String, Option, none, some, List, [], ◌∷◌, ◌==◌}
use kube_static_egress_ip.Prelude.Text.{◌<>◌}
use kube_static_egress_ip.Effect.{M, plain, pure, fail, ◌>>=◌, Outcome, logged, for_each_from}
use kube_static_egress_ip.Effect.Keeps.{
  Keeps, Keeps-pure, Keeps-panic, Keeps-bind, Keeps-on_error, Keeps-attempt, Keeps-if,
  Keeps-for_each, keeps_rules,
}
use kube_static_egress_ip.Api.{Node, Rule, StaticEgressIp, EndpointAddress, EndpointSubset}
use kube_static_egress_ip.Host.{Host, Interface}
use kube_static_egress_ip.Cluster.{Cluster}
use kube_static_egress_ip.Cluster.Calls.{CallsKeep, paths_of}
use kube_static_egress_ip.Chains.{ensure_first, ensure_last, ensure_gone, open_set, add_ips}
use kube_static_egress_ip.Utils.{get_node_object, get_node_ip_by_node_name, ip_text}
use kube_static_egress_ip.Director.{
  EgressDirector, mark_and_bypass, open_tunnel, add_route, add_route_to_gateway,
}
use kube_static_egress_ip.Gateway.{forward_and_translate, insert_rule, add_static_iptables_rule}
use kube_static_egress_ip.Gateway.StaticIp.{
  first_route, scan_interfaces, get_interface_name, get_interface_for_network,
  add_secondary_ip_to_interface, configure_static_ip,
}
use kube_static_egress_ip.Controller.{
  Controller, director_add, gateway_add, endpoints_of, is_egress_gateway, direct_rule,
  do_director_processing, return_path, reach_address, reach_subset, translate_rule,
  do_gateway_processing, find_egress_ip, process_resource, sync_handler,
}
use kube_static_egress_ip.Controller.Sync.Steps.{
  Keeps-logged, Keeps-for_each_from, Keeps-result, Keeps-option, sync_rules, director_add-Keeps,
  gateway_add-Keeps,
}
use kube_static_egress_ip.Controller.Sync.Paths.{reach_subset-Keeps, configure_static_ip-Keeps}

module _ {W V : Type 0} (h : Host W) (k : Cluster W) (view : W → V) (C : CallsKeep h k view) where
  pub get_node_object-Keeps : (name : String) → Keeps view (get_node_object h k name)
  unfolding get_node_object
  get_node_object-Keeps name = Keeps-bind (C.getenv-keeps "NODE_NAME") λ n.
      or_else (Keeps-if (n == "") (Keeps-pure none) (Keeps-attempt (C.get_node-keeps n))) (
        Keeps-bind
          (Keeps-bind (Keeps-attempt C.hostname-keeps)
            (λ o. Keeps-option o _ _ (Keeps-pure "") (λ x. Keeps-pure x)))
          λ host. or_else (Keeps-attempt (C.get_node-keeps host)) (
            or_else
              (Keeps-if (name == "") (Keeps-pure none) (Keeps-attempt (C.get_node-keeps name)))
              (Keeps-result _)))
    where
      or_else :
          {m : M W (Option Node)} {next : M W Node}
          → Keeps view m
          → Keeps view next
          → Keeps view (m >>= λ o. elim o [ some node ↦ pure node | none ↦ next ])
      or_else first second = Keeps-bind first (λ o. Keeps-option o _ _ second (λ x. Keeps-pure x))

  is_egress_gateway-Keeps : (e : StaticEgressIp) → Keeps view (is_egress_gateway h k e)
  unfolding is_egress_gateway
  is_egress_gateway-Keeps e = Keeps-bind (get_node_object-Keeps "") (λ n. Keeps-pure _)

  endpoints_of-Keeps : (n s : String) → Keeps view (endpoints_of h k n s)
  unfolding endpoints_of
  endpoints_of-Keeps n s =
      Keeps-bind (Keeps-attempt (C.get_endpoints-keeps n s))
        (λ o. Keeps-option o _ _ (Keeps-panic _) (λ e. Keeps-pure e))

  direct_rule-Keeps :
      (c : Controller) (e : StaticEgressIp) (i : ℕ) (r : Rule)
      → Keeps view (direct_rule h k c e i r)
  unfolding direct_rule
  direct_rule-Keeps c e i r =
      Keeps-bind (endpoints_of-Keeps e.namespace r.service_name)
        (λ p. Keeps-logged (director_add-Keeps h k view C c _ _ r.cidr e.status.gateway_ip))

  director-Keeps :
      (c : Controller) (e : StaticEgressIp) → Keeps view (do_director_processing h k c e)
  unfolding do_director_processing
  director-Keeps c e =
      Keeps-if (e.status.gateway_ip == "") (Keeps-pure tt)
        (Keeps-for_each_from 0 (direct_rule h k c e) e.spec.rules (direct_rule-Keeps c e))

  translate_rule-Keeps :
      (c : Controller) (e : StaticEgressIp) (i : ℕ) (r : Rule)
      → Keeps view (translate_rule h k c e i r)
  unfolding translate_rule
  translate_rule-Keeps c e i r = Keeps-bind (endpoints_of-Keeps e.namespace r.service_name) λ p.
      Keeps-bind
        (Keeps-for_each (reach_subset h k c) p.subsets
          (reach_subset-Keeps h k view (paths_of h k view C) c))
        λ _.
          Keeps-bind (Keeps-logged (gateway_add-Keeps h k view C c _ _ r.cidr r.egress_ip))
            λ _. Keeps-logged (configure_static_ip-Keeps h k view (paths_of h k view C) _)

  gateway-Keeps : (c : Controller) (e : StaticEgressIp) → Keeps view (do_gateway_processing h k c e)
  unfolding do_gateway_processing
  gateway-Keeps c e =
      Keeps-for_each_from 0 (translate_rule h k c e) e.spec.rules (translate_rule-Keeps c e)

  process_resource-Keeps :
      (c : Controller) (key : String) (e : StaticEgressIp)
      → Keeps view (process_resource h k c key e)
  unfolding process_resource
  process_resource-Keeps c key e = Keeps-if (e.status.gateway_node == "") (Keeps-pure tt) (
      Keeps-bind (Keeps-on_error _ (is_egress_gateway-Keeps e))
        (λ b. Keeps-if b (gateway-Keeps c e) (director-Keeps c e)))

  find_egress_ip-Keeps : (n s : String) → Keeps view (find_egress_ip h k n s)
  unfolding find_egress_ip
  find_egress_ip-Keeps n s = record { at = (C.get_egress_ip-keeps n s).at }

  -- A sync changes no view of the world that the single calls leave alone.
  pub sync_handler-Keeps : (c : Controller) (key : String) → Keeps view (sync_handler h k c key)
  unfolding sync_handler
  sync_handler-Keeps c key = split (k.split_key key)
    where
      split :
          (o : Option (String × String))
          → Keeps view (elim o [
            | none ↦ pure tt
            | some (namespace, name) ↦ find_egress_ip h k namespace name >>= λ found. elim found [
              | none ↦ pure tt
              | some e ↦ process_resource h k c key e
            ]
          ])
      split none = Keeps-pure tt
      split (some (n, s)) =
          Keeps-bind (find_egress_ip-Keeps n s)
            (λ o. Keeps-option o _ _ (Keeps-pure tt) (process_resource-Keeps c key))
