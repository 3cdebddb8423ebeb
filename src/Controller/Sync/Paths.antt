-- ===== src/Controller/Sync/Paths.antt =====
-- How a gateway node reaches the endpoints and gets or drops the egress address, and what that
-- leaves alone.
use kube_static_egress_ip.Prelude.{ℕ, String, Option, none, some, List, [], ◌∷◌}
use kube_static_egress_ip.Prelude.Text.{◌<>◌}
use kube_static_egress_ip.Effect.{M, plain, fail, ◌>>=◌}
use kube_static_egress_ip.Effect.Keeps.{
  Keeps, Keeps-pure, Keeps-panic, Keeps-bind, Keeps-on_error, Keeps-attempt, Keeps-if,
  Keeps-for_each,
}
use kube_static_egress_ip.Api.{EndpointAddress, EndpointSubset}
use kube_static_egress_ip.Host.{Host, Interface}
use kube_static_egress_ip.Cluster.{Cluster}
use kube_static_egress_ip.Cluster.Calls.{PathsKeep}
use kube_static_egress_ip.Utils.{get_node_ip_by_node_name, ip_text}
use kube_static_egress_ip.Gateway.StaticIp.{
  first_route, scan_interfaces, get_interface_name, get_interface_for_network,
  add_secondary_ip_to_interface, remove_secondary_ip_to_interface, configure_static_ip,
  remove_static_ip,
}
use kube_static_egress_ip.Controller.{Controller, return_path, reach_address, reach_subset}
use kube_static_egress_ip.Controller.Sync.Steps.{Keeps-result, Keeps-option, sync_rules}

module _ {W V : Type 0} (h : Host W) (k : Cluster W) (view : W → V) (C : PathsKeep h k view) where
  return_path-Keeps :
      (c : Controller) (ip remote : String) → Keeps view (return_path h k c ip remote)
  unfolding return_path
  return_path-Keeps c ip remote = search (sync_rules, C.output-keeps, C.run-keeps) depth 12

  reach_address-Keeps : (c : Controller) (a : EndpointAddress) → Keeps view (reach_address h k c a)
  unfolding reach_address get_node_ip_by_node_name
  reach_address-Keeps c a = Keeps-option a.node_name _ _ (Keeps-panic _) (λ name.
      Keeps-bind (Keeps-attempt (Keeps-bind (C.get_node-keeps name) (λ n. Keeps-result _)))
        (λ o. Keeps-option o _ _ (Keeps-pure tt) (λ ip. return_path-Keeps c a.ip (ip_text h ip))))

  pub reach_subset-Keeps : (c : Controller) (s : EndpointSubset) → Keeps view (reach_subset h k c s)
  unfolding reach_subset
  reach_subset-Keeps c s =
      Keeps-for_each _ s.ports
        (λ _. Keeps-for_each (reach_address h k c) s.addresses (reach_address-Keeps c))

  scan_interfaces-Keeps :
      (ip : h.Ip) (n : ℕ) (l : List Interface) → Keeps view (scan_interfaces h ip n l)
  unfolding scan_interfaces
  scan_interfaces-Keeps ip n [] = Keeps-result _
  scan_interfaces-Keeps ip n (i ∷ l) =
      Keeps-if _
        (Keeps-bind (C.addrs-keeps i)
          (λ a. Keeps-if _ (Keeps-pure _) (scan_interfaces-Keeps ip n l)))
        (scan_interfaces-Keeps ip n l)

  interface_for-Keeps : (a : String) → Keeps view (get_interface_for_network h a)
  unfolding get_interface_for_network get_interface_name
  interface_for-Keeps a = cidr (h.parse_cidr a)
    where
      routed : (ip : h.Ip) (l : List ℕ) → Keeps view (first_route h ip l)
      routed ip [] = Keeps-result _
      routed ip (n ∷ l) = Keeps-bind C.interfaces-keeps (scan_interfaces-Keeps ip n)

      cidr :
          (o : Option (h.Ip × h.Subnet))
          → let m : M W String = elim o [
            | none ↦ fail (plain ("invalid CIDR address: " <> a))
            | some (ip, _) ↦ h.route_get ip >>= first_route h ip
          ] in
            Keeps view m
      cidr none = Keeps-result _
      cidr (some (ip, n)) = Keeps-bind (C.route_get-keeps ip) (routed ip)

  pub configure_static_ip-Keeps : (a : String) → Keeps view (configure_static_ip h a)
  unfolding configure_static_ip add_secondary_ip_to_interface
  configure_static_ip-Keeps a = Keeps-bind (interface_for-Keeps a) λ n.
      Keeps-bind (Keeps-on_error _ (C.parse_addr-keeps a))
        λ x. Keeps-bind (Keeps-on_error _ (C.link_by_name-keeps n)) λ l. C.addr_add-keeps l x

  pub remove_static_ip-Keeps : (a : String) → Keeps view (remove_static_ip h a)
  unfolding remove_static_ip remove_secondary_ip_to_interface
  remove_static_ip-Keeps a = Keeps-bind (interface_for-Keeps a) λ n.
      Keeps-bind (Keeps-on_error _ (C.parse_addr-keeps a))
        λ x. Keeps-bind (Keeps-on_error _ (C.link_by_name-keeps n)) λ l. C.addr_del-keeps l x
