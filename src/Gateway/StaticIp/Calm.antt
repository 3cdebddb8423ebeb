-- ===== src/Gateway/StaticIp/Calm.antt =====
-- Configuring or removing an egress address neither panics nor ends the process.
use kube_static_egress_ip.Prelude.{ℕ, String, Option, none, some, List, [], ◌∷◌}
use kube_static_egress_ip.Prelude.Text.{◌<>◌}
use kube_static_egress_ip.Effect.{ok, M, plain, fail, ◌>>=◌}
use kube_static_egress_ip.Effect.Calm.{
  IsCalm, IsCalm-result, IsCalm-bind, IsCalm-on_error, IsCalm-if,
}
use kube_static_egress_ip.Host.{Host, Interface}
use kube_static_egress_ip.Gateway.StaticIp.{
  any_in_same_network, scan_interfaces, get_interface_name, first_route, get_interface_for_network,
  add_secondary_ip_to_interface, remove_secondary_ip_to_interface, configure_static_ip,
  remove_static_ip,
}

module _ {W : Type 0} (h : Host W) where
  open h use {
    Ip, Addr, Link, interfaces, addrs, route_get, parse_addr, link_by_name, addr_add, addr_del,
  }

  -- The calls of netlink and net return a value or an error.
  pub record CalmLinks : Type 0 where
    pub interfaces_calm : IsCalm interfaces
    pub addrs_calm : (i : Interface) → IsCalm (addrs i)
    pub route_get_calm : (ip : Ip) → IsCalm (route_get ip)
    pub parse_addr_calm : (a : String) → IsCalm (parse_addr a)
    pub link_by_name_calm : (n : String) → IsCalm (link_by_name n)
    pub addr_add_calm : (l : Link) (a : Addr) → IsCalm (addr_add l a)
    pub addr_del_calm : (l : Link) (a : Addr) → IsCalm (addr_del l a)

module _ {W : Type 0} (h : Host W) (C : CalmLinks h) where
  scan_interfaces-IsCalm :
      (ip : h.Ip) (n : ℕ) (l : List Interface) → IsCalm (scan_interfaces h ip n l)
  unfolding scan_interfaces
  scan_interfaces-IsCalm ip n [] = IsCalm-result _ tt
  scan_interfaces-IsCalm ip n (i ∷ l) =
      IsCalm-if _
        (IsCalm-bind (C.addrs_calm i) (λ a.
          IsCalm-if (any_in_same_network h a ip) (IsCalm-result (ok i.name) tt)
            (scan_interfaces-IsCalm ip n l)))
        (scan_interfaces-IsCalm ip n l)

  routed : (ip : h.Ip) (l : List ℕ) → IsCalm (first_route h ip l)
  unfolding first_route get_interface_name
  routed ip [] = IsCalm-result _ tt
  routed ip (n ∷ l) = IsCalm-bind C.interfaces_calm (scan_interfaces-IsCalm ip n)

  interface_for-IsCalm : (a : String) → IsCalm (get_interface_for_network h a)
  unfolding get_interface_for_network
  interface_for-IsCalm a = cidr (h.parse_cidr a)
    where
      cidr :
          (o : Option (h.Ip × h.Subnet))
          → let m : M W String = elim o [
            | none ↦ fail (plain ("invalid CIDR address: " <> a))
            | some (ip, _) ↦ h.route_get ip >>= first_route h ip
          ] in
            IsCalm m
      cidr none = IsCalm-result _ tt
      cidr (some (ip, n)) = IsCalm-bind (C.route_get_calm ip) (routed ip)

  pub configure_static_ip-IsCalm : (a : String) → IsCalm (configure_static_ip h a)
  unfolding configure_static_ip add_secondary_ip_to_interface
  configure_static_ip-IsCalm a = IsCalm-bind (interface_for-IsCalm a) λ n.
      IsCalm-bind (IsCalm-on_error _ (C.parse_addr_calm a))
        λ x. IsCalm-bind (IsCalm-on_error _ (C.link_by_name_calm n)) λ l. C.addr_add_calm l x

  pub remove_static_ip-IsCalm : (a : String) → IsCalm (remove_static_ip h a)
  unfolding remove_static_ip remove_secondary_ip_to_interface
  remove_static_ip-IsCalm a = IsCalm-bind (interface_for-IsCalm a) λ n.
      IsCalm-bind (IsCalm-on_error _ (C.parse_addr_calm a))
        λ x. IsCalm-bind (IsCalm-on_error _ (C.link_by_name_calm n)) λ l. C.addr_del_calm l x
