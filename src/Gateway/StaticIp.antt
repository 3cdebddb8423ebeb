-- ===== src/Gateway/StaticIp.antt =====
-- pkg/gateway/staticIP.go: the egress address on an interface of the gateway node.
pub mod Interfaces
pub mod Calm
use kube_static_egress_ip.Prelude.{
  ℕ, String, Bool, true, false, not, Option, none, some, List, [], ◌∷◌, if◌then◌else◌, nat_eqb,
}
use kube_static_egress_ip.Prelude.Text.{◌<>◌}
use kube_static_egress_ip.Effect.{
  Error, plain, text, Outcome, ok, err, M, pure, fail, ◌>>=◌, ◌>>◌, on_error,
}
use kube_static_egress_ip.Host.{Host, Interface}

module _ {W : Type 0} (h : Host W) where
  open h use {
    Ip, Subnet, Addr, Link, parse_cidr, subnet_contains, interfaces, addrs, route_get, parse_addr,
    link_by_name, addr_add, addr_del,
  }

  unfoldable pub exists_in_same_network : String → Ip → Bool
  exists_in_same_network addr ip = elim (parse_cidr addr) [
    | none ↦ false
    | some (_, inet) ↦ subnet_contains inet ip
  ]

  -- for _, addr := range addresses { if existsInSameNetwork(addr, staticIP) { return ... } }
  unfoldable pub any_in_same_network : List String → Ip → Bool
  any_in_same_network [] ip = false
  any_in_same_network (addr ∷ l) ip =
      if exists_in_same_network addr ip then true else any_in_same_network l ip

  -- The loop of getInterfaceName over the interfaces.
  unfoldable pub scan_interfaces : Ip → ℕ → List Interface → M W String
  scan_interfaces ip route_index [] = fail (plain "failed to find interface")
  scan_interfaces ip route_index (iface ∷ l) =
      let rest = scan_interfaces ip route_index l in
      let inspect : M W String = addrs iface >>= λ addresses.
      if any_in_same_network addresses ip then pure iface.name else rest in
      if nat_eqb iface.index route_index then inspect else rest

  unfoldable pub get_interface_name : Ip → ℕ → M W String
  get_interface_name ip route_index = do ifaces ← interfaces; scan_interfaces ip route_index ifaces

  -- `err` is nil where no route is found, and its text is then "<nil>".
  unfoldable pub first_route : Ip → List ℕ → M W String
  first_route ip [] = fail (plain "failed to get route err <nil>")
  first_route ip (index ∷ l) = get_interface_name ip index

  unfoldable pub get_interface_for_network : String → M W String
  unfolding first_route
  get_interface_for_network static_ip_addr = elim (parse_cidr static_ip_addr) [
    | none ↦ fail (plain ("invalid CIDR address: " <> static_ip_addr))
    | some (ip, _) ↦ (do route ← route_get ip; first_route ip route)
  ]

  -- netlink.ParseAddr and netlink.LinkByName, then one call with both.
  with_link : (Link → Addr → M W (Unit {0})) → String → String → M W (Unit {0})
  with_link call static_ip name = do
    addr ← on_error (λ e. plain ("failed to parse static IP err " <> text e)) (parse_addr static_ip)
    link ← on_error (λ e. plain ("failed to get link by name " <> text e)) (link_by_name name)
    call link addr

  unfoldable pub add_secondary_ip_to_interface : String → String → M W (Unit {0})
  unfolding with_link
  add_secondary_ip_to_interface = with_link addr_add

  unfoldable pub remove_secondary_ip_to_interface : String → String → M W (Unit {0})
  unfolding with_link
  remove_secondary_ip_to_interface = with_link addr_del

  unfoldable pub configure_static_ip : String → M W (Unit {0})
  configure_static_ip static_vip = do
    interface_name ← get_interface_for_network static_vip
    add_secondary_ip_to_interface static_vip interface_name

  unfoldable pub remove_static_ip : String → M W (Unit {0})
  remove_static_ip static_vip = do
    interface_name ← get_interface_for_network static_vip
    remove_secondary_ip_to_interface static_vip interface_name
