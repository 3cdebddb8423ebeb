-- ===== src/Utils.antt =====
-- pkg/utils/node.go: the node that the program runs on, and the address of a node.
pub mod Addresses
pub mod Lookup
use kube_static_egress_ip.Prelude.{
  ℕ, zero, suc, String, Bool, true, false, not, Option, none, some, List, [], ◌∷◌, ◌++◌, ◌==◌,
  if◌then◌else◌, nat_eqb,
}
use kube_static_egress_ip.Prelude.Text.{◌<>◌}
use kube_static_egress_ip.Effect.{
  Error, plain, Outcome, ok, err, panicked, M, pure, fail, panic, ◌>>=◌, attempt,
}
use kube_static_egress_ip.Api.{Node, NodeAddress, node_internal_ip, node_external_ip}
use kube_static_egress_ip.Host.{Host, Interface}
use kube_static_egress_ip.Cluster.{Cluster}

-- map[apiv1.NodeAddressType][]apiv1.NodeAddress
abbrev pub AddressMap : Type 0
AddressMap = List (String × List NodeAddress)

unfoldable pub lookup : String → AddressMap → Option (List NodeAddress)
lookup t [] = none
lookup t ((u, l) ∷ m) = if u == t then some l else lookup t m

-- addressMap[a.Type] = append(addressMap[a.Type], a)
unfoldable pub append_address : NodeAddress → AddressMap → AddressMap
append_address a [] = (a.address_type, a ∷ []) ∷ []
append_address a ((u, l) ∷ m) =
    if u == a.address_type then (u, l ++ a ∷ []) ∷ m else (u, l) ∷ append_address a m

unfoldable pub group_addresses : AddressMap → List NodeAddress → AddressMap
group_addresses m [] = m
group_addresses m (a ∷ l) = group_addresses (append_address a m) l

module _ {W : Type 0} (h : Host W) where
  open h use {Ip, parse_ip, ip_string, parse_cidr, interfaces, addrs, getenv, hostname}

  -- ip.String(), of an address that may be nil
  unfoldable pub ip_text : Option Ip → String
  ip_text none = "<nil>"
  ip_text (some ip) = ip_string ip

  -- net.ParseIP(addresses[0].Address), nil
  first_address : List NodeAddress → Outcome (Option Ip)
  first_address [] = panicked "index out of range"
  first_address (a ∷ l) = ok (parse_ip a.address)

  unfoldable pub get_node_ip : Node → Outcome (Option Ip)
  unfolding group_addresses append_address lookup first_address
  get_node_ip node =
      let by_type = group_addresses [] node.addresses in
      elim (lookup node_internal_ip by_type) [
        | some internal ↦ first_address internal
        | none ↦ elim (lookup node_external_ip by_type) [
          | some external ↦ first_address external
          | none ↦ err (plain "host IP unknown")
        ]
      ]

  -- GetGatewayIP: the first address of the interface flannel.1, and "" where there is none.
  first_ip : List String → M W String
  first_ip [] = panic "index out of range"
  first_ip (a ∷ l) = elim (parse_cidr a) [
    | none ↦ fail (plain ("invalid CIDR address: " <> a))
    | some (ip, _) ↦ pure (ip_string ip)
  ]

  flannel_ip : List Interface → M W String
  flannel_ip [] = pure ""
  flannel_ip (iface ∷ l) =
      let rest = flannel_ip l in
      if iface.name == "flannel.1" then addrs iface >>= first_ip else rest

  unfoldable pub get_gateway_ip : M W String
  unfolding flannel_ip first_ip
  get_gateway_ip = interfaces >>= flannel_ip

  module _ (k : Cluster W) where
    open k use {get_node}

    -- One attempt after another: `some node` ends the search.
    first_found : M W (Option Node) → M W Node → M W Node
    first_found m next = do found ← m; elim found [ some node ↦ pure node | none ↦ next ]

    -- The name is asked for unless it is empty.
    by_name : String → M W (Option Node)
    by_name name = if name == "" then pure none else attempt (get_node name)

    -- The error of os.Hostname is dropped, and the name is then empty.
    host_name_or_empty : M W String
    host_name_or_empty = do name ← attempt hostname; elim name [ some n ↦ pure n | none ↦ pure "" ]

    unfoldable pub get_node_object : String → M W Node
    unfolding first_found by_name host_name_or_empty
    get_node_object hostname_override = do
      node_name ← getenv "NODE_NAME"
      first_found (by_name node_name) do
        host_name ← host_name_or_empty
        first_found (attempt (get_node host_name)) (
            first_found (by_name hostname_override) (
              fail (
                plain "Failed to identify the node by NODE_NAME, hostname or --hostname-override")))

    unfoldable pub get_node_ip_by_node_name : String → M W (Option Ip)
    unfolding get_node_ip
    get_node_ip_by_node_name name = do node ← get_node name; (λ w. (get_node_ip node, w))
