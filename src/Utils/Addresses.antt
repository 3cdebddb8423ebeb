-- ===== src/Utils/Addresses.antt =====
-- The address that a node is reached at: grouping by type against a search of the list.
use kube_static_egress_ip.Prelude.{
  ◌≡◌, refl, ap, String, Option, none, some, List, [], ◌∷◌, ◌++◌, ◌==◌, eq_iff, arith,
  if◌then◌else◌,
}
use mathlib.Core.List.{append-nil, append_assoc}
use kube_static_egress_ip.Effect.{Outcome, ok, err, plain, Settles}
use kube_static_egress_ip.Api.{Node, NodeAddress, node_internal_ip, node_external_ip}
use kube_static_egress_ip.Host.{Host}
use kube_static_egress_ip.Utils.{AddressMap, lookup, append_address, group_addresses, get_node_ip}

-- The first address of a type, in the order of the list.
abbrev pub first_of_type : String → List NodeAddress → Option NodeAddress
first_of_type t [] = none
first_of_type t (a ∷ l) = if a.address_type == t then some a else first_of_type t l

abbrev of_type : String → List NodeAddress → List NodeAddress
of_type t [] = []
of_type t (a ∷ l) = let rest = of_type t l in if a.address_type == t then a ∷ rest else rest

-- An entry of the map, with more addresses of its type.
abbrev extend : Option (List NodeAddress) → List NodeAddress → Option (List NodeAddress)
extend none [] = none
extend none (a ∷ l) = some (a ∷ l)
extend (some k) l = some (k ++ l)

lookup-append_address :
    (t : String) (a : NodeAddress) (m : AddressMap)
    → lookup t (append_address a m)
      ≡ (if a.address_type == t then extend (lookup t m) (a ∷ []) else lookup t m)
unfolding lookup append_address
lookup-append_address t a [] = ground arith
lookup-append_address t a ((u, l) ∷ m) = ground (
  arith,
  lookup-append_address t a m,
  eq_iff u t,
  eq_iff u a.address_type,
  eq_iff a.address_type t,
)

extend-extend :
    (o : Option (List NodeAddress)) (a : NodeAddress) (l : List NodeAddress)
    → extend (extend o (a ∷ [])) l ≡ extend o (a ∷ l)
extend-extend none a l = refl
extend-extend (some k) a l = ap some (append_assoc k (a ∷ []) l)

extend-nil : (o : Option (List NodeAddress)) → extend o [] ≡ o
extend-nil none = refl
extend-nil (some k) = ap some (append-nil k)

lookup-group_addresses :
    (t : String) (m : AddressMap) (l : List NodeAddress)
    → lookup t (group_addresses m l) ≡ extend (lookup t m) (of_type t l)
unfolding group_addresses
lookup-group_addresses t m [] = rw extend-nil
lookup-group_addresses t m (a ∷ l) =
    rw (lookup-group_addresses t (append_address a m) l, lookup-append_address t a m)
      (ground (arith, extend-extend (lookup t m) a (of_type t l)))

abbrev head_of : List NodeAddress → Option NodeAddress
head_of [] = none
head_of (a ∷ l) = some a

head_of-of_type : (t : String) (l : List NodeAddress) → head_of (of_type t l) ≡ first_of_type t l
head_of-of_type t [] = refl
head_of-of_type t (a ∷ l) = ground (arith, head_of-of_type t l)

module _ {W : Type 0} (h : Host W) where
  open h use {Ip, parse_ip}

  -- The internal address if the node has one, else the external one, else an error.
  abbrev pub preferred : Option NodeAddress → Option NodeAddress → Outcome (Option Ip)
  preferred (some a) _ = ok (parse_ip a.address)
  preferred none (some a) = ok (parse_ip a.address)
  preferred none none = err (plain "host IP unknown")

  -- A node's address is its first internal one, or else its first external one; a node with neither
  -- is an error, and no list of addresses makes the lookup panic.
  pub get_node_ip-eq-preferred :
      (n : Node)
      → get_node_ip h n
        ≡ preferred
            (first_of_type node_internal_ip n.addresses)
            (first_of_type node_external_ip n.addresses)
  unfolding get_node_ip lookup
  get_node_ip-eq-preferred n = ground (
    arith,
    lookup-group_addresses node_internal_ip [] n.addresses,
    lookup-group_addresses node_external_ip [] n.addresses,
    head_of-of_type node_internal_ip n.addresses,
    head_of-of_type node_external_ip n.addresses,
  )

  preferred-Settles : (a b : Option NodeAddress) → Settles (preferred a b)
  preferred-Settles (some a) b = tt
  preferred-Settles none (some b) = tt
  preferred-Settles none none = tt

  pub get_node_ip-Settles : (n : Node) → Settles (get_node_ip h n)
  get_node_ip-Settles n = rw get_node_ip-eq-preferred (preferred-Settles _ _)
