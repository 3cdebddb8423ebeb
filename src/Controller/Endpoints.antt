-- ===== src/Controller/Endpoints.antt =====
-- Which addresses a rule's ipset is filled with.
use kube_static_egress_ip.Prelude.{
  ℕ, ◌+◌, ◌*◌, ◌≡◌, refl, ap, ◌∙◌, String, Bool, true, false, ◌||◌, ◌&&◌, List, [], ◌∷◌, ◌++◌, ◌==◌,
  if◌then◌else◌, map, elem, elem-append, length, length-append, arith,
}
use kube_static_egress_ip.Api.{EndpointSubset, EndpointAddress}
use kube_static_egress_ip.Controller.{once_for_each_port, endpoint_ips}

abbrev pub has_ports : List ℕ → Bool
has_ports [] = false
has_ports (p ∷ l) = true

abbrev pub address_ips : EndpointSubset → List String
address_ips subset = map (λ a. a.ip) subset.addresses

-- Some subset with a port has the address.
abbrev pub is_endpoint : String → List EndpointSubset → Bool
is_endpoint ip [] = false
is_endpoint ip (s ∷ l) = has_ports s.ports && elem ip (address_ips s) || is_endpoint ip l

-- How often a list has a text.
abbrev pub occurrences : String → List String → ℕ
occurrences x [] = 0
occurrences x (y ∷ ys) = (if y == x then 1 else 0) + occurrences x ys

-- How many of some addresses are the given one.
abbrev pub addresses_of : String → List EndpointAddress → ℕ
addresses_of ip [] = 0
addresses_of ip (a ∷ l) = (if a.ip == ip then 1 else 0) + addresses_of ip l

-- Ports times the addresses that are the given one, over all subsets.
abbrev pub listings : String → List EndpointSubset → ℕ
listings ip [] = 0
listings ip (s ∷ l) = length s.ports * addresses_of ip s.addresses + listings ip l

occurrences-append :
    (x : String) (ys zs : List String)
    → occurrences x (ys ++ zs) ≡ occurrences x ys + occurrences x zs
occurrences-append x [] zs = omega arith
occurrences-append x (y ∷ ys) zs = omega (arith, occurrences-append x ys zs)

occurrences-once_for_each_port :
    (x : String) (ports : List ℕ) (ips : List String)
    → occurrences x (once_for_each_port ports ips) ≡ length ports * occurrences x ips
unfolding once_for_each_port
occurrences-once_for_each_port x [] ips = omega arith
occurrences-once_for_each_port x (p ∷ l) ips =
    occurrences-append x ips (once_for_each_port l ips)
    ∙ grind (arith, occurrences-once_for_each_port x l ips)

occurrences-map_ips :
    (x : String) (l : List EndpointAddress) → occurrences x (map (λ a. a.ip) l) ≡ addresses_of x l
occurrences-map_ips x [] = refl
occurrences-map_ips x (a ∷ l) = omega (arith, occurrences-map_ips x l)

occurrences-endpoint_ips :
    (x : String) (l : List EndpointSubset) → occurrences x (endpoint_ips l) ≡ listings x l
unfolding endpoint_ips
occurrences-endpoint_ips x [] = refl
occurrences-endpoint_ips x (s ∷ l) =
    occurrences-append x (once_for_each_port s.ports (address_ips s)) (endpoint_ips l)
    ∙ omega (
      arith,
      occurrences-once_for_each_port x s.ports (address_ips s),
      occurrences-endpoint_ips x l,
      ap (λ (n : ℕ). length s.ports * n) (occurrences-map_ips x s.addresses),
    )

-- Ports times addresses, over all subsets.
abbrev pub port_addresses : List EndpointSubset → ℕ
port_addresses [] = 0
port_addresses (s ∷ l) = length s.ports * length s.addresses + port_addresses l

elem-once_for_each_port :
    (ip : String) (ports : List ℕ) (ips : List String)
    → elem ip (once_for_each_port ports ips) ≡ (has_ports ports && elem ip ips)
unfolding once_for_each_port
elem-once_for_each_port ip [] ips = refl
elem-once_for_each_port ip (p ∷ l) ips =
    elem-append ip ips (once_for_each_port l ips) ∙ ground (arith, elem-once_for_each_port ip l ips)

length-map_ips : (l : List EndpointAddress) → length (map (λ a. a.ip) l) ≡ length l
length-map_ips [] = refl
length-map_ips (a ∷ l) = omega (arith, length-map_ips l)

length-once_for_each_port :
    (ports : List ℕ) (ips : List String)
    → length (once_for_each_port ports ips) ≡ length ports * length ips
unfolding once_for_each_port
length-once_for_each_port [] ips = omega arith
length-once_for_each_port (p ∷ l) ips =
    length-append ips (once_for_each_port l ips) ∙ grind (arith, length-once_for_each_port l ips)

elem-endpoint_ips :
    (ip : String) (l : List EndpointSubset) → elem ip (endpoint_ips l) ≡ is_endpoint ip l
unfolding endpoint_ips
elem-endpoint_ips ip [] = refl
elem-endpoint_ips ip (s ∷ l) =
    elem-append ip (once_for_each_port s.ports (address_ips s)) (endpoint_ips l)
    ∙ ground (arith, elem-once_for_each_port ip s.ports (address_ips s), elem-endpoint_ips ip l)

length-endpoint_ips : (l : List EndpointSubset) → length (endpoint_ips l) ≡ port_addresses l
unfolding endpoint_ips
length-endpoint_ips [] = refl
length-endpoint_ips (s ∷ l) =
    length-append (once_for_each_port s.ports (address_ips s)) (endpoint_ips l)
    ∙ omega (
      arith,
      length-once_for_each_port s.ports (address_ips s),
      length-map_ips s.addresses,
      length-endpoint_ips l,
      ap (λ (n : ℕ). length s.ports * n) (length-map_ips s.addresses),
    )

-- The addresses collected for a rule are exactly those of subsets that have a port. Each is
-- listed as often as the sum says, over the subsets, of the subset's number of ports times the
-- number of its addresses that are the one in question; in all, there are as many as the sum of
-- ports times addresses.
pub endpoint_ips_lem :
    (l : List EndpointSubset)
    → ((ip : String) → elem ip (endpoint_ips l) ≡ is_endpoint ip l)
      × ((ip : String) → occurrences ip (endpoint_ips l) ≡ listings ip l)
      × (length (endpoint_ips l) ≡ port_addresses l)
endpoint_ips_lem l =
    (λ ip. elem-endpoint_ips ip l, λ ip. occurrences-endpoint_ips ip l, length-endpoint_ips l)
