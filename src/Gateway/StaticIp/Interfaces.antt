-- ===== src/Gateway/StaticIp/Interfaces.antt =====
-- Which interface the egress address goes to.
use kube_static_egress_ip.Prelude.{
  ℕ, ◌≡◌, refl, String, Bool, ◌&&◌, List, [], ◌∷◌, nat_eqb, if◌then◌else◌, arith,
}
use kube_static_egress_ip.Effect.{Outcome, ok, err, plain, ◌>>=◌}
use kube_static_egress_ip.Host.{Host, Interface}
use kube_static_egress_ip.Gateway.StaticIp.{
  any_in_same_network, scan_interfaces, get_interface_name,
}

-- Interfaces and their addresses that can be read, and that reading does not change.
pub record InterfaceLaws {W : Type 0} (h : Host W) (w : W) : Type 0 where
  pub listed : List Interface
  pub interfaces_listed : h.interfaces w ≡ (ok listed, w)
  pub addresses : Interface → List String
  pub addrs_listed : (i : Interface) → h.addrs i w ≡ (ok (addresses i), w)

module _ {W : Type 0} (h : Host W) (w : W) (L : InterfaceLaws h w) (ip : h.Ip) (n : ℕ) where
  open L use {listed, addresses}

  -- The interface has the route's index, and an address whose network contains the address.
  abbrev pub fits : Interface → Bool
  fits i = nat_eqb i.index n && any_in_same_network h (addresses i) ip

  abbrev pub fitting : List Interface → List Interface
  fitting [] = []
  fitting (i ∷ l) = let rest = fitting l in if fits i then i ∷ rest else rest

  -- The name of the first of them, or an error if there is none.
  abbrev pub first_name : List Interface → Outcome String
  first_name [] = err (plain "failed to find interface")
  first_name (i ∷ l) = ok i.name

  scan_interfaces_lem :
      (l : List Interface) → scan_interfaces h ip n l w ≡ (first_name (fitting l), w)
  unfolding scan_interfaces ◌>>=◌
  scan_interfaces_lem [] = refl
  scan_interfaces_lem (i ∷ l) = ground (arith, L.addrs_listed i, scan_interfaces_lem l)

  -- Where the interfaces and their addresses can be read and reading changes nothing, the search
  -- returns the name of the first interface with the route's index and an address whose network
  -- contains the egress address, in the order in which the node lists its interfaces; where there
  -- is none it is an error, and nothing has changed either way.
  pub get_interface_name_lem : get_interface_name h ip n w ≡ (first_name (fitting listed), w)
  unfolding get_interface_name ◌>>=◌
  get_interface_name_lem = rw L.interfaces_listed (scan_interfaces_lem listed)
