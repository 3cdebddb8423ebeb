-- ===== src/Tests/Director.antt =====
-- pkg/director/director.go on the simulated host.
use kube_static_egress_ip.Prelude.{◌≡◌, refl, String, true, List, [], ◌∷◌}
use kube_static_egress_ip.Prelude.Text.{◌<>◌, contains, without_dots}
use kube_static_egress_ip.Effect.{ok, ◌>>=◌, on_error, for_each}
use kube_static_egress_ip.Effect.Edits.{After}
use kube_static_egress_ip.Host.Rules.{edit}
use kube_static_egress_ip.Host.Sets.{put_members}
use kube_static_egress_ip.Host.Simulated.{World, simulated, simulated_rules, simulated_history}
use kube_static_egress_ip.Chains.{
  or_exists, ensure_first, ensure_last, ensure_gone, open_set, add_ips,
}
use kube_static_egress_ip.Director.Tunnels.{tunnel_name_collides, tunnel_name_fits}
use kube_static_egress_ip.Prelude.Lengths.{len, dots}
use kube_static_egress_ip.Prelude.Text.{one_char}
use kube_static_egress_ip.Prelude.{◌≤◌, arith}
use kube_static_egress_ip.Director.{
  tunnel_name, setup, EgressDirector, mark_and_bypass, unmark_and_unbypass, open_tunnel, add_route,
  delete_route, address_of_cidr, add_route_to_gateway, delete_route_to_gateway,
}
use kube_static_egress_ip.Director.Rules.{Adding, marked, bypassed, add_route_rules}
use kube_static_egress_ip.Director.Repeats.{IsDirected, add_route_again, delete_route-add_route}
use kube_static_egress_ip.Director.Routes.{delete_route_listed, add_route_commands}

abbrev director : EgressDirector
director = record { node_ip = "192.168.1.201" }

abbrev fresh : World
fresh = record { rules = λ t c. []; members = λ s. []; commands = []; routes = "" }

abbrev ips : List String
ips = "10.244.1.3" ∷ "10.244.1.4" ∷ []

abbrev after_add : World
after_add =
    (add_route_to_gateway simulated director "EGRESS-IP-A" ips "4.2.2.2/32" "192.168.1.200" fresh).1

-- The commands of a first addition.
add_commands :
    after_add.commands
    ≡ ("ip" ∷ "tunnel" ∷ "add" ∷ "tun1921681200" ∷ "mode" ∷ "gre" ∷ "remote" ∷ "192.168.1.200"
        ∷ "local" ∷ "192.168.1.201" ∷ [])
      ∷ ("ip" ∷ "link" ∷ "set" ∷ "up" ∷ "tun1921681200" ∷ [])
      ∷ ("ip" ∷ "route" ∷ "add" ∷ "4.2.2.2/32" ∷ "dev" ∷ "tun1921681200" ∷ "table"
          ∷ "kube-static-egress-ip" ∷ [])
      ∷ []
unfolding add_route_to_gateway mark_and_bypass open_tunnel add_route open_set add_ips ensure_first
    ensure_last ◌>>=◌ on_error for_each edit put_members contains address_of_cidr without_dots
add_commands = refl

added_ok :
    add_route_to_gateway simulated director "EGRESS-IP-A" ips "4.2.2.2/32" "192.168.1.200" fresh
    ≡ (ok tt, after_add)
unfolding add_route_to_gateway mark_and_bypass open_tunnel add_route open_set add_ips ensure_first
    ensure_last ◌>>=◌ on_error for_each edit put_members contains address_of_cidr without_dots
added_ok = refl

add_route_rules_example :
    After simulated_rules.rules
      (Adding "EGRESS-IP-A" "4.2.2.2/32" fresh.rules)
      (bypassed "EGRESS-IP-A" "4.2.2.2/32" (marked "EGRESS-IP-A" "4.2.2.2/32" fresh.rules))
      (add_route_to_gateway simulated director "EGRESS-IP-A" ips "4.2.2.2/32" "192.168.1.200" fresh)
add_route_rules_example =
    add_route_rules simulated simulated_rules director "EGRESS-IP-A" ips "4.2.2.2/32"
      "192.168.1.200" fresh

-- The second addition has one address more and another gateway.
add_route_again_example :
    IsDirected "EGRESS-IP-A" "4.2.2.2/32" after_add.rules
    × ((add_route_to_gateway simulated director "EGRESS-IP-A"
          ("10.244.1.5" ∷ ips)
          "4.2.2.2/32"
          "192.168.1.202"
          after_add).1.rules
        ≡ after_add.rules)
add_route_again_example =
    add_route_again simulated simulated_rules director "EGRESS-IP-A" ips ("10.244.1.5" ∷ ips)
      "4.2.2.2/32" "192.168.1.200" "192.168.1.202" fresh after_add added_ok

abbrev after_delete : World
after_delete =
    (delete_route_to_gateway simulated "EGRESS-IP-A" "4.2.2.2/32" "192.168.1.200" after_add).1

deleted_ok :
    delete_route_to_gateway simulated "EGRESS-IP-A" "4.2.2.2/32" "192.168.1.200" after_add
    ≡ (ok tt, after_delete)
unfolding add_route_to_gateway mark_and_bypass open_tunnel add_route open_set add_ips ensure_first
    ensure_last ◌>>=◌ on_error for_each edit put_members contains address_of_cidr without_dots
    delete_route_to_gateway unmark_and_unbypass delete_route ensure_gone
deleted_ok = refl

delete_route-add_route_example : after_delete.rules ≡ fresh.rules
delete_route-add_route_example =
    delete_route-add_route simulated simulated_rules director "EGRESS-IP-A" ips "4.2.2.2/32"
      "192.168.1.200" "192.168.1.200" fresh after_add after_delete refl refl added_ok deleted_ok

-- The route of the first addition, as `ip route list` shows it.
abbrev with_route : World
with_route = record after_add { routes = "4.2.2.2/32 dev tun1921681200 scope link" }

route_is_listed : contains with_route.routes "4.2.2.2/32" ≡ true
unfolding contains
route_is_listed = refl

delete_route_listed_example :
    simulated_history.history
      (delete_route_to_gateway simulated "EGRESS-IP-A" "4.2.2.2/32" "192.168.1.200" with_route).1
    ≡ simulated_history.history with_route
delete_route_listed_example =
    delete_route_listed simulated simulated_history "EGRESS-IP-A" "4.2.2.2/32" "192.168.1.200"
      with_route route_is_listed

-- A listed 4.2.2.20 keeps the route to 4.2.2.2 from being added.
add_route_commands_example :
    (add_route simulated "4.2.2.2" "tun1921681200"
      (record fresh { routes = "4.2.2.20 dev tun1" })).1.commands
    ≡ []
unfolding contains address_of_cidr
add_route_commands_example =
    add_route_commands simulated simulated_history "4.2.2.2" "tun1921681200"
      (record fresh { routes = "4.2.2.20 dev tun1" })

setup_ok : setup simulated fresh ≡ (ok tt, (setup simulated fresh).1)
unfolding setup or_exists ensure_first ◌>>=◌ on_error edit contains
setup_ok = refl

tunnel_name_collides_example :
    tunnel_name ("10.1" <> "." <> "1" <> "1.1") ≡ tunnel_name ("10.1" <> "1" <> "." <> "1.1")
tunnel_name_collides_example = tunnel_name_collides "10.1" "1" "1.1"

tunnel_name_fits_example :
    (len (tunnel_name "255.255.255.255") ≡ len "255.255.255.255")
    × (len (tunnel_name "255.255.255.255") ≤ 15)
unfolding dots one_char
tunnel_name_fits_example = tunnel_name_fits "255.255.255.255" refl (omega arith)
