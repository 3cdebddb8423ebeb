-- ===== src/Tests/Gateway.antt =====
-- pkg/gateway/gateway.go and staticIP.go on the simulated host.
use kube_static_egress_ip.Prelude.{◌≡◌, refl, String, true, List, [], ◌∷◌}
use kube_static_egress_ip.Effect.{ok, ◌>>=◌, on_error, for_each}
use kube_static_egress_ip.Host.Rules.{edit, has_rule}
use kube_static_egress_ip.Host.Sets.{put_members}
use kube_static_egress_ip.Host.Simulated.{World, simulated, simulated_rules}
use kube_static_egress_ip.Chains.{
  or_exists, ensure_first, ensure_last, ensure_gone, open_set, add_ips,
}
use kube_static_egress_ip.Gateway.{
  return_rule, create_chain_if_not_exist, insert_rule, delete_rule, setup, forward_and_translate,
  add_static_iptables_rule, delete_static_iptables_rule,
}
use kube_static_egress_ip.Gateway.Rules.{return_marked}
use kube_static_egress_ip.Gateway.Repeats.{IsTranslated, add_static_again, delete_static-add_static}
use kube_static_egress_ip.Gateway.StaticIp.{
  any_in_same_network, exists_in_same_network, get_interface_name,
}
use kube_static_egress_ip.Gateway.StaticIp.Interfaces.{InterfaceLaws, get_interface_name_lem}

abbrev fresh : World
fresh = record { rules = λ t c. []; members = λ s. []; commands = []; routes = "" }

abbrev pods : List String
pods = "10.244.1.3" ∷ []

abbrev after_add : World
after_add =
    (add_static_iptables_rule simulated "EGRESS-IP-A" pods "4.2.2.2/32" "100.137.146.100" fresh).1

added_ok :
    add_static_iptables_rule simulated "EGRESS-IP-A" pods "4.2.2.2/32" "100.137.146.100" fresh
    ≡ (ok tt, after_add)
unfolding add_static_iptables_rule forward_and_translate insert_rule open_set add_ips ensure_first
    ensure_last ◌>>=◌ on_error for_each edit put_members
added_ok = refl

abbrev after_delete : World
after_delete =
    (delete_static_iptables_rule simulated "EGRESS-IP-A" "4.2.2.2/32" "100.137.146.100" after_add).1

deleted_ok :
    delete_static_iptables_rule simulated "EGRESS-IP-A" "4.2.2.2/32" "100.137.146.100" after_add
    ≡ (ok tt, after_delete)
unfolding delete_static_iptables_rule delete_rule ensure_gone add_static_iptables_rule
    forward_and_translate insert_rule open_set add_ips ensure_first ensure_last ◌>>=◌ on_error
    for_each edit put_members
deleted_ok = refl

add_static_again_example :
    IsTranslated "EGRESS-IP-A" "4.2.2.2/32" "100.137.146.100" after_add.rules
    × ((add_static_iptables_rule simulated "EGRESS-IP-A" [] "4.2.2.2/32" "100.137.146.100"
          after_add).1.rules
        ≡ after_add.rules)
add_static_again_example =
    add_static_again simulated simulated_rules "EGRESS-IP-A" pods [] "4.2.2.2/32" "100.137.146.100"
      fresh after_add added_ok

delete_static-add_static_example :
    (after_delete.rules ≡ return_marked "4.2.2.2/32" "100.137.146.100" fresh.rules)
    × (has_rule
          (return_rule "4.2.2.2/32" "100.137.146.100")
          (after_delete.rules "mangle" "PREROUTING")
        ≡ true)
delete_static-add_static_example =
    delete_static-add_static simulated simulated_rules "EGRESS-IP-A" pods "4.2.2.2/32"
      "100.137.146.100" fresh after_add after_delete refl refl added_ok deleted_ok

setup_ok : setup simulated fresh ≡ (ok tt, (setup simulated fresh).1)
unfolding setup create_chain_if_not_exist or_exists ensure_first ensure_last ◌>>=◌ on_error edit
setup_ok = refl

abbrev readable : InterfaceLaws simulated fresh
readable = record {
  listed = record { index = 2; name = "eth0" } ∷ [];
  interfaces_listed = refl;
  addresses = λ i. "100.137.146.100/32" ∷ [];
  addrs_listed = λ i. refl;
}

get_interface_name_lem_example :
    get_interface_name simulated "100.137.146.100/32" 2 fresh ≡ (ok "eth0", fresh)
unfolding any_in_same_network exists_in_same_network
get_interface_name_lem_example =
    get_interface_name_lem simulated fresh readable "100.137.146.100/32" 2
