-- ===== src/Director.antt =====
-- pkg/director/director.go: the rules, tunnels and routes by which a node sends the traffic of
-- chosen pods to the gateway node.
pub mod Rules
pub mod Repeats
pub mod Directed
pub mod Routes
pub mod Sets
pub mod Setup
pub mod Tunnels
use kube_static_egress_ip.Prelude.{
  ℕ, String, Bool, true, false, not, ◌&&◌, Option, none, some, List, [], ◌∷◌, if◌then◌else◌,
  nat_eqb,
}
use kube_static_egress_ip.Prelude.Text.{◌<>◌, contains, without_dots}
use kube_static_egress_ip.Effect.{
  Error, plain, iptables_error, not_found, text, because, Outcome, ok, err, panicked, exited, M,
  pure, fail, panic, ◌>>=◌, ◌>>◌, on_error, when,
}
use kube_static_egress_ip.Host.{Host, RuleSpec}
use kube_static_egress_ip.Cluster.{Cluster}
use kube_static_egress_ip.Chains.{
  fwmark, accept_rule, jump_rule, or_exists, ensure_first, ensure_last, ensure_gone, open_set,
  add_ips,
}
use kube_static_egress_ip.Utils.{get_node_object, get_node_ip, ip_text}

abbrev pub route_table_id : String
route_table_id = "99"

abbrev pub route_table_name : String
route_table_name = "kube-static-egress-ip"

abbrev pub bypass_chain : String
bypass_chain = "STATIC-EGRESS-BYPASS-CNI"

abbrev pub rt_tables : String
rt_tables = "/etc/iproute2/rt_tables"

pub record EgressDirector : Type 0 where
  pub node_ip : String

-- The rule in the PREROUTING chain of the mangle table that marks a set's packets.
abbrev pub mark_rule : String → String → RuleSpec
mark_rule set_name destination =
    "-m" ∷ "set" ∷ "--match-set" ∷ set_name ∷ "src" ∷ "-d" ∷ destination ∷ "-j" ∷ "MARK"
    ∷ "--set-mark" ∷ fwmark ∷ []

-- "tun" + strings.Replace(address, ".", "", -1)
unfoldable pub tunnel_name : String → String
tunnel_name address = "tun" <> without_dots address

module _ {W : Type 0} (h : Host W) where
  open h use {
    iptables_new, new_chain, output, run, read_file, open_append, write_string, parse_cidr,
    ip_string,
  }

  unfoldable pub new_egress_director : Cluster W → M W EgressDirector
  new_egress_director k = do
    _ ← on_error (λ e. plain ("failed to locate iptables: " <> text e)) iptables_new
    node ← get_node_object h k ""
    ip ← on_error (because "Failed to get node IP due to ") (λ w. (get_node_ip h node, w))
    pure (record { node_ip = ip_text h ip })

  -- The custom routing table's line in /etc/iproute2/rt_tables.
  register_table : M W (Unit {0})
  register_table = do
    b ←
        on_error
          (because
            "Failed to add custom routing table in /etc/iproute2/rt_tables needed for policy routing for directing traffing to egress gateway")
          (read_file rt_tables)
    when (not (contains b route_table_name)) do
      f ←
          on_error
            (because (
              "Failed to open /etc/iproute2/rt_tables to verify custom routing table "
              <> route_table_name <> " required for static egress IP functionality due to "))
            (open_append rt_tables)
      on_error
          (because (
            "Failed to add custom routing table " <> route_table_name
            <> " in /etc/iproute2/rt_tables needed for policy routing due to "))
          (write_string f (route_table_id <> " " <> route_table_name <> "\n"))

  -- The policy rule that looks marked packets up in that table.
  add_policy_rule : M W (Unit {0})
  add_policy_rule = do
    out ←
        on_error (because "Failed to verify if `ip rule` exists due to: ")
          (output ("ip" ∷ "rule" ∷ "list" ∷ []))
    when (not (contains out route_table_name)) (
        on_error
          (because (
            "Failed to add policy rule to lookup traffic marked with fwmark " <> fwmark
            <> " to the custom " <> " routing table due to "))
          (run (
            "ip" ∷ "rule" ∷ "add" ∷ "prio" ∷ "32764" ∷ "fwmark" ∷ fwmark ∷ "table"
            ∷ route_table_name ∷ [])))

  -- EgressDirector.Setup
  unfoldable pub setup : M W (Unit {0})
  unfolding register_table add_policy_rule
  setup = do
    register_table
    add_policy_rule
    or_exists
        (because (
          "Failed to add a " <> bypass_chain
          <> " chain in NAT table required to bypass CNI masqurading due to"))
        (new_chain "nat" bypass_chain)
    ensure_first h "nat" "POSTROUTING" (jump_rule bypass_chain)
        "Failed to verify bypass CNI masqurade rule exists in POSTROUTING chain of nat table due to "
        "Failed to run iptables command to add a rule to jump to STATIC_EGRESSIP_BYPASS_CNI_MASQURADE chain due to "

  -- The two iptables rules of a set.
  unfoldable pub mark_and_bypass : String → String → M W (Unit {0})
  mark_and_bypass set_name destination = do
    ensure_first h "mangle" "PREROUTING" (mark_rule set_name destination)
        "Failed to verify rule exists in PREROUTING chain of mangle table to fwmark egress traffic that needs static egress IP"
        "Failed to add rule in PREROUTING chain of mangle table to fwmark egress traffic that needs static egress IP"
    ensure_last h "nat" bypass_chain (accept_rule set_name destination)
        "Failed to verify rule exists in BYPASS_CNI_MASQURADE chain of nat table to bypass the CNI masqurade"
        "Failed to run iptables command to add a rule to ACCEPT traffic in BYPASS_CNI_MASQURADE chain"

  -- The GRE tunnel to the gateway node, up.
  unfoldable pub open_tunnel : String → String → String → M W (Unit {0})
  open_tunnel tunnel remote local_ip = do
    out ←
        on_error (because "Failed to verify required tunnel to gatewat exists. ")
          (output ("ip" ∷ "link" ∷ "list" ∷ []))
    when (not (contains out tunnel)) (
        on_error (because "Failed to tunnel interface to gateway node due to: ") (
          run (
            "ip" ∷ "tunnel" ∷ "add" ∷ tunnel ∷ "mode" ∷ "gre" ∷ "remote" ∷ remote ∷ "local"
            ∷ local_ip ∷ [])))
    on_error (because "Failed to set tunnel interface to up due to: ")
        (run ("ip" ∷ "link" ∷ "set" ∷ "up" ∷ tunnel ∷ []))

  -- destAddr.String(), where destAddr, _, err := net.ParseCIDR(destination)
  unfoldable pub address_of_cidr : String → String
  address_of_cidr destination = elim (parse_cidr destination) [
    | some (ip, _) ↦ ip_string ip
    | none ↦ "<nil>"
  ]

  list_routes : M W String
  list_routes =
      on_error (because "Failed to verify required default route to gatewat exists. ")
        (output ("ip" ∷ "route" ∷ "list" ∷ "table" ∷ route_table_name ∷ []))

  unfoldable pub add_route : String → String → M W (Unit {0})
  unfolding list_routes address_of_cidr
  add_route destination tunnel = do
    out ← list_routes
    when (not (contains out destination) && not (contains out (address_of_cidr destination))) (
        on_error (because "Failed to add route in custom route table due to: ") (
          run (
            "ip" ∷ "route" ∷ "add" ∷ destination ∷ "dev" ∷ tunnel ∷ "table" ∷ route_table_name
            ∷ [])))

  unfoldable pub add_route_to_gateway :
      EgressDirector → String → List String → String → String → M W (Unit {0})
  unfolding tunnel_name
  add_route_to_gateway d set_name source_ips destination egress_gateway = do
    set ← open_set h "Failed to create ipset with name " set_name
    add_ips h set_name set source_ips
    mark_and_bypass set_name destination
    let tunnel = tunnel_name egress_gateway
    open_tunnel tunnel egress_gateway d.node_ip
    add_route destination tunnel

  unfoldable pub unmark_and_unbypass : String → String → M W (Unit {0})
  unmark_and_unbypass set_name destination = do
    ensure_gone h "mangle" "PREROUTING" (mark_rule set_name destination)
        "Failed to verify rule exists in PREROUTING chain of mangle table to fwmark egress traffic that needs static egress IP"
        "Failed to delete rule in PREROUTING chain of mangle table to fwmark egress traffic that needs static egress IP"
    ensure_gone h "nat" bypass_chain (accept_rule set_name destination)
        "Failed to verify rule exists in BYPASS_CNI_MASQURADE chain of nat table to bypass the CNI masqurade"
        "Failed to delete iptables command to add a rule to ACCEPT traffic in BYPASS_CNI_MASQURADE chain"

  -- The guard is `!strings.Contains(out, destinationIP)`, as for an addition.
  unfoldable pub delete_route : String → String → M W (Unit {0})
  unfolding list_routes
  delete_route destination egress_gateway = do
    out ← list_routes
    when (not (contains out destination)) (
        on_error (because "Failed to delete route in custom route table due to: ") (
          run (
            "ip" ∷ "route" ∷ "delete" ∷ destination ∷ "via" ∷ egress_gateway ∷ "table"
            ∷ route_table_name ∷ [])))

  unfoldable pub delete_route_to_gateway : String → String → String → M W (Unit {0})
  delete_route_to_gateway set_name destination egress_gateway = do
    set ← open_set h "Failed to get ipset with name " set_name
    unmark_and_unbypass set_name destination
    delete_route destination egress_gateway
    on_error (because "Failed to delete ipset due to ") (h.set_destroy set)

  unfoldable pub clear_stale_route_to_gateway : String → String → String → M W (Unit {0})
  clear_stale_route_to_gateway set_name destination egress_gateway = do
    unmark_and_unbypass set_name destination
    delete_route destination egress_gateway
