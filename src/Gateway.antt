-- ===== src/Gateway.antt =====
-- pkg/gateway/gateway.go: the rules by which the gateway node forwards the traffic of the
-- directors, rewrites its source and marks what returns.
pub mod Rules
pub mod Repeats
pub mod Setup
pub mod Translated
pub mod Clearing
pub mod StaticIp
use kube_static_egress_ip.Prelude.{
  ℕ, String, Bool, true, false, not, Option, none, some, List, [], ◌∷◌, if◌then◌else◌, nat_eqb,
}
use kube_static_egress_ip.Prelude.Text.{◌<>◌}
use kube_static_egress_ip.Effect.{
  Error, plain, iptables_error, not_found, text, because, Outcome, ok, err, panicked, exited, M,
  pure, ◌>>=◌, ◌>>◌, on_error, when,
}
use kube_static_egress_ip.Host.{Host, RuleSpec}
use kube_static_egress_ip.Chains.{
  ensure_first, ensure_last, ensure_gone, open_set, add_ips, accept_rule, jump_rule, or_exists,
  fwmark,
}

abbrev pub nat_chain : String
nat_chain = "STATIC-EGRESS-NAT-CHAIN"

abbrev pub forward_chain : String
forward_chain = "STATIC-EGRESS-FORWARD-CHAIN"

-- The rule that gives a set's packets their source address.
abbrev pub snat_rule : String → String → String → RuleSpec
snat_rule set_name destination egress_ip =
    "-m" ∷ "set" ∷ "--match-set" ∷ set_name ∷ "src" ∷ "-d" ∷ destination ∷ "-j" ∷ "SNAT"
    ∷ "--to-source" ∷ egress_ip ∷ []

-- The rule that marks the packets that return to the egress address.
abbrev pub return_rule : String → String → RuleSpec
return_rule destination egress_ip =
    "-s" ∷ destination ∷ "-d" ∷ egress_ip ∷ "-j" ∷ "MARK" ∷ "--set-mark" ∷ fwmark ∷ []

-- fmt.Errorf(message + "%v err %v", chain, err)
abbrev in_chain : String → String → Error → Error
in_chain message chain e = plain (message <> chain <> " err " <> text e)

abbrev pub created_or_there : Outcome (Unit {0}) → Outcome (Unit {0})
created_or_there (ok a) = ok a
created_or_there (err (iptables_error status m)) =
    if nat_eqb status 1 then ok tt else err (iptables_error status m)
created_or_there (err (not_found m)) = err (not_found m)
created_or_there (err (plain m)) = err (plain m)
created_or_there (panicked m) = panicked m
created_or_there (exited m) = exited m

module _ {W : Type 0} (h : Host W) where
  open h use {iptables_new, new_chain, delete_chain, exists, insert, delete, set_destroy}

  -- The EgressGateway holds the handle of iptables alone.
  unfoldable pub new_egress_gateway : M W (Unit {0})
  new_egress_gateway = on_error (λ e. plain ("failed to locate iptables: " <> text e)) iptables_new

  unfoldable pub create_chain_if_not_exist : String → String → M W (Unit {0})
  create_chain_if_not_exist table chain w =
      let (r, w') = new_chain table chain w in (created_or_there r, w')

  delete_chain_of : String → String → M W (Unit {0})
  delete_chain_of table chain = delete_chain table chain

  unfoldable pub insert_rule : String → String → ℕ → RuleSpec → M W (Unit {0})
  insert_rule table chain pos r = do
    exist ← exists table chain r
    if exist then pure tt else insert table chain pos r

  unfoldable pub delete_rule : String → String → RuleSpec → M W (Unit {0})
  delete_rule table chain r = delete table chain r

  -- EgressGateway.Setup
  unfoldable pub setup : M W (Unit {0})
  setup = do
    on_error
        (because
          "Failed to add a chain in filter table required to permit forwarding traffic from director nodes")
        (create_chain_if_not_exist "filter" forward_chain)
    ensure_last h "filter" "FORWARD" (jump_rule forward_chain)
        "Failed to verify rule exists in FORWARD chain of filter table to permit forward traffic from the directors"
        "Failed to add iptables command to permit traffic from directors to be forwrded in filter chain"
    or_exists (because ("Failed to add a " <> nat_chain <> " chain in NAT table"))
        (new_chain "nat" nat_chain)
    ensure_first h "nat" "POSTROUTING" (jump_rule nat_chain)
        "Failed to verify  rule exists in POSTROUTING chain of nat table due to "
        "Failed to run iptables command to add a rule to jump to STATIC-EGRESS-NAT-CHAIN chain due to "

  -- The rules of AddStaticIptablesRule, in its order.
  unfoldable pub forward_and_translate : String → String → String → M W (Unit {0})
  forward_and_translate set_name destination egress_ip = do
    ensure_last h "filter" forward_chain (accept_rule set_name destination)
        ("Failed to verify rule exists in " <> forward_chain <> " chain of filter table")
        "Failed to add iptables command to ACCEPT traffic from director nodes to get forrwarded"
    on_error (in_chain "failed to insert rule to chain " "POSTROUTING")
        (insert_rule "nat" nat_chain 1 (snat_rule set_name destination egress_ip))
    ensure_first h "mangle" "PREROUTING" (return_rule destination egress_ip)
        "Failed to verify rule exists in PREROUTING chain of mangle table to fwmark inbound return traffic to static egress IP"
        "Failed to add rule in PREROUTING chain of mangle table to fwmark inbound return traffic to static egress IP"

  unfoldable pub add_static_iptables_rule : String → List String → String → String → M W (Unit {0})
  add_static_iptables_rule set_name source_ips destination egress_ip = do
    set ← open_set h "Failed to create ipset with name " set_name
    add_ips h set_name set source_ips
    forward_and_translate set_name destination egress_ip

  unfoldable pub delete_static_iptables_rule : String → String → String → M W (Unit {0})
  delete_static_iptables_rule set_name destination egress_ip = do
    on_error (in_chain "failed to delete rule in chain " nat_chain)
        (delete_rule "nat" nat_chain (snat_rule set_name destination egress_ip))
    ensure_gone h "filter" forward_chain (accept_rule set_name destination)
        ("Failed to verify rule exists in " <> forward_chain <> " chain of filter table")
        "Failed to delete iptables command to ACCEPT traffic from director nodes to get forwarded"
    set ← open_set h "Failed to get ipset with name " set_name
    on_error (because "Failed to delete ipset due to ") (set_destroy set)

  -- The source has the body of DeleteStaticIptablesRule once more.
  unfoldable pub clear_static_iptables_rule : String → String → String → M W (Unit {0})
  clear_static_iptables_rule set_name destination egress_ip = do
    on_error (in_chain "failed to delete rule in chain " nat_chain)
        (delete_rule "nat" nat_chain (snat_rule set_name destination egress_ip))
    ensure_gone h "filter" forward_chain (accept_rule set_name destination)
        ("Failed to verify rule exists in " <> forward_chain <> " chain of filter table")
        "Failed to delete iptables command to ACCEPT traffic from director nodes to get forwarded"
    set ← open_set h "Failed to get ipset with name " set_name
    on_error (because "Failed to delete ipset due to ") (set_destroy set)
