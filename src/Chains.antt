-- ===== src/Chains.antt =====
-- The sequences of calls that pkg/director/director.go and pkg/gateway/gateway.go write out again
-- and again: filling an ipset, adding an iptables rule unless it exists, removing it if it exists.
-- The texts of the error messages, which differ, are arguments.
pub mod Steps
pub mod Fill
pub mod Succeeds
use kube_static_egress_ip.Prelude.{String, List, [], ◌∷◌, not, nat_eqb, if◌then◌else◌}
use kube_static_egress_ip.Prelude.Text.{◌<>◌}
use kube_static_egress_ip.Effect.{
  M, plain, text, because, on_error, for_each, pure, when, ◌>>=◌, ◌>>◌, Error, iptables_error,
  not_found, Outcome, ok, err, panicked, exited,
}
use kube_static_egress_ip.Host.{Host, RuleSpec}

-- The mark of the packets of both node roles.
abbrev pub fwmark : String
fwmark = "1000"

-- The rule that accepts a set's packets.
abbrev pub accept_rule : String → String → RuleSpec
accept_rule set_name destination =
    "-m" ∷ "set" ∷ "--match-set" ∷ set_name ∷ "src" ∷ "-d" ∷ destination ∷ "-j" ∷ "ACCEPT" ∷ []

abbrev pub jump_rule : String → RuleSpec
jump_rule chain = "-j" ∷ chain ∷ []

-- `err != nil && err.(*iptables.Error).ExitStatus() != 1` after NewChain: a chain that exists is no
-- error, and an error of another type makes the assertion panic.
abbrev pub chain_result : (Error → Error) → Outcome (Unit {0}) → Outcome (Unit {0})
chain_result f (ok a) = ok a
chain_result f (err (iptables_error status m)) =
    if nat_eqb status 1 then ok tt else err (f (iptables_error status m))
chain_result f (err (not_found m)) = panicked "interface conversion"
chain_result f (err (plain m)) = panicked "interface conversion"
chain_result f (panicked m) = panicked m
chain_result f (exited m) = exited m

unfoldable pub or_exists : (Error → Error) → {W : Type 0} → M W (Unit {0}) → M W (Unit {0})
or_exists f m w = let (r, w') = m w in (chain_result f r, w')

module _ {W : Type 0} (h : Host W) where
  open h use {IpSet, exists, insert, append, delete, ipset_new, set_add}

  -- hasRule, err := ipt.Exists(...); if !hasRule { ipt.Insert(..., 1, ...) }
  unfoldable pub ensure_first : String → String → RuleSpec → String → String → M W (Unit {0})
  ensure_first table chain r verify add = do
    has ← on_error (because verify) (exists table chain r)
    when (not has) (on_error (because add) (insert table chain 1 r))

  -- hasRule, err := ipt.Exists(...); if !hasRule { ipt.Append(...) }
  unfoldable pub ensure_last : String → String → RuleSpec → String → String → M W (Unit {0})
  ensure_last table chain r verify add = do
    has ← on_error (because verify) (exists table chain r)
    when (not has) (on_error (because add) (append table chain r))

  -- hasRule, err := ipt.Exists(...); if hasRule { ipt.Delete(...) }
  unfoldable pub ensure_gone : String → String → RuleSpec → String → String → M W (Unit {0})
  ensure_gone table chain r verify remove = do
    has ← on_error (because verify) (exists table chain r)
    when has (on_error (because remove) (delete table chain r))

  -- set, err := ipset.New(setName, "hash:ip", &ipset.Params{})
  unfoldable pub open_set : String → String → M W IpSet
  open_set message name =
      on_error (λ e. plain (message <> name <> " due to %" <> text e)) (ipset_new name "hash:ip")

  -- for _, ip := range sourceIPs { set.Add(ip, 0) }
  unfoldable pub add_ips : String → IpSet → List String → M W (Unit {0})
  add_ips name set = for_each λ ip.
      on_error
        (λ e. plain (
          "Failed to add an ip "
          <> ip
          <> " into ipset with name "
          <> name
          <> " due to %"
          <> text e))
        (set_add set ip 0)
