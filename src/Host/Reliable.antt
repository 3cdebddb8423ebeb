-- ===== src/Host/Reliable.antt =====
-- A host on which no call of iptables, of ipset or of a command fails.
use kube_static_egress_ip.Prelude.{ℕ, String, List}
use kube_static_egress_ip.Effect.Succeeds.{Succeeds}
use kube_static_egress_ip.Host.{Host, RuleSpec}

module _ {W : Type 0} (h : Host W) where
  open h use {IpSet, exists, insert, append, ipset_new, set_add, output, run}

  pub record IsReliable : Type 0 where
    pub exists_ok : (t c : String) (r : RuleSpec) → Succeeds (exists t c r)
    pub insert_ok : (t c : String) (n : ℕ) (r : RuleSpec) → Succeeds (insert t c n r)
    pub append_ok : (t c : String) (r : RuleSpec) → Succeeds (append t c r)
    pub ipset_new_ok : (n k : String) → Succeeds (ipset_new n k)
    pub set_add_ok : (s : IpSet) (ip : String) (timeout : ℕ) → Succeeds (set_add s ip timeout)
    pub output_ok : (args : List String) → Succeeds (output args)
    pub run_ok : (args : List String) → Succeeds (run args)
