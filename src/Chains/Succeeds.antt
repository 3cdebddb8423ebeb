-- ===== src/Chains/Succeeds.antt =====
-- The shared sequences of Chains.antt on a host on which no call fails.
use kube_static_egress_ip.Prelude.{String, List}
use kube_static_egress_ip.Effect.Succeeds.{Succeeds, succeeds_rules}
use kube_static_egress_ip.Host.{Host, RuleSpec}
use kube_static_egress_ip.Host.Reliable.{IsReliable}
use kube_static_egress_ip.Chains.{ensure_first, ensure_last, open_set, add_ips}

module _ {W : Type 0} (h : Host W) (G : IsReliable h) where
  pub ensure_first-Succeeds :
      (t c : String) (r : RuleSpec) (v a : String) → Succeeds (ensure_first h t c r v a)
  unfolding ensure_first
  ensure_first-Succeeds t c r v a = search (succeeds_rules, G.exists_ok, G.insert_ok)

  pub ensure_last-Succeeds :
      (t c : String) (r : RuleSpec) (v a : String) → Succeeds (ensure_last h t c r v a)
  unfolding ensure_last
  ensure_last-Succeeds t c r v a = search (succeeds_rules, G.exists_ok, G.append_ok)

  pub open_set-Succeeds : (message s : String) → Succeeds (open_set h message s)
  unfolding open_set
  open_set-Succeeds message s = search (succeeds_rules, G.ipset_new_ok)

  pub add_ips-Succeeds :
      (s : String) (set : h.IpSet) (ips : List String) → Succeeds (add_ips h s set ips)
  unfolding add_ips
  add_ips-Succeeds s set ips = search (succeeds_rules, G.set_add_ok)
