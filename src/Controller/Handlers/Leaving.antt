-- ===== src/Controller/Handlers/Leaving.antt =====
-- The handler of an update event on the node that stops being the gateway of a resource.
use kube_static_egress_ip.Prelude.{
  ◌≡◌, refl, ap, ◌∙◌, ℕ, suc, String, true, false, not, ◌&&◌, some, List, [], ◌∷◌, ◌==◌, eq_iff,
  arith,
}
use kube_static_egress_ip.Prelude.Text.{◌<>◌}
use kube_static_egress_ip.Effect.{ok, logged, for_each_from}
use kube_static_egress_ip.Effect.Keeps.{Keeps}
use kube_static_egress_ip.Effect.Edits.{
  Edits, Edits-bind, Edits-bind_known, Edits-Keeps, Edits-pure,
}
use kube_static_egress_ip.Effect.Succeeds.{Succeeds, Edits-Succeeds, Edits-through, After-total}
use kube_static_egress_ip.Effect.Calm.{IsCalm, logged-Edits}
use kube_static_egress_ip.Api.{Node, Rule, StaticEgressIp}
use kube_static_egress_ip.Host.{Host, RuleSpec}
use kube_static_egress_ip.Host.Rules.{Tables, IptablesLaws, has_rule, without_rule}
use kube_static_egress_ip.Cluster.{Cluster}
use kube_static_egress_ip.Cluster.Calls.{PathsKeep}
use kube_static_egress_ip.Director.Directed.Removals.{Removable}
use kube_static_egress_ip.Gateway.{nat_chain, snat_rule, clear_static_iptables_rule}
use kube_static_egress_ip.Gateway.Translated.{snats}
use kube_static_egress_ip.Gateway.Clearing.{
  IsSingle, nat_rules, without_snat-IsSingle, has_rule-without_snat, clear_static-Edits,
  clear_static-IsCalm,
}
use kube_static_egress_ip.Gateway.StaticIp.Calm.{CalmLinks}
use kube_static_egress_ip.Controller.{Controller, generate_rule_id, gateway_clear}
use kube_static_egress_ip.Controller.Directing.{endpoints_of-Keeps}
use kube_static_egress_ip.Controller.Directing.Total.{AllKnown, endpoints_of-Succeeds}
use kube_static_egress_ip.Controller.Translating.Total.{is_rule_from}
use kube_static_egress_ip.Controller.Handlers.{
  is_gateway_or_false, clean_rule, gateway_moved, change_roles, update_static_egress_ip,
}
use kube_static_egress_ip.Controller.Handlers.Withdrawing.{enqueue-Edits}
use kube_static_egress_ip.Controller.Handlers.Moving.{
  Finds, drop_ip-Edits, role-Edits, role-Returns,
}

module _ {W : Type 0} (h : Host W) where
  -- The NAT chain after the removals for the rules of a resource.
  unfoldable all_cleared : StaticEgressIp → ℕ → List Rule → List RuleSpec → List RuleSpec
  all_cleared e i [] x = x
  all_cleared e i (r ∷ l) x =
      let s = generate_rule_id h e.namespace e.name i in
      all_cleared e (suc i) l (without_rule (snat_rule s r.cidr r.egress_ip) x)

  snats-all_cleared :
      (e : StaticEgressIp) (i : ℕ) (l : List Rule) (x : List RuleSpec)
      → IsSingle x
      → (s d a : String)
      → has_rule (snat_rule s d a) (all_cleared e i l x)
        ≡ (has_rule (snat_rule s d a) x && not (is_rule_from h e i l s d a))
  unfolding all_cleared
  snats-all_cleared e i [] x single s d a = ground arith
  snats-all_cleared e i (r ∷ l) x single s d a =
      let t = generate_rule_id h e.namespace e.name i in
      let y = without_rule (snat_rule t r.cidr r.egress_ip) x in
      rw
        (
          snats-all_cleared e (suc i) l y (without_snat-IsSingle t r.cidr r.egress_ip x single) s d
              a,
          has_rule-without_snat t r.cidr r.egress_ip x single s d a,
        )
        (ground arith)

module _ {W : Type 0} (h : Host W) (L : IptablesLaws h) (R : Removable h L) (k : Cluster W)
    (quiet : (n s : String) → Keeps L.rules (k.get_endpoints n s)) (P : PathsKeep h k L.rules)
    (C : CalmLinks h) (calm : (t c : String) (r : RuleSpec) → IsCalm (h.delete t c r)) where
  open L use {rules}

  gateway_clear-some :
      (c : Controller) (s cidr a : String)
      → c.traffic_gateway ≡ some tt
      → gateway_clear h c s cidr a ≡ clear_static_iptables_rule h s cidr a
  unfolding gateway_clear
  gateway_clear-some c s cidr a e = rw e refl

  clear-Edits :
      (c : Controller) (s cidr a : String) (x : List RuleSpec)
      → c.traffic_gateway ≡ some tt
      → Edits
          (nat_rules h L)
          (λ _. ⊥)
          x
          (logged (gateway_clear h c s cidr a))
          (without_rule (snat_rule s cidr a) x)
  clear-Edits c s cidr a x there =
      rw (gateway_clear-some c s cidr a there) (
        logged-Edits (clear_static-Edits h L R s cidr a x)
          (clear_static-IsCalm h L R calm s cidr a))

  clean_rule-Edits :
      (c : Controller) (old : StaticEgressIp) (i : ℕ) (r : Rule) (x : List RuleSpec)
      → c.traffic_gateway ≡ some tt
      → Succeeds (k.get_endpoints old.namespace r.service_name)
      → Edits
          (nat_rules h L)
          (λ _. ⊥)
          x
          (clean_rule h k c true false old i r)
          (without_rule
            (snat_rule (generate_rule_id h old.namespace old.name i) r.cidr r.egress_ip)
            x)
  unfolding clean_rule
  clean_rule-Edits c old i r x there known =
      let s = generate_rule_id h old.namespace old.name i in
      let y = without_rule (snat_rule s r.cidr r.egress_ip) x in
      Edits-bind x
        (Edits-through (λ (z : Tables). z "nat" nat_chain) x
          λ z.
            Edits-Succeeds {E = λ _. Unit}
              (Edits-Keeps tt (endpoints_of-Keeps h L k quiet old.namespace r.service_name))
              (endpoints_of-Succeeds h L k quiet R.reliable old.namespace r.service_name known))
        λ _.
          Edits-bind y
            (Edits-bind y (clear-Edits c s r.cidr r.egress_ip x there) (λ _.
              Edits-through (λ (z : Tables). z "nat" nat_chain) y
                (drop_ip-Edits h L R k quiet P C (r.egress_ip <> "/32"))))
            (λ _. Edits-pure y tt)

  clear_all-Edits :
      (c : Controller) (old : StaticEgressIp) (i : ℕ) (l : List Rule) (x : List RuleSpec)
      → c.traffic_gateway ≡ some tt
      → AllKnown h L k quiet R.reliable old.namespace l
      → Edits
          (nat_rules h L)
          (λ _. ⊥)
          x
          (for_each_from i (clean_rule h k c true false old) l)
          (all_cleared h old i l x)
  unfolding for_each_from all_cleared
  clear_all-Edits c old i [] x there known = Edits-pure x tt
  clear_all-Edits c old i (r ∷ l) x there (first, rest) =
      Edits-bind _ (clean_rule-Edits c old i r x there first)
        (λ _. clear_all-Edits c old (suc i) l _ there rest)

  module _ (node : Node) (F : Finds h L k node) where
    role-Edits_nat :
        (e : StaticEgressIp) (x : List RuleSpec)
        → Edits (nat_rules h L) (λ _. ⊥) x (is_gateway_or_false h k e) x
    role-Edits_nat e x =
        Edits-through (λ (z : Tables). z "nat" nat_chain) x (role-Edits h L R k quiet P C node F e)

    change_roles-Edits :
        (c : Controller) (old new : StaticEgressIp) (x : List RuleSpec)
        → c.traffic_gateway ≡ some tt
        → AllKnown h L k quiet R.reliable old.namespace old.spec.rules
        → (old.status.gateway_node == node.uid) ≡ true
        → (new.status.gateway_node == node.uid) ≡ false
        → Edits
            (nat_rules h L)
            (λ _. ⊥)
            x
            (change_roles h k c old new)
            (all_cleared h old 0 old.spec.rules x)
    unfolding change_roles
    change_roles-Edits c old new x there known was is =
        Edits-bind_known x _ (role-Edits_nat old x) (role-Returns h L R k quiet P C node F old)
          λ a p.
            Edits-bind_known x _ (role-Edits_nat new x) (role-Returns h L R k quiet P C node F new)
              λ b q. rw (p ∙ was, q ∙ is) (clear_all-Edits c old 0 old.spec.rules x there known)

    -- On a host whose iptables calls do what they are documented to do, on which a deletion of a
    -- rule that is not there may fail but no other call of iptables, ipset or a command does, and
    -- none of netlink panics, with a lister that knows the services of the old object's rules, a
    -- lookup that finds this node, and a queue that takes keys, none of which touches the rules,
    -- and from a NAT chain with no translation twice: when the gateway of a resource moves from
    -- this node to another, the handler of the update returns, and the node then translates what it
    -- translated before except the traffic of the old object's rules, whichever of them it had.
    pub leaving_gateway_untranslates :
        ((s : String) → Keeps rules (k.queue_add_rate_limited s))
        → ((s : String) → Succeeds (k.queue_add_rate_limited s))
        → (c : Controller) (old new : StaticEgressIp) (w : W) → c.traffic_gateway ≡ some tt
        → AllKnown h L k quiet R.reliable old.namespace old.spec.rules
        → old.status.gateway_node ≡ node.uid
        → gateway_moved h k old new ≡ true
        → IsSingle (nat_rules h L w)
        → ((update_static_egress_ip h k c old new w).0 ≡ ok tt)
          × ((s d a : String)
              → snats (rules (update_static_egress_ip h k c old new w).1) s d a
                ≡ (snats (rules w) s d a && not (is_rule_from h old 0 old.spec.rules s d a)))
    unfolding update_static_egress_ip
    leaving_gateway_untranslates silent taken c old new w there known here moved single =
        let x = all_cleared h old 0 old.spec.rules (nat_rules h L w) in
        let body = update_static_egress_ip h k c old new in
        let was : (old.status.gateway_node == node.uid) ≡ true =
          ground (arith, here, eq_iff old.status.gateway_node node.uid) in
        let is : (new.status.gateway_node == node.uid) ≡ false = ground (
          arith,
          here,
          eq_iff new.status.gateway_node node.uid,
          eq_iff old.status.gateway_node new.status.gateway_node,
        ) in
        let all : Edits (nat_rules h L) (λ _. ⊥) (nat_rules h L w) body x = rw moved (
          Edits-bind x (change_roles-Edits c old new (nat_rules h L w) there known was is) (λ _.
            Edits-through (λ (z : Tables). z "nat" nat_chain) x
              (enqueue-Edits h L R k silent taken new))) in
        let (returns, after) =
          After-total (nat_rules h L) x (body w).0 (body w).1 (all.at w refl) in
        (
          returns,
          λ s d a.
              ap (λ (y : List RuleSpec). has_rule (snat_rule s d a) y) after
              ∙ snats-all_cleared h old 0 old.spec.rules (nat_rules h L w) single s d a,
        )
