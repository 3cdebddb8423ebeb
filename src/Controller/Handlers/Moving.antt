-- ===== src/Controller/Handlers/Moving.antt =====
-- The handler of an update event on the node that becomes the gateway of a resource, where no call
-- fails.
use kube_static_egress_ip.Prelude.{
  ◌≡◌, refl, ap, ◌∙◌, ℕ, suc, String, true, false, not, ◌&&◌, some, List, [], ◌∷◌, ◌==◌, eq_iff,
  arith,
}
use kube_static_egress_ip.Prelude.Text.{◌<>◌}
use kube_static_egress_ip.Effect.{ok, ◌>>=◌, attempt, logged, for_each_from}
use kube_static_egress_ip.Effect.Keeps.{Keeps}
use kube_static_egress_ip.Effect.Edits.{
  Edits, Returns, Edits-bind, Edits-bind_known, Edits-Keeps, Edits-pure,
}
use kube_static_egress_ip.Effect.Succeeds.{Succeeds, Edits-Succeeds, Edits-attempt, After-total}
use kube_static_egress_ip.Effect.Calm.{logged-IsCalm}
use kube_static_egress_ip.Api.{Node, Rule, StaticEgressIp}
use kube_static_egress_ip.Host.{Host}
use kube_static_egress_ip.Host.Rules.{Tables, IptablesLaws}
use kube_static_egress_ip.Cluster.{Cluster}
use kube_static_egress_ip.Cluster.Calls.{PathsKeep}
use kube_static_egress_ip.Utils.{get_node_object}
use kube_static_egress_ip.Director.{EgressDirector, clear_stale_route_to_gateway}
use kube_static_egress_ip.Director.Directed.{directed, IsClean}
use kube_static_egress_ip.Director.Directed.Removals.{Removable, removed, cleared-Edits}
use kube_static_egress_ip.Gateway.StaticIp.{remove_static_ip}
use kube_static_egress_ip.Gateway.StaticIp.Calm.{CalmLinks, remove_static_ip-IsCalm}
use kube_static_egress_ip.Controller.{
  Controller, generate_rule_id, director_clear, is_egress_gateway,
}
use kube_static_egress_ip.Controller.Directing.{is_pair, endpoints_of-Keeps}
use kube_static_egress_ip.Controller.Directing.Total.{AllKnown, endpoints_of-Succeeds}
use kube_static_egress_ip.Controller.Sync.Steps.{Keeps-logged}
use kube_static_egress_ip.Controller.Sync.Paths.{remove_static_ip-Keeps}
use kube_static_egress_ip.Controller.Handlers.{
  is_gateway_or_false, clean_rule, gateway_moved, change_roles, update_static_egress_ip,
}
use kube_static_egress_ip.Controller.Handlers.Withdrawing.{
  all_removed, directed-all_removed, enqueue-Edits,
}

module _ {W : Type 0} (h : Host W) (L : IptablesLaws h) (k : Cluster W) where
  -- The lookup of this node finds it, and touches no rule.
  pub record Finds (node : Node) : Type 0 where
    pub found : (w : W) → (get_node_object h k "" w).0 ≡ ok node
    pub quiet : Keeps L.rules (get_node_object h k "")

module _ {W : Type 0} (h : Host W) (L : IptablesLaws h) (R : Removable h L) (k : Cluster W)
    (quiet : (n s : String) → Keeps L.rules (k.get_endpoints n s)) (P : PathsKeep h k L.rules)
    (C : CalmLinks h) where
  open L use {rules}

  director_clear-some :
      (c : Controller) (dir : EgressDirector) (s cidr g : String)
      → c.traffic_director ≡ some dir
      → director_clear h c s cidr g ≡ clear_stale_route_to_gateway h s cidr g
  unfolding director_clear
  director_clear-some c dir s cidr g e = rw e refl

  pub drop_ip-Edits :
      (a : String) (x : Tables) → Edits rules (λ _. ⊥) x (logged (remove_static_ip h a)) x
  drop_ip-Edits a x =
      Edits-Succeeds {E = λ _. Unit}
        (Edits-Keeps tt (Keeps-logged (remove_static_ip-Keeps h k rules P a)))
        (logged-IsCalm (remove_static_ip-IsCalm h C a))

  clear-Edits :
      (c : Controller) (dir : EgressDirector) (s cidr g : String) (x : Tables)
      → c.traffic_director ≡ some dir
      → Edits rules (λ _. ⊥) x (logged (director_clear h c s cidr g)) (removed s cidr x)
  unfolding logged
  clear-Edits c dir s cidr g x there = rw (director_clear-some c dir s cidr g there) (
      Edits-bind (removed s cidr x) (Edits-attempt (cleared-Edits h L R s cidr g x))
        (λ _. Edits-pure _ tt))

  clean_rule-Edits :
      (c : Controller) (dir : EgressDirector) (old : StaticEgressIp) (i : ℕ) (r : Rule) (x : Tables)
      → c.traffic_director ≡ some dir
      → Succeeds (k.get_endpoints old.namespace r.service_name)
      → Edits rules
          (λ _. ⊥)
          x
          (clean_rule h k c false true old i r)
          (removed (generate_rule_id h old.namespace old.name i) r.cidr x)
  unfolding clean_rule
  clean_rule-Edits c dir old i r x there known =
      let s = generate_rule_id h old.namespace old.name i in
      let y = removed s r.cidr x in
      Edits-bind x
        (Edits-Succeeds {E = λ _. Unit}
          (Edits-Keeps tt (endpoints_of-Keeps h L k quiet old.namespace r.service_name))
          (endpoints_of-Succeeds h L k quiet R.reliable old.namespace r.service_name known))
        λ _. Edits-bind x (Edits-pure x tt) λ _.
          Edits-bind y (clear-Edits c dir s r.cidr r.egress_ip x there)
            (λ _. drop_ip-Edits (r.egress_ip <> "/32") y)

  clear_all-Edits :
      (c : Controller) (dir : EgressDirector) (old : StaticEgressIp) (i : ℕ) (l : List Rule)
      (x : Tables)
      → c.traffic_director ≡ some dir
      → AllKnown h L k quiet R.reliable old.namespace l
      → Edits rules
          (λ _. ⊥)
          x
          (for_each_from i (clean_rule h k c false true old) l)
          (all_removed h old i l x)
  unfolding for_each_from all_removed
  clear_all-Edits c dir old i [] x there known = Edits-pure x tt
  clear_all-Edits c dir old i (r ∷ l) x there (first, rest) =
      Edits-bind _ (clean_rule-Edits c dir old i r x there first)
        (λ _. clear_all-Edits c dir old (suc i) l _ there rest)

  module _ (node : Node) (F : Finds h L k node) where
    role_lem :
        (e : StaticEgressIp) (w : W)
        → is_gateway_or_false h k e w
          ≡ (ok (e.status.gateway_node == node.uid), (get_node_object h k "" w).1)
    unfolding is_gateway_or_false is_egress_gateway attempt ◌>>=◌
    role_lem e w = rw (F.found w) refl

    pub role-Edits :
        (e : StaticEgressIp) (x : Tables) → Edits rules (λ _. ⊥) x (is_gateway_or_false h k e) x
    role-Edits e x = record { at = λ w q. rw (role_lem e w) (F.quiet.at w ∙ q) }

    pub role-Returns :
        (e : StaticEgressIp) (w : W)
        → Returns (λ b. b ≡ (e.status.gateway_node == node.uid)) (is_gateway_or_false h k e w).0
    role-Returns e w = rw (role_lem e w) refl

    change_roles-Edits :
        (c : Controller) (dir : EgressDirector) (old new : StaticEgressIp) (x : Tables)
        → c.traffic_director ≡ some dir
        → AllKnown h L k quiet R.reliable old.namespace old.spec.rules
        → (old.status.gateway_node == node.uid) ≡ false
        → (new.status.gateway_node == node.uid) ≡ true
        → Edits rules (λ _. ⊥) x (change_roles h k c old new) (all_removed h old 0 old.spec.rules x)
    unfolding change_roles
    change_roles-Edits c dir old new x there known was is =
        Edits-bind_known x _ (role-Edits old x) (role-Returns old) λ a p.
          Edits-bind_known x _ (role-Edits new x) (role-Returns new)
            λ b q. rw (p ∙ was, q ∙ is) (clear_all-Edits c dir old 0 old.spec.rules x there known)

    -- On a host whose iptables calls do what they are documented to do, on which no call of
    -- iptables, ipset or a command fails and none of netlink panics, with a lister that knows the
    -- services of the old object's rules, a lookup that finds this node, and a queue that takes
    -- keys, none of which touches the rules, and from rules among which no rule of the director is
    -- there twice: when the gateway of a resource moves to this node from another, the handler of
    -- the update returns, and the node then directs what it directed before except the pairs of the
    -- old object's rules.
    pub becoming_gateway_undirects :
        ((s : String) → Keeps rules (k.queue_add_rate_limited s))
        → ((s : String) → Succeeds (k.queue_add_rate_limited s))
        → (c : Controller) (dir : EgressDirector) (old new : StaticEgressIp) (w : W)
        → c.traffic_director ≡ some dir
        → AllKnown h L k quiet R.reliable old.namespace old.spec.rules
        → new.status.gateway_node ≡ node.uid
        → gateway_moved h k old new ≡ true
        → IsClean (rules w)
        → ((update_static_egress_ip h k c old new w).0 ≡ ok tt)
          × ((s d : String)
              → directed (rules (update_static_egress_ip h k c old new w).1) s d
                ≡ (directed (rules w) s d && not (is_pair h old s d)))
    unfolding update_static_egress_ip
    becoming_gateway_undirects silent taken c dir old new w there known here moved clean =
        let x = all_removed h old 0 old.spec.rules (rules w) in
        let body = update_static_egress_ip h k c old new in
        let was : (old.status.gateway_node == node.uid) ≡ false = ground (
          arith,
          here,
          eq_iff old.status.gateway_node node.uid,
          eq_iff old.status.gateway_node new.status.gateway_node,
        ) in
        let is : (new.status.gateway_node == node.uid) ≡ true =
          ground (arith, eq_iff new.status.gateway_node node.uid) in
        let all : Edits rules (λ _. ⊥) (rules w) body x = rw moved (
          Edits-bind x (change_roles-Edits c dir old new (rules w) there known was is)
            (λ _. enqueue-Edits h L R k silent taken new x)) in
        let (returns, after) = After-total rules x (body w).0 (body w).1 (all.at w refl) in
        (
          returns,
          λ s d.
              ap (λ (y : Tables). directed y s d) after
              ∙ directed-all_removed h old 0 old.spec.rules (rules w) clean s d,
        )
