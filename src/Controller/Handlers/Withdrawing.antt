-- ===== src/Controller/Handlers/Withdrawing.antt =====
-- What the handlers take out of the set of pairs that a node directs, where no call fails.
use kube_static_egress_ip.Prelude.{
  ◌≡◌, refl, ap, ◌∙◌, ℕ, suc, String, not, ◌&&◌, Option, none, some, List, [], ◌∷◌, eq_iff, arith,
}
use kube_static_egress_ip.Effect.{M, ok, logged, for_each_from, pure}
use kube_static_egress_ip.Effect.Keeps.{Keeps}
use kube_static_egress_ip.Effect.Edits.{Edits, Edits-bind, Edits-Keeps, Edits-pure}
use kube_static_egress_ip.Effect.Succeeds.{Succeeds, Edits-Succeeds, Edits-attempt, After-total}
use kube_static_egress_ip.Api.{Rule, StaticEgressIp}
use kube_static_egress_ip.Host.{Host}
use kube_static_egress_ip.Host.Rules.{Tables, IptablesLaws}
use kube_static_egress_ip.Cluster.{Cluster}
use kube_static_egress_ip.Director.{EgressDirector, delete_route_to_gateway}
use kube_static_egress_ip.Director.Directed.{directed, IsClean}
use kube_static_egress_ip.Director.Directed.Steps.{
  directed-removed, unmarked-IsClean, unbypassed-IsClean,
}
use kube_static_egress_ip.Director.Directed.Removals.{Removable, removed, deleted-Edits}
use kube_static_egress_ip.Controller.{Controller, generate_rule_id, director_delete}
use kube_static_egress_ip.Controller.Directing.{is_pair_from, is_pair}
use kube_static_egress_ip.Controller.Handlers.{
  Deleted, resource, tombstone, foreign, enqueue_static_egress_ip, withdraw_rule, withdraw,
  delete_static_egress_ip,
}

module _ {W : Type 0} (h : Host W) where
  -- The rules after the removals for the rules of a resource.
  unfoldable pub all_removed : StaticEgressIp → ℕ → List Rule → Tables → Tables
  all_removed e i [] x = x
  all_removed e i (r ∷ l) x =
      all_removed e (suc i) l (removed (generate_rule_id h e.namespace e.name i) r.cidr x)

  pub directed-all_removed :
      (e : StaticEgressIp) (i : ℕ) (l : List Rule) (x : Tables)
      → IsClean x
      → (s d : String)
      → directed (all_removed e i l x) s d ≡ (directed x s d && not (is_pair_from h e i l s d))
  unfolding all_removed
  directed-all_removed e i [] x clean s d = ground arith
  directed-all_removed e i (r ∷ l) x clean s d =
      let t = generate_rule_id h e.namespace e.name i in
      let clean' : IsClean (removed t r.cidr x) =
        unbypassed-IsClean t r.cidr _ (unmarked-IsClean t r.cidr x clean) in
      rw
        (
          directed-all_removed e (suc i) l (removed t r.cidr x) clean' s d,
          directed-removed t r.cidr x clean,
        )
        (ground (arith, eq_iff t s, eq_iff s t, eq_iff r.cidr d, eq_iff d r.cidr))

-- The resource in what a delete handler is given, where there is one.
abbrev pub object_of : Deleted → Option StaticEgressIp
object_of (resource e) = some e
object_of (tombstone o) = o
object_of foreign = none

module _ {W : Type 0} (h : Host W) (L : IptablesLaws h) (R : Removable h L) (k : Cluster W) where
  open L use {rules}

  director_delete-some :
      (c : Controller) (dir : EgressDirector) (s cidr g : String)
      → c.traffic_director ≡ some dir
      → director_delete h c s cidr g ≡ delete_route_to_gateway h s cidr g
  unfolding director_delete
  director_delete-some c dir s cidr g e = rw e refl

  withdraw_all-Edits :
      (c : Controller) (dir : EgressDirector) (e : StaticEgressIp) (i : ℕ) (l : List Rule)
      (x : Tables)
      → c.traffic_director ≡ some dir
      → Edits rules (λ _. ⊥) x (for_each_from i (withdraw_rule h k c e) l) (all_removed h e i l x)
  unfolding for_each_from all_removed withdraw_rule logged
  withdraw_all-Edits c dir e i [] x there = Edits-pure x tt
  withdraw_all-Edits c dir e i (r ∷ l) x there =
      let s = generate_rule_id h e.namespace e.name i in
      Edits-bind (removed s r.cidr x)
        (Edits-bind _
          (Edits-attempt (
            rw (director_delete-some c dir s r.cidr e.status.gateway_ip there)
              (deleted-Edits h L R s r.cidr e.status.gateway_ip x)))
          (λ _. Edits-pure _ tt))
        (λ _. withdraw_all-Edits c dir e (suc i) l _ there)

  module _ (quiet : (s : String) → Keeps rules (k.queue_add_rate_limited s))
      (taken : (s : String) → Succeeds (k.queue_add_rate_limited s)) where
    pub enqueue-Edits :
        (e : StaticEgressIp) (x : Tables)
        → Edits rules (λ _. ⊥) x (enqueue_static_egress_ip h k e) x
    unfolding enqueue_static_egress_ip
    enqueue-Edits e x = by_key (k.key_of e)
      where
        by_key :
            (o : Option String)
            → Edits rules
                (λ _. ⊥)
                x
                (elim o [ none ↦ pure tt | some key ↦ k.queue_add_rate_limited key ])
                x
        by_key none = Edits-pure x tt
        by_key (some key) = Edits-Succeeds {E = λ _. Unit} (Edits-Keeps tt (quiet key)) (taken key)

    withdraw-Edits :
        (c : Controller) (dir : EgressDirector) (e : StaticEgressIp) (x : Tables)
        → c.traffic_director ≡ some dir
        → Edits rules (λ _. ⊥) x (withdraw h k c e) (all_removed h e 0 e.spec.rules x)
    unfolding withdraw
    withdraw-Edits c dir e x there =
        Edits-bind _ (withdraw_all-Edits c dir e 0 e.spec.rules x there) (λ _. enqueue-Edits e _)

    abbrev withdraw_any : Controller → Option StaticEgressIp → M W (Unit {0})
    withdraw_any c none = pure tt
    withdraw_any c (some e) = withdraw h k c e

    -- The handler withdraws the object that it is given, if any.
    delete_static_egress_ip_lem :
        (c : Controller) (o : Deleted)
        → delete_static_egress_ip h k c o ≡ withdraw_any c (object_of o)
    unfolding delete_static_egress_ip
    delete_static_egress_ip_lem c (resource a) = refl
    delete_static_egress_ip_lem c (tombstone (some a)) = refl
    delete_static_egress_ip_lem c (tombstone none) = refl
    delete_static_egress_ip_lem c foreign = refl

    -- On a host whose iptables calls do what they are documented to do and on which no call of
    -- iptables, ipset or a command fails, with a work queue that takes keys and does not touch the
    -- rules, from rules among which no rule of the director is there twice: the handler of a delete
    -- event for a resource, given itself or in a tombstone, returns on a node whose director is set
    -- up, and the node then directs what it directed before except the pairs of the resource's
    -- rules.
    pub deleted_undirects :
        (c : Controller) (dir : EgressDirector) (o : Deleted) (e : StaticEgressIp) (w : W)
        → c.traffic_director ≡ some dir
        → object_of o ≡ some e
        → IsClean (rules w)
        → ((delete_static_egress_ip h k c o w).0 ≡ ok tt)
          × ((s d : String)
              → directed (rules (delete_static_egress_ip h k c o w).1) s d
                ≡ (directed (rules w) s d && not (is_pair h e s d)))
    deleted_undirects c dir o e w there given clean =
        let x = all_removed h e 0 e.spec.rules (rules w) in
        let total : ((withdraw h k c e w).0 ≡ ok tt) × (rules (withdraw h k c e w).1 ≡ x) =
          After-total rules x _ _ ((withdraw-Edits c dir e (rules w) there).at w refl) in
        rw (delete_static_egress_ip_lem c o, given)
          (
            total.0,
            λ s d.
                ap (λ (y : Tables). directed y s d) total.1
                ∙ directed-all_removed h e 0 e.spec.rules (rules w) clean s d,
          )
