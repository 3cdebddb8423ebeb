-- ===== src/Controller/Directing.antt =====
-- The sync of a resource on a director node, as a change of the set of pairs that the node directs.
pub mod Total
pub mod Missing
pub mod Synced
use kube_static_egress_ip.Prelude.{
  ◌≡◌, ◌≢◌, refl, ap, ◌∙◌, ℕ, suc, String, Bool, true, false, ◌&&◌, ◌||◌, Option, none, some, List,
  [], ◌∷◌, ◌==◌, eq_iff, arith, inl, inr, if◌then◌else◌, sym, subst, Bool-cases,
}
use kube_static_egress_ip.Effect.{
  M, Outcome, ok, err, panicked, exited, pure, ◌>>=◌, attempt, logged, for_each_from,
}
use kube_static_egress_ip.Effect.Keeps.{Keeps, Keeps-bind, Keeps-pure, Keeps-panic, Keeps-attempt}
use kube_static_egress_ip.Effect.Edits.{
  Edits, After, After-any, Edits-bind, Edits-Keeps, Edits-pure,
}
use kube_static_egress_ip.Effect.Moves.{
  IsPreorder, Moves, Moves-pure, Moves-bind, Moves-logged, Moves-Keeps, Moves-if, Moves-option,
}
use kube_static_egress_ip.Effect.Succeeds.{
  IsOk, Succeeds, Succeeds-bind, Succeeds-pure, Edits-Succeeds, Edits-attempt,
}
use kube_static_egress_ip.Api.{Endpoints, Rule, StaticEgressIp}
use kube_static_egress_ip.Host.{Host}
use kube_static_egress_ip.Host.Rules.{Tables, IptablesLaws}
use kube_static_egress_ip.Host.Reliable.{IsReliable}
use kube_static_egress_ip.Cluster.{Cluster}
use kube_static_egress_ip.Chains.Steps.{open_set-Keeps, add_ips-Keeps}
use kube_static_egress_ip.Director.{EgressDirector, add_route_to_gateway}
use kube_static_egress_ip.Director.Rules.{Adding, marked, bypassed, add_route_rules}
use kube_static_egress_ip.Director.Directed.{Directed, directed, IsClean, update}
use kube_static_egress_ip.Director.Directed.Steps.{Local, Adding-Local, Adding-kept, directed-added}
use kube_static_egress_ip.Director.Directed.Total.{add_route_to_gateway-Succeeds}
use kube_static_egress_ip.Controller.Sync.Steps.{Keeps-option}
use kube_static_egress_ip.Controller.{
  Controller, endpoint_ips, generate_rule_id, director_add, endpoints_of, direct_rule,
  do_director_processing,
}

module _ {W : Type 0} (h : Host W) where
  -- The pairs of a resource: the id of each rule, and its destination.
  abbrev pub is_pair_from : StaticEgressIp → ℕ → List Rule → String → String → Bool
  is_pair_from e i [] s d = false
  is_pair_from e i (r ∷ l) s d =
      s == generate_rule_id h e.namespace e.name i && d == r.cidr || is_pair_from e (suc i) l s d

  abbrev pub is_pair : StaticEgressIp → String → String → Bool
  is_pair e = is_pair_from e 0 e.spec.rules

-- From clean rules to clean rules: pairs that are not named stay as they are, and no pair is taken
-- out.
abbrev pub Adds : (String → String → Bool) → Tables → Tables → Type 0
Adds named x y =
    IsClean x
    → IsClean y
      × ((s d : String) → named s d ≡ false → directed y s d ≡ directed x s d)
      × ((s d : String) → directed x s d ≡ true → directed y s d ≡ true)

Adds-IsPreorder : (named : String → String → Bool) → IsPreorder (Adds named)
Adds-IsPreorder named = record {
  same = λ x c. (c, λ s d n. refl, λ s d t. t);
  then_after = λ x y z p q c. (
    (q (p c).0).0,
    λ s d n. (q (p c).0).1 s d n ∙ (p c).1 s d n,
    λ s d t. (q (p c).0).2 s d ((p c).2 s d t),
  );
}

module _ {W : Type 0} (h : Host W) (L : IptablesLaws h) where
  open L use {rules}

  add_route-Adds :
      (named : String → String → Bool) (dir : EgressDirector) (s : String) (ips : List String)
      (d g : String)
      → named s d ≡ true
      → Moves rules (Adds named) (add_route_to_gateway h dir s ips d g)
  add_route-Adds named dir s ips d g there = record {
    at = λ w clean.
        let x = rules w in
        let v = rules (add_route_to_gateway h dir s ips d g w).1 in
        let reached : Adding s d x v =
          After-any rules (Adding s d x) (Adding s d x) _ _ _ (λ v e. e) (inr (inr (inl refl)))
            (add_route_rules h L dir s ips d g w) in
        let step : Local s d x v = Adding-Local s d x v clean reached in
        (
          step.clean,
          λ s' d' out. step.others s' d' (other s' d' out),
          λ s' d' t. Adding-kept s d x v s' d' reached t,
        );
  }
    where
      other : (s' d' : String) → named s' d' ≡ false → (s' == s && d' == d) ≡ false
      other s' d' out = elim (Bool-cases (s' == s && d' == d)) [
        | inl same ↦ ground (arith, eq_iff s' s, eq_iff d' d)
        | inr ne ↦ ne
      ]

  module _ (k : Cluster W) (quiet : (n s : String) → Keeps rules (k.get_endpoints n s)) where
    pub endpoints_of-Keeps : (n s : String) → Keeps rules (endpoints_of h k n s)
    unfolding endpoints_of
    endpoints_of-Keeps n s =
        Keeps-bind (Keeps-attempt (quiet n s))
          (λ o. Keeps-option o _ _ (Keeps-panic _) (λ e. Keeps-pure e))

    direct_rule-Adds :
        (named : String → String → Bool) (c : Controller) (e : StaticEgressIp) (i : ℕ) (r : Rule)
        → named (generate_rule_id h e.namespace e.name i) r.cidr ≡ true
        → Moves rules (Adds named) (direct_rule h k c e i r)
    unfolding direct_rule director_add
    direct_rule-Adds named c e i r there =
        let o = Adds-IsPreorder named in
        let s = generate_rule_id h e.namespace e.name i in
        Moves-bind o (Moves-Keeps o (endpoints_of-Keeps e.namespace r.service_name)) λ p.
          Moves-logged o (
            Moves-option o c.traffic_director _ _
              (Moves-Keeps o (
                Keeps-bind
                  (Keeps-bind (open_set-Keeps h L (λ _. Unit) _ s)
                    (λ set. add_ips-Keeps h L (λ _. Unit) s set _))
                  (λ _. Keeps-panic _)))
              (λ d. add_route-Adds named d s _ r.cidr e.status.gateway_ip there))

    direct_all-Adds :
        (named : String → String → Bool) (c : Controller) (e : StaticEgressIp) (i : ℕ)
        (l : List Rule)
        → ((s d : String) → is_pair_from h e i l s d ≡ true → named s d ≡ true)
        → Moves rules (Adds named) (for_each_from i (direct_rule h k c e) l)
    unfolding for_each_from
    direct_all-Adds named c e i [] all = Moves-pure (Adds-IsPreorder named) tt
    direct_all-Adds named c e i (r ∷ l) all =
        let s = generate_rule_id h e.namespace e.name i in
        Moves-bind (Adds-IsPreorder named)
          (direct_rule-Adds named c e i r
            (all s r.cidr (ground (arith, eq_iff s s, eq_iff r.cidr r.cidr))))
          (λ _. direct_all-Adds named c e (suc i) l (λ s' d n. all s' d (ground arith)))

    -- On a host whose iptables calls do what they are documented to do, with a lister that does not
    -- touch the rules, from rules among which no rule of the director is there twice: a sync of a
    -- resource on a director node, however it ends, leaves such rules, takes no pair of a set and a
    -- destination out, and puts none in but those of the resource's rules.
    pub do_director_processing_adds :
        (c : Controller) (e : StaticEgressIp) (w : W)
        → IsClean (rules w)
        → let x = rules (do_director_processing h k c e w).1 in
          IsClean x
          × ((s d : String) → is_pair h e s d ≡ false → directed x s d ≡ directed (rules w) s d)
          × ((s d : String) → directed (rules w) s d ≡ true → directed x s d ≡ true)
    unfolding do_director_processing
    do_director_processing_adds c e w clean =
        let o = Adds-IsPreorder (is_pair h e) in
        (Moves-if o (e.status.gateway_ip == "") (Moves-pure o tt)
            (direct_all-Adds (is_pair h e) c e 0 e.spec.rules (λ s d n. n))).at
          w clean
