-- ===== src/Controller/Directing/Total.antt =====
-- The sync of a resource on a director node on which no call fails.
use kube_static_egress_ip.Prelude.{
  ◌≡◌, ◌≢◌, refl, ap, ◌∙◌, ℕ, suc, String, false, ◌||◌, some, List, [], ◌∷◌, ◌==◌, eq_iff, arith,
  subst,
}
use kube_static_egress_ip.Effect.{
  Outcome, ok, err, panicked, exited, ◌>>=◌, attempt, logged, for_each_from,
}
use kube_static_egress_ip.Effect.Keeps.{Keeps}
use kube_static_egress_ip.Effect.Edits.{Edits, After, Edits-bind, Edits-Keeps, Edits-pure}
use kube_static_egress_ip.Effect.Succeeds.{
  IsOk, Succeeds, Edits-Succeeds, Edits-attempt, After-total,
}
use kube_static_egress_ip.Api.{Endpoints, Rule, StaticEgressIp}
use kube_static_egress_ip.Host.{Host}
use kube_static_egress_ip.Host.Rules.{Tables, IptablesLaws}
use kube_static_egress_ip.Host.Reliable.{IsReliable}
use kube_static_egress_ip.Cluster.{Cluster}
use kube_static_egress_ip.Director.{EgressDirector, add_route_to_gateway}
use kube_static_egress_ip.Director.Rules.{Adding, marked, bypassed, add_route_rules}
use kube_static_egress_ip.Director.Directed.{directed}
use kube_static_egress_ip.Director.Directed.Steps.{directed-added}
use kube_static_egress_ip.Director.Directed.Total.{add_route_to_gateway-Succeeds}
use kube_static_egress_ip.Controller.{
  Controller, endpoint_ips, generate_rule_id, director_add, endpoints_of, direct_rule,
  do_director_processing,
}
use kube_static_egress_ip.Controller.Directing.{is_pair_from, is_pair, endpoints_of-Keeps}

module _ {W : Type 0} (h : Host W) (L : IptablesLaws h) (k : Cluster W)
    (quiet : (n s : String) → Keeps L.rules (k.get_endpoints n s)) (G : IsReliable h) where
  open L use {rules}

  -- The lister knows the services of the rules.
  abbrev pub AllKnown : String → List Rule → Type 0
  AllKnown namespace [] = Unit
  AllKnown namespace (r ∷ l) =
      Succeeds (k.get_endpoints namespace r.service_name) × AllKnown namespace l

  -- The rules after the additions for the rules of a resource.
  unfoldable pub all_added : StaticEgressIp → ℕ → List Rule → Tables → Tables
  all_added e i [] x = x
  all_added e i (r ∷ l) x =
      let s = generate_rule_id h e.namespace e.name i in
      all_added e (suc i) l (bypassed s r.cidr (marked s r.cidr x))

  pub directed-all_added :
      (e : StaticEgressIp) (i : ℕ) (l : List Rule) (x : Tables) (s d : String)
      → directed (all_added e i l x) s d ≡ (is_pair_from h e i l s d || directed x s d)
  unfolding all_added
  directed-all_added e i [] x s d = refl
  directed-all_added e i (r ∷ l) x s d =
      let t = generate_rule_id h e.namespace e.name i in
      rw
        (
          directed-all_added e (suc i) l (bypassed t r.cidr (marked t r.cidr x)) s d,
          directed-added t r.cidr x,
        )
        (ground (arith, eq_iff t s, eq_iff s t, eq_iff r.cidr d, eq_iff d r.cidr))

  pub endpoints_of-Succeeds :
      (n s : String) → Succeeds (k.get_endpoints n s) → Succeeds (endpoints_of h k n s)
  unfolding endpoints_of ◌>>=◌ attempt
  endpoints_of-Succeeds n s g = record {
    at = λ w. go (k.get_endpoints n s w).0 (k.get_endpoints n s w).1 refl (g.at w);
  }
    where
      go :
          {w : W} (o : Outcome Endpoints) (w' : W)
          → k.get_endpoints n s w ≡ (o, w')
          → IsOk o
          → IsOk (endpoints_of h k n s w).0
      go (ok a) w' e h = rw e tt
      go (err x) w' e h = absurd h
      go (panicked m) w' e h = absurd h
      go (exited m) w' e h = absurd h

  director_add-some :
      (c : Controller) (dir : EgressDirector) (s : String) (ips : List String) (cidr g : String)
      → c.traffic_director ≡ some dir
      → director_add h c s ips cidr g ≡ add_route_to_gateway h dir s ips cidr g
  unfolding director_add
  director_add-some c dir s ips cidr g e = rw e refl

  added-Edits :
      (dir : EgressDirector) (s : String) (ips : List String) (cidr g : String) (x : Tables)
      → Edits rules
          (λ _. ⊥)
          x
          (add_route_to_gateway h dir s ips cidr g)
          (bypassed s cidr (marked s cidr x))
  added-Edits dir s ips cidr g x =
      Edits-Succeeds {E = Adding s cidr x}
        (record {
          at = λ w e.
              subst
                (λ (z : Tables).
                  After rules (Adding s cidr z) (bypassed s cidr (marked s cidr z))
                    (add_route_to_gateway h dir s ips cidr g w))
                e (add_route_rules h L dir s ips cidr g w);
        })
        (add_route_to_gateway-Succeeds h G dir s ips cidr g)

  pub direct_rule-Edits :
      (c : Controller) (dir : EgressDirector) (e : StaticEgressIp) (i : ℕ) (r : Rule) (x : Tables)
      → c.traffic_director ≡ some dir
      → Succeeds (k.get_endpoints e.namespace r.service_name)
      → let s = generate_rule_id h e.namespace e.name i in
        Edits rules (λ _. ⊥) x (direct_rule h k c e i r) (bypassed s r.cidr (marked s r.cidr x))
  unfolding direct_rule logged
  direct_rule-Edits c dir e i r x there known =
      let s = generate_rule_id h e.namespace e.name i in
      let y = bypassed s r.cidr (marked s r.cidr x) in
      Edits-bind x
        (Edits-Succeeds {E = λ _. Unit}
          (Edits-Keeps tt (endpoints_of-Keeps h L k quiet e.namespace r.service_name))
          (endpoints_of-Succeeds e.namespace r.service_name known))
        λ p.
          Edits-bind y
            (Edits-attempt (
              rw
                (director_add-some c dir s (endpoint_ips p.subsets) r.cidr e.status.gateway_ip
                  there)
                (added-Edits dir s (endpoint_ips p.subsets) r.cidr e.status.gateway_ip x)))
            (λ _. Edits-pure y tt)

  pub direct_all-Edits :
      (c : Controller) (dir : EgressDirector) (e : StaticEgressIp) (i : ℕ) (l : List Rule)
      (x : Tables)
      → c.traffic_director ≡ some dir
      → AllKnown e.namespace l
      → Edits rules (λ _. ⊥) x (for_each_from i (direct_rule h k c e) l) (all_added e i l x)
  unfolding for_each_from all_added
  direct_all-Edits c dir e i [] x there known = Edits-pure x tt
  direct_all-Edits c dir e i (r ∷ l) x there (first, rest) =
      Edits-bind _ (direct_rule-Edits c dir e i r x there first)
        (λ _. direct_all-Edits c dir e (suc i) l _ there rest)

  -- On a host whose iptables calls do what they are documented to do and on which no call of
  -- iptables, ipset or a command fails, with a lister that does not touch the rules and knows the
  -- service of each rule of a resource that has a gateway address: a sync of the resource on a
  -- director node whose director is set up returns, and the node then directs exactly the pairs
  -- of the resource's rules and those that it directed before.
  do_director_processing_directs :
      (c : Controller) (dir : EgressDirector) (e : StaticEgressIp) (w : W)
      → c.traffic_director ≡ some dir
      → e.status.gateway_ip ≢ ""
      → AllKnown e.namespace e.spec.rules
      → ((do_director_processing h k c e w).0 ≡ ok tt)
        × ((s d : String)
            → directed (rules (do_director_processing h k c e w).1) s d
              ≡ (is_pair h e s d || directed (rules w) s d))
  unfolding do_director_processing
  do_director_processing_directs c dir e w there gateway known =
      let body = for_each_from 0 (direct_rule h k c e) e.spec.rules in
      let x = all_added e 0 e.spec.rules (rules w) in
      let total : ((body w).0 ≡ ok tt) × (rules (body w).1 ≡ x) =
        After-total rules x (body w).0 (body w).1
          ((direct_all-Edits c dir e 0 e.spec.rules (rules w) there known).at w refl) in
      let address : (e.status.gateway_ip == "") ≡ false =
        ground (arith, eq_iff e.status.gateway_ip "") in
      rw address (
        total.0,
        λ s d.
            ap (λ (y : Tables). directed y s d) total.1
            ∙ directed-all_added e 0 e.spec.rules (rules w) s d,
      )
