-- ===== src/Controller/Translating/Total.antt =====
-- The sync of a resource on its gateway node on which no call fails.
use kube_static_egress_ip.Prelude.{
  ◌≡◌, refl, subst, ap, ◌∙◌, ℕ, suc, String, Bool, false, ◌&&◌, ◌||◌, some, List, [], ◌∷◌, ◌==◌,
  arith,
}
use kube_static_egress_ip.Effect.{ok, ◌>>=◌, attempt, logged, for_each_from}
use kube_static_egress_ip.Effect.Keeps.{Keeps, Keeps-for_each}
use kube_static_egress_ip.Effect.Edits.{
  Edits, After, Edits-bind, Edits-bind_known, Edits-Keeps, Edits-pure,
}
use kube_static_egress_ip.Effect.Succeeds.{Edits-Succeeds, Edits-attempt, After-total}
use kube_static_egress_ip.Effect.Calm.{IsCalm, logged-IsCalm}
use kube_static_egress_ip.Api.{Rule, StaticEgressIp, Endpoints}
use kube_static_egress_ip.Host.{Host}
use kube_static_egress_ip.Host.Rules.{Tables, IptablesLaws}
use kube_static_egress_ip.Host.Reliable.{IsReliable}
use kube_static_egress_ip.Cluster.{Cluster}
use kube_static_egress_ip.Cluster.Calls.{PathsKeep}
use kube_static_egress_ip.Gateway.{add_static_iptables_rule}
use kube_static_egress_ip.Gateway.Rules.{Adding, added, add_static_rules}
use kube_static_egress_ip.Gateway.Translated.{
  accepted, snats, returns, accepted-added, snats-added, returns-added,
}
use kube_static_egress_ip.Gateway.StaticIp.Calm.{CalmLinks, configure_static_ip-IsCalm}
use kube_static_egress_ip.Controller.Directing.{endpoints_of-Keeps}
use kube_static_egress_ip.Controller.Sync.Steps.{Keeps-logged}
use kube_static_egress_ip.Controller.Sync.Paths.{reach_subset-Keeps, configure_static_ip-Keeps}
use kube_static_egress_ip.Controller.{
  Controller, endpoint_ips, generate_rule_id, gateway_add, endpoints_of, translate_rule,
  do_gateway_processing,
}
use kube_static_egress_ip.Controller.Directing.{is_pair_from}
use kube_static_egress_ip.Controller.Translating.{
  ArePlaced, reach_subsets-Succeeds, add_static-Succeeds,
}

-- The destination of a rule, with its egress address.
abbrev pub is_return_of : List Rule → String → String → Bool
is_return_of [] d ip = false
is_return_of (r ∷ l) d ip = d == r.cidr && ip == r.egress_ip || is_return_of l d ip

module _ {W : Type 0} (h : Host W) where
  -- The set and the destination of a rule of the resource, with the egress address.
  abbrev pub is_rule_from : StaticEgressIp → ℕ → List Rule → String → String → String → Bool
  is_rule_from e i [] s d ip = false
  is_rule_from e i (r ∷ l) s d ip =
      s == generate_rule_id h e.namespace e.name i && d == r.cidr && ip == r.egress_ip
      || is_rule_from e (suc i) l s d ip

  -- The rules after the additions for the rules of a resource.
  abbrev pub all_added : StaticEgressIp → ℕ → List Rule → Tables → Tables
  all_added e i [] x = x
  all_added e i (r ∷ l) x =
      all_added e (suc i) l (added (generate_rule_id h e.namespace e.name i) r.cidr r.egress_ip x)

  snats-all_added :
      (e : StaticEgressIp) (i : ℕ) (l : List Rule) (x : Tables) (s d ip : String)
      → snats (all_added e i l x) s d ip ≡ (is_rule_from e i l s d ip || snats x s d ip)
  snats-all_added e i [] x s d ip = refl
  snats-all_added e i (r ∷ l) x s d ip =
      let t = generate_rule_id h e.namespace e.name i in
      snats-all_added e (suc i) l (added t r.cidr r.egress_ip x) s d ip
      ∙ rw (snats-added t r.cidr r.egress_ip x s d ip) (ground arith)

  accepted-all_added :
      (e : StaticEgressIp) (i : ℕ) (l : List Rule) (x : Tables) (s d : String)
      → accepted (all_added e i l x) s d ≡ (is_pair_from h e i l s d || accepted x s d)
  accepted-all_added e i [] x s d = refl
  accepted-all_added e i (r ∷ l) x s d =
      let t = generate_rule_id h e.namespace e.name i in
      accepted-all_added e (suc i) l (added t r.cidr r.egress_ip x) s d
      ∙ rw (accepted-added t r.cidr r.egress_ip x s d) (ground arith)

  returns-all_added :
      (e : StaticEgressIp) (i : ℕ) (l : List Rule) (x : Tables) (d ip : String)
      → returns (all_added e i l x) d ip ≡ (is_return_of l d ip || returns x d ip)
  returns-all_added e i [] x d ip = refl
  returns-all_added e i (r ∷ l) x d ip =
      let t = generate_rule_id h e.namespace e.name i in
      returns-all_added e (suc i) l (added t r.cidr r.egress_ip x) d ip
      ∙ rw (returns-added t r.cidr r.egress_ip x d ip) (ground arith)

module _ {W : Type 0} (h : Host W) (L : IptablesLaws h) (k : Cluster W)
    (quiet : (n s : String) → Keeps L.rules (k.get_endpoints n s)) (P : PathsKeep h k L.rules)
    (G : IsReliable h) (C : CalmLinks h)
    (calm_nodes : (name : String) → IsCalm (k.get_node name)) where
  open L use {rules}

  -- The lister knows the services of the rules, with endpoints whose addresses name their nodes.
  abbrev pub AllPlaced : String → List Rule → Type 0
  AllPlaced namespace [] = Unit
  AllPlaced namespace (r ∷ l) =
      ((p : Endpoints) × ((w : W) → (k.get_endpoints namespace r.service_name w).0 ≡ ok p)
        × ArePlaced p.subsets)
      × AllPlaced namespace l

  added-Edits :
      (s : String) (ips : List String) (d e : String) (x : Tables)
      → Edits rules (λ _. ⊥) x (add_static_iptables_rule h s ips d e) (added s d e x)
  added-Edits s ips d e x =
      Edits-Succeeds {E = Adding s d e x}
        (record {
          at = λ w q.
              subst
                (λ (z : Tables).
                  After rules (Adding s d e z) (added s d e z)
                    (add_static_iptables_rule h s ips d e w))
                q (add_static_rules h L s ips d e w);
        })
        (add_static-Succeeds h k G calm_nodes s ips d e)

  gateway_add-some :
      (c : Controller) (s : String) (ips : List String) (d e : String)
      → c.traffic_gateway ≡ some tt
      → gateway_add h c s ips d e ≡ add_static_iptables_rule h s ips d e
  unfolding gateway_add
  gateway_add-some c s ips d e q = rw q refl

  endpoints_known :
      (n s : String) (p : Endpoints)
      → ((w : W) → (k.get_endpoints n s w).0 ≡ ok p)
      → (w : W) → (endpoints_of h k n s w).0 ≡ ok p
  unfolding endpoints_of attempt ◌>>=◌
  endpoints_known n s p known w = rw (known w) refl

  translate_rule-Edits :
      (c : Controller) (e : StaticEgressIp) (i : ℕ) (r : Rule) (x : Tables) (p : Endpoints)
      → c.traffic_gateway ≡ some tt
      → ((w : W) → (k.get_endpoints e.namespace r.service_name w).0 ≡ ok p)
      → ArePlaced p.subsets
      → Edits rules
          (λ _. ⊥)
          x
          (translate_rule h k c e i r)
          (added (generate_rule_id h e.namespace e.name i) r.cidr r.egress_ip x)
  unfolding translate_rule logged
  translate_rule-Edits c e i r x p there known placed =
      let s = generate_rule_id h e.namespace e.name i in
      let y = added s r.cidr r.egress_ip x in
      Edits-bind_known x (λ q. p ≡ q)
        (Edits-Succeeds {E = λ _. Unit}
          (Edits-Keeps tt (endpoints_of-Keeps h L k quiet e.namespace r.service_name))
          (record { at = λ w. rw (endpoints_known e.namespace r.service_name p known w) tt }))
        (λ w. rw (endpoints_known e.namespace r.service_name p known w) refl)
        λ q same. rw (← same) (
          Edits-bind x
            (Edits-Succeeds {E = λ _. Unit}
              (Edits-Keeps tt (Keeps-for_each _ p.subsets (reach_subset-Keeps h k rules P c)))
              (reach_subsets-Succeeds h k G calm_nodes c p.subsets placed))
            λ _.
              Edits-bind y
                (Edits-bind y
                  (Edits-attempt (
                    rw (gateway_add-some c s (endpoint_ips p.subsets) r.cidr r.egress_ip there)
                      (added-Edits s (endpoint_ips p.subsets) r.cidr r.egress_ip x)))
                  (λ _. Edits-pure y tt))
                λ _.
                  Edits-Succeeds {E = λ _. Unit}
                    (Edits-Keeps tt (Keeps-logged (configure_static_ip-Keeps h k rules P _)))
                    (logged-IsCalm (configure_static_ip-IsCalm h C _)))

  translate_all-Edits :
      (c : Controller) (e : StaticEgressIp) (i : ℕ) (l : List Rule) (x : Tables)
      → c.traffic_gateway ≡ some tt
      → AllPlaced e.namespace l
      → Edits rules (λ _. ⊥) x (for_each_from i (translate_rule h k c e) l) (all_added h e i l x)
  unfolding for_each_from
  translate_all-Edits c e i [] x there placed = Edits-pure x tt
  translate_all-Edits c e i (r ∷ l) x there ((p, known, at), rest) =
      Edits-bind _ (translate_rule-Edits c e i r x p there known at)
        (λ _. translate_all-Edits c e (suc i) l _ there rest)

  -- On a host whose iptables calls do what they are documented to do, on which no call of iptables,
  -- ipset or a command fails and none of netlink panics, with lookups that do not touch the rules,
  -- and a lister that knows the service of each rule of a resource, with addresses that name their
  -- nodes: a sync of the resource on its gateway node returns, and afterwards the node accepts
  -- exactly the pairs of the resource's rules and those that it accepted before, translates exactly
  -- the traffic of the resource's rules to their egress addresses and what it translated before,
  -- and marks the traffic that returns to these addresses and what it marked before.
  pub do_gateway_processing_translates :
      (c : Controller) (e : StaticEgressIp) (w : W)
      → c.traffic_gateway ≡ some tt
      → AllPlaced e.namespace e.spec.rules
      → let x = rules w in
        let y = rules (do_gateway_processing h k c e w).1 in
        ((do_gateway_processing h k c e w).0 ≡ ok tt)
        × ((s d : String)
            → accepted y s d ≡ (is_pair_from h e 0 e.spec.rules s d || accepted x s d))
        × ((s d ip : String)
            → snats y s d ip ≡ (is_rule_from h e 0 e.spec.rules s d ip || snats x s d ip))
        × ((d ip : String) → returns y d ip ≡ (is_return_of e.spec.rules d ip || returns x d ip))
  unfolding do_gateway_processing
  do_gateway_processing_translates c e w there placed =
      let l = e.spec.rules in
      let x = rules w in
      let body = for_each_from 0 (translate_rule h k c e) l in
      let total : ((body w).0 ≡ ok tt) × (rules (body w).1 ≡ all_added h e 0 l x) =
        After-total rules (all_added h e 0 l x) (body w).0 (body w).1
          ((translate_all-Edits c e 0 l x there placed).at w refl) in
      (
        total.0,
        λ s d. ap (λ (y : Tables). accepted y s d) total.1 ∙ accepted-all_added h e 0 l x s d,
        λ s d ip. ap (λ (y : Tables). snats y s d ip) total.1 ∙ snats-all_added h e 0 l x s d ip,
        λ d ip. ap (λ (y : Tables). returns y d ip) total.1 ∙ returns-all_added h e 0 l x d ip,
      )
