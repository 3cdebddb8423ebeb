-- ===== src/Controller/Sync/Steps.antt =====
-- What the steps of a sync leave alone: the calls of the chains and sets, of the director and of
-- the gateway.
use kube_static_egress_ip.Prelude.{ℕ, suc, refl, String, Option, none, some, List, [], ◌∷◌}
use kube_static_egress_ip.Effect.{M, Outcome, logged, for_each_from}
use kube_static_egress_ip.Effect.Keeps.{
  Keeps, Keeps-pure, Keeps-panic, Keeps-bind, Keeps-on_error, Keeps-attempt, Keeps-if,
  Keeps-for_each, keeps_rules,
}
use kube_static_egress_ip.Host.{Host}
use kube_static_egress_ip.Cluster.{Cluster}
use kube_static_egress_ip.Cluster.Calls.{CallsKeep}
use kube_static_egress_ip.Chains.{ensure_first, ensure_last, open_set, add_ips}
use kube_static_egress_ip.Director.{
  EgressDirector, mark_and_bypass, open_tunnel, add_route, add_route_to_gateway,
}
use kube_static_egress_ip.Gateway.{forward_and_translate, insert_rule, add_static_iptables_rule}
use kube_static_egress_ip.Controller.{Controller, director_add, gateway_add}

module _ {W V : Type 0} {view : W → V} where
  pub Keeps-logged : {A : Type 0} {m : M W A} → Keeps view m → Keeps view (logged m)
  unfolding logged
  Keeps-logged h = Keeps-bind (Keeps-attempt h) (λ _. Keeps-pure tt)

  pub Keeps-for_each_from :
      {A : Type 0} (i : ℕ) (body : ℕ → A → M W (Unit {0})) (l : List A)
      → ((j : ℕ) (a : A) → Keeps view (body j a))
      → Keeps view (for_each_from i body l)
  unfolding for_each_from
  Keeps-for_each_from i body [] h = Keeps-pure tt
  Keeps-for_each_from i body (a ∷ l) h =
      Keeps-bind (h i a) (λ _. Keeps-for_each_from (suc i) body l h)

  pub Keeps-result : {A : Type 0} (r : Outcome A) → Keeps view (λ w. (r, w))
  Keeps-result r = record { at = λ w. refl }

  pub Keeps-option :
      {A B : Type 0} (o : Option A) (n : M W B) (s : A → M W B)
      → Keeps view n
      → ((a : A) → Keeps view (s a))
      → Keeps view (elim o [ none ↦ n | some a ↦ s a ])
  Keeps-option none n s hn hs = hn
  Keeps-option (some a) n s hn hs = hs a

pub ruleset sync_rules = (keeps_rules, Keeps-logged, Keeps-for_each_from, Keeps-result)

module _ {W V : Type 0} (h : Host W) (k : Cluster W) (view : W → V) (C : CallsKeep h k view) where
  open C use {
    exists-keeps, insert-keeps, append-keeps, delete-keeps, ipset_new-keeps, set_add-keeps,
  }

  pub ensure_first-Keeps :
      (t c : String) (r : List String) (v a : String) → Keeps view (ensure_first h t c r v a)
  unfolding ensure_first
  ensure_first-Keeps t c r v a = search (keeps_rules, C.exists-keeps, C.insert-keeps)

  pub ensure_last-Keeps :
      (t c : String) (r : List String) (v a : String) → Keeps view (ensure_last h t c r v a)
  unfolding ensure_last
  ensure_last-Keeps t c r v a = search (keeps_rules, C.exists-keeps, C.append-keeps)

  open_set-Keeps : (message s : String) → Keeps view (open_set h message s)
  unfolding open_set
  open_set-Keeps message s = search (keeps_rules, C.ipset_new-keeps)

  add_ips-Keeps :
      (s : String) (set : h.IpSet) (ips : List String) → Keeps view (add_ips h s set ips)
  unfolding add_ips
  add_ips-Keeps s set ips = search (keeps_rules, C.set_add-keeps)

  add_route_to_gateway-Keeps :
      (d : EgressDirector) (s : String) (ips : List String) (cidr g : String)
      → Keeps view (add_route_to_gateway h d s ips cidr g)
  unfolding add_route_to_gateway mark_and_bypass open_tunnel add_route
  add_route_to_gateway-Keeps d s ips cidr g =
      search
        (
          keeps_rules, open_set-Keeps, add_ips-Keeps, ensure_first-Keeps, ensure_last-Keeps,
          C.output-keeps, C.run-keeps,
        )
        depth 9

  pub director_add-Keeps :
      (c : Controller) (s : String) (ips : List String) (cidr g : String)
      → Keeps view (director_add h c s ips cidr g)
  unfolding director_add
  director_add-Keeps c s ips cidr g =
      Keeps-option c.traffic_director _ _
        (Keeps-bind (Keeps-bind (open_set-Keeps _ s) (λ set. add_ips-Keeps s set ips))
          (λ _. Keeps-panic _))
        (λ d. add_route_to_gateway-Keeps d s ips cidr g)

  add_static-Keeps :
      (s : String) (ips : List String) (cidr e : String)
      → Keeps view (add_static_iptables_rule h s ips cidr e)
  unfolding add_static_iptables_rule forward_and_translate insert_rule
  add_static-Keeps s ips cidr e =
      search
        (
          keeps_rules, open_set-Keeps, add_ips-Keeps, ensure_first-Keeps, ensure_last-Keeps,
          C.exists-keeps, C.insert-keeps,
        )
        depth 9

  pub gateway_add-Keeps :
      (c : Controller) (s : String) (ips : List String) (cidr e : String)
      → Keeps view (gateway_add h c s ips cidr e)
  unfolding gateway_add
  gateway_add-Keeps c s ips cidr e =
      Keeps-option c.traffic_gateway _ _
        (Keeps-bind (Keeps-bind (open_set-Keeps _ s) (λ set. add_ips-Keeps s set ips))
          (λ _. Keeps-panic _))
        (λ _. add_static-Keeps s ips cidr e)
