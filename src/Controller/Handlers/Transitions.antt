-- ===== src/Controller/Handlers/Transitions.antt =====
-- What the handlers of update and delete events do, and what they leave.
use kube_static_egress_ip.Prelude.{
  ◌≡◌, refl, ap, ◌∙◌, ℕ, String, false, ◌&&◌, none, some, List, ◌==◌,
}
use kube_static_egress_ip.Effect.{M, Outcome, ok, err, panicked, exited}
use kube_static_egress_ip.Effect.Keeps.{
  Keeps, Keeps-pure, Keeps-panic, Keeps-bind, Keeps-on_error, Keeps-if,
}
use kube_static_egress_ip.Effect.Edits.{After}
use kube_static_egress_ip.Api.{Rule, StaticEgressIp}
use kube_static_egress_ip.Host.{Host, RuleSpec}
use kube_static_egress_ip.Host.Rules.{Tables, IptablesLaws, edit, without_rule}
use kube_static_egress_ip.Cluster.{Cluster}
use kube_static_egress_ip.Chains.{ensure_gone}
use kube_static_egress_ip.Chains.Steps.{open_set-Keeps}
use kube_static_egress_ip.Director.{delete_route_to_gateway, unmark_and_unbypass, delete_route}
use kube_static_egress_ip.Gateway.{nat_chain, forward_chain}
use kube_static_egress_ip.Controller.{Controller, director_delete}
use kube_static_egress_ip.Controller.Sync.Steps.{Keeps-logged, Keeps-for_each_from, Keeps-option}
use kube_static_egress_ip.Controller.Handlers.{
  Deleted, resource, tombstone, foreign, enqueue_static_egress_ip, withdraw_rule, withdraw,
  delete_static_egress_ip,
}

edit-at_other :
    (t c t' c' : String) (f : List RuleSpec → List RuleSpec) (tables : Tables)
    → (t == t' && c == c') ≡ false
    → edit t c f tables t' c' ≡ tables t' c'
unfolding edit
edit-at_other t c t' c' f tables e = rw e

module _ {W : Type 0} (h : Host W) (L : IptablesLaws h) where
  open L use {rules}

  -- Deleting from another chain leaves a chain alone.
  delete-Keeps :
      (t c t' c' : String) (r : RuleSpec)
      → (t == t' && c == c') ≡ false
      → Keeps (λ w. rules w t' c') (h.delete t c r)
  delete-Keeps t c t' c' r ne = record {
    at = λ w. go w (h.delete t c r w).0 (h.delete t c r w).1 (L.delete_one t c r w);
  }
    where
      go :
          (w : W) (o : Outcome (Unit {0})) (w' : W)
          → After rules (λ x. x ≡ rules w) (edit t c (without_rule r) (rules w)) (o, w')
          → rules w' t' c' ≡ rules w t' c'
      go w (ok a) w' e =
          ap (λ (x : Tables). x t' c') e ∙ edit-at_other t c t' c' (without_rule r) (rules w) ne
      go w (err x) w' e = ap (λ (x : Tables). x t' c') e
      go w (panicked m) w' e = ap (λ (x : Tables). x t' c') e
      go w (exited m) w' e = ap (λ (x : Tables). x t' c') e

  -- What leaves all rules alone leaves one chain alone.
  chain-Keeps : {A : Type 0} {m : M W A} (t c : String) → Keeps rules m → Keeps (λ w. rules w t c) m
  chain-Keeps t c h = record { at = λ w. ap (λ (x : Tables). x t c) (h.at w) }

module _ {W : Type 0} (h : Host W) (L : IptablesLaws h) (t c : String)
    (not_mark : ("mangle" == t && "PREROUTING" == c) ≡ false)
    (not_bypass : ("nat" == t && "STATIC-EGRESS-BYPASS-CNI" == c) ≡ false) where
  open L use {rules}

  delete_route_to_gateway-Keeps :
      (s d g : String) → Keeps (λ w. rules w t c) (delete_route_to_gateway h s d g)
  unfolding delete_route_to_gateway unmark_and_unbypass ensure_gone delete_route
  delete_route_to_gateway-Keeps s d g =
      Keeps-bind (chain-Keeps h L t c (open_set-Keeps h L (λ _. Unit) _ s)) λ set.
        Keeps-bind
          (Keeps-bind
            (Keeps-bind (Keeps-on_error _ (chain-Keeps h L t c (L.exists-keeps _ _ _))) (λ b.
              Keeps-if b (Keeps-on_error _ (delete-Keeps h L "mangle" "PREROUTING" t c _ not_mark))
                (Keeps-pure tt)))
            (λ _. Keeps-bind (Keeps-on_error _ (chain-Keeps h L t c (L.exists-keeps _ _ _))) (λ b.
              Keeps-if b (Keeps-on_error _ (delete-Keeps h L "nat" _ t c _ not_bypass))
                (Keeps-pure tt))))
          λ _.
            Keeps-bind
              (Keeps-bind (Keeps-on_error _ (chain-Keeps h L t c (L.output-keeps _))) (λ out.
                Keeps-if _ (Keeps-on_error _ (chain-Keeps h L t c (L.run-keeps _)))
                  (Keeps-pure tt)))
              λ _. Keeps-on_error _ (chain-Keeps h L t c (L.set_destroy-keeps set))

  module _ (k : Cluster W) (quiet : (s : String) → Keeps rules (k.queue_add_rate_limited s)) where
    withdraw_rule-Keeps :
        (cn : Controller) (e : StaticEgressIp) (i : ℕ) (r : Rule)
        → Keeps (λ w. rules w t c) (withdraw_rule h k cn e i r)
    unfolding withdraw_rule director_delete
    withdraw_rule-Keeps cn e i r = Keeps-logged (
        Keeps-option cn.traffic_director _ _
          (Keeps-bind
            (Keeps-bind (chain-Keeps h L t c (open_set-Keeps h L (λ _. Unit) _ _))
              (λ _. Keeps-pure tt))
            (λ _. Keeps-panic _))
          (λ d. delete_route_to_gateway-Keeps _ r.cidr e.status.gateway_ip))

    enqueue-Keeps : (e : StaticEgressIp) → Keeps (λ w. rules w t c) (enqueue_static_egress_ip h k e)
    unfolding enqueue_static_egress_ip
    enqueue-Keeps e =
        Keeps-option (k.key_of e) _ _ (Keeps-pure tt) (λ key. chain-Keeps h L t c (quiet key))

    withdraw-Keeps :
        (cn : Controller) (e : StaticEgressIp) → Keeps (λ w. rules w t c) (withdraw h k cn e)
    unfolding withdraw
    withdraw-Keeps cn e =
        Keeps-bind
          (Keeps-for_each_from 0 (withdraw_rule h k cn e) e.spec.rules (withdraw_rule-Keeps cn e))
          (λ _. enqueue-Keeps e)

    deleted-Keeps :
        (cn : Controller) (o : Deleted)
        → Keeps (λ w. rules w t c) (delete_static_egress_ip h k cn o)
    unfolding delete_static_egress_ip
    deleted-Keeps cn (resource e) = withdraw-Keeps cn e
    deleted-Keeps cn (tombstone (some e)) = withdraw-Keeps cn e
    deleted-Keeps cn (tombstone none) = Keeps-pure tt
    deleted-Keeps cn foreign = Keeps-pure tt

-- On a host whose iptables calls do what they are documented to do, with a work queue that does not
-- touch the rules, the handler of a delete event changes no rule of the gateway's NAT chain and
-- none of its forward chain, whatever is deleted, on whatever node and however the handler ends:
-- the SNAT rules of a resource outlive it.
pub deleted-Keeps_snat :
    {W : Type 0} (h : Host W) (L : IptablesLaws h) (k : Cluster W)
    → ((s : String) → Keeps L.rules (k.queue_add_rate_limited s))
    → (cn : Controller) (o : Deleted) (w : W)
    → let w' = (delete_static_egress_ip h k cn o w).1 in
      (L.rules w' "nat" nat_chain ≡ L.rules w "nat" nat_chain)
      × (L.rules w' "filter" forward_chain ≡ L.rules w "filter" forward_chain)
deleted-Keeps_snat h L k quiet cn o w = (
  (deleted-Keeps h L "nat" nat_chain refl refl k quiet cn o).at w,
  (deleted-Keeps h L "filter" forward_chain refl refl k quiet cn o).at w,
)
