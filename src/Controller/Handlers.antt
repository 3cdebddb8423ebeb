-- ===== src/Controller/Handlers.antt =====
-- The informer's event handlers of pkg/controller/controller.go: what happens at once when a
-- resource is added, updated or deleted. All of them end by putting the resource on the queue.
pub mod Transitions
pub mod Withdrawing
pub mod Moving
pub mod Leaving
use kube_static_egress_ip.Prelude.{
  ℕ, String, Bool, true, false, not, ◌&&◌, Option, none, some, List, [], ◌∷◌, ◌==◌, if◌then◌else◌,
}
use kube_static_egress_ip.Prelude.Text.{◌<>◌}
use kube_static_egress_ip.Effect.{
  Outcome, ok, M, pure, panic, ◌>>=◌, ◌>>◌, attempt, logged, for_each_from, when,
}
use kube_static_egress_ip.Api.{Rule, StaticEgressIp}
use kube_static_egress_ip.Host.{Host}
use kube_static_egress_ip.Cluster.{Cluster}
use kube_static_egress_ip.Gateway.StaticIp.{remove_static_ip}
use kube_static_egress_ip.Controller.{
  Controller, generate_rule_id, endpoints_of, is_egress_gateway, director_delete, director_clear,
  gateway_clear,
}

-- What a delete handler is given: the resource, or a tombstone with the resource or something else
-- in it, or another object.
pub data Deleted : Type 0 where
  resource : StaticEgressIp → Deleted
  tombstone : Option StaticEgressIp → Deleted
  foreign : Deleted

module _ {W : Type 0} (h : Host W) (k : Cluster W) where
  open k use {queue_add_rate_limited, key_of}

  unfoldable pub enqueue_static_egress_ip : StaticEgressIp → M W (Unit {0})
  enqueue_static_egress_ip e = elim (key_of e) [
    | none ↦ pure tt
    | some key ↦ queue_add_rate_limited key
  ]

  unfoldable pub add_static_egress_ip : StaticEgressIp → M W (Unit {0})
  add_static_egress_ip e = enqueue_static_egress_ip e

  -- An error is logged, and the answer is then false.
  unfoldable pub is_gateway_or_false : StaticEgressIp → M W Bool
  is_gateway_or_false e = do
    answer ← attempt (is_egress_gateway h k e)
    elim answer [ some b ↦ pure b | none ↦ pure false ]

  -- One rule of the old object, when the gateway has moved.
  unfoldable pub clean_rule : Controller → Bool → Bool → StaticEgressIp → ℕ → Rule → M W (Unit {0})
  clean_rule c was_gateway is_gateway old i rule = do
    _ ← endpoints_of h k old.namespace rule.service_name
    when was_gateway do
      logged
          (gateway_clear h c (generate_rule_id h old.namespace old.name i) rule.cidr rule.egress_ip)
      logged (remove_static_ip h (rule.egress_ip <> "/32"))
    when is_gateway do
      logged (
          director_clear h c (generate_rule_id h old.namespace old.name i) rule.cidr rule.egress_ip)
      logged (remove_static_ip h (rule.egress_ip <> "/32"))

  -- Both objects name a gateway node, and not the same.
  abbrev pub gateway_moved : StaticEgressIp → StaticEgressIp → Bool
  gateway_moved old new =
      not (old.status.gateway_node == "")
      && not (new.status.gateway_node == "")
      && not (old.status.gateway_node == new.status.gateway_node)

  unfoldable pub change_roles : Controller → StaticEgressIp → StaticEgressIp → M W (Unit {0})
  change_roles c old new = do
    was_gateway ← is_gateway_or_false old
    is_gateway ← is_gateway_or_false new
    for_each_from 0 (clean_rule c was_gateway is_gateway old) old.spec.rules

  unfoldable pub update_static_egress_ip :
      Controller → StaticEgressIp → StaticEgressIp → M W (Unit {0})
  update_static_egress_ip c old new = do
    when (gateway_moved old new) (change_roles c old new)
    enqueue_static_egress_ip new

  -- One rule of a resource that is deleted.
  unfoldable pub withdraw_rule : Controller → StaticEgressIp → ℕ → Rule → M W (Unit {0})
  withdraw_rule c e i rule =
      logged (
        director_delete h c (generate_rule_id h e.namespace e.name i) rule.cidr e.status.gateway_ip)

  unfoldable pub withdraw : Controller → StaticEgressIp → M W (Unit {0})
  withdraw c e = do for_each_from 0 (withdraw_rule c e) e.spec.rules; enqueue_static_egress_ip e

  unfoldable pub delete_static_egress_ip : Controller → Deleted → M W (Unit {0})
  delete_static_egress_ip c (resource e) = withdraw c e
  delete_static_egress_ip c (tombstone (some e)) = withdraw c e
  delete_static_egress_ip c (tombstone none) = pure tt
  delete_static_egress_ip c foreign = pure tt
