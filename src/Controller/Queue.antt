-- ===== src/Controller/Queue.antt =====
-- The workers of pkg/controller/controller.go, and their start.
pub mod Items
pub mod Ends
use kube_static_egress_ip.Prelude.{
  ℕ, zero, suc, String, Bool, true, false, Option, none, some, List, [], ◌∷◌, if◌then◌else◌,
}
use kube_static_egress_ip.Prelude.Text.{◌<>◌}
use kube_static_egress_ip.Effect.{
  Error, plain, text, Outcome, ok, err, panicked, exited, M, pure, fail, panic, ◌>>=◌, ◌>>◌,
  attempt, logged, or_fatal,
}
use kube_static_egress_ip.Effect.Deferred.{with_deferred}
use kube_static_egress_ip.Host.{Host}
use kube_static_egress_ip.Cluster.{Cluster, Item, key, other}
use kube_static_egress_ip.Utils.{get_node_object, get_node_ip, ip_text}
use kube_static_egress_ip.Director
use kube_static_egress_ip.Director.{new_egress_director}
use kube_static_egress_ip.Gateway
use kube_static_egress_ip.Gateway.{new_egress_gateway}
use kube_static_egress_ip.Controller.{Controller, sync_handler, nil_dereference}
use kube_static_egress_ip.Controller.Memory.{Memory, set_traffic_gateway, set_traffic_director}

module _ {W : Type 0} (h : Host W) (k : Cluster W) where
  open k use {queue_get, queue_done, queue_forget, queue_add_rate_limited, wait_for_cache_sync}

  -- The function literal of processNextWorkItem: its error is only reported.
  unfoldable pub process_item : Controller → Item → M W (Unit {0})
  process_item c (other obj) = queue_forget (other obj)
  process_item c (key s) = do
    synced ← attempt (sync_handler h k c s)
    elim synced [ some _ ↦ queue_forget (key s) | none ↦ queue_add_rate_limited s ]

  unfoldable pub process_next_work_item : Controller → M W Bool
  process_next_work_item c = do
    obj ← queue_get
    elim obj [
      | none ↦ pure false
      | some item ↦ with_deferred (queue_done item) (process_item c item) >>= λ _. pure true
    ]

  -- for c.processNextWorkItem() {}: the result says whether the loop ended within its fuel.
  unfoldable pub run_worker : ℕ → Controller → M W Bool
  run_worker zero c = pure false
  run_worker (suc fuel) c = do
    more ← process_next_work_item c
    elim more [ true ↦ run_worker fuel c | false ↦ pure true ]

  -- NewEgressIPController drops both errors: a nil node is dereferenced.
  unfoldable pub new_egress_ip_controller : M W Controller
  new_egress_ip_controller = do
    node ← attempt (get_node_object h k "")
    elim node [
      | none ↦ panic nil_dereference
      | some n ↦ elim (get_node_ip h n) [
        | ok ip ↦
            pure
              (record { traffic_director = none; traffic_gateway = none; node_ip = ip_text h ip })
        | err e ↦
            pure (record { traffic_director = none; traffic_gateway = none; node_ip = "<nil>" })
        | panicked m ↦ panic m
        | exited m ↦ (λ w. (exited m, w))
      ]
    ]

  abbrev gateway_failed : Error → String
  gateway_failed e = "Failed to setup node to act as egress traffic gateway: " <> text e

  abbrev director_failed : Error → String
  director_failed e = "Failed to setup node to act as egress traffic director: " <> text e

  -- Controller.Run up to the start of the workers. A field is set as soon as its value is made.
  unfoldable pub start : (m : Memory W) → m.Ptr → M W (Unit {0})
  start m c = do
    logged (h.write_file "/proc/sys/net/ipv4/conf/all/rp_filter" "0")
    logged (h.write_file "/proc/sys/net/ipv4/conf/default/rp_filter" "0")
    or_fatal gateway_failed (new_egress_gateway h)
    set_traffic_gateway m c
    or_fatal gateway_failed (Gateway.setup h)
    d ← or_fatal director_failed (new_egress_director h k)
    set_traffic_director m c d
    or_fatal director_failed (Director.setup h)
    synced ← wait_for_cache_sync
    elim synced [ true ↦ pure tt | false ↦ fail (plain "failed to wait for caches to sync") ]
