-- ===== src/Controller/Queue/Ends.antt =====
-- The loop of a worker, and the shutdown of its queue.
use kube_static_egress_ip.Prelude.{
  ℕ, zero, suc, ◌<◌, ◌≡◌, ◌≢◌, refl, ap, ◌∙◌, Bool, true, false, Option, none, some, String, arith,
}
use kube_static_egress_ip.Effect.{M, Outcome, ok, err, panicked, exited, ◌>>=◌, pure}
use kube_static_egress_ip.Effect.Keeps.{Keeps, Keeps-bind, Keeps-attempt, Keeps-pure}
use kube_static_egress_ip.Host.{Host}
use kube_static_egress_ip.Cluster.{Cluster, Item, key, other}
use kube_static_egress_ip.Cluster.Calls.{CallsKeep}
use kube_static_egress_ip.Controller.{Controller}
use kube_static_egress_ip.Controller.Sync.{sync_handler-Keeps}
use kube_static_egress_ip.Controller.Sync.Steps.{Keeps-option}
use kube_static_egress_ip.Controller.Queue.{process_item, process_next_work_item, run_worker}
use kube_static_egress_ip.Effect.Deferred.{finish, with_deferred}

module _ {W : Type 0} (k : Cluster W) where
  open k use {queue_get, queue_done, queue_forget, queue_add_rate_limited}

  -- A queue that hands out a number of items and is shut down then: the number left is a view of
  -- the world that only Get changes.
  pub record ShutdownLaws : Type 0 where
    pub left : W → ℕ
    pub get_last : (w : W) → left w ≡ 0 → (queue_get w).0 ≡ ok none
    pub left-queue_get : (w : W) (n : ℕ) → left w ≡ suc n → left (queue_get w).1 ≡ n
    pub queue_done-keeps : (i : Item) → Keeps left (queue_done i)
    pub queue_forget-keeps : (i : Item) → Keeps left (queue_forget i)
    pub requeue-keeps : (s : String) → Keeps left (queue_add_rate_limited s)

module _ {W : Type 0} (h : Host W) (k : Cluster W) (L : ShutdownLaws k) (C : CallsKeep h k L.left)
    (c : Controller) where
  open k use {queue_get, queue_done}
  open L use {left}

  finish-Keeps :
      {A : Type 0} (r : Outcome A) (deferred : M W (Unit {0}))
      → Keeps left deferred
      → Keeps left (finish r deferred)
  unfolding finish
  finish-Keeps (ok a) deferred d = record { at = d.at }
  finish-Keeps (err e) deferred d = record { at = d.at }
  finish-Keeps (panicked m) deferred d = record { at = d.at }
  finish-Keeps (exited m) deferred d = record { at = λ w. refl }

  with_deferred-Keeps :
      {A : Type 0} (deferred : M W (Unit {0})) (body : M W A)
      → Keeps left deferred
      → Keeps left body
      → Keeps left (with_deferred deferred body)
  unfolding with_deferred
  with_deferred-Keeps deferred body d b = record {
    at = λ w. (finish-Keeps (body w).0 deferred d).at (body w).1 ∙ b.at w;
  }

  process_item-Keeps : (i : Item) → Keeps left (process_item h k c i)
  unfolding process_item
  process_item-Keeps (other obj) = L.queue_forget-keeps (other obj)
  process_item-Keeps (key s) =
      Keeps-bind (Keeps-attempt (sync_handler-Keeps h k left C c s))
        (λ o. Keeps-option o _ _ (L.requeue-keeps s) (λ _. L.queue_forget-keeps (key s)))

  -- What follows Get.
  rest : Option Item → M W Bool
  rest obj = elim obj [
    | none ↦ pure false
    | some item ↦ with_deferred (queue_done item) (process_item h k c item) >>= λ _. pure true
  ]

  rest-Keeps : (o : Option Item) → Keeps left (rest o)
  unfolding rest
  rest-Keeps none = Keeps-pure false
  rest-Keeps (some i) =
      Keeps-bind
        (with_deferred-Keeps (queue_done i) (process_item h k c i) (L.queue_done-keeps i)
          (process_item-Keeps i))
        (λ _. Keeps-pure true)

  left-process : (w : W) → left (process_next_work_item h k c w).1 ≡ left (queue_get w).1
  unfolding process_next_work_item rest ◌>>=◌
  left-process w = go (queue_get w).0 refl
    where
      go :
          (r : Outcome (Option Item))
          → (queue_get w).0 ≡ r
          → left (process_next_work_item h k c w).1 ≡ left (queue_get w).1
      go (ok o) e = rw e ((rest-Keeps o).at (queue_get w).1)
      go (err x) e = rw e
      go (panicked m) e = rw e
      go (exited m) e = rw e

  -- An item was handed out, where the worker goes on.
  less-process :
      (w : W) (n : ℕ)
      → left w ≡ n
      → (process_next_work_item h k c w).0 ≡ ok true
      → suc (left (process_next_work_item h k c w).1) ≡ n
  unfolding process_next_work_item ◌>>=◌
  less-process w zero e more = absurd (ground (arith, L.get_last w e))
  less-process w (suc n) e more = ap suc (left-process w ∙ L.left-queue_get w n e)

  -- With a work queue that hands out a number of items and is shut down then: with more rounds than
  -- the items that are left, the loop of a worker does not run out of rounds: it ends because the
  -- queue is shut down, or by a panic or the end of the process.
  pub run_worker_ends : (fuel : ℕ) (w : W) → left w < fuel → (run_worker h k fuel c w).0 ≢ ok false
  unfolding run_worker ◌>>=◌
  run_worker_ends zero w less = elim less [ ]
  run_worker_ends (suc fuel) w less =
      go (process_next_work_item h k c w).0 refl
        (run_worker_ends fuel (process_next_work_item h k c w).1)
    where
      w' : W
      w' = (process_next_work_item h k c w).1

      go :
          (r : Outcome Bool)
          → (process_next_work_item h k c w).0 ≡ r
          → (left w' < fuel → (run_worker h k fuel c w').0 ≢ ok false)
          → (run_worker h k (suc fuel) c w).0 ≢ ok false
      go (ok true) e ih = rw e (ih (omega (arith, less-process w (left w) refl e)))
      go (ok false) e ih = rw e (λ p. cc)
      go (err x) e ih = rw e (λ p. cc)
      go (panicked m) e ih = rw e (λ p. cc)
      go (exited m) e ih = rw e (λ p. cc)
