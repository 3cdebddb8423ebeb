-- ===== src/Controller/Queue/Items.antt =====
-- What a worker tells the queue about a key that it takes off.
use kube_static_egress_ip.Prelude.{
  ◌≡◌, refl, ◌∙◌, String, Bool, true, some, List, [], ◌∷◌, ◌++◌, arith,
}
use mathlib.Core.List.{append_assoc, append-nil}
use kube_static_egress_ip.Effect.{Outcome, ok, err, panicked, exited, ◌>>=◌, attempt}
use kube_static_egress_ip.Host.{Host}
use kube_static_egress_ip.Cluster.{Cluster, Item, key}
use kube_static_egress_ip.Cluster.Calls.{CallsKeep}
use kube_static_egress_ip.Controller.{Controller, sync_handler}
use kube_static_egress_ip.Controller.Sync.{sync_handler-Keeps}
use kube_static_egress_ip.Controller.Queue.{process_item, process_next_work_item}
use kube_static_egress_ip.Effect.Deferred.{with_deferred}

-- A call that tells the queue about an item.
pub data Told : Type 0 where
  done forget : Item → Told
  requeue : String → Told

module _ {W : Type 0} (k : Cluster W) where
  open k use {queue_get, queue_done, queue_forget, queue_add_rate_limited}

  -- The calls that the queue has had, as a view of the world; these calls return nothing.
  pub record QueueLaws : Type 0 where
    pub told : W → List Told
    pub told-queue_get : (w : W) → told (queue_get w).1 ≡ told w
    pub told-queue_done : (i : Item) (w : W) → told (queue_done i w).1 ≡ told w ++ done i ∷ []
    pub told-queue_forget : (i : Item) (w : W) → told (queue_forget i w).1 ≡ told w ++ forget i ∷ []
    pub told-requeue :
        (s : String) (w : W) → told (queue_add_rate_limited s w).1 ≡ told w ++ requeue s ∷ []
    pub queue_done_ok : (i : Item) (w : W) → (queue_done i w).0 ≡ ok tt
    pub queue_forget_ok : (i : Item) (w : W) → (queue_forget i w).0 ≡ ok tt
    pub requeue_ok : (s : String) (w : W) → (queue_add_rate_limited s w).0 ≡ ok tt

-- What the queue is told of a key, by how its sync ended: it is forgotten, or put back, or neither.
abbrev pub verdict : String → Outcome (Unit {0}) → List Told
verdict s (ok _) = forget (key s) ∷ done (key s) ∷ []
verdict s (err _) = requeue s ∷ done (key s) ∷ []
verdict s (panicked _) = done (key s) ∷ []
verdict s (exited _) = []

-- How the worker goes on: with the next item after a success and after an error alike.
abbrev pub goes_on : Outcome (Unit {0}) → Outcome Bool
goes_on (ok _) = ok true
goes_on (err _) = ok true
goes_on (panicked m) = panicked m
goes_on (exited m) = exited m

module _ {W : Type 0} (h : Host W) (k : Cluster W) (L : QueueLaws k) (C : CallsKeep h k L.told)
    (c : Controller) where
  open k use {queue_get}
  open L use {told}

  -- With a work queue whose calls return, and that no other call tells anything: a key that a
  -- worker takes off the queue is synced, and the queue is told once that it is done, unless the
  -- process exits; before that it is forgotten exactly if the sync returned without an error, and
  -- put back exactly if the sync returned an error; the worker then goes on, unless the sync
  -- panicked or the process exited.
  pub process_next_work_item_key :
      (s : String) (w : W)
      → (queue_get w).0 ≡ ok (some (key s))
      → let synced = (sync_handler h k c s (queue_get w).1).0 in
        ((process_next_work_item h k c w).0 ≡ goes_on synced)
        × (told (process_next_work_item h k c w).1 ≡ told w ++ verdict s synced)
  unfolding process_next_work_item process_item with_deferred attempt ◌>>=◌
  process_next_work_item_key s w got = go (sync_handler h k c s (queue_get w).1).0 refl
    where
      w' : W
      w' = (sync_handler h k c s (queue_get w).1).1

      same : told w' ≡ told w
      same = (sync_handler-Keeps h k told C c s).at (queue_get w).1 ∙ L.told-queue_get w

      go :
          (r : Outcome (Unit {0}))
          → (sync_handler h k c s (queue_get w).1).0 ≡ r
          → ((process_next_work_item h k c w).0 ≡ goes_on r)
            × (told (process_next_work_item h k c w).1 ≡ told w ++ verdict s r)
      go (ok a) e = ground (
        arith,
        got,
        e,
        same,
        L.queue_forget_ok (key s) w',
        L.told-queue_forget (key s) w',
        L.queue_done_ok (key s) (k.queue_forget (key s) w').1,
        L.told-queue_done (key s) (k.queue_forget (key s) w').1,
        append_assoc (told w) (forget (key s) ∷ []) (done (key s) ∷ []),
      )
      go (err x) e = ground (
        arith,
        got,
        e,
        same,
        L.requeue_ok s w',
        L.told-requeue s w',
        L.queue_done_ok (key s) (k.queue_add_rate_limited s w').1,
        L.told-queue_done (key s) (k.queue_add_rate_limited s w').1,
        append_assoc (told w) (requeue s ∷ []) (done (key s) ∷ []),
      )
      go (panicked m) e =
          ground (arith, got, e, same, L.queue_done_ok (key s) w', L.told-queue_done (key s) w')
      go (exited m) e = ground (arith, got, e, same, append-nil (told w))
