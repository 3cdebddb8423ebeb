-- ===== src/Controller/Run.antt =====
-- Controller.Run of pkg/controller/controller.go: the start, the workers and the end.
pub mod Keeping
pub mod Filling
pub mod Workers
use kube_static_egress_ip.Prelude.{ℕ, zero, suc}
use kube_static_egress_ip.Effect.{M, pure, ◌>>=◌, ◌>>◌}
use kube_static_egress_ip.Host.{Host}
use kube_static_egress_ip.Cluster.{Cluster}
use kube_static_egress_ip.Controller.Memory.{Memory}
use kube_static_egress_ip.Controller.Queue.{start}
use kube_static_egress_ip.Effect.Deferred.{with_deferred}

module _ {W : Type 0} (h : Host W) (k : Cluster W) where
  open k use {queue_shut_down, go_worker, wait_for_stop}

  -- for i := 0; i < threadiness; i++ { go wait.Until(c.runWorker, time.Second, stopCh) }
  unfoldable pub launch : ℕ → M W (Unit {0})
  launch zero = pure tt
  launch (suc n) = go_worker >> launch n

  -- The queue is shut down when the function ends, except by an exit of the process. The deferred
  -- HandleCrash logs a panic and lets it go on.
  unfoldable pub run : (m : Memory W) → ℕ → m.Ptr → M W (Unit {0})
  unfolding launch
  run m threadiness c =
      with_deferred queue_shut_down do _ ← start h k m c; launch threadiness; wait_for_stop
