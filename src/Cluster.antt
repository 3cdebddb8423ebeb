-- ===== src/Cluster.antt =====
-- What the program calls on the cluster and does not implement: the Kubernetes API server, the
-- informers' stores and the work queue of client-go.
pub mod Calls
use kube_static_egress_ip.Prelude.{String, Bool, Option, List}
use kube_static_egress_ip.Effect.{M}
use kube_static_egress_ip.Api.{Node, Endpoints, StaticEgressIp}

-- What a worker takes off the queue: the keys that the program puts there are texts, and any other
-- object is `other`.
pub data Item : Type 0 where
  key : String → Item
  other : String → Item

pub record Cluster (W : Type 0) : Type 0 where
  -- clientset.CoreV1().Nodes()
  pub get_node : String → M W Node
  pub list_nodes : M W (List Node)
  -- StaticEgressIPs(namespace).Update(obj)
  pub update_egress_ip : String → StaticEgressIp → M W (Unit {0})
  -- the listers, by namespace and name
  pub list_egress_ips : M W (List StaticEgressIp)
  pub get_egress_ip : String → String → M W StaticEgressIp
  pub get_endpoints : String → String → M W Endpoints
  -- workqueue.RateLimitingInterface; `none` is a queue that has been shut down.
  pub queue_get : M W (Option Item)
  pub queue_done : Item → M W (Unit {0})
  pub queue_forget : Item → M W (Unit {0})
  pub queue_add_rate_limited : String → M W (Unit {0})
  pub queue_shut_down : M W (Unit {0})
  -- cache.WaitForCacheSync
  pub wait_for_cache_sync : M W Bool
  -- go wait.Until(c.runWorker, time.Second, stopCh), and <-stopCh
  pub go_worker : M W (Unit {0})
  pub wait_for_stop : M W (Unit {0})
  -- cache.SplitMetaNamespaceKey and cache.MetaNamespaceKeyFunc
  pub split_key : String → Option (String × String)
  pub key_of : StaticEgressIp → Option String
