-- ===== src/Commands.antt =====
-- cmd/static-egressip-controller/main.go and cmd/static-egressip-gateway-manager/main.go: what the
-- two programs make and start, in their order. Flags, the kubeconfig, the clients of the core API
-- and the endpoints informer are client-go's and parameters.
pub mod Wiring
use kube_static_egress_ip.Prelude.{ℕ, String, Bool, false, List}
use kube_static_egress_ip.Prelude.Text.{◌<>◌}
use kube_static_egress_ip.Effect.{Error, text, M, pure, ◌>>=◌, ◌>>◌, or_fatal, for_each}
use kube_static_egress_ip.Host.{Host}
use kube_static_egress_ip.Cluster.{Cluster}
use kube_static_egress_ip.Client.Sets.{Config, Machinery, Clientset, new_for_config}
use kube_static_egress_ip.Listers.{Indexer, with_lister}
use kube_static_egress_ip.Informers.{SharedInformerFactory, new_shared_informer_factory, start}
use kube_static_egress_ip.Informers.Egress.{egress_ip_informer, egress_ip_lister}
use kube_static_egress_ip.Manager.Election.{Elector, manager_run}
use kube_static_egress_ip.Signals.{setup_signal_handler}
use kube_static_egress_ip.Api.{StaticEgressIp}
use kube_static_egress_ip.Controller.Memory.{Memory}
use kube_static_egress_ip.Controller.Handlers.{
  Deleted, add_static_egress_ip, update_static_egress_ip, delete_static_egress_ip,
}
use kube_static_egress_ip.Controller.Queue.{new_egress_ip_controller}
use kube_static_egress_ip.Controller.Run.{run}

-- cache.ResourceEventHandlerFuncs
pub record EventHandlers (W : Type 0) : Type 0 where
  pub add_func : StaticEgressIp → M W (Unit {0})
  pub update_func : StaticEgressIp → StaticEgressIp → M W (Unit {0})
  pub delete_func : Deleted → M W (Unit {0})

-- What a program is made of: K are clients of the core API, I informers, O list options, X and Y
-- what a list and a watch return.
pub record Parts (R Q S A K I O X Y W : Type 0) : Type 1 where
  pub machinery : Machinery R Q S A W
  -- clientcmd.BuildConfigFromFlags and kubernetes.NewForConfig
  pub build_config : M W (Config R Q S A)
  pub kube_for_config : Config R Q S A → M W K
  -- cache.NewSharedIndexInformer, with the list and the watch of a clientset. An informer is a
  -- pointer: the number is the place of what is allocated, and no two requests of a program have
  -- the same.
  pub new_shared_index_informer : ℕ → (O → X) → (O → Y) → ℕ → I
  pub list : Clientset machinery → String → O → X
  pub watch : Clientset machinery → String → O → Y
  -- an informer: GetIndexer(), HasSynced in WaitForCacheSync, AddEventHandler of functions for
  -- added, updated and deleted objects, and go Run(stopCh)
  pub get_indexer : I → Indexer W
  pub wait_for : I → M W Bool
  pub add_event_handler : I → EventHandlers W → M W (Unit {0})
  pub go_run : I → M W (Unit {0})
  -- where the controller is allocated
  pub memory : Memory W
  -- the informers of k8s.io/client-go/informers
  pub start_kube_informers : K → M W (Unit {0})
  -- the calls of the two clients; what the listers read is not among them
  pub cluster_of : K → Clientset machinery → Cluster W

abbrev config_failed : Error → String
config_failed e = "Error building kubeconfig: " <> text e

abbrev kube_failed : Error → String
kube_failed e = "Error building kubernetes clientset: " <> text e

abbrev egress_failed : Error → String
egress_failed e = "Error building egressip clientset: " <> text e

abbrev pub run_failed : Error → String
run_failed e = "Error running controller: " <> text e

module _ {R Q S A K I O X Y W : Type 0} (h : Host W) (p : Parts R Q S A K I O X Y W) where
  open p use {
    machinery, build_config, kube_for_config, new_shared_index_informer, get_indexer, wait_for,
    add_event_handler, go_run, memory, start_kube_informers, cluster_of,
  }

  -- The handler of signals, which is set up once, and the clients.
  unfoldable pub connect : M W (K × Clientset machinery)
  connect = do
    _ ← (λ w. ((setup_signal_handler false).0, w))
    cfg ← or_fatal config_failed build_config
    kube ← or_fatal kube_failed (kube_for_config cfg)
    client ← or_fatal egress_failed (new_for_config machinery cfg)
    pure (kube, client)

  abbrev Factory : Type 0
  Factory = SharedInformerFactory I (O → O)

  -- Staticegressips().V1alpha1().StaticEgressIPs(), and its Lister() and Informer(), with the place
  -- of the informer that the request makes if it makes one.
  abbrev lister_of : ℕ → Clientset machinery → Factory → Indexer W × Factory
  lister_of n client f =
      egress_ip_lister (new_shared_index_informer n) (p.list client) (p.watch client) get_indexer f

  abbrev informer_of : ℕ → Clientset machinery → Factory → I × Factory
  informer_of n client f =
      egress_ip_informer (new_shared_index_informer n) (p.list client) (p.watch client) f

  -- Start of a factory: each informer that it launches runs in a goroutine.
  unfoldable pub launch_all : Factory → M W (Unit {0})
  launch_all f = for_each (λ entry. go_run entry.1) (start f).1

  unfoldable pub manager_main : Elector W → M W (Unit {0})
  manager_main el = do
    (kube, client) ← connect
    let (store, f) = lister_of 0 client (new_shared_informer_factory 30) in
        launch_all f
        >> or_fatal run_failed (manager_run h (with_lister store (cluster_of kube client)) el)

  -- The cluster of a controller: the store that its lister reads, and the informer it waits for.
  abbrev pub cluster_with : Indexer W → I → K × Clientset machinery → Cluster W
  cluster_with store synced (kube, client) = record (with_lister store (cluster_of kube client)) {
    wait_for_cache_sync = wait_for synced;
  }

  -- The handlers of NewEgressIPController, methods of the controller behind a pointer: they read
  -- it when they are called.
  abbrev pub handlers_of : Cluster W → memory.Ptr → EventHandlers W
  handlers_of k c = record {
    add_func = add_static_egress_ip h k;
    update_func = λ old new. memory.load c >>= λ v. update_static_egress_ip h k v old new;
    delete_func = λ obj. memory.load c >>= λ v. delete_static_egress_ip h k v obj;
  }

  -- The handlers and Run are given the same pointer; the handlers are added, and the informers
  -- launched, before Run sets the fields of what it points to.
  unfoldable pub controller_main : M W (Unit {0})
  controller_main = do
    (kube, client) ← connect
    new ← new_egress_ip_controller h (cluster_of kube client)
    controller ← memory.allocate new
    let (store, f1) = lister_of 0 client (new_shared_informer_factory 30) in
        let (synced, f2) = informer_of 1 client f1 in
        let (handled, f3) = informer_of 2 client f2 in
        let k = cluster_with store synced (kube, client) in
        add_event_handler handled (handlers_of k controller)
        >> start_kube_informers kube
        >> launch_all f3
        >> or_fatal run_failed (run h k memory 2 controller)
