-- ===== src/Commands/Wiring.antt =====
-- What the two programs of cmd/ come to once their factories of informers are done: programs with
-- one informer.
use kube_static_egress_ip.Prelude.{◌≡◌, refl, ap, fun_ext, none}
use kube_static_egress_ip.Effect.{
  Outcome, ok, err, panicked, exited, M, pure, ◌>>=◌, ◌>>◌, or_fatal, for_each,
}
use kube_static_egress_ip.Host.{Host}
use kube_static_egress_ip.Client.Sets.{Clientset}
use kube_static_egress_ip.Listers.{with_lister}
use kube_static_egress_ip.Informers.{
  find, holds, new_shared_informer_factory, new_shared_informer_factory_with_options, start,
  start_each, informer_for, resync_of,
}
use kube_static_egress_ip.Informers.Egress.{
  egress_ip_informer, egress_ip_lister, new_filtered_static_egress_ip_informer,
}
use kube_static_egress_ip.Manager.Election.{Elector, manager_run}
use kube_static_egress_ip.Controller.Queue.{new_egress_ip_controller}
use kube_static_egress_ip.Controller.Run.{run}
use kube_static_egress_ip.Commands.{
  Parts, run_failed, connect, launch_all, manager_main, cluster_with, handlers_of, controller_main,
}

module _ {W : Type 0} where
  bind-pure : (m : M W (Unit {0})) → (m >>= λ _. pure tt) ≡ m
  unfolding ◌>>=◌
  bind-pure m = fun_ext λ w. go (m w).0 (m w).1
    where
      go : (o : Outcome (Unit {0})) (v : W) → ((λ _. (o, v)) >>= λ _. pure tt) v ≡ (o, v)
      go (ok a) v = refl
      go (err e) v = refl
      go (panicked x) v = refl
      go (exited x) v = refl

module _ {R Q S A K I O X Y W : Type 0} (h : Host W) (p : Parts R Q S A K I O X Y W) where
  open p use {
    machinery, get_indexer, add_event_handler, go_run, memory, start_kube_informers, cluster_of,
  }

  -- The informer that the first request makes: of the resources of all namespaces, with a period of
  -- 30 seconds and no filter.
  abbrev pub only_informer : Clientset machinery → I
  only_informer client =
      new_filtered_static_egress_ip_informer (p.new_shared_index_informer 0) (p.list client)
        (p.watch client) "" 30 none

  -- The manager with that informer.
  unfoldable pub manager_with : Elector W → K × Clientset machinery → M W (Unit {0})
  manager_with el (kube, client) =
      let i = only_informer client in
      go_run i
      >> or_fatal run_failed
          (manager_run h (with_lister (get_indexer i) (cluster_of kube client)) el)

  -- Whatever the clients, the manager's program connects, and then runs one informer, of all
  -- namespaces with a period of 30 seconds, whose store is the one that the manager lists; it ends
  -- the process where the manager returns an error.
  pub manager_main_lem : (el : Elector W) → manager_main h p el ≡ (connect h p >>= manager_with el)
  unfolding manager_main manager_with launch_all for_each egress_ip_lister egress_ip_informer
      informer_for find holds resync_of new_shared_informer_factory
      new_shared_informer_factory_with_options start start_each
  manager_main_lem el =
      ap (λ f. connect h p >>= f)
        (fun_ext λ c.
          let i = only_informer c.1 in
          ap
            (λ m.
              m
              >> or_fatal run_failed
                  (manager_run h (with_lister (get_indexer i) (cluster_of c.0 c.1)) el))
            (bind-pure (go_run i)))

  -- The controller with that informer.
  unfoldable pub controller_with : K × Clientset machinery → M W (Unit {0})
  controller_with (kube, client) = do
    new ← new_egress_ip_controller h (cluster_of kube client)
    controller ← memory.allocate new
    let i = only_informer client in
        let k = cluster_with h p (get_indexer i) i (kube, client) in
        add_event_handler i (handlers_of h p k controller)
        >> start_kube_informers kube
        >> go_run i
        >> or_fatal run_failed (run h k memory 2 controller)

  -- Whatever the clients, the controller's program connects, and then there is one informer, the
  -- one that the first of three requests makes, though each request would make one of its own: of
  -- all namespaces, with a period of 30 seconds, it is the one that the handlers listen to, that is
  -- launched, after the informers of the core API, whose store the controller's lister reads, and
  -- that Run waits for with two workers. There is one controller: the handlers read it when they
  -- are called, through the pointer that Run sets its fields through. The program ends the process
  -- where Run returns an error.
  pub controller_main_lem : controller_main h p ≡ (connect h p >>= controller_with)
  unfolding controller_main controller_with launch_all for_each egress_ip_lister egress_ip_informer
      informer_for find holds resync_of new_shared_informer_factory
      new_shared_informer_factory_with_options start start_each
  controller_main_lem =
      ap (λ f. connect h p >>= f)
        (fun_ext λ c.
          let i = only_informer c.1 in
          let k = cluster_with h p (get_indexer i) i c in
          ap (λ f. new_egress_ip_controller h (cluster_of c.0 c.1) >>= f)
            (fun_ext λ new.
              ap (λ f. memory.allocate new >>= f)
                (fun_ext λ controller.
                  ap
                    (λ m.
                      add_event_handler i (handlers_of h p k controller)
                      >> start_kube_informers c.0
                      >> m
                      >> or_fatal run_failed (run h k memory 2 controller))
                    (bind-pure (go_run i)))))
