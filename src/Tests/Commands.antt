-- ===== src/Tests/Commands.antt =====
-- The programs of cmd/ over clients that are their configs and informers that are a place, a
-- namespace and a period.
use kube_static_egress_ip.Prelude.{◌≡◌, ℕ, String, true, none, List, []}
use kube_static_egress_ip.Controller.{Controller}
use kube_static_egress_ip.Controller.Memory.{Memory}
use kube_static_egress_ip.Prelude.Text.{◌<>◌}
use kube_static_egress_ip.Effect.{pure, ◌>>=◌}
use kube_static_egress_ip.Listers.{Indexer}
use kube_static_egress_ip.Commands.{Parts, connect, controller_main}
use kube_static_egress_ip.Commands.Wiring.{controller_with, controller_main_lem}
use kube_static_egress_ip.Tests.Inert.{inert, empty_cluster}
use kube_static_egress_ip.Tests.Clientsets.{Limiter, machinery, twenty}

abbrev empty_store : Indexer (List Limiter)
empty_store = record {
  Selector = Unit {0};
  everything = tt;
  get_by_key = λ key. pure none;
  list_all = λ s. pure ([], none);
  list_all_by_namespace = λ n s. pure ([], none);
  not_found_text = λ r name. name <> " not found";
}

-- A controller that is never filled.
abbrev no_memory : Memory (List Limiter)
no_memory = record {
  Ptr = Controller;
  allocate = λ c. pure c;
  load = λ p. pure p;
  store = λ p c. pure tt;
}

abbrev parts :
    Parts Limiter ℕ String (Unit {0}) (Unit {0}) (ℕ × String × ℕ) ℕ String String (List Limiter)
parts = record {
  machinery = machinery;
  build_config = pure twenty;
  kube_for_config = λ config. pure tt;
  new_shared_index_informer = λ place list watch period. (place, list 0, period);
  list = λ client namespace options. namespace;
  watch = λ client namespace options. namespace;
  get_indexer = λ i. empty_store;
  wait_for = λ i. pure true;
  add_event_handler = λ i c. pure tt;
  go_run = λ i. pure tt;
  memory = no_memory;
  start_kube_informers = λ kube. pure tt;
  cluster_of = λ kube client. empty_cluster;
}

controller_main_lem_example :
    controller_main inert parts ≡ (connect inert parts >>= controller_with inert parts)
controller_main_lem_example = controller_main_lem inert parts
