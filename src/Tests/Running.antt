-- ===== src/Tests/Running.antt =====
-- A run of the controller's Run on a host on which no call fails: three workers.
use kube_static_egress_ip.Prelude.{true, ◌≡◌, refl, none, some, ◌∷◌, [], ◌++◌, List}
use kube_static_egress_ip.Prelude.Text.{contains}
use kube_static_egress_ip.Effect.{ok, pure, ◌>>=◌, logged, or_fatal, on_error}
use kube_static_egress_ip.Chains.{ensure_first, ensure_last, or_exists}
use kube_static_egress_ip.Director
use kube_static_egress_ip.Director.{new_egress_director}
use kube_static_egress_ip.Gateway
use kube_static_egress_ip.Gateway.{new_egress_gateway, create_chain_if_not_exist}
use kube_static_egress_ip.Utils.{get_node_object, get_node_ip, ip_text}
use kube_static_egress_ip.Effect.Edits.{After}
use kube_static_egress_ip.Effect.Keeps.{Keeps-pure}
use kube_static_egress_ip.Api.{Node}
use kube_static_egress_ip.Cluster.{Cluster}
use kube_static_egress_ip.Controller.Queue.{start}
use kube_static_egress_ip.Effect.Deferred.{with_deferred}
use kube_static_egress_ip.Controller.Run.{launch, run}
use kube_static_egress_ip.Controller.Run.Keeping.{StartKeeps}
use kube_static_egress_ip.Controller.Run.Filling.{FieldLaws, fields_of}
use kube_static_egress_ip.Controller.Run.Workers.{
  Event, worker, stopped, shut_down, RunLaws, ran, ending, run_launches_and_closes,
}
use kube_static_egress_ip.Tests.Inert.{inert, empty_cluster, inert_calls}
use kube_static_egress_ip.Controller.{Controller}
use kube_static_egress_ip.Controller.Memory.{Memory, set_traffic_gateway, set_traffic_director}

abbrev this_node : Node
this_node = record {
  name = "worker-2";
  uid = "uid-2";
  labels = [];
  conditions = [];
  addresses = record { address_type = "InternalIP"; address = "192.168.1.202" } ∷ [];
}

-- The world: the events, and the controller.
abbrev RunState : Type 0
RunState = List Event × Controller

abbrev new_controller : Controller
new_controller = record {
  traffic_director = none;
  traffic_gateway = none;
  node_ip = "192.168.1.202";
}

abbrev one_controller : Memory RunState
one_controller = record {
  Ptr = Unit {0};
  allocate = λ c w. (ok tt, (w.0, c));
  load = λ p w. (ok w.1, w);
  store = λ p c w. (ok tt, (w.0, c));
}

-- A cluster that logs the workers, the wait and the shutdown.
abbrev logging : Cluster RunState
logging = record empty_cluster {
  get_node = λ name. pure this_node;
  go_worker = λ w. (ok tt, (w.0 ++ worker ∷ [], w.1));
  wait_for_stop = λ w. (ok tt, (w.0 ++ stopped ∷ [], w.1));
  queue_shut_down = λ w. (ok tt, (w.0 ++ shut_down ∷ [], w.1));
}

-- The calls of the start on an inert host write nothing.
start_keeps : {V : Type 0} (view : RunState → V) → StartKeeps inert logging view
start_keeps view = record {
  calls =
      inert_calls logging view (λ name. Keeps-pure this_node)
        (λ namespace name. record { at = λ w. refl }) (λ namespace name. record { at = λ w. refl });
  iptables_new-keeps = Keeps-pure tt;
  new_chain-keeps = λ t c. Keeps-pure tt;
  read_file-keeps = λ path. Keeps-pure "";
  write_file-keeps = λ path content. Keeps-pure tt;
  open_append-keeps = λ path. Keeps-pure path;
  write_string-keeps = λ f line. Keeps-pure tt;
  wait_for_cache_sync-keeps = record { at = λ w. refl };
}

abbrev logging_laws : RunLaws inert logging one_controller
logging_laws = record {
  events = λ w. w.0;
  start-keeps = start_keeps (λ w. w.0);
  memory-keeps = record {
    load-keeps = λ p. record { at = λ w. refl };
    store-keeps = λ p c. record { at = λ w. refl };
  };
  go_worker-Appends = record { returns = λ w. refl; appends = λ w. refl };
  shut_down-Appends = record { returns = λ w. refl; appends = λ w. refl };
  wait-Appends = record { returns = λ w. refl; appends = λ w. refl };
}

abbrev field_laws : FieldLaws inert logging one_controller tt
field_laws = record {
  fields = λ w. fields_of w.1;
  others-keep = start_keeps (λ w. fields_of w.1);
  load-keeps = record { at = λ w. refl };
  load_reads = λ w. refl;
  store_writes = λ x c. record { at = λ w e. refl };
}

abbrev first_state : RunState
first_state = ([], new_controller)

run_launches_and_closes_example :
    let r = run inert logging one_controller 3 tt first_state in
    let started = (start inert logging one_controller tt first_state).0 in
    (r.0 ≡ ending started)
    × (r.1.0 ≡ ran 3 started)
    × After
        (λ w. fields_of w.1)
        (λ _. Unit)
        (true, true)
        (start inert logging one_controller tt first_state)
run_launches_and_closes_example =
    run_launches_and_closes inert logging one_controller logging_laws 3 tt field_laws first_state

three_workers : run inert logging one_controller 3 tt first_state ≡ (
  ok tt,
  (
    worker ∷ worker ∷ worker ∷ stopped ∷ shut_down ∷ [],
    record new_controller {
      traffic_director = some (record { node_ip = "192.168.1.202" });
      traffic_gateway = some tt;
    },
  ),
)
unfolding run launch start with_deferred ◌>>=◌ logged or_fatal new_egress_gateway on_error
    Gateway.setup create_chain_if_not_exist ensure_last or_exists ensure_first new_egress_director
    get_node_object get_node_ip Director.setup contains set_traffic_gateway set_traffic_director
    ip_text
three_workers = refl
