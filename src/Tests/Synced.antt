-- ===== src/Tests/Synced.antt =====
-- A round of a worker on a director node, on the simulated host.
use kube_static_egress_ip.Prelude.{◌≡◌, refl, String, true, some, ◌||◌, eq_iff, arith}
use kube_static_egress_ip.Effect.{ok, pure, attempt, ◌>>=◌}
use kube_static_egress_ip.Host.Simulated.{World, simulated, simulated_rules}
use kube_static_egress_ip.Cluster.{Cluster, key}
use kube_static_egress_ip.Utils.{get_node_object}
use kube_static_egress_ip.Director.Directed.{directed}
use kube_static_egress_ip.Controller.Queue.{process_next_work_item}
use kube_static_egress_ip.Listers.{egress_ip, with_lister}
use kube_static_egress_ip.Listers.Queued.{meta_key, has_slash, KeyLaws}
use kube_static_egress_ip.Listers.Served.{worker_directs}
use kube_static_egress_ip.Tests.Listers.{
  split_first, split_first-key, one_stored, store, store_laws,
}
use kube_static_egress_ip.Prelude.Text.{one_char}
use kube_static_egress_ip.Controller.Directing.{is_pair}
use kube_static_egress_ip.Tests.Directed.{
  director, fresh, served, listing, on_director, simulated-IsReliable,
}
use kube_static_egress_ip.Tests.Withdrawn.{this_node}

-- A cluster whose queue hands out the key of the resource, which the store holds.
abbrev serving : Cluster World
serving = record listing {
  get_node = λ name. pure this_node;
  queue_get = pure (some (key (meta_key served)));
  split_key = split_first;
  key_of = λ e. some (meta_key e);
}

abbrev serving_laws : KeyLaws serving
serving_laws = record {
  key_of_lem = λ e. refl;
  split_key_lem = λ namespace name plain _. split_first-key namespace name plain;
}

found : (w : World) → (get_node_object simulated (with_lister store serving) "" w).0 ≡ ok this_node
unfolding get_node_object attempt ◌>>=◌ with_lister
found w = refl

left : (w : World) → (get_node_object simulated (with_lister store serving) "" w).1.rules ≡ w.rules
unfolding get_node_object attempt ◌>>=◌ with_lister
left w = refl

stored_there : one_stored (meta_key served) ≡ some (egress_ip served)
stored_there = ground (arith, eq_iff (meta_key served) (meta_key served))

worker_directs_example :
    let r = process_next_work_item simulated (with_lister store serving) on_director fresh in
    (r.0 ≡ ok true)
    × ((s d : String)
        → directed r.1.rules s d ≡ (is_pair simulated served s d || directed fresh.rules s d))
unfolding with_lister has_slash one_char
worker_directs_example =
    worker_directs simulated simulated_rules serving serving_laws store store_laws
      (λ n s. record { at = λ w. refl }) simulated-IsReliable
      (record {
        get-keeps = record { at = λ w. refl };
        done-keeps = λ i. record { at = λ w. refl };
        forget-keeps = λ i. record { at = λ w. refl };
        done_ok = λ i w. refl;
        forget_ok = λ i w. refl;
      })
      on_director director served this_node fresh (ground (arith, eq_iff "default" ""))
      (ground arith) (ground arith) refl stored_there found (record { at = left }) refl
      (λ same. ground (arith, eq_iff "uid-1" "")) (λ same. ground (arith, eq_iff "uid-1" "uid-2"))
      (λ same. ground (arith, eq_iff "192.168.1.200" "")) (record { at = λ w. tt }, tt)
