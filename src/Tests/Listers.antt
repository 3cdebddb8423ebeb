-- ===== src/Tests/Listers.antt =====
-- The lister over a store of one resource.
use text.Mathlib.TextLemmas.{nil-append, cons-append}
use kube_static_egress_ip.Prelude.{
  ◌≡◌, refl, String, false, Option, none, some, [], ◌∷◌, ◌==◌, eq_iff, arith, if◌then◌else◌,
}
use kube_static_egress_ip.Prelude.Text.{◌<>◌, one_char}
use kube_static_egress_ip.Effect.{pure}
use kube_static_egress_ip.Host.Simulated.{World, simulated}
use kube_static_egress_ip.Cluster.{Cluster}
use kube_static_egress_ip.Controller.{sync_handler}
use kube_static_egress_ip.Controller.Handlers.{enqueue_static_egress_ip}
use kube_static_egress_ip.Listers.{Object, egress_ip, Indexer, with_lister}
use kube_static_egress_ip.Listers.Queued.{
  meta_key, has_slash, KeyLaws, StoreLaws, sync_of, sync-enqueue,
}
use kube_static_egress_ip.Tests.Inert.{empty_cluster}
use kube_static_egress_ip.Tests.Directed.{fresh, served, on_director}

-- The parts of a text before and after its first slash.
abbrev pub split_first : String → Option (String × String)
split_first String.[] = none
split_first (String.◌∷◌ c s) =
    let rest = split_first s in
    if one_char c == "/"
    then some ("", s)
    else elim rest [ none ↦ none | some (a, b) ↦ some (String.◌∷◌ c a, b) ]

slash-append : (s : String) → split_first ("/" <> s) ≡ some ("", s)
unfolding one_char
slash-append s = rw (cons-append "/" "" s, nil-append s) refl

pub split_first-key :
    (namespace name : String)
    → has_slash namespace ≡ false
    → split_first (namespace <> "/" <> name) ≡ some (namespace, name)
unfolding has_slash one_char
split_first-key String.[] name plain = rw (nil-append ("/" <> name)) (slash-append name)
split_first-key (String.◌∷◌ c s) name plain =
    rw (cons-append c s ("/" <> name), split_first-key s name (ground arith)) (ground arith)

-- The store of one resource, under its key.
abbrev pub one_stored : String → Option Object
one_stored key = if key == meta_key served then some (egress_ip served) else none

abbrev pub store : Indexer World
store = record {
  Selector = Unit {0};
  everything = tt;
  get_by_key = λ key. pure (one_stored key);
  list_all = λ s. pure (egress_ip served ∷ [], none);
  list_all_by_namespace = λ n s. pure (egress_ip served ∷ [], none);
  not_found_text = λ r name. name <> " not found";
}

abbrev keyed : Cluster World
keyed = record empty_cluster { split_key = split_first; key_of = λ e. some (meta_key e) }

keyed_laws : KeyLaws keyed
keyed_laws = record {
  key_of_lem = λ e. refl;
  split_key_lem = λ namespace name plain _. split_first-key namespace name plain;
}

abbrev pub store_laws : StoreLaws store
store_laws = record { stored = λ w. one_stored; get_by_key_lem = λ key w. refl }

sync-enqueue_example :
    (enqueue_static_egress_ip simulated (with_lister store keyed) served
      ≡ keyed.queue_add_rate_limited (meta_key served))
    × (sync_handler simulated (with_lister store keyed) on_director (meta_key served) fresh
        ≡ sync_of simulated keyed store on_director
            (meta_key served)
            (one_stored (meta_key served))
            fresh)
unfolding has_slash one_char
sync-enqueue_example =
    sync-enqueue simulated keyed keyed_laws store store_laws on_director served fresh
      (ground (arith, eq_iff "default" "")) (ground arith) (ground arith)
