-- ===== src/Informers/Waits.antt =====
-- Which informers WaitForCacheSync of a factory waits for.
use kube_static_egress_ip.Prelude.{
  Option-cases, ◌≡◌, refl, ℕ, String, Bool, Option, none, some, List, [], ◌∷◌, ◌++◌, if◌then◌else◌,
  arith, eq_iff,
}
use kube_static_egress_ip.Informers.{
  GoMap, find, holds, new_shared_informer_factory, start, started_of, sync_each,
  wait_for_cache_sync, Call, start_all, run,
}
use kube_static_egress_ip.Informers.Launches.{start_each-holds}
use kube_static_egress_ip.Informers.Once.{run-append_start}

abbrev pub answer : {I : Type 0} → (I → Bool) → Option I → Option Bool
answer synced none = none
answer synced (some i) = some (synced i)

module _ {I : Type 0} (synced : I → Bool) where
  find-sync_each :
      (k : String) (l : GoMap I) → find k (sync_each synced l) ≡ answer synced (find k l)
  unfolding find sync_each
  find-sync_each k [] = refl
  find-sync_each k ((k', i) ∷ l) = ground (arith, find-sync_each k l)

  find-started_of :
      (k : String) (started : GoMap Bool) (l : GoMap I)
      → find k (started_of started l) ≡ (if holds k started then find k l else none)
  unfolding find started_of
  find-started_of k started [] = ground arith
  find-started_of k started ((k', i) ∷ l) = ground (arith, eq_iff k' k, find-started_of k started l)

-- WaitForCacheSync after a Start that follows any calls of a new factory answers for each type of
-- objects for which the factory has an informer, with what is known of that informer's store, and
-- for no other type.
waits_for_all :
    {I : Type 0} (T : Type 0) (synced : I → Bool) (r : ℕ) (l : List (Call I)) (k : String)
    → find k (
        wait_for_cache_sync synced
          (run (l ++ start_all ∷ []) (new_shared_informer_factory {I = I} {T = T} r)).0)
      ≡ answer synced (find k (run l (new_shared_informer_factory {I = I} {T = T} r)).0.informers)
unfolding wait_for_cache_sync start
waits_for_all T synced r l k =
    let f = new_shared_informer_factory {T = T} r in
    let g = (run l f).0 in
    ground (
      arith,
      run-append_start l f,
      find-sync_each synced k (started_of (start g).0.started_informers g.informers),
      find-started_of synced k (start g).0.started_informers g.informers,
      start_each-holds g.informers g.started_informers k,
      Option-cases (find k g.informers),
    )
