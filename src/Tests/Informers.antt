-- ===== src/Tests/Informers.antt =====
-- The factory of informers, where an informer is the name of its type and its period.
use kube_static_egress_ip.Prelude.{◌≡◌, ℕ, ◌≤◌, String, some, List, [], ◌∷◌, ◌++◌}
use kube_static_egress_ip.Informers.{
  find, holds, new_shared_informer_factory, new_shared_informer_factory_with_options, start,
  start_each, informer_for, resync_of, Call, request, start_all, run,
}
use kube_static_egress_ip.Informers.Launches.{times}
use kube_static_egress_ip.Informers.Once.{launched_once}
use kube_static_egress_ip.Informers.Egress.{
  egress_ip_type, new_filtered_static_egress_ip_informer, egress_ip_informer, egress_ip_lister,
}
use kube_static_egress_ip.Informers.Listing.{lister_launched}

abbrev Informer : Type 0
Informer = String × ℕ

-- Two requests of one type, and two starts around a request of another.
abbrev calls : List (Call Informer)
calls =
    request "Endpoints" (λ r. ("first", r))
    ∷ request "Endpoints" (λ r. ("second", r))
    ∷ start_all
    ∷ request "Nodes" (λ r. ("nodes", r))
    ∷ start_all
    ∷ []

launched_once_example :
    (times "Endpoints" (run calls (new_shared_informer_factory {I = Informer} {T = Unit} 30)).1 ≤ 1)
    × (find "Endpoints"
          (run
            (calls ++ start_all ∷ [])
            (new_shared_informer_factory {I = Informer} {T = Unit} 30)).1
        ≡ some ("first", 30))
unfolding run informer_for start start_each find holds resync_of new_shared_informer_factory
    new_shared_informer_factory_with_options
launched_once_example = launched_once Unit 30 calls "Endpoints"

abbrev made : (ℕ → String) → (ℕ → String) → ℕ → Informer
made list watch r = (list 0, r)

abbrev listing : String → ℕ → String
listing namespace options = namespace

lister_launched_example :
    (i : Informer) × (i ≡ ("", 30))
    × (find egress_ip_type (
          (run calls (new_shared_informer_factory {I = Informer} {T = ℕ → ℕ} 30)).1
          ++ (run
              (start_all ∷ [])
              (egress_ip_lister made listing listing
                (λ (i : Informer). i)
                (run calls (new_shared_informer_factory {I = Informer} {T = ℕ → ℕ} 30)).0).1).1)
        ≡ some i)
unfolding run informer_for start start_each find holds resync_of new_shared_informer_factory
    new_shared_informer_factory_with_options egress_ip_lister egress_ip_informer
    new_filtered_static_egress_ip_informer
lister_launched_example = lister_launched made listing listing (λ (i : Informer). i) 30 calls []
