-- ===== src/Informers/Listing.antt =====
-- The store that a lister of a factory reads, and whether its informer runs.
use mathlib.Core.List.{append_assoc}
use kube_static_egress_ip.Prelude.{
  ◌≡◌, refl, sym, ap, ◌∙◌, ℕ, String, some, List, [], ◌∷◌, ◌++◌, arith,
}
use kube_static_egress_ip.Informers.{
  find, SharedInformerFactory, new_shared_informer_factory, start, informer_for, Call, request,
  start_all, run,
}
use kube_static_egress_ip.Informers.Once.{run-find, informer_for-kept, launched_once}
use kube_static_egress_ip.Informers.Egress.{
  egress_ip_type, new_filtered_static_egress_ip_informer, egress_ip_informer, egress_ip_lister,
}

module _ {I T : Type 0} where
  run-append :
      (l m : List (Call I)) (f : SharedInformerFactory I T)
      → run (l ++ m) f ≡ ((run m (run l f).0).0, (run l f).1 ++ (run m (run l f).0).1)
  unfolding run
  run-append [] m f = refl
  run-append (request k new_func ∷ l) m f = run-append l m (informer_for k new_func f).1
  run-append (start_all ∷ l) m f = ground (
    arith,
    run-append l m (start f).0,
    append_assoc (start f).1 (run l (start f).0).1 (run m (run l (start f).0).0).1,
  )

module _ {I : Type 0} (T : Type 0) where
  -- An informer that is requested has been launched after the next start.
  requested_is_launched :
      (r : ℕ) (l m : List (Call I)) (k : String) (new_func : ℕ → I)
      → let f = new_shared_informer_factory {I = I} {T = T} r in
        let (i, f') = informer_for k new_func (run l f).0 in
        find k ((run l f).1 ++ (run (m ++ start_all ∷ []) f').1) ≡ some i
  unfolding run
  requested_is_launched r l m k new_func =
      let f = new_shared_informer_factory {I = I} {T = T} r in
      let (i, f') = informer_for k new_func (run l f).0 in
      let before = l ++ request k new_func ∷ m in
      ap (λ p. find k p.1) (sym (run-append l (request k new_func ∷ m ++ start_all ∷ []) f))
      ∙ ap (λ c. find k (run c f).1)
          (sym (append_assoc l (request k new_func ∷ m) (start_all ∷ [])))
      ∙ (launched_once T r before k).1
      ∙ ap (λ p. find k p.0.informers) (run-append l (request k new_func ∷ m) f)
      ∙ run-find m f' k i (informer_for-kept k new_func (run l f).0)

module _ {I O X Y S : Type 0} (new_shared_index_informer : (O → X) → (O → Y) → ℕ → I)
    (list : String → O → X) (watch : String → O → Y) (get_indexer : I → S) where
  -- The lister that a new factory gives for the custom resource, whatever the factory was called
  -- for before, reads the store of an informer that has been launched once the factory is started
  -- again, whatever it is called for in between.
  pub lister_launched :
      (r : ℕ) (l m : List (Call I))
      → let f = new_shared_informer_factory {I = I} {T = O → O} r in
        let (store, f') =
          egress_ip_lister new_shared_index_informer list watch get_indexer (run l f).0 in
        (i : I) × (get_indexer i ≡ store)
        × (find egress_ip_type ((run l f).1 ++ (run (m ++ start_all ∷ []) f').1) ≡ some i)
  unfolding egress_ip_lister egress_ip_informer
  lister_launched r l m =
      let g = (run l (new_shared_informer_factory {I = I} {T = O → O} r)).0 in
      let new_func : ℕ → I = λ resync_period.
        new_filtered_static_egress_ip_informer new_shared_index_informer list watch g.namespace
          resync_period g.tweak_list_options in
      (
        (informer_for egress_ip_type new_func g).0,
        refl,
        requested_is_launched (O → O) r l m egress_ip_type new_func,
      )
