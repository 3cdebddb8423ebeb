-- ===== src/Informers.antt =====
-- pkg/client/informers/externalversions: the factory of shared informers (factory.go), and the
-- informers that it is asked for (egressip/v1alpha1/staticegressip.go, generic.go). A type of
-- objects is its name; a map is an association list, whose first entry for a key counts, and a
-- loop over a map goes through the list; a goroutine that runs an informer is an entry in a list of
-- those that were launched. The locks of the factory make each call one step.
pub mod Launches
pub mod Once
pub mod Egress
pub mod Waits
pub mod Listing
use kube_static_egress_ip.Prelude.{
  ℕ, String, Bool, true, false, not, Option, none, some, List, [], ◌∷◌, ◌++◌, ◌==◌, if◌then◌else◌,
}
use kube_static_egress_ip.Effect.{Outcome, ok, err, plain}
use kube_static_egress_ip.Prelude.Text.{◌<>◌}

-- A map of Go.
abbrev pub GoMap : Type 0 → Type 0
GoMap A = List (String × A)

module _ {A : Type 0} where
  unfoldable pub find : String → GoMap A → Option A
  find k [] = none
  find k ((k', a) ∷ l) = let rest = find k l in if k' == k then some a else rest

  -- m[k] = a
  abbrev pub put : String → A → GoMap A → GoMap A
  put k a l = (k, a) ∷ l

-- m[k] of a map to bool: a missing key is false.
unfoldable pub holds : String → GoMap Bool → Bool
holds k l = elim (find k l) [ some b ↦ b | none ↦ false ]

-- Informers are made by newFunc, of type I, and lists are filtered by functions of type T.
module _ (I T : Type 0) where
  pub record SharedInformerFactory : Type 0 where
    pub namespace : String
    pub tweak_list_options : Option T
    pub default_resync : ℕ
    pub custom_resync : GoMap ℕ
    pub informers : GoMap I
    pub started_informers : GoMap Bool

module _ {I : Type 0} where
  -- The loop of Start: an informer that is not started is launched, and marked.
  unfoldable pub start_each : GoMap I → GoMap Bool → GoMap Bool × GoMap I
  start_each [] started = (started, [])
  start_each ((k, i) ∷ l) started =
      let (skipped, none_of_it) = start_each l started in
      let (marked, rest) = start_each l (put k true started) in
      if holds k started then (skipped, none_of_it) else (marked, (k, i) ∷ rest)

  -- The started informers among `informers`.
  unfoldable pub started_of : GoMap Bool → GoMap I → GoMap I
  started_of started [] = []
  started_of started ((k, i) ∷ l) =
      let rest = started_of started l in if holds k started then (k, i) ∷ rest else rest

  unfoldable pub sync_each : (I → Bool) → GoMap I → GoMap Bool
  sync_each synced [] = []
  sync_each synced ((k, i) ∷ l) = (k, synced i) ∷ sync_each synced l

module _ {I T : Type 0} where
  unfoldable pub with_custom_resync_config :
      GoMap ℕ → SharedInformerFactory I T → SharedInformerFactory I T
  with_custom_resync_config [] factory = factory
  with_custom_resync_config ((k, v) ∷ l) factory =
      with_custom_resync_config l (record factory { custom_resync = put k v factory.custom_resync })

  abbrev pub with_tweak_list_options : T → SharedInformerFactory I T → SharedInformerFactory I T
  with_tweak_list_options tweak factory = record factory { tweak_list_options = some tweak }

  abbrev pub with_namespace : String → SharedInformerFactory I T → SharedInformerFactory I T
  with_namespace namespace factory = record factory { namespace = namespace }

  apply_options :
      List (SharedInformerFactory I T → SharedInformerFactory I T)
      → SharedInformerFactory I T
      → SharedInformerFactory I T
  apply_options [] factory = factory
  apply_options (opt ∷ options) factory = apply_options options (opt factory)

  unfoldable pub new_shared_informer_factory_with_options :
      ℕ → List (SharedInformerFactory I T → SharedInformerFactory I T) → SharedInformerFactory I T
  unfolding apply_options
  new_shared_informer_factory_with_options default_resync options = apply_options options (record {
    namespace = "";
    tweak_list_options = none;
    default_resync = default_resync;
    custom_resync = [];
    informers = [];
    started_informers = [];
  })

  unfoldable pub new_shared_informer_factory : ℕ → SharedInformerFactory I T
  unfolding new_shared_informer_factory_with_options
  new_shared_informer_factory default_resync =
      new_shared_informer_factory_with_options default_resync []

  unfoldable pub new_filtered_shared_informer_factory : ℕ → String → T → SharedInformerFactory I T
  unfolding new_shared_informer_factory_with_options
  new_filtered_shared_informer_factory default_resync namespace tweak =
      new_shared_informer_factory_with_options default_resync
        (with_namespace namespace ∷ with_tweak_list_options tweak ∷ [])

  -- The factory after Start, and the informers that it launches.
  unfoldable pub start : SharedInformerFactory I T → SharedInformerFactory I T × GoMap I
  unfolding start_each
  start f =
      let (started, launched) = start_each f.informers f.started_informers in
      (record f { started_informers = started }, launched)

  -- `synced i` is what cache.WaitForCacheSync answers about an informer.
  unfoldable pub wait_for_cache_sync : (I → Bool) → SharedInformerFactory I T → GoMap Bool
  unfolding started_of sync_each
  wait_for_cache_sync synced f = sync_each synced (started_of f.started_informers f.informers)

  unfoldable pub resync_of : String → SharedInformerFactory I T → ℕ
  resync_of k f = elim (find k f.custom_resync) [ some r ↦ r | none ↦ f.default_resync ]

  -- InformerFor, with newFunc as a function of the period alone: its client is the factory's.
  unfoldable pub informer_for :
      String → (ℕ → I) → SharedInformerFactory I T → I × SharedInformerFactory I T
  unfolding resync_of
  informer_for k new_func f = elim (find k f.informers) [
    | some informer ↦ (informer, f)
    | none ↦
        let informer = new_func (resync_of k f) in
        (informer, record f { informers = put k informer f.informers })
  ]

-- Requests of informers and starts, in the order in which the factory's lock is taken.
pub data Call (I : Type 0) : Type 0 where
  request : String → (ℕ → I) → Call I
  start_all : Call I

module _ {I T : Type 0} where
  -- The factory after some calls, and the informers that they launched.
  unfoldable pub run :
      List (Call I) → SharedInformerFactory I T → SharedInformerFactory I T × GoMap I
  run [] f = (f, [])
  run (request k new_func ∷ l) f = run l (informer_for k new_func f).1
  run (start_all ∷ l) f =
      let (f', now) = start f in let (f'', later) = run l f' in (f'', now ++ later)
