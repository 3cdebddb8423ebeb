-- ===== src/Informers/Egress.antt =====
-- pkg/client/informers/externalversions/egressip/v1alpha1/staticegressip.go and generic.go: the
-- informer of the custom resource. The constructor of client-go's informers, the list and watch
-- requests of the client and the index of an informer are parameters; O are list options, whose
-- filter changes them.
use kube_static_egress_ip.Prelude.{ℕ, String, Bool, ◌&&◌, Option, none, some, ◌==◌, if◌then◌else◌}
use kube_static_egress_ip.Prelude.Text.{◌<>◌}
use kube_static_egress_ip.Effect.{Outcome, ok, err, plain}
use kube_static_egress_ip.Registration.{GroupVersionResource, scheme_group_version}
use kube_static_egress_ip.Informers.{SharedInformerFactory, informer_for}

-- reflect.TypeOf(&egressipv1alpha1.StaticEgressIP{})
abbrev pub egress_ip_type : String
egress_ip_type = "*v1alpha1.StaticEgressIP"

-- v1alpha1.SchemeGroupVersion.WithResource("staticegressips")
abbrev pub egress_ip_resource : GroupVersionResource
egress_ip_resource = record {
  group = scheme_group_version.group;
  version = scheme_group_version.version;
  resource = "staticegressips";
}

abbrev pub same_resource : GroupVersionResource → GroupVersionResource → Bool
same_resource a b = a.group == b.group && a.version == b.version && a.resource == b.resource

module _ {I O X Y : Type 0} (new_shared_index_informer : (O → X) → (O → Y) → ℕ → I)
    (list : String → O → X) (watch : String → O → Y) where
  -- if tweakListOptions != nil { tweakListOptions(&options) }
  abbrev pub tweaked : Option (O → O) → O → O
  tweaked none options = options
  tweaked (some tweak) options = tweak options

  unfoldable pub new_filtered_static_egress_ip_informer : String → ℕ → Option (O → O) → I
  new_filtered_static_egress_ip_informer namespace resync_period tweak =
      new_shared_index_informer (λ options. list namespace (tweaked tweak options))
        (λ options. watch namespace (tweaked tweak options)) resync_period

  unfoldable pub new_static_egress_ip_informer : String → ℕ → I
  unfolding new_filtered_static_egress_ip_informer
  new_static_egress_ip_informer namespace resync_period =
      new_filtered_static_egress_ip_informer namespace resync_period none

  -- Informer(), of the informer that Staticegressips().V1alpha1().StaticEgressIPs() makes with the
  -- namespace and the filter of the factory.
  unfoldable pub egress_ip_informer :
      SharedInformerFactory I (O → O) → I × SharedInformerFactory I (O → O)
  unfolding new_filtered_static_egress_ip_informer
  egress_ip_informer f =
      informer_for egress_ip_type
        (λ resync_period.
          new_filtered_static_egress_ip_informer f.namespace resync_period f.tweak_list_options)
        f

  -- Lister(): `get_indexer i` is the store of an informer.
  unfoldable pub egress_ip_lister {ℓ} :
      {S : Type ℓ} → (I → S) → SharedInformerFactory I (O → O) → S × SharedInformerFactory I (O → O)
  egress_ip_lister get_indexer f = let (i, f') = egress_ip_informer f in (get_indexer i, f')

  -- ForResource; `text_of` is the %v of a resource.
  unfoldable pub for_resource :
      (GroupVersionResource → String)
      → GroupVersionResource
      → SharedInformerFactory I (O → O)
      → Outcome I × SharedInformerFactory I (O → O)
  for_resource text_of resource f =
      let (i, f') = egress_ip_informer f in
      if same_resource resource egress_ip_resource
      then (ok i, f')
      else (err (plain ("no informer found for " <> text_of resource)), f)
