-- ===== src/Client/Fake.antt =====
-- pkg/client/clientset/versioned/typed/egressip/v1alpha1/fake/fake_staticegressip.go: the client
-- that tests use in place of the typed client. An action is the call of a constructor of
-- k8s.io/client-go/testing; what the reactors answer is a parameter.
use kube_static_egress_ip.Prelude.{String, Bool, Option, none, some, List, [], ◌∷◌, if◌then◌else◌}
use kube_static_egress_ip.Effect.{Error, M, pure, panic, ◌>>=◌}
use kube_static_egress_ip.Api.{StaticEgressIp}
use kube_static_egress_ip.Registration.{GroupVersionResource}
use kube_static_egress_ip.Client.{ListOptions, EgressIpList, new_egress_ip, new_list}

abbrev pub staticegressips_resource : GroupVersionResource
staticegressips_resource = record {
  group = "staticegressips.nirmata.io";
  version = "v1alpha1";
  resource = "staticegressips";
}

-- schema.GroupVersionKind
pub record GroupVersionKind : Type 0 where
  pub group : String
  pub version : String
  pub kind : String

abbrev pub staticegressips_kind : GroupVersionKind
staticegressips_kind = record {
  group = "staticegressips.nirmata.io";
  version = "v1alpha1";
  kind = "StaticEgressIP";
}

-- What an action keeps of the options of a list or of a watch.
pub record Restrictions : Type 0 where
  pub label_selector : String
  pub field_selector : String

abbrev pub restrictions : ListOptions → Restrictions
restrictions opts = record {
  label_selector = opts.label_selector;
  field_selector = opts.field_selector;
}

pub data Action : Type 0 where
  get_action : GroupVersionResource → String → String → Action
  list_action : GroupVersionResource → GroupVersionKind → String → Restrictions → Action
  watch_action : GroupVersionResource → String → Restrictions → String → Action
  create_action : GroupVersionResource → String → StaticEgressIp → Action
  update_action : GroupVersionResource → String → StaticEgressIp → Action
  update_subresource_action : GroupVersionResource → String → String → StaticEgressIp → Action
  delete_action : GroupVersionResource → String → String → Action
  delete_collection_action : GroupVersionResource → String → Restrictions → Action
  patch_subresource_action :
      GroupVersionResource → String → String → String → String → List String → Action

-- A runtime.Object.
pub data Object : Type 0 where
  egress_ip : StaticEgressIp → Object
  egress_ip_list : EgressIpList → Object
  foreign : Object

-- testing.Fake, and the label selectors of k8s.io/apimachinery: `none` is a nil object or selector.
pub record Testing (W : Type 0) : Type 1 where
  pub Watcher : Type 0
  pub Selector : Type 0
  pub invokes : Action → Object → M W (Option Object × Option Error)
  pub invokes_watch : Action → M W (Watcher × Option Error)
  pub label_of : ListOptions → Option Selector
  pub everything : Selector
  pub matches : Selector → StaticEgressIp → Bool
  -- whether the selectors of the options parse; the constructors of actions panic where not
  pub parses : ListOptions → Bool

abbrev pub bad_object : String
bad_object = "interface conversion: runtime.Object is of another type"

-- if obj == nil { return nil, err }; return obj.(*v1alpha1.StaticEgressIP), err
abbrev pub as_egress_ip :
    {W : Type 0} → Option Object × Option Error → M W (Option StaticEgressIp × Option Error)
as_egress_ip (none, e) = pure (none, e)
as_egress_ip (some (egress_ip a), e) = pure (some a, e)
as_egress_ip (some (egress_ip_list l), e) = panic bad_object
as_egress_ip (some foreign, e) = panic bad_object

module _ {W : Type 0} (fake : Testing W) (ns : String) where
  open fake use {Watcher, Selector, invokes, invokes_watch, label_of, everything, matches}

  extracting : {A : Type 0} → ListOptions → M W A → M W A
  extracting opts m = if fake.parses opts then m else panic "invalid selector"

  invoke_one : Action → M W (Option StaticEgressIp × Option Error)
  invoke_one a = invokes a (egress_ip new_egress_ip) >>= as_egress_ip

  unfoldable pub fake_get : String → M W (Option StaticEgressIp × Option Error)
  unfolding invoke_one
  fake_get name = invoke_one (get_action staticegressips_resource ns name)

  -- The items that the selector matches, in their order.
  unfoldable pub matching : Selector → List StaticEgressIp → List StaticEgressIp
  matching label [] = []
  matching label (item ∷ l) =
      let rest = matching label l in if matches label item then item ∷ rest else rest

  abbrev pub label_or_everything : Option Selector → Selector
  label_or_everything none = everything
  label_or_everything (some label) = label

  abbrev pub filtered :
      ListOptions → Option Object × Option Error → M W (Option EgressIpList × Option Error)
  filtered opts (none, e) = pure (none, e)
  filtered opts (some (egress_ip a), e) = panic bad_object
  filtered opts (some (egress_ip_list l), e) =
      let label = label_or_everything (label_of opts) in
      pure
        (some (record { resource_version = l.resource_version; items = matching label l.items }), e)
  filtered opts (some foreign, e) = panic bad_object

  unfoldable pub fake_list : ListOptions → M W (Option EgressIpList × Option Error)
  unfolding extracting
  fake_list opts = extracting opts (
      invokes (list_action staticegressips_resource staticegressips_kind ns (restrictions opts))
        (egress_ip_list new_list)
      >>= filtered opts)

  unfoldable pub fake_watch : ListOptions → M W (Watcher × Option Error)
  unfolding extracting
  fake_watch opts = extracting opts (
      invokes_watch
        (watch_action staticegressips_resource ns (restrictions opts) opts.resource_version))

  unfoldable pub fake_create : StaticEgressIp → M W (Option StaticEgressIp × Option Error)
  unfolding invoke_one
  fake_create e = invoke_one (create_action staticegressips_resource ns e)

  unfoldable pub fake_update : StaticEgressIp → M W (Option StaticEgressIp × Option Error)
  unfolding invoke_one
  fake_update e = invoke_one (update_action staticegressips_resource ns e)

  unfoldable pub fake_update_status : StaticEgressIp → M W (Option StaticEgressIp × Option Error)
  unfolding invoke_one
  fake_update_status e =
      invoke_one (update_subresource_action staticegressips_resource "status" ns e)

  -- The object that comes back is not looked at.
  unfoldable pub fake_delete : String → M W (Option Error)
  fake_delete name = do
    (_, e) ← invokes (delete_action staticegressips_resource ns name) (egress_ip new_egress_ip)
    pure e

  unfoldable pub fake_delete_collection : ListOptions → M W (Option Error)
  unfolding extracting
  fake_delete_collection list_options = extracting list_options do
    (_, e) ←
        invokes (delete_collection_action staticegressips_resource ns (restrictions list_options))
          (egress_ip_list new_list)
    pure e

  unfoldable pub fake_patch :
      String → String → String → List String → M W (Option StaticEgressIp × Option Error)
  unfolding invoke_one
  fake_patch name patch_type content subresources =
      invoke_one
        (patch_subresource_action staticegressips_resource ns name patch_type content subresources)
