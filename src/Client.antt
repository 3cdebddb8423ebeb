-- ===== src/Client.antt =====
-- pkg/client/clientset/versioned/typed/egressip/v1alpha1/staticegressip.go: the requests that the
-- typed client of the custom resource sends. A request is the verb and the calls of client-go's
-- request builder, in their order; what an API server does with it is a parameter.
pub mod Fake
pub mod Reading
pub mod Recorded
pub mod Agreement
pub mod Sets
use kube_static_egress_ip.Prelude.{String, Bool, true, Option, List, [], ◌∷◌}
use kube_static_egress_ip.Effect.{Error, M}
use kube_static_egress_ip.Api.{StaticEgressIp}

-- metav1.ListOptions: the fields by which the objects are chosen, and Watch.
pub record ListOptions : Type 0 where
  pub label_selector : String
  pub field_selector : String
  pub resource_version : String
  pub watch : Bool

-- v1alpha1.StaticEgressIPList, with the resource version of its ListMeta
pub record EgressIpList : Type 0 where
  pub resource_version : String
  pub items : List StaticEgressIp

-- &v1alpha1.StaticEgressIP{}, &v1alpha1.StaticEgressIPList{}
abbrev pub new_egress_ip : StaticEgressIp
new_egress_ip = record {
  name = "";
  namespace = "";
  spec = record { rules = [] };
  status = record { gateway_node = ""; gateway_ip = "" };
}

abbrev pub new_list : EgressIpList
new_list = record { resource_version = ""; items = [] }

-- G and D are the options of Get and of Delete.
pub data Body (D : Type 0) : Type 0 where
  object : StaticEgressIp → Body D
  delete_options : D → Body D
  bytes : String → Body D

-- The calls of the builder.
pub data Step (G D : Type 0) : Type 0 where
  namespace : String → Step G D
  resource : String → Step G D
  name : String → Step G D
  sub_resource : List String → Step G D
  get_params : G → Step G D
  list_params : ListOptions → Step G D
  body : Body D → Step G D

pub data Verb : Type 0 where
  get_verb : Verb
  post : Verb
  put : Verb
  delete_verb : Verb
  patch_verb : String → Verb

module _ (G D : Type 0) where
  pub record Request : Type 0 where
    pub verb : Verb
    pub steps : List (Step G D)

  -- Do().Into(result), Do().Error() and Watch(): Into gives back what it has made of the result.
  pub record Rest (W : Type 0) : Type 1 where
    pub Watcher : Type 0
    pub into : Request → StaticEgressIp → M W (StaticEgressIp × Option Error)
    pub into_list : Request → EgressIpList → M W (EgressIpList × Option Error)
    pub error_of : Request → M W (Option Error)
    pub watch_of : Request → M W (Watcher × Option Error)

abbrev pub plural : String
plural = "staticegressips"

module _ {G D W : Type 0} (client : Rest G D W) (ns : String) where
  open client use {Watcher, into, into_list, error_of, watch_of}

  unfoldable pub get : String → G → M W (StaticEgressIp × Option Error)
  get n options =
      into
        (record {
          verb = get_verb;
          steps = namespace ns ∷ resource plural ∷ name n ∷ get_params options ∷ [];
        })
        new_egress_ip

  unfoldable pub list : ListOptions → M W (EgressIpList × Option Error)
  list opts =
      into_list
        (record { verb = get_verb; steps = namespace ns ∷ resource plural ∷ list_params opts ∷ [] })
        new_list

  unfoldable pub watch : ListOptions → M W (Watcher × Option Error)
  watch opts = watch_of (record {
    verb = get_verb;
    steps = namespace ns ∷ resource plural ∷ list_params (record opts { watch = true }) ∷ [];
  })

  unfoldable pub create : StaticEgressIp → M W (StaticEgressIp × Option Error)
  create e =
      into (record { verb = post; steps = namespace ns ∷ resource plural ∷ body (object e) ∷ [] })
        new_egress_ip

  unfoldable pub update : StaticEgressIp → M W (StaticEgressIp × Option Error)
  update e =
      into
        (record {
          verb = put;
          steps = namespace ns ∷ resource plural ∷ name e.name ∷ body (object e) ∷ [];
        })
        new_egress_ip

  unfoldable pub update_status : StaticEgressIp → M W (StaticEgressIp × Option Error)
  update_status e =
      into
        (record {
          verb = put;
          steps =
              namespace ns
              ∷ resource plural
              ∷ name e.name
              ∷ sub_resource ("status" ∷ [])
              ∷ body (object e)
              ∷ [];
        })
        new_egress_ip

  unfoldable pub delete : String → D → M W (Option Error)
  delete n options = error_of (record {
    verb = delete_verb;
    steps = namespace ns ∷ resource plural ∷ name n ∷ body (delete_options options) ∷ [];
  })

  unfoldable pub delete_collection : D → ListOptions → M W (Option Error)
  delete_collection options list_options = error_of (record {
    verb = delete_verb;
    steps =
        namespace ns
        ∷ resource plural
        ∷ list_params list_options
        ∷ body (delete_options options)
        ∷ [];
  })

  unfoldable pub patch :
      String → String → String → List String → M W (StaticEgressIp × Option Error)
  patch n patch_type content subresources =
      into
        (record {
          verb = patch_verb patch_type;
          steps =
              namespace ns
              ∷ resource plural
              ∷ sub_resource subresources
              ∷ name n
              ∷ body (bytes content)
              ∷ [];
        })
        new_egress_ip
