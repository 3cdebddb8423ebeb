-- ===== src/Registration.antt =====
-- pkg/apis/egressip/v1alpha1/register.go: the API group of the custom resource, its qualified names
-- and its registration. The scheme of the API machinery is a parameter.
use kube_static_egress_ip.Prelude.{String, List, [], ◌∷◌}
use kube_static_egress_ip.Effect.{M, ◌>>◌}

abbrev pub group_name : String
group_name = "staticegressips.nirmata.io"

-- schema.GroupVersion, GroupKind, GroupResource and GroupVersionResource
pub record GroupVersion : Type 0 where
  pub group : String
  pub version : String

pub record GroupKind : Type 0 where
  pub group : String
  pub kind : String

pub record GroupResource : Type 0 where
  pub group : String
  pub resource : String

pub record GroupVersionResource : Type 0 where
  pub group : String
  pub version : String
  pub resource : String

abbrev pub scheme_group_version : GroupVersion
scheme_group_version = record { group = group_name; version = "v1alpha1" }

unfoldable pub kind : String → GroupKind
kind k = record { group = scheme_group_version.group; kind = k }

unfoldable pub resource : String → GroupResource
resource r = record { group = scheme_group_version.group; resource = r }

-- The types that are registered.
pub data KnownType : Type 0 where
  static_egress_ip : KnownType
  static_egress_ip_list : KnownType

-- runtime.Scheme: scheme.AddKnownTypes and metav1.AddToGroupVersion
pub record Scheme (W : Type 0) : Type 0 where
  pub add_known_types : GroupVersion → List KnownType → M W (Unit {0})
  pub add_to_group_version : GroupVersion → M W (Unit {0})

unfoldable pub add_known_types : {W : Type 0} → Scheme W → M W (Unit {0})
add_known_types s =
    s.add_known_types scheme_group_version (static_egress_ip ∷ static_egress_ip_list ∷ [])
    >> s.add_to_group_version scheme_group_version
