-- ===== src/Api.antt =====
-- The data that the program works on: the custom resource of pkg/apis/egressip/v1alpha1/types.go,
-- and of the Kubernetes core objects (k8s.io/api/core/v1) the fields that the program reads.
use kube_static_egress_ip.Prelude.{ℕ, String, Option, List}

pub record Rule : Type 0 where
  pub service_name : String
  pub egress_ip : String
  pub cidr : String

pub record StaticEgressIpSpec : Type 0 where
  pub rules : List Rule

pub record StaticEgressIpStatus : Type 0 where
  pub gateway_node : String
  pub gateway_ip : String

-- Of the embedded TypeMeta and ObjectMeta, the name and the namespace.
pub record StaticEgressIp : Type 0 where
  pub name : String
  pub namespace : String
  pub spec : StaticEgressIpSpec
  pub status : StaticEgressIpStatus

pub record NodeCondition : Type 0 where
  pub condition_type : String
  pub condition_status : String

pub record NodeAddress : Type 0 where
  pub address_type : String
  pub address : String

pub record Node : Type 0 where
  pub name : String
  pub uid : String
  pub labels : List (String × String)
  pub conditions : List NodeCondition
  pub addresses : List NodeAddress

pub record EndpointAddress : Type 0 where
  pub ip : String
  pub node_name : Option String

pub record EndpointSubset : Type 0 where
  pub addresses : List EndpointAddress
  pub ports : List ℕ

pub record Endpoints : Type 0 where
  pub subsets : List EndpointSubset

-- The constants of k8s.io/api/core/v1 that the program compares with.
abbrev pub node_internal_ip : String
node_internal_ip = "InternalIP"

abbrev pub node_external_ip : String
node_external_ip = "ExternalIP"

abbrev pub node_ready : String
node_ready = "Ready"

abbrev pub condition_true : String
condition_true = "True"
