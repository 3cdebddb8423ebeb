-- ===== src/Utils/Lookup.antt =====
-- Which node object the program takes for its own.
use kube_static_egress_ip.Prelude.{
  ◌≡◌, String, Option, none, some, List, [], ◌∷◌, ◌++◌, ◌==◌, if◌then◌else◌, arith,
}
use kube_static_egress_ip.Effect.{Outcome, ok, err, plain, not_found, ◌>>=◌, attempt}
use kube_static_egress_ip.Api.{Node}
use kube_static_egress_ip.Host.{Host}
use kube_static_egress_ip.Cluster.{Cluster}
use kube_static_egress_ip.Utils.{get_node_object}

abbrev pub answer : String → Option Node → Outcome Node
answer name none = err (not_found name)
answer name (some n) = ok n

-- An environment and an API server that can be read, and that reading does not change.
pub record NodeLaws {W : Type 0} (h : Host W) (k : Cluster W) (w : W) : Type 0 where
  pub env_name : String
  pub host_name : String
  pub find : String → Option Node
  pub getenv_answers : h.getenv "NODE_NAME" w ≡ (ok env_name, w)
  pub hostname_answers : h.hostname w ≡ (ok host_name, w)
  pub get_node_answers : (name : String) → k.get_node name w ≡ (answer name (find name), w)

-- The names that are asked for, in order.
abbrev pub asked : String → String → String → List String
asked env host override =
    (if env == "" then [] else env ∷ []) ++ (host ∷ (if override == "" then [] else override ∷ []))

abbrev pub first_found_of : (String → Option Node) → List String → Outcome Node
first_found_of find [] =
    err (plain "Failed to identify the node by NODE_NAME, hostname or --hostname-override")
first_found_of find (name ∷ l) =
    let rest = first_found_of find l in elim (find name) [ some n ↦ ok n | none ↦ rest ]

-- Where the environment, the name of the host and the API server can be read and reading changes
-- nothing, the node object is that of the first name that the API server knows, among the
-- environment's NODE_NAME unless it is empty, the host's name, and the override unless it is empty;
-- where it knows none of them it is an error, and nothing has changed either way.
get_node_object_lem :
    {W : Type 0} (h : Host W) (k : Cluster W) (w : W) (L : NodeLaws h k w) (override : String)
    → get_node_object h k override w
      ≡ (first_found_of L.find (asked L.env_name L.host_name override), w)
unfolding get_node_object attempt ◌>>=◌
get_node_object_lem h k w L override = ground (
  arith,
  L.getenv_answers,
  L.hostname_answers,
  L.get_node_answers L.env_name,
  L.get_node_answers L.host_name,
  L.get_node_answers override,
)
