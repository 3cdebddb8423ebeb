-- ===== src/Client/Reading.antt =====
-- What a request of the typed client (pkg/client/clientset/versioned/typed/egressip/v1alpha1) asks
-- an API server for, by the conventions of the Kubernetes API.
use kube_static_egress_ip.Prelude.{String, Option, none, some, List, [], ◌∷◌, ◌==◌, if◌then◌else◌}
use kube_static_egress_ip.Api.{StaticEgressIp}
use kube_static_egress_ip.Registration.{GroupVersionResource, scheme_group_version}
use kube_static_egress_ip.Client.{
  ListOptions, Body, object, bytes, Step, namespace, resource, name, sub_resource, get_params,
  list_params, body, Verb, get_verb, post, put, delete_verb, patch_verb, Request,
}
use kube_static_egress_ip.Client.Fake.{
  Action, get_action, list_action, watch_action, create_action, update_action,
  update_subresource_action, delete_action, delete_collection_action, patch_subresource_action,
  restrictions, staticegressips_kind,
}

-- The parts of a request.
pub record Parts (D : Type 0) : Type 0 where
  pub namespace_of : String
  pub resource_of : String
  pub name_of : Option String
  pub sub_of : List String
  pub params_of : Option ListOptions
  pub body_of : Option (Body D)

abbrev no_parts : {D : Type 0} → Parts D
no_parts = record {
  namespace_of = "";
  resource_of = "";
  name_of = none;
  sub_of = [];
  params_of = none;
  body_of = none;
}

module _ {G D : Type 0} where
  abbrev add_part : Step G D → Parts D → Parts D
  add_part (namespace s) p = record p { namespace_of = s }
  add_part (resource s) p = record p { resource_of = s }
  add_part (name s) p = record p { name_of = some s }
  add_part (sub_resource l) p = record p { sub_of = l }
  add_part (get_params o) p = p
  add_part (list_params o) p = record p { params_of = some o }
  add_part (body b) p = record p { body_of = some b }

  abbrev parts : List (Step G D) → Parts D
  parts [] = no_parts
  parts (s ∷ l) = add_part s (parts l)

module _ {D : Type 0} where
  abbrev resource_in : Parts D → GroupVersionResource
  resource_in p = record {
    group = scheme_group_version.group;
    version = scheme_group_version.version;
    resource = p.resource_of;
  }

  -- GET of a name, of a collection and of its changes.
  abbrev read_action : Parts D → Option String → Option ListOptions → Option Action
  read_action p (some n) o = some (get_action (resource_in p) p.namespace_of n)
  read_action p none none = none
  read_action p none (some o) =
      if o.watch
      then some (watch_action (resource_in p) p.namespace_of (restrictions o) o.resource_version)
      else some (list_action (resource_in p) staticegressips_kind p.namespace_of (restrictions o))

  -- POST of an object.
  abbrev create_of : Parts D → Option (Body D) → Option Action
  create_of p (some (object e)) = some (create_action (resource_in p) p.namespace_of e)
  create_of p _ = none

  -- PUT of an object at its name, or at a subresource of it.
  abbrev put_at : Parts D → StaticEgressIp → List String → Option Action
  put_at p e [] = some (update_action (resource_in p) p.namespace_of e)
  put_at p e (s ∷ []) = some (update_subresource_action (resource_in p) s p.namespace_of e)
  put_at p e _ = none

  abbrev update_of : Parts D → Option String → Option (Body D) → Option Action
  update_of p (some n) (some (object e)) = if n == e.name then put_at p e p.sub_of else none
  update_of p _ _ = none

  -- DELETE of a name or of a collection.
  abbrev delete_of : Parts D → Option String → Option ListOptions → Option Action
  delete_of p (some n) o = some (delete_action (resource_in p) p.namespace_of n)
  delete_of p none none = none
  delete_of p none (some o) =
      some (delete_collection_action (resource_in p) p.namespace_of (restrictions o))

  -- PATCH of a name.
  abbrev patch_of : Parts D → String → Option String → Option (Body D) → Option Action
  patch_of p t (some n) (some (bytes b)) =
      some (patch_subresource_action (resource_in p) p.namespace_of n t b p.sub_of)
  patch_of p t _ _ = none

  abbrev asked_for : Verb → Parts D → Option Action
  asked_for get_verb p = read_action p p.name_of p.params_of
  asked_for post p = create_of p p.body_of
  asked_for put p = update_of p p.name_of p.body_of
  asked_for delete_verb p = delete_of p p.name_of p.params_of
  asked_for (patch_verb t) p = patch_of p t p.name_of p.body_of

-- The action that a request asks for.
abbrev pub as_action : {G D : Type 0} → Request G D → Option Action
as_action r = asked_for r.verb (parts r.steps)
