-- ===== src/Listers.antt =====
-- pkg/client/listers/egressip/v1alpha1/staticegressip.go: the lister of the custom resource, by
-- which the controller and the manager read what the informer has stored. The store, its two loops
-- ListAll and ListAllByNamespace, and the text of a "not found" are client-go's and parameters.
pub mod Queued
pub mod Served
use kube_static_egress_ip.Prelude.{String, Option, none, some, List, [], ◌∷◌, ◌++◌}
use kube_static_egress_ip.Prelude.Text.{◌<>◌}
use kube_static_egress_ip.Effect.{
  Error, not_found, Outcome, ok, panicked, M, pure, fail, panic, ◌>>=◌,
}
use kube_static_egress_ip.Api.{StaticEgressIp}
use kube_static_egress_ip.Registration.{GroupResource, resource}
use kube_static_egress_ip.Cluster.{Cluster}

-- What a store may hold: a resource, or a pointer to something else.
pub data Object : Type 0 where
  egress_ip : StaticEgressIp → Object
  foreign : Object

-- cache.Indexer: GetByKey, and what cache.ListAll and cache.ListAllByNamespace hand to the function
-- that appends, in its order, with the error that they end with.
pub record Indexer (W : Type 0) : Type 1 where
  pub Selector : Type 0
  pub everything : Selector
  pub get_by_key : String → M W (Option Object)
  pub list_all : Selector → M W (List Object × Option Error)
  pub list_all_by_namespace : String → Selector → M W (List Object × Option Error)
  -- the message of errors.NewNotFound
  pub not_found_text : GroupResource → String → String

abbrev pub bad_assertion : String
bad_assertion = "interface conversion: interface {} is not *v1alpha1.StaticEgressIP"

-- ret = append(ret, m.(*v1alpha1.StaticEgressIP)), for each of the objects.
unfoldable pub append_each : List StaticEgressIp → List Object → Outcome (List StaticEgressIp)
append_each ret [] = ok ret
append_each ret (egress_ip e ∷ l) = append_each (ret ++ e ∷ []) l
append_each ret (foreign ∷ l) = panicked bad_assertion

-- The list and the error are returned together.
abbrev with_error :
    Outcome (List StaticEgressIp) → Option Error → Outcome (List StaticEgressIp × Option Error)
with_error (ok ret) e = ok (ret, e)
with_error (Outcome.err x) e = Outcome.err x
with_error (panicked m) e = panicked m
with_error (Outcome.exited m) e = Outcome.exited m

module _ {W : Type 0} where
  gather : M W (List Object × Option Error) → M W (List StaticEgressIp × Option Error)
  gather listing = do (found, e) ← listing; (λ w. (with_error (append_each [] found) e, w))

module _ {W : Type 0} (indexer : Indexer W) where
  open indexer use {
    Selector, everything, get_by_key, list_all, list_all_by_namespace, not_found_text,
  }

  unfoldable pub list : Selector → M W (List StaticEgressIp × Option Error)
  unfolding gather
  list selector = gather (list_all selector)

  -- StaticEgressIPs(namespace) and a call of it.
  unfoldable pub list_in : String → Selector → M W (List StaticEgressIp × Option Error)
  unfolding gather
  list_in namespace selector = gather (list_all_by_namespace namespace selector)

  unfoldable pub get : String → String → M W StaticEgressIp
  get namespace name = do
    obj ← get_by_key (namespace <> "/" <> name)
    elim obj [
      | none ↦ fail (not_found (not_found_text (resource "staticegressip") name))
      | some (egress_ip e) ↦ pure e
      | some foreign ↦ panic bad_assertion
    ]

  -- Where the program reads resources by the lister.
  unfoldable pub list_or_error : M W (List StaticEgressIp)
  list_or_error = do (ret, e) ← list everything; elim e [ none ↦ pure ret | some x ↦ fail x ]

  unfoldable pub with_lister : Cluster W → Cluster W
  with_lister k = record k { get_egress_ip = get; list_egress_ips = list_or_error }
