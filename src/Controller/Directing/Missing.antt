-- ===== src/Controller/Directing/Missing.antt =====
-- The sync of a resource on a director node, where the lister has no endpoints object for the
-- service of one of its rules.
use kube_static_egress_ip.Prelude.{
  ◌≡◌, ◌≢◌, refl, ap, ◌∙◌, ℕ, suc, String, false, ◌||◌, some, List, [], ◌∷◌, ◌++◌, ◌==◌, eq_iff,
  arith, subst, sym,
}
use kube_static_egress_ip.Effect.{
  continue, Error, M, Outcome, ok, err, panicked, exited, ◌>>=◌, attempt, for_each_from,
}
use kube_static_egress_ip.Effect.Keeps.{Keeps}
use kube_static_egress_ip.Effect.Edits.{Edits, After}
use kube_static_egress_ip.Api.{Rule, StaticEgressIp}
use kube_static_egress_ip.Host.{Host}
use kube_static_egress_ip.Host.Rules.{Tables, IptablesLaws}
use kube_static_egress_ip.Host.Reliable.{IsReliable}
use kube_static_egress_ip.Cluster.{Cluster}
use kube_static_egress_ip.Director.{EgressDirector}
use kube_static_egress_ip.Director.Directed.{directed}
use kube_static_egress_ip.Controller.{
  Controller, endpoints_of, direct_rule, do_director_processing, nil_dereference,
}
use kube_static_egress_ip.Controller.Directing.{is_pair_from, endpoints_of-Keeps}
use kube_static_egress_ip.Controller.Directing.Total.{
  AllKnown, all_added, directed-all_added, direct_rule-Edits,
}

-- The lister has no object for a service, whenever it is asked.
pub record Unknown {W : Type 0} (k : Cluster W) (namespace service : String) : Type 0 where
  pub at : (w : W) → (x : Error) × ((k.get_endpoints namespace service w).0 ≡ err x)

-- From a world whose view is `x`, an action panics with a text and the view at `y`.
record Panics {W V A : Type 0} (view : W → V) (text : String) (x : V) (m : M W A) (y : V)
    : Type 0 where
  at : (w : W) → view w ≡ x → ((m w).0 ≡ panicked text) × (view (m w).1 ≡ y)

module _ {W V : Type 0} {view : W → V} {text : String} where
  continue-Panics :
      {A B : Type 0} (y z : V) (f : A → M W B) (r : Outcome A) (w : W)
      → ((a : A) → Panics view text y (f a) z)
      → After view (λ _. ⊥) y (r, w)
      → ((continue r f w).0 ≡ panicked text) × (view (continue r f w).1 ≡ z)
  continue-Panics y z f (ok a) w rest h = (rest a).at w h
  continue-Panics y z f (err e) w rest h = absurd h
  continue-Panics y z f (panicked m) w rest h = absurd h
  continue-Panics y z f (exited m) w rest h = absurd h

  -- After a first step that returns.
  Panics-after :
      {A B : Type 0} {x z : V} (y : V) {m : M W A} {f : A → M W B}
      → Edits view (λ _. ⊥) x m y
      → ((a : A) → Panics view text y (f a) z)
      → Panics view text x (m >>= f) z
  unfolding ◌>>=◌
  Panics-after {x} {z} y {m} {f} first rest = record {
    at = λ w h. continue-Panics y z f (m w).0 (m w).1 rest (first.at w h);
  }

  -- In the first step.
  Panics-bind :
      {A B : Type 0} {x y : V} {m : M W A} (f : A → M W B)
      → Panics view text x m y
      → Panics view text x (m >>= f) y
  unfolding ◌>>=◌
  Panics-bind {x} {y} {m} f first = record {
    at = λ w h. rw ((first.at w h).0) (refl, (first.at w h).1);
  }

module _ {W : Type 0} (h : Host W) (L : IptablesLaws h) (k : Cluster W)
    (quiet : (n s : String) → Keeps L.rules (k.get_endpoints n s)) where
  open L use {rules}

  endpoints_of-panics :
      (n s : String) (w : W) → Unknown k n s → (endpoints_of h k n s w).0 ≡ panicked nil_dereference
  unfolding endpoints_of attempt ◌>>=◌
  endpoints_of-panics n s w missing = let (x, e) = missing.at w in rw e refl

  endpoints_of-Panics :
      (n s : String) (x : Tables)
      → Unknown k n s
      → Panics rules nil_dereference x (endpoints_of h k n s) x
  endpoints_of-Panics n s x missing = record {
    at = λ w e. (endpoints_of-panics n s w missing, (endpoints_of-Keeps h L k quiet n s).at w ∙ e);
  }

  module _ (G : IsReliable h) (c : Controller) (dir : EgressDirector) (e : StaticEgressIp)
      (there : c.traffic_director ≡ some dir) (r : Rule) (post : List Rule)
      (missing : Unknown k e.namespace r.service_name) where
    direct_all-Panics :
        (i : ℕ) (pre : List Rule) (x : Tables)
        → AllKnown h L k quiet G e.namespace pre
        → Panics rules nil_dereference x
            (for_each_from i (direct_rule h k c e) (pre ++ r ∷ post))
            (all_added h L k quiet G e i pre x)
    unfolding for_each_from all_added direct_rule
    direct_all-Panics i [] x known =
        Panics-bind _ (Panics-bind _ (endpoints_of-Panics e.namespace r.service_name x missing))
    direct_all-Panics i (p ∷ pre) x (first, rest) =
        Panics-after _ (direct_rule-Edits h L k quiet G c dir e i p x there first)
          (λ _. direct_all-Panics (suc i) pre _ rest)

    -- On a host whose iptables calls do what they are documented to do and on which no call of
    -- iptables, ipset or a command fails, with a lister that does not touch the rules: where a
    -- resource has a gateway address and the lister has no endpoints object for the service of one
    -- of its rules, but knows the services of the rules before it, a sync of the resource on a
    -- director node whose director is set up panics, for it dereferences the nil object; the node
    -- then directs exactly the pairs of the rules before that one and those that it directed
    -- before: the rules after it are not reached.
    pub missing_endpoints_panic :
        (pre : List Rule) (w : W)
        → e.spec.rules ≡ pre ++ r ∷ post
        → e.status.gateway_ip ≢ ""
        → AllKnown h L k quiet G e.namespace pre
        → ((do_director_processing h k c e w).0 ≡ panicked nil_dereference)
          × ((s d : String)
              → directed (rules (do_director_processing h k c e w).1) s d
                ≡ (is_pair_from h e 0 pre s d || directed (rules w) s d))
    unfolding do_director_processing
    missing_endpoints_panic pre w listed gateway known =
        let x = all_added h L k quiet G e 0 pre (rules w) in
        let total =
          (subst
              (λ (l : List Rule).
                Panics rules nil_dereference (rules w) (for_each_from 0 (direct_rule h k c e) l) x)
              (sym listed) (direct_all-Panics 0 pre (rules w) known)).at
            w refl in
        let address : (e.status.gateway_ip == "") ≡ false =
          ground (arith, eq_iff e.status.gateway_ip "") in
        rw address (
          total.0,
          λ s d.
              ap (λ (y : Tables). directed y s d) total.1
              ∙ directed-all_added h L k quiet G e 0 pre (rules w) s d,
        )
