-- ===== src/Controller/Run/Filling.antt =====
-- The fields that the start of the controller sets.
use kube_static_egress_ip.Prelude.{◌≡◌, subst, Bool, true, false, Option, none, some}
use kube_static_egress_ip.Effect.{M, fail, pure, Error}
use kube_static_egress_ip.Effect.Keeps.{Keeps, Keeps-on_error}
use kube_static_egress_ip.Effect.Edits.{
  Edits, Returns, Edits-bind, Edits-read, Edits-Keeps, Edits-pure, Edits-fail,
}
use kube_static_egress_ip.Host.{Host}
use kube_static_egress_ip.Cluster.{Cluster}
use kube_static_egress_ip.Director.{EgressDirector}
use kube_static_egress_ip.Gateway.{new_egress_gateway}
use kube_static_egress_ip.Controller.{Controller}
use kube_static_egress_ip.Controller.Memory.{Memory, set_traffic_gateway, set_traffic_director}
use kube_static_egress_ip.Controller.Queue.{start}
use kube_static_egress_ip.Controller.Sync.Steps.{Keeps-logged}
use kube_static_egress_ip.Controller.Run.Keeping.{
  StartKeeps, Keeps-or_fatal, gateway_setup-Keeps, new_director-Keeps, director_setup-Keeps,
}

-- Whether a pointer is not nil.
abbrev is_set : {A : Type 0} → Option A → Bool
is_set none = false
is_set (some a) = true

-- Whether the gateway and the director of a controller are set.
abbrev pub fields_of : Controller → Bool × Bool
fields_of c = (is_set c.traffic_gateway, is_set c.traffic_director)

-- A memory that keeps what is stored behind a pointer, read by which of the fields are set there;
-- no other call of the start writes it.
pub record FieldLaws {W : Type 0} (h : Host W) (k : Cluster W) (m : Memory W) (p : m.Ptr)
    : Type 0 where
  pub fields : W → Bool × Bool
  pub others-keep : StartKeeps h k fields
  pub load-keeps : Keeps fields (m.load p)
  pub load_reads : (w : W) → Returns (λ c. fields_of c ≡ fields w) (m.load p w).0
  pub store_writes :
      (x : Bool × Bool) (c : Controller) → Edits fields (λ _. Unit) x (m.store p c) (fields_of c)

module _ {W : Type 0} (h : Host W) (k : Cluster W) (m : Memory W) (p : m.Ptr)
    (L : FieldLaws h k m p) where
  open L use {fields}

  abbrev kept :
      {A : Type 0} {x : Bool × Bool} {n : M W A} → Keeps fields n → Edits fields (λ _. Unit) x n x
  kept n = Edits-Keeps tt n

  reads : (x : Bool × Bool) (w : W) → fields w ≡ x → Returns (λ c. fields_of c ≡ x) (m.load p w).0
  reads x w e =
      subst (λ (y : Bool × Bool). Returns (λ c. fields_of c ≡ y) (m.load p w).0) e (L.load_reads w)

  set_gateway-Edits :
      (g d : Bool) → Edits fields (λ _. Unit) (g, d) (set_traffic_gateway m p) (true, d)
  unfolding set_traffic_gateway
  set_gateway-Edits g d =
      Edits-read (λ c. fields_of c ≡ (g, d)) tt L.load-keeps (reads (g, d))
        λ c e.
          let c' = record c { traffic_gateway = some tt } in
          subst (λ (y : Bool × Bool). Edits fields (λ _. Unit) (g, d) (m.store p c') (true, y.1)) e
            (L.store_writes (g, d) c')

  set_director-Edits :
      (g d : Bool) (r : EgressDirector)
      → Edits fields (λ _. Unit) (g, d) (set_traffic_director m p r) (g, true)
  unfolding set_traffic_director
  set_director-Edits g d r =
      Edits-read (λ c. fields_of c ≡ (g, d)) tt L.load-keeps (reads (g, d))
        λ c e.
          let c' = record c { traffic_director = some r } in
          subst (λ (y : Bool × Bool). Edits fields (λ _. Unit) (g, d) (m.store p c') (y.0, true)) e
            (L.store_writes (g, d) c')

  synced-Edits :
      (b : Bool) (x : Bool × Bool) (e : Error)
      → Edits fields (λ _. Unit) {A = Unit {0}} x (elim b [ true ↦ pure tt | false ↦ fail e ]) x
  synced-Edits true x e = Edits-pure x tt
  synced-Edits false x e = Edits-fail x x e tt

  -- Where the start returns, both fields are set.
  pub start-Edits : (g d : Bool) → Edits fields (λ _. Unit) (g, d) (start h k m p) (true, true)
  unfolding start new_egress_gateway
  start-Edits g d =
      let S = L.others-keep in
      Edits-bind (g, d) (kept (Keeps-logged (S.write_file-keeps _ _)))
        λ _.
          Edits-bind (g, d) (kept (Keeps-logged (S.write_file-keeps _ _)))
            λ _.
              Edits-bind (g, d) (kept (Keeps-or_fatal _ (Keeps-on_error _ S.iptables_new-keeps)))
                λ _.
                  Edits-bind (true, d) (set_gateway-Edits g d)
                    λ _.
                      Edits-bind (true, d)
                        (kept (Keeps-or_fatal _ (gateway_setup-Keeps h k fields S)))
                        λ _.
                          Edits-bind (true, d)
                            (kept (Keeps-or_fatal _ (new_director-Keeps h k fields S)))
                            λ r.
                              Edits-bind (true, true) (set_director-Edits true d r)
                                λ _.
                                  Edits-bind (true, true)
                                    (kept (Keeps-or_fatal _ (director_setup-Keeps h k fields S)))
                                    λ _.
                                      Edits-bind (true, true) (kept S.wait_for_cache_sync-keeps)
                                        λ synced. synced-Edits synced (true, true) _
