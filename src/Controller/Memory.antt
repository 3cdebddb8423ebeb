-- ===== src/Controller/Memory.antt =====
-- The Controller of pkg/controller/controller.go as an object: a pointer to it, which the handlers
-- of events keep, and through which Run fills its fields.
use kube_static_egress_ip.Prelude.{some}
use kube_static_egress_ip.Effect.{M, ◌>>=◌}
use kube_static_egress_ip.Director.{EgressDirector}
use kube_static_egress_ip.Controller.{Controller}

-- The part of Go's memory that holds Controllers.
pub record Memory (W : Type 0) : Type 1 where
  pub Ptr : Type 0
  -- &Controller{...}
  pub allocate : Controller → M W Ptr
  pub load : Ptr → M W Controller
  pub store : Ptr → Controller → M W (Unit {0})

module _ {W : Type 0} (m : Memory W) where
  open m use {Ptr, load, store}

  -- c.trafficGateway = ...
  unfoldable pub set_traffic_gateway : Ptr → M W (Unit {0})
  set_traffic_gateway p = do c ← load p; store p (record c { traffic_gateway = some tt })

  -- c.trafficDirector = ...
  unfoldable pub set_traffic_director : Ptr → EgressDirector → M W (Unit {0})
  set_traffic_director p d = do c ← load p; store p (record c { traffic_director = some d })
