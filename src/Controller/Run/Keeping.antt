-- ===== src/Controller/Run/Keeping.antt =====
-- What the start of the controller leaves alone: all that its calls leave alone.
use kube_static_egress_ip.Prelude.{refl, Bool, true, false, String}
use kube_static_egress_ip.Effect.{M, Error, or_fatal}
use kube_static_egress_ip.Effect.Keeps.{Keeps, Keeps-pure, Keeps-bind, Keeps-on_error}
use kube_static_egress_ip.Host.{Host}
use kube_static_egress_ip.Cluster.{Cluster}
use kube_static_egress_ip.Utils.{get_node_ip}
use kube_static_egress_ip.Cluster.Calls.{CallsKeep}
use kube_static_egress_ip.Chains.{or_exists}
use kube_static_egress_ip.Director
use kube_static_egress_ip.Director.{EgressDirector, new_egress_director}
use kube_static_egress_ip.Gateway
use kube_static_egress_ip.Gateway.{new_egress_gateway, create_chain_if_not_exist}
use kube_static_egress_ip.Controller.{Controller}
use kube_static_egress_ip.Controller.Memory.{Memory, set_traffic_gateway, set_traffic_director}
use kube_static_egress_ip.Controller.Queue.{start}
use kube_static_egress_ip.Controller.Sync.Steps.{
  Keeps-logged, Keeps-result, sync_rules, ensure_first-Keeps, ensure_last-Keeps,
}
use kube_static_egress_ip.Controller.Sync.{get_node_object-Keeps}

module _ {W V : Type 0} (h : Host W) (k : Cluster W) (view : W → V) where
  open h use {File, iptables_new, new_chain, read_file, write_file, open_append, write_string}

  pub record StartKeeps : Type 0 where
    pub calls : CallsKeep h k view
    pub iptables_new-keeps : Keeps view iptables_new
    pub new_chain-keeps : (t c : String) → Keeps view (new_chain t c)
    pub read_file-keeps : (path : String) → Keeps view (read_file path)
    pub write_file-keeps : (path content : String) → Keeps view (write_file path content)
    pub open_append-keeps : (path : String) → Keeps view (open_append path)
    pub write_string-keeps : (f : File) (line : String) → Keeps view (write_string f line)
    pub wait_for_cache_sync-keeps : Keeps view k.wait_for_cache_sync

module _ {W V : Type 0} (m : Memory W) (view : W → V) where
  pub record MemoryKeeps : Type 0 where
    pub load-keeps : (p : m.Ptr) → Keeps view (m.load p)
    pub store-keeps : (p : m.Ptr) (c : Controller) → Keeps view (m.store p c)

module _ {W V : Type 0} {view : W → V} where
  pub Keeps-or_fatal :
      {A : Type 0} (f : Error → String) {m : M W A} → Keeps view m → Keeps view (or_fatal f m)
  unfolding or_fatal
  Keeps-or_fatal f h = record { at = h.at }

  Keeps-synced :
      {A : Type 0} (b : Bool) {m n : M W A}
      → Keeps view m
      → Keeps view n
      → Keeps view (elim b [ true ↦ m | false ↦ n ])
  Keeps-synced true h k = h
  Keeps-synced false h k = k

  Keeps-or_exists :
      (f : Error → Error) {m : M W (Unit {0})} → Keeps view m → Keeps view (or_exists f m)
  unfolding or_exists
  Keeps-or_exists f h = record { at = h.at }

module _ {W V : Type 0} (h : Host W) (k : Cluster W) (view : W → V) (S : StartKeeps h k view) where
  open S use {calls}

  pub gateway_setup-Keeps : Keeps view (Gateway.setup h)
  unfolding Gateway.setup create_chain_if_not_exist
  gateway_setup-Keeps =
      Keeps-bind (Keeps-on_error _ (record { at = (S.new_chain-keeps _ _).at })) λ _.
        Keeps-bind (ensure_last-Keeps h k view calls _ _ _ _ _) λ _.
          Keeps-bind (Keeps-or_exists _ (S.new_chain-keeps _ _))
            λ _. ensure_first-Keeps h k view calls _ _ _ _ _

  pub director_setup-Keeps : Keeps view (Director.setup h)
  unfolding Director.setup
  director_setup-Keeps =
      search
        (
          sync_rules,
          Keeps-or_exists,
          S.new_chain-keeps,
          S.read_file-keeps,
          S.open_append-keeps,
          S.write_string-keeps,
          calls.output-keeps,
          calls.run-keeps,
          ensure_first-Keeps h k view calls,
        )
        depth 12

  pub new_director-Keeps : Keeps view (new_egress_director h k)
  unfolding new_egress_director
  new_director-Keeps = Keeps-bind (Keeps-on_error _ S.iptables_new-keeps) λ _.
      Keeps-bind (get_node_object-Keeps h k view calls "")
        λ node. Keeps-bind (Keeps-on_error _ (Keeps-result (get_node_ip h node))) λ ip. Keeps-pure _

module _ {W V : Type 0} (h : Host W) (k : Cluster W) (m : Memory W) (view : W → V)
    (S : StartKeeps h k view) (K : MemoryKeeps m view) where
  set_gateway-Keeps : (p : m.Ptr) → Keeps view (set_traffic_gateway m p)
  unfolding set_traffic_gateway
  set_gateway-Keeps p = Keeps-bind (K.load-keeps p) λ c. K.store-keeps p _

  set_director-Keeps : (p : m.Ptr) (d : EgressDirector) → Keeps view (set_traffic_director m p d)
  unfolding set_traffic_director
  set_director-Keeps p d = Keeps-bind (K.load-keeps p) λ c. K.store-keeps p _

  pub start-Keeps : (p : m.Ptr) → Keeps view (start h k m p)
  unfolding start new_egress_gateway
  start-Keeps p = Keeps-bind (Keeps-logged (S.write_file-keeps _ _)) λ _.
      Keeps-bind (Keeps-logged (S.write_file-keeps _ _)) λ _.
        Keeps-bind (Keeps-or_fatal _ (Keeps-on_error _ S.iptables_new-keeps)) λ _.
          Keeps-bind (set_gateway-Keeps p) λ _.
            Keeps-bind (Keeps-or_fatal _ (gateway_setup-Keeps h k view S)) λ _.
              Keeps-bind (Keeps-or_fatal _ (new_director-Keeps h k view S)) λ d.
                Keeps-bind (set_director-Keeps p d) λ _.
                  Keeps-bind (Keeps-or_fatal _ (director_setup-Keeps h k view S)) λ _.
                    Keeps-bind S.wait_for_cache_sync-keeps (λ synced.
                      Keeps-synced synced (record { at = λ w. refl }) (record { at = λ w. refl }))
