-- ===== src/Manager.antt =====
-- pkg/ha/gateway_manager.go: the manager chooses the node that acts as gateway.
pub mod Choice
pub mod Safety
pub mod Rounds
pub mod Settled
pub mod Leading
pub mod Election
use kube_static_egress_ip.Prelude.{
  String, Bool, true, false, not, ◌&&◌, Option, none, some, List, [], ◌∷◌, ◌++◌, ◌==◌,
  if◌then◌else◌,
}
use kube_static_egress_ip.Prelude.Text.{◌<>◌}
use kube_static_egress_ip.Effect.{
  Error, plain, text, because, Outcome, ok, err, panicked, exited, M, pure, fail, panic, ◌>>=◌,
  ◌>>◌, attempt, on_error, or_fatal, logged, for_each,
}
use kube_static_egress_ip.Api.{
  Node, NodeCondition, StaticEgressIp, StaticEgressIpStatus, node_ready, condition_true,
}
use kube_static_egress_ip.Host.{Host}
use kube_static_egress_ip.Cluster.{Cluster}
use kube_static_egress_ip.Utils.{ip_text, get_node_ip}

abbrev pub node_role_master_label : String
node_role_master_label = "node-role.kubernetes.io/master"

-- cond.Type == v1core.NodeReady && cond.Status != v1core.ConditionTrue
abbrev pub says_not_ready : NodeCondition → Bool
says_not_ready cond =
    cond.condition_type == node_ready && not (cond.condition_status == condition_true)

-- The loop over the conditions of the node that is the gateway already: it runs to the end.
unfoldable pub ready_after : Bool → List NodeCondition → Bool
ready_after node_is_ready [] = node_is_ready
ready_after node_is_ready (cond ∷ l) =
    ready_after (if says_not_ready cond then false else node_is_ready) l

-- The loop over the conditions of a candidate: it breaks at the first condition that says no.
unfoldable pub ready_until_break : List NodeCondition → Bool
ready_until_break [] = true
ready_until_break (cond ∷ l) = if says_not_ready cond then false else ready_until_break l

-- _, isMaster := node.Labels[nodeRoleMasterLabel]
unfoldable pub is_master : List (String × String) → Bool
is_master [] = false
is_master ((k, v) ∷ l) = if k == node_role_master_label then true else is_master l

-- The loop over the nodes that looks for the gateway that the status names.
unfoldable pub current_is_ready : String → List Node → Bool
current_is_ready uid [] = false
current_is_ready uid (node ∷ l) =
    if uid == node.uid && ready_after true node.conditions then true else current_is_ready uid l

-- `for _, node := range` of Go before 1.22 has one variable for all rounds, and `&node` is its
-- address: every element of readyNodes points to the same cell, which ends at the last node.
pub data Pointer : Type 0 where
  loop_variable : Pointer

pub record Scan : Type 0 where
  pub cell : Option Node
  pub ready_nodes : List Pointer

unfoldable pub deref : Scan → Pointer → Option Node
deref s loop_variable = s.cell

-- One round: the variable is assigned, a master is skipped, a ready node's address is appended.
unfoldable pub scan_node : Scan → Node → Scan
unfolding is_master ready_until_break
scan_node s node =
    if is_master node.labels
    then record s { cell = some node }
    else if ready_until_break node.conditions
    then record { cell = some node; ready_nodes = s.ready_nodes ++ loop_variable ∷ [] }
    else record s { cell = some node }

unfoldable pub scan_nodes : Scan → List Node → Scan
unfolding scan_node
scan_nodes s [] = s
scan_nodes s (node ∷ l) = scan_nodes (scan_node s node) l

abbrev pub no_scan : Scan
no_scan = record { cell = none; ready_nodes = [] }

-- copyObj.Status.GatewayNode = gatewayNodeUID; copyObj.Status.GatewayIP = gatewayIP
abbrev pub with_gateway : StaticEgressIp → String × String → StaticEgressIp
with_gateway e (uid, ip) = record e { status = record { gateway_node = uid; gateway_ip = ip } }

-- What the select of a leading manager finds next: a tick, or the end of its context.
pub data Event : Type 0 where
  tick : Event
  done : Event

module _ {W : Type 0} (h : Host W) where
  unfoldable pub name_gateway : StaticEgressIp → Node → Outcome (String × String)
  name_gateway e node = elim (get_node_ip h node) [
    | ok ip ↦ ok (node.uid, ip_text h ip)
    | err x ↦ err (
        because
          ("Failed to get node IP to allocate gateway for static egress IP: " <> e.name
            <> " due to ")
          x)
    | panicked m ↦ panicked m
    | exited m ↦ exited m
  ]

  unfoldable pub first_ready : StaticEgressIp → Scan → Outcome (String × String)
  unfolding deref name_gateway
  first_ready e s = elim s.ready_nodes [
    | [] ↦ err (plain "Failed to allocate gatewway as there are no ready nodes")
    | p ∷ _ ↦ elim (deref s p) [
      | some node ↦ name_gateway e node
      | none ↦ panicked "invalid memory address or nil pointer dereference"
    ]
  ]

  -- chooseGatewayNode, once the nodes are listed.
  unfoldable pub choose_from : StaticEgressIp → List Node → Outcome (String × String)
  unfolding current_is_ready scan_nodes first_ready
  choose_from e nodes =
      if not (e.status.gateway_node == "") && current_is_ready e.status.gateway_node nodes
      then ok (e.status.gateway_node, e.status.gateway_ip)
      else first_ready e (scan_nodes no_scan nodes)

  module _ (k : Cluster W) where
    open k use {list_nodes, update_egress_ip, list_egress_ips}

    unfoldable pub choose_gateway_node : StaticEgressIp → M W (String × String)
    choose_gateway_node e = do
      nodes ← on_error (because "Failed to list nodes from API server: ") list_nodes
      (λ w. (choose_from e nodes, w))

    -- The body of the loop over the resources: a failed choice is logged and the resource skipped,
    -- a failed update is logged.
    unfoldable pub assign : StaticEgressIp → M W (Unit {0})
    assign e = do
      chosen ← attempt (choose_gateway_node e)
      elim chosen [
        | none ↦ pure tt
        | some gateway ↦ logged (update_egress_ip e.namespace (with_gateway e gateway))
      ]

    -- case <-ticker.C
    unfoldable pub round : M W (Unit {0})
    unfolding assign
    round = do
      resources ←
          or_fatal
            (λ e. "Failed to list static egress IP custom resources from API server: " <> text e)
            list_egress_ips
      for_each assign resources

    -- The loop of OnStartedLeading, with what its select finds as a list: the result says whether
    -- the loop has returned.
    unfoldable pub lead : List Event → M W Bool
    lead [] = pure false
    lead (tick ∷ l) = round >> lead l
    lead (done ∷ l) = pure true
