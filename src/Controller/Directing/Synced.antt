-- ===== src/Controller/Directing/Synced.antt =====
-- The sync of a key on a node that is not the gateway of its resource, where no call fails.
use kube_static_egress_ip.Prelude.{
  ◌≡◌, ◌≢◌, ap, ◌∙◌, String, false, ◌||◌, some, ◌==◌, eq_iff, arith,
}
use kube_static_egress_ip.Effect.{ok, ◌>>=◌, on_error}
use kube_static_egress_ip.Effect.Keeps.{Keeps}
use kube_static_egress_ip.Effect.Edits.{Edits}
use kube_static_egress_ip.Effect.Succeeds.{After-total}
use kube_static_egress_ip.Api.{Node, StaticEgressIp}
use kube_static_egress_ip.Host.{Host}
use kube_static_egress_ip.Host.Rules.{Tables, IptablesLaws}
use kube_static_egress_ip.Host.Reliable.{IsReliable}
use kube_static_egress_ip.Cluster.{Cluster}
use kube_static_egress_ip.Utils.{get_node_object}
use kube_static_egress_ip.Director.{EgressDirector}
use kube_static_egress_ip.Director.Directed.{directed}
use kube_static_egress_ip.Controller.{
  Controller, is_egress_gateway, do_director_processing, find_egress_ip, process_resource,
  sync_handler,
}
use kube_static_egress_ip.Controller.Directing.{is_pair}
use kube_static_egress_ip.Controller.Directing.Total.{
  AllKnown, all_added, directed-all_added, direct_all-Edits,
}

module _ {W : Type 0} (h : Host W) (L : IptablesLaws h) (k : Cluster W)
    (quiet : (n s : String) → Keeps L.rules (k.get_endpoints n s)) (G : IsReliable h) where
  open L use {rules}

  processing-Edits :
      (c : Controller) (dir : EgressDirector) (e : StaticEgressIp) (x : Tables)
      → c.traffic_director ≡ some dir
      → e.status.gateway_ip ≢ ""
      → AllKnown h L k quiet G e.namespace e.spec.rules
      → Edits rules
          (λ _. ⊥)
          x
          (do_director_processing h k c e)
          (all_added h L k quiet G e 0 e.spec.rules x)
  unfolding do_director_processing
  processing-Edits c dir e x there gateway known =
      let address : (e.status.gateway_ip == "") ≡ false =
        ground (arith, eq_iff e.status.gateway_ip "") in
      rw address (direct_all-Edits h L k quiet G c dir e 0 e.spec.rules x there known)

  process_resource-Edits :
      (c : Controller) (dir : EgressDirector) (key : String) (e : StaticEgressIp) (node : Node)
      (x : Tables)
      → ((w : W) → (get_node_object h k "" w).0 ≡ ok node)
      → Keeps rules (get_node_object h k "")
      → c.traffic_director ≡ some dir
      → e.status.gateway_ip ≢ ""
      → AllKnown h L k quiet G e.namespace e.spec.rules
      → (e.status.gateway_node == "") ≡ false
      → (e.status.gateway_node == node.uid) ≡ false
      → Edits rules
          (λ _. ⊥)
          x
          (process_resource h k c key e)
          (all_added h L k quiet G e 0 e.spec.rules x)
  unfolding process_resource is_egress_gateway on_error ◌>>=◌
  process_resource-Edits c dir key e node x found silent there gateway known named other = record {
    at = λ w q.
        rw (named, found w, other)
          ((processing-Edits c dir e x there gateway known).at (get_node_object h k "" w).1
            (silent.at w ∙ q));
  }

  sync_handler_lem :
      (c : Controller) (key namespace name : String) (e : StaticEgressIp) (w : W)
      → k.split_key key ≡ some (namespace, name)
      → (k.get_egress_ip namespace name w).0 ≡ ok e
      → sync_handler h k c key w ≡ process_resource h k c key e (k.get_egress_ip namespace name w).1
  unfolding sync_handler find_egress_ip ◌>>=◌
  sync_handler_lem c key namespace name e w split listed = ground (arith, split, listed)

  -- On a host whose iptables calls do what they are documented to do and on which no call of
  -- iptables, ipset or a command fails, where the key names a resource that the lister has, with a
  -- gateway node that is not this one and a gateway address, and where the listers, which know the
  -- service of each of its rules, and the lookup of this node do not touch the rules: the sync of
  -- the key returns on a node whose director is set up, and the node then directs exactly the pairs
  -- of the resource's rules and those that it directed before.
  pub sync_handler_directs :
      (c : Controller) (dir : EgressDirector) (key namespace name : String) (e : StaticEgressIp)
      (node : Node) (w : W)
      → k.split_key key ≡ some (namespace, name)
      → (k.get_egress_ip namespace name w).0 ≡ ok e
      → Keeps rules (k.get_egress_ip namespace name)
      → ((v : W) → (get_node_object h k "" v).0 ≡ ok node)
      → Keeps rules (get_node_object h k "")
      → c.traffic_director ≡ some dir
      → e.status.gateway_node ≢ ""
      → e.status.gateway_node ≢ node.uid
      → e.status.gateway_ip ≢ ""
      → AllKnown h L k quiet G e.namespace e.spec.rules
      → ((sync_handler h k c key w).0 ≡ ok tt)
        × ((s d : String)
            → directed (rules (sync_handler h k c key w).1) s d
              ≡ (is_pair h e s d || directed (rules w) s d))
  sync_handler_directs c dir key namespace name e node w split listed still found silent there named
        other gateway known =
      let w' = (k.get_egress_ip namespace name w).1 in
      let x = all_added h L k quiet G e 0 e.spec.rules (rules w) in
      let total : ((process_resource h k c key e w').0 ≡ ok tt)
          × (rules (process_resource h k c key e w').1 ≡ x) =
        After-total rules x _ _ (
          (process_resource-Edits c dir key e node (rules w) found silent there gateway known
              (ground (arith, eq_iff e.status.gateway_node ""))
              (ground (arith, eq_iff e.status.gateway_node node.uid))).at
            w' (still.at w)) in
      rw (sync_handler_lem c key namespace name e w split listed) (
        total.0,
        λ s d.
            ap (λ (y : Tables). directed y s d) total.1
            ∙ directed-all_added h L k quiet G e 0 e.spec.rules (rules w) s d,
      )
