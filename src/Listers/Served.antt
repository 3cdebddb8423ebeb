-- ===== src/Listers/Served.antt =====
-- A round of a worker of pkg/controller/controller.go, from the key on the queue to the rules of a
-- director: the queue, the keys, the lister and the sync together.
use kube_static_egress_ip.Prelude.{
  ◌≡◌, ◌≢◌, refl, sym, ap, ◌∙◌, String, true, false, ◌||◌, Option, none, some, eq_iff, arith,
}
use kube_static_egress_ip.Prelude.Text.{◌<>◌}
use kube_static_egress_ip.Effect.{ok, not_found, M, pure, fail, panic, ◌>>=◌, attempt}
use kube_static_egress_ip.Effect.Deferred.{with_deferred}
use kube_static_egress_ip.Effect.Keeps.{Keeps, Keeps-bind, Keeps-pure}
use kube_static_egress_ip.Api.{Node, StaticEgressIp}
use kube_static_egress_ip.Registration.{resource}
use kube_static_egress_ip.Host.{Host}
use kube_static_egress_ip.Host.Rules.{Tables, IptablesLaws}
use kube_static_egress_ip.Host.Reliable.{IsReliable}
use kube_static_egress_ip.Cluster.{Cluster, Item, key}
use kube_static_egress_ip.Utils.{get_node_object}
use kube_static_egress_ip.Director.{EgressDirector}
use kube_static_egress_ip.Director.Directed.{directed}
use kube_static_egress_ip.Controller.{Controller, sync_handler}
use kube_static_egress_ip.Controller.Directing.{is_pair}
use kube_static_egress_ip.Controller.Directing.Total.{AllKnown}
use kube_static_egress_ip.Controller.Directing.Synced.{sync_handler_directs}
use kube_static_egress_ip.Controller.Queue.{process_item, process_next_work_item}
use kube_static_egress_ip.Listers.{
  Object, egress_ip, foreign, bad_assertion, Indexer, get, with_lister,
}
use kube_static_egress_ip.Listers.Queued.{meta_key, has_slash, KeyLaws, StoreLaws, listed}

module _ {W : Type 0} (h : Host W) (L : IptablesLaws h) (k : Cluster W) where
  open L use {rules}
  open k use {queue_get, queue_done, queue_forget}

  -- A work queue whose calls touch no rule, and return when it is told of an item.
  pub record QueueKeeps : Type 0 where
    pub get-keeps : Keeps rules queue_get
    pub done-keeps : (i : Item) → Keeps rules (queue_done i)
    pub forget-keeps : (i : Item) → Keeps rules (queue_forget i)
    pub done_ok : (i : Item) (w : W) → (queue_done i w).0 ≡ ok tt
    pub forget_ok : (i : Item) (w : W) → (queue_forget i w).0 ≡ ok tt

  -- A round of a worker whose sync returns.
  successful_round :
      (Q : QueueKeeps) (c : Controller) (s : String) (w : W)
      → (queue_get w).0 ≡ ok (some (key s))
      → (sync_handler h k c s (queue_get w).1).0 ≡ ok tt
      → ((process_next_work_item h k c w).0 ≡ ok true)
        × (rules (process_next_work_item h k c w).1
            ≡ rules (sync_handler h k c s (queue_get w).1).1)
  unfolding process_next_work_item process_item with_deferred attempt ◌>>=◌
  successful_round Q c s w got synced =
      let w' = (sync_handler h k c s (queue_get w).1).1 in
      ground (
        arith,
        got,
        synced,
        Q.forget_ok (key s) w',
        (Q.forget-keeps (key s)).at w',
        Q.done_ok (key s) (queue_forget (key s) w').1,
        (Q.done-keeps (key s)).at (queue_forget (key s) w').1,
      )

module _ {W : Type 0} (h : Host W) (L : IptablesLaws h) (k : Cluster W) (K : KeyLaws k)
    (ix : Indexer W) (S : StoreLaws ix) where
  open L use {rules}
  open S use {stored}

  stored_lem :
      (e : StaticEgressIp) (w : W)
      → e.namespace ≢ ""
      → stored w (meta_key e) ≡ some (egress_ip e)
      → (listed k ix).get_egress_ip e.namespace e.name w ≡ (ok e, w)
  unfolding with_lister get ◌>>=◌
  stored_lem e w named there =
      let both : meta_key e ≡ e.namespace <> "/" <> e.name =
        ground (arith, eq_iff e.namespace "") in
      rw (get, S.get_by_key_lem (e.namespace <> "/" <> e.name) w, ap (stored w) (sym both) ∙ there)
        refl

  answered-Keeps :
      (namespace name : String) (o : Option Object)
      → let m : M W StaticEgressIp = elim o [
        | none ↦ fail (not_found (ix.not_found_text (resource "staticegressip") name))
        | some (egress_ip e) ↦ pure e
        | some foreign ↦ panic bad_assertion
      ] in
        Keeps rules m
  answered-Keeps namespace name none = record { at = λ w. refl }
  answered-Keeps namespace name (some (egress_ip e)) = Keeps-pure e
  answered-Keeps namespace name (some foreign) = record { at = λ w. refl }

  get-Keeps : (namespace name : String) → Keeps rules ((listed k ix).get_egress_ip namespace name)
  unfolding with_lister get
  get-Keeps namespace name =
      Keeps-bind
        (record { at = λ w. ap (λ r. rules r.1) (S.get_by_key_lem (namespace <> "/" <> name) w) })
        (answered-Keeps namespace name)

  split_lem :
      (e : StaticEgressIp)
      → e.namespace ≢ ""
      → has_slash e.namespace ≡ false
      → has_slash e.name ≡ false
      → (listed k ix).split_key (meta_key e) ≡ some (e.namespace, e.name)
  unfolding with_lister
  split_lem e named plain_namespace plain_name =
      let both : meta_key e ≡ e.namespace <> "/" <> e.name =
        ground (arith, eq_iff e.namespace "") in
      ap k.split_key both ∙ K.split_key_lem e.namespace e.name plain_namespace plain_name

  module _ (quiet : (n s : String) → Keeps rules ((listed k ix).get_endpoints n s))
      (G : IsReliable h) (Q : QueueKeeps h L (listed k ix)) where
    -- On a host whose iptables calls do what they are documented to do and on which no call of
    -- iptables, ipset or a command fails, with keys as client-go documents them, a work queue whose
    -- calls return, a store that a lookup does not change, a lister that knows the services of the
    -- rules of a resource, and a lookup that finds this node, none of which touches the rules: a
    -- worker that takes the key of a resource off the queue, where the store holds the resource
    -- under that key, with a namespace, no slash in that or in its name, a gateway node that is not
    -- this one and a gateway address, finishes its round and goes on, and on a node whose director
    -- is set up exactly the pairs of the resource's rules are then directed, and those that were
    -- before.
    pub worker_directs :
        (c : Controller) (dir : EgressDirector) (e : StaticEgressIp) (node : Node) (w : W)
        → e.namespace ≢ ""
        → has_slash e.namespace ≡ false
        → has_slash e.name ≡ false
        → ((listed k ix).queue_get w).0 ≡ ok (some (key (meta_key e)))
        → stored ((listed k ix).queue_get w).1 (meta_key e) ≡ some (egress_ip e)
        → ((v : W) → (get_node_object h (listed k ix) "" v).0 ≡ ok node)
        → Keeps rules (get_node_object h (listed k ix) "")
        → c.traffic_director ≡ some dir
        → e.status.gateway_node ≢ ""
        → e.status.gateway_node ≢ node.uid
        → e.status.gateway_ip ≢ ""
        → AllKnown h L (listed k ix) quiet G e.namespace e.spec.rules
        → let r = process_next_work_item h (listed k ix) c w in
          (r.0 ≡ ok true)
          × ((s d : String)
              → directed (rules r.1) s d ≡ (is_pair h e s d || directed (rules w) s d))
    worker_directs c dir e node w named plain_namespace plain_name got there found silent set named'
          other gateway known =
        let v = ((listed k ix).queue_get w).1 in
        let (synced, directs) =
          sync_handler_directs h L (listed k ix) quiet G c dir (meta_key e) e.namespace e.name e
            node v (split_lem e named plain_namespace plain_name)
            (ap (λ r. r.0) (stored_lem e v named there)) (get-Keeps e.namespace e.name) found silent
            set named' other gateway known in
        let (goes_on, same) = successful_round h L (listed k ix) Q c (meta_key e) w got synced in
        (
          goes_on,
          λ s d.
              ap (λ (x : Tables). directed x s d) same
              ∙ directs s d
              ∙ ap (λ (x : Tables). is_pair h e s d || directed x s d) (Q.get-keeps.at w),
        )
