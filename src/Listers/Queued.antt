-- ===== src/Listers/Queued.antt =====
-- From the handlers to the workers: the key that a handler puts on the queue, split by the sync and
-- looked up by the lister.
use kube_static_egress_ip.Prelude.{
  ◌≡◌, ◌≢◌, refl, sym, ap, ◌∙◌, String, Bool, false, ◌||◌, Option, none, some, ◌==◌, eq_iff, arith,
  if◌then◌else◌,
}
use kube_static_egress_ip.Prelude.Text.{◌<>◌, one_char}
use kube_static_egress_ip.Effect.{ok, M, pure, panic, ◌>>=◌}
use kube_static_egress_ip.Api.{StaticEgressIp}
use kube_static_egress_ip.Host.{Host}
use kube_static_egress_ip.Cluster.{Cluster}
use kube_static_egress_ip.Listers.{
  Object, egress_ip, foreign, Indexer, bad_assertion, get, with_lister,
}
use kube_static_egress_ip.Controller.{Controller, find_egress_ip, process_resource, sync_handler}
use kube_static_egress_ip.Controller.Handlers.{enqueue_static_egress_ip}

-- cache.MetaNamespaceKeyFunc, as documented: namespace/name, and the name alone where there is no
-- namespace.
abbrev pub meta_key : StaticEgressIp → String
meta_key e = if e.namespace == "" then e.name else e.namespace <> "/" <> e.name

unfoldable pub has_slash : String → Bool
has_slash String.[] = false
has_slash (String.◌∷◌ c s) = one_char c == "/" || has_slash s

-- The keys of client-go: a text of two parts without a slash is split into them.
pub record KeyLaws {W : Type 0} (k : Cluster W) : Type 0 where
  pub key_of_lem : (e : StaticEgressIp) → k.key_of e ≡ some (meta_key e)
  pub split_key_lem :
      (namespace name : String)
      → has_slash namespace ≡ false
      → has_slash name ≡ false
      → k.split_key (namespace <> "/" <> name) ≡ some (namespace, name)

-- What the store holds by key; a lookup returns it and changes nothing.
pub record StoreLaws {W : Type 0} (ix : Indexer W) : Type 0 where
  pub stored : W → String → Option Object
  pub get_by_key_lem : (key : String) (w : W) → ix.get_by_key key w ≡ (ok (stored w key), w)

module _ {W : Type 0} (k : Cluster W) (ix : Indexer W) where
  abbrev pub listed : Cluster W
  listed = with_lister ix k

module _ {W : Type 0} (h : Host W) (k : Cluster W) (ix : Indexer W) where
  -- What a sync makes of what is stored under its key.
  unfoldable pub sync_of : Controller → String → Option Object → M W (Unit {0})
  sync_of c key none = pure tt
  sync_of c key (some (egress_ip e)) = process_resource h (listed k ix) c key e
  sync_of c key (some foreign) = panic bad_assertion

module _ {W : Type 0} (h : Host W) (k : Cluster W) (K : KeyLaws k) (ix : Indexer W)
    (S : StoreLaws ix) where
  open S use {stored}

  enqueue_lem :
      (e : StaticEgressIp)
      → enqueue_static_egress_ip h (listed k ix) e ≡ k.queue_add_rate_limited (meta_key e)
  unfolding enqueue_static_egress_ip with_lister
  enqueue_lem e =
      ap
        (λ o.
          let m : M W (Unit {0}) = elim o [
            | none ↦ pure tt
            | some key ↦ k.queue_add_rate_limited key
          ] in
          m)
        (K.key_of_lem e)

  sync_handler_lem :
      (c : Controller) (key namespace name : String) (w : W) (o : Option Object)
      → k.split_key key ≡ some (namespace, name)
      → stored w (namespace <> "/" <> name) ≡ o
      → sync_handler h (listed k ix) c key w ≡ sync_of h k ix c key o w
  unfolding sync_handler find_egress_ip with_lister get ◌>>=◌ sync_of
  sync_handler_lem c key namespace name w none split there =
      rw
        (
          sync_handler,
          split,
          find_egress_ip,
          get,
          S.get_by_key_lem (namespace <> "/" <> name) w,
          there,
        )
        refl
  sync_handler_lem c key namespace name w (some (egress_ip e)) split there =
      rw
        (
          sync_handler,
          split,
          find_egress_ip,
          get,
          S.get_by_key_lem (namespace <> "/" <> name) w,
          there,
        )
        refl
  sync_handler_lem c key namespace name w (some foreign) split there =
      rw
        (
          sync_handler,
          split,
          find_egress_ip,
          get,
          S.get_by_key_lem (namespace <> "/" <> name) w,
          there,
        )
        refl

  -- With keys as client-go documents them, a store that a lookup reads and does not change, and a
  -- resource with a namespace, in whose namespace and name is no slash: a handler that puts the
  -- resource on the queue adds one key, and the sync of that key processes the resource that the
  -- store holds under that key at that time; it does nothing if the store holds none, and panics
  -- without a change if the store holds an object of another type.
  pub sync-enqueue :
      (c : Controller) (e : StaticEgressIp) (w : W)
      → e.namespace ≢ ""
      → has_slash e.namespace ≡ false
      → has_slash e.name ≡ false
      → (enqueue_static_egress_ip h (listed k ix) e ≡ k.queue_add_rate_limited (meta_key e))
        × (sync_handler h (listed k ix) c (meta_key e) w
            ≡ sync_of h k ix c (meta_key e) (stored w (meta_key e)) w)
  sync-enqueue c e w named plain_namespace plain_name =
      let both : meta_key e ≡ e.namespace <> "/" <> e.name =
        ground (arith, eq_iff e.namespace "") in
      (
        enqueue_lem e,
        sync_handler_lem c (meta_key e) e.namespace e.name w (stored w (meta_key e))
            (ap k.split_key both ∙ K.split_key_lem e.namespace e.name plain_namespace plain_name)
            (ap (stored w) (sym both)),
      )
