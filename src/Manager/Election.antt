-- ===== src/Manager/Election.antt =====
-- GatewayManager.Run of pkg/ha/gateway_manager.go: the leader election around the loop of a leader.
-- client-go's configs, clients and election, and the context that ends them, are parameters.
pub mod Ends
use kube_static_egress_ip.Prelude.{ℕ, String, Bool, true, Option, none, some, List, if◌then◌else◌}
use kube_static_egress_ip.Prelude.Text.{◌<>◌, contains}
use kube_static_egress_ip.Effect.{
  Error, plain, text, M, pure, fatal, ◌>>=◌, ◌>>◌, on_error, attempt,
}
use kube_static_egress_ip.Effect.Deferred.{with_deferred}
use kube_static_egress_ip.Host.{Host}
use kube_static_egress_ip.Cluster.{Cluster}
use kube_static_egress_ip.Manager.{Event, lead}

-- leaderelection.LeaderElectionConfig with its resourcelock.ConfigMapLock; C are clients of the
-- core API, and times are in seconds.
pub record ElectionConfig (C : Type 0) : Type 0 where
  pub lock_namespace : String
  pub lock_name : String
  pub client : C
  pub identity : String
  pub release_on_cancel : Bool
  pub lease_duration : ℕ
  pub renew_deadline : ℕ
  pub retry_period : ℕ

pub record Elector (W : Type 0) : Type 1 where
  pub RestConfig : Type 0
  pub CoreClient : Type 0
  -- rest.InClusterConfig, and kubernetes.NewForConfigOrDie(config).CoreV1()
  pub in_cluster_config : M W RestConfig
  pub core_client_or_die : RestConfig → M W CoreClient
  -- config.Wrap(transport.ContextCanceller(ctx, ...)), with the text of the error
  pub wrap_with_canceller : RestConfig → String → M W RestConfig
  -- cancel(), and the goroutine that calls it when stopCh is closed
  pub cancel : M W (Unit {0})
  pub go_cancel_on_stop : M W (Unit {0})
  -- leaderelection.RunOrDie: OnStartedLeading gets what its select will find
  pub run_or_die : ElectionConfig CoreClient → (List Event → M W Bool) → M W (Unit {0})
  -- ConfigMaps(namespace).Get(name), for its error
  pub get_config_map : CoreClient → String → String → M W (Option Error)

abbrev pub shutting_down : String
shutting_down = "the leader is shutting down"

abbrev pub election_of : {C : Type 0} → String → C → ElectionConfig C
election_of id client = record {
  lock_namespace = "kube-system";
  lock_name = "static-egress-ip-configmap";
  client = client;
  identity = id;
  release_on_cancel = true;
  lease_duration = 60;
  renew_deadline = 15;
  retry_period = 5;
}

-- err == nil || !strings.Contains(err.Error(), "the leader is shutting down"), negated
unfoldable pub says_shutting_down : Option Error → Bool
says_shutting_down none = Bool.false
says_shutting_down (some e) = contains (text e) shutting_down

abbrev error_text : Option Error → String
error_text none = "<nil>"
error_text (some e) = text e

module _ {W : Type 0} (h : Host W) (k : Cluster W) (el : Elector W) where
  open el use {
    RestConfig, CoreClient, in_cluster_config, core_client_or_die, wrap_with_canceller, cancel,
    go_cancel_on_stop, run_or_die, get_config_map,
  }

  -- Up to the context: the config, the identity and the client of the lock.
  unfoldable pub prepare : M W (RestConfig × String × CoreClient)
  prepare = do
    config ← on_error (λ e. plain ("failed to create client: " <> text e)) in_cluster_config
    id ← h.getenv "POD_IP"
    client ← core_client_or_die config
    pure (config, id, client)

  -- From the context to the end of the election: the client whose requests end with the context.
  unfoldable pub campaign : RestConfig × String × CoreClient → M W CoreClient
  campaign (config, id, client) = do
    wrapped ← wrap_with_canceller config shutting_down
    example ← core_client_or_die wrapped
    go_cancel_on_stop
    run_or_die (election_of id client) (lead h k)
    pure example

  -- A request after the election: unless it is refused the process exits.
  unfoldable pub verify : String → CoreClient → M W (Unit {0})
  verify id example = do
    e ← get_config_map example "kube-system" "le"
    if says_shutting_down e
        then pure tt
        else fatal
            (id <> ": expected to get an error when trying to make a client call: " <> error_text e)

  unfoldable pub manager_run : M W (Unit {0})
  manager_run = do p ← prepare; with_deferred cancel (campaign p >>= verify p.1)
