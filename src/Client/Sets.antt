-- ===== src/Client/Sets.antt =====
-- The construction of the clients: pkg/client/clientset/versioned/clientset.go and
-- typed/egressip/v1alpha1/egressip_client.go. The REST client, the discovery client and the rate
-- limiter of client-go are parameters.
pub mod Limits
use kube_static_egress_ip.Prelude.{ℕ, String, Bool, ◌&&◌, Option, none, some, ◌==◌, if◌then◌else◌}
use kube_static_egress_ip.Effect.{
  Error, text, Outcome, ok, err, panicked, exited, M, pure, panic, ◌>>=◌,
}
use kube_static_egress_ip.Registration.{GroupVersion, scheme_group_version}

-- rest.Config: the fields that the program reads or writes, and all others. R are rate limiters, Q
-- the type of QPS, S serializers and O the other fields.
pub record Config (R Q S O : Type 0) : Type 0 where
  pub group_version : Option GroupVersion
  pub api_path : String
  pub negotiated_serializer : Option S
  pub user_agent : String
  pub qps : Q
  pub burst : ℕ
  pub rate_limiter : Option R
  pub others : O

-- rest, discovery, flowcontrol and serializer of client-go and of the API machinery.
pub record Machinery (R Q S O W : Type 0) : Type 1 where
  pub RestClient : Type 0
  pub Discovery : Type 0
  pub is_positive : Q → Bool
  pub new_token_bucket_rate_limiter : Q → ℕ → M W R
  pub rest_client_for : Config R Q S O → M W RestClient
  pub new_discovery_client_for_config : Config R Q S O → M W Discovery
  pub new_discovery_client : RestClient → M W Discovery
  pub default_user_agent : String
  pub direct_codecs : S

abbrev pub is_none : {A : Type 0} → Option A → Bool
is_none none = Bool.true
is_none (some a) = Bool.false

-- client, err := m; if err != nil { panic(err) }
abbrev or_die_of : {A : Type 0} → Outcome A → Outcome A
or_die_of (ok a) = ok a
or_die_of (err e) = panicked (text e)
or_die_of (panicked m) = panicked m
or_die_of (exited m) = exited m

unfoldable pub or_die : {W A : Type 0} → M W A → M W A
or_die m w = let (r, w') = m w in (or_die_of r, w')

module _ {R Q S O W : Type 0} (c : Machinery R Q S O W) where
  open c use {
    RestClient, Discovery, is_positive, new_token_bucket_rate_limiter, rest_client_for,
    new_discovery_client_for_config, new_discovery_client, default_user_agent, direct_codecs,
  }

  -- setConfigDefaults
  unfoldable pub set_config_defaults : Config R Q S O → Config R Q S O
  set_config_defaults config = record config {
    group_version = some scheme_group_version;
    api_path = "/apis";
    negotiated_serializer = some direct_codecs;
    user_agent = if config.user_agent == "" then default_user_agent else config.user_agent;
  }

  -- The typed client of the group: NewForConfig, NewForConfigOrDie and New.
  pub record TypedClient : Type 0 where
    pub rest_client : RestClient

  unfoldable pub typed_for_config : Config R Q S O → M W TypedClient
  unfolding set_config_defaults
  typed_for_config config = do
    client ← rest_client_for (set_config_defaults config)
    pure (record { rest_client = client })

  unfoldable pub typed_for_config_or_die : Config R Q S O → M W TypedClient
  typed_for_config_or_die config = or_die (typed_for_config config)

  unfoldable pub typed_new : RestClient → TypedClient
  typed_new client = record { rest_client = client }

  -- RESTClient(), of a pointer that may be nil.
  unfoldable pub rest_client_of : Option TypedClient → Option RestClient
  rest_client_of none = none
  rest_client_of (some t) = some t.rest_client

  pub record Clientset : Type 0 where
    pub discovery_client : Discovery
    pub staticegressips_v1alpha1 : TypedClient

  -- Discovery(), of a pointer that may be nil.
  unfoldable pub discovery_of : Option Clientset → Option Discovery
  discovery_of none = none
  discovery_of (some cs) = some cs.discovery_client

  -- The copy of the config, with a rate limiter where one is wanted and none is set.
  unfoldable pub with_rate_limiter : Config R Q S O → M W (Config R Q S O)
  with_rate_limiter config =
      if is_none config.rate_limiter && is_positive config.qps
      then (new_token_bucket_rate_limiter config.qps config.burst >>= λ limiter.
          pure (record config { rate_limiter = some limiter }))
      else pure config

  unfoldable pub new_for_config : Config R Q S O → M W Clientset
  unfolding with_rate_limiter
  new_for_config config = do
    copied ← with_rate_limiter config
    typed ← typed_for_config copied
    discovery ← new_discovery_client_for_config copied
    pure (record { discovery_client = discovery; staticegressips_v1alpha1 = typed })

  unfoldable pub new_for_config_or_die : Config R Q S O → M W Clientset
  new_for_config_or_die config = do
    typed ← typed_for_config_or_die config
    discovery ← or_die (new_discovery_client_for_config config)
    pure (record { discovery_client = discovery; staticegressips_v1alpha1 = typed })

  unfoldable pub new_clientset : RestClient → M W Clientset
  new_clientset client = do
    discovery ← new_discovery_client client
    pure (record { discovery_client = discovery; staticegressips_v1alpha1 = typed_new client })
