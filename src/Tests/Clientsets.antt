-- ===== src/Tests/Clientsets.antt =====
-- The construction of clients that are their configs.
use kube_static_egress_ip.Prelude.{
  ℕ, ◌≡◌, refl, String, true, none, List, [], ◌∷◌, ◌++◌, length, ltb,
}
use kube_static_egress_ip.Effect.{ok, plain, panicked, pure, fail, ◌>>=◌}
use kube_static_egress_ip.Client.Sets.{
  Config, Machinery, or_die, new_for_config, new_for_config_or_die, typed_for_config,
  typed_for_config_or_die,
}
use kube_static_egress_ip.Client.Sets.Limits.{
  MachineryLaws, Shares, new_for_config-MadeFrom, new_for_config_or_die_lem,
}

-- A rate limiter: its number, its rate and its burst.
abbrev pub Limiter : Type 0
Limiter = ℕ × ℕ × ℕ

abbrev Configured : Type 0
Configured = Config Limiter ℕ String (Unit {0})

-- The world is the list of the rate limiters.
abbrev pub machinery : Machinery Limiter ℕ String (Unit {0}) (List Limiter)
machinery = record {
  RestClient = Configured;
  Discovery = Configured;
  is_positive = λ q. ltb 0 q;
  new_token_bucket_rate_limiter = λ q b w. (ok (length w, q, b), w ++ (length w, q, b) ∷ []);
  rest_client_for = λ config. pure config;
  new_discovery_client_for_config = λ config. pure config;
  new_discovery_client = λ client. pure client;
  default_user_agent = "kubernetes";
  direct_codecs = "codecs";
}

abbrev machinery_laws : MachineryLaws machinery
machinery_laws = record {
  limiters = λ w. w;
  rate_of = λ l. (l.1, l.2);
  rest_config = λ client. client;
  discovery_config = λ client. client;
  rest-Makes = λ config. record { at = λ w. (config, w, (refl, refl)) };
  discovery-Makes = λ config. record { at = λ w. (config, w, (refl, refl)) };
  rest-Keeps = λ config l e. record { at = λ w. refl };
  discovery-Keeps = λ config l e. record { at = λ w. refl };
  limiter_made = λ q b w. ((length w, q, b), w ++ (length w, q, b) ∷ [], (refl, refl, refl));
}

abbrev pub twenty : Configured
twenty = record {
  group_version = none;
  api_path = "";
  negotiated_serializer = none;
  user_agent = "";
  qps = 20;
  burst = 30;
  rate_limiter = none;
  others = tt;
}

new_for_config-MadeFrom_example :
    Shares machinery machinery_laws none true twenty [] (new_for_config machinery twenty [])
new_for_config-MadeFrom_example = new_for_config-MadeFrom machinery machinery_laws twenty []

-- No rate is asked for, and discovery fails.
abbrev offline : Machinery Limiter ℕ String (Unit {0}) (List Limiter)
offline = record machinery { new_discovery_client_for_config = λ config. fail (plain "no server") }

abbrev unlimited : Configured
unlimited = record twenty { qps = 0 }

new_for_config_or_die_lem_example :
    new_for_config_or_die offline unlimited [] ≡ or_die (new_for_config offline unlimited) []
new_for_config_or_die_lem_example = new_for_config_or_die_lem offline unlimited [] refl

dies : (new_for_config_or_die offline unlimited []).0 ≡ panicked "no server"
unfolding new_for_config_or_die typed_for_config_or_die typed_for_config or_die ◌>>=◌
dies = refl
