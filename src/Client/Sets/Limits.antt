-- ===== src/Client/Sets/Limits.antt =====
-- The rate limiter of the two clients that pkg/client/clientset/versioned/clientset.go makes, and
-- what the variants that panic have in common with those that return an error.
use kube_static_egress_ip.Prelude.{
  ℕ, ◌≡◌, refl, sym, ap, fun_ext, ◌∙◌, Bool, true, false, ◌&&◌, Option, none, some, List, [], ◌∷◌,
  ◌++◌,
}
use kube_static_egress_ip.Effect.{Outcome, ok, err, panicked, exited, M, pure, ◌>>=◌}
use kube_static_egress_ip.Effect.Keeps.{Keeps, Keeps-bind, Keeps-pure}
use kube_static_egress_ip.Client.Sets.{
  Config, Machinery, is_none, or_die, set_config_defaults, typed_for_config,
  typed_for_config_or_die, Clientset, with_rate_limiter, new_for_config, new_for_config_or_die,
}

module _ {W : Type 0} where
  -- Giving up after the steps of a block is giving up after each of them.
  or_die-bind :
      {A B : Type 0} (m : M W A) (f : A → M W B) (w : W)
      → or_die (m >>= f) w ≡ (or_die m >>= λ a. or_die (f a)) w
  unfolding or_die ◌>>=◌
  or_die-bind {A} {B} m f w = go (m w).0 (m w).1
    where
      go :
          (o : Outcome A) (v : W)
          → or_die ((λ _. (o, v)) >>= f) w ≡ (or_die (λ _. (o, v)) >>= λ a. or_die (f a)) w
      go (ok a) v = refl
      go (err e) v = refl
      go (panicked x) v = refl
      go (exited x) v = refl

module _ {R Q S O W : Type 0} (c : Machinery R Q S O W) where
  -- No rate limiter is to be made.
  abbrev pub IsLimited : Config R Q S O → Type 0
  IsLimited config = (is_none config.rate_limiter && c.is_positive config.qps) ≡ false

  -- The steps after the copy of the config.
  made : Config R Q S O → M W (Clientset c)
  made config = do
    typed ← typed_for_config c config
    discovery ← c.new_discovery_client_for_config config
    pure (record { discovery_client = discovery; staticegressips_v1alpha1 = typed })

  or_die-made : (config : Config R Q S O) → new_for_config_or_die c config ≡ or_die (made config)
  unfolding made new_for_config_or_die typed_for_config_or_die ◌>>=◌ or_die
  or_die-made config = sym (
      fun_ext (or_die-bind (typed_for_config c config) _)
      ∙ ap (λ f. or_die (typed_for_config c config) >>= f)
          (fun_ext λ typed. fun_ext (or_die-bind (c.new_discovery_client_for_config config) _)))

  limited_lem :
      (config : Config R Q S O) (w : W)
      → IsLimited config
      → new_for_config c config w ≡ made config w
  unfolding made new_for_config with_rate_limiter ◌>>=◌
  limited_lem config w limited = rw limited refl

  -- With a config whose rate limiter is set or not wanted, the clientset of NewForConfigOrDie is
  -- that of NewForConfig, made by the same calls; and where NewForConfig returns an error
  -- NewForConfigOrDie panics with its text.
  pub new_for_config_or_die_lem :
      (config : Config R Q S O) (w : W)
      → IsLimited config
      → new_for_config_or_die c config w ≡ or_die (new_for_config c config) w
  unfolding or_die
  new_for_config_or_die_lem config w limited =
      rw (or_die-made config, limited_lem config w limited) refl

-- A client is made, from the config that is given, which can be read off it.
pub record Makes {A C W : Type 0} (config_of : A → C) (m : M W A) (config : C) : Type 0 where
  pub at : (w : W) → (a : A) × (v : W) × ((m w ≡ (ok a, v)) × (config_of a ≡ config))

module _ {R Q S O W : Type 0} (c : Machinery R Q S O W) where
  -- The world keeps the rate limiters that have been made: each call of the constructor returns one
  -- more, of the rate and the burst that it is given. A client that is made from a config with a
  -- rate limiter makes none of its own; what others make is not said.
  pub record MachineryLaws : Type 0 where
    pub limiters : W → List R
    pub rate_of : R → Q × ℕ
    pub rest_config : c.RestClient → Config R Q S O
    pub discovery_config : c.Discovery → Config R Q S O
    pub rest-Makes : (config : Config R Q S O) → Makes rest_config (c.rest_client_for config) config
    pub rest-Keeps :
        (config : Config R Q S O) (l : R)
        → config.rate_limiter ≡ some l
        → Keeps limiters (c.rest_client_for config)
    pub discovery-Makes :
        (config : Config R Q S O)
        → Makes discovery_config (c.new_discovery_client_for_config config) config
    pub discovery-Keeps :
        (config : Config R Q S O) (l : R)
        → config.rate_limiter ≡ some l
        → Keeps limiters (c.new_discovery_client_for_config config)
    pub limiter_made :
        (q : Q) (b : ℕ) (w : W)
        → (l : R) × (v : W) × ((c.new_token_bucket_rate_limiter q b w ≡ (ok l, v))
            × (rate_of l ≡ (q, b))
            × (limiters v ≡ limiters w ++ l ∷ []))

module _ {R Q S O W : Type 0} (c : Machinery R Q S O W) (L : MachineryLaws c) where
  open L use {limiters, rate_of, rest_config, discovery_config}

  abbrev with_limiter : R → Config R Q S O → Config R Q S O
  with_limiter l config = record config { rate_limiter = some l }

  -- A clientset is returned, with both clients made from the config.
  abbrev pub MadeFrom : Config R Q S O → Outcome (Clientset c) → Type 0
  MadeFrom config (ok cs) =
      (discovery_config cs.discovery_client ≡ config)
      × (rest_config cs.staticegressips_v1alpha1.rest_client ≡ set_config_defaults c config)
  MadeFrom config _ = ⊥

  -- A call that returns a clientset, by the rate limiter that the config sets and whether its rate
  -- is positive: without a limiter and with a rate, one is made, and both clients have that one.
  abbrev pub Shares : Option R → Bool → Config R Q S O → W → Outcome (Clientset c) × W → Type 0
  Shares (some l) b config w (o, v) = (limiters v ≡ limiters w) × MadeFrom config o
  Shares none true config w (o, v) =
      (l : R) × ((rate_of l ≡ (config.qps, config.burst))
        × (limiters v ≡ limiters w ++ l ∷ [])
        × MadeFrom (record config { rate_limiter = some l }) o)
  Shares none false config w (o, v) = MadeFrom config o

  unlimited_lem :
      (config : Config R Q S O) (l : R) (w v : W)
      → (is_none config.rate_limiter && c.is_positive config.qps) ≡ true
      → c.new_token_bucket_rate_limiter config.qps config.burst w ≡ (ok l, v)
      → new_for_config c config w ≡ made c (with_limiter l config) v
  unfolding made new_for_config with_rate_limiter ◌>>=◌
  unlimited_lem config l w v wanted e = rw (wanted, e) refl

  made-MadeFrom : (config : Config R Q S O) (w : W) → MadeFrom config (made c config w).0
  unfolding made typed_for_config ◌>>=◌
  made-MadeFrom config w =
      let (a, v, (e, p)) = (L.rest-Makes (set_config_defaults c config)).at w in
      let (d, v', (e', p')) = (L.discovery-Makes config).at v in rw (e, e') (p', p)

  made-Keeps :
      (config : Config R Q S O) (l : R)
      → config.rate_limiter ≡ some l
      → Keeps limiters (made c config)
  unfolding made typed_for_config set_config_defaults
  made-Keeps config l e =
      Keeps-bind (Keeps-bind (L.rest-Keeps (set_config_defaults c config) l e) (λ _. Keeps-pure _))
        λ _. Keeps-bind (L.discovery-Keeps config l e) (λ _. Keeps-pure _)

  -- Whether NewForConfig makes a limiter, by the limiter that the config sets.
  wanted_lem :
      (config : Config R Q S O) (r : Option R) (b : Bool)
      → r ≡ config.rate_limiter
      → b ≡ c.is_positive config.qps
      → (is_none config.rate_limiter && c.is_positive config.qps) ≡ (is_none r && b)
  wanted_lem config r b e p = rw (e, p) refl

  made-Shares :
      (config : Config R Q S O) (w : W) (r : Option R) (b : Bool)
      → r ≡ config.rate_limiter
      → b ≡ c.is_positive config.qps
      → Shares r b config w (new_for_config c config w)
  made-Shares config w (some l) b e p =
      rw (limited_lem c config w (wanted_lem config (some l) b e p))
        ((made-Keeps config l (sym e)).at w, made-MadeFrom config w)
  made-Shares config w none true e p =
      let (l, v, (q, rate, log)) = L.limiter_made config.qps config.burst w in
      rw (unlimited_lem config l w v (wanted_lem config none true e p) q) (
        l,
        (
          rate,
          (made-Keeps (with_limiter l config) l refl).at v ∙ log,
          made-MadeFrom (with_limiter l config) v,
        ),
      )
  made-Shares config w none false e p =
      rw (limited_lem c config w (wanted_lem config none false e p)) (made-MadeFrom config w)

  -- Where a REST client, a discovery client and a rate limiter are made from what they are given
  -- and returned, the clients without making a rate limiter if their config has one: NewForConfig
  -- returns a clientset whose two clients have the same config but for the defaults of the group.
  -- If the config sets no rate limiter and its rate is positive, exactly one limiter is made, of
  -- the config's rate and burst, and both clients have it; if the config sets one, none is made,
  -- and both have that one; if it sets none and its rate is not positive, both are made without
  -- one.
  pub new_for_config-MadeFrom :
      (config : Config R Q S O) (w : W)
      → Shares config.rate_limiter (c.is_positive config.qps) config w (new_for_config c config w)
  new_for_config-MadeFrom config w =
      made-Shares config w config.rate_limiter (c.is_positive config.qps) refl refl
