-- ===== src/Manager/Election/Ends.antt =====
-- How GatewayManager.Run of pkg/ha/gateway_manager.go ends.
use kube_static_egress_ip.Prelude.{◌≡◌, refl, ◌∙◌, String, Bool, true, false, Option, none, some}
use kube_static_egress_ip.Prelude.Text.{contains}
use kube_static_egress_ip.Effect.Edits.{Returns}
use kube_static_egress_ip.Effect.{
  Error, text, Outcome, ok, err, panicked, exited, M, continue, ◌>>=◌, Settles,
}
use kube_static_egress_ip.Effect.Deferred.{finish, with_deferred}
use kube_static_egress_ip.Host.{Host}
use kube_static_egress_ip.Cluster.{Cluster}
use kube_static_egress_ip.Manager.Election.{
  Elector, shutting_down, says_shutting_down, prepare, campaign, verify, manager_run,
}

module _ {W : Type 0} (el : Elector W) where
  open el use {
    RestConfig, CoreClient, core_client_or_die, wrap_with_canceller, cancel, get_config_map,
  }

  -- An answer is an error whose text has the given one in it.
  abbrev pub carries : String → Option Error → Bool
  carries t none = false
  carries t (some e) = contains (text e) t

  -- The context, and the configs and clients whose requests end with it: a config is given the text
  -- of the error by the wrapper alone, and a client has that of its config. A request of a client
  -- with a text returns: with an error of that text if the context has been cancelled, and else
  -- with no error or one that does not have the text. Of other clients nothing is known.
  pub record ContextLaws : Type 0 where
    pub cancelled : W → Bool
    pub cancel_ok : (w : W) → (cancel w).0 ≡ ok tt
    pub cancel_cancels : (w : W) → cancelled (cancel w).1 ≡ true
    pub config_text : RestConfig → Option String
    pub client_text : CoreClient → Option String
    pub wrap_marks :
        (config : RestConfig) (t : String) (w : W)
        → Returns (λ c. config_text c ≡ some t) (wrap_with_canceller config t w).0
    pub client_marks :
        (config : RestConfig) (w : W)
        → Returns (λ c. client_text c ≡ config_text config) (core_client_or_die config w).0
    pub get_answers :
        (c : CoreClient) (t namespace name : String) (w : W)
        → client_text c ≡ some t
        → (e : Option Error) × (v : W) × ((get_config_map c namespace name w ≡ (ok e, v))
            × (carries t e ≡ cancelled w))

Returns-any : {A : Type 0} (r : Outcome A) → Returns (λ _. Unit) r
Returns-any (ok a) = tt
Returns-any (err e) = tt
Returns-any (panicked m) = tt
Returns-any (exited m) = tt

-- What holds of each value that an action returns.
record Gives {W A : Type 0} (R : A → Type 0) (m : M W A) : Type 0 where
  at : (w : W) → Returns R (m w).0

module _ {W : Type 0} where
  continue-Gives :
      {A B : Type 0} (Q : A → Type 0) (R : B → Type 0) (f : A → M W B) (r : Outcome A) (w : W)
      → Returns Q r
      → ((a : A) → Q a → Gives R (f a))
      → Returns R (continue r f w).0
  continue-Gives Q R f (ok a) w q rest = (rest a q).at w
  continue-Gives Q R f (err e) w q rest = tt
  continue-Gives Q R f (panicked m) w q rest = tt
  continue-Gives Q R f (exited m) w q rest = tt

  Gives-bind :
      {A B : Type 0} (Q : A → Type 0) {R : B → Type 0} {m : M W A} {f : A → M W B}
      → Gives Q m
      → ((a : A) → Q a → Gives R (f a))
      → Gives R (m >>= f)
  unfolding ◌>>=◌
  Gives-bind Q {R} {m} {f} first rest = record {
    at = λ w. continue-Gives Q R f (m w).0 (m w).1 (first.at w) rest;
  }

  Gives-any : {A : Type 0} {m : M W A} → Gives (λ _. Unit) m
  Gives-any {A} {m} = record { at = λ w. Returns-any (m w).0 }

-- How Run ends, by how the election has ended, and by whether the context was cancelled then.
abbrev pub Verdict : {A : Type 0} → Outcome A → Bool → Outcome (Unit {0}) → Type 0
Verdict (ok a) true r = r ≡ ok tt
Verdict (ok a) false r = (m : String) × (r ≡ exited m)
Verdict (err e) b r = r ≡ err e
Verdict (panicked m) b r = r ≡ panicked m
Verdict (exited m) b r = r ≡ exited m

module _ {W : Type 0} (h : Host W) (k : Cluster W) (el : Elector W) (L : ContextLaws el) where
  open L use {cancelled}

  -- A client that the campaign returns has the text that the check looks for.
  IsMarked : el.CoreClient → Type 0
  IsMarked c = L.client_text c ≡ some shutting_down

  campaign-IsMarked :
      (p : el.RestConfig × String × el.CoreClient) → Gives IsMarked (campaign h k el p)
  unfolding campaign IsMarked
  campaign-IsMarked (config, id, client) =
      Gives-bind (λ wrapped. L.config_text wrapped ≡ some shutting_down)
        (record { at = L.wrap_marks config shutting_down })
        λ wrapped marked.
          Gives-bind (λ example. L.client_text example ≡ L.config_text wrapped)
            (record { at = L.client_marks wrapped })
            λ example same.
              Gives-bind (λ _. Unit) Gives-any
                λ _ _. Gives-bind (λ _. Unit) Gives-any λ _ _. record { at = λ w. same ∙ marked }

  says-carries : (e : Option Error) → says_shutting_down e ≡ carries el shutting_down e
  unfolding says_shutting_down
  says-carries none = refl
  says-carries (some e) = refl

  -- The end of Run, from the outcome of the election.
  concluded : String → Outcome el.CoreClient → M W (Unit {0})
  concluded id r w = let (r', w') = continue r (verify h k el id) w in finish r' el.cancel w'

  verified :
      (id : String) (c : el.CoreClient) (w : W) (b : Bool)
      → IsMarked c
      → cancelled w ≡ b
      → Verdict (ok c) b (concluded id (ok c) w).0
        × (Settles (concluded id (ok c) w).0 → cancelled (concluded id (ok c) w).1 ≡ true)
  unfolding concluded verify finish ◌>>=◌ IsMarked
  verified id c w true marked q =
      let (e, v, (g, s)) = L.get_answers c shutting_down "kube-system" "le" w marked in
      rw (verify, g, says-carries e, s, q, L.cancel_ok v) (refl, λ _. L.cancel_cancels v)
  verified id c w false marked q =
      let (e, v, (g, s)) = L.get_answers c shutting_down "kube-system" "le" w marked in
      rw (verify, g, says-carries e, s, q) ((_, refl), λ n. absurd n)

  concluded-Verdict :
      (id : String) (r : Outcome el.CoreClient) (w : W)
      → Returns IsMarked r
      → Verdict r (cancelled w) (concluded id r w).0
        × (Settles (concluded id r w).0 → cancelled (concluded id r w).1 ≡ true)
  unfolding concluded finish
  concluded-Verdict id (ok c) w marked = verified id c w (cancelled w) marked refl
  concluded-Verdict id (err e) w marked = rw (L.cancel_ok w) (refl, λ _. L.cancel_cancels w)
  concluded-Verdict id (panicked m) w marked = rw (L.cancel_ok w) (refl, λ _. L.cancel_cancels w)
  concluded-Verdict id (exited m) w marked = (refl, λ n. absurd n)

  -- Where the clients of the election can be made, and with a context whose cancellation makes the
  -- requests of the clients made from a wrapped config fail with the error of the wrapper: Run
  -- returns without an error if the election returns after the context has been cancelled; if it
  -- returns before, as when the lease is lost, the process exits; and if the election ends
  -- otherwise Run ends the same way. Where Run returns, the context is cancelled.
  pub manager_run_ends :
      (p : el.RestConfig × String × el.CoreClient) (w v : W)
      → prepare h k el w ≡ (ok p, v)
      → let (r, u) = campaign h k el p v in
        let (o, x) = manager_run h k el w in
        Verdict r (cancelled u) o × (Settles o → cancelled x ≡ true)
  unfolding manager_run with_deferred ◌>>=◌ concluded
  manager_run_ends p w v ready = rw ready (
      concluded-Verdict p.1 (campaign h k el p v).0 (campaign h k el p v).1
        ((campaign-IsMarked p).at v))
