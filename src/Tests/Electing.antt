-- ===== src/Tests/Electing.antt =====
-- An election that is ended by the cancellation of its context.
use mathlib.Core.Option.{map}
use text.Mathlib.TextLemmas.{append-nil}
use text.Mathlib.TextPositions.{starts_with_of_prefix}
use kube_static_egress_ip.Prelude.{
  ◌≡◌, refl, String, true, false, Option, none, some, [], ◌∷◌, Bool, if◌then◌else◌,
}
use kube_static_egress_ip.Prelude.Text.{contains}
use kube_static_egress_ip.Effect.{Error, Settles, ok, plain, pure, ◌>>=◌, on_error}
use kube_static_egress_ip.Manager.{tick, done}
use kube_static_egress_ip.Manager.Election.{Elector, prepare, campaign, manager_run}
use kube_static_egress_ip.Manager.Election.Ends.{carries, ContextLaws, Verdict, manager_run_ends}
use kube_static_egress_ip.Tests.Inert.{inert, empty_cluster}

-- Configs and clients are the text that they are given. The world says whether the context is
-- cancelled; the election ticks once and is then cancelled.
abbrev cancelling : Elector Bool
cancelling = record {
  RestConfig = Option String;
  CoreClient = Option String;
  in_cluster_config = pure none;
  core_client_or_die = λ config. pure config;
  wrap_with_canceller = λ config message. pure (some message);
  cancel = λ w. (ok tt, true);
  go_cancel_on_stop = pure tt;
  run_or_die = λ election leading w. (let (r, _) = leading (tick ∷ done ∷ []) w in (ok tt, true));
  get_config_map = λ c namespace name w. (ok (if w then map plain c else none), w);
}

contains_self : (t : String) → contains t t ≡ true
unfolding contains
contains_self String.[] = refl
contains_self (String.◌∷◌ c t) =
    let s = String.◌∷◌ c t in rw (starts_with_of_prefix s s ("", append-nil s)) refl

get_lem :
    (t : String) (w : Bool)
    → (e : Option Error) × (v : Bool) × ((cancelling.get_config_map (some t) "kube-system" "le" w
          ≡ (ok e, v))
        × (carries cancelling t e ≡ w))
get_lem t true = (some (plain t), true, (refl, contains_self t))
get_lem t false = (none, false, (refl, refl))

abbrev cancelling_laws : ContextLaws cancelling
cancelling_laws = record {
  cancelled = λ w. w;
  cancel_ok = λ w. refl;
  cancel_cancels = λ w. refl;
  config_text = λ config. config;
  client_text = λ c. c;
  wrap_marks = λ config t w. refl;
  client_marks = λ config w. refl;
  get_answers = λ c t namespace name w marked. rw marked (get_lem t w);
}

manager_run_ends_example :
    let (r, u) = campaign inert empty_cluster cancelling (none, "", none) false in
    let (o, x) = manager_run inert empty_cluster cancelling false in
    Verdict r u o × (Settles o → x ≡ true)
unfolding prepare ◌>>=◌ on_error
manager_run_ends_example =
    manager_run_ends inert empty_cluster cancelling cancelling_laws (none, "", none) false false
      refl
