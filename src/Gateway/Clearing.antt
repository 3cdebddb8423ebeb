-- ===== src/Gateway/Clearing.antt =====
-- What ClearStaticIptablesRule of pkg/gateway/gateway.go does to the NAT chain of the gateway. The
-- deletion there is not preceded by a search, and a failure of it ends the call.
use kube_static_egress_ip.Prelude.{
  ◌≡◌, ◌≢◌, refl, subst, sym, ap, ◌∙◌, ◌≤◌, String, true, not, ◌&&◌, ◌==◌, List, arith,
}
use kube_static_egress_ip.Effect.{Outcome, ok, err, panicked, exited, M}
use kube_static_egress_ip.Effect.Keeps.{Keeps, Keeps-bind, Keeps-on_error}
use kube_static_egress_ip.Effect.Edits.{
  After, After-any, Edits, Edits-bind, Edits-Keeps, Edits-on_error,
}
use kube_static_egress_ip.Effect.Succeeds.{IsOk, Succeeds-on_error, Succeeds-bind}
use kube_static_egress_ip.Effect.Calm.{IsCalm, IsCalm-bind, IsCalm-on_error, IsCalm-Succeeds}
use kube_static_egress_ip.Host.{Host, RuleSpec}
use kube_static_egress_ip.Host.Rules.{Tables, IptablesLaws, edit, has_rule, without_rule}
use kube_static_egress_ip.Host.Edit.{edit-at, edit-at_ne, without_rule_absent}
use kube_static_egress_ip.Host.Counts.{times, has_rule-times, times-without_rule}
use kube_static_egress_ip.Chains.{ensure_gone, accept_rule}
use kube_static_egress_ip.Chains.Steps.{ensure_gone-Edits, open_set-Keeps}
use kube_static_egress_ip.Chains.Succeeds.{open_set-Succeeds}
use kube_static_egress_ip.Director.Directed.Removals.{Removable, ensure_gone-Succeeds}
use kube_static_egress_ip.Gateway.{
  nat_chain, forward_chain, snat_rule, delete_rule, clear_static_iptables_rule,
}
use kube_static_egress_ip.Gateway.Translated.{same_spec-snat, nat_after_filter}

-- No translation is there twice.
abbrev pub IsSingle : List RuleSpec → Type 0
IsSingle x = (s d e : String) → times (snat_rule s d e) x ≤ 1

pub without_snat-IsSingle :
    (s d e : String) (x : List RuleSpec) → IsSingle x → IsSingle (without_rule (snat_rule s d e) x)
without_snat-IsSingle s d e x single s' d' e' =
    ground (arith, times-without_rule (snat_rule s' d' e') (snat_rule s d e) x, single s' d' e')

-- What a deletion takes out of the translations.
pub has_rule-without_snat :
    (s d e : String) (x : List RuleSpec)
    → IsSingle x
    → (s' d' e' : String)
    → has_rule (snat_rule s' d' e') (without_rule (snat_rule s d e) x)
      ≡ (has_rule (snat_rule s' d' e') x && not (s' == s && d' == d && e' == e))
has_rule-without_snat s d e x single s' d' e' =
    rw
      (
        has_rule-times (snat_rule s' d' e') (without_rule (snat_rule s d e) x),
        has_rule-times (snat_rule s' d' e') x,
        times-without_rule (snat_rule s' d' e') (snat_rule s d e) x,
        same_spec-snat s d e s' d' e',
      )
      (ground (arith, single s' d' e'))

module _ {W : Type 0} (h : Host W) (L : IptablesLaws h) where
  open L use {rules}

  abbrev pub nat_rules : W → List RuleSpec
  nat_rules w = rules w "nat" nat_chain

module _ {W : Type 0} (h : Host W) (L : IptablesLaws h) (R : Removable h L) where
  open L use {rules}

  abbrev Emptied : RuleSpec → List RuleSpec → List RuleSpec → Type 0
  Emptied r x v = v ≡ without_rule r x

  unchanged :
      (r : RuleSpec) (w w' : W)
      → rules w' ≡ rules w
      → has_rule r (nat_rules h L w) ≢ true
      → Emptied r (nat_rules h L w) (nat_rules h L w')
  unchanged r w w' same absent =
      ap (λ (x : Tables). x "nat" nat_chain) same
      ∙ sym (without_rule_absent r (nat_rules h L w) (ground arith))

  -- A deletion that fails had nothing to delete.
  after_delete :
      (r : RuleSpec) (w : W) (o : Outcome (Unit {0})) (w' : W)
      → After rules (λ x. x ≡ rules w) (edit "nat" nat_chain (without_rule r) (rules w)) (o, w')
      → (has_rule r (nat_rules h L w) ≡ true → IsOk o)
      → After
          (nat_rules h L)
          (Emptied r (nat_rules h L w))
          (without_rule r (nat_rules h L w))
          (o, w')
  after_delete r w (ok a) w' e there =
      ap (λ (x : Tables). x "nat" nat_chain) e ∙ edit-at "nat" nat_chain (without_rule r) (rules w)
  after_delete r w (err x) w' e there = unchanged r w w' e there
  after_delete r w (panicked m) w' e there = unchanged r w w' e there
  after_delete r w (exited m) w' e there = unchanged r w w' e there

  delete-Edits :
      (r : RuleSpec) (x : List RuleSpec)
      → Edits (nat_rules h L) (Emptied r x) x (h.delete "nat" nat_chain r) (without_rule r x)
  delete-Edits r x = record {
    at = λ w e.
        subst
          (λ (y : List RuleSpec).
            After (nat_rules h L) (Emptied r y) (without_rule r y) (h.delete "nat" nat_chain r w))
          e
          (after_delete r w _ _ (L.delete_one "nat" nat_chain r w)
            (R.delete_ok "nat" nat_chain r w));
  }

  -- The filter table is another.
  unaccept-Keeps :
      (r : RuleSpec) (v a : String)
      → Keeps (nat_rules h L) (ensure_gone h "filter" forward_chain r v a)
  unaccept-Keeps r v a = record {
    at = λ w.
        let E : Tables → Type 0 = λ x. x "nat" nat_chain ≡ nat_rules h L w in
        After-any rules E E (edit "filter" forward_chain (without_rule r) (rules w)) _ _ (λ x e. e)
          (edit-at_ne "filter" forward_chain "nat" nat_chain (without_rule r) (rules w)
            nat_after_filter)
          ((ensure_gone-Edits h L E "filter" forward_chain r v a (rules w) refl).at w refl);
  }

  Keeps-nat : {A : Type 0} {m : M W A} → Keeps rules m → Keeps (nat_rules h L) m
  Keeps-nat k = record { at = λ w. ap (λ (x : Tables). x "nat" nat_chain) (k.at w) }

  -- However the call ends, the translation has gone from the NAT chain, once.
  pub clear_static-Edits :
      (s d e : String) (x : List RuleSpec)
      → Edits
          (nat_rules h L)
          (Emptied (snat_rule s d e) x)
          x
          (clear_static_iptables_rule h s d e)
          (without_rule (snat_rule s d e) x)
  unfolding clear_static_iptables_rule delete_rule
  clear_static-Edits s d e x =
      Edits-bind _ (Edits-on_error _ (delete-Edits (snat_rule s d e) x)) λ _. Edits-Keeps refl (
        Keeps-bind (unaccept-Keeps (accept_rule s d) _ _) λ _.
          Keeps-bind (Keeps-nat (open_set-Keeps h L (λ _. Unit) _ s))
            λ set. Keeps-on_error _ (Keeps-nat (L.set_destroy-keeps set)))

  pub clear_static-IsCalm :
      ((t c : String) (r : RuleSpec) → IsCalm (h.delete t c r))
      → (s d e : String) → IsCalm (clear_static_iptables_rule h s d e)
  unfolding clear_static_iptables_rule delete_rule
  clear_static-IsCalm calm s d e =
      IsCalm-bind (IsCalm-on_error _ (calm "nat" nat_chain (snat_rule s d e))) λ _.
        IsCalm-Succeeds (
          Succeeds-bind (ensure_gone-Succeeds h L R "filter" forward_chain _ _ _) λ _.
            Succeeds-bind (open_set-Succeeds h R.reliable _ s)
              λ set. Succeeds-on_error _ (R.set_destroy_ok set))
