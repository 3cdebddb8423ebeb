-- ===== src/Director/Directed/Removals.antt =====
-- A removal of the director on a host on which no call fails.
use kube_static_egress_ip.Prelude.{◌≡◌, refl, ap, ◌∙◌, sym, String, Bool, true, false, subst}
use kube_static_egress_ip.Effect.{
  Outcome, ok, err, panicked, exited, on_error, ◌>>=◌, Error, rewrap, because,
}
use kube_static_egress_ip.Effect.Edits.{After, Edits, Returns}
use kube_static_egress_ip.Effect.Succeeds.{IsOk, Succeeds, succeeds_rules, Edits-Succeeds}
use kube_static_egress_ip.Host.{Host, RuleSpec}
use kube_static_egress_ip.Host.Rules.{Tables, IptablesLaws, has_rule}
use kube_static_egress_ip.Host.Reliable.{IsReliable}
use kube_static_egress_ip.Chains.{ensure_gone}
use kube_static_egress_ip.Chains.Succeeds.{open_set-Succeeds}
use kube_static_egress_ip.Director.{
  unmark_and_unbypass, delete_route, delete_route_to_gateway, clear_stale_route_to_gateway,
}
use kube_static_egress_ip.Director.Rules.{
  Removing, unmarked, unbypassed, delete_route_rules, clear_stale_route_rules,
}

-- The rules without the pair of a removal.
abbrev pub removed : String → String → Tables → Tables
removed s d x = unbypassed s d (unmarked s d x)

rewrap-IsOk : {A : Type 0} (f : Error → Error) (o : Outcome A) → IsOk o → IsOk (rewrap f o)
rewrap-IsOk f (ok a) i = tt
rewrap-IsOk f (err e) i = i
rewrap-IsOk f (panicked m) i = i
rewrap-IsOk f (exited m) i = i

module _ {W : Type 0} (h : Host W) (L : IptablesLaws h) where
  -- A rule that is there can be deleted, and a set destroyed.
  pub record Removable : Type 0 where
    pub reliable : IsReliable h
    pub delete_ok :
        (t c : String) (r : RuleSpec) (w : W)
        → has_rule r (L.rules w t c) ≡ true
        → IsOk (h.delete t c r w).0
    pub set_destroy_ok : (s : h.IpSet) → Succeeds (h.set_destroy s)

module _ {W : Type 0} (h : Host W) (L : IptablesLaws h) (R : Removable h L) where
  open L use {rules}
  open R use {reliable}

  pub ensure_gone-Succeeds :
      (t c : String) (r : RuleSpec) (v a : String) → Succeeds (ensure_gone h t c r v a)
  unfolding ensure_gone on_error ◌>>=◌
  ensure_gone-Succeeds t c r v a = record {
    at = λ w.
        go w (h.exists t c r w).0 (h.exists t c r w).1 refl ((reliable.exists_ok t c r).at w)
          (L.exists_answers t c r w) ((L.exists-keeps t c r).at w);
  }
    where
      go :
          (w : W) (o : Outcome Bool) (w' : W)
          → h.exists t c r w ≡ (o, w')
          → IsOk o
          → Returns (λ b. b ≡ has_rule r (rules w t c)) o
          → rules w' ≡ rules w
          → IsOk (ensure_gone h t c r v a w).0
      go w (ok true) w' e i there same = rw e (
          rewrap-IsOk (because a) (h.delete t c r w').0
            (R.delete_ok t c r w' (ap (λ (x : Tables). has_rule r (x t c)) same ∙ sym there)))
      go w (ok false) w' e i there same = rw e tt
      go w (err x) w' e i there same = absurd i
      go w (panicked m) w' e i there same = absurd i
      go w (exited m) w' e i there same = absurd i

  pub delete_route_to_gateway-Succeeds :
      (s cidr g : String) → Succeeds (delete_route_to_gateway h s cidr g)
  unfolding delete_route_to_gateway unmark_and_unbypass delete_route
  delete_route_to_gateway-Succeeds s cidr g =
      search
        (
          succeeds_rules, open_set-Succeeds, ensure_gone-Succeeds, reliable.output_ok,
          reliable.run_ok, R.set_destroy_ok,
        )
        depth 9

  pub clear_stale_route_to_gateway-Succeeds :
      (s cidr g : String) → Succeeds (clear_stale_route_to_gateway h s cidr g)
  unfolding clear_stale_route_to_gateway unmark_and_unbypass delete_route
  clear_stale_route_to_gateway-Succeeds s cidr g =
      search (succeeds_rules, ensure_gone-Succeeds, reliable.output_ok, reliable.run_ok) depth 9

  pub deleted-Edits :
      (s d g : String) (x : Tables)
      → Edits rules (λ _. ⊥) x (delete_route_to_gateway h s d g) (removed s d x)
  deleted-Edits s d g x =
      Edits-Succeeds {E = Removing s d x}
        (record {
          at = λ w e.
              subst
                (λ (z : Tables).
                  After rules (Removing s d z) (removed s d z) (delete_route_to_gateway h s d g w))
                e (delete_route_rules h L s d g w);
        })
        (delete_route_to_gateway-Succeeds s d g)

  pub cleared-Edits :
      (s d g : String) (x : Tables)
      → Edits rules (λ _. ⊥) x (clear_stale_route_to_gateway h s d g) (removed s d x)
  cleared-Edits s d g x =
      Edits-Succeeds {E = Removing s d x}
        (record {
          at = λ w e.
              subst
                (λ (z : Tables).
                  After rules (Removing s d z) (removed s d z)
                    (clear_stale_route_to_gateway h s d g w))
                e (clear_stale_route_rules h L s d g w);
        })
        (clear_stale_route_to_gateway-Succeeds s d g)
