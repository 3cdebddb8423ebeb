-- ===== src/Gateway/Rules.antt =====
-- What the gateway does to the iptables rules: setting up, adding and removing.
use kube_static_egress_ip.Prelude.{◌≡◌, refl, String, List, [], ◌∷◌, arith, inl, inr}
use kube_static_egress_ip.Effect.{Error, on_error}
use kube_static_egress_ip.Effect.Keeps.{Keeps-on_error}
use kube_static_egress_ip.Effect.Edits.{
  OneOf, Edits, After, Edits-bind, Edits-Keeps, Edits-on_error, Edits-read, Edits-if, Edits-pure,
}
use kube_static_egress_ip.Host.{Host, RuleSpec}
use kube_static_egress_ip.Host.Rules.{Tables, IptablesLaws, edit, has_rule, without_rule}
use kube_static_egress_ip.Host.Edit.{put_first, put_last, edit_cong, edit_same}
use kube_static_egress_ip.Chains.{accept_rule}
use kube_static_egress_ip.Chains.Steps.{
  ensure_first-Edits, ensure_last-Edits, ensure_gone-Edits, open_set-Keeps, add_ips-Keeps,
  bare-Edits, atomic-Edits,
}
use kube_static_egress_ip.Gateway.{
  nat_chain, forward_chain, snat_rule, return_rule, insert_rule, delete_rule, forward_and_translate,
  add_static_iptables_rule, delete_static_iptables_rule, clear_static_iptables_rule,
}

-- The tables with each of the three rules of an addition.
abbrev pub forwarded : String → String → Tables → Tables
forwarded s d = edit "filter" forward_chain (put_last (accept_rule s d))

abbrev pub translated : String → String → String → Tables → Tables
translated s d e = edit "nat" nat_chain (put_first (snat_rule s d e))

abbrev pub return_marked : String → String → Tables → Tables
return_marked d e = edit "mangle" "PREROUTING" (put_first (return_rule d e))

abbrev pub added : String → String → String → Tables → Tables
added s d e x = return_marked d e (translated s d e (forwarded s d x))

-- The tables with the two rules of a removal gone.
abbrev pub untranslated : String → String → String → Tables → Tables
untranslated s d e = edit "nat" nat_chain (without_rule (snat_rule s d e))

abbrev pub unforwarded : String → String → Tables → Tables
unforwarded s d = edit "filter" forward_chain (without_rule (accept_rule s d))

abbrev pub Adding : String → String → String → Tables → Tables → Type 0
Adding s d e x =
    OneOf (x ∷ forwarded s d x ∷ translated s d e (forwarded s d x) ∷ added s d e x ∷ [])

abbrev pub Removing : String → String → String → Tables → Tables → Type 0
Removing s d e x = OneOf (x ∷ untranslated s d e x ∷ unforwarded s d (untranslated s d e x) ∷ [])

module _ {W : Type 0} (h : Host W) (L : IptablesLaws h) where
  open h use {IpSet, set_destroy, exists, insert}
  open L use {rules}

  insert_rule-Edits :
      (E : Tables → Type 0) (t c : String) (r : RuleSpec) (f : Error → Error) (x : Tables)
      → E x
      → Edits rules E x (on_error f (insert_rule h t c 1 r)) (edit t c (put_first r) x)
  unfolding insert_rule
  insert_rule-Edits E t c r f x p = Edits-on_error f (
      Edits-read (λ b. b ≡ has_rule r (x t c)) p (L.exists-keeps t c r)
        (λ w e. rw (← e) (L.exists_answers t c r w))
        λ b e.
          Edits-if b (λ there. rw (edit_same t c (put_first r) x (ground arith)) (Edits-pure x tt))
            (λ absent.
              rw (edit_cong t c (put_first r) (λ l. r ∷ l) x (ground arith))
                (bare-Edits h L E x _ t c (λ l. r ∷ l) p (L.insert_first t c r))))

  forward_and_translate-Edits :
      (s d e : String) (x : Tables)
      → Edits rules (Adding s d e x) x (forward_and_translate h s d e) (added s d e x)
  unfolding forward_and_translate
  forward_and_translate-Edits s d e x =
      let E = Adding s d e x in
      Edits-bind (forwarded s d x) (ensure_last-Edits h L E _ _ (accept_rule s d) _ _ x (inl refl))
        λ _.
          Edits-bind (translated s d e (forwarded s d x))
            (insert_rule-Edits E _ _ (snat_rule s d e) _ (forwarded s d x) (inr (inl refl)))
            λ _.
              ensure_first-Edits h L E _ _ (return_rule d e) _ _
                (translated s d e (forwarded s d x)) (inr (inr (inl refl)))

  -- Adding a static egress rule, on a host whose iptables calls do what they are documented to do:
  -- when the call returns, the accept rule is last in the forward chain, the SNAT rule first in the
  -- NAT chain and the rule for returning packets first in PREROUTING, each unless it was there, and
  -- no other rule has changed; when it fails, the rules are as they were with none, the first, the
  -- first two or all three of these edits made, in this order.
  pub add_static_rules :
      (s : String) (ips : List String) (d e : String) (w : W)
      → After rules
          (Adding s d e (rules w))
          (added s d e (rules w))
          (add_static_iptables_rule h s ips d e w)
  unfolding add_static_iptables_rule
  add_static_rules s ips d e w =
      let x = rules w in
      let E = Adding s d e x in
      let all : Edits rules E x (add_static_iptables_rule h s ips d e) (added s d e x) =
        Edits-bind x (Edits-Keeps (inl refl) (open_set-Keeps h L E _ s)) λ set.
          Edits-bind x (Edits-Keeps (inl refl) (add_ips-Keeps h L E s set ips))
            λ _. forward_and_translate-Edits s d e x in
      all.at w refl

  -- Deleting a static egress rule, on a host whose iptables calls do what they are documented to
  -- do: when the call returns, the first SNAT rule and the first accept rule of the set and the
  -- destination are gone, and no other rule has changed, so that the rule for returning packets
  -- stays; when it fails, neither, only the SNAT rule, or both are gone.
  pub delete_static_rules :
      (s d e : String) (w : W)
      → After rules
          (Removing s d e (rules w))
          (unforwarded s d (untranslated s d e (rules w)))
          (delete_static_iptables_rule h s d e w)
  unfolding delete_static_iptables_rule delete_rule
  delete_static_rules s d e w =
      let x = rules w in
      let E = Removing s d e x in
      let y = untranslated s d e x in
      let z = unforwarded s d y in
      let done : E z = inr (inr (inl refl)) in
      let all : Edits rules E x (delete_static_iptables_rule h s d e) z =
        Edits-bind y
          (atomic-Edits h L E x _ _ _ _ (without_rule (snat_rule s d e)) (inl refl)
            (L.delete_one _ _ _))
          λ _.
            Edits-bind z (ensure_gone-Edits h L E _ _ (accept_rule s d) _ _ y (inr (inl refl))) λ _.
              Edits-bind z (Edits-Keeps done (open_set-Keeps h L E _ s))
                λ set. Edits-Keeps done (Keeps-on_error _ (L.set_destroy-keeps set)) in
      all.at w refl

  -- Clearing a static egress rule, on such a host: when the call returns, the first SNAT rule and
  -- the first accept rule of the set and the destination are gone, and no other rule has changed,
  -- as for a deletion; when it fails, neither, only the SNAT rule, or both are gone.
  clear_static_rules :
      (s d e : String) (w : W)
      → After rules
          (Removing s d e (rules w))
          (unforwarded s d (untranslated s d e (rules w)))
          (clear_static_iptables_rule h s d e w)
  unfolding clear_static_iptables_rule delete_static_iptables_rule
  clear_static_rules s d e w = delete_static_rules s d e w
