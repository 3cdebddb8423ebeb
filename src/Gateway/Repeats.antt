-- ===== src/Gateway/Repeats.antt =====
-- Additions of the gateway repeated and undone.
use kube_static_egress_ip.Prelude.{
  ◌≡◌, ◌≢◌, subst, ap, ◌∙◌, String, true, false, List, eq_iff, arith, inl, inr,
}
use kube_static_egress_ip.Effect.{ok}
use kube_static_egress_ip.Effect.Edits.{After, After-only}
use kube_static_egress_ip.Host.{Host}
use kube_static_egress_ip.Host.Rules.{Tables, IptablesLaws, has_rule, without_rule}
use kube_static_egress_ip.Host.Edit.{
  put_first, put_last, edit_same, edit-at, edit-at_ne, edit-edit, edit-edit_ne, has_rule-put_first,
  has_rule-put_last, without_rule-put_first, without_rule-put_last,
}
use kube_static_egress_ip.Chains.{accept_rule}
use kube_static_egress_ip.Gateway.{
  nat_chain, forward_chain, snat_rule, return_rule, add_static_iptables_rule,
  delete_static_iptables_rule,
}
use kube_static_egress_ip.Gateway.Rules.{
  forwarded, translated, return_marked, added, untranslated, unforwarded, Adding, Removing,
  add_static_rules, delete_static_rules,
}

-- All three rules of an addition are there.
abbrev pub IsTranslated : String → String → String → Tables → Type 0
IsTranslated s d e x =
    (has_rule (accept_rule s d) (x "filter" forward_chain) ≡ true)
    × (has_rule (snat_rule s d e) (x "nat" nat_chain) ≡ true)
    × (has_rule (return_rule d e) (x "mangle" "PREROUTING") ≡ true)

abbrev Differ : String → String → Type 0
Differ a b = a ≢ b

nat_ne_filter : Differ "nat" "filter"
nat_ne_filter = ground (arith, eq_iff "nat" "filter")

mangle_ne_filter : Differ "mangle" "filter"
mangle_ne_filter = ground (arith, eq_iff "mangle" "filter")

filter_ne_nat : Differ "filter" "nat"
filter_ne_nat = ground (arith, eq_iff "filter" "nat")

filter_ne_mangle : Differ "filter" "mangle"
filter_ne_mangle = ground (arith, eq_iff "filter" "mangle")

mangle_ne_nat : Differ "mangle" "nat"
mangle_ne_nat = ground (arith, eq_iff "mangle" "nat")

nat_ne_mangle : Differ "nat" "mangle"
nat_ne_mangle = ground (arith, eq_iff "nat" "mangle")

added-IsTranslated : (s d e : String) (x : Tables) → IsTranslated s d e (added s d e x)
added-IsTranslated s d e x = (
  rw
      (
        edit-at_ne "mangle" "PREROUTING" "filter" forward_chain (put_first (return_rule d e))
            (translated s d e (forwarded s d x)) mangle_ne_filter,
        edit-at_ne "nat" nat_chain "filter" forward_chain (put_first (snat_rule s d e))
            (forwarded s d x) nat_ne_filter,
        edit-at "filter" forward_chain (put_last (accept_rule s d)) x,
      )
      (has_rule-put_last (accept_rule s d) (x "filter" forward_chain)),
  rw
      (
        edit-at_ne "mangle" "PREROUTING" "nat" nat_chain (put_first (return_rule d e))
            (translated s d e (forwarded s d x)) mangle_ne_nat,
        edit-at "nat" nat_chain (put_first (snat_rule s d e)) (forwarded s d x),
      )
      (has_rule-put_first (snat_rule s d e) (forwarded s d x "nat" nat_chain)),
  rw
      (edit-at "mangle" "PREROUTING" (put_first (return_rule d e))
        (translated s d e (forwarded s d x)))
      (has_rule-put_first (return_rule d e)
        (translated s d e (forwarded s d x) "mangle" "PREROUTING")),
)

module _ (s d e : String) (x : Tables) (there : IsTranslated s d e x) where
  forwarded_again : forwarded s d x ≡ x
  forwarded_again = edit_same "filter" forward_chain (put_last (accept_rule s d)) x (rw (there.0))

  translated_again : translated s d e (forwarded s d x) ≡ x
  translated_again =
      rw forwarded_again (edit_same "nat" nat_chain (put_first (snat_rule s d e)) x (rw (there.1)))

  added_again : added s d e x ≡ x
  added_again =
      rw translated_again
        (edit_same "mangle" "PREROUTING" (put_first (return_rule d e)) x (rw (there.2)))

  only_same : (v : Tables) → Adding s d e x v → v ≡ x
  only_same v (inl p) = p
  only_same v (inr (inl p)) = p ∙ forwarded_again
  only_same v (inr (inr (inl p))) = p ∙ translated_again
  only_same v (inr (inr (inr (inl p)))) = p ∙ added_again
  only_same v (inr (inr (inr (inr never)))) = elim never [ ]

-- A removal leaves the rule for returning packets, and undoes the rest.
removed :
    (s d e : String) (x : Tables)
    → has_rule (accept_rule s d) (x "filter" forward_chain) ≡ false
    → has_rule (snat_rule s d e) (x "nat" nat_chain) ≡ false
    → unforwarded s d (untranslated s d e (added s d e x)) ≡ return_marked d e x
removed s d e x accept snat =
    rw
      (
        edit-edit_ne "nat" nat_chain "mangle" "PREROUTING" (without_rule (snat_rule s d e))
            (put_first (return_rule d e)) (translated s d e (forwarded s d x)) nat_ne_mangle,
        edit-edit "nat" nat_chain (without_rule (snat_rule s d e)) (put_first (snat_rule s d e))
            (forwarded s d x),
        edit_same "nat" nat_chain
            (λ l. without_rule (snat_rule s d e) (put_first (snat_rule s d e) l)) (forwarded s d x)
            (without_rule-put_first (snat_rule s d e) (forwarded s d x "nat" nat_chain) (
              rw
                (edit-at_ne "filter" forward_chain "nat" nat_chain (put_last (accept_rule s d)) x
                  filter_ne_nat)
                snat)),
        edit-edit_ne "filter" forward_chain "mangle" "PREROUTING" (without_rule (accept_rule s d))
            (put_first (return_rule d e)) (forwarded s d x) filter_ne_mangle,
        edit-edit "filter" forward_chain (without_rule (accept_rule s d))
            (put_last (accept_rule s d)) x,
      )
      (ap (return_marked d e) (
        edit_same "filter" forward_chain
          (λ l. without_rule (accept_rule s d) (put_last (accept_rule s d) l)) x
          (without_rule-put_last (accept_rule s d) (x "filter" forward_chain) accept)))

module _ {W : Type 0} (h : Host W) (L : IptablesLaws h) where
  open L use {rules}

  add_static_ok :
      (s : String) (ips : List String) (d e : String) (w w' : W)
      → add_static_iptables_rule h s ips d e w ≡ (ok tt, w')
      → rules w' ≡ added s d e (rules w)
  add_static_ok s ips d e w w' p =
      subst (After rules (Adding s d e (rules w)) (added s d e (rules w))) p
        (add_static_rules h L s ips d e w)

  -- On a host whose iptables calls do what they are documented to do, adding a static egress rule
  -- is idempotent on the rules: after a call that returned all three rules are there, and a second
  -- call for the same set, destination and egress address, with any source addresses and however it
  -- ends, leaves every rule as the first one left it.
  pub add_static_again :
      (s : String) (ips ips' : List String) (d e : String) (w w' : W)
      → add_static_iptables_rule h s ips d e w ≡ (ok tt, w')
      → IsTranslated s d e (rules w')
        × (rules (add_static_iptables_rule h s ips' d e w').1 ≡ rules w')
  add_static_again s ips ips' d e w w' p =
      let x = rules w' in
      let there : IsTranslated s d e x =
        rw (add_static_ok s ips d e w w' p) (added-IsTranslated s d e (rules w)) in
      (
        there,
        After-only rules (Adding s d e x) x (added s d e x)
            (add_static_iptables_rule h s ips' d e w').0
            (add_static_iptables_rule h s ips' d e w').1 (only_same s d e x there)
            (added_again s d e x there) (add_static_rules h L s ips' d e w'),
      )

  -- On a host whose iptables calls do what they are documented to do, where neither the accept rule
  -- nor the SNAT rule was there, an addition and then a deletion that both return leave the rules
  -- as they were, but for the rule that marks returning packets: it is in PREROUTING now, also if
  -- it was not before.
  pub delete_static-add_static :
      (s : String) (ips : List String) (d e : String) (w w' w'' : W)
      → has_rule (accept_rule s d) (rules w "filter" forward_chain) ≡ false
      → has_rule (snat_rule s d e) (rules w "nat" nat_chain) ≡ false
      → add_static_iptables_rule h s ips d e w ≡ (ok tt, w')
      → delete_static_iptables_rule h s d e w' ≡ (ok tt, w'')
      → (rules w'' ≡ return_marked d e (rules w))
        × (has_rule (return_rule d e) (rules w'' "mangle" "PREROUTING") ≡ true)
  delete_static-add_static s ips d e w w' w'' accept snat p q =
      let left : rules w'' ≡ return_marked d e (rules w) =
        subst
          (After rules (Removing s d e (rules w'))
            (unforwarded s d (untranslated s d e (rules w'))))
          q (delete_static_rules h L s d e w')
        ∙ rw (add_static_ok s ips d e w w' p) (removed s d e (rules w) accept snat) in
      (
        left,
        rw (left, edit-at "mangle" "PREROUTING" (put_first (return_rule d e)) (rules w))
            (has_rule-put_first (return_rule d e) (rules w "mangle" "PREROUTING")),
      )
