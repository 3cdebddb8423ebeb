-- ===== src/Gateway/Setup.antt =====
-- What the setup of a gateway does to the iptables rules.
use kube_static_egress_ip.Prelude.{
  ◌≡◌, ◌≢◌, subst, refl, ◌∙◌, String, true, [], ◌∷◌, eq_iff, arith, inl, inr,
}
use kube_static_egress_ip.Effect.{ok}
use kube_static_egress_ip.Effect.Keeps.{Keeps, Keeps-on_error}
use kube_static_egress_ip.Effect.Edits.{OneOf, Edits, After, After-only, Edits-bind, Edits-Keeps}
use kube_static_egress_ip.Host.{Host}
use kube_static_egress_ip.Host.Rules.{Tables, IptablesLaws, edit, has_rule}
use kube_static_egress_ip.Host.Edit.{
  put_first, put_last, edit_same, edit-at, edit-at_ne, has_rule-put_first, has_rule-put_last,
}
use kube_static_egress_ip.Chains.{jump_rule}
use kube_static_egress_ip.Chains.Steps.{ensure_first-Edits, ensure_last-Edits, or_exists-Keeps}
use kube_static_egress_ip.Gateway.{nat_chain, forward_chain, create_chain_if_not_exist, setup}

-- The tables with the jumps to the forward chain and to the NAT chain.
abbrev pub jumps_forward : Tables → Tables
jumps_forward = edit "filter" "FORWARD" (put_last (jump_rule forward_chain))

abbrev pub jumps_nat : Tables → Tables
jumps_nat = edit "nat" "POSTROUTING" (put_first (jump_rule nat_chain))

abbrev pub SettingUp : Tables → Tables → Type 0
SettingUp x = OneOf (x ∷ jumps_forward x ∷ jumps_nat (jumps_forward x) ∷ [])

abbrev pub IsSetUp : Tables → Type 0
IsSetUp x =
    (has_rule (jump_rule forward_chain) (x "filter" "FORWARD") ≡ true)
    × (has_rule (jump_rule nat_chain) (x "nat" "POSTROUTING") ≡ true)

nat_ne_filter : ◌≢◌ {A = String} "nat" "filter"
nat_ne_filter = ground (arith, eq_iff "nat" "filter")

jumps-IsSetUp : (x : Tables) → IsSetUp (jumps_nat (jumps_forward x))
jumps-IsSetUp x = (
  rw
      (
        edit-at_ne "nat" "POSTROUTING" "filter" "FORWARD" (put_first (jump_rule nat_chain))
            (jumps_forward x) nat_ne_filter,
        edit-at "filter" "FORWARD" (put_last (jump_rule forward_chain)) x,
      )
      (has_rule-put_last (jump_rule forward_chain) (x "filter" "FORWARD")),
  rw (edit-at "nat" "POSTROUTING" (put_first (jump_rule nat_chain)) (jumps_forward x))
      (has_rule-put_first (jump_rule nat_chain) (jumps_forward x "nat" "POSTROUTING")),
)

forward_again : (x : Tables) → IsSetUp x → jumps_forward x ≡ x
forward_again x (f, n) = edit_same "filter" "FORWARD" (put_last (jump_rule forward_chain)) x (rw f)

jumps_again : (x : Tables) → IsSetUp x → jumps_nat (jumps_forward x) ≡ x
jumps_again x there =
    rw (forward_again x there)
      (edit_same "nat" "POSTROUTING" (put_first (jump_rule nat_chain)) x (rw (there.1)))

only_same : (x : Tables) → IsSetUp x → (v : Tables) → SettingUp x v → v ≡ x
only_same x there v (inl e) = e
only_same x there v (inr (inl e)) = e ∙ forward_again x there
only_same x there v (inr (inr (inl e))) = e ∙ jumps_again x there
only_same x there v (inr (inr (inr never))) = elim never [ ]

module _ {W : Type 0} (h : Host W) (L : IptablesLaws h) where
  open L use {rules}

  create_chain-Keeps : (t c : String) → Keeps rules (create_chain_if_not_exist h t c)
  unfolding create_chain_if_not_exist
  create_chain-Keeps t c = record { at = (L.new_chain-keeps t c).at }

  -- On a host whose iptables calls do what they are documented to do, the gateway's setup: when it
  -- returns, FORWARD ends in a jump to the forward chain and POSTROUTING begins with one to the NAT
  -- chain, each unless it was there, and no other rule has changed; when it fails, the rules are as
  -- before, or with the first or with both jumps added.
  setup_rules :
      (w : W) → After rules (SettingUp (rules w)) (jumps_nat (jumps_forward (rules w))) (setup h w)
  unfolding setup
  setup_rules w =
      let x = rules w in
      let E = SettingUp x in
      let y = jumps_forward x in
      let all : Edits rules E x (setup h) (jumps_nat y) =
        Edits-bind x
          (Edits-Keeps (inl refl) (Keeps-on_error _ (create_chain-Keeps "filter" forward_chain)))
          λ _.
            Edits-bind y (ensure_last-Edits h L E _ _ (jump_rule forward_chain) _ _ x (inl refl))
              λ _.
                Edits-bind y
                  (Edits-Keeps (inr (inl refl)) (or_exists-Keeps h L E _ "nat" nat_chain))
                  λ _. ensure_first-Edits h L E _ _ (jump_rule nat_chain) _ _ y (inr (inl refl)) in
      all.at w refl

  -- On a host whose iptables calls do what they are documented to do, the gateway's setup is
  -- idempotent: after one that returned both jumps are there, and another, as after a restart,
  -- changes no rule however it ends.
  setup_again :
      (w w' : W) → setup h w ≡ (ok tt, w') → IsSetUp (rules w') × (rules (setup h w').1 ≡ rules w')
  setup_again w w' e =
      let now : rules w' ≡ jumps_nat (jumps_forward (rules w)) =
        subst (After rules (SettingUp (rules w)) (jumps_nat (jumps_forward (rules w)))) e
          (setup_rules w) in
      let there : IsSetUp (rules w') = rw now (jumps-IsSetUp (rules w)) in
      (
        there,
        After-only rules (SettingUp (rules w')) (rules w') (jumps_nat (jumps_forward (rules w')))
            (setup h w').0 (setup h w').1 (only_same (rules w') there)
            (jumps_again (rules w') there) (setup_rules w'),
      )
