-- ===== src/Director/Setup.antt =====
-- What the setup of a director does to the iptables rules.
use kube_static_egress_ip.Prelude.{◌≡◌, subst, refl, ◌∙◌, true, [], ◌∷◌, inl, inr}
use kube_static_egress_ip.Effect.{ok}
use kube_static_egress_ip.Effect.Keeps.{Keeps, Keeps-bind, Keeps-on_error, Keeps-if, Keeps-pure}
use kube_static_egress_ip.Effect.Edits.{OneOf, Edits, After, After-only, Edits-bind, Edits-Keeps}
use kube_static_egress_ip.Host.{Host}
use kube_static_egress_ip.Host.Rules.{Tables, IptablesLaws, edit, has_rule}
use kube_static_egress_ip.Host.Edit.{put_first, edit_same, edit-at, has_rule-put_first}
use kube_static_egress_ip.Chains.{jump_rule}
use kube_static_egress_ip.Chains.Steps.{ensure_first-Edits, or_exists-Keeps}
use kube_static_egress_ip.Director.{bypass_chain, register_table, add_policy_rule, setup}

-- The tables with the jump to the bypass chain.
abbrev pub jumps_bypass : Tables → Tables
jumps_bypass = edit "nat" "POSTROUTING" (put_first (jump_rule bypass_chain))

abbrev pub SettingUp : Tables → Tables → Type 0
SettingUp x = OneOf (x ∷ jumps_bypass x ∷ [])

abbrev pub IsSetUp : Tables → Type 0
IsSetUp x = has_rule (jump_rule bypass_chain) (x "nat" "POSTROUTING") ≡ true

jumps-IsSetUp : (x : Tables) → IsSetUp (jumps_bypass x)
jumps-IsSetUp x =
    rw (edit-at "nat" "POSTROUTING" (put_first (jump_rule bypass_chain)) x)
      (has_rule-put_first (jump_rule bypass_chain) (x "nat" "POSTROUTING"))

jumps_again : (x : Tables) → IsSetUp x → jumps_bypass x ≡ x
jumps_again x there =
    edit_same "nat" "POSTROUTING" (put_first (jump_rule bypass_chain)) x (rw there)

only_same : (x : Tables) → IsSetUp x → (v : Tables) → SettingUp x v → v ≡ x
only_same x there v (inl e) = e
only_same x there v (inr (inl e)) = e ∙ jumps_again x there
only_same x there v (inr (inr never)) = elim never [ ]

module _ {W : Type 0} (h : Host W) (L : IptablesLaws h) where
  open L use {rules}

  register_table-Keeps : Keeps rules (register_table h)
  unfolding register_table
  register_table-Keeps = Keeps-bind (Keeps-on_error _ (L.read_file-keeps _)) λ b.
      Keeps-if _
        (Keeps-bind (Keeps-on_error _ (L.open_append-keeps _))
          (λ f. Keeps-on_error _ (L.write_string-keeps f _)))
        (Keeps-pure tt)

  add_policy_rule-Keeps : Keeps rules (add_policy_rule h)
  unfolding add_policy_rule
  add_policy_rule-Keeps =
      Keeps-bind (Keeps-on_error _ (L.output-keeps _))
        λ out. Keeps-if _ (Keeps-on_error _ (L.run-keeps _)) (Keeps-pure tt)

  -- On a host whose iptables calls do what they are documented to do, the director's setup: when it
  -- returns, POSTROUTING begins with a jump to the bypass chain unless the jump was there, and no
  -- other rule has changed; when it fails, the rules are as before or with that jump added.
  setup_jump : (w : W) → After rules (SettingUp (rules w)) (jumps_bypass (rules w)) (setup h w)
  unfolding setup
  setup_jump w =
      let x = rules w in
      let E = SettingUp x in
      let all : Edits rules E x (setup h) (jumps_bypass x) =
        Edits-bind x (Edits-Keeps (inl refl) register_table-Keeps) λ _.
          Edits-bind x (Edits-Keeps (inl refl) add_policy_rule-Keeps) λ _.
            Edits-bind x (Edits-Keeps (inl refl) (or_exists-Keeps h L E _ "nat" bypass_chain))
              λ _. ensure_first-Edits h L E _ _ (jump_rule bypass_chain) _ _ x (inl refl) in
      all.at w refl

  -- On a host whose iptables calls do what they are documented to do, the director's setup is
  -- idempotent on the rules: after one that returned the jump is there, and another, as after a
  -- restart, changes no rule however it ends.
  setup_jump_again :
      (w w' : W) → setup h w ≡ (ok tt, w') → IsSetUp (rules w') × (rules (setup h w').1 ≡ rules w')
  setup_jump_again w w' e =
      let now : rules w' ≡ jumps_bypass (rules w) =
        subst (After rules (SettingUp (rules w)) (jumps_bypass (rules w))) e (setup_jump w) in
      let there : IsSetUp (rules w') = rw now (jumps-IsSetUp (rules w)) in
      (
        there,
        After-only rules (SettingUp (rules w')) (rules w') (jumps_bypass (rules w')) (setup h w').0
            (setup h w').1 (only_same (rules w') there) (jumps_again (rules w') there)
            (setup_jump w'),
      )
