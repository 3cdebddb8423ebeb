-- ===== src/Chains/Steps.antt =====
-- What the shared sequences of Chains.antt do to the iptables rules.
use kube_static_egress_ip.Prelude.{◌≡◌, sym, ◌∙◌, String, Bool, not, List, [], ◌∷◌, ◌++◌, arith}
use kube_static_egress_ip.Effect.{M, ◌>>=◌, because, on_error, Error}
use kube_static_egress_ip.Effect.Keeps.{Keeps, Keeps-on_error, Keeps-for_each}
use kube_static_egress_ip.Effect.Edits.{
  Edits, After, After-atomic, Edits-when, Edits-read, Edits-on_error, Returns, Returns-rewrap,
}
use kube_static_egress_ip.Host.{Host, RuleSpec}
use kube_static_egress_ip.Host.Rules.{Tables, IptablesLaws, edit, has_rule, without_rule}
use kube_static_egress_ip.Host.Edit.{put_first, put_last, edit_cong, edit_same, without_rule_absent}
use kube_static_egress_ip.Chains.{
  or_exists, ensure_first, ensure_last, ensure_gone, open_set, add_ips,
}

module _ {W : Type 0} (h : Host W) (L : IptablesLaws h) (E : Tables → Type 0) where
  open h use {IpSet, new_chain, exists, insert, append, delete}
  open L use {rules}

  -- A call that fails without a change, or edits one chain; bare, and under its error message.
  pub bare-Edits :
      (x : Tables) (m : M W (Unit {0})) (t c : String) (g : List RuleSpec → List RuleSpec)
      → E x
      → ((w : W) → After rules (λ v. v ≡ rules w) (edit t c g (rules w)) (m w))
      → Edits rules E x m (edit t c g x)
  bare-Edits x m t c g p law = record {
    at = λ w e. rw (← e) (After-atomic rules E (rules w) _ (m w).0 (m w).1 (rw e p) (law w));
  }

  pub atomic-Edits :
      (x : Tables) (f : Error → Error) (m : M W (Unit {0})) (t c : String)
      (g : List RuleSpec → List RuleSpec)
      → E x
      → ((w : W) → After rules (λ v. v ≡ rules w) (edit t c g (rules w)) (m w))
      → Edits rules E x (on_error f m) (edit t c g x)
  atomic-Edits x f m t c g p law = Edits-on_error f (bare-Edits x m t c g p law)

  found :
      (t c : String) (r : RuleSpec) (verify : String) (x : Tables) (w : W)
      → rules w ≡ x
      → Returns (λ b. b ≡ has_rule r (x t c)) (on_error (because verify) (exists t c r) w).0
  unfolding on_error
  found t c r verify x w e =
      Returns-rewrap _ (because verify) (exists t c r w).0 (rw (← e) (L.exists_answers t c r w))

  -- Exists, then a call under a test of its answer.
  check-Edits :
      (t c : String) (r : RuleSpec) (verify : String) (x y : Tables) (f : Bool → M W (Unit {0}))
      → E x
      → ((b : Bool) → b ≡ has_rule r (x t c) → Edits rules E x (f b) y)
      → Edits rules E x (on_error (because verify) (exists t c r) >>= f) y
  check-Edits t c r verify x y f p rest =
      Edits-read (λ b. b ≡ has_rule r (x t c)) p
        (Keeps-on_error (because verify) (L.exists-keeps t c r)) (found t c r verify x) rest

  pub ensure_first-Edits :
      (t c : String) (r : RuleSpec) (verify add : String) (x : Tables)
      → E x
      → Edits rules E x (ensure_first h t c r verify add) (edit t c (put_first r) x)
  unfolding ensure_first
  ensure_first-Edits t c r verify add x p = check-Edits t c r verify x _ _ p λ b e.
      Edits-when (not b)
        (λ n.
          rw (edit_cong t c (put_first r) (λ l. r ∷ l) x (ground arith))
            (atomic-Edits x (because add) _ t c (λ l. r ∷ l) p (L.insert_first t c r)))
        (λ n. sym (edit_same t c (put_first r) x (ground arith)))

  pub ensure_last-Edits :
      (t c : String) (r : RuleSpec) (verify add : String) (x : Tables)
      → E x
      → Edits rules E x (ensure_last h t c r verify add) (edit t c (put_last r) x)
  unfolding ensure_last
  ensure_last-Edits t c r verify add x p = check-Edits t c r verify x _ _ p λ b e.
      Edits-when (not b)
        (λ n.
          rw (edit_cong t c (put_last r) (λ l. l ++ r ∷ []) x (ground arith))
            (atomic-Edits x (because add) _ t c (λ l. l ++ r ∷ []) p (L.append_last t c r)))
        (λ n. sym (edit_same t c (put_last r) x (ground arith)))

  pub ensure_gone-Edits :
      (t c : String) (r : RuleSpec) (verify remove : String) (x : Tables)
      → E x
      → Edits rules E x (ensure_gone h t c r verify remove) (edit t c (without_rule r) x)
  unfolding ensure_gone
  ensure_gone-Edits t c r verify remove x p = check-Edits t c r verify x _ _ p λ b e.
      Edits-when b
        (λ n. atomic-Edits x (because remove) _ t c (without_rule r) p (L.delete_one t c r))
        (λ n. sym (edit_same t c (without_rule r) x (without_rule_absent r (x t c) (sym e ∙ n))))

  pub open_set-Keeps : (message name : String) → Keeps rules (open_set h message name)
  unfolding open_set
  open_set-Keeps message name = Keeps-on_error _ (L.ipset_new-keeps name "hash:ip")

  pub add_ips-Keeps :
      (name : String) (s : IpSet) (ips : List String) → Keeps rules (add_ips h name s ips)
  unfolding add_ips
  add_ips-Keeps name s ips = Keeps-for_each _ ips (λ ip. Keeps-on_error _ (L.set_add-keeps s ip 0))

  pub or_exists-Keeps :
      (f : Error → Error) (t c : String) → Keeps rules (or_exists f (new_chain t c))
  unfolding or_exists
  or_exists-Keeps f t c = record { at = (L.new_chain-keeps t c).at }
