-- ===== src/Director/Rules.antt =====
-- What the director does to the iptables rules: additions, their repetition, and their removal.
use kube_static_egress_ip.Prelude.{refl, String, List, [], ◌∷◌, inl, inr}
use kube_static_egress_ip.Effect.Keeps.{Keeps, Keeps-on_error, keeps_rules}
use kube_static_egress_ip.Effect.Edits.{OneOf, Edits, After, Edits-bind, Edits-Keeps}
use kube_static_egress_ip.Host.{Host}
use kube_static_egress_ip.Host.Rules.{Tables, IptablesLaws, edit, without_rule}
use kube_static_egress_ip.Host.Edit.{put_first, put_last}
use kube_static_egress_ip.Chains.{accept_rule}
use kube_static_egress_ip.Chains.Steps.{
  ensure_first-Edits, ensure_last-Edits, ensure_gone-Edits, open_set-Keeps, add_ips-Keeps,
}
use kube_static_egress_ip.Director.{
  EgressDirector, mark_rule, bypass_chain, mark_and_bypass, unmark_and_unbypass, open_tunnel,
  add_route, delete_route, add_route_to_gateway, delete_route_to_gateway,
  clear_stale_route_to_gateway,
}

-- The tables with the rule that marks the packets of a set, and then with the one that accepts
-- them.
abbrev pub marked : String → String → Tables → Tables
marked s d = edit "mangle" "PREROUTING" (put_first (mark_rule s d))

abbrev pub bypassed : String → String → Tables → Tables
bypassed s d = edit "nat" bypass_chain (put_last (accept_rule s d))

abbrev pub unmarked : String → String → Tables → Tables
unmarked s d = edit "mangle" "PREROUTING" (without_rule (mark_rule s d))

abbrev pub unbypassed : String → String → Tables → Tables
unbypassed s d = edit "nat" bypass_chain (without_rule (accept_rule s d))

-- The tables before, between and after the two edits.
abbrev pub Adding : String → String → Tables → Tables → Type 0
Adding s d x = OneOf (x ∷ marked s d x ∷ bypassed s d (marked s d x) ∷ [])

abbrev pub Removing : String → String → Tables → Tables → Type 0
Removing s d x = OneOf (x ∷ unmarked s d x ∷ unbypassed s d (unmarked s d x) ∷ [])

module _ {W : Type 0} (h : Host W) (L : IptablesLaws h) where
  open h use {IpSet, output, run, set_destroy}
  open L use {rules}

  mark_and_bypass-Edits :
      (s d : String) (x : Tables)
      → Edits rules (Adding s d x) x (mark_and_bypass h s d) (bypassed s d (marked s d x))
  unfolding mark_and_bypass
  mark_and_bypass-Edits s d x =
      Edits-bind (marked s d x)
        (ensure_first-Edits h L (Adding s d x) _ _ (mark_rule s d) _ _ x (inl refl))
        (λ _.
          ensure_last-Edits h L (Adding s d x) _ _ (accept_rule s d) _ _ (marked s d x)
            (inr (inl refl)))

  unmark_and_unbypass-Edits :
      (s d : String) (x : Tables)
      → Edits rules (Removing s d x) x (unmark_and_unbypass h s d) (unbypassed s d (unmarked s d x))
  unfolding unmark_and_unbypass
  unmark_and_unbypass-Edits s d x =
      Edits-bind (unmarked s d x)
        (ensure_gone-Edits h L (Removing s d x) _ _ (mark_rule s d) _ _ x (inl refl))
        (λ _.
          ensure_gone-Edits h L (Removing s d x) _ _ (accept_rule s d) _ _ (unmarked s d x)
            (inr (inl refl)))

  pub open_tunnel-Keeps :
      (tunnel remote local_ip : String) → Keeps rules (open_tunnel h tunnel remote local_ip)
  unfolding open_tunnel
  open_tunnel-Keeps tunnel remote local_ip = search (keeps_rules, L.output-keeps, L.run-keeps)

  add_route-Keeps : (d tunnel : String) → Keeps rules (add_route h d tunnel)
  unfolding add_route
  add_route-Keeps d tunnel = search (keeps_rules, L.output-keeps, L.run-keeps)

  delete_route-Keeps : (d g : String) → Keeps rules (delete_route h d g)
  unfolding delete_route
  delete_route-Keeps d g = search (keeps_rules, L.output-keeps, L.run-keeps)

  -- Adding a route, on a host whose iptables calls do what they are documented to do: when the call
  -- returns, the mark rule is first in PREROUTING unless it was there, the accept rule is last in
  -- the bypass chain unless it was there, and no other rule has changed; when it fails, the rules
  -- are as before, or with the first or with both of these edits made.
  pub add_route_rules :
      (dir : EgressDirector) (s : String) (ips : List String) (d g : String) (w : W)
      → After rules
          (Adding s d (rules w))
          (bypassed s d (marked s d (rules w)))
          (add_route_to_gateway h dir s ips d g w)
  unfolding add_route_to_gateway
  add_route_rules dir s ips d g w =
      let x = rules w in
      let done : Adding s d x (bypassed s d (marked s d x)) = inr (inr (inl refl)) in
      let all : Edits rules (Adding s d x) x (add_route_to_gateway h dir s ips d g)
          (bypassed s d (marked s d x)) =
        Edits-bind x (Edits-Keeps (inl refl) (open_set-Keeps h L (Adding s d x) _ s)) λ set.
          Edits-bind x (Edits-Keeps (inl refl) (add_ips-Keeps h L (Adding s d x) s set ips)) λ _.
            Edits-bind (bypassed s d (marked s d x)) (mark_and_bypass-Edits s d x) λ _.
              Edits-bind (bypassed s d (marked s d x)) (Edits-Keeps done (open_tunnel-Keeps _ _ _))
                λ _. Edits-Keeps done (add_route-Keeps d _) in
      all.at w refl

  -- Deleting a route, on a host whose iptables calls do what they are documented to do: when the
  -- call returns, the first mark rule and the first accept rule of the set and the destination are
  -- gone, where there were any, and no other rule has changed; when it fails, the rules are as
  -- before, or without the first or without both.
  pub delete_route_rules :
      (s d g : String) (w : W)
      → After rules
          (Removing s d (rules w))
          (unbypassed s d (unmarked s d (rules w)))
          (delete_route_to_gateway h s d g w)
  unfolding delete_route_to_gateway
  delete_route_rules s d g w =
      let x = rules w in
      let y = unbypassed s d (unmarked s d x) in
      let done : Removing s d x y = inr (inr (inl refl)) in
      let all : Edits rules (Removing s d x) x (delete_route_to_gateway h s d g) y =
        Edits-bind x (Edits-Keeps (inl refl) (open_set-Keeps h L (Removing s d x) _ s)) λ set.
          Edits-bind y (unmark_and_unbypass-Edits s d x) λ _.
            Edits-bind y (Edits-Keeps done (delete_route-Keeps d g))
              λ _. Edits-Keeps done (Keeps-on_error _ (L.set_destroy-keeps set)) in
      all.at w refl

  -- Clearing a stale route, on such a host: when the call returns, the first mark rule and the
  -- first accept rule of the set and the destination are gone, where there were any, and no other
  -- rule has changed, as for a deletion; when it fails, the rules are as before, or without the
  -- first or without both.
  pub clear_stale_route_rules :
      (s d g : String) (w : W)
      → After rules
          (Removing s d (rules w))
          (unbypassed s d (unmarked s d (rules w)))
          (clear_stale_route_to_gateway h s d g w)
  unfolding clear_stale_route_to_gateway
  clear_stale_route_rules s d g w =
      let x = rules w in
      let y = unbypassed s d (unmarked s d x) in
      let done : Removing s d x y = inr (inr (inl refl)) in
      let all : Edits rules (Removing s d x) x (clear_stale_route_to_gateway h s d g) y =
        Edits-bind y (unmark_and_unbypass-Edits s d x)
          λ _. Edits-Keeps done (delete_route-Keeps d g) in
      all.at w refl
