-- ===== src/Director/Repeats.antt =====
-- Additions of the director repeated and undone.
use kube_static_egress_ip.Prelude.{
  ◌≡◌, ◌≢◌, subst, ◌∙◌, String, true, false, List, eq_iff, arith, inl, inr,
}
use kube_static_egress_ip.Effect.{ok}
use kube_static_egress_ip.Effect.Edits.{After-only, After}
use kube_static_egress_ip.Host.{Host}
use kube_static_egress_ip.Host.Rules.{Tables, IptablesLaws, has_rule, without_rule}
use kube_static_egress_ip.Host.Edit.{
  put_first, put_last, edit_same, edit-at, edit-at_ne, edit-edit, edit-edit_ne, has_rule-put_first,
  has_rule-put_last, without_rule-put_first, without_rule-put_last,
}
use kube_static_egress_ip.Chains.{accept_rule}
use kube_static_egress_ip.Director.{
  EgressDirector, mark_rule, bypass_chain, add_route_to_gateway, delete_route_to_gateway,
}
use kube_static_egress_ip.Director.Rules.{
  marked, bypassed, unmarked, unbypassed, Adding, Removing, add_route_rules, delete_route_rules,
}

pub mangle_ne_nat : ◌≢◌ {A = String} "mangle" "nat"
mangle_ne_nat = ground (arith, eq_iff "mangle" "nat")

pub nat_ne_mangle : ◌≢◌ {A = String} "nat" "mangle"
nat_ne_mangle = ground (arith, eq_iff "nat" "mangle")

-- Both rules are there after the two edits.
abbrev pub IsDirected : String → String → Tables → Type 0
IsDirected s d x =
    (has_rule (mark_rule s d) (x "mangle" "PREROUTING") ≡ true)
    × (has_rule (accept_rule s d) (x "nat" bypass_chain) ≡ true)

pub bypassed-marked-IsDirected :
    (s d : String) (x : Tables) → IsDirected s d (bypassed s d (marked s d x))
bypassed-marked-IsDirected s d x = (
  rw
      (
        edit-at_ne "nat" bypass_chain "mangle" "PREROUTING" (put_last (accept_rule s d))
            (marked s d x) nat_ne_mangle,
        edit-at "mangle" "PREROUTING" (put_first (mark_rule s d)) x,
      )
      (has_rule-put_first (mark_rule s d) (x "mangle" "PREROUTING")),
  rw (edit-at "nat" bypass_chain (put_last (accept_rule s d)) (marked s d x))
      (has_rule-put_last (accept_rule s d) (marked s d x "nat" bypass_chain)),
)

-- Adding again changes nothing where both rules are there.
directed_again : (s d : String) (x : Tables) → IsDirected s d x → bypassed s d (marked s d x) ≡ x
directed_again s d x (mark, accept) =
    rw (edit_same "mangle" "PREROUTING" (put_first (mark_rule s d)) x (rw mark))
      (edit_same "nat" bypass_chain (put_last (accept_rule s d)) x (rw accept))

only_same : (s d : String) (x : Tables) → IsDirected s d x → (v : Tables) → Adding s d x v → v ≡ x
only_same s d x there v (inl e) = e
only_same s d x (mark, accept) v (inr (inl e)) =
    e ∙ edit_same "mangle" "PREROUTING" (put_first (mark_rule s d)) x (rw mark)
only_same s d x there v (inr (inr (inl e))) = e ∙ directed_again s d x there
only_same s d x there v (inr (inr (inr never))) = elim never [ ]

-- Removing undoes adding, where neither rule was there before.
undirected :
    (s d : String) (x : Tables)
    → has_rule (mark_rule s d) (x "mangle" "PREROUTING") ≡ false
    → has_rule (accept_rule s d) (x "nat" bypass_chain) ≡ false
    → unbypassed s d (unmarked s d (bypassed s d (marked s d x))) ≡ x
undirected s d x mark accept =
    rw
      (
        edit-edit_ne "mangle" "PREROUTING" "nat" bypass_chain (without_rule (mark_rule s d))
            (put_last (accept_rule s d)) (marked s d x) mangle_ne_nat,
        edit-edit "mangle" "PREROUTING" (without_rule (mark_rule s d)) (put_first (mark_rule s d))
            x,
        edit_same "mangle" "PREROUTING"
            (λ l. without_rule (mark_rule s d) (put_first (mark_rule s d) l)) x
            (without_rule-put_first (mark_rule s d) (x "mangle" "PREROUTING") mark),
        edit-edit "nat" bypass_chain (without_rule (accept_rule s d)) (put_last (accept_rule s d))
            x,
      )
      (edit_same "nat" bypass_chain
        (λ l. without_rule (accept_rule s d) (put_last (accept_rule s d) l)) x
        (without_rule-put_last (accept_rule s d) (x "nat" bypass_chain) accept))

module _ {W : Type 0} (h : Host W) (L : IptablesLaws h) where
  open L use {rules}

  add_route_ok :
      (dir : EgressDirector) (s : String) (ips : List String) (d g : String) (w w' : W)
      → add_route_to_gateway h dir s ips d g w ≡ (ok tt, w')
      → rules w' ≡ bypassed s d (marked s d (rules w))
  add_route_ok dir s ips d g w w' e =
      subst (After rules (Adding s d (rules w)) (bypassed s d (marked s d (rules w)))) e
        (add_route_rules h L dir s ips d g w)

  -- On a host whose iptables calls do what they are documented to do, adding a route is idempotent
  -- on the rules: after a call that returned, both rules are there, and a second call for the same
  -- set and destination, with any addresses and any gateway and however it ends, leaves every rule
  -- as the first one left it.
  pub add_route_again :
      (dir : EgressDirector) (s : String) (ips ips' : List String) (d g g' : String) (w w' : W)
      → add_route_to_gateway h dir s ips d g w ≡ (ok tt, w')
      → IsDirected s d (rules w') × (rules (add_route_to_gateway h dir s ips' d g' w').1 ≡ rules w')
  add_route_again dir s ips ips' d g g' w w' e =
      let there : IsDirected s d (rules w') =
        rw (add_route_ok dir s ips d g w w' e) (bypassed-marked-IsDirected s d (rules w)) in
      (
        there,
        After-only rules (Adding s d (rules w')) (rules w') (bypassed s d (marked s d (rules w')))
            (add_route_to_gateway h dir s ips' d g' w').0
            (add_route_to_gateway h dir s ips' d g' w').1 (only_same s d (rules w') there)
            (directed_again s d (rules w') there) (add_route_rules h L dir s ips' d g' w'),
      )

  -- On a host whose iptables calls do what they are documented to do, deleting undoes adding: where
  -- neither rule was there, an addition and then a deletion that both return leave all iptables
  -- rules as they were.
  pub delete_route-add_route :
      (dir : EgressDirector) (s : String) (ips : List String) (d g g' : String) (w w' w'' : W)
      → has_rule (mark_rule s d) (rules w "mangle" "PREROUTING") ≡ false
      → has_rule (accept_rule s d) (rules w "nat" bypass_chain) ≡ false
      → add_route_to_gateway h dir s ips d g w ≡ (ok tt, w')
      → delete_route_to_gateway h s d g' w' ≡ (ok tt, w'')
      → rules w'' ≡ rules w
  delete_route-add_route dir s ips d g g' w w' w'' mark accept added deleted =
      subst (After rules (Removing s d (rules w')) (unbypassed s d (unmarked s d (rules w'))))
        deleted (delete_route_rules h L s d g' w')
      ∙ rw (add_route_ok dir s ips d g w w' added) (undirected s d (rules w) mark accept)
