-- ===== src/Director/Directed/Runs.antt =====
-- Sequences of calls of the director, against the same changes of a set of pairs.
use kube_static_egress_ip.Prelude.{
  ◌≡◌, refl, ap, ◌∙◌, subst, String, Bool, true, false, ◌&&◌, ◌||◌, List, [], ◌∷◌, ◌==◌, eq_iff,
  arith, inl, inr, sym, Bool-cases,
}
use kube_static_egress_ip.Effect.{
  continue, M, Outcome, ok, err, panicked, exited, ◌>>=◌, for_each, logged,
}
use kube_static_egress_ip.Effect.Edits.{After, After-any}
use kube_static_egress_ip.Effect.Moves.{IsPreorder, Moves, Moves-pure, Moves-bind, Moves-logged}
use kube_static_egress_ip.Host.{Host}
use kube_static_egress_ip.Host.Rules.{Tables, IptablesLaws}
use kube_static_egress_ip.Director.{
  EgressDirector, add_route_to_gateway, delete_route_to_gateway, clear_stale_route_to_gateway,
}
use kube_static_egress_ip.Director.Rules.{
  Adding, Removing, add_route_rules, delete_route_rules, clear_stale_route_rules,
}
use kube_static_egress_ip.Director.Directed.{Directed, directed, IsClean, update}
use kube_static_egress_ip.Director.Directed.Steps.{
  Local, Adding-Local, Removing-Local, directed-added, directed-removed,
}

-- A call of the director: the set, the source addresses, the destination and the gateway.
pub data Call : Type 0 where
  add : String → List String → String → String → Call
  remove clear : String → String → String → Call

abbrev pub set_of : Call → String
set_of (add s ips d g) = s
set_of (remove s d g) = s
set_of (clear s d g) = s

abbrev pub destination_of : Call → String
destination_of (add s ips d g) = d
destination_of (remove s d g) = d
destination_of (clear s d g) = d

abbrev pub directs : Call → Bool
directs (add s ips d g) = true
directs (remove s d g) = false
directs (clear s d g) = false

-- The same calls on a set of pairs.
abbrev pub replay : List Call → Directed → Directed
replay [] f = f
replay (c ∷ l) f = replay l (update f (set_of c) (destination_of c) (directs c))

-- The pairs that the calls are about.
abbrev pub is_named : List Call → String → String → Bool
is_named [] s d = false
is_named (c ∷ l) s d = s == set_of c && d == destination_of c || is_named l s d

-- From clean rules to clean rules, with all pairs as they were that are not named.
abbrev pub Leaves : (String → String → Bool) → Tables → Tables → Type 0
Leaves named x y =
    IsClean x → IsClean y × ((s d : String) → named s d ≡ false → directed y s d ≡ directed x s d)

Leaves-IsPreorder : (named : String → String → Bool) → IsPreorder (Leaves named)
Leaves-IsPreorder named = record {
  same = λ x c. (c, λ s d n. refl);
  then_after = λ x y z p q c. ((q (p c).0).0, λ s d n. (q (p c).0).1 s d n ∙ (p c).1 s d n);
}

module _ {W : Type 0} (h : Host W) (dir : EgressDirector) where
  unfoldable pub perform : Call → M W (Unit {0})
  perform (add s ips d g) = add_route_to_gateway h dir s ips d g
  perform (remove s d g) = delete_route_to_gateway h s d g
  perform (clear s d g) = clear_stale_route_to_gateway h s d g

module _ {W : Type 0} (h : Host W) (L : IptablesLaws h) (dir : EgressDirector) where
  open L use {rules}

  -- However a call ends.
  perform-Local :
      (c : Call) (w : W)
      → IsClean (rules w)
      → Local (set_of c) (destination_of c) (rules w) (rules (perform h dir c w).1)
  unfolding perform
  perform-Local (add s ips d g) w clean =
      After-any rules (Adding s d (rules w)) (Local s d (rules w)) _ _ _
        (λ v. Adding-Local s d (rules w) v clean)
        (Adding-Local s d (rules w) _ clean (inr (inr (inl refl))))
        (add_route_rules h L dir s ips d g w)
  perform-Local (remove s d g) w clean =
      After-any rules (Removing s d (rules w)) (Local s d (rules w)) _ _ _
        (λ v. Removing-Local s d (rules w) v clean)
        (Removing-Local s d (rules w) _ clean (inr (inr (inl refl))))
        (delete_route_rules h L s d g w)
  perform-Local (clear s d g) w clean =
      After-any rules (Removing s d (rules w)) (Local s d (rules w)) _ _ _
        (λ v. Removing-Local s d (rules w) v clean)
        (Removing-Local s d (rules w) _ clean (inr (inr (inl refl))))
        (clear_stale_route_rules h L s d g w)

  -- Where a call returned.
  perform_ok :
      (c : Call) (w w' : W)
      → IsClean (rules w)
      → perform h dir c w ≡ (ok tt, w')
      → directed (rules w') ≡ update (directed (rules w)) (set_of c) (destination_of c) (directs c)
  unfolding perform
  perform_ok (add s ips d g) w w' clean e =
      ap directed
        (subst (After rules (Adding s d (rules w)) _) e (add_route_rules h L dir s ips d g w))
      ∙ directed-added s d (rules w)
  perform_ok (remove s d g) w w' clean e =
      ap directed
        (subst (After rules (Removing s d (rules w)) _) e (delete_route_rules h L s d g w))
      ∙ directed-removed s d (rules w) clean
  perform_ok (clear s d g) w w' clean e =
      ap directed
        (subst (After rules (Removing s d (rules w)) _) e (clear_stale_route_rules h L s d g w))
      ∙ directed-removed s d (rules w) clean

  step-IsClean :
      (c : Call) (w w' : W)
      → IsClean (rules w)
      → perform h dir c w ≡ (ok tt, w')
      → IsClean (rules w')
  step-IsClean c w w' clean e =
      subst (λ (r : Outcome (Unit {0}) × W). IsClean (rules r.1)) e (perform-Local c w clean).clean

  -- The calls of a sequence that returns return one by one.
  stepwise :
      (c : Call) (l : List Call) (w w' : W)
      → for_each (perform h dir) (c ∷ l) w ≡ (ok tt, w')
      → (w₁ : W) × (perform h dir c w ≡ (ok tt, w₁)) × (for_each (perform h dir) l w₁ ≡ (ok tt, w'))
  unfolding for_each ◌>>=◌
  stepwise c l w w' e = go (perform h dir c w).0 (perform h dir c w).1 refl e
    where
      go :
          (o : Outcome (Unit {0})) (w₁ : W)
          → perform h dir c w ≡ (o, w₁)
          → continue o (λ _. for_each (perform h dir) l) w₁ ≡ (ok tt, w')
          → (w₁ : W) × (perform h dir c w ≡ (ok tt, w₁))
            × (for_each (perform h dir) l w₁ ≡ (ok tt, w'))
      go (ok t) w₁ p e = (w₁, p, e)
      go (err x) w₁ p e = absurd (cc)
      go (panicked m) w₁ p e = absurd (cc)
      go (exited m) w₁ p e = absurd (cc)

  -- On a host whose iptables calls do what they are documented to do, from rules among which no
  -- rule of the director is there twice, any sequence of additions, deletions and clearings that
  -- returns ends in such rules, and they direct exactly the pairs of a set and a destination that
  -- the same changes of a set of pairs lead to.
  pub run_refines :
      (l : List Call) (w w' : W)
      → IsClean (rules w)
      → for_each (perform h dir) l w ≡ (ok tt, w')
      → IsClean (rules w') × (directed (rules w') ≡ replay l (directed (rules w)))
  unfolding for_each
  run_refines [] w w' clean e =
      let same : rules w ≡ rules w' = ap (λ (r : Outcome (Unit {0}) × W). rules r.1) e in
      (subst IsClean same clean, ap directed (sym same))
  run_refines (c ∷ l) w w' clean e =
      let (w₁, first, rest) = stepwise c l w w' e in
      let (clean', after) = run_refines l w₁ w' (step-IsClean c w w₁ clean first) rest in
      (clean', after ∙ ap (replay l) (perform_ok c w w₁ clean first))

  perform-Leaves :
      (named : String → String → Bool) (c : Call)
      → named (set_of c) (destination_of c) ≡ true
      → Moves rules (Leaves named) (perform h dir c)
  perform-Leaves named c there = record {
    at = λ w clean. (
      (perform-Local c w clean).clean,
      λ s d out. (perform-Local c w clean).others s d (other s d out),
    );
  }
    where
      other : (s d : String) → named s d ≡ false → (s == set_of c && d == destination_of c) ≡ false
      other s d out = elim (Bool-cases (s == set_of c && d == destination_of c)) [
        | inl same ↦ ground (arith, eq_iff s (set_of c), eq_iff d (destination_of c))
        | inr ne ↦ ne
      ]

  attempts-Leaves :
      (named : String → String → Bool) (l : List Call)
      → ((s d : String) → is_named l s d ≡ true → named s d ≡ true)
      → Moves rules (Leaves named) (for_each (λ c. logged (perform h dir c)) l)
  unfolding for_each
  attempts-Leaves named [] all = Moves-pure (Leaves-IsPreorder named) tt
  attempts-Leaves named (c ∷ l) all =
      let o = Leaves-IsPreorder named in
      Moves-bind o
        (Moves-logged o (
          perform-Leaves named c (
            all (set_of c) (destination_of c) (
              ground (
                arith,
                eq_iff (set_of c) (set_of c),
                eq_iff (destination_of c) (destination_of c),
              )))))
        (λ _. attempts-Leaves named l (λ s d n. all s d (ground arith)))

  -- On such a host, from such rules, any sequence of calls whose errors are only logged, as the
  -- controller logs them, ends in such rules, and a pair that no call names is directed afterwards
  -- exactly if it was before, however the calls and the sequence end.
  pub attempts_leave :
      (l : List Call) (w : W)
      → IsClean (rules w)
      → let x = rules (for_each (λ c. logged (perform h dir c)) l w).1 in
        IsClean x
        × ((s d : String) → is_named l s d ≡ false → directed x s d ≡ directed (rules w) s d)
  attempts_leave l w clean = (attempts-Leaves (is_named l) l (λ s d n. n)).at w clean
