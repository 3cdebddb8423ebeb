-- ===== src/Host/Counts.antt =====
-- How often a rule stands in a chain, before and after the chain is edited.
use kube_static_egress_ip.Prelude.{
  ℕ, suc, ◌-◌, ◌≡◌, refl, Bool, true, ◌||◌, List, [], ◌∷◌, ◌++◌, eq_iff, arith, if◌then◌else◌, ltb,
}
use text.Mathlib.TextPositions.{eq_refl}
use kube_static_egress_ip.Host.{RuleSpec}
use kube_static_egress_ip.Host.Rules.{same_spec, has_rule, without_rule}
use kube_static_egress_ip.Host.Edit.{put_first, put_last}

-- The occurrences of a rule.
abbrev pub times : RuleSpec → List RuleSpec → ℕ
times r [] = 0
times r (s ∷ l) = let rest = times r l in if same_spec r s then suc rest else rest

pub same_spec-eq : (r s : RuleSpec) → same_spec r s ≡ true → r ≡ s
same_spec-eq [] [] e = refl
same_spec-eq [] (b ∷ s) e = cc
same_spec-eq (a ∷ r) [] e = cc
same_spec-eq (a ∷ r) (b ∷ s) e = ground (arith, eq_iff a b, same_spec-eq r s)

same_spec_refl : (r : RuleSpec) → same_spec r r ≡ true
same_spec_refl [] = refl
same_spec_refl (a ∷ r) = rw (eq_refl, same_spec_refl r)

pub has_rule-times : (r : RuleSpec) (l : List RuleSpec) → has_rule r l ≡ ltb 0 (times r l)
has_rule-times r [] = refl
has_rule-times r (s ∷ l) = ground (arith, has_rule-times r l)

times-append :
    (r q : RuleSpec) (l : List RuleSpec)
    → times r (l ++ q ∷ []) ≡ (if same_spec r q then suc (times r l) else times r l)
times-append r q [] = refl
times-append r q (s ∷ l) = ground (arith, times-append r q l)

-- A rule that is added unless it is there.
abbrev pub put : Bool → ℕ → ℕ
put same n = if same then (if ltb 0 n then n else suc n) else n

pub times-put_first :
    (r q : RuleSpec) (l : List RuleSpec) → times r (put_first q l) ≡ put (same_spec r q) (times r l)
times-put_first r q l = ground (arith, has_rule-times r l, has_rule-times q l, same_spec-eq r q)

pub times-put_last :
    (r q : RuleSpec) (l : List RuleSpec) → times r (put_last q l) ≡ put (same_spec r q) (times r l)
times-put_last r q l =
    ground (arith, has_rule-times r l, has_rule-times q l, same_spec-eq r q, times-append r q l)

-- The first occurrence of a rule is deleted.
pub times-without_rule :
    (r q : RuleSpec) (l : List RuleSpec)
    → times r (without_rule q l) ≡ (if same_spec r q then times r l - 1 else times r l)
times-without_rule r q [] = ground arith
times-without_rule r q (s ∷ l) = ground (
  arith,
  times-without_rule r q l,
  same_spec-eq r q,
  same_spec-eq q s,
  same_spec-eq r s,
  same_spec_refl q,
)

-- A rule is there after another has been put exactly if it was, or is the other.
pub has_rule-put_first_at :
    (r q : RuleSpec) (l : List RuleSpec)
    → has_rule r (put_first q l) ≡ (same_spec r q || has_rule r l)
has_rule-put_first_at r q l =
    ground (arith, has_rule-times r (put_first q l), has_rule-times r l, times-put_first r q l)

pub has_rule-put_last_at :
    (r q : RuleSpec) (l : List RuleSpec)
    → has_rule r (put_last q l) ≡ (same_spec r q || has_rule r l)
has_rule-put_last_at r q l =
    ground (arith, has_rule-times r (put_last q l), has_rule-times r l, times-put_last r q l)
