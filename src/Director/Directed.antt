-- ===== src/Director/Directed.antt =====
-- The traffic that a node directs to a gateway, as a set of pairs of an ipset and a destination: an
-- abstract view of its iptables rules that forgets their order and all other rules.
pub mod Steps
pub mod Runs
pub mod Total
pub mod Removals
use kube_static_egress_ip.Prelude.{
  ℕ, suc, ◌-◌, ◌≤◌, ◌≡◌, ◌≢◌, refl, ap, ◌∙◌, sym, fun_ext, String, Bool, true, false, ◌&&◌, List,
  [], ◌∷◌, ◌==◌, eq_iff, arith, if◌then◌else◌, ltb, inl, inr,
}
use kube_static_egress_ip.Host.Rules.{Tables, same_spec, has_rule, without_rule}
use kube_static_egress_ip.Host.Edit.{put_first, put_last, edit-at, edit-at_ne}
use kube_static_egress_ip.Host.Counts.{
  times, put, has_rule-times, times-put_first, times-put_last, times-without_rule,
}
use kube_static_egress_ip.Chains.{accept_rule}
use kube_static_egress_ip.Director.{mark_rule, bypass_chain}
use kube_static_egress_ip.Director.Rules.{marked, bypassed, unmarked, unbypassed, Adding, Removing}
use kube_static_egress_ip.Director.Repeats.{nat_ne_mangle, mangle_ne_nat}

abbrev pub Directed : Type 0
Directed = String → String → Bool

-- How often the two rules of a pair are there.
abbrev pub marks : Tables → String → String → ℕ
marks x s d = times (mark_rule s d) (x "mangle" "PREROUTING")

abbrev pub accepts : Tables → String → String → ℕ
accepts x s d = times (accept_rule s d) (x "nat" bypass_chain)

-- A pair is directed if both of its rules are there.
unfoldable pub directed : Tables → Directed
directed x s d =
    has_rule (mark_rule s d) (x "mangle" "PREROUTING")
    && has_rule (accept_rule s d) (x "nat" bypass_chain)

-- No rule of the director is there twice.
pub record IsClean (x : Tables) : Type 0 where
  pub marks_once : (s d : String) → marks x s d ≤ 1
  pub accepts_once : (s d : String) → accepts x s d ≤ 1

-- A set of pairs changed at one pair.
abbrev pub update : Directed → String → String → Bool → Directed
update f s d b s' d' = if s == s' && d == d' then b else f s' d'

same_spec-mark :
    (s d s' d' : String) → same_spec (mark_rule s' d') (mark_rule s d) ≡ (s' == s && d' == d)
same_spec-mark s d s' d' = ground arith

same_spec-accept :
    (s d s' d' : String) → same_spec (accept_rule s' d') (accept_rule s d) ≡ (s' == s && d' == d)
same_spec-accept s d s' d' = ground arith

pub directed-counts :
    (x : Tables) (s d : String) → directed x s d ≡ (ltb 0 (marks x s d) && ltb 0 (accepts x s d))
unfolding directed
directed-counts x s d =
    rw
      (
        has_rule-times (mark_rule s d) (x "mangle" "PREROUTING"),
        has_rule-times (accept_rule s d) (x "nat" bypass_chain),
      )
      refl

-- The counts after each edit.
pub marks-marked :
    (s d s' d' : String) (x : Tables)
    → marks (marked s d x) s' d' ≡ put (s' == s && d' == d) (marks x s' d')
marks-marked s d s' d' x =
    rw
      (
        edit-at "mangle" "PREROUTING" (put_first (mark_rule s d)) x,
        times-put_first (mark_rule s' d') (mark_rule s d) (x "mangle" "PREROUTING"),
        same_spec-mark s d s' d',
      )
      refl

pub accepts-marked :
    (s d s' d' : String) (x : Tables) → accepts (marked s d x) s' d' ≡ accepts x s' d'
accepts-marked s d s' d' x =
    rw
      (edit-at_ne "mangle" "PREROUTING" "nat" bypass_chain (put_first (mark_rule s d)) x
        mangle_ne_nat)
      refl

pub marks-bypassed :
    (s d s' d' : String) (x : Tables) → marks (bypassed s d x) s' d' ≡ marks x s' d'
marks-bypassed s d s' d' x =
    rw
      (edit-at_ne "nat" bypass_chain "mangle" "PREROUTING" (put_last (accept_rule s d)) x
        nat_ne_mangle)
      refl

pub accepts-bypassed :
    (s d s' d' : String) (x : Tables)
    → accepts (bypassed s d x) s' d' ≡ put (s' == s && d' == d) (accepts x s' d')
accepts-bypassed s d s' d' x =
    rw
      (
        edit-at "nat" bypass_chain (put_last (accept_rule s d)) x,
        times-put_last (accept_rule s' d') (accept_rule s d) (x "nat" bypass_chain),
        same_spec-accept s d s' d',
      )
      refl

pub marks-unmarked :
    (s d s' d' : String) (x : Tables)
    → marks (unmarked s d x) s' d'
      ≡ (if s' == s && d' == d then marks x s' d' - 1 else marks x s' d')
marks-unmarked s d s' d' x =
    rw
      (
        edit-at "mangle" "PREROUTING" (without_rule (mark_rule s d)) x,
        times-without_rule (mark_rule s' d') (mark_rule s d) (x "mangle" "PREROUTING"),
        same_spec-mark s d s' d',
      )
      refl

pub accepts-unmarked :
    (s d s' d' : String) (x : Tables) → accepts (unmarked s d x) s' d' ≡ accepts x s' d'
accepts-unmarked s d s' d' x =
    rw
      (edit-at_ne "mangle" "PREROUTING" "nat" bypass_chain (without_rule (mark_rule s d)) x
        mangle_ne_nat)
      refl

pub marks-unbypassed :
    (s d s' d' : String) (x : Tables) → marks (unbypassed s d x) s' d' ≡ marks x s' d'
marks-unbypassed s d s' d' x =
    rw
      (edit-at_ne "nat" bypass_chain "mangle" "PREROUTING" (without_rule (accept_rule s d)) x
        nat_ne_mangle)
      refl

pub accepts-unbypassed :
    (s d s' d' : String) (x : Tables)
    → accepts (unbypassed s d x) s' d'
      ≡ (if s' == s && d' == d then accepts x s' d' - 1 else accepts x s' d')
accepts-unbypassed s d s' d' x =
    rw
      (
        edit-at "nat" bypass_chain (without_rule (accept_rule s d)) x,
        times-without_rule (accept_rule s' d') (accept_rule s d) (x "nat" bypass_chain),
        same_spec-accept s d s' d',
      )
      refl

pub ruleset counts = (
  marks-marked, accepts-marked, marks-bypassed, accepts-bypassed, marks-unmarked, accepts-unmarked,
  marks-unbypassed, accepts-unbypassed,
)
