-- ===== src/Gateway/Translated.antt =====
-- The traffic that a gateway accepts and translates, as three sets that are read off its iptables
-- rules: an abstract view that forgets the order of the rules and all other rules.
use kube_static_egress_ip.Prelude.{◌≡◌, ◌≢◌, refl, String, Bool, ◌&&◌, ◌||◌, ◌==◌, eq_iff, arith}
use kube_static_egress_ip.Host.Rules.{Tables, same_spec, has_rule}
use kube_static_egress_ip.Host.Edit.{put_first, put_last, edit-at, edit-at_ne}
use kube_static_egress_ip.Host.Counts.{has_rule-put_first_at, has_rule-put_last_at}
use kube_static_egress_ip.Chains.{accept_rule}
use kube_static_egress_ip.Gateway.{nat_chain, forward_chain, snat_rule, return_rule}
use kube_static_egress_ip.Gateway.Rules.{forwarded, translated, added}

-- The pairs of a set and a destination whose traffic is accepted.
abbrev pub accepted : Tables → String → String → Bool
accepted x s d = has_rule (accept_rule s d) (x "filter" forward_chain)

-- The traffic that gets an egress address.
abbrev pub snats : Tables → String → String → String → Bool
snats x s d e = has_rule (snat_rule s d e) (x "nat" nat_chain)

-- The returning traffic that is marked.
abbrev pub returns : Tables → String → String → Bool
returns x d e = has_rule (return_rule d e) (x "mangle" "PREROUTING")

same_spec-accept :
    (s d s' d' : String) → same_spec (accept_rule s' d') (accept_rule s d) ≡ (s' == s && d' == d)
same_spec-accept s d s' d' = ground arith

pub same_spec-snat :
    (s d e s' d' e' : String)
    → same_spec (snat_rule s' d' e') (snat_rule s d e) ≡ (s' == s && d' == d && e' == e)
same_spec-snat s d e s' d' e' = ground arith

same_spec-return :
    (d e d' e' : String) → same_spec (return_rule d' e') (return_rule d e) ≡ (d' == d && e' == e)
same_spec-return d e d' e' = ground arith

filter_ne_nat : ◌≢◌ {A = String} "nat" "filter"
filter_ne_nat = ground (arith, eq_iff "nat" "filter")

mangle_ne_filter : ◌≢◌ {A = String} "mangle" "filter"
mangle_ne_filter = ground (arith, eq_iff "mangle" "filter")

mangle_ne_nat : ◌≢◌ {A = String} "mangle" "nat"
mangle_ne_nat = ground (arith, eq_iff "mangle" "nat")

nat_ne_mangle : ◌≢◌ {A = String} "nat" "mangle"
nat_ne_mangle = ground (arith, eq_iff "nat" "mangle")

filter_ne_mangle : ◌≢◌ {A = String} "filter" "mangle"
filter_ne_mangle = ground (arith, eq_iff "filter" "mangle")

pub nat_after_filter : ◌≢◌ {A = String} "filter" "nat"
nat_after_filter = ground (arith, eq_iff "filter" "nat")

-- What an addition puts into the three sets.
pub accepted-added :
    (s d e : String) (x : Tables) (s' d' : String)
    → accepted (added s d e x) s' d' ≡ (s' == s && d' == d || accepted x s' d')
accepted-added s d e x s' d' =
    rw
      (
        edit-at_ne "mangle" "PREROUTING" "filter" forward_chain (put_first (return_rule d e))
            (translated s d e (forwarded s d x)) mangle_ne_filter,
        edit-at_ne "nat" nat_chain "filter" forward_chain (put_first (snat_rule s d e))
            (forwarded s d x) filter_ne_nat,
        edit-at "filter" forward_chain (put_last (accept_rule s d)) x,
        has_rule-put_last_at (accept_rule s' d') (accept_rule s d) (x "filter" forward_chain),
        same_spec-accept s d s' d',
      )
      refl

pub snats-added :
    (s d e : String) (x : Tables) (s' d' e' : String)
    → snats (added s d e x) s' d' e' ≡ (s' == s && d' == d && e' == e || snats x s' d' e')
snats-added s d e x s' d' e' =
    rw
      (
        edit-at_ne "mangle" "PREROUTING" "nat" nat_chain (put_first (return_rule d e))
            (translated s d e (forwarded s d x)) mangle_ne_nat,
        edit-at "nat" nat_chain (put_first (snat_rule s d e)) (forwarded s d x),
        has_rule-put_first_at (snat_rule s' d' e') (snat_rule s d e)
            (forwarded s d x "nat" nat_chain),
        edit-at_ne "filter" forward_chain "nat" nat_chain (put_last (accept_rule s d)) x
            nat_after_filter,
        same_spec-snat s d e s' d' e',
      )
      refl

pub returns-added :
    (s d e : String) (x : Tables) (d' e' : String)
    → returns (added s d e x) d' e' ≡ (d' == d && e' == e || returns x d' e')
returns-added s d e x d' e' =
    rw
      (
        edit-at "mangle" "PREROUTING" (put_first (return_rule d e))
            (translated s d e (forwarded s d x)),
        has_rule-put_first_at (return_rule d' e') (return_rule d e)
            (translated s d e (forwarded s d x) "mangle" "PREROUTING"),
        edit-at_ne "nat" nat_chain "mangle" "PREROUTING" (put_first (snat_rule s d e))
            (forwarded s d x) nat_ne_mangle,
        edit-at_ne "filter" forward_chain "mangle" "PREROUTING" (put_last (accept_rule s d)) x
            filter_ne_mangle,
        same_spec-return d e d' e',
      )
      refl
