-- ===== src/Host/Edit.antt =====
-- Laws of edits of the rule tables, and of adding a rule to a chain and removing it.
use kube_static_egress_ip.Prelude.{
  ◌≡◌, ◌≢◌, refl, fun_ext, String, true, false, List, [], ◌∷◌, ◌++◌, eq_iff, arith, if◌then◌else◌,
}
use text.Mathlib.TextPositions.{eq_refl}
use kube_static_egress_ip.Host.{RuleSpec}
use kube_static_egress_ip.Host.Rules.{Tables, edit, same_spec, has_rule, without_rule}

-- The rules of one chain after a rule is added unless it is there.
abbrev pub put_first : RuleSpec → List RuleSpec → List RuleSpec
put_first r l = if has_rule r l then l else r ∷ l

abbrev pub put_last : RuleSpec → List RuleSpec → List RuleSpec
put_last r l = if has_rule r l then l else l ++ r ∷ []

pub edit_cong :
    (t c : String) (f g : List RuleSpec → List RuleSpec) (tables : Tables)
    → f (tables t c) ≡ g (tables t c)
    → edit t c f tables ≡ edit t c g tables
unfolding edit
edit_cong t c f g tables e = fun_ext λ t'. fun_ext λ c'. ground (arith, eq_iff t t', eq_iff c c', e)

pub edit_same :
    (t c : String) (f : List RuleSpec → List RuleSpec) (tables : Tables)
    → f (tables t c) ≡ tables t c
    → edit t c f tables ≡ tables
unfolding edit
edit_same t c f tables e = fun_ext λ t'. fun_ext λ c'. ground (arith, eq_iff t t', eq_iff c c', e)

pub edit-at :
    (t c : String) (f : List RuleSpec → List RuleSpec) (tables : Tables)
    → edit t c f tables t c ≡ f (tables t c)
unfolding edit
edit-at t c f tables = simp eq_refl

pub edit-at_ne :
    (t c t' c' : String) (f : List RuleSpec → List RuleSpec) (tables : Tables)
    → t ≢ t'
    → edit t c f tables t' c' ≡ tables t' c'
unfolding edit
edit-at_ne t c t' c' f tables ne = ground (arith, eq_iff t t')

pub edit-edit_ne :
    (t c t' c' : String) (f g : List RuleSpec → List RuleSpec) (tables : Tables)
    → t ≢ t'
    → edit t c f (edit t' c' g tables) ≡ edit t' c' g (edit t c f tables)
unfolding edit
edit-edit_ne t c t' c' f g tables ne =
    fun_ext λ u. fun_ext λ d. ground (arith, eq_iff t u, eq_iff t' u)

pub edit-edit :
    (t c : String) (f g : List RuleSpec → List RuleSpec) (tables : Tables)
    → edit t c f (edit t c g tables) ≡ edit t c (λ l. f (g l)) tables
unfolding edit
edit-edit t c f g tables = fun_ext λ u. fun_ext λ d. ground (arith, eq_iff t u, eq_iff c d)

same_spec_refl : (r : RuleSpec) → same_spec r r ≡ true
same_spec_refl [] = refl
same_spec_refl (a ∷ r) = rw (eq_refl, same_spec_refl r)

pub has_rule-append : (r : RuleSpec) (l : List RuleSpec) → has_rule r (l ++ r ∷ []) ≡ true
has_rule-append r [] = ground (arith, same_spec_refl r)
has_rule-append r (s ∷ l) = ground (arith, has_rule-append r l)

pub has_rule-put_first : (r : RuleSpec) (l : List RuleSpec) → has_rule r (put_first r l) ≡ true
has_rule-put_first r l = ground (arith, same_spec_refl r)

pub has_rule-put_last : (r : RuleSpec) (l : List RuleSpec) → has_rule r (put_last r l) ≡ true
has_rule-put_last r l = ground (arith, has_rule-append r l)

pub without_rule_absent :
    (r : RuleSpec) (l : List RuleSpec) → has_rule r l ≡ false → without_rule r l ≡ l
without_rule_absent r [] e = refl
without_rule_absent r (s ∷ l) e = ground (arith, without_rule_absent r l)

without_rule-append :
    (r : RuleSpec) (l : List RuleSpec) → has_rule r l ≡ false → without_rule r (l ++ r ∷ []) ≡ l
without_rule-append r [] e = ground (arith, same_spec_refl r)
without_rule-append r (s ∷ l) e = ground (arith, without_rule-append r l)

pub without_rule-put_first :
    (r : RuleSpec) (l : List RuleSpec) → has_rule r l ≡ false → without_rule r (put_first r l) ≡ l
without_rule-put_first r l e = ground (arith, same_spec_refl r)

pub without_rule-put_last :
    (r : RuleSpec) (l : List RuleSpec) → has_rule r l ≡ false → without_rule r (put_last r l) ≡ l
without_rule-put_last r l e = ground (arith, without_rule-append r l)
