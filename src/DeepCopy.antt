-- ===== src/DeepCopy.antt =====
-- pkg/apis/egressip/v1alpha1/zz_generated.deepcopy.go: deep copies of the custom resource and of
-- its lists, over a memory of arrays. A slice is the address of its array, and a nil slice `none`;
-- a pointer is the value that it points to, and a nil pointer `none`, since each copy goes to a new
-- one. Of the metadata there are the name and the namespace, which are texts.
pub mod Frames
pub mod Copies
use kube_static_egress_ip.Prelude.{
  ℕ, suc, String, Option, none, some, List, [], ◌∷◌, nat_eqb, if◌then◌else◌,
}
use kube_static_egress_ip.Api.{Rule, StaticEgressIpStatus}

pub record SpecCell : Type 0 where
  pub rules : Option ℕ

pub record ObjectCell : Type 0 where
  pub name : String
  pub namespace : String
  pub spec : SpecCell
  pub status : StaticEgressIpStatus

pub record ListCell : Type 0 where
  pub items : Option ℕ

-- The arrays of rules and of objects; addresses from `next` on are free.
pub record Memory : Type 0 where
  pub next : ℕ
  pub rules_at : ℕ → List Rule
  pub items_at : ℕ → List ObjectCell

-- make([]Rule, len(*in)) and copy(*out, *in)
unfoldable pub new_rules : List Rule → Memory → ℕ × Memory
new_rules l m = (
  m.next,
  record m { next = suc m.next; rules_at = λ p. if nat_eqb p m.next then l else m.rules_at p },
)

-- make([]StaticEgressIP, len(*in)), once its elements are written.
unfoldable pub new_items : List ObjectCell → Memory → ℕ × Memory
new_items l m = (
  m.next,
  record m { next = suc m.next; items_at = λ p. if nat_eqb p m.next then l else m.items_at p },
)

-- DeepCopyInto gives the value that it writes to `out`.
abbrev pub rule_deep_copy_into : Rule → Memory → Rule × Memory
rule_deep_copy_into rule m = (rule, m)

abbrev pub status_deep_copy_into : StaticEgressIpStatus → Memory → StaticEgressIpStatus × Memory
status_deep_copy_into status m = (status, m)

unfoldable pub copy_rules : Option ℕ → Memory → Option ℕ × Memory
unfolding new_rules
copy_rules none m = (none, m)
copy_rules (some p) m = let (q, m') = new_rules (m.rules_at p) m in (some q, m')

unfoldable pub spec_deep_copy_into : SpecCell → Memory → SpecCell × Memory
unfolding copy_rules
spec_deep_copy_into spec m =
    let (rules, m') = copy_rules spec.rules m in (record spec { rules = rules }, m')

unfoldable pub egress_ip_deep_copy_into : ObjectCell → Memory → ObjectCell × Memory
unfolding spec_deep_copy_into
egress_ip_deep_copy_into e m =
    let (spec, m') = spec_deep_copy_into e.spec m in (record e { spec = spec }, m')

-- for i := range *in { (*in)[i].DeepCopyInto(&(*out)[i]) }
unfoldable pub copy_items : List ObjectCell → Memory → List ObjectCell × Memory
unfolding egress_ip_deep_copy_into
copy_items [] m = ([], m)
copy_items (e ∷ l) m =
    let (e', m') = egress_ip_deep_copy_into e m in let (l', m'') = copy_items l m' in (e' ∷ l', m'')

unfoldable pub copy_array : Option ℕ → Memory → Option ℕ × Memory
unfolding copy_items new_items
copy_array none m = (none, m)
copy_array (some p) m =
    let (items, m') = copy_items (m.items_at p) m in
    let (q, m'') = new_items items m' in (some q, m'')

unfoldable pub list_deep_copy_into : ListCell → Memory → ListCell × Memory
unfolding copy_array
list_deep_copy_into l m = let (items, m') = copy_array l.items m in (record l { items = items }, m')

-- if in == nil { return nil }; out := new(...); in.DeepCopyInto(out); return out
abbrev pub deep_copy :
    {A : Type 0} → (A → Memory → A × Memory) → Option A → Memory → Option A × Memory
deep_copy into none m = (none, m)
deep_copy into (some a) m = let (b, m') = into a m in (some b, m')

abbrev pub rule_deep_copy : Option Rule → Memory → Option Rule × Memory
rule_deep_copy = deep_copy rule_deep_copy_into

abbrev pub egress_ip_deep_copy : Option ObjectCell → Memory → Option ObjectCell × Memory
egress_ip_deep_copy = deep_copy egress_ip_deep_copy_into

abbrev pub list_deep_copy : Option ListCell → Memory → Option ListCell × Memory
list_deep_copy = deep_copy list_deep_copy_into

abbrev pub spec_deep_copy : Option SpecCell → Memory → Option SpecCell × Memory
spec_deep_copy = deep_copy spec_deep_copy_into

abbrev pub status_deep_copy :
    Option StaticEgressIpStatus → Memory → Option StaticEgressIpStatus × Memory
status_deep_copy = deep_copy status_deep_copy_into

-- A runtime.Object that is not nil.
pub data RuntimeObject : Type 0 where
  egress_ip : ObjectCell → RuntimeObject
  egress_ip_list : ListCell → RuntimeObject

-- if c := in.DeepCopy(); c != nil { return c }; return nil
abbrev pub egress_ip_deep_copy_object : Option ObjectCell → Memory → Option RuntimeObject × Memory
egress_ip_deep_copy_object object m =
    let (c, m') = egress_ip_deep_copy object m in
    (elim c [ some e ↦ some (egress_ip e) | none ↦ none ], m')

abbrev pub list_deep_copy_object : Option ListCell → Memory → Option RuntimeObject × Memory
list_deep_copy_object object m =
    let (c, m') = list_deep_copy object m in
    (elim c [ some l ↦ some (egress_ip_list l) | none ↦ none ], m')
