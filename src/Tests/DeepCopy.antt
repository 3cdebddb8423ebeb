-- ===== src/Tests/DeepCopy.antt =====
-- A list of one resource is copied, and the rules of the copy are overwritten.
use kube_static_egress_ip.Prelude.{◌≡◌, refl, some, [], ◌∷◌, nat_eqb, if◌then◌else◌, arith}
use kube_static_egress_ip.DeepCopy.{
  ObjectCell, ListCell, Memory, new_rules, new_items, copy_rules, spec_deep_copy_into,
  egress_ip_deep_copy_into, copy_items, copy_array, list_deep_copy_into,
}
use kube_static_egress_ip.DeepCopy.Frames.{read_items, ReachesBetween, SameBelow}
use kube_static_egress_ip.DeepCopy.Copies.{list_copy_is_deep}
use kube_static_egress_ip.Tests.Directed.{rule_a}

abbrev object : ObjectCell
object = record {
  name = "eip";
  namespace = "default";
  spec = record { rules = some 0 };
  status = record { gateway_node = ""; gateway_ip = "" };
}

abbrev memory : Memory
memory = record {
  next = 2;
  rules_at = λ p. if nat_eqb p 0 then rule_a ∷ [] else [];
  items_at = λ p. if nat_eqb p 1 then object ∷ [] else [];
}

abbrev list : ListCell
list = record { items = some 1 }

abbrev copied : ListCell × Memory
copied = list_deep_copy_into list memory

abbrev overwritten : Memory
overwritten = record copied.1 { rules_at = λ p. if nat_eqb p 2 then [] else copied.1.rules_at p }

written_above : SameBelow 2 copied.1 overwritten
written_above = record { same_rules = λ p lt. ground arith; same_items = λ p lt. refl }

list_copy_is_deep_example :
    (read_items copied.1 copied.0.items ≡ read_items memory list.items)
    × ReachesBetween 2 copied.1.next copied.1 copied.0.items
    × (read_items overwritten list.items
        ≡ some (("eip", "default", some (rule_a ∷ []), object.status) ∷ []))
unfolding list_deep_copy_into copy_array copy_items egress_ip_deep_copy_into spec_deep_copy_into
    copy_rules new_rules new_items
list_copy_is_deep_example =
    list_copy_is_deep list memory overwritten
      ((omega arith, omega arith), ((omega arith, omega arith), tt)) written_above
