-- ===== src/DeepCopy/Copies.antt =====
-- A deep copy of a list holds what the list holds, in arrays of its own.
use kube_static_egress_ip.Prelude.{
  ◌≡◌, refl, sym, ap, subst, ◌∙◌, ℕ, Option, none, some, List, [], ◌∷◌, map, arith,
}
use mathlib.Core.Path.{ap₂}
use kube_static_egress_ip.DeepCopy.{
  ObjectCell, ListCell, Memory, new_items, spec_deep_copy_into, egress_ip_deep_copy_into,
  copy_items, copy_array, list_deep_copy_into,
}
use kube_static_egress_ip.DeepCopy.Frames.{
  read_object, read_items, IsBetween, AreBetween, ReachesBetween, SameBelow, SameBelow-refl,
  SameBelow-trans, read_rules_same, read_objects_same, read_items_same, IsNew, copy_rules-IsNew,
  copy_rules-IsBetween, read-copy_rules, IsBetween-wider, AreBetween-wider,
}

-- The copies of the elements of an array.
pub record AreCopies (l : List ObjectCell) (m : Memory) (l' : List ObjectCell) (m' : Memory)
    : Type 0 where
  pub is_new : IsNew m m'
  pub between : AreBetween m.next m'.next l'
  pub reads : map (read_object m') l' ≡ map (read_object m) l

copies_then :
    (e e' : ObjectCell) (l l' : List ObjectCell) (m m' m'' : Memory)
    → IsNew m m'
    → IsBetween m.next m'.next e'.spec.rules
    → read_object m' e' ≡ read_object m e
    → AreBetween 0 m.next l
    → AreCopies l m' l' m''
    → AreCopies (e ∷ l) m (e' ∷ l') m''
copies_then e e' l l' m m' m'' new at reads below rest = record {
  is_new = record {
    grows = omega (arith, new.grows, rest.is_new.grows);
    same = SameBelow-trans m.next m'.next m m' m'' new.grows new.same rest.is_new.same;
  };
  between = (
    IsBetween-wider m.next m.next m'.next m''.next e'.spec.rules (omega arith) rest.is_new.grows at,
    AreBetween-wider m.next m'.next m''.next m''.next l' new.grows (omega arith) rest.between,
  );
  reads =
      ap₂ (◌∷◌)
        (ap (λ o. (e'.name, e'.namespace, o, e'.status))
            (read_rules_same m.next m'.next m' m'' e'.spec.rules at rest.is_new.same)
          ∙ reads)
        (rest.reads ∙ read_objects_same 0 m.next m m' l below new.same);
}

copy_items-AreCopies :
    (l : List ObjectCell) (m : Memory)
    → AreBetween 0 m.next l
    → AreCopies l m (copy_items l m).0 (copy_items l m).1
unfolding copy_items egress_ip_deep_copy_into spec_deep_copy_into
copy_items-AreCopies [] m t = record {
  is_new = record { grows = omega arith; same = SameBelow-refl _ m };
  between = tt;
  reads = refl;
}
copy_items-AreCopies (e ∷ l) m (first, rest) =
    let o = e.spec.rules in
    let (e', m') = egress_ip_deep_copy_into e m in
    let new = copy_rules-IsNew o m in
    copies_then e e' l (copy_items l m').0 m m' (copy_items l m').1 new (copy_rules-IsBetween o m)
      (ap (λ x. (e.name, e.namespace, x, e.status)) (read-copy_rules o m)) rest
      (copy_items-AreCopies l m'
        (AreBetween-wider 0 0 m.next m'.next l (omega arith) new.grows rest))

new_items-IsNew : (l : List ObjectCell) (m m' : Memory) → IsNew m m' → IsNew m (new_items l m').1
unfolding new_items
new_items-IsNew l m m' n = record {
  grows = omega (arith, n.grows);
  same = record {
    same_rules = n.same.same_rules;
    same_items = λ q lt. ground (arith, n.grows, n.same.same_items q lt);
  };
}

new_items-at : (l : List ObjectCell) (m : Memory) → (new_items l m).1.items_at m.next ≡ l
unfolding new_items
new_items-at l m = ground arith

copy_array_lem :
    (o : Option ℕ) (m : Memory)
    → ReachesBetween 0 m.next m o
    → let (o', m') = copy_array o m in
      IsNew m m' × (read_items m' o' ≡ read_items m o) × ReachesBetween m.next m'.next m' o'
unfolding copy_array new_items
copy_array_lem none m b = (record { grows = omega arith; same = SameBelow-refl _ m }, refl, tt)
copy_array_lem (some p) m (_, all) =
    let (l, m') = copy_items (m.items_at p) m in
    let copies = copy_items-AreCopies (m.items_at p) m all in
    let m'' = (new_items l m').1 in
    (
      new_items-IsNew l m m' copies.is_new,
      ap some (ap (map (read_object m'')) (new_items-at l m') ∙ copies.reads),
      (
        (omega (arith, copies.is_new.grows), omega arith),
        subst (AreBetween m.next m''.next) (sym (new_items-at l m')) (
            AreBetween-wider m.next m.next m'.next m''.next l (omega arith) (omega arith)
              copies.between),
      ),
    )

-- The deep copy of a list whose arrays are all allocated holds what the list holds, all its arrays
-- are new, and the list still holds the same in any later memory in which the arrays that were
-- there before the copy are the same, such as after writes to the copy's arrays.
pub list_copy_is_deep :
    (l : ListCell) (m later : Memory)
    → ReachesBetween 0 m.next m l.items
    → SameBelow m.next (list_deep_copy_into l m).1 later
    → let (c, m') = list_deep_copy_into l m in
      (read_items m' c.items ≡ read_items m l.items)
      × ReachesBetween m.next m'.next m' c.items
      × (read_items later l.items ≡ read_items m l.items)
unfolding list_deep_copy_into
list_copy_is_deep l m later below same =
    let (new, reads, fresh) = copy_array_lem l.items m below in
    (
      reads,
      fresh,
      read_items_same m.next m later l.items below (
          SameBelow-trans m.next m.next m (copy_array l.items m).1 later (omega arith) new.same
            same),
    )
