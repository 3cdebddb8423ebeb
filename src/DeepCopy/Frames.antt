-- ===== src/DeepCopy/Frames.antt =====
-- What a deep copy reads as, and which arrays it shares with the original: none.
use kube_static_egress_ip.Prelude.{
  ◌≡◌, refl, ap, ◌∙◌, ℕ, ◌≤◌, ◌<◌, String, Option, none, some, List, [], ◌∷◌, map, arith,
}
use mathlib.Core.Path.{ap₂}
use kube_static_egress_ip.Api.{Rule, StaticEgressIpStatus}
use kube_static_egress_ip.DeepCopy.{ObjectCell, Memory, new_rules, copy_rules}

-- What a slice of rules, an object and a list of objects hold, all arrays read.
abbrev pub read_rules : Memory → Option ℕ → Option (List Rule)
read_rules m none = none
read_rules m (some p) = some (m.rules_at p)

abbrev pub ObjectView : Type 0
ObjectView = String × String × Option (List Rule) × StaticEgressIpStatus

abbrev pub read_object : Memory → ObjectCell → ObjectView
read_object m e = (e.name, e.namespace, read_rules m e.spec.rules, e.status)

abbrev pub read_items : Memory → Option ℕ → Option (List ObjectView)
read_items m none = none
read_items m (some p) = some (map (read_object m) (m.items_at p))

-- An address of a slice is between two bounds.
abbrev pub IsBetween : ℕ → ℕ → Option ℕ → Type 0
IsBetween a b none = Unit
IsBetween a b (some p) = (a ≤ p) × (p < b)

abbrev pub AreBetween : ℕ → ℕ → List ObjectCell → Type 0
AreBetween a b [] = Unit
AreBetween a b (e ∷ l) = IsBetween a b e.spec.rules × AreBetween a b l

-- All that a list reaches is between two bounds.
abbrev pub ReachesBetween : ℕ → ℕ → Memory → Option ℕ → Type 0
ReachesBetween a b m none = Unit
ReachesBetween a b m (some p) = ((a ≤ p) × (p < b)) × AreBetween a b (m.items_at p)

-- Two memories with the same arrays below a bound.
pub record SameBelow (n : ℕ) (m m' : Memory) : Type 0 where
  pub same_rules : (p : ℕ) → p < n → m'.rules_at p ≡ m.rules_at p
  pub same_items : (p : ℕ) → p < n → m'.items_at p ≡ m.items_at p

pub SameBelow-refl : (n : ℕ) (m : Memory) → SameBelow n m m
SameBelow-refl n m = record { same_rules = λ p _. refl; same_items = λ p _. refl }

pub SameBelow-trans :
    (a b : ℕ) (m m' m'' : Memory)
    → a ≤ b
    → SameBelow a m m'
    → SameBelow b m' m''
    → SameBelow a m m''
SameBelow-trans a b m m' m'' le s t = record {
  same_rules = λ p lt. t.same_rules p (omega arith) ∙ s.same_rules p lt;
  same_items = λ p lt. t.same_items p (omega arith) ∙ s.same_items p lt;
}

pub read_rules_same :
    (a n : ℕ) (m m' : Memory) (o : Option ℕ)
    → IsBetween a n o
    → SameBelow n m m'
    → read_rules m' o ≡ read_rules m o
read_rules_same a n m m' none b s = refl
read_rules_same a n m m' (some p) (_, lt) s = ap some (s.same_rules p lt)

pub read_objects_same :
    (a n : ℕ) (m m' : Memory) (l : List ObjectCell)
    → AreBetween a n l
    → SameBelow n m m'
    → map (read_object m') l ≡ map (read_object m) l
read_objects_same a n m m' [] b s = refl
read_objects_same a n m m' (e ∷ l) (first, rest) s =
    ap₂ (◌∷◌)
      (ap (λ o. (e.name, e.namespace, o, e.status)) (read_rules_same a n m m' e.spec.rules first s))
      (read_objects_same a n m m' l rest s)

-- What is below a bound reads the same in memories that are the same there.
pub read_items_same :
    (n : ℕ) (m m' : Memory) (o : Option ℕ)
    → ReachesBetween 0 n m o
    → SameBelow n m m'
    → read_items m' o ≡ read_items m o
read_items_same n m m' none b s = refl
read_items_same n m m' (some p) ((_, lt), all) s = ap some (
    ap (map (read_object m')) (s.same_items p lt) ∙ read_objects_same 0 n m m' (m.items_at p) all s)

-- What a copy of a slice leaves: its address is new, and no old array has changed.
pub record IsNew (m m' : Memory) : Type 0 where
  pub grows : m.next ≤ m'.next
  pub same : SameBelow m.next m m'

pub copy_rules-IsNew : (o : Option ℕ) (m : Memory) → IsNew m (copy_rules o m).1
unfolding copy_rules new_rules
copy_rules-IsNew none m = record { grows = omega arith; same = SameBelow-refl _ m }
copy_rules-IsNew (some p) m = record {
  grows = omega arith;
  same = record { same_rules = λ q lt. ground arith; same_items = λ q lt. refl };
}

pub copy_rules-IsBetween :
    (o : Option ℕ) (m : Memory) → IsBetween m.next (copy_rules o m).1.next (copy_rules o m).0
unfolding copy_rules new_rules
copy_rules-IsBetween none m = tt
copy_rules-IsBetween (some p) m = (omega arith, omega arith)

pub read-copy_rules :
    (o : Option ℕ) (m : Memory) → read_rules (copy_rules o m).1 (copy_rules o m).0 ≡ read_rules m o
unfolding copy_rules new_rules
read-copy_rules none m = refl
read-copy_rules (some p) m = ground arith

pub IsBetween-wider :
    (a b c d : ℕ) (o : Option ℕ) → a ≤ b → c ≤ d → IsBetween b c o → IsBetween a d o
IsBetween-wider a b c d none x y t = tt
IsBetween-wider a b c d (some p) x y (le, lt) = (omega arith, omega arith)

pub AreBetween-wider :
    (a b c d : ℕ) (l : List ObjectCell) → a ≤ b → c ≤ d → AreBetween b c l → AreBetween a d l
AreBetween-wider a b c d [] x y t = tt
AreBetween-wider a b c d (e ∷ l) x y (first, rest) =
    (IsBetween-wider a b c d e.spec.rules x y first, AreBetween-wider a b c d l x y rest)
