-- ===== src/Manager/Settled.antt =====
-- The resources of a store that the manager has gone through: which gateway each has then.
use kube_static_egress_ip.Prelude.{
  ◌≡◌, refl, sym, ap, ◌∙◌, String, Bool, true, false, ◌&&◌, ◌||◌, List, [], ◌∷◌, ◌++◌, ◌==◌, map,
  arith, eq_iff, if◌then◌else◌,
}
use mathlib.Core.List.{map-map}
use mathlib.Core.Path.{ap₂}
use kube_static_egress_ip.Effect.{Outcome, ok, err, panicked, exited}
use kube_static_egress_ip.Api.{Node, StaticEgressIp}
use kube_static_egress_ip.Host.{Host}
use kube_static_egress_ip.Manager.{choose_from, with_gateway}
use kube_static_egress_ip.Manager.Choice.{choose_from_stable}
use kube_static_egress_ip.Manager.Rounds.{wanted, all_wanted}

-- Two objects with the same namespace and name.
unfoldable pub same_key : StaticEgressIp → StaticEgressIp → Bool
same_key a b = a.namespace == b.namespace && a.name == b.name

unfoldable pub has_key : List StaticEgressIp → StaticEgressIp → Bool
has_key [] e = false
has_key (x ∷ l) e = same_key x e || has_key l e

unfoldable pub IsDistinct : List StaticEgressIp → Type 0
IsDistinct [] = Unit {0}
IsDistinct (e ∷ l) = (has_key l e ≡ false) × IsDistinct l

-- What an accepted update makes of an object of the store.
unfoldable pub replaced : StaticEgressIp → StaticEgressIp → StaticEgressIp
replaced new e = if same_key new e then new else e

==_comm : (s t : String) → (s == t) ≡ (t == s)
==_comm s t = ground (arith, eq_iff s t, eq_iff t s)

same_key_comm : (a b : StaticEgressIp) → same_key a b ≡ same_key b a
unfolding same_key
same_key_comm a b = rw (==_comm a.namespace b.namespace, ==_comm a.name b.name) refl

same_key_refl : (a : StaticEgressIp) → same_key a a ≡ true
unfolding same_key
same_key_refl a = ground (arith, eq_iff a.namespace a.namespace, eq_iff a.name a.name)

-- A resource whose gateway is chosen, if one can be chosen.
abbrev given : Outcome (String × String) → StaticEgressIp → StaticEgressIp
given (ok g) e = with_gateway e g
given (err x) e = e
given (panicked m) e = e
given (exited m) e = e

-- An object of the store once the update for `e` is accepted, if there is one.
abbrev updated_by : Outcome (String × String) → StaticEgressIp → StaticEgressIp → StaticEgressIp
updated_by (ok g) e x = replaced (with_gateway e g) x
updated_by (err y) e x = x
updated_by (panicked m) e x = x
updated_by (exited m) e x = x

same_key-given :
    (r : Outcome (String × String)) (x e : StaticEgressIp) → same_key x (given r e) ≡ same_key x e
unfolding same_key
same_key-given (ok g) x e = refl
same_key-given (err y) x e = refl
same_key-given (panicked m) x e = refl
same_key-given (exited m) x e = refl

has_key-given :
    (r : Outcome (String × String)) (l : List StaticEgressIp) (e : StaticEgressIp)
    → has_key l (given r e) ≡ has_key l e
unfolding has_key
has_key-given r [] e = refl
has_key-given r (x ∷ l) e = rw (same_key-given r x e, has_key-given r l e) refl

same_key-with_gateway :
    (e x : StaticEgressIp) (g : String × String) → same_key (with_gateway e g) x ≡ same_key e x
unfolding same_key
same_key-with_gateway e x g = refl

updated_by_self :
    (r : Outcome (String × String)) (e : StaticEgressIp) → updated_by r e e ≡ given r e
unfolding replaced
updated_by_self (ok g) e = rw (same_key-with_gateway e e g, same_key_refl e) refl
updated_by_self (err y) e = refl
updated_by_self (panicked m) e = refl
updated_by_self (exited m) e = refl

updated_by_other :
    (r : Outcome (String × String)) (e x : StaticEgressIp)
    → same_key e x ≡ false
    → updated_by r e x ≡ x
unfolding replaced
updated_by_other (ok g) e x q = rw (same_key-with_gateway e x g, q) refl
updated_by_other (err y) e x q = refl
updated_by_other (panicked m) e x q = refl
updated_by_other (exited m) e x q = refl

module _ {W : Type 0} (h : Host W) (nodes : List Node) where
  -- A resource with the gateway that is chosen for it, if one can be chosen.
  unfoldable pub settled : StaticEgressIp → StaticEgressIp
  settled e = given (choose_from h e nodes) e

  unfoldable pub updated : StaticEgressIp → StaticEgressIp → StaticEgressIp
  updated e = updated_by (choose_from h e nodes) e

  -- An object of the store once the updates for a list of resources are accepted.
  unfoldable pub all_updated : List StaticEgressIp → StaticEgressIp → StaticEgressIp
  all_updated [] x = x
  all_updated (e ∷ l) x = all_updated l (updated e x)

  settled_by :
      (e : StaticEgressIp) (r : Outcome (String × String))
      → choose_from h e nodes ≡ r
      → (given (choose_from h (given r e) nodes) (given r e) ≡ given r e)
        × (wanted h nodes (given r e) ≡ wanted h nodes e)
  settled_by e (ok g) q =
      let again = choose_from_stable h e nodes g q in rw (wanted, again, q) (refl, refl)
  settled_by e (err x) q = rw q (refl, refl)
  settled_by e (panicked m) q = rw q (refl, refl)
  settled_by e (exited m) q = rw q (refl, refl)

  settled_again : (e : StaticEgressIp) → settled (settled e) ≡ settled e
  unfolding settled
  settled_again e = (settled_by e (choose_from h e nodes) refl).0

  wanted-settled : (e : StaticEgressIp) → wanted h nodes (settled e) ≡ wanted h nodes e
  unfolding settled
  wanted-settled e = (settled_by e (choose_from h e nodes) refl).1

  all_updated-fresh :
      (l : List StaticEgressIp) (x : StaticEgressIp) → has_key l x ≡ false → all_updated l x ≡ x
  unfolding all_updated has_key updated
  all_updated-fresh [] x q = refl
  all_updated-fresh (e ∷ l) x q =
      let (head, tail) : (same_key e x ≡ false) × (has_key l x ≡ false) = ground (arith) in
      rw (updated_by_other (choose_from h e nodes) e x head) (all_updated-fresh l x tail)

  -- Updating for a resource whose key is not in a list leaves the list.
  map-updated :
      (e : StaticEgressIp) (l : List StaticEgressIp) → has_key l e ≡ false → map (updated e) l ≡ l
  unfolding has_key updated
  map-updated e [] q = refl
  map-updated e (x ∷ l) q =
      let (head, tail) : (same_key x e ≡ false) × (has_key l e ≡ false) = ground (arith) in
      ap₂ (◌∷◌) (updated_by_other (choose_from h e nodes) e x (same_key_comm e x ∙ head))
        (map-updated e l tail)

  -- With different keys, the updates for all resources of a store give each its gateway.
  pub map-all_updated :
      (l : List StaticEgressIp) → IsDistinct l → map (all_updated l) l ≡ map settled l
  unfolding all_updated IsDistinct updated settled
  map-all_updated [] d = refl
  map-all_updated (e ∷ l) (fresh, rest) =
      let chosen = choose_from h e nodes in
      ap₂ (◌∷◌)
        (ap (all_updated l) (updated_by_self chosen e)
          ∙ all_updated-fresh l (given chosen e) (has_key-given chosen l e ∙ fresh))
        (sym (map-map (all_updated l) (updated e) l)
          ∙ ap (map (all_updated l)) (map-updated e l fresh)
          ∙ map-all_updated l rest)

  has_key-map-settled :
      (l : List StaticEgressIp) (e : StaticEgressIp) → has_key (map settled l) e ≡ has_key l e
  unfolding has_key settled
  has_key-map-settled [] e = refl
  has_key-map-settled (x ∷ l) e =
      rw
        (
          same_key_comm (given (choose_from h x nodes) x) e,
          same_key-given (choose_from h x nodes) e x,
          same_key_comm e x,
          has_key-map-settled l e,
        )
        refl

  pub IsDistinct-settled : (l : List StaticEgressIp) → IsDistinct l → IsDistinct (map settled l)
  unfolding IsDistinct settled
  IsDistinct-settled [] d = tt
  IsDistinct-settled (e ∷ l) (fresh, rest) = (
    has_key-map-settled l _ ∙ has_key-given (choose_from h e nodes) l e ∙ fresh,
    IsDistinct-settled l rest,
  )

  pub all_wanted-settled :
      (l : List StaticEgressIp) → all_wanted h nodes (map settled l) ≡ all_wanted h nodes l
  all_wanted-settled [] = refl
  all_wanted-settled (e ∷ l) = ap₂ (◌++◌) (wanted-settled e) (all_wanted-settled l)

  pub map-settled_again : (l : List StaticEgressIp) → map settled (map settled l) ≡ map settled l
  map-settled_again [] = refl
  map-settled_again (e ∷ l) = ap₂ (◌∷◌) (settled_again e) (map-settled_again l)
