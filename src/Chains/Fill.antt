-- ===== src/Chains/Fill.antt =====
-- What the shared sequences of Chains.antt do to the ipsets.
use kube_static_egress_ip.Prelude.{
  ◌≡◌, refl, subst, String, ◌||◌, List, [], ◌∷◌, ◌==◌, elem, eq_iff, arith,
}
use kube_static_egress_ip.Effect.{Error, on_error, for_each}
use kube_static_egress_ip.Effect.Keeps.{Keeps, keeps_rules}
use kube_static_egress_ip.Effect.Edits.{
  After, Edits, Returns, Returns-rewrap, Edits-bind, Edits-pure, Edits-on_error,
}
use kube_static_egress_ip.Host.{Host, RuleSpec}
use kube_static_egress_ip.Host.Sets.{
  Members, put_members-at, put_members_twice, put_members, add_member, IpsetLaws,
}
use kube_static_egress_ip.Chains.{open_set, add_ips, ensure_first, ensure_last}

-- The members after a list of addresses is added one by one.
abbrev pub add_all : List String → List String → List String
add_all [] l = l
add_all (ip ∷ ips) l = add_all ips (add_member ip l)

elem-add_member :
    (x ip : String) (l : List String) → elem x (add_member ip l) ≡ (ip == x || elem x l)
elem-add_member x ip l = ground (arith, eq_iff ip x)

-- A set to which addresses are added has those and what it had.
pub elem-add_all :
    (x : String) (ips l : List String) → elem x (add_all ips l) ≡ (elem x ips || elem x l)
elem-add_all x [] l = refl
elem-add_all x (ip ∷ ips) l =
    ground (arith, elem-add_all x ips (add_member ip l), elem-add_member x ip l)

module _ {W : Type 0} (h : Host W) (L : IpsetLaws h) where
  open h use {IpSet, set_add, ipset_new}
  open L use {members, name_of}

  set_add-Edits :
      (set : IpSet) (s ip : String) (f : Error → Error) (l : List String) (m : Members)
      → name_of set ≡ s
      → Edits members
          (λ _. Unit)
          (put_members s l m)
          (on_error f (set_add set ip 0))
          (put_members s (add_member ip l) m)
  set_add-Edits set s ip f l m named = Edits-on_error f (record {
    at = λ w e.
        subst (λ y. After members (λ _. Unit {0}) y (set_add set ip 0 w))
          (rw (named, e, put_members-at s l m, put_members_twice s l (add_member ip l) m))
          (L.set_add_adds set ip 0 w);
  })

  pub add_ips-Edits :
      (set : IpSet) (s : String) (ips l : List String) (m : Members)
      → name_of set ≡ s
      → Edits members
          (λ _. Unit)
          (put_members s l m)
          (add_ips h s set ips)
          (put_members s (add_all ips l) m)
  unfolding add_ips for_each
  add_ips-Edits set s [] l m named = Edits-pure (put_members s l m) tt
  add_ips-Edits set s (ip ∷ ips) l m named =
      Edits-bind (put_members s (add_member ip l) m) (set_add-Edits set s ip _ l m named)
        (λ _. add_ips-Edits set s ips (add_member ip l) m named)

  pub open_set-Edits :
      (message s : String) (m : Members)
      → Edits members (λ _. Unit) m (open_set h message s) (put_members s [] m)
  unfolding open_set
  open_set-Edits message s m = Edits-on_error _ (record {
    at = λ w e.
        subst (λ v. After members (λ _. Unit {0}) (put_members s [] v) (ipset_new s "hash:ip" w)) e
          (L.ipset_new_empties s "hash:ip" w);
  })

  pub name-open_set :
      (message s : String) (w : W) → Returns (λ set. name_of set ≡ s) (open_set h message s w).0
  unfolding open_set on_error
  name-open_set message s w =
      Returns-rewrap _ _ (ipset_new s "hash:ip" w).0 (L.name-ipset_new s "hash:ip" w)

  pub ensure_first-Keeps :
      (t c : String) (r : RuleSpec) (verify add : String)
      → Keeps members (ensure_first h t c r verify add)
  unfolding ensure_first
  ensure_first-Keeps t c r verify add = search (keeps_rules, L.exists-keeps, L.insert-keeps)

  pub ensure_last-Keeps :
      (t c : String) (r : RuleSpec) (verify add : String)
      → Keeps members (ensure_last h t c r verify add)
  unfolding ensure_last
  ensure_last-Keeps t c r verify add = search (keeps_rules, L.exists-keeps, L.append-keeps)
