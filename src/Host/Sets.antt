-- ===== src/Host/Sets.antt =====
-- The members of the ipsets of a host, as a view of its world, and what go-ipset documents: New
-- creates a set or empties the one of that name, Add adds a member that may be there already, and
-- no other call changes a set.
use kube_static_egress_ip.Prelude.{
  ◌≡◌, ◌≢◌, eq_iff, fun_ext, arith, ℕ, String, List, [], ◌∷◌, ◌==◌, elem, if◌then◌else◌,
}
use text.Mathlib.TextPositions.{eq_refl}
use kube_static_egress_ip.Effect.Keeps.{Keeps}
use kube_static_egress_ip.Effect.Edits.{After, Returns}
use kube_static_egress_ip.Host.{Host, RuleSpec}

-- The members of each set, by its name.
abbrev pub Members : Type 0
Members = String → List String

unfoldable pub put_members : String → List String → Members → Members
put_members s l members n = if s == n then l else members n

pub put_members-at : (s : String) (l : List String) (m : Members) → put_members s l m s ≡ l
unfolding put_members
put_members-at s l m = simp eq_refl

pub put_members_twice :
    (s : String) (k l : List String) (m : Members)
    → put_members s l (put_members s k m) ≡ put_members s l m
unfolding put_members
put_members_twice s k l m = fun_ext λ n. ground arith

pub put_members-at_ne :
    (s n : String) (l : List String) (m : Members) → s ≢ n → put_members s l m n ≡ m n
unfolding put_members
put_members-at_ne s n l m ne = ground (arith, eq_iff s n)

abbrev pub add_member : String → List String → List String
add_member ip l = if elem ip l then l else ip ∷ l

module _ {W : Type 0} (h : Host W) where
  open h use {IpSet, exists, insert, append, delete, ipset_new, set_add, output, run}

  pub record IpsetLaws : Type 0 where
    pub members : W → Members
    pub name_of : IpSet → String
    pub name-ipset_new :
        (s k : String) (w : W) → Returns (λ set. name_of set ≡ s) (ipset_new s k w).0
    pub ipset_new_empties :
        (s k : String) (w : W)
        → After members (λ _. Unit) (put_members s [] (members w)) (ipset_new s k w)
    pub set_add_adds :
        (set : IpSet) (ip : String) (timeout : ℕ) (w : W)
        → After members
            (λ _. Unit)
            (put_members (name_of set) (add_member ip (members w (name_of set))) (members w))
            (set_add set ip timeout w)
    pub exists-keeps : (t c : String) (r : RuleSpec) → Keeps members (exists t c r)
    pub insert-keeps : (t c : String) (n : ℕ) (r : RuleSpec) → Keeps members (insert t c n r)
    pub append-keeps : (t c : String) (r : RuleSpec) → Keeps members (append t c r)
    pub output-keeps : (args : List String) → Keeps members (output args)
    pub run-keeps : (args : List String) → Keeps members (run args)
