-- ===== src/Controller/RuleId.antt =====
-- The names of the ipsets: which rules share one, and how long they are.
use text.Mathlib.TextLemmas.{append_assoc}
use text.Mathlib.TextPositions.{len-append}
use Prim.Native.String.{slice}
use kube_static_egress_ip.Prelude.{◌≡◌, String, ℕ, ◌≤◌, arith}
use kube_static_egress_ip.Prelude.Lengths.{len, len-slice}
use kube_static_egress_ip.Prelude.Text.{◌<>◌, itoa}
use kube_static_egress_ip.Host.{Host}
use kube_static_egress_ip.Controller.{generate_rule_id}

module _ {W : Type 0} (h : Host W) where
  -- The id is that of the plain concatenation of the namespace, the name and the number, whatever
  -- the hash: a part `m` of the text may stand at the end of the namespace or at the start of the
  -- name, and rule 1 of the resource whose name ends in "1" has the id of rule 11 of the resource
  -- without that "1".
  pub generate_rule_id_collides :
      (n m s : String) (i : ℕ)
      → (generate_rule_id h (n <> m) s i ≡ generate_rule_id h n (m <> s) i)
        × (generate_rule_id h n (s <> "1") 1 ≡ generate_rule_id h n s 11)
  unfolding generate_rule_id itoa
  generate_rule_id_collides n m s i =
      (rw (append_assoc n m (s <> itoa i), append_assoc m s (itoa i)), rw (append_assoc s "1" "1"))

  -- For every hash, the id of a rule has at most 26 bytes: the kernel takes names of ipsets of up
  -- to 31, so that any namespace and name of a resource and any number of a rule give an id that
  -- can name a set.
  generate_rule_id_fits : (n s : String) (i : ℕ) → len (generate_rule_id h n s i) ≤ 26
  unfolding generate_rule_id
  generate_rule_id_fits n s i =
      let hash = h.encoded_hash (n <> s <> itoa i) in
      omega (arith, len-append "EGRESS-IP-" (slice hash 0 16), len-slice hash 16)
