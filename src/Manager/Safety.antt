-- ===== src/Manager/Safety.antt =====
-- Which nodes a choice may be, and how choosing ends.
use kube_static_egress_ip.Prelude.{
  ◌≡◌, refl, ◌∙◌, ◌⊎◌, map, elem, String, Bool, true, false, Option, none, some, List, [], ◌∷◌,
  eq_iff, arith, if◌then◌else◌, inl, inr, Bool-cases,
}
use kube_static_egress_ip.Effect.{Outcome, ok, err, plain, Settles}
use kube_static_egress_ip.Api.{Node, StaticEgressIp}
use kube_static_egress_ip.Host.{Host}
use kube_static_egress_ip.Utils.Addresses.{get_node_ip-Settles}
use kube_static_egress_ip.Manager.{
  current_is_ready, Scan, Pointer, loop_variable, scan_nodes, no_scan, name_gateway, first_ready,
  choose_from,
}
use kube_static_egress_ip.Manager.Choice.{
  keeps_current, last_node, cell-scan_nodes, some_pointer, first_ready-eq, decided,
}

-- The UIDs of a list of nodes.
abbrev pub uids : List Node → List String
uids = map (λ n. n.uid)

current_is_ready-elem :
    (uid : String) (l : List Node) → current_is_ready uid l ≡ true → elem uid (uids l) ≡ true
unfolding current_is_ready
current_is_ready-elem uid [] e = cc
current_is_ready-elem uid (n ∷ l) e =
    ground (arith, eq_iff uid n.uid, eq_iff n.uid uid, current_is_ready-elem uid l)

last_node-elem :
    (o : Option Node) (l : List Node) (n : Node)
    → last_node o l ≡ some n
    → (o ≡ some n) ⊎ (elem n.uid (uids l) ≡ true)
last_node-elem o [] n e = inl e
last_node-elem o (m ∷ l) n e = ground (arith, eq_iff m.uid n.uid, last_node-elem (some m) l n e)

decided-Settles :
    (c : Bool) (g : String × String) (fresh : Outcome (String × String))
    → Settles fresh
    → Settles (decided c g fresh)
decided-Settles true g fresh s = tt
decided-Settles false g fresh s = s

fresh-Settles :
    (c : Bool) (r : Outcome (String × String))
    → Settles r
    → Settles
        (if c then r else err (plain "Failed to allocate gatewway as there are no ready nodes"))
fresh-Settles true r s = s
fresh-Settles false r s = tt

module _ {W : Type 0} (h : Host W) where
  name_gateway-ok :
      (e : StaticEgressIp) (n : Node) (g : String × String)
      → name_gateway h e n ≡ ok g
      → n.uid ≡ g.0
  unfolding name_gateway
  name_gateway-ok e n g q = ground arith

  first_ready-ok :
      (e : StaticEgressIp) (s : Scan) (g : String × String)
      → first_ready h e s ≡ ok g
      → (n : Node) × (s.cell ≡ some n) × (n.uid ≡ g.0)
  unfolding first_ready
  first_ready-ok e s g q = go s.ready_nodes s.cell q
    where
      go :
          (l : List Pointer) (o : Option Node)
          → first_ready h e (record { cell = o; ready_nodes = l }) ≡ ok g
          → (n : Node) × (o ≡ some n) × (n.uid ≡ g.0)
      go [] o q = absurd (cc)
      go (loop_variable ∷ l) none q = absurd (cc)
      go (loop_variable ∷ l) (some n) q = (n, refl, name_gateway-ok e n g q)

  -- The node that is chosen is one of the nodes that the API server listed, whether it is kept or
  -- new.
  choose_from_listed :
      (e : StaticEgressIp) (nodes : List Node) (g : String × String)
      → choose_from h e nodes ≡ ok g
      → elem g.0 (uids nodes) ≡ true
  unfolding choose_from
  choose_from_listed e nodes g q = elim (Bool-cases (keeps_current e nodes)) [
    | inl kept ↦ ground (arith, current_is_ready-elem e.status.gateway_node nodes)
    | inr fresh ↦
        let (n, cell, uid) = first_ready-ok e (scan_nodes no_scan nodes) g (rw fresh at q) in
        ground (arith, cell-scan_nodes no_scan nodes, last_node-elem none nodes n)
  ]

  name_gateway-Settles : (e : StaticEgressIp) (n : Node) → Settles (name_gateway h e n)
  unfolding name_gateway
  name_gateway-Settles e n = ground (arith, get_node_ip-Settles h n)

  last_node-some : (m : Node) (l : List Node) → (n : Node) × (last_node (some m) l ≡ some n)
  last_node-some m [] = (m, refl)
  last_node-some m (n ∷ l) = last_node-some n l

  -- Choosing never dereferences a nil pointer nor runs out of an index: it ends with a node and an
  -- address or with an error, for every resource and every list of nodes.
  pub choose_from-Settles :
      (e : StaticEgressIp) (nodes : List Node) → Settles (choose_from h e nodes)
  unfolding choose_from
  choose_from-Settles e [] = decided-Settles (keeps_current e []) _ _ tt
  choose_from-Settles e (m ∷ l) =
      let (n, last) = last_node-some m l in
      let s = scan_nodes no_scan (m ∷ l) in
      decided-Settles (keeps_current e (m ∷ l)) _ _ (
        rw (first_ready-eq h e s n (cell-scan_nodes no_scan (m ∷ l) ∙ last))
          (fresh-Settles (some_pointer s.ready_nodes) _ (name_gateway-Settles e n)))
