-- ===== src/Manager/Choice.antt =====
-- Which node the manager chooses: `choose_from` against a description that mentions no pointer.
use kube_static_egress_ip.Prelude.{
  ◌≡◌, subst, refl, ◌∙◌, ap, String, Bool, true, false, not, ◌&&◌, ◌||◌, Option, none, some, List,
  [], ◌∷◌, ◌++◌, ◌==◌, arith, if◌then◌else◌,
}
use kube_static_egress_ip.Effect.{Outcome, ok, err, plain}
use kube_static_egress_ip.Api.{Node, NodeCondition, StaticEgressIp}
use kube_static_egress_ip.Host.{Host}
use kube_static_egress_ip.Manager.{
  ready_after, ready_until_break, is_master, current_is_ready, Scan, Pointer, loop_variable,
  scan_node, scan_nodes, no_scan, name_gateway, first_ready, choose_from, with_gateway,
}

-- A node that may be chosen: no master, and no condition says that it is not ready.
abbrev pub is_candidate : Node → Bool
is_candidate n = not (is_master n.labels) && ready_until_break n.conditions

abbrev pub any_candidate : List Node → Bool
any_candidate [] = false
any_candidate (n ∷ l) = is_candidate n || any_candidate l

abbrev pub last_node : Option Node → List Node → Option Node
last_node o [] = o
last_node o (n ∷ l) = last_node (some n) l

abbrev pub keeps_current : StaticEgressIp → List Node → Bool
keeps_current e nodes =
    not (e.status.gateway_node == "") && current_is_ready e.status.gateway_node nodes

pub cell-scan_nodes : (s : Scan) (l : List Node) → (scan_nodes s l).cell ≡ last_node s.cell l
unfolding scan_nodes
cell-scan_nodes s [] = refl
cell-scan_nodes s (n ∷ l) =
    cell-scan_nodes (scan_node s n) l ∙ ap (λ o. last_node o l) (ground arith)

abbrev pub some_pointer : List Pointer → Bool
some_pointer [] = false
some_pointer (p ∷ l) = true

some_pointer-append : (l : List Pointer) (p : Pointer) → some_pointer (l ++ p ∷ []) ≡ true
some_pointer-append [] p = refl
some_pointer-append (q ∷ l) p = refl

some_pointer-scan_node :
    (s : Scan) (n : Node)
    → some_pointer (scan_node s n).ready_nodes ≡ (some_pointer s.ready_nodes || is_candidate n)
unfolding scan_node
some_pointer-scan_node s n = ground (arith, some_pointer-append s.ready_nodes loop_variable)

some_pointer-scan_nodes :
    (s : Scan) (l : List Node)
    → some_pointer (scan_nodes s l).ready_nodes ≡ (some_pointer s.ready_nodes || any_candidate l)
unfolding scan_nodes
some_pointer-scan_nodes s [] = ground arith
some_pointer-scan_nodes s (n ∷ l) =
    ground (arith, some_pointer-scan_nodes (scan_node s n) l, some_pointer-scan_node s n)

ready_after-false : (l : List NodeCondition) → ready_after false l ≡ false
unfolding ready_after
ready_after-false [] = refl
ready_after-false (c ∷ l) = ground (arith, ready_after-false l)

-- The two loops over the conditions of a node compute the same: the one over those of the gateway
-- that the status names, which runs to the end, and the one over those of a candidate, which breaks
-- at the first condition that says that the node is not ready.
ready_after-eq-ready_until_break :
    (l : List NodeCondition) → ready_after true l ≡ ready_until_break l
unfolding ready_after ready_until_break
ready_after-eq-ready_until_break [] = refl
ready_after-eq-ready_until_break (c ∷ l) =
    ground (arith, ready_after-false l, ready_after-eq-ready_until_break l)

last_node-append : (o : Option Node) (l : List Node) (n : Node) → last_node o (l ++ n ∷ []) ≡ some n
last_node-append o [] n = refl
last_node-append o (m ∷ l) n = last_node-append (some m) l n

abbrev pub decided : Bool → String × String → Outcome (String × String) → Outcome (String × String)
decided kept g fresh = if kept then ok g else fresh

decided_again :
    (c c' : Bool) (g g' : String × String) (fresh : Outcome (String × String))
    → decided c g fresh ≡ ok g'
    → (c ≡ true → g ≡ g' → c' ≡ true)
    → decided c' g' fresh ≡ ok g'
decided_again true c' g g' fresh e again = ground (arith, again refl)
decided_again false true g g' fresh e again = refl
decided_again false false g g' fresh e again = e

module _ {W : Type 0} (h : Host W) where
  pub first_ready-eq :
      (e : StaticEgressIp) (s : Scan) (n : Node)
      → s.cell ≡ some n
      → first_ready h e s ≡ (
          if some_pointer s.ready_nodes
          then name_gateway h e n
          else err (plain "Failed to allocate gatewway as there are no ready nodes"))
  unfolding first_ready
  first_ready-eq e s n cell = go s.ready_nodes s.cell cell
    where
      go :
          (l : List Pointer) (o : Option Node)
          → o ≡ some n
          → first_ready h e (record { cell = o; ready_nodes = l }) ≡ (
              if some_pointer l
              then name_gateway h e n
              else err (plain "Failed to allocate gatewway as there are no ready nodes"))
      go [] o q = refl
      go (loop_variable ∷ l) o q = rw q refl

  -- The choice among a list of nodes that ends in `n`: the gateway that the status names is kept if
  -- a node with its UID is ready; otherwise, if any node is a ready worker, the choice is `n`, the
  -- last node of the list, whatever `n` is; and without a ready worker it is an error.
  pub choose_from-last :
      (e : StaticEgressIp) (l : List Node) (n : Node)
      → choose_from h e (l ++ n ∷ []) ≡ (
          if keeps_current e (l ++ n ∷ [])
          then ok (e.status.gateway_node, e.status.gateway_ip)
          else if any_candidate (l ++ n ∷ [])
          then name_gateway h e n
          else err (plain "Failed to allocate gatewway as there are no ready nodes"))
  unfolding choose_from
  choose_from-last e l n =
      let nodes = l ++ n ∷ [] in
      rw (
        first_ready-eq e (scan_nodes no_scan nodes) n
            (cell-scan_nodes no_scan nodes ∙ last_node-append none l n),
        some_pointer-scan_nodes no_scan nodes,
      )

  first_ready-with_gateway :
      (e : StaticEgressIp) (g : String × String) (s : Scan)
      → first_ready h (with_gateway e g) s ≡ first_ready h e s
  unfolding first_ready
  first_ready-with_gateway e g s = refl

  -- A choice is stable: once the chosen node and address are in the resource's status, choosing
  -- again among the same nodes gives the same node and address.
  pub choose_from_stable :
      (e : StaticEgressIp) (nodes : List Node) (g : String × String)
      → choose_from h e nodes ≡ ok g
      → choose_from h (with_gateway e g) nodes ≡ ok g
  unfolding choose_from
  choose_from_stable e nodes (u, i) chosen = rw first_ready-with_gateway (
      decided_again (keeps_current e nodes) (keeps_current (with_gateway e (u, i)) nodes)
        (e.status.gateway_node, e.status.gateway_ip) (u, i)
        (first_ready h e (scan_nodes no_scan nodes)) chosen
        λ kept same.
          subst (λ (v : String). (not (v == "") && current_is_ready v nodes) ≡ true)
            (ap (λ (p : String × String). p.0) same) kept)
