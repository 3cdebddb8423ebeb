-- ===== src/Director/Routes.antt =====
-- What the director does to the routes of the custom table.
use kube_static_egress_ip.Prelude.{
  ◌≡◌, refl, ap, String, true, not, [], ◌∷◌, ◌++◌, arith, if◌then◌else◌, ◌||◌,
}
use mathlib.Core.List.{append-nil}
use kube_static_egress_ip.Prelude.Text.{contains}
use kube_static_egress_ip.Effect.{◌>>=◌, on_error, because}
use kube_static_egress_ip.Effect.Keeps.{Keeps, Keeps-on_error, keeps_rules}
use kube_static_egress_ip.Effect.Edits.{
  After-only, Edits, Edits-bind, Edits-when, Edits-read, Edits-Keeps, Returns, Returns-rewrap,
}
use kube_static_egress_ip.Host.{Host}
use kube_static_egress_ip.Host.History.{History, HistoryLaws, route_list}
use kube_static_egress_ip.Chains.{ensure_gone, open_set}
use kube_static_egress_ip.Director.{
  unmark_and_unbypass, add_route, address_of_cidr, delete_route, delete_route_to_gateway,
  list_routes, route_table_name,
}

module _ {W : Type 0} (h : Host W) (L : HistoryLaws h) where
  open L use {history}

  unmark_and_unbypass-Keeps : (s d : String) → Keeps history (unmark_and_unbypass h s d)
  unfolding unmark_and_unbypass ensure_gone
  unmark_and_unbypass-Keeps s d = search (keeps_rules, L.exists-keeps, L.delete-keeps)

  open_set-Keeps : (message s : String) → Keeps history (open_set h message s)
  unfolding open_set
  open_set-Keeps message s = search (keeps_rules, L.ipset_new-keeps)

  listed_now :
      (x : History) (w : W) → history w ≡ x → Returns (λ out. out ≡ x.1) (list_routes h w).0
  unfolding list_routes on_error
  listed_now x w e =
      Returns-rewrap (λ out. out ≡ x.1)
        (because "Failed to verify required default route to gatewat exists. ")
        (h.output route_list w).0 (rw L.routes_listed (ap (λ (y : History). y.1) e))

  list_routes-Keeps : Keeps history (list_routes h)
  unfolding list_routes
  list_routes-Keeps = Keeps-on_error _ (L.output-keeps route_list)

  delete_route_listed_lem :
      (d g : String) (x : History)
      → contains x.1 d ≡ true
      → Edits history (λ v. v ≡ x) x (delete_route h d g) x
  unfolding delete_route
  delete_route_listed_lem d g x listed =
      Edits-read (λ out. out ≡ x.1) refl list_routes-Keeps (listed_now x)
        λ out e.
          Edits-when (not (contains out d)) (λ n. absurd (ground (arith, ap (λ t. contains t d) e)))
            (λ n. refl)

  -- On a host where the routes can be listed and change only by commands that are run, where the
  -- listing of the custom table mentions the destination, deleting a route to the gateway runs no
  -- command and leaves the listing as it is, however the call ends: the route stays.
  pub delete_route_listed :
      (s d g : String) (w : W)
      → contains (history w).1 d ≡ true
      → history (delete_route_to_gateway h s d g w).1 ≡ history w
  unfolding delete_route_to_gateway
  delete_route_listed s d g w listed =
      let x = history w in
      let E : History → Type 0 = λ v. v ≡ x in
      let all : Edits history E x (delete_route_to_gateway h s d g) x =
        Edits-bind x (Edits-Keeps refl (open_set-Keeps _ s)) λ set.
          Edits-bind x (Edits-Keeps refl (unmark_and_unbypass-Keeps s d)) λ _.
            Edits-bind x (delete_route_listed_lem d g x listed)
              λ _. Edits-Keeps refl (Keeps-on_error _ (L.set_destroy-keeps set)) in
      After-only history E x x (delete_route_to_gateway h s d g w).0 _ (λ v e. e) refl
        (all.at w refl)

  -- On a host where the routes can be listed and change only by commands that are run, the step of
  -- a deletion that deals with the route runs `ip route delete` exactly when the listing does not
  -- mention the destination, and no other command, however it ends.
  delete_route_commands :
      (d g : String) (w : W)
      → (history (delete_route h d g w).1).0
        ≡ (history w).0
          ++ (if contains (history w).1 d
              then []
              else ("ip" ∷ "route" ∷ "delete" ∷ d ∷ "via" ∷ g ∷ "table" ∷ route_table_name ∷ [])
                ∷ [])
  unfolding delete_route list_routes on_error ◌>>=◌
  delete_route_commands d g w =
      let command = "ip" ∷ "route" ∷ "delete" ∷ d ∷ "via" ∷ g ∷ "table" ∷ route_table_name ∷ [] in
      ground (
        arith,
        L.routes_listed w,
        (L.output-keeps route_list).at w,
        L.run_recorded command (h.output route_list w).1,
        append-nil (history w).0,
      )

  -- On a host where the routes can be listed and change only by commands that are run, the step of
  -- an addition that deals with the route runs `ip route add` exactly when the listing mentions
  -- neither the destination nor its address alone, and no other command, however it ends.
  pub add_route_commands :
      (d tunnel : String) (w : W)
      → (history (add_route h d tunnel w).1).0
        ≡ (history w).0
          ++ (if contains (history w).1 d || contains (history w).1 (address_of_cidr h d)
              then []
              else ("ip" ∷ "route" ∷ "add" ∷ d ∷ "dev" ∷ tunnel ∷ "table" ∷ route_table_name ∷ [])
                ∷ [])
  unfolding add_route list_routes on_error ◌>>=◌
  add_route_commands d tunnel w =
      let command = "ip" ∷ "route" ∷ "add" ∷ d ∷ "dev" ∷ tunnel ∷ "table" ∷ route_table_name ∷ [] in
      ground (
        arith,
        L.routes_listed w,
        (L.output-keeps route_list).at w,
        L.run_recorded command (h.output route_list w).1,
        append-nil (history w).0,
      )
