-- ===== src/Director/Sets.antt =====
-- The ipset that an addition of the director leaves.
use kube_static_egress_ip.Prelude.{◌≡◌, refl, subst, ap, ◌∙◌, String, List, [], elem, ◌≢◌, arith}
use kube_static_egress_ip.Effect.{ok}
use kube_static_egress_ip.Effect.Keeps.{Keeps, keeps_rules}
use kube_static_egress_ip.Effect.Edits.{After, Edits, Edits-bind, Edits-bind_known, Edits-Keeps}
use kube_static_egress_ip.Host.{Host}
use kube_static_egress_ip.Host.Sets.{
  Members, put_members, put_members-at, put_members-at_ne, IpsetLaws,
}
use kube_static_egress_ip.Chains.Fill.{
  add_all, elem-add_all, add_ips-Edits, open_set-Edits, name-open_set, ensure_first-Keeps,
  ensure_last-Keeps,
}
use kube_static_egress_ip.Director.{
  EgressDirector, mark_and_bypass, open_tunnel, add_route, add_route_to_gateway,
}

module _ {W : Type 0} (h : Host W) (L : IpsetLaws h) where
  open L use {members, name_of}

  mark_and_bypass-Keeps : (s d : String) → Keeps members (mark_and_bypass h s d)
  unfolding mark_and_bypass
  mark_and_bypass-Keeps s d = search (keeps_rules, ensure_first-Keeps h L, ensure_last-Keeps h L)

  open_tunnel-Keeps : (t r l : String) → Keeps members (open_tunnel h t r l)
  unfolding open_tunnel
  open_tunnel-Keeps t r l = search (keeps_rules, L.output-keeps, L.run-keeps)

  add_route-Keeps : (d t : String) → Keeps members (add_route h d t)
  unfolding add_route
  add_route-Keeps d t = search (keeps_rules, L.output-keeps, L.run-keeps)

  add_route-Edits :
      (dir : EgressDirector) (s : String) (ips : List String) (d g : String) (m : Members)
      → Edits members
          (λ _. Unit)
          m
          (add_route_to_gateway h dir s ips d g)
          (put_members s (add_all ips []) m)
  unfolding add_route_to_gateway
  add_route-Edits dir s ips d g m =
      Edits-bind_known (put_members s [] m) (λ set. name_of set ≡ s) (open_set-Edits h L _ s m)
        (name-open_set h L _ s)
        λ set named.
          Edits-bind (put_members s (add_all ips []) m) (add_ips-Edits h L set s ips [] m named)
            λ _.
              Edits-bind (put_members s (add_all ips []) m)
                (Edits-Keeps tt (mark_and_bypass-Keeps s d))
                λ _.
                  Edits-bind (put_members s (add_all ips []) m)
                    (Edits-Keeps tt (open_tunnel-Keeps _ _ _))
                    λ _. Edits-Keeps tt (add_route-Keeps d _)

  -- On a host whose ipset calls do what they are documented to do, after an addition that returned,
  -- an address is a member of the rule's ipset exactly if it is one of the source addresses of this
  -- call, whatever the set held before, and every other ipset is as it was.
  add_route_members :
      (dir : EgressDirector) (s : String) (ips : List String) (d g : String) (w w' : W)
      → add_route_to_gateway h dir s ips d g w ≡ (ok tt, w')
      → ((ip : String) → elem ip (members w' s) ≡ elem ip ips)
        × ((n : String) → s ≢ n → members w' n ≡ members w n)
  add_route_members dir s ips d g w w' e = (
    λ ip.
        rw (after, put_members-at s (add_all ips []) (members w), elem-add_all ip ips [])
          (ground arith),
    λ n ne. ap (λ (m : Members). m n) after ∙ put_members-at_ne s n (add_all ips []) (members w) ne,
  )
    where
      after : members w' ≡ put_members s (add_all ips []) (members w)
      after =
          subst (After members (λ _. Unit {0}) (put_members s (add_all ips []) (members w))) e
            ((add_route-Edits dir s ips d g (members w)).at w refl)
