-- ===== src/Director/Tunnels.antt =====
-- The names of the tunnels: which gateways share one, and how long they are.
use text.Mathlib.TextLemmas.{nil-append}
use text.Mathlib.TextPositions.{len-append}
use kube_static_egress_ip.Prelude.{◌≡◌, refl, String, ◌≤◌, arith}
use kube_static_egress_ip.Prelude.Lengths.{len, dots, len-without_dots}
use kube_static_egress_ip.Prelude.Text.{◌<>◌, without_dots, without_dots-append}
use kube_static_egress_ip.Director.{tunnel_name}

no_dot : without_dots "." ≡ ""
unfolding without_dots
no_dot = refl

-- Addresses that differ in the place of a dot have the same tunnel name: a dot before a part `b` of
-- an address may as well stand after it, as in 10.1.11.1 and 10.11.1.1.
pub tunnel_name_collides :
    (a b c : String) → tunnel_name (a <> "." <> b <> c) ≡ tunnel_name (a <> b <> "." <> c)
unfolding tunnel_name
tunnel_name_collides a b c =
    rw
      (
        without_dots-append a ("." <> b <> c),
        without_dots-append "." (b <> c),
        without_dots-append b c,
        without_dots-append a (b <> "." <> c),
        without_dots-append b ("." <> c),
        without_dots-append "." c,
        no_dot,
        nil-append (without_dots b <> without_dots c),
        nil-append (without_dots c),
      )
      refl

-- The tunnel to a gateway whose address has three dots and at most 15 bytes, as a dotted IPv4
-- address has, has a name as long as the address, so of at most the 15 bytes that Linux takes for
-- the name of an interface.
pub tunnel_name_fits :
    (a : String)
    → dots a ≡ 3
    → len a ≤ 15
    → (len (tunnel_name a) ≡ len a) × (len (tunnel_name a) ≤ 15)
unfolding tunnel_name
tunnel_name_fits a q le =
    let same : len (tunnel_name a) ≡ len a =
      omega (arith, len-append "tun" (without_dots a), len-without_dots a, q) in
    (same, omega (arith, same))
