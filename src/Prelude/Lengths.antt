-- ===== src/Prelude/Lengths.antt =====
-- Lengths of texts, in bytes: of what `slice` takes, and of a text whose dots are taken out.
use Prim.Native.Nat.{ℕ, suc, ◌+◌, ◌-◌, ◌≤◌, compare, Ordering}
use Prim.Native.Char.{Char, len_utf8}
use Prim.Native.String.len
use Prim.Native.String.slice
use Prim.Native.String.{String, slice, fits}
pub use Prim.Native.String.{len}
use mathlib.Core.Path.{◌≡◌, refl}
use native.Mathlib.Omega.{arith, compare-lt, compare-eq}
use text.Mathlib.Text.{◌==◌}
use text.Mathlib.TextEquality.{eq_iff}
use mathlib.Core.Path.{ap}
use kube_static_egress_ip.Prelude.Tests.{if◌then◌else◌}
use kube_static_egress_ip.Prelude.Text.{without_dots, one_char}

len-fits :
    (b : ℕ) (c : Char) (s : String) (o : Ordering)
    → compare (len_utf8 c) b ≡ o
    → len s ≤ b - len_utf8 c
    → len (fits o c s) ≤ b
len-fits b c s Ordering.lt q le = rw (len.cons c s) (omega (arith, compare-lt (len_utf8 c) b q, le))
len-fits b c s Ordering.eq q le = rw (len.cons c s) (omega (arith, compare-eq (len_utf8 c) b q, le))
len-fits b c s Ordering.gt q le = rw (len.nil) (omega arith)

-- The bytes that are taken up to a place are at most as many.
pub len-slice : (s : String) (b : ℕ) → len (slice s 0 b) ≤ b
len-slice String.[] b = rw (slice.nil 0 b, len.nil) (omega arith)
len-slice (String.◌∷◌ c s) b =
    rw (slice.cons-zero c s b) (len-fits b c _ _ refl (len-slice s (b - len_utf8 c)))

-- The number of dots of a text.
unfoldable pub dots : String → ℕ
unfolding one_char
dots String.[] = 0
dots (String.◌∷◌ c s) = let rest = dots s in if one_char c == "." then suc rest else rest

is_dot : (c : Char) → one_char c ≡ "." → len_utf8 c ≡ 1
unfolding one_char
is_dot c q = omega (arith, ap len q, len.cons c String.[], len.nil)

pub len-without_dots : (s : String) → len (without_dots s) + dots s ≡ len s
unfolding without_dots dots
len-without_dots String.[] = refl
len-without_dots (String.◌∷◌ c s) = rw (len.cons c s) (
    ground
      (arith, is_dot c, eq_iff (one_char c) ".", len-without_dots s, len.cons c (without_dots s)))
