-- ===== src/Prelude/Text.antt =====
-- The functions of Go's `strings` that the program calls, and its `+` on texts.
use Prim.Native.Nat.{ℕ, zero, suc, ◌+◌, ◌/◌, ◌%◌}
use Prim.Native.String.{String, ◌++◌, slice}
use Prim.Native.Char.{Char}
use text.Mathlib.Text.{◌==◌, starts_with}
use mathlib.Core.Bool.{Bool, ◌||◌}
use mathlib.Core.Path.{◌≡◌, refl}
use native.Mathlib.Omega.{arith}
use text.Mathlib.TextLemmas.{nil-append, cons-append}
use kube_static_egress_ip.Prelude.Tests.{if◌then◌else◌, ltb}

-- Go's `+` on strings.
infixr 66 ◌<>◌
abbrev pub ◌<>◌ : String → String → String
s <> t = s ++ t

-- strings.Contains(s, sub)
unfoldable pub contains : String → String → Bool
contains String.[] sub = sub == ""
contains (String.◌∷◌ c s) sub = starts_with (String.◌∷◌ c s) sub || contains s sub

unfoldable pub one_char : Char → String
one_char c = String.◌∷◌ c String.[]

-- strings.Replace(s, ".", "", -1)
unfoldable pub without_dots : String → String
unfolding one_char
without_dots String.[] = ""
without_dots (String.◌∷◌ c s) =
    let rest = without_dots s in if one_char c == "." then rest else String.◌∷◌ c rest

-- A decimal digit.
abbrev digit : ℕ → String
digit d = slice "0123456789" d (d + 1)

-- The decimal digits of a number before a text; a number below `n` has fewer than `n + 1` of them.
digits : ℕ → ℕ → String → String
digits zero n rest = rest
digits (suc fuel) n rest =
    let more = digits fuel (n / 10) (digit (n % 10) ++ rest) in
    if ltb n 10 then digit n ++ rest else more

-- strconv.Itoa
unfoldable pub itoa : ℕ → String
unfolding digits
itoa n = digits (suc n) n ""

pub without_dots-append : (s t : String) → without_dots (s <> t) ≡ without_dots s <> without_dots t
unfolding without_dots
without_dots-append String.[] t = rw (nil-append t, nil-append (without_dots t)) refl
without_dots-append (String.◌∷◌ c s) t =
    rw (cons-append c s t)
      (ground (arith, without_dots-append s t, cons-append c (without_dots s) (without_dots t)))
