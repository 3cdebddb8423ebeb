-- ===== src/Informers/Launches.antt =====
-- What one start of a factory launches and marks, by key.
use kube_static_egress_ip.Prelude.{
  ◌≡◌, refl, ℕ, suc, ◌+◌, String, Bool, true, false, ◌||◌, Option, none, some, [], ◌∷◌, ◌++◌, ◌==◌,
  if◌then◌else◌, arith, eq_iff,
}
use kube_static_egress_ip.Informers.{GoMap, find, put, holds, start_each}

module _ {A : Type 0} where
  -- How many entries there are for a key.
  unfoldable pub times : String → GoMap A → ℕ
  times k [] = 0
  times k ((k', a) ∷ l) = let rest = times k l in if k' == k then suc rest else rest

  abbrev pub is_some : Option A → Bool
  is_some none = false
  is_some (some a) = true

  abbrev pub or_else : Option A → Option A → Option A
  or_else none b = b
  or_else (some a) b = some a

  pub times-append : (k : String) (l m : GoMap A) → times k (l ++ m) ≡ times k l + times k m
  unfolding times
  times-append k [] m = ground arith
  times-append k ((k', a) ∷ l) m = ground (arith, times-append k l m)

  pub find-append : (k : String) (l m : GoMap A) → find k (l ++ m) ≡ or_else (find k l) (find k m)
  unfolding find
  find-append k [] m = refl
  find-append k ((k', a) ∷ l) m = ground (arith, find-append k l m)

abbrev pub number : Bool → ℕ
number true = 1
number false = 0

holds-put :
    (k k' : String) (l : GoMap Bool)
    → holds k (put k' true l) ≡ (if k' == k then true else holds k l)
unfolding holds find
holds-put k k' l = ground arith

module _ {I : Type 0} where
  pub start_each-holds :
      (l : GoMap I) (started : GoMap Bool) (k : String)
      → holds k (start_each l started).0 ≡ (holds k started || is_some (find k l))
  unfolding start_each find
  start_each-holds [] started k = ground arith
  start_each-holds ((k', i) ∷ l) started k = ground (
    arith,
    start_each-holds l started k,
    start_each-holds l (put k' true started) k,
    holds-put k k' started,
    eq_iff k' k,
  )

  pub start_each-times :
      (l : GoMap I) (started : GoMap Bool) (k : String)
      → times k (start_each l started).1 + number (holds k started)
        ≡ number (holds k started || is_some (find k l))
  unfolding start_each find times
  start_each-times [] started k = ground arith
  start_each-times ((k', i) ∷ l) started k = ground (
    arith,
    start_each-times l started k,
    start_each-times l (put k' true started) k,
    holds-put k k' started,
    eq_iff k' k,
  )

  pub start_each-find :
      (l : GoMap I) (started : GoMap Bool) (k : String)
      → find k (start_each l started).1 ≡ (if holds k started then none else find k l)
  unfolding start_each find
  start_each-find [] started k = ground arith
  start_each-find ((k', i) ∷ l) started k = ground (
    arith,
    start_each-find l started k,
    start_each-find l (put k' true started) k,
    holds-put k k' started,
    eq_iff k' k,
  )
