-- ===== src/Effect.antt =====
-- Go functions that act on the node: they take the world, and return a value, an error, a panic or
-- the end of the process, together with the world as it is then. What was done before a failure
-- stays done.
pub mod Keeps
pub mod Moves
pub mod Edits
pub mod Succeeds
pub mod Calm
pub mod Deferred
use kube_static_egress_ip.Prelude.{
  ℕ, suc, String, Bool, Option, none, some, List, [], ◌∷◌, if◌then◌else◌,
}
use kube_static_egress_ip.Prelude.Text.{◌<>◌}

-- The values of Go's `error` that the program tells apart: `*iptables.Error` with its exit status,
-- the API machinery's "not found", and all others.
pub data Error : Type 0 where
  iptables_error : ℕ → String → Error
  not_found : String → Error
  plain : String → Error

-- err.Error()
abbrev pub text : Error → String
text (iptables_error status message) = message
text (not_found message) = message
text (plain message) = message

-- How a call ends: `panicked` is a Go panic, `exited` is glog.Fatalf or log.Fatalf.
pub data Outcome (A : Type 0) : Type 0 where
  ok : A → Outcome A
  err : Error → Outcome A
  panicked : String → Outcome A
  exited : String → Outcome A

-- A call that neither panics nor ends the process.
abbrev pub Settles : {A : Type 0} → Outcome A → Type 0
Settles (ok a) = Unit
Settles (err e) = Unit
Settles (panicked m) = ⊥
Settles (exited m) = ⊥

abbrev pub M : Type 0 → Type 0 → Type 0
M W A = W → Outcome A × W

module _ {W A : Type 0} where
  abbrev pub pure : A → M W A
  pure a w = (ok a, w)

  abbrev pub fail : Error → M W A
  fail e w = (err e, w)

  abbrev pub panic : String → M W A
  panic message w = (panicked message, w)

  abbrev pub fatal : String → M W A
  fatal message w = (exited message, w)

module _ {W A B : Type 0} where
  abbrev pub continue : Outcome A → (A → M W B) → M W B
  continue (ok a) f w = f a w
  continue (err e) f w = (err e, w)
  continue (panicked m) f w = (panicked m, w)
  continue (exited m) f w = (exited m, w)

  infixl 5 ◌>>=◌ ◌>>◌
  unfoldable pub ◌>>=◌ : M W A → (A → M W B) → M W B
  ◌>>=◌ m f w = let (r, w') = m w in continue r f w'

  abbrev pub ◌>>◌ : M W A → M W B → M W B
  m >> n = m >>= λ _. n

abbrev pub rewrap : {A : Type 0} → (Error → Error) → Outcome A → Outcome A
rewrap f (ok a) = ok a
rewrap f (err e) = err (f e)
rewrap f (panicked m) = panicked m
rewrap f (exited m) = exited m

abbrev settle : {A : Type 0} → Outcome A → Outcome (Option A)
settle (ok a) = ok (some a)
settle (err e) = ok none
settle (panicked m) = panicked m
settle (exited m) = exited m

abbrev escalate : {A : Type 0} → (Error → String) → Outcome A → Outcome A
escalate f (ok a) = ok a
escalate f (err e) = exited (f e)
escalate f (panicked m) = panicked m
escalate f (exited m) = exited m

module _ {W A : Type 0} where
  -- if err != nil { return f(err) }
  unfoldable pub on_error : (Error → Error) → M W A → M W A
  on_error f m w = let (r, w') = m w in (rewrap f r, w')

  -- if err != nil { glog.Errorf(...) }: an error is logged, and the caller goes on with `none`.
  unfoldable pub attempt : M W A → M W (Option A)
  attempt m w = let (r, w') = m w in (settle r, w')

  -- if err != nil { glog.Fatalf(f(err)) }
  unfoldable pub or_fatal : (Error → String) → M W A → M W A
  or_fatal f m w = let (r, w') = m w in (escalate f r, w')

-- errors.New(message + err.Error())
abbrev pub because : String → Error → Error
because message e = plain (message <> text e)

-- A call whose value is not used and whose error is only logged.
module _ {W A : Type 0} where
  unfoldable pub logged : M W A → M W (Unit {0})
  unfolding ◌>>=◌ attempt
  logged m = do _ ← attempt m; pure tt

-- for _, a := range l { body(a) }: the first failure ends the loop.
module _ {W A : Type 0} where
  unfoldable pub for_each : (A → M W (Unit {0})) → List A → M W (Unit {0})
  unfolding ◌>>=◌
  for_each body [] = pure tt
  for_each body (a ∷ l) = do body a; for_each body l

-- for i, a := range l { body(i, a) }
module _ {W A : Type 0} where
  unfoldable pub for_each_from : ℕ → (ℕ → A → M W (Unit {0})) → List A → M W (Unit {0})
  unfolding ◌>>=◌
  for_each_from i body [] = pure tt
  for_each_from i body (a ∷ l) = do body i a; for_each_from (suc i) body l

-- if test { m }
abbrev pub when : {W : Type 0} → Bool → M W (Unit {0}) → M W (Unit {0})
when b m = if b then m else pure tt
