-- ===== src/Effect/Keeps.antt =====
-- Calls that leave a view of the world alone, however they end.
use kube_static_egress_ip.Prelude.{
  ◌≡◌, refl, String, ◌∙◌, Bool, true, false, List, [], ◌∷◌, if◌then◌else◌,
}
use kube_static_egress_ip.Effect.{
  continue, Error, Outcome, ok, err, panicked, exited, M, pure, panic, ◌>>=◌, on_error, attempt,
  for_each,
}

module _ {W V : Type 0} (view : W → V) where
  -- A call that leaves the view alone, however it ends.
  pub record Keeps {A : Type 0} (m : M W A) : Type 0 where
    pub at : (w : W) → view (m w).1 ≡ view w

module _ {W V : Type 0} {view : W → V} where
  pub Keeps-pure : {A : Type 0} (a : A) → Keeps view (pure a)
  Keeps-pure a = record { at = λ w. refl }

  pub Keeps-panic : {A : Type 0} (message : String) → Keeps view (panic {A = A} message)
  Keeps-panic a = record { at = λ w. refl }

  pub continue-Keeps :
      {A B : Type 0} (f : A → M W B) (r : Outcome A) (w : W)
      → ((a : A) → Keeps view (f a))
      → view (continue r f w).1 ≡ view w
  continue-Keeps f (ok a) w k = (k a).at w
  continue-Keeps f (err e) w k = refl
  continue-Keeps f (panicked m) w k = refl
  continue-Keeps f (exited m) w k = refl

  pub Keeps-bind :
      {A B : Type 0} {m : M W A} {f : A → M W B}
      → Keeps view m
      → ((a : A) → Keeps view (f a))
      → Keeps view (m >>= f)
  unfolding ◌>>=◌
  Keeps-bind {m} {f} first rest = record {
    at = λ w. continue-Keeps f (m w).0 (m w).1 rest ∙ first.at w;
  }

  pub Keeps-on_error :
      {A : Type 0} (f : Error → Error) {m : M W A} → Keeps view m → Keeps view (on_error f m)
  unfolding on_error
  Keeps-on_error f h = record { at = h.at }

  pub Keeps-attempt : {A : Type 0} {m : M W A} → Keeps view m → Keeps view (attempt m)
  unfolding attempt
  Keeps-attempt h = record { at = h.at }

  pub Keeps-if :
      {A : Type 0} (b : Bool) {m n : M W A}
      → Keeps view m
      → Keeps view n
      → Keeps view (if b then m else n)
  Keeps-if true h k = h
  Keeps-if false h k = k

  pub Keeps-for_each :
      {A : Type 0} (body : A → M W (Unit {0})) (l : List A)
      → ((a : A) → Keeps view (body a))
      → Keeps view (for_each body l)
  unfolding for_each
  Keeps-for_each body [] h = Keeps-pure tt
  Keeps-for_each body (a ∷ l) h = Keeps-bind (h a) (λ _. Keeps-for_each body l h)

pub ruleset keeps_rules =
    (Keeps-pure, Keeps-panic, Keeps-bind, Keeps-on_error, Keeps-attempt, Keeps-if, Keeps-for_each)
