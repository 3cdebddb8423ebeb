-- ===== src/Effect/Succeeds.antt =====
-- Calls that return a value, from every world.
use kube_static_egress_ip.Prelude.{
  ◌≡◌, refl, ap, ◌∙◌, Bool, true, false, Option, none, some, List, [], ◌∷◌, if◌then◌else◌,
}
use kube_static_egress_ip.Effect.{
  continue, Error, Outcome, ok, err, panicked, exited, M, pure, ◌>>=◌, on_error, attempt, for_each,
}
use kube_static_egress_ip.Effect.Edits.{After, Edits}

abbrev pub IsOk : {A : Type 0} → Outcome A → Type 0
IsOk (ok a) = Unit
IsOk (err e) = ⊥
IsOk (panicked m) = ⊥
IsOk (exited m) = ⊥

abbrev pub IsSome : {A : Type 0} → Option A → Type 0
IsSome none = ⊥
IsSome (some a) = Unit

pub record Succeeds {W A : Type 0} (m : M W A) : Type 0 where
  pub at : (w : W) → IsOk (m w).0

module _ {W : Type 0} where
  pub Succeeds-pure : {A : Type 0} (a : A) → Succeeds {W = W} (pure a)
  Succeeds-pure a = record { at = λ w. tt }

  continue-IsOk :
      {A B : Type 0} (f : A → M W B) (r : Outcome A) (w : W)
      → ((a : A) → Succeeds (f a))
      → IsOk r
      → IsOk (continue r f w).0
  continue-IsOk f (ok a) w k h = (k a).at w
  continue-IsOk f (err e) w k h = absurd h
  continue-IsOk f (panicked m) w k h = absurd h
  continue-IsOk f (exited m) w k h = absurd h

  pub Succeeds-bind :
      {A B : Type 0} {m : M W A} {f : A → M W B}
      → Succeeds m
      → ((a : A) → Succeeds (f a))
      → Succeeds (m >>= f)
  unfolding ◌>>=◌
  Succeeds-bind {m} {f} first rest = record {
    at = λ w. continue-IsOk f (m w).0 (m w).1 rest (first.at w);
  }

  pub Succeeds-on_error :
      {A : Type 0} (f : Error → Error) {m : M W A} → Succeeds m → Succeeds (on_error f m)
  unfolding on_error
  Succeeds-on_error {A} f {m} h = record { at = λ w. go (m w).0 (m w).1 (h.at w) }
    where
      go : (o : Outcome A) (w : W) → IsOk o → IsOk (on_error f (λ _. (o, w)) w).0
      go (ok a) w h = tt
      go (err e) w h = h
      go (panicked m) w h = h
      go (exited m) w h = h

  pub Succeeds-attempt : {A : Type 0} {m : M W A} → Succeeds m → Succeeds (attempt m)
  unfolding attempt
  Succeeds-attempt {A} {m} h = record { at = λ w. go (m w).0 (m w).1 (h.at w) }
    where
      go : (o : Outcome A) (w : W) → IsOk o → IsOk (attempt (λ _. (o, w)) w).0
      go (ok a) w h = tt
      go (err e) w h = tt
      go (panicked m) w h = h
      go (exited m) w h = h

  pub Succeeds-if :
      {A : Type 0} (b : Bool) {m n : M W A}
      → Succeeds m
      → Succeeds n
      → Succeeds (if b then m else n)
  Succeeds-if true h k = h
  Succeeds-if false h k = k

  pub Succeeds-option :
      {A B : Type 0} (o : Option A) (n : M W B) (s : A → M W B)
      → Succeeds n
      → ((a : A) → Succeeds (s a))
      → Succeeds (elim o [ none ↦ n | some a ↦ s a ])
  Succeeds-option none n s hn hs = hn
  Succeeds-option (some a) n s hn hs = hs a

  -- The value is there.
  pub Succeeds-some :
      {A B : Type 0} (o : Option A) (n : M W B) (s : A → M W B)
      → IsSome o
      → ((a : A) → Succeeds (s a))
      → Succeeds (elim o [ none ↦ n | some a ↦ s a ])
  Succeeds-some none n s there hs = absurd there
  Succeeds-some (some a) n s there hs = hs a

  pub Succeeds-for_each :
      {A : Type 0} (body : A → M W (Unit {0})) (l : List A)
      → ((a : A) → Succeeds (body a))
      → Succeeds (for_each body l)
  unfolding for_each
  Succeeds-for_each body [] h = Succeeds-pure tt
  Succeeds-for_each body (a ∷ l) h = Succeeds-bind (h a) (λ _. Succeeds-for_each body l h)

pub ruleset succeeds_rules = (
  Succeeds-pure, Succeeds-bind, Succeeds-on_error, Succeeds-attempt, Succeeds-if, Succeeds-for_each,
)

module _ {W V : Type 0} {view : W → V} {E : V → Type 0} where
  -- A call that edits a view and that returns.
  pub Edits-Succeeds :
      {A : Type 0} {x y : V} {m : M W A}
      → Edits view E x m y
      → Succeeds m
      → Edits view (λ _. ⊥) x m y
  Edits-Succeeds {A} {y} {m} h s = record { at = λ w e. go (m w).0 (m w).1 (h.at w e) (s.at w) }
    where
      go : (o : Outcome A) (w : W) → After view E y (o, w) → IsOk o → After view (λ _. ⊥) y (o, w)
      go (ok a) w h s = h
      go (err e) w h s = s
      go (panicked m) w h s = s
      go (exited m) w h s = s

module _ {W V : Type 0} {view : W → V} where
  -- The error of a call that returns need not be logged.
  pub Edits-attempt :
      {A : Type 0} {x y : V} {m : M W A}
      → Edits view (λ _. ⊥) x m y
      → Edits view (λ _. ⊥) x (attempt m) y
  unfolding attempt
  Edits-attempt {A} {y} {m} h = record { at = λ w e. go (m w).0 (m w).1 (h.at w e) }
    where
      go :
          (o : Outcome A) (w : W)
          → After view (λ _. ⊥) y (o, w)
          → After view (λ _. ⊥) y (attempt (λ _. (o, w)) w)
      go (ok a) w h = h
      go (err e) w h = absurd h
      go (panicked m) w h = h
      go (exited m) w h = h

-- A call that returns and leaves a view alone leaves alone what is read off that view.
module _ {W V U : Type 0} {view : W → V} (f : V → U) where
  pub Edits-through :
      {A : Type 0} {m : M W A} (y : U)
      → ((x : V) → Edits view (λ _. ⊥) x m x)
      → Edits (λ w. f (view w)) (λ _. ⊥) y m y
  Edits-through {A} {m} y h = record {
    at = λ w e. go (m w).0 (m w).1 (view w) e ((h (view w)).at w refl);
  }
    where
      go :
          (o : Outcome A) (w : W) (x : V)
          → f x ≡ y
          → After view (λ _. ⊥) x (o, w)
          → After (λ w. f (view w)) (λ _. ⊥) y (o, w)
      go (ok a) w x e h = ap f h ∙ e
      go (err _) w x e h = h
      go (panicked m) w x e h = h
      go (exited m) w x e h = h

module _ {W V : Type 0} (view : W → V) where
  -- How a call ends of which only one end is left.
  pub After-total :
      (y : V) (r : Outcome (Unit {0})) (w : W)
      → After view (λ _. ⊥) y (r, w)
      → (r ≡ ok tt) × (view w ≡ y)
  After-total y (ok tt) w h = (refl, h)
  After-total y (err e) w h = absurd h
  After-total y (panicked m) w h = absurd h
  After-total y (exited m) w h = absurd h
