-- ===== src/Effect/Edits.antt =====
-- What an action does to a view of the world: from a world whose view is `x` it either returns with
-- the view at `y`, or ends otherwise with the view in `E`.
use kube_static_egress_ip.Prelude.{
  ◌≡◌, refl, subst, ◌∙◌, Bool, true, false, List, [], ◌∷◌, ◌⊎◌, if◌then◌else◌,
}
use kube_static_egress_ip.Effect.{
  continue, rewrap, Error, Outcome, ok, err, panicked, exited, M, pure, fail, ◌>>=◌, on_error, when,
}
use kube_static_egress_ip.Effect.Keeps.{Keeps}

-- The view is one of the listed ones.
abbrev pub OneOf : {V : Type 0} → List V → V → Type 0
OneOf [] x = ⊥
OneOf (y ∷ ys) x = (x ≡ y) ⊎ OneOf ys x

-- What holds of the value, if one is returned.
abbrev pub Returns : {A : Type 0} → (A → Type 0) → Outcome A → Type 0
Returns R (ok a) = R a
Returns R (err e) = Unit
Returns R (panicked m) = Unit
Returns R (exited m) = Unit

pub Returns-rewrap :
    {A : Type 0} (R : A → Type 0) (f : Error → Error) (r : Outcome A)
    → Returns R r
    → Returns R (rewrap f r)
Returns-rewrap R f (ok a) h = h
Returns-rewrap R f (err e) h = h
Returns-rewrap R f (panicked m) h = h
Returns-rewrap R f (exited m) h = h

module _ {W V : Type 0} (view : W → V) (E : V → Type 0) where
  -- The view after a call, by how the call ended.
  abbrev pub After : {A : Type 0} → V → Outcome A × W → Type 0
  After y (ok a, w) = view w ≡ y
  After y (err e, w) = E (view w)
  After y (panicked m, w) = E (view w)
  After y (exited m, w) = E (view w)

  pub record Edits {A : Type 0} (x : V) (m : M W A) (y : V) : Type 0 where
    pub at : (w : W) → view w ≡ x → After y (m w)

  After-continue :
      {A B : Type 0} (y z : V) (f : A → M W B) (r : Outcome A) (w : W)
      → ((a : A) → Edits y (f a) z)
      → After y (r, w)
      → After z (continue r f w)
  After-continue y z f (ok a) w k h = (k a).at w h
  After-continue y z f (err e) w k h = h
  After-continue y z f (panicked m) w k h = h
  After-continue y z f (exited m) w k h = h

  After-known :
      {A B : Type 0} (R : A → Type 0) (y z : V) (f : A → M W B) (r : Outcome A) (w : W)
      → Returns R r
      → ((a : A) → R a → Edits y (f a) z)
      → After y (r, w)
      → After z (continue r f w)
  After-known R y z f (ok a) w known k h = (k a known).at w h
  After-known R y z f (err e) w known k h = h
  After-known R y z f (panicked m) w known k h = h
  After-known R y z f (exited m) w known k h = h

  After-rewrap :
      {A : Type 0} (y : V) (f : Error → Error) (r : Outcome A) (w : W)
      → After y (r, w)
      → After y (rewrap f r, w)
  After-rewrap y f (ok a) w h = h
  After-rewrap y f (err e) w h = h
  After-rewrap y f (panicked m) w h = h
  After-rewrap y f (exited m) w h = h

  After-Keeps : {A : Type 0} (x : V) (r : Outcome A) (w : W) → E x → view w ≡ x → After x (r, w)
  After-Keeps x (ok a) w p h = h
  After-Keeps x (err e) w p h = rw h p
  After-Keeps x (panicked m) w p h = rw h p
  After-Keeps x (exited m) w p h = rw h p

  After-read :
      {A B : Type 0} (R : A → Type 0) (x z : V) (f : A → M W B) (r : Outcome A) (w : W)
      → E x
      → view w ≡ x
      → Returns R r
      → ((a : A) → R a → Edits x (f a) z)
      → After z (continue r f w)
  After-read R x z f (ok a) w p e known rest = (rest a known).at w e
  After-read R x z f (err _) w p e known rest = rw e p
  After-read R x z f (panicked m) w p e known rest = rw e p
  After-read R x z f (exited m) w p e known rest = rw e p

module _ {W V : Type 0} (view : W → V) where
  -- A call whose failures change nothing fits every step.
  pub After-atomic :
      {A : Type 0} (E : V → Type 0) (x y : V) (r : Outcome A) (w : W)
      → E x
      → After view (λ v. v ≡ x) y (r, w)
      → After view E y (r, w)
  After-atomic E x y (ok a) w p h = h
  After-atomic E x y (err e) w p h = rw h p
  After-atomic E x y (panicked m) w p h = rw h p
  After-atomic E x y (exited m) w p h = rw h p

  -- However a call ends, the view has what all views have that it may end with.
  pub After-any :
      {A : Type 0} (E P : V → Type 0) (y : V) (r : Outcome A) (w : W)
      → ((v : V) → E v → P v)
      → P y
      → After view E y (r, w)
      → P (view w)
  After-any E P y (ok a) w every final h = rw h final
  After-any E P y (err e) w every final h = every (view w) h
  After-any E P y (panicked m) w every final h = every (view w) h
  After-any E P y (exited m) w every final h = every (view w) h

  -- However a call ends, the view is `x`, where that is the only view it may end with.
  pub After-only :
      {A : Type 0} (E : V → Type 0) (x y : V) (r : Outcome A) (w : W)
      → ((v : V) → E v → v ≡ x)
      → y ≡ x
      → After view E y (r, w)
      → view w ≡ x
  After-only E x y (ok a) w only e h = h ∙ e
  After-only E x y (err _) w only e h = only (view w) h
  After-only E x y (panicked m) w only e h = only (view w) h
  After-only E x y (exited m) w only e h = only (view w) h

module _ {W V : Type 0} {view : W → V} {E : V → Type 0} where
  pub Edits-pure : {A : Type 0} (x : V) (a : A) → Edits view E x (pure a) x
  Edits-pure x a = record { at = λ w h. h }

  pub Edits-fail : {A : Type 0} (x y : V) (e : Error) → E x → Edits view E {A = A} x (fail e) y
  Edits-fail x y e p = record { at = λ w h. rw h p }

  -- The rest of a block starts where its first step ended.
  pub Edits-bind :
      {A B : Type 0} {x z : V} (y : V) {m : M W A} {f : A → M W B}
      → Edits view E x m y
      → ((a : A) → Edits view E y (f a) z)
      → Edits view E x (m >>= f) z
  unfolding ◌>>=◌
  Edits-bind {x} {z} y {m} {f} first rest = record {
    at = λ w h. After-continue view E y z f (m w).0 (m w).1 rest (first.at w h);
  }

  pub Edits-on_error :
      {A : Type 0} {x y : V} (f : Error → Error) {m : M W A}
      → Edits view E x m y
      → Edits view E x (on_error f m) y
  unfolding on_error
  Edits-on_error {y} f {m} h = record {
    at = λ w p. After-rewrap view E y f (m w).0 (m w).1 (h.at w p);
  }

  pub Edits-when :
      {x y : V} (b : Bool) {m : M W (Unit {0})}
      → (b ≡ true → Edits view E x m y)
      → (b ≡ false → x ≡ y)
      → Edits view E x (when b m) y
  Edits-when true run skip = run refl
  Edits-when {x} false run skip = subst (Edits view E x (pure tt)) (skip refl) (Edits-pure x tt)

  pub Edits-if :
      {A : Type 0} {x y : V} (b : Bool) {m n : M W A}
      → (b ≡ true → Edits view E x m y)
      → (b ≡ false → Edits view E x n y)
      → Edits view E x (if b then m else n) y
  Edits-if true h k = h refl
  Edits-if false h k = k refl

  -- The rest of a block knows of the value that its first step returned.
  pub Edits-bind_known :
      {A B : Type 0} {x z : V} (y : V) (R : A → Type 0) {m : M W A} {f : A → M W B}
      → Edits view E x m y
      → ((w : W) → Returns R (m w).0)
      → ((a : A) → R a → Edits view E y (f a) z)
      → Edits view E x (m >>= f) z
  unfolding ◌>>=◌
  Edits-bind_known {x} {z} y R {m} {f} first known rest = record {
    at = λ w h. After-known view E R y z f (m w).0 (m w).1 (known w) rest (first.at w h);
  }

  -- The rest of a block knows what a call that leaves the view alone has returned.
  pub Edits-read :
      {A B : Type 0} {x z : V} (R : A → Type 0) {m : M W A} {f : A → M W B}
      → E x
      → Keeps view m
      → ((w : W) → view w ≡ x → Returns R (m w).0)
      → ((a : A) → R a → Edits view E x (f a) z)
      → Edits view E x (m >>= f) z
  unfolding ◌>>=◌
  Edits-read {x} {z} R {m} {f} p k known rest = record {
    at = λ w h. After-read view E R x z f (m w).0 (m w).1 p (k.at w ∙ h) (known w h) rest;
  }

  -- A call leaves the view alone.
  pub Edits-Keeps : {A : Type 0} {x : V} {m : M W A} → E x → Keeps view m → Edits view E x m x
  Edits-Keeps {x} {m} p k = record {
    at = λ w h. After-Keeps view E x (m w).0 (m w).1 p (k.at w ∙ h);
  }
