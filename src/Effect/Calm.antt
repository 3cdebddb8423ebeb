-- ===== src/Effect/Calm.antt =====
-- Calls that neither panic nor end the process, from every world.
use kube_static_egress_ip.Prelude.{◌≡◌, Bool, true, false, if◌then◌else◌}
use kube_static_egress_ip.Effect.{
  continue, Error, Outcome, ok, err, panicked, exited, Settles, M, ◌>>=◌, on_error, attempt, logged,
}
use kube_static_egress_ip.Effect.Edits.{After, Edits}
use kube_static_egress_ip.Effect.Succeeds.{Succeeds, Succeeds-bind, Succeeds-pure, IsOk}

pub record IsCalm {W A : Type 0} (m : M W A) : Type 0 where
  pub at : (w : W) → Settles (m w).0

module _ {W : Type 0} where
  pub IsCalm-result : {A : Type 0} (r : Outcome A) → Settles r → IsCalm {W = W} (λ w. (r, w))
  IsCalm-result r s = record { at = λ w. s }

  continue-Settles :
      {A B : Type 0} (f : A → M W B) (r : Outcome A) (w : W)
      → ((a : A) → IsCalm (f a))
      → Settles r
      → Settles (continue r f w).0
  continue-Settles f (ok a) w k h = (k a).at w
  continue-Settles f (err e) w k h = tt
  continue-Settles f (panicked m) w k h = absurd h
  continue-Settles f (exited m) w k h = absurd h

  pub IsCalm-bind :
      {A B : Type 0} {m : M W A} {f : A → M W B}
      → IsCalm m
      → ((a : A) → IsCalm (f a))
      → IsCalm (m >>= f)
  unfolding ◌>>=◌
  IsCalm-bind {m} {f} first rest = record {
    at = λ w. continue-Settles f (m w).0 (m w).1 rest (first.at w);
  }

  pub IsCalm-on_error :
      {A : Type 0} (f : Error → Error) {m : M W A} → IsCalm m → IsCalm (on_error f m)
  unfolding on_error
  IsCalm-on_error {A} f {m} h = record { at = λ w. go (m w).0 (m w).1 (h.at w) }
    where
      go : (o : Outcome A) (w : W) → Settles o → Settles (on_error f (λ _. (o, w)) w).0
      go (ok a) w h = tt
      go (err e) w h = tt
      go (panicked m) w h = h
      go (exited m) w h = h

  pub IsCalm-if :
      {A : Type 0} (b : Bool) {m n : M W A} → IsCalm m → IsCalm n → IsCalm (if b then m else n)
  IsCalm-if true h k = h
  IsCalm-if false h k = k

  -- What is attempted returns.
  pub attempt-IsCalm : {A : Type 0} {m : M W A} → IsCalm m → Succeeds (attempt m)
  unfolding attempt
  attempt-IsCalm {A} {m} h = record { at = λ w. go (m w).0 (m w).1 (h.at w) }
    where
      go : (o : Outcome A) (w : W) → Settles o → IsOk (attempt (λ _. (o, w)) w).0
      go (ok a) w h = tt
      go (err e) w h = tt
      go (panicked m) w h = h
      go (exited m) w h = h

  pub logged-IsCalm : {A : Type 0} {m : M W A} → IsCalm m → Succeeds (logged m)
  unfolding logged
  logged-IsCalm h = Succeeds-bind (attempt-IsCalm h) (λ _. Succeeds-pure tt)

module _ {W V : Type 0} {view : W → V} where
  -- The error of a call that edits a view and fails only when it has done so is logged.
  pub logged-Edits :
      {A : Type 0} {x y : V} {m : M W A}
      → Edits view (λ v. v ≡ y) x m y
      → IsCalm m
      → Edits view (λ _. ⊥) x (logged m) y
  unfolding logged attempt ◌>>=◌
  logged-Edits {A} {y} {m} h c = record { at = λ w e. go (m w).0 (m w).1 (h.at w e) (c.at w) }
    where
      go :
          (o : Outcome A) (w : W)
          → After view (λ v. v ≡ y) y (o, w)
          → Settles o
          → After view (λ _. ⊥) y (logged (λ _. (o, w)) w)
      go (ok a) w h s = h
      go (err e) w h s = h
      go (panicked m) w h s = s
      go (exited m) w h s = s

-- A call that returns does neither.
pub IsCalm-Succeeds : {W A : Type 0} {m : M W A} → Succeeds m → IsCalm m
IsCalm-Succeeds {W} {A} {m} h = record { at = λ w. go (m w).0 (h.at w) }
  where
    go : (o : Outcome A) → IsOk o → Settles o
    go (ok a) i = tt
    go (err e) i = tt
    go (panicked m) i = i
    go (exited m) i = i
