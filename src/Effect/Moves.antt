-- ===== src/Effect/Moves.antt =====
-- What a call may do to a view of the world, however it ends: the view before and the one after are
-- in a relation that holds of equal views and composes.
use kube_static_egress_ip.Prelude.{sym, subst, Bool, true, false, Option, none, some, if◌then◌else◌}
use kube_static_egress_ip.Effect.{
  continue, Outcome, ok, err, panicked, exited, M, pure, ◌>>=◌, attempt, logged,
}
use kube_static_egress_ip.Effect.Keeps.{Keeps}

pub record IsPreorder {V : Type 0} (R : V → V → Type 0) : Type 0 where
  pub same : (x : V) → R x x
  pub then_after : (x y z : V) → R x y → R y z → R x z

module _ {W V : Type 0} (view : W → V) (R : V → V → Type 0) where
  pub record Moves {A : Type 0} (m : M W A) : Type 0 where
    pub at : (w : W) → R (view w) (view (m w).1)

module _ {W V : Type 0} {view : W → V} {R : V → V → Type 0} (o : IsPreorder R) where
  pub Moves-Keeps : {A : Type 0} {m : M W A} → Keeps view m → Moves view R m
  Moves-Keeps h = record { at = λ w. subst (λ y. R (view w) y) (sym (h.at w)) (o.same (view w)) }

  pub Moves-pure : {A : Type 0} (a : A) → Moves view R (pure a)
  Moves-pure a = record { at = λ w. o.same (view w) }

  continue-Moves :
      {A B : Type 0} (f : A → M W B) (r : Outcome A) (w : W)
      → ((a : A) → Moves view R (f a))
      → R (view w) (view (continue r f w).1)
  continue-Moves f (ok a) w k = (k a).at w
  continue-Moves f (err e) w k = o.same (view w)
  continue-Moves f (panicked m) w k = o.same (view w)
  continue-Moves f (exited m) w k = o.same (view w)

  pub Moves-bind :
      {A B : Type 0} {m : M W A} {f : A → M W B}
      → Moves view R m
      → ((a : A) → Moves view R (f a))
      → Moves view R (m >>= f)
  unfolding ◌>>=◌
  Moves-bind {m} {f} first rest = record {
    at = λ w.
        o.then_after (view w) (view (m w).1) (view ((m >>= f) w).1) (first.at w)
          (continue-Moves f (m w).0 (m w).1 rest);
  }

  pub Moves-attempt : {A : Type 0} {m : M W A} → Moves view R m → Moves view R (attempt m)
  unfolding attempt
  Moves-attempt h = record { at = h.at }

  pub Moves-logged : {A : Type 0} {m : M W A} → Moves view R m → Moves view R (logged m)
  unfolding logged
  Moves-logged h = Moves-bind (Moves-attempt h) (λ _. Moves-pure tt)

  pub Moves-if :
      {A : Type 0} (b : Bool) {m n : M W A}
      → Moves view R m
      → Moves view R n
      → Moves view R (if b then m else n)
  Moves-if true h k = h
  Moves-if false h k = k

  pub Moves-option :
      {A B : Type 0} (p : Option A) (n : M W B) (s : A → M W B)
      → Moves view R n
      → ((a : A) → Moves view R (s a))
      → Moves view R (elim p [ none ↦ n | some a ↦ s a ])
  Moves-option none n s hn hs = hn
  Moves-option (some a) n s hn hs = hs a
