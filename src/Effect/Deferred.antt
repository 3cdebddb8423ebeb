-- ===== src/Effect/Deferred.antt =====
-- Go's `defer`.
use kube_static_egress_ip.Effect.{Outcome, ok, err, panicked, exited, M}

-- How a function with a deferred call ends: by its own outcome, unless the deferred call ends
-- otherwise than by returning.
abbrev pub after_deferred : {A : Type 0} → Outcome A → Outcome (Unit {0}) → Outcome A
after_deferred r (ok _) = r
after_deferred r (err e) = err e
after_deferred r (panicked m) = panicked m
after_deferred r (exited m) = exited m

module _ {W A : Type 0} where
  -- A deferred call runs when a function returns and when it panics, but not when the process
  -- exits.
  unfoldable pub finish : Outcome A → M W (Unit {0}) → M W A
  finish (ok a) deferred w = let (r, w') = deferred w in (after_deferred (ok a) r, w')
  finish (err e) deferred w = let (r, w') = deferred w in (after_deferred (err e) r, w')
  finish (panicked m) deferred w = let (r, w') = deferred w in (after_deferred (panicked m) r, w')
  finish (exited m) deferred w = (exited m, w)

  unfoldable pub with_deferred : M W (Unit {0}) → M W A → M W A
  unfolding finish
  with_deferred deferred body w = let (r, w') = body w in finish r deferred w'
