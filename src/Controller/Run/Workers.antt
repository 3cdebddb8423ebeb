-- ===== src/Controller/Run/Workers.antt =====
-- The workers that Controller.Run of pkg/controller/controller.go starts, and the end of its queue.
use mathlib.Core.List.{append-nil, append_assoc}
use kube_static_egress_ip.Prelude.{true, ℕ, zero, suc, ◌≡◌, refl, sym, ap, ◌∙◌, List, [], ◌∷◌, ◌++◌}
use kube_static_egress_ip.Effect.{M, continue, Outcome, ok, err, panicked, exited, ◌>>=◌, pure}
use kube_static_egress_ip.Host.{Host}
use kube_static_egress_ip.Cluster.{Cluster}
use kube_static_egress_ip.Controller.Memory.{Memory}
use kube_static_egress_ip.Controller.Queue.{start}
use kube_static_egress_ip.Effect.Deferred.{finish, with_deferred}
use kube_static_egress_ip.Controller.Run.{launch, run}
use kube_static_egress_ip.Controller.Run.Keeping.{StartKeeps, MemoryKeeps, start-Keeps}
use kube_static_egress_ip.Controller.Run.Filling.{FieldLaws, start-Edits}
use kube_static_egress_ip.Effect.Edits.{After}

-- What Run does besides the start: goroutines of runWorker, the wait until stopCh is closed, and
-- the shutdown of the queue.
pub data Event : Type 0 where
  worker : Event
  stopped : Event
  shut_down : Event

-- Events that a call appends, returning.
pub record Appends {W : Type 0} (events : W → List Event) (m : M W (Unit {0})) (l : List Event)
    : Type 0 where
  pub returns : (w : W) → (m w).0 ≡ ok tt
  pub appends : (w : W) → events (m w).1 ≡ events w ++ l

module _ {W : Type 0} (h : Host W) (k : Cluster W) (m : Memory W) where
  open k use {go_worker, queue_shut_down, wait_for_stop}

  -- A log of the events, which no call of the start writes.
  pub record RunLaws : Type 0 where
    pub events : W → List Event
    pub start-keeps : StartKeeps h k events
    pub memory-keeps : MemoryKeeps m events
    pub go_worker-Appends : Appends events go_worker (worker ∷ [])
    pub shut_down-Appends : Appends events queue_shut_down (shut_down ∷ [])
    pub wait-Appends : Appends events wait_for_stop (stopped ∷ [])

unfoldable pub workers : ℕ → List Event
workers zero = []
workers (suc n) = worker ∷ workers n

-- The events of Run by the outcome of the start, and its outcome.
unfoldable pub ran : {A : Type 0} → ℕ → Outcome A → List Event
ran n (ok a) = workers n ++ stopped ∷ shut_down ∷ []
ran n (err e) = shut_down ∷ []
ran n (panicked m) = shut_down ∷ []
ran n (exited m) = []

unfoldable pub ending : {A : Type 0} → Outcome A → Outcome (Unit {0})
ending (ok a) = ok tt
ending (err e) = err e
ending (panicked m) = panicked m
ending (exited m) = exited m

module _ {W : Type 0} (events : W → List Event) where
  Appends-pure : Appends events (pure tt) []
  Appends-pure = record { returns = λ w. refl; appends = λ w. sym (append-nil (events w)) }

  Appends-bind :
      {m n : M W (Unit {0})} {l l' : List Event}
      → Appends events m l
      → Appends events n l'
      → Appends events (m >>= λ _. n) (l ++ l')
  unfolding ◌>>=◌
  Appends-bind {m} {n} {l} {l'} a b = record {
    returns = λ w. rw (a.returns w) (b.returns (m w).1);
    appends = λ w. rw (a.returns w, b.appends (m w).1, a.appends w) (append_assoc (events w) l l');
  }

module _ {W : Type 0} (h : Host W) (k : Cluster W) (m : Memory W) (L : RunLaws h k m) where
  open k use {go_worker, queue_shut_down, wait_for_stop}
  open L use {events}

  launch-Appends : (n : ℕ) → Appends events (launch h k n) (workers n)
  unfolding launch workers
  launch-Appends zero = Appends-pure events
  launch-Appends (suc n) = Appends-bind events L.go_worker-Appends (launch-Appends n)

  -- What follows a start that returns.
  service : ℕ → M W (Unit {0})
  service n = launch h k n >>= λ _. wait_for_stop

  service-Appends : (n : ℕ) → Appends events (service n) (workers n ++ stopped ∷ [])
  unfolding service
  service-Appends n = Appends-bind events (launch-Appends n) L.wait-Appends

  -- The end of Run, from the outcome of the start.
  closed : ℕ → Outcome (Unit {0}) → M W (Unit {0})
  closed n r w = let (r', w') = continue r (λ _. service n) w in finish r' queue_shut_down w'

  closed-ran :
      (n : ℕ) (r : Outcome (Unit {0})) (w : W)
      → ((closed n r w).0 ≡ ending r) × (events (closed n r w).1 ≡ events w ++ ran n r)
  unfolding closed finish ending ran
  closed-ran n (ok c) w =
      let s = service-Appends n in
      let d = L.shut_down-Appends in
      let w' = (service n w).1 in
      (
        rw (s.returns w) (rw (d.returns w') refl),
        rw (s.returns w) (
            rw (d.appends w', s.appends w, append_assoc (events w) (workers n ++ stopped ∷ []))
              (ap (λ l. events w ++ l) (append_assoc (workers n) (stopped ∷ []) (shut_down ∷ [])))),
      )
  closed-ran n (err e) w = (rw (L.shut_down-Appends.returns w) refl, L.shut_down-Appends.appends w)
  closed-ran n (panicked m) w =
      (rw (L.shut_down-Appends.returns w) refl, L.shut_down-Appends.appends w)
  closed-ran n (exited m) w = (refl, sym (append-nil (events w)))

  -- On a host and a cluster whose workers, queue shutdown and wait for stopCh return and are
  -- logged, and of which no other call of the start is, with a memory that keeps what is stored in
  -- it: Run returns without an error exactly if the start does, and else ends as the start ends; if
  -- the start returns, the director and the gateway of the controller are set then, and Run starts
  -- as many workers as it is told, then waits until stopCh is closed, then shuts the queue down and
  -- does nothing after that, so that it waits for no worker; if the start fails or panics, it
  -- starts none, waits for nothing and shuts the queue down; and after an exit of the process it
  -- does none of these.
  pub run_launches_and_closes :
      (n : ℕ) (c : m.Ptr) (F : FieldLaws h k m c) (w : W)
      → ((run h k m n c w).0 ≡ ending (start h k m c w).0)
        × (events (run h k m n c w).1 ≡ events w ++ ran n (start h k m c w).0)
        × After F.fields (λ _. Unit) (true, true) (start h k m c w)
  unfolding run with_deferred ◌>>=◌ closed service
  run_launches_and_closes n c F w =
      let (r, w') = start h k m c w in
      let (ends, log) = closed-ran n r w' in
      (
        ends,
        log
            ∙ ap (λ l. l ++ ran n r)
                ((start-Keeps h k m events L.start-keeps L.memory-keeps c).at w),
        (start-Edits h k m c F (F.fields w).0 (F.fields w).1).at w refl,
      )
