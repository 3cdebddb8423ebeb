-- ===== src/Signals/Interleavings.antt =====
-- Signals and the steps of the goroutine of pkg/signals, in any order.
use kube_static_egress_ip.Prelude.{
  ℕ, zero, suc, ◌+◌, ◌≤◌, ◌≡◌, refl, subst, ◌⊎◌, inl, Bool, true, false, List, [], ◌∷◌, ltb, arith,
}
use kube_static_egress_ip.Signals.{
  Phase, waiting_first, waiting_second, exited, Handler, started, Event, signal, scheduled, deliver,
  receive, step, run_events,
}

-- The signals among the events.
abbrev pub signals : List Event → ℕ
signals [] = 0
signals (signal ∷ l) = let rest = signals l in suc rest
signals (scheduled ∷ l) = signals l

-- What a number of signals leads to.
abbrev pub phase_of : ℕ → Phase
phase_of zero = waiting_first
phase_of (suc zero) = waiting_second
phase_of (suc (suc n)) = exited

-- What holds after `n` signals: none is lost while it could still change what happens.
abbrev Held : Phase → ℕ → Bool → ℕ → Type 0
Held waiting_first p c n = (c ≡ false) × ((p ≡ n) × (n ≤ 2) ⊎ (p ≡ 2) × (2 ≤ n))
Held waiting_second p c n = (c ≡ true) × ((p ≡ 0) × (n ≡ 1) ⊎ (1 ≤ p) × (2 ≤ n))
Held exited p c n = (c ≡ true) × (2 ≤ n)

abbrev Holds : Handler → ℕ → Type 0
Holds s n = Held s.phase s.pending s.stop_closed n

abbrev counted : Event → ℕ → ℕ
counted signal n = suc n
counted scheduled n = n

step-Holds :
    (ph : Phase) (p : ℕ) (c : Bool) (e : Event) (n : ℕ)
    → Held ph p c n
    → Holds (step (record { phase = ph; pending = p; stop_closed = c }) e) (counted e n)
unfolding step deliver receive
step-Holds waiting_first p c signal n h = ground arith
step-Holds waiting_second p c signal n h = ground arith
step-Holds exited p c signal n h = ground arith
step-Holds waiting_first zero c scheduled n h = h
step-Holds waiting_first (suc p) c scheduled n h = ground arith
step-Holds waiting_second zero c scheduled n h = h
step-Holds waiting_second (suc p) c scheduled n h = ground arith
step-Holds exited p c scheduled n h = h

run_events-Holds :
    (s : Handler) (l : List Event) (n : ℕ) → Holds s n → Holds (run_events s l) (signals l + n)
unfolding run_events
run_events-Holds s [] n h = subst (λ (m : ℕ). Holds s m) from_zero h
  where
    from_zero : n ≡ 0 + n
    from_zero = omega arith
run_events-Holds s (signal ∷ l) n h = rw (← moved (signals l) n) (
    run_events-Holds (step s signal) l (suc n)
      (step-Holds s.phase s.pending s.stop_closed signal n h))
  where
    moved : (a b : ℕ) → a + suc b ≡ suc a + b
    moved a b = omega arith
run_events-Holds s (scheduled ∷ l) n h =
    run_events-Holds (step s scheduled) l n
      (step-Holds s.phase s.pending s.stop_closed scheduled n h)

-- Two turns of the goroutine, with no signal between them.
abbrev pub settled : Handler → Handler
settled s = run_events s (scheduled ∷ scheduled ∷ [])

settled-Held :
    (ph : Phase) (p : ℕ) (c : Bool) (n : ℕ)
    → Held ph p c n
    → let s = settled (record { phase = ph; pending = p; stop_closed = c }) in
      (s.phase ≡ phase_of n) × (s.stop_closed ≡ ltb 0 n)
unfolding run_events step receive
settled-Held waiting_first zero c zero h = ground arith
settled-Held waiting_first (suc p) c zero h = ground arith
settled-Held waiting_first zero c (suc n) h = ground arith
settled-Held waiting_first (suc zero) c (suc zero) h = ground arith
settled-Held waiting_first (suc zero) c (suc (suc n)) h = ground arith
settled-Held waiting_first (suc (suc p)) c (suc zero) h = ground arith
settled-Held waiting_first (suc (suc p)) c (suc (suc n)) h = ground arith
settled-Held waiting_second p c zero h = ground arith
settled-Held waiting_second zero c (suc zero) h = ground arith
settled-Held waiting_second zero c (suc (suc n)) h = ground arith
settled-Held waiting_second (suc p) c (suc zero) h = ground arith
settled-Held waiting_second (suc p) c (suc (suc n)) h = ground arith
settled-Held exited p c zero h = ground arith
settled-Held exited p c (suc zero) h = ground arith
settled-Held exited p c (suc (suc n)) h = ground arith

-- However signals and steps of the handler's goroutine interleave: once the goroutine has had two
-- more turns, the stop channel is closed exactly if a signal has arrived, and the process has
-- exited exactly if two or more have; signals that found the channel full make no difference.
pub run_events-settled :
    (l : List Event)
    → let s = settled (run_events started l) in
      (s.phase ≡ phase_of (signals l)) × (s.stop_closed ≡ ltb 0 (signals l))
run_events-settled l =
    let s = run_events started l in
    let n = signals l + 0 in
    let held : Holds s n = run_events-Holds started l 0 (refl, inl (refl, omega arith)) in
    let same : n ≡ signals l = omega arith in
    rw (← same) (settled-Held s.phase s.pending s.stop_closed n held)

-- However signals and steps of the goroutine interleave, the process never exits, and the stop
-- channel is never closed, before as many signals have arrived as the handler asks for: two and
-- one.
run_events_premature :
    (l : List Event)
    → ((run_events started l).phase ≡ exited → 2 ≤ signals l)
      × ((run_events started l).stop_closed ≡ true → 1 ≤ signals l)
run_events_premature l =
    let s = run_events started l in
    early s.phase s.pending s.stop_closed (signals l + 0)
      (run_events-Holds started l 0 (refl, inl (refl, omega arith))) (omega arith)
  where
    early :
        (ph : Phase) (p : ℕ) (c : Bool) (n : ℕ)
        → Held ph p c n
        → n ≡ signals l
        → (ph ≡ exited → 2 ≤ signals l) × (c ≡ true → 1 ≤ signals l)
    early waiting_first p c n h e = ground arith
    early waiting_second p c n h e = ground arith
    early exited p c n h e = ground arith
