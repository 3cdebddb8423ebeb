-- ===== src/Tests/Signals.antt =====
-- pkg/signals: runs of the handler.
use kube_static_egress_ip.Prelude.{◌≡◌, true, List, [], ◌∷◌}
use kube_static_egress_ip.Signals.{exited, Event, signal, started, run_events}
use kube_static_egress_ip.Signals.Interleavings.{settled, run_events-settled}

-- Four signals before the goroutine runs: the last two are lost.
abbrev burst : List Event
burst = signal ∷ signal ∷ signal ∷ signal ∷ []

run_events-settled_example :
    ((settled (run_events started burst)).phase ≡ exited)
    × ((settled (run_events started burst)).stop_closed ≡ true)
run_events-settled_example = run_events-settled burst
