-- ===== src/Signals.antt =====
-- pkg/signals: the handler of SIGINT and SIGTERM, a goroutine that receives from a channel of two
-- places. Signals arrive at any time between its steps.
pub mod Interleavings
use kube_static_egress_ip.Prelude.{
  ℕ, zero, suc, String, Bool, true, false, List, [], ◌∷◌, if◌then◌else◌, ltb,
}
use kube_static_egress_ip.Effect.{Outcome, ok, panicked}

-- shutdownSignals
abbrev pub shutdown_signals : List String
shutdown_signals = "SIGINT" ∷ "SIGTERM" ∷ []

-- Where the goroutine is: at the first receive, at the second, or past os.Exit(1).
pub data Phase : Type 0 where
  waiting_first waiting_second exited : Phase

-- The channel `stop` is closed or open, and `c` holds a number of signals.
pub record Handler : Type 0 where
  pub phase : Phase
  pub pending : ℕ
  pub stop_closed : Bool

-- make(chan os.Signal, 2)
abbrev pub capacity : ℕ
capacity = 2

abbrev pub started : Handler
started = record { phase = waiting_first; pending = 0; stop_closed = false }

-- SetupSignalHandler, by whether onlyOneSignalHandler is closed already; it is closed afterwards.
unfoldable pub setup_signal_handler : Bool → Outcome Handler × Bool
setup_signal_handler true = (panicked "close of closed channel", true)
setup_signal_handler false = (ok started, true)

-- One of the shutdown signals arrives, or the goroutine is scheduled.
pub data Event : Type 0 where
  signal scheduled : Event

-- signal.Notify does not block: a signal that finds the channel full is lost.
unfoldable pub deliver : Handler → Handler
deliver s = if ltb s.pending capacity then record s { pending = suc s.pending } else s

-- The goroutine up to its next receive; it blocks on an empty channel.
unfoldable pub receive : Phase → ℕ → Handler → Handler
receive waiting_first (suc n) s = record { phase = waiting_second; pending = n; stop_closed = true }
receive waiting_second (suc n) s = record s { phase = exited; pending = n }
receive waiting_first zero s = s
receive waiting_second zero s = s
receive exited n s = s

unfoldable pub step : Handler → Event → Handler
unfolding deliver receive
step s signal = deliver s
step s scheduled = receive s.phase s.pending s

unfoldable pub run_events : Handler → List Event → Handler
unfolding step
run_events s [] = s
run_events s (e ∷ l) = run_events (step s e) l
