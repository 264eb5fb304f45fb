-- ===== src/Server/Shutdown.antt =====
-- packages/server/src/shutdown-signal.ts: the first signal closes the server and then releases the tunnel within a time
-- limit; any further one exits at once. What `close()`, the tunnel and the timer do comes as events. Logging is
-- left out.
pub mod Exits
use ccctl.Base.{
  ℕ, String, Bool, true, false, not, ◌&&◌, List, [], ◌∷◌, ◌++◌, keep, str_eq, ◌==◌, if◌then◌else◌,
}

abbrev pub shutdown_signals : List String
shutdown_signals = "SIGTERM" ∷ "SIGINT" ∷ []

abbrev pub default_tunnel_teardown_timeout_ms : ℕ
default_tunnel_teardown_timeout_ms = 5000

-- Where the one run of `shutdown` is: it waits for the server, or for the tunnel with the code so far.
pub data Phase : Type 0 where
  idle closing finished : Phase
  releasing : (code : ℕ) → Phase

-- The calls of `exit`, in order.
pub record ShutdownState : Type 0 where
  pub phase : Phase
  pub exits : List ℕ

-- What `tunnel()` gives once the server has closed.
pub data TunnelDep : Type 0 where
  absent held unreadable : TunnelDep

pub data ShutdownEvent : Type 0 where
  signalled budget_over : ShutdownEvent
  server_closed : (ok : Bool) (tunnel : TunnelDep) → ShutdownEvent
  tunnel_released : (ok : Bool) → ShutdownEvent

abbrev exit : ShutdownState → ℕ → ShutdownState
exit s code = record s { exits = s.exits ++ code ∷ [] }

abbrev finish : ShutdownState → ℕ → ShutdownState
finish s code = record { phase = finished; exits = s.exits ++ code ∷ [] }

-- `handler`
unfoldable pub handle_signal : Phase → ShutdownState → ShutdownState
handle_signal idle s = record s { phase = closing }
handle_signal _ s = exit s 1

abbrev pub code_of : Bool → ℕ
code_of ok = if ok then 0 else 1

-- `shutdown`, from the end of `server.close()` on.
unfoldable pub close_settles : Phase → ShutdownState → Bool → TunnelDep → ShutdownState
close_settles closing s ok absent = finish s (code_of ok)
close_settles closing s ok held = record s { phase = releasing (code_of ok) }
close_settles closing s ok unreadable = finish s 1
close_settles _ s ok tunnel = s

-- `releaseTunnel`: whichever of the tunnel and the timer comes first.
unfoldable pub release_settles : Phase → ShutdownState → Bool → ShutdownState
release_settles (releasing code) s ok = finish s (if ok then code else 1)
release_settles _ s ok = s

unfoldable pub shutdown_step : ShutdownState → ShutdownEvent → ShutdownState
unfolding handle_signal close_settles release_settles
shutdown_step s signalled = handle_signal s.phase s
shutdown_step s (server_closed ok tunnel) = close_settles s.phase s ok tunnel
shutdown_step s (tunnel_released ok) = release_settles s.phase s ok
shutdown_step s budget_over = release_settles s.phase s false

abbrev pub shutdown_run : ShutdownState → List ShutdownEvent → ShutdownState
shutdown_run s [] = s
shutdown_run s (e ∷ es) = shutdown_run (shutdown_step s e) es

abbrev pub start_state : ShutdownState
start_state = record { phase = idle; exits = [] }
