-- ===== src/Server/Tests/Shutdowns.antt =====
-- The theorems on the shutdown of packages/server, at a server that closes and a tunnel that is released.
use ccctl.Base.{◌≡◌, refl, true, List, [], ◌∷◌, ◌++◌, none, if◌then◌else◌}
use ccctl.Server.Shutdown.{
  ShutdownEvent, held, absent, unreadable, signalled, server_closed, tunnel_released, shutdown_run,
  start_state,
}
use ccctl.Server.Shutdown.Exits.{signals, ones, until_close, settling, is_released, run-exits}

abbrev graceful : List ShutdownEvent
graceful = signalled ∷ server_closed true held ∷ tunnel_released true ∷ []

run-exits_example :
    let exits = λ (es : List ShutdownEvent). (shutdown_run start_state es).exits in
    let waiting = signalled ∷ [] in
    (exits [] ≡ [])
    × (exits (until_close [] waiting) ≡ ones (signals waiting))
    × (exits (until_close [] waiting ++ server_closed true absent ∷ [])
        ≡ ones (signals waiting) ++ 0 ∷ ones (signals []))
    × (exits (until_close [] waiting ++ server_closed true unreadable ∷ [])
        ≡ ones (signals waiting) ++ 1 ∷ ones (signals []))
    × (exits (until_close [] waiting ++ server_closed true held ∷ ([] ++ settling none ∷ []))
        ≡ (ones (signals waiting) ++ ones (signals []))
          ++ (if is_released none then 0 else 1) ∷ ones (signals []))
run-exits_example = run-exits [] (signalled ∷ []) [] [] true none refl refl refl
