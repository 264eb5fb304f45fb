-- ===== src/Server/Shutdown/Exits.antt =====
-- When and how often packages/server/src/shutdown-signal.ts exits the process.
use native.Mathlib.Omega.{arith}
use Prim.Native.Nat.{zero}
use ccctl.Base.{
  not, ◌&&◌, ◌∙◌, ℕ, ◌≡◌, refl, Bool, true, false, ◌||◌, List, [], ◌∷◌, ◌++◌, any, ◌==◌,
  if◌then◌else◌, sym, ap, suc, Option, none, some,
}
use mathlib.Core.List.{append_assoc, append-nil}
use ccctl.Server.Shutdown.{
  Phase, idle, closing, finished, releasing, ShutdownState, absent, held, unreadable, ShutdownEvent,
  signalled, budget_over, server_closed, tunnel_released, handle_signal, close_settles,
  release_settles, shutdown_step, shutdown_run, start_state, code_of,
}

abbrev pub signals : List ShutdownEvent → ℕ
signals [] = 0
signals (signalled ∷ es) = suc (signals es)
signals (budget_over ∷ es) = signals es
signals (server_closed ok tunnel ∷ es) = signals es
signals (tunnel_released ok ∷ es) = signals es

-- As many exits with 1.
abbrev pub ones : ℕ → List ℕ
ones zero = []
ones (suc n) = 1 ∷ ones n

ones-snoc : (xs : List ℕ) (n : ℕ) → (xs ++ 1 ∷ []) ++ ones n ≡ xs ++ ones (suc n)
ones-snoc xs n = append_assoc xs (1 ∷ []) (ones n)

abbrev at : Phase → List ℕ → ShutdownState
at p xs = record { phase = p; exits = xs }

-- The server's own end, and that of the tunnel or of the time that it has.
abbrev pub closings : List ShutdownEvent → ℕ
closings [] = 0
closings (server_closed ok tunnel ∷ es) = suc (closings es)
closings (tunnel_released ok ∷ es) = closings es
closings (signalled ∷ es) = closings es
closings (budget_over ∷ es) = closings es

abbrev pub settlings : List ShutdownEvent → ℕ
settlings [] = 0
settlings (server_closed ok tunnel ∷ es) = settlings es
settlings (tunnel_released ok ∷ es) = suc (settlings es)
settlings (signalled ∷ es) = settlings es
settlings (budget_over ∷ es) = suc (settlings es)

run-append :
    (s : ShutdownState) (es fs : List ShutdownEvent)
    → shutdown_run s (es ++ fs) ≡ shutdown_run (shutdown_run s es) fs
run-append s [] fs = refl
run-append s (e ∷ es) fs = run-append (shutdown_step s e) es fs

-- Before the first signal nothing happens.
idle-run :
    (xs : List ℕ) (es : List ShutdownEvent)
    → signals es ≡ 0
    → shutdown_run (at idle xs) es ≡ at idle xs
unfolding shutdown_step close_settles release_settles
idle-run xs [] h = refl
idle-run xs (signalled ∷ es) h = absurd (omega arith)
idle-run xs (budget_over ∷ es) h = idle-run xs es h
idle-run xs (server_closed ok tunnel ∷ es) h = idle-run xs es h
idle-run xs (tunnel_released ok ∷ es) h = idle-run xs es h

-- While the shutdown waits, and when it is over, each signal is one exit with 1.
closing-run :
    (xs : List ℕ) (es : List ShutdownEvent)
    → closings es ≡ 0
    → shutdown_run (at closing xs) es ≡ at closing (xs ++ ones (signals es))
unfolding shutdown_step handle_signal release_settles
closing-run xs [] h = ap (at closing) (sym (append-nil xs))
closing-run xs (signalled ∷ es) h =
    closing-run (xs ++ 1 ∷ []) es h ∙ ap (at closing) (ones-snoc xs (signals es))
closing-run xs (budget_over ∷ es) h = closing-run xs es h
closing-run xs (server_closed ok tunnel ∷ es) h = absurd (omega arith)
closing-run xs (tunnel_released ok ∷ es) h = closing-run xs es h

releasing-run :
    (code : ℕ) (xs : List ℕ) (es : List ShutdownEvent)
    → settlings es ≡ 0
    → shutdown_run (at (releasing code) xs) es ≡ at (releasing code) (xs ++ ones (signals es))
unfolding shutdown_step handle_signal close_settles
releasing-run code xs [] h = ap (at (releasing code)) (sym (append-nil xs))
releasing-run code xs (signalled ∷ es) h =
    releasing-run code (xs ++ 1 ∷ []) es h ∙ ap (at (releasing code)) (ones-snoc xs (signals es))
releasing-run code xs (budget_over ∷ es) h = absurd (omega arith)
releasing-run code xs (server_closed ok tunnel ∷ es) h = releasing-run code xs es h
releasing-run code xs (tunnel_released ok ∷ es) h = absurd (omega arith)

finished-run :
    (xs : List ℕ) (es : List ShutdownEvent)
    → shutdown_run (at finished xs) es ≡ at finished (xs ++ ones (signals es))
unfolding shutdown_step handle_signal close_settles release_settles
finished-run xs [] = ap (at finished) (sym (append-nil xs))
finished-run xs (signalled ∷ es) =
    finished-run (xs ++ 1 ∷ []) es ∙ ap (at finished) (ones-snoc xs (signals es))
finished-run xs (budget_over ∷ es) = finished-run xs es
finished-run xs (server_closed ok tunnel ∷ es) = finished-run xs es
finished-run xs (tunnel_released ok ∷ es) = finished-run xs es

-- The events up to the end of the server: some before the first signal, that signal, and some after it.
abbrev pub until_close : List ShutdownEvent → List ShutdownEvent → List ShutdownEvent
until_close before waiting = before ++ signalled ∷ waiting

until_close-run :
    (before waiting : List ShutdownEvent)
    → signals before ≡ 0
    → closings waiting ≡ 0
    → shutdown_run start_state (until_close before waiting) ≡ at closing (ones (signals waiting))
unfolding shutdown_step handle_signal
until_close-run before waiting h k =
    run-append start_state before (signalled ∷ waiting)
    ∙ ap (λ s. shutdown_run s (signalled ∷ waiting)) (idle-run [] before h)
    ∙ closing-run [] waiting k

-- The end of the tunnel: its release, or the end of its time.
abbrev pub is_released : Option Bool → Bool
is_released none = false
is_released (some ok) = ok

abbrev pub settling : Option Bool → ShutdownEvent
settling none = budget_over
settling (some ok) = tunnel_released ok

settle-step :
    (code : ℕ) (xs : List ℕ) (how : Option Bool)
    → shutdown_step (at (releasing code) xs) (settling how)
      ≡ at finished (xs ++ (if is_released how then code else 1) ∷ [])
unfolding shutdown_step release_settles
settle-step code xs none = refl
settle-step code xs (some ok) = refl

-- The exits of the process, over whatever history. Nothing exits before the first signal, and that one exits
-- nothing at once; every further one exits with 1 at once. When the server has closed, a process without a
-- tunnel exits with 0 or, after an error, 1, and one whose tunnel cannot be read with 1. One that has a tunnel
-- exits when the tunnel is released, or when its time is over: with that code if it was released well, else 1.
pub run-exits :
    (before waiting after rest : List ShutdownEvent) (ok : Bool) (how : Option Bool)
    → signals before ≡ 0
    → closings waiting ≡ 0
    → settlings after ≡ 0
    → let exits = λ (es : List ShutdownEvent). (shutdown_run start_state es).exits in
      let early = ones (signals waiting) in
      let code : ℕ = if ok then 0 else 1 in
      (exits before ≡ [])
      × (exits (until_close before waiting) ≡ early)
      × (exits (until_close before waiting ++ server_closed ok absent ∷ rest)
          ≡ early ++ code ∷ ones (signals rest))
      × (exits (until_close before waiting ++ server_closed ok unreadable ∷ rest)
          ≡ early ++ 1 ∷ ones (signals rest))
      × (exits
            (until_close before waiting ++ server_closed ok held ∷ (after ++ settling how ∷ rest))
          ≡ (early ++ ones (signals after))
            ++ (if is_released how then code else 1) ∷ ones (signals rest))
unfolding shutdown_step close_settles
run-exits before waiting after rest ok how h k l =
    let early = ones (signals waiting) in
    let ran = until_close-run before waiting h k in
    let on = λ (es : List ShutdownEvent).
      run-append start_state (until_close before waiting) es ∙ ap (λ s. shutdown_run s es) ran in
    let exits_of = λ (s : ShutdownState). s.exits in
    (
      ap exits_of (idle-run [] before h),
      ap exits_of ran,
      ap exits_of (on (server_closed ok absent ∷ rest) ∙ finished-run _ rest)
          ∙ append_assoc early _ _,
      ap exits_of (on (server_closed ok unreadable ∷ rest) ∙ finished-run _ rest)
          ∙ append_assoc early _ _,
      ap exits_of (
            on (server_closed ok held ∷ (after ++ settling how ∷ rest))
            ∙ run-append (at (releasing (code_of ok)) early) after (settling how ∷ rest)
            ∙ ap (λ s. shutdown_run s (settling how ∷ rest))
                (releasing-run (code_of ok) early after l)
            ∙ ap (λ s. shutdown_run s rest) (settle-step (code_of ok) _ how)
            ∙ finished-run _ rest)
          ∙ append_assoc (early ++ ones (signals after)) _ _,
    )

abbrev pub has_zero : List ℕ → Bool
has_zero exits = any (λ n. n == 0) exits

-- The server has closed without an error.
abbrev pub closes_well : ShutdownEvent → Bool
closes_well (server_closed ok tunnel) = ok
closes_well (tunnel_released ok) = false
closes_well signalled = false
closes_well budget_over = false

-- There was no tunnel to release, or it was released.
abbrev pub frees : ShutdownEvent → Bool
frees (server_closed ok absent) = ok
frees (server_closed ok held) = false
frees (server_closed ok unreadable) = false
frees (tunnel_released ok) = ok
frees signalled = false
frees budget_over = false

abbrev is_clean : Phase → Bool
is_clean (releasing code) = code == 0
is_clean idle = false
is_clean closing = false
is_clean finished = false

-- An exit with 0 has its reasons in the past, and a code of 0 that is held its first one.
record Grounded (s : ShutdownState) (closed freed : Bool) : Type 0 where
  exited : (has_zero s.exits && not (closed && freed)) ≡ false
  pending : (is_clean s.phase && not closed) ≡ false

-- Every code is 0 or 1, and a code that is held is.
abbrev pub is_small : List ℕ → Bool
is_small exits = not (any (λ n. not (n == 0 || n == 1)) exits)

abbrev held_small : Phase → Bool
held_small (releasing code) = code == 0 || code == 1
held_small idle = true
held_small closing = true
held_small finished = true
