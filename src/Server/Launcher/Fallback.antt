-- ===== src/Server/Launcher/Fallback.antt =====
-- packages/server/src/session-launcher-fallback.ts: backends tried in order until one of them launches.
use native.Mathlib.Omega.{arith}
use Prim.Native.String.{◌++◌ as ◌+++◌}
use mathlib.Core.Logic.{◌⊎◌, inl, inr}
use native.Mathlib.Nat.{zero-add}
use ccctl.Core.Json.{unsome}
use mathlib.Core.List.{append-nil, append_assoc}
use ccctl.Base.{
  ℕ, suc, ap₂, ◌+◌, ◌≡◌, refl, sym, ap, ◌∙◌, String, Bool, true, false, List, [], ◌∷◌, ◌++◌, map,
  Option, none, some, length, All, Option-cases, Bool-cases, str_eq, ◌||◌, if◌then◌else◌,
}
use ccctl.Core.Enrichment.{decimal}
use ccctl.Server.Release.{LaunchedSession}
use ccctl.Server.Launcher.{
  SessionLaunchOptions, LaunchFailureCode, invalid_cwd, worker_not_found, backend_unavailable,
  launcher_absent, at_capacity, malformed_request, spawn_failed, launch_code_name,
  launch_failure_code_of, SessionLaunchError, Thrown, an_error, session_launch_error_of,
  LaunchResult, launched, rejected, SessionLauncher,
}

-- `CALLER_FAULT_CODES.includes(code)`
unfoldable pub is_caller_fault : LaunchFailureCode → Bool
is_caller_fault invalid_cwd = true
is_caller_fault worker_not_found = true
is_caller_fault _ = false

unfoldable pub caller_fault : Thrown → Option SessionLaunchError
unfolding is_caller_fault
caller_fault t = elim (session_launch_error_of t) [
  | none ↦ none
  | some error ↦ if is_caller_fault error.code then some error else none
]

-- `failures.find(...)`
unfoldable pub first_fault : List Thrown → Option SessionLaunchError
first_fault [] = none
first_fault (t ∷ ts) = elim (caller_fault t) [ none ↦ first_fault ts | some error ↦ some error ]

abbrev pub exhausted_reason : ℕ → String
exhausted_reason tried =
    "ccctl: no session-launcher backend could launch a session (tried " +++ (decimal tried +++ ")")

unfoldable pub give_up : ℕ → List Thrown → Thrown
unfolding first_fault
give_up tried failures = elim (first_fault failures) [
  | none ↦ an_error (some (launch_code_name backend_unavailable)) (exhausted_reason tried)
  | some error ↦ an_error (some (launch_code_name error.code)) error.message
]

-- The loop over the backends: what the launch ends with, and how many backends were called.
unfoldable pub try_backends :
    SessionLaunchOptions → ℕ → List Thrown → List SessionLauncher → LaunchResult × ℕ
unfolding give_up
try_backends options tried failures [] = (rejected (give_up tried failures), tried)
try_backends options tried failures (backend ∷ more) = elim (backend options) [
  | launched surface ↦ (launched surface, tried + 1)
  | rejected t ↦ try_backends options (tried + 1) (failures ++ t ∷ []) more
]

-- `none` is a launcher that is refused because it has no backend.
unfoldable pub create_fallback_session_launcher :
    List SessionLauncher → Option (SessionLaunchOptions → LaunchResult × ℕ)
unfolding try_backends
create_fallback_session_launcher [] = none
create_fallback_session_launcher (backend ∷ more) =
    some (λ options. try_backends options 0 [] (backend ∷ more))

launch_failure_code_of-name :
    (c : LaunchFailureCode) → launch_failure_code_of (launch_code_name c) ≡ some c
unfolding launch_failure_code_of launch_code_name
launch_failure_code_of-name launcher_absent = refl
launch_failure_code_of-name at_capacity = refl
launch_failure_code_of-name malformed_request = refl
launch_failure_code_of-name invalid_cwd = refl
launch_failure_code_of-name worker_not_found = refl
launch_failure_code_of-name backend_unavailable = refl
launch_failure_code_of-name spawn_failed = refl

recognised :
    (c : LaunchFailureCode) (message : String)
    → session_launch_error_of (an_error (some (launch_code_name c)) message)
      ≡ some (record { code = c; message = message })
unfolding session_launch_error_of
recognised c message = rw (launch_failure_code_of-name c, session_launch_error_of) refl

-- A failure that is the caller's: a launch error with one of two codes.
abbrev pub is_callers : Thrown → Bool
is_callers t = elim (session_launch_error_of t) [
  | none ↦ false
  | some error ↦
      str_eq (launch_code_name error.code) "invalid-cwd"
      || str_eq (launch_code_name error.code) "worker-not-found"
]

fault-name :
    (c : LaunchFailureCode)
    → is_caller_fault c ≡ (
        str_eq (launch_code_name c) "invalid-cwd" || str_eq (launch_code_name c) "worker-not-found")
unfolding is_caller_fault launch_code_name
fault-name launcher_absent = refl
fault-name at_capacity = refl
fault-name malformed_request = refl
fault-name invalid_cwd = refl
fault-name worker_not_found = refl
fault-name backend_unavailable = refl
fault-name spawn_failed = refl

caller_fault-cases :
    (t : Thrown)
    → ((caller_fault t ≡ none) × (is_callers t ≡ false))
      ⊎ ((e : SessionLaunchError) × (caller_fault t ≡ some e)
          × (is_callers t ≡ true)
          × (session_launch_error_of t ≡ some e))
unfolding caller_fault
caller_fault-cases t = elim (Option-cases (session_launch_error_of t)) [
  | inl k ↦ inl (rw (k, caller_fault) refl, rw (k, is_callers) refl)
  | inr (e, k) ↦ elim (Bool-cases (is_caller_fault e.code)) [
    | inl c ↦
        inr (e, rw (k, c, caller_fault) refl, rw (k, is_callers) (sym (fault-name e.code) ∙ c), k)
    | inr c ↦ inl (rw (k, c, caller_fault) refl, rw (k, is_callers) (sym (fault-name e.code) ∙ c))
  ]
]

-- Why a launch that no backend made is refused: the first failure that is the caller's, or none of them is.
abbrev pub Blamed : List Thrown → SessionLaunchError → Type 0
Blamed ts e =
    ((before : List Thrown) × (after : List Thrown) × (t : Thrown) × (ts ≡ before ++ t ∷ after)
      × All (λ u. is_callers u ≡ false) before
      × (is_callers t ≡ true)
      × (session_launch_error_of t ≡ some e))
    ⊎ ((e.code ≡ backend_unavailable) × All (λ u. is_callers u ≡ false) ts)

first_fault_lem :
    (ts : List Thrown)
    → ((e : SessionLaunchError) × (first_fault ts ≡ some e)
        × ((before : List Thrown) × (after : List Thrown) × (t : Thrown) × (ts
              ≡ before ++ t ∷ after)
            × All (λ u. is_callers u ≡ false) before
            × (is_callers t ≡ true)
            × (session_launch_error_of t ≡ some e)))
      ⊎ ((first_fault ts ≡ none) × All (λ u. is_callers u ≡ false) ts)
unfolding first_fault
first_fault_lem [] = inr (refl, tt)
first_fault_lem (t ∷ ts) = elim (caller_fault-cases t) [
  | inr (e, c, own, k) ↦ inl (e, rw (c, first_fault) refl, ([], ts, t, refl, tt, own, k))
  | inl (c, other) ↦ elim (first_fault_lem ts) [
    | inl (e, f, (before, after, u, split, all, own, k)) ↦ inl (
      e,
      rw (c, first_fault) f,
      (t ∷ before, after, u, ap (λ l. t ∷ l) split, (other, all), own, k),
    )
    | inr (f, all) ↦ inr (rw (c, first_fault) f, (other, all))
  ]
]

-- The error of a launch that no backend made is a launch error again, and says why.
give_up_lem :
    (tried : ℕ) (ts : List Thrown)
    → (e : SessionLaunchError) × (session_launch_error_of (give_up tried ts) ≡ some e) × Blamed ts e
unfolding give_up session_launch_error_of
give_up_lem tried ts = elim (first_fault_lem ts) [
  | inl (e, f, found) ↦ (e, rw (f, give_up) (recognised e.code e.message), inl found)
  | inr (f, all) ↦ (
    record { code = backend_unavailable; message = exhausted_reason tried },
    rw (f, give_up) (recognised backend_unavailable (exhausted_reason tried)),
    inr (refl, all),
  )
]

result-cases :
    (r : LaunchResult)
    → ((surface : LaunchedSession) × (r ≡ launched surface)) ⊎ ((t : Thrown) × (r ≡ rejected t))
result-cases (launched surface) = inl (surface, refl)
result-cases (rejected t) = inr (t, refl)

module _ (options : SessionLaunchOptions) where
  abbrev AllReject : List SessionLauncher → List Thrown → Type 0
  AllReject backends ts = map (λ (b : SessionLauncher). b options) backends ≡ map rejected ts

  -- The backend that launched comes after ones that were rejected, and none after it was called.
  abbrev pub Made : List SessionLauncher → LaunchResult × ℕ → Type 0
  Made backends r =
      (before : List SessionLauncher) × (backend : SessionLauncher) × (after : List SessionLauncher)
      × (surface : LaunchedSession) × (ts : List Thrown) × (backends ≡ before ++ backend ∷ after)
      × AllReject before ts
      × (backend options ≡ launched surface)
      × (r ≡ (launched surface, length before + 1))

  abbrev pub Refused : List SessionLauncher → LaunchResult × ℕ → Type 0
  Refused backends r =
      (t : Thrown) × (ts : List Thrown) × (e : SessionLaunchError) × AllReject backends ts
      × (r ≡ (rejected t, length backends))
      × (session_launch_error_of t ≡ some e)
      × Blamed ts e

  try_backends_lem :
      (backends : List SessionLauncher) (tried : ℕ) (failures : List Thrown)
      → let r = try_backends options tried failures backends in
        ((before : List SessionLauncher) × (backend : SessionLauncher) × (after : List
            SessionLauncher)
          × (surface : LaunchedSession) × (ts : List Thrown) × (backends
              ≡ before ++ backend ∷ after)
          × AllReject before ts
          × (backend options ≡ launched surface)
          × (r ≡ (launched surface, tried + (length before + 1))))
        ⊎ ((ts : List Thrown) × AllReject backends ts
            × (r ≡ (
              rejected (give_up (tried + length backends) (failures ++ ts)),
              tried + length backends,
            )))
  unfolding try_backends
  try_backends_lem [] tried failures =
      inr ([], refl, (let z : tried + 0 ≡ tried = omega arith in rw (append-nil failures, z) refl))
  try_backends_lem (backend ∷ more) tried failures = elim (result-cases (backend options)) [
    | inl (surface, e) ↦
        inl ([], backend, more, surface, [], refl, refl, e, rw (e, try_backends) refl)
    | inr (t, e) ↦ elim (try_backends_lem more (tried + 1) (failures ++ t ∷ [])) [
      | inl (before, b, after, surface, ts, split, all, k, r) ↦ inl (
        backend ∷ before,
        b,
        after,
        surface,
        t ∷ ts,
        ap (λ l. backend ∷ l) split,
        ap₂ ◌∷◌ e all,
        k,
        rw (e, try_backends)
            (let n : tried + 1 + (length before + 1) ≡ tried + (suc (length before) + 1) =
                omega arith in
              rw n at r),
      )
      | inr (ts, all, r) ↦ inr (
        t ∷ ts,
        ap₂ ◌∷◌ e all,
        rw (e, try_backends)
            (let n : tried + 1 + length more ≡ tried + suc (length more) = omega arith in
              rw (n, append_assoc failures (t ∷ []) ts) at r),
      )
    ]
  ]

  -- A launch through the fallback calls its backends in order until one launches, and is that backend's launch; the
  -- ones after it are not called. If none launches, all are called and the launch is refused with an error that the
  -- endpoint recognises: it has the code and the message of the first failure that is the caller's (a bad
  -- directory, or no worker), or else it says that the backends are unavailable.
  pub fallback_lem :
      (backends : List SessionLauncher) (launch : SessionLaunchOptions → LaunchResult × ℕ)
      → create_fallback_session_launcher backends ≡ some launch
      → Made backends (launch options) ⊎ Refused backends (launch options)
  unfolding create_fallback_session_launcher
  fallback_lem [] launch made = cc
  fallback_lem (backend ∷ more) launch made =
      let same : launch options ≡ try_backends options 0 [] (backend ∷ more) =
        ap (λ (f : SessionLaunchOptions → LaunchResult × ℕ). f options) (sym (unsome made)) in
      elim (try_backends_lem (backend ∷ more) 0 []) [
        | inl (before, b, after, surface, ts, split, all, k, r) ↦ inl (
          before,
          b,
          after,
          surface,
          ts,
          split,
          all,
          k,
          same ∙ (rw (zero-add (length before + 1)) at r),
        )
        | inr (ts, all, r) ↦
            let n = suc (length more) in
            let (e, known, why) = give_up_lem n ts in
            inr (give_up n ts, ts, e, all, same ∙ (rw (zero-add n) at r), known, why)
      ]
