-- ===== src/Server/Launch/Capacity.antt =====
-- The cap on live sessions of packages/server/src/ui-session-launch.ts, when launches run side by side, bridges
-- register and sessions end meanwhile. It governs launches only: a bridge that was not launched adds a session.
use native.Mathlib.Omega.{arith}
use mathlib.Core.List.{map-append}
use ccctl.Base.{
  ℕ, ◌+◌, ◌≤◌, ◌≡◌, refl, ap, sym, subst, ◌∙◌, String, Bool, not, List, [], ◌∷◌, ◌++◌, map, Option,
  none, some, ◌==◌, keep, length, length-append, Option-cases, Bool-cases, inl, inr, if◌then◌else◌,
}
use ccctl.Base.Dict.{set, delete, get}
use ccctl.Core.Session.{create_session}
use ccctl.Server.Bridge.{SessionCreateRequestBody}
use ccctl.Server.Work.{WorkState}
use ccctl.Server.Work.Create.{BridgeState, Mint, create, enqueue_pending}
use ccctl.Server.Pending.{
  PendingLaunchState, track_pending_launch, claim_pending_launch, evict_pending_launch,
}
use ccctl.Server.Launch.Begin.{begin-cases}
use ccctl.Server.Launcher.{SessionLaunchOptions, LaunchResult, launched, rejected}
use ccctl.Server.Launch.{
  SessionLaunchState, live_session_count, Launching, Beginning, denied, waits, release_reservation,
  begin_launch, finish_launch,
}
use ccctl.Server.Launch.Counts.{
  length-set, new_key, length-set_new, length-delete, evict-le, claim-le,
}

-- The server, the launches that wait for their backend, and what the registrations of bridges use besides.
pub record World : Type 0 where
  pub state : SessionLaunchState
  pub in_flight : List Launching
  pub work : WorkState
  pub host : String
  pub port : ℕ
  pub drawn : ℕ

-- A launch begins, or its backend answers; a bridge registers, the timer of a launch runs out, or a session ends.
pub data Event : Type 0 where
  begins : SessionLaunchOptions → Event
  settles : (reservation : ℕ) (result : LaunchResult) (now : ℕ) → Event
  registers : (body : SessionCreateRequestBody) (now : ℕ) → Event
  expires ends : (session_id : String) → Event

abbrev find_launch : ℕ → List Launching → Option Launching
find_launch r [] = none
find_launch r (l ∷ ls) = if l.reservation == r then some l else find_launch r ls

abbrev others : ℕ → List Launching → List Launching
others r ls = keep (λ l. not (l.reservation == r)) ls

released :
    (r : ℕ) (ls : List Launching)
    → release_reservation r (map (λ (l : Launching). l.reservation) ls)
      ≡ map (λ (l : Launching). l.reservation) (others r ls)
released r [] = refl
released r (l ∷ ls) = elim (Bool-cases (l.reservation == r)) [
  | inl e ↦ rw e (released r ls)
  | inr e ↦ rw e (ap (λ rs. l.reservation ∷ rs) (released r ls))
]

length-others-le : (r : ℕ) (ls : List Launching) → length (others r ls) ≤ length ls
length-others-le r [] = omega arith
length-others-le r (l ∷ ls) = ground (arith, length-others-le r ls)

-- A launch that is found makes one less of them.
length-others :
    (r : ℕ) (ls : List Launching) (l : Launching)
    → find_launch r ls ≡ some l
    → length (others r ls) + 1 ≤ length ls
length-others r [] l e = cc
length-others r (x ∷ ls) l e = ground (arith, length-others r ls l, length-others-le r ls)

found_reservation :
    (r : ℕ) (ls : List Launching) (l : Launching) → find_launch r ls ≡ some l → l.reservation ≡ r
found_reservation r [] l e = cc
found_reservation r (x ∷ ls) l e = ground (arith, found_reservation r ls l)

length-map : (ls : List Launching) → length (map (λ (l : Launching). l.reservation) ls) ≡ length ls
length-map [] = refl
length-map (l ∷ ls) = omega (arith, length-map ls)

-- The reservations are those of the launches that wait, and with the sessions they do not pass the cap by more than
-- a number.
pub record IsWithinCap (w : World) (extra : ℕ) : Type 0 where
  pub reserved : w.state.launch_reservations ≡ map (λ (l : Launching). l.reservation) w.in_flight
  pub within : live_session_count w.state ≤ w.state.max_sessions + extra

module _ (mint : Mint) (resolve : String → String) (is_absolute : String → Bool)
    (realpath : String → Option String) (is_directory : String → Bool) (uuid : ℕ → String)
    (install : String → Option ℕ) (settings_path : ℕ → String) where
  abbrev admit : World → Beginning × SessionLaunchState → World
  admit w (denied error, s) = record w { state = s }
  admit w (waits l, s) = record w { state = s; in_flight = w.in_flight ++ l ∷ [] }

  abbrev put_pending : World → PendingLaunchState → World
  put_pending w p = record w { state = record w.state { pending = p } }

  abbrev settle_launch : World → ℕ → LaunchResult → ℕ → Option Launching → World
  settle_launch w r result now none = w
  settle_launch w r result now (some l) = record w {
    state =
        (finish_launch resolve is_absolute realpath is_directory uuid install settings_path w.state
          l result now).1;
    in_flight = others r w.in_flight;
  }

  abbrev bridge_of : World → BridgeState
  bridge_of w = record {
    pending = w.state.pending;
    work = w.work;
    host = w.host;
    port = w.port;
    drawn = w.drawn;
  }

  abbrev put_bridge : World → BridgeState → World
  put_bridge w b = record w {
    state = record w.state { pending = b.pending };
    work = b.work;
    drawn = b.drawn;
  }

  abbrev claim_of : World → SessionCreateRequestBody → Option String × PendingLaunchState
  claim_of w b =
      claim_pending_launch resolve is_absolute realpath w.state.pending b.cwd b.permission_mode

  -- Whether a registration adds a session: the one that it is given is not listed, as that of a bridge that matches
  -- no launch, or several.
  abbrev pub joins : World → SessionCreateRequestBody → ℕ
  joins w b =
      let id : String = elim (claim_of w b).0 [ some id ↦ id | none ↦ mint.uuid w.drawn ] in
      new_key (get id (claim_of w b).1.sessions)

  abbrev pub step : World → Event → World
  step w (begins options) = admit w (
      begin_launch resolve is_absolute realpath is_directory uuid install settings_path w.state
        options)
  step w (settles r result now) = settle_launch w r result now (find_launch r w.in_flight)
  step w (registers body now) =
      put_bridge w (create mint resolve is_absolute realpath (bridge_of w) body now).1
  step w (expires id) = put_pending w (evict_pending_launch w.state.pending id).0
  step w (ends id) =
      put_pending w (record w.state.pending { sessions = delete id w.state.pending.sessions })

  abbrev pub run : World → List Event → World
  run w [] = w
  run w (e ∷ es) = run (step w e) es

  abbrev pub added : World → Event → ℕ
  added w (registers body now) = joins w body
  added w (begins options) = 0
  added w (settles r result now) = 0
  added w (expires id) = 0
  added w (ends id) = 0

  -- How many sessions the registrations of a history add.
  abbrev pub joined : World → List Event → ℕ
  joined w [] = 0
  joined w (e ∷ es) = added w e + joined (step w e) es

  created-sessions :
      (w : World) (b : SessionCreateRequestBody) (now : ℕ)
      → length (create mint resolve is_absolute realpath (bridge_of w) b now).1.pending.sessions
        ≤ length w.state.pending.sessions + joins w b
  unfolding create
  created-sessions w b now =
      let claimed = claim_of w b in
      let id : String = elim claimed.0 [ some id ↦ id | none ↦ mint.uuid w.drawn ] in
      let session = create_session id b.permission_mode now in
      let made = record (bridge_of w) {
        pending = record claimed.1 { sessions = set id session claimed.1.sessions };
        drawn = elim claimed.0 [ some id ↦ w.drawn | none ↦ w.drawn + 1 ];
      } in
      rw (enqueue_pending mint made id) (
        omega (
          arith,
          length-set_new id session claimed.1.sessions,
          claim-le resolve is_absolute realpath w.state.pending b.cwd b.permission_mode,
        ))

  register-IsWithinCap :
      (w : World) (b : SessionCreateRequestBody) (now k : ℕ)
      → IsWithinCap w k
      → IsWithinCap (step w (registers b now)) (k + joins w b)
  unfolding live_session_count
  register-IsWithinCap w b now k h = record {
    reserved = h.reserved;
    within = let j = h.within in omega (arith, created-sessions w b now, j);
  }

  fewer-IsWithinCap :
      (w : World) (p : PendingLaunchState) (k : ℕ)
      → IsWithinCap w k
      → length p.sessions ≤ length w.state.pending.sessions
      → IsWithinCap (put_pending w p) k
  unfolding live_session_count
  fewer-IsWithinCap w p k h less = record {
    reserved = h.reserved;
    within = let j = h.within in omega arith;
  }

  begin-IsWithinCap :
      (w : World) (options : SessionLaunchOptions) (k : ℕ)
      → IsWithinCap w k
      → IsWithinCap (step w (begins options)) k
  unfolding live_session_count
  begin-IsWithinCap w options k h =
      elim (begin-cases resolve is_absolute realpath is_directory uuid install settings_path w.state
        options) [
          | inl (error, r) ↦ rw r h
          | inr (l, r, slot, room) ↦ rw r (record {
            reserved =
                ap (λ n. w.state.launch_reservations ++ n ∷ []) (sym slot)
                ∙ ap (λ rs. rs ++ l.reservation ∷ []) h.reserved
                ∙ sym (map-append (λ (m : Launching). m.reservation) w.in_flight (l ∷ []));
            within =
                omega (arith, length-append w.state.launch_reservations (w.state.next_symbol ∷ []));
          })
        ]

  finish-sessions :
      (s : SessionLaunchState) (l : Launching) (result : LaunchResult) (now : ℕ)
      → let t =
          (finish_launch resolve is_absolute realpath is_directory uuid install settings_path s l
            result now).1 in
        (length t.pending.sessions ≤ length s.pending.sessions + 1)
        × (t.launch_reservations ≡ release_reservation l.reservation s.launch_reservations)
        × (t.max_sessions ≡ s.max_sessions)
  unfolding finish_launch track_pending_launch
  finish-sessions s l (launched surface) now = (length-set _ _ s.pending.sessions, refl, refl)
  finish-sessions s l (rejected t) now = (omega arith, refl, refl)

  settle_launch-IsWithinCap :
      (w : World) (r : ℕ) (result : LaunchResult) (now k : ℕ)
      → IsWithinCap w k
      → IsWithinCap (step w (settles r result now)) k
  unfolding live_session_count
  settle_launch-IsWithinCap w r result now k h = elim (Option-cases (find_launch r w.in_flight)) [
    | inl e ↦ rw e h
    | inr (l, e) ↦
        let (sessions, reservations, cap) = finish-sessions w.state l result now in
        let same = found_reservation r w.in_flight l e in
        let rest =
          reservations
          ∙ (rw same (ap (release_reservation r) h.reserved))
          ∙ released r w.in_flight in
        rw e (record {
          reserved = rest;
          within = omega (
            arith,
            ap (length {A = _}) rest,
            ap (length {A = _}) h.reserved,
            length-map w.in_flight,
            length-map (others r w.in_flight),
            length-others r w.in_flight l e,
            h.within,
          );
        })
  ]

  step-IsWithinCap :
      (w : World) (e : Event) (k : ℕ) → IsWithinCap w k → IsWithinCap (step w e) (k + added w e)
  step-IsWithinCap w (begins options) k h =
      subst (IsWithinCap _) (omega arith) (begin-IsWithinCap w options k h)
  step-IsWithinCap w (settles r result now) k h =
      subst (IsWithinCap _) (omega arith) (settle_launch-IsWithinCap w r result now k h)
  step-IsWithinCap w (registers b now) k h = register-IsWithinCap w b now k h
  step-IsWithinCap w (expires id) k h =
      subst (IsWithinCap _) (omega arith) (fewer-IsWithinCap w _ k h (evict-le w.state.pending id))
  step-IsWithinCap w (ends id) k h =
      subst (IsWithinCap _) (omega arith)
        (fewer-IsWithinCap w _ k h (length-delete id w.state.pending.sessions))

  -- However launches begin, wait side by side and end in success or failure, and however bridges register, launches
  -- run out and sessions end meanwhile: the sessions and the reservations of the launches that wait pass the cap
  -- together by no more than the sessions that registrations have added, of bridges that match no launch or
  -- several, and what they had passed it by at first; and each reservation is that of a launch that waits.
  pub run-IsWithinCap :
      (w : World) (es : List Event) (k : ℕ)
      → IsWithinCap w k
      → IsWithinCap (run w es) (k + joined w es)
  run-IsWithinCap w [] k h = subst (IsWithinCap w) (omega arith) h
  run-IsWithinCap w (e ∷ es) k h =
      subst (IsWithinCap _) (omega arith)
        (run-IsWithinCap (step w e) es (k + added w e) (step-IsWithinCap w e k h))
