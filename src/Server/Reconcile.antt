-- ===== src/Server/Reconcile.antt =====
-- packages/server/src/session-reconcile.ts: after a restart, which recorded launches are kept. The probe of
-- the operating system is a parameter.
pub mod Partition
use ccctl.Base.{String, Bool, true, false, not, ◌||◌, List, [], ◌∷◌, if◌then◌else◌}
use ccctl.Base.Dict.{Dict, set}
use ccctl.Core.Session.{Session, SessionStatus, registering}

pub record RecordedLaunch : Type 0 where
  pub session : Session
  pub marker : String

pub record ReconcileOutcome : Type 0 where
  pub retained : List RecordedLaunch
  pub evicted : List RecordedLaunch

abbrev pub is_registering : SessionStatus → Bool
is_registering registering = true
is_registering _ = false

unfoldable pub reconcile_recorded_launches :
    List RecordedLaunch → (String → Bool) → ReconcileOutcome
reconcile_recorded_launches [] probe = record { retained = []; evicted = [] }
reconcile_recorded_launches (r ∷ rs) probe =
    let rest = reconcile_recorded_launches rs probe in
    if is_registering r.session.status || not (probe r.marker)
    then record rest { evicted = r ∷ rest.evicted }
    else record rest { retained = r ∷ rest.retained }

unfoldable pub rehydrate_retained_sessions : Dict Session → List RecordedLaunch → Dict Session
rehydrate_retained_sessions sessions [] = sessions
rehydrate_retained_sessions sessions (r ∷ rs) =
    rehydrate_retained_sessions
      (if is_registering r.session.status then sessions else set r.session.id r.session sessions) rs
