-- ===== src/Server/StoreFile/Snapshot.antt =====
-- Which sessions packages/server/src/session-store-file.ts persists, and that a load reads what was saved.
use native.Mathlib.Omega.{arith}
use Prim.Native.String.{◌++◌ as ◌+++◌}
use ccctl.Base.{
  ◌≡◌, refl, sym, ap, subst, ◌||◌, ◌∙◌, inl, inr, String, Bool, true, not, List, [], ◌∷◌, Option,
  none, some, any, str_eq, if◌then◌else◌, Bool-cases, All, length, keep, keep-All, keep_idem,
  length-keep-le, ◌==◌, ==_iff,
}
use ccctl.Base.Dict.{get, set, delete, get-set_self}
use ccctl.Core.Json.{Json, Fields, num, nonneg, obj, entries}
use ccctl.Core.Session.{Session}
use ccctl.Server.StoreFile.{
  Files, Calls, loaded, SessionStoreSnapshot, is_registering, persistable_snapshot, checked,
  load_snapshot, load_sessions, save_sessions, write_snapshot, write_then_rename, clean_up, Writing,
  writes, fails, session_store_snapshot_version,
}

keep-full {ℓ} :
    {A : Type ℓ} (p : A → Bool) (xs : List A) → length (keep p xs) ≡ length xs → keep p xs ≡ xs
keep-full p [] h = refl
keep-full p (x ∷ xs) h = elim (Bool-cases (p x)) [
  | inl e ↦
      let h' : length (keep p xs) ≡ length xs = ground arith in
      rw e (ap (λ l. x ∷ l) (keep-full p xs h'))
  | inr e ↦ absurd (let le = length-keep-le p xs in ground arith)
]

abbrev settled : Session → Bool
settled s = not (is_registering s.status)

persistable_snapshot-full :
    (s : SessionStoreSnapshot) → keep settled s.sessions ≡ s.sessions → persistable_snapshot s ≡ s
unfolding persistable_snapshot
persistable_snapshot-full s h =
    let same : (length (keep settled s.sessions) == length s.sessions) ≡ true =
      (==_iff (length (keep settled s.sessions)) (length s.sessions)).1 (ap length h) in
    rw same refl

-- What is persisted holds no session that is still registering, is the same when persisted again, and keeps
-- every other session, in order.
pub persistable_snapshot-settled :
    (s : SessionStoreSnapshot)
    → All (λ x. not (is_registering x.status) ≡ true) (persistable_snapshot s).sessions
      × (persistable_snapshot (persistable_snapshot s) ≡ persistable_snapshot s)
      × ((persistable_snapshot s).sessions ≡ keep (λ x. not (is_registering x.status)) s.sessions)
unfolding persistable_snapshot
persistable_snapshot-settled s =
    elim (Bool-cases (length (keep settled s.sessions) == length s.sessions)) [
      | inl e ↦
          let full =
            keep-full settled s.sessions
              ((==_iff (length (keep settled s.sessions)) (length s.sessions)).0 e) in
          rw e (
            subst (All (λ x. settled x ≡ true)) full (keep-All settled s.sessions),
            persistable_snapshot-full s full,
            sym full,
          )
      | inr e ↦ rw e (
        keep-All settled s.sessions,
        persistable_snapshot-full _ (keep_idem settled s.sessions),
        refl,
      )
    ]

-- The text of a snapshot is parsed to an object of that version, which is the snapshot again.
pub record Prints (parse : String → Option Json) (view : Json → SessionStoreSnapshot)
    (stringify : SessionStoreSnapshot → String) (s : SessionStoreSnapshot) : Type 0 where
  pub fields : Fields
  pub parses : parse (stringify s +++ "\n") ≡ some (obj fields)
  pub has_version : get "version" (entries fields) ≡ some (num (nonneg s.version))
  pub views : view (obj fields) ≡ s

written-text :
    (files : Files) (calls : Calls) (path temp text : String) (w : Writing)
    → (write_then_rename files calls path temp text w).saved ≡ true
    → get path (write_then_rename files calls path temp text w).after ≡ some text
unfolding write_then_rename clean_up
written-text files calls path temp text (fails none) e = cc
written-text files calls path temp text (fails (some left)) e = cc
written-text files calls path temp text writes e =
    elim (Bool-cases (not calls.chmod || not calls.rename)) [
      | inl k ↦ ground (arith, k, e)
      | inr k ↦ rw k (get-set_self path text (delete temp (set temp text files)))
    ]

saved-text :
    (files : Files) (calls : Calls) (path temp text : String)
    → (write_snapshot files calls path temp text).saved ≡ true
    → get path (write_snapshot files calls path temp text).after ≡ some text
unfolding write_snapshot
saved-text files calls path temp text e = elim (Bool-cases calls.mkdir) [
  | inr k ↦ cc (rw k at e)
  | inl k ↦ rw k (written-text files calls path temp text calls.write_file (rw k at e))
]

-- The version passes.
version-checked :
    (view : Json → SessionStoreSnapshot) (fields : Fields) (s : SessionStoreSnapshot)
    → get "version" (entries fields) ≡ some (num (nonneg session_store_snapshot_version))
    → view (obj fields) ≡ s
    → checked view session_store_snapshot_version (obj fields) ≡ loaded s
unfolding checked
version-checked view fields s h v = rw (h, checked) (ap (λ x. loaded x) v)

load-parsed :
    (parse : String → Option Json) (view : Json → SessionStoreSnapshot) (files : Files)
    (path raw : String) (v : Json)
    → get path files ≡ some raw
    → parse raw ≡ some v
    → load_snapshot parse view session_store_snapshot_version files true path
      ≡ checked view session_store_snapshot_version v
unfolding load_snapshot
load-parsed parse view files path raw v g h = rw (g, load_snapshot) (rw h refl)

version-persistable : (s : SessionStoreSnapshot) → (persistable_snapshot s).version ≡ s.version
unfolding persistable_snapshot
version-persistable s = ground arith

all-settled :
    (xs : List Session)
    → any (λ x. is_registering x.status) xs
      ≡ not (length (keep (λ x. not (is_registering x.status)) xs) == length xs)
all-settled [] = refl
all-settled (x ∷ xs) = elim (Bool-cases (is_registering x.status)) [
  | inl e ↦
      rw e (ground (arith, length-keep-le (λ (y : Session). not (is_registering y.status)) xs))
  | inr e ↦ rw e (ground (arith, all-settled xs))
]

-- The snapshot, and the part of the unread events that stays with the sessions that are kept.
pub record IsLasting (s t : SessionStoreSnapshot) : Type 0 where
  pub version : t.version ≡ s.version
  pub sessions : t.sessions ≡ keep (λ x. not (is_registering x.status)) s.sessions
  pub unread : t.unread ≡ (
      if any (λ x. is_registering x.status) s.sessions
      then keep (λ e. any (λ x. str_eq x.id e.session_id) t.sessions) s.unread
      else s.unread)

persistable_snapshot-IsLasting : (s : SessionStoreSnapshot) → IsLasting s (persistable_snapshot s)
unfolding persistable_snapshot
persistable_snapshot-IsLasting s =
    elim (Bool-cases (length (keep settled s.sessions) == length s.sessions)) [
      | inl e ↦ record {
        version = version-persistable s;
        sessions = (persistable_snapshot-settled s).2;
        unread = rw (all-settled s.sessions, e) refl;
      }
      | inr e ↦ record {
        version = version-persistable s;
        sessions = (persistable_snapshot-settled s).2;
        unread = rw (all-settled s.sessions, e) refl;
      }
    ]

-- A load after a save that succeeded gives what was saved less the sessions that were registering: all the other
-- sessions, in order, and the unread events, of which, if a session is left out, only those of the other
-- sessions stay. The snapshot has this build's version, and the text of what is persisted parses back to it.
pub load-save_sessions :
    (parse : String → Option Json) (view : Json → SessionStoreSnapshot)
    (stringify : SessionStoreSnapshot → String) (files : Files) (calls : Calls) (path temp : String)
    (s : SessionStoreSnapshot)
    → s.version ≡ session_store_snapshot_version
    → Prints parse view stringify (persistable_snapshot s)
    → (save_sessions parse view stringify files calls path temp s).saved ≡ true
    → (t : SessionStoreSnapshot) × (load_sessions parse view stringify
          (save_sessions parse view stringify files calls path temp s).after
          true
          path
        ≡ loaded t)
      × IsLasting s t
unfolding load_sessions save_sessions
load-save_sessions parse view stringify files calls path temp s v p ok =
    let text = stringify (persistable_snapshot s) +++ "\n" in
    let shown = λ (w : Json). persistable_snapshot (view w) in
    (
      persistable_snapshot s,
      load-parsed parse shown (write_snapshot files calls path temp text).after path text
            (obj p.fields) (saved-text files calls path temp text ok) p.parses
          ∙ version-checked shown p.fields (persistable_snapshot s)
              (rw (sym v, sym (version-persistable s)) p.has_version)
              (rw p.views ((persistable_snapshot-settled s).1)),
      persistable_snapshot-IsLasting s,
    )
