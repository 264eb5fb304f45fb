-- ===== src/Server/StoreFile.antt =====
-- packages/server/src/session-store-file.ts and device-store-file.ts: the two files in which the hub keeps
-- its sessions and its devices. The file system is a map from paths to contents, and what each call of it
-- does is an argument; `JSON.parse`, `JSON.stringify` and the view of a parsed object as a snapshot are
-- parameters.
pub mod Atomic
pub mod Snapshot
use Prim.Native.String.{◌++◌ as ◌+++◌}
use ccctl.Base.{
  ℕ, String, Bool, true, false, not, ◌&&◌, ◌||◌, List, [], ◌∷◌, Option, none, some, keep, any,
  length, str_eq, ◌==◌, if◌then◌else◌,
}
use ccctl.Base.Dict.{Dict, get, set, delete}
use ccctl.Base.Texts.{trim}
use ccctl.Core.Json.{Json, Number, null, num, nonneg, obj, arr, entries}
use ccctl.Core.Session.{Session, SessionStatus, registering}
use ccctl.Core.Device.{DeviceStoreSnapshot, device_store_snapshot_version}
use ccctl.Server.Unread.{UnreadEntry}

abbrev pub session_store_snapshot_version : ℕ
session_store_snapshot_version = 4

pub record SessionStoreSnapshot : Type 0 where
  pub version : ℕ
  pub sessions : List Session
  pub unread : List UnreadEntry

abbrev pub is_registering : SessionStatus → Bool
is_registering registering = true
is_registering _ = false

unfoldable pub persistable_snapshot : SessionStoreSnapshot → SessionStoreSnapshot
persistable_snapshot snapshot =
    let sessions = keep (λ s. not (is_registering s.status)) snapshot.sessions in
    if length sessions == length snapshot.sessions then snapshot else record snapshot {
      sessions = sessions;
      unread = keep (λ e. any (λ s. str_eq s.id e.session_id) sessions) snapshot.unread;
    }

-- `isAbsolute` and `join` are parameters, `configured` is the environment's `XDG_STATE_HOME`.
unfoldable pub resolve_store_path :
    (String → Bool) → (List String → String) → String → Option String → String → String
resolve_store_path is_absolute join file_name configured home =
    let fallback = join (home ∷ ".local" ∷ "state" ∷ []) in
    let state_home : String = elim configured [
      | none ↦ fallback
      | some value ↦
          let path = trim value in
          if not (str_eq path "") && is_absolute path then path else fallback
    ] in
    join (state_home ∷ "ccctl" ∷ file_name ∷ [])

abbrev pub Files : Type 0
Files = Dict String

-- What the calls of one save do: `left` is what a failed write leaves in the file, if it made one.
pub data Writing : Type 0 where
  writes : Writing
  fails : (left : Option String) → Writing

pub record Calls : Type 0 where
  pub mkdir : Bool
  pub write_file : Writing
  pub chmod : Bool
  pub rename : Bool
  pub rm : Bool

-- A save: the states of the files it goes through, the last of them, and whether it threw.
pub record Save : Type 0 where
  pub states : List Files
  pub after : Files
  pub saved : Bool

-- The `catch` block: the temporary file is removed if that works, and the error is thrown again.
unfoldable pub clean_up : Files → Calls → String → Files → Save
clean_up before calls temp files =
    let after = if calls.rm then delete temp files else files in
    record { states = before ∷ files ∷ after ∷ []; after = after; saved = false }

-- The save from the call of `writeFile` on.
unfoldable pub write_then_rename : Files → Calls → String → String → String → Writing → Save
unfolding clean_up
write_then_rename files calls path temp serialized (fails none) = clean_up files calls temp files
write_then_rename files calls path temp serialized (fails (some left)) =
    clean_up files calls temp (set temp left files)
write_then_rename files calls path temp serialized writes =
    let written = set temp serialized files in
    if not calls.chmod || not calls.rename
    then clean_up files calls temp written
    else let renamed = set path serialized (delete temp written) in
      record { states = files ∷ written ∷ renamed ∷ []; after = renamed; saved = true }

unfoldable pub write_snapshot : Files → Calls → String → String → String → Save
unfolding write_then_rename
write_snapshot files calls path temp serialized =
    if not calls.mkdir
    then record { states = files ∷ []; after = files; saved = false }
    else write_then_rename files calls path temp serialized calls.write_file

pub data Load {ℓ} (A : Type ℓ) : Type ℓ where
  nothing : Load A
  loaded : A → Load A
  unreadable not_json not_an_object wrong_version : Load A

-- The version check, and the snapshot behind it. An array is an object here, without a version.
unfoldable pub checked {ℓ} : {A : Type ℓ} → (Json → A) → ℕ → Json → Load A
checked view version null = not_an_object
checked view version (obj fields) = elim (get "version" (entries fields)) [
  | some (num (nonneg n)) ↦ if n == version then loaded (view (obj fields)) else wrong_version
  | _ ↦ wrong_version
]
checked view version (arr _) = wrong_version
checked view version _ = not_an_object

-- `readable` is false if reading fails although the file is there.
unfoldable pub load_snapshot {ℓ} :
    {A : Type ℓ} → (String → Option Json) → (Json → A) → ℕ → Files → Bool → String → Load A
unfolding checked
load_snapshot parse view version files readable path = elim (get path files) [
  | none ↦ if readable then nothing else unreadable
  | some raw ↦
      if not readable
      then unreadable
      else elim (parse raw) [ none ↦ not_json | some parsed ↦ checked view version parsed ]
]

module _ (parse : String → Option Json) where
  module _ (view : Json → SessionStoreSnapshot) (stringify : SessionStoreSnapshot → String) where
    unfoldable pub load_sessions : Files → Bool → String → Load SessionStoreSnapshot
    unfolding load_snapshot persistable_snapshot
    load_sessions files readable path =
        load_snapshot parse (λ v. persistable_snapshot (view v)) session_store_snapshot_version
          files readable path

    unfoldable pub save_sessions : Files → Calls → String → String → SessionStoreSnapshot → Save
    unfolding write_snapshot persistable_snapshot
    save_sessions files calls path temp snapshot =
        write_snapshot files calls path temp (stringify (persistable_snapshot snapshot) +++ "\n")

  module _ (view : Json → DeviceStoreSnapshot) (stringify : DeviceStoreSnapshot → String) where
    unfoldable pub load_devices : Files → Bool → String → Load DeviceStoreSnapshot
    unfolding load_snapshot
    load_devices files readable path =
        load_snapshot parse view device_store_snapshot_version files readable path

    unfoldable pub save_devices : Files → Calls → String → String → DeviceStoreSnapshot → Save
    unfolding write_snapshot
    save_devices files calls path temp snapshot =
        write_snapshot files calls path temp (stringify snapshot +++ "\n")
