-- ===== src/Server/Tests/Stored.antt =====
-- The theorems on what packages/server stores, sends and reads, at concrete inputs.
use ccctl.Base.{ne_str_eq, ◌≡◌, refl, String, true, false, [], ◌∷◌, Option, some}
use ccctl.Base.Dict.{get}
use ccctl.Core.Json.{Json, nonneg, num, obj, Fields, field, end}
use ccctl.Core.Session.{Session, ready, registering, is_idle}
use ccctl.Core.Device.{PairedDevice, DeviceStoreSnapshot}
use ccctl.Server.StoreFile.{
  Files, Calls, writes, loaded, SessionStoreSnapshot, persistable_snapshot, write_snapshot,
  load_sessions, save_sessions, write_then_rename,
}
use ccctl.Server.StoreFile.Atomic.{IsAtomic, write_snapshot-IsAtomic}
use ccctl.Server.StoreFile.Snapshot.{IsLasting, Prints, load-save_sessions}
use ccctl.Server.Bridge.{WorkItem, session}
use ccctl.Server.Bridge.WorkItems.{IsValid}

-- Files.

abbrev no_rename : Calls
no_rename = record { mkdir = true; write_file = writes; chmod = true; rename = false; rm = false }

abbrev all_well : Calls
all_well = record { mkdir = true; write_file = writes; chmod = true; rename = true; rm = true }

abbrev old_files : Files
old_files = ("store", "old") ∷ ("other", "kept") ∷ []

write_snapshot-IsAtomic_example :
    IsAtomic old_files "store" "store.tmp" "new" "other"
      (write_snapshot old_files no_rename "store" "store.tmp" "new")
write_snapshot-IsAtomic_example =
    write_snapshot-IsAtomic old_files no_rename "store" "store.tmp" "new" "other"
      (ne_str_eq "store.tmp" "store" refl) (ne_str_eq "store.tmp" "other" refl)
      (ne_str_eq "store" "other" refl)

abbrev plain : Session
plain = record {
  id = "s1";
  status = ready;
  activity = is_idle;
  auto_resolves_permissions = false;
  created_at = 1;
  last_activity_at = 1;
  last_heartbeat_at = 1;
}

abbrev snapshot : SessionStoreSnapshot
snapshot = record {
  version = 4;
  sessions = plain ∷ record plain { id = "s2"; status = registering } ∷ [];
  unread = [];
}

abbrev persisted : SessionStoreSnapshot
persisted = record { version = 4; sessions = plain ∷ []; unread = [] }

persists : persistable_snapshot snapshot ≡ persisted
unfolding persistable_snapshot
persists = refl

abbrev fields_of : Fields
fields_of = field "version" (num (nonneg 4)) end

abbrev parse_any : String → Option Json
parse_any s = some (obj fields_of)

abbrev view_any : Json → SessionStoreSnapshot
view_any v = persisted

abbrev print_any : SessionStoreSnapshot → String
print_any s = "{}"

any-Prints : Prints parse_any view_any print_any (persistable_snapshot snapshot)
unfolding get persistable_snapshot
any-Prints = record { fields = fields_of; parses = refl; has_version = refl; views = refl }

saved_well :
    (save_sessions parse_any view_any print_any old_files all_well "store" "store.tmp"
      snapshot).saved
    ≡ true
unfolding save_sessions write_snapshot write_then_rename
saved_well = refl

load-save_sessions_example :
    (t : SessionStoreSnapshot) × (load_sessions parse_any view_any print_any
        (save_sessions parse_any view_any print_any old_files all_well "store" "store.tmp"
          snapshot).after
        true
        "store"
      ≡ loaded t)
    × IsLasting snapshot t
load-save_sessions_example =
    load-save_sessions parse_any view_any print_any old_files all_well "store" "store.tmp" snapshot
      refl any-Prints saved_well

-- Devices.

abbrev phone : PairedDevice
phone = record { id = "d1"; name = "phone"; created_at = 1; last_seen = 2; token_hash = "h" }

abbrev devices : DeviceStoreSnapshot
devices = record { version = 1; devices = phone ∷ record phone { id = "d2" } ∷ [] }

-- Work items.

abbrev item : WorkItem
item = record { id = "w1"; secret = "c2VjcmV0"; data_ = record { type = session; id = some "s1" } }

item-IsValid : IsValid item
item-IsValid = (λ e. cc, λ e. cc, λ e. cc)

-- A header.
