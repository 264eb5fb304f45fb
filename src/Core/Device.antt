-- ===== src/Core/Device.antt =====
-- The paired devices of packages/core/src/index.ts: a device's record, and the registry of all devices.
-- `none` is an error for a blank name or hash. Times are arguments.
use ccctl.Base.{
  ℕ, ◌≡◌, ◌≢◌, refl, sym, ap, ◌∙◌, inl, inr, String, Bool, not, List, [], ◌∷◌, Option, none, some,
  str_eq, if◌then◌else◌, keep, Bool-cases, str_eq-cases, str_eq_ne,
}
use ccctl.Base.Texts.{trim}
use ccctl.Core.Json.{◌>>=◌}

abbrev pub device_store_snapshot_version : ℕ
device_store_snapshot_version = 1

unfoldable pub device_token_hash : String → Option String
device_token_hash value = if str_eq (trim value) "" then none else some value

pub record PairedDevice : Type 0 where
  pub id : String
  pub name : String
  pub created_at : ℕ
  pub last_seen : ℕ
  pub token_hash : String

unfoldable pub require_device_name : String → Option String
require_device_name name =
    let trimmed = trim name in if str_eq trimmed "" then none else some trimmed

unfoldable pub paired_device : String → String → String → ℕ → Option PairedDevice
unfolding require_device_name
paired_device id name token_hash now = do
  trimmed ← require_device_name name
  some (record {
    id = id;
    name = trimmed;
    created_at = now;
    last_seen = now;
    token_hash = token_hash;
  })

unfoldable pub rename_device : PairedDevice → String → Option PairedDevice
unfolding require_device_name
rename_device device name = do
  trimmed ← require_device_name name
  some (record device { name = trimmed })

unfoldable pub touch_device : PairedDevice → ℕ → PairedDevice
touch_device device now = record device { last_seen = now }

pub record DeviceStoreSnapshot : Type 0 where
  pub version : ℕ
  pub devices : List PairedDevice

unfoldable pub revoke_device : DeviceStoreSnapshot → String → DeviceStoreSnapshot
revoke_device snapshot id = record snapshot {
  devices = keep (λ d. not (str_eq d.id id)) snapshot.devices;
}

unfoldable pub revoke_all_devices : DeviceStoreSnapshot → DeviceStoreSnapshot
revoke_all_devices snapshot = record snapshot { devices = [] }

abbrev of_id : String → PairedDevice → Bool
of_id id d = str_eq d.id id

keep-others :
    (id j : String) (ds : List PairedDevice)
    → id ≢ j
    → keep (of_id j) (keep (λ d. not (str_eq d.id id)) ds) ≡ keep (of_id j) ds
keep-others id j [] h = refl
keep-others id j (d ∷ ds) h = elim (str_eq-cases d.id id) [
  | inl (p, e) ↦ rw (e, str_eq_ne d.id j (λ q. h (sym p ∙ q))) (keep-others id j ds h)
  | inr (_, e) ↦ elim (Bool-cases (str_eq d.id j)) [
    | inl k ↦ rw (e, k) (ap (λ l. d ∷ l) (keep-others id j ds h))
    | inr k ↦ rw (e, k) (keep-others id j ds h)
  ]
]

keep-own :
    (id : String) (ds : List PairedDevice)
    → keep (of_id id) (keep (λ d. not (str_eq d.id id)) ds) ≡ []
keep-own id [] = refl
keep-own id (d ∷ ds) = elim (Bool-cases (str_eq d.id id)) [
  | inl e ↦ rw e (keep-own id ds)
  | inr e ↦ rw (e, e) (keep-own id ds)
]

-- Revoking a device removes every record of that id, and leaves those of any other id and the version as
-- they are.
pub revoke_device-others :
    (s : DeviceStoreSnapshot) (id j : String)
    → id ≢ j
    → (keep (of_id id) (revoke_device s id).devices ≡ [])
      × (keep (of_id j) (revoke_device s id).devices ≡ keep (of_id j) s.devices)
      × ((revoke_device s id).version ≡ s.version)
unfolding revoke_device
revoke_device-others s id j h = (keep-own id s.devices, keep-others id j s.devices h, refl)
