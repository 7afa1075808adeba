-- ===== src/Plugin.antt =====
-- src/Plugin.cpp: the devices of the plugin, in a list and in two maps. Devices are named by their
-- addresses; `id` and `uid` give a device's identifier and the number of its UID, 0 for the empty one.
-- A device's owner changes by `Device::RequestOwnershipChange`, which the plugin calls under the same
-- guard. `writeMutex_` serializes the calls. The tracer's calls are left out.
pub mod Accessors
pub mod Indexes
mod Tests
use lib_aspl.Prelude.{
  ◌%◌, ◌^◌, ℕ, ◌+◌, Bool, true, false, not, Option, none, some, List, [], ◌∷◌, ◌++◌, if◌then◌else◌,
  ◌==◌, Map, lookup, contains, insert, erase, length, get_elem?,
}
use lib_aspl.Dispatcher.Ids.{object_unknown, plugin_object}

-- `owner_id` is `GetOwnerID` of each device; `notifications` counts calls of NotifyPropertiesChanged.
pub record PluginState : Type 0 where
  pub devices : List ℕ
  pub device_by_id : Map ℕ
  pub device_by_uid : Map ℕ
  pub owner_id : ℕ → ℕ
  pub notifications : ℕ

abbrev pub new_plugin : PluginState
new_plugin = record {
  devices = [];
  device_by_id = [];
  device_by_uid = [];
  owner_id = λ device. object_unknown;
  notifications = 0;
}

abbrev pub set_owner : (ℕ → ℕ) → (device owner : ℕ) → ℕ → ℕ
set_owner owners device owner d = if d == device then owner else owners d

-- devices.erase(std::find(…)), if it is found.
abbrev pub drop_device : ℕ → List ℕ → List ℕ
drop_device device [] = []
drop_device device (d ∷ ds) = if d == device then ds else d ∷ drop_device device ds

module _ (id uid : ℕ → ℕ) where
  unfoldable pub add_device : (device : ℕ) → PluginState → PluginState
  add_device device s = if not (s.owner_id device == object_unknown) then s else record {
    devices = s.devices ++ device ∷ [];
    device_by_id = insert (id device) device s.device_by_id;
    device_by_uid =
        if uid device == 0 then s.device_by_uid else insert (uid device) device s.device_by_uid;
    owner_id = set_owner s.owner_id device plugin_object;
    notifications = s.notifications + 1;
  }

  unfoldable pub remove_device : (device : ℕ) → PluginState → PluginState
  remove_device device s = if s.owner_id device == object_unknown then s else record {
    devices = drop_device device s.devices;
    device_by_id = erase (id device) s.device_by_id;
    device_by_uid = if uid device == 0 then s.device_by_uid else erase (uid device) s.device_by_uid;
    owner_id = set_owner s.owner_id device object_unknown;
    notifications = s.notifications + 1;
  }

  unfoldable pub has_device : (device : ℕ) → PluginState → Bool
  has_device device s = contains (id device) s.device_by_id

  -- `{}` is the unknown identifier.
  unfoldable pub get_device_id_by_uid : (device_uid : ℕ) → PluginState → ℕ
  get_device_id_by_uid device_uid s = elim (lookup device_uid s.device_by_uid) [
    | none ↦ object_unknown
    | some device ↦ id device
  ]

unfoldable pub get_device_by_id : (device_id : ℕ) → PluginState → Option ℕ
get_device_by_id device_id s = lookup device_id s.device_by_id

abbrev pub get_device_count : PluginState → ℕ
get_device_count s = length s.devices % 2 ^ 32

abbrev pub get_device_by_index : (idx : ℕ) → PluginState → Option ℕ
get_device_by_index idx s = get_elem? s.devices idx
