-- ===== src/Device/Controls.antt =====
-- src/Device.cpp: the volume and the mute controls of a device. Each kind has lists by scope and a map
-- by identifier, which change at once; the device becomes the owner of a control, or stops being it, by
-- a configuration change that may wait for the HAL (Device/Configuration.antt). `Traits` gives the scope
-- and the identifier of each control. The tracer's calls are left out.
pub mod Added
pub mod Owned
pub mod Settled
mod Tests
use lib_aspl.Prelude.{
  ℕ, Bool, true, false, Option, none, some, List, [], ◌∷◌, ◌++◌, if◌then◌else◌, ◌==◌, Map, lookup,
  contains, insert, erase, length, get_elem?, ◌%◌, ◌^◌,
}
use lib_aspl.Object.{Outcome, done, deadlock, ◌>>=◌}

-- The controls of one kind.
pub record ControlTable : Type 0 where
  pub by_scope : Map (List ℕ)
  pub by_id : Map ℕ

-- The functions that are passed to `RequestConfigurationChange`.
pub data ControlChange : Type 0 where
  owns : (id scope : ℕ) → ControlChange
  disowns : (id : ℕ) → ControlChange

-- `owned` is the scope under which the device owns an object; `pending` holds the changes that wait,
-- the oldest first.
pub record DeviceControls : Type 0 where
  pub volume_controls : ControlTable
  pub mute_controls : ControlTable
  pub owned : Map ℕ
  pub pending : List ControlChange

pub record Traits : Type 0 where
  pub scope : ℕ → ℕ
  pub id : ℕ → ℕ

abbrev pub empty_table : ControlTable
empty_table = record { by_scope = []; by_id = [] }

abbrev pub new_controls : DeviceControls
new_controls = record {
  volume_controls = empty_table;
  mute_controls = empty_table;
  owned = [];
  pending = [];
}

-- `controls[scope]`, which makes an empty list where there is none.
abbrev pub list_at : (scope : ℕ) → Map (List ℕ) → List ℕ
list_at scope m = elim (lookup scope m) [ none ↦ [] | some controls ↦ controls ]

-- std::remove, and erase of what is left over.
abbrev pub without : ℕ → List ℕ → List ℕ
without x [] = []
without x (y ∷ ys) = let rest = without x ys in if y == x then rest else y ∷ rest

unfoldable pub list_control : Traits → (control : ℕ) → ControlTable → ControlTable
list_control t control table = record {
  by_scope =
      insert (t.scope control) (list_at (t.scope control) table.by_scope ++ control ∷ [])
        table.by_scope;
  by_id = insert (t.id control) control table.by_id;
}

unfoldable pub unlist_control : Traits → (control : ℕ) → ControlTable → ControlTable
unlist_control t control table = record {
  by_scope =
      insert (t.scope control) (without control (list_at (t.scope control) table.by_scope))
        table.by_scope;
  by_id = erase (t.id control) table.by_id;
}

-- `AddOwnedObject`, `RemoveOwnedObject`. Adding a control that has an owner never returns:
-- `AttachOwner` holds the control's mutex, which `DetachOwner` of the same control waits for
-- (Object/Calls.antt). A control is taken to be added to one device only.
unfoldable pub apply_change : ControlChange → Map ℕ → Outcome (Map ℕ)
apply_change (owns id scope) owned =
    if contains id owned then deadlock else done (insert id scope owned)
apply_change (disowns id) owned = done (erase id owned)

-- `enqueues` is the test of `RequestConfigurationChange`.
unfoldable pub request_change :
    (enqueues : Bool) → ControlChange → DeviceControls → Outcome DeviceControls
unfolding apply_change
request_change enqueues change s =
    if enqueues
    then done (record s { pending = s.pending ++ change ∷ [] })
    else do owned ← apply_change change s.owned; done (record s { owned = owned })

-- A null pointer is `none`.
unfoldable pub add_volume_control_async :
    Traits → (enqueues : Bool) (control : Option ℕ) → DeviceControls → Outcome DeviceControls
unfolding list_control request_change
add_volume_control_async t enqueues none s = done s
add_volume_control_async t enqueues (some control) s =
    request_change enqueues (owns (t.id control) (t.scope control))
      (record s { volume_controls = list_control t control s.volume_controls })

unfoldable pub remove_volume_control_async :
    Traits → (enqueues : Bool) (control : Option ℕ) → DeviceControls → Outcome DeviceControls
unfolding unlist_control request_change
remove_volume_control_async t enqueues none s = done s
remove_volume_control_async t enqueues (some control) s =
    request_change enqueues (disowns (t.id control))
      (record s { volume_controls = unlist_control t control s.volume_controls })

unfoldable pub add_mute_control_async :
    Traits → (enqueues : Bool) (control : Option ℕ) → DeviceControls → Outcome DeviceControls
unfolding list_control request_change
add_mute_control_async t enqueues none s = done s
add_mute_control_async t enqueues (some control) s =
    request_change enqueues (owns (t.id control) (t.scope control))
      (record s { mute_controls = list_control t control s.mute_controls })

unfoldable pub remove_mute_control_async :
    Traits → (enqueues : Bool) (control : Option ℕ) → DeviceControls → Outcome DeviceControls
unfolding unlist_control request_change
remove_mute_control_async t enqueues none s = done s
remove_mute_control_async t enqueues (some control) s =
    request_change enqueues (disowns (t.id control))
      (record s { mute_controls = unlist_control t control s.mute_controls })

abbrev pub get_volume_control_count : (scope : ℕ) → DeviceControls → ℕ
get_volume_control_count scope s = length (list_at scope s.volume_controls.by_scope) % 2 ^ 32

abbrev pub get_volume_control_by_index : (scope idx : ℕ) → DeviceControls → Option ℕ
get_volume_control_by_index scope idx s = get_elem? (list_at scope s.volume_controls.by_scope) idx

abbrev pub get_volume_control_by_id : (control_id : ℕ) → DeviceControls → Option ℕ
get_volume_control_by_id control_id s = lookup control_id s.volume_controls.by_id

abbrev pub get_mute_control_count : (scope : ℕ) → DeviceControls → ℕ
get_mute_control_count scope s = length (list_at scope s.mute_controls.by_scope) % 2 ^ 32

abbrev pub get_mute_control_by_index : (scope idx : ℕ) → DeviceControls → Option ℕ
get_mute_control_by_index scope idx s = get_elem? (list_at scope s.mute_controls.by_scope) idx

abbrev pub get_mute_control_by_id : (control_id : ℕ) → DeviceControls → Option ℕ
get_mute_control_by_id control_id s = lookup control_id s.mute_controls.by_id
