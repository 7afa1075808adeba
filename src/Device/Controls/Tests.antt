-- ===== src/Device/Controls/Tests.antt =====
-- A volume and a mute control that come and go, and the theorem at them.
use lib_aspl.Prelude.{
  ℕ, ◌+◌, ◌≡◌, ◌≢◌, refl, true, false, List, [], ◌∷◌, Map, lookup, insert, erase, arith,
}
use lib_aspl.Object.{done, deadlock}
use lib_aspl.Device.Controls.{
  Traits, DeviceControls, new_controls, add_volume_control_async, remove_volume_control_async,
  add_mute_control_async, list_control, unlist_control, request_change, apply_change,
}
use lib_aspl.Device.Controls.Settled.{
  ControlEvent, adds_volume, removes_volume, adds_mute, performs_change, control_run, settle,
  listed_scope, AreUsable,
}
use lib_aspl.Device.Controls.Owned.{new_controls-IsOwner}

abbrev volume : Traits
volume = record { scope = λ control. 1; id = λ control. control + control }

abbrev mute : Traits
mute = record { scope = λ control. 2; id = λ control. control + control + 1 }

apart : (v m : ℕ) → volume.id v ≢ mute.id m
apart v m = omega arith

abbrev events : List ControlEvent
events =
    adds_volume false 3
    ∷ adds_mute true 4
    ∷ removes_volume true 3
    ∷ performs_change
    ∷ performs_change
    ∷ []

events-AreUsable : AreUsable volume mute apart events (done new_controls)
unfolding add_volume_control_async remove_volume_control_async add_mute_control_async list_control
    unlist_control request_change apply_change lookup insert erase
events-AreUsable = ((λ e. refl, refl), ((λ e. cc, refl), (λ e. cc, (tt, (tt, tt)))))

new_controls-IsOwner_example :
    (s : DeviceControls) × (control_run volume mute apart events new_controls ≡ done s)
    × ((after : Map ℕ) × (settle s.pending s.owned ≡ done after)
        × ((i : ℕ) → lookup i after ≡ listed_scope volume mute apart i s))
new_controls-IsOwner_example = new_controls-IsOwner volume mute apart events events-AreUsable

-- Adding a control twice waits for ever.
added_twice :
    control_run volume mute apart (adds_volume false 3 ∷ adds_volume false 3 ∷ []) new_controls
    ≡ deadlock
unfolding add_volume_control_async list_control request_change apply_change lookup insert
added_twice = refl
