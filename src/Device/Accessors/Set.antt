-- ===== src/Device/Accessors/Set.antt =====
-- src/Device.g.cpp: Device::SetPropertyData.
use lib_aspl.Prelude.{ℕ, Bool, Option, none, some, ◌==◌, if◌then◌else◌}
use lib_aspl.Status.{Status, illegal_operation_error}
use lib_aspl.Object.Accessors.{ObjectView, set_property_data as object_set_property_data}
use lib_aspl.Accessor.{Address, re_address, from_foundation, Input, accept}
use lib_aspl.Device.Accessors.{
  Rate, time_stamp_period, sample_rate, sample_rates, stereo_channels, channel_layout, Condition,
  running, identify, alive, hidden, default_device, default_system_device, DeviceSelector, identity,
  description, timing, rate, condition, content, inherited, selector_number,
}

module _ {F V D : Type 0} (o : ObjectView V D) (number : DeviceSelector → ℕ)
    (set_nominal_sample_rate : F → D → Status × D)
    (set_is_identifying : Bool → D → Status × D) where
  unfoldable pub set_rate :
      Rate
      → (in_size : ℕ) (in_data : Option (Input F V)) → D
      → (otherwise : Status × D) → Status × D
  unfolding accept from_foundation
  set_rate time_stamp_period in_size in_data d otherwise = otherwise
  set_rate sample_rate in_size in_data d otherwise =
      accept 8 in_size in_data (λ input. set_nominal_sample_rate input.float64_at) d
  set_rate sample_rates in_size in_data d otherwise = otherwise
  set_rate stereo_channels in_size in_data d otherwise = otherwise
  set_rate channel_layout in_size in_data d otherwise = otherwise

  unfoldable pub set_condition :
      Condition
      → (in_size : ℕ) (in_data : Option (Input F V)) → D
      → (otherwise : Status × D) → Status × D
  unfolding accept from_foundation
  set_condition running in_size in_data d otherwise = otherwise
  set_condition identify in_size in_data d otherwise =
      accept 4 in_size in_data (λ input. set_is_identifying (from_foundation input.uint32_at)) d
  set_condition alive in_size in_data d otherwise = otherwise
  set_condition hidden in_size in_data d otherwise = otherwise
  set_condition default_device in_size in_data d otherwise = otherwise
  set_condition default_system_device in_size in_data d otherwise = otherwise

  unfoldable pub set_selector :
      DeviceSelector
      → (in_size : ℕ) (in_data : Option (Input F V)) → D
      → (otherwise : Status × D) → Status × D
  unfolding set_rate set_condition
  set_selector (identity c) in_size in_data d otherwise = otherwise
  set_selector (description c) in_size in_data d otherwise = otherwise
  set_selector (timing c) in_size in_data d otherwise = otherwise
  set_selector (rate c) in_size in_data d otherwise = set_rate c in_size in_data d otherwise
  set_selector (condition c) in_size in_data d otherwise =
      set_condition c in_size in_data d otherwise
  set_selector (content c) in_size in_data d otherwise = otherwise
  set_selector (inherited sel) in_size in_data d otherwise = otherwise

  unfoldable pub set_property_data :
      (object_id : ℕ)
      → Option (Address DeviceSelector)
      → (in_size : ℕ) (in_data : Option (Input F V)) → D
      → Status × D
  unfolding set_selector
  set_property_data object_id none in_size in_data d = (illegal_operation_error, d)
  set_property_data object_id (some address) in_size in_data d =
      let base =
        object_set_property_data o object_id
          (some (re_address (selector_number number address.selector) address)) in_size in_data d in
      if object_id == o.self_id then set_selector address.selector in_size in_data d base else base
