-- ===== src/Device/Attributes/Setters.antt =====
-- src/Device.g.cpp: the setters of a device's attributes. `code` gives the number of the function that
-- a setter passes to `RequestConfigurationChange` for a value, `device` is the device at that moment.
use lib_aspl.Prelude.{ℕ, ◌&&◌, Bool, true, false, List, [], ◌∷◌, ◌==◌}
use lib_aspl.Status.{Status, no_error}
use lib_aspl.Stream.{ChannelDescription, same_channel}
use lib_aspl.Device.Configuration.{Configuration}
use lib_aspl.Accessor.Setters.{Notifying, set_value, set_value_async}
use lib_aspl.Device.Attributes.{
  DeviceAttributes, LayoutBuffer, get_available_sample_rates, check_nominal_sample_rate,
  get_preferred_channel_count, get_preferred_channels, get_preferred_channel_layout,
  get_is_identifying, set_is_identifying_impl, set_is_alive_impl, set_is_hidden_impl,
  set_can_be_default_device_impl, set_can_be_default_system_device_impl,
}

-- `operator==` of a vector, and of AudioValueRange.
unfoldable pub same_list : {A : Type 0} → (A → A → Bool) → List A → List A → Bool
same_list same [] [] = true
same_list same (a ∷ l) (b ∷ m) = same a b && same_list same l m
same_list same _ _ = false

abbrev pub same_bool : Bool → Bool → Bool
same_bool true true = true
same_bool false false = true
same_bool _ _ = false

abbrev pub same_pair : {A : Type 0} → (A → A → Bool) → A × A → A × A → Bool
same_pair same a b = same a.0 b.0 && same a.1 b.1

abbrev pub no_check : {A D : Type 0} → A → D → Status
no_check value device = no_error

module _ {F : Type 0} where
  unfoldable pub set_latency_async :
      (code : ℕ → ℕ) (value : ℕ)
      → (device : DeviceAttributes F) (c : Configuration) → Status × Configuration
  unfolding set_value_async
  set_latency_async code value device c =
      set_value_async ◌==◌ (λ d. d.latency) no_check code value device c

module _ {F : Type 0} where
  unfoldable pub set_safety_offset_async :
      (code : ℕ → ℕ) (value : ℕ)
      → (device : DeviceAttributes F) (c : Configuration) → Status × Configuration
  unfolding set_value_async
  set_safety_offset_async code value device c =
      set_value_async ◌==◌ (λ d. d.safety_offset) no_check code value device c

module _ {F : Type 0} where
  unfoldable pub set_zero_time_stamp_period_async :
      (code : ℕ → ℕ) (value : ℕ)
      → (device : DeviceAttributes F) (c : Configuration) → Status × Configuration
  unfolding set_value_async
  set_zero_time_stamp_period_async code value device c =
      set_value_async ◌==◌ (λ d. d.zero_time_stamp_period) no_check code value device c

module _ {F : Type 0} (equal le : F → F → Bool) where
  unfoldable pub set_nominal_sample_rate_async :
      (code : F → ℕ) (value : F)
      → (device : DeviceAttributes F) (c : Configuration) → Status × Configuration
  unfolding set_value_async
  set_nominal_sample_rate_async code value device c =
      set_value_async equal (λ d. d.nominal_sample_rate) (check_nominal_sample_rate le) code value
        device c

module _ {F : Type 0} (equal : F → F → Bool) where
  unfoldable pub set_available_sample_rates_async :
      (code : List (F × F) → ℕ) (value : List (F × F))
      → (device : DeviceAttributes F) (c : Configuration) → Status × Configuration
  unfolding set_value_async
  set_available_sample_rates_async code value device c =
      set_value_async (same_list (same_pair equal)) get_available_sample_rates no_check code value
        device c

module _ {F : Type 0} where
  unfoldable pub set_preferred_channels_for_stereo_async :
      (code : ℕ × ℕ → ℕ) (value : ℕ × ℕ)
      → (device : DeviceAttributes F) (c : Configuration) → Status × Configuration
  unfolding set_value_async
  set_preferred_channels_for_stereo_async code value device c =
      set_value_async (same_pair ◌==◌) (λ d. d.preferred_channels_for_stereo) no_check code value
        device c

module _ {F : Type 0} (channel_count : ℕ) where
  unfoldable pub set_preferred_channel_count_async :
      (code : ℕ → ℕ) (value : ℕ)
      → (device : DeviceAttributes F) (c : Configuration) → Status × Configuration
  unfolding set_value_async
  set_preferred_channel_count_async code value device c =
      set_value_async ◌==◌ (get_preferred_channel_count channel_count) no_check code value device c

module _ {F : Type 0} (equal : F → F → Bool) (left : ℕ) (nought : F) (channel_count : ℕ) where
  unfoldable pub set_preferred_channels_async :
      (code : List (ChannelDescription F) → ℕ) (value : List (ChannelDescription F))
      → (device : DeviceAttributes F) (c : Configuration) → Status × Configuration
  unfolding set_value_async
  set_preferred_channels_async code value device c =
      set_value_async (same_list (same_channel equal))
        (get_preferred_channels left nought channel_count) no_check code value device c

module _ {F : Type 0} (same_buffer : LayoutBuffer F → LayoutBuffer F → Bool) (left : ℕ) (nought : F)
    (channel_count : ℕ) where
  unfoldable pub set_preferred_channel_layout_async :
      (code : LayoutBuffer F → ℕ) (value : LayoutBuffer F)
      → (device : DeviceAttributes F) (c : Configuration) → Status × Configuration
  unfolding set_value_async
  set_preferred_channel_layout_async code value device c =
      set_value_async same_buffer (get_preferred_channel_layout left nought channel_count) no_check
        code value device c

module _ {F : Type 0} (selector : ℕ) where
  unfoldable pub set_is_identifying :
      Bool → Notifying (DeviceAttributes F) → Status × Notifying (DeviceAttributes F)
  unfolding set_value
  set_is_identifying value s =
      set_value same_bool get_is_identifying set_is_identifying_impl selector value s

  unfoldable pub set_is_alive :
      Bool → Notifying (DeviceAttributes F) → Status × Notifying (DeviceAttributes F)
  unfolding set_value
  set_is_alive value s = set_value same_bool (λ d. d.is_alive) set_is_alive_impl selector value s

  unfoldable pub set_is_hidden :
      Bool → Notifying (DeviceAttributes F) → Status × Notifying (DeviceAttributes F)
  unfolding set_value
  set_is_hidden value s = set_value same_bool (λ d. d.is_hidden) set_is_hidden_impl selector value s

  unfoldable pub set_can_be_default_device :
      Bool → Notifying (DeviceAttributes F) → Status × Notifying (DeviceAttributes F)
  unfolding set_value
  set_can_be_default_device value s =
      set_value same_bool (λ d. d.can_be_default_device) set_can_be_default_device_impl selector
        value s

  unfoldable pub set_can_be_default_system_device :
      Bool → Notifying (DeviceAttributes F) → Status × Notifying (DeviceAttributes F)
  unfolding set_value
  set_can_be_default_system_device value s =
      set_value same_bool (λ d. d.can_be_default_system_device)
        set_can_be_default_system_device_impl selector value s
