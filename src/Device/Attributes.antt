-- ===== src/Device/Attributes.antt =====
-- src/Device.cpp: the attributes of a device, with what their getters return by default and what the
-- default `SetXImpl` do. `F` is Float64 and Float32. An attribute that was never set is `none`. The
-- bytes of an AudioChannelLayout are a record.
pub mod Rates
pub mod Channels
pub mod Setters
pub mod Served
mod Tests
use lib_aspl.Prelude.{
  ℕ, zero, suc, ◌+◌, ◌%◌, ◌^◌, Bool, true, false, ◌&&◌, ◌||◌, Option, none, some, List, [], ◌∷◌,
  if◌then◌else◌, ◌==◌, length,
}
use lib_aspl.Status.{Status, no_error, unsupported_operation_error}
use lib_aspl.Accessor.{take}
use lib_aspl.Stream.{ChannelDescription}

-- AudioChannelLayout. `uses_descriptions` is whether its tag is
-- kAudioChannelLayoutTag_UseChannelDescriptions.
pub record ChannelLayout (F : Type 0) : Type 0 where
  pub uses_descriptions : Bool
  pub number_channel_descriptions : ℕ
  pub channel_descriptions : List (ChannelDescription F)

-- The vector that `SetPreferredChannelLayoutAsync` was given.
pub data LayoutBuffer (F : Type 0) : Type 0 where
  empty_buffer : LayoutBuffer F
  holding : ChannelLayout F → LayoutBuffer F

pub record DeviceAttributes (F : Type 0) : Type 0 where
  pub latency : ℕ
  pub safety_offset : ℕ
  pub zero_time_stamp_period : ℕ
  pub nominal_sample_rate : F
  pub available_sample_rates : Option (List (F × F))
  pub preferred_channels_for_stereo : ℕ × ℕ
  pub preferred_channel_count : Option ℕ
  pub preferred_channels : Option (List (ChannelDescription F))
  pub preferred_channel_layout : Option (LayoutBuffer F)
  pub is_alive : Bool
  pub is_hidden : Bool
  pub can_be_default_device : Bool
  pub can_be_default_system_device : Bool

module _ {F : Type 0} where
  abbrev pub set_latency_impl : ℕ → DeviceAttributes F → Status × DeviceAttributes F
  set_latency_impl value d = (no_error, record d { latency = value })

  abbrev pub set_safety_offset_impl : ℕ → DeviceAttributes F → Status × DeviceAttributes F
  set_safety_offset_impl value d = (no_error, record d { safety_offset = value })

  abbrev pub set_zero_time_stamp_period_impl : ℕ → DeviceAttributes F → Status × DeviceAttributes F
  set_zero_time_stamp_period_impl value d = (no_error, record d { zero_time_stamp_period = value })

  abbrev pub set_nominal_sample_rate_impl : F → DeviceAttributes F → Status × DeviceAttributes F
  set_nominal_sample_rate_impl value d = (no_error, record d { nominal_sample_rate = value })

  abbrev pub set_available_sample_rates_impl :
      List (F × F) → DeviceAttributes F → Status × DeviceAttributes F
  set_available_sample_rates_impl value d =
      (no_error, record d { available_sample_rates = some value })

  abbrev pub set_preferred_channels_for_stereo_impl :
      ℕ × ℕ → DeviceAttributes F → Status × DeviceAttributes F
  set_preferred_channels_for_stereo_impl value d =
      (no_error, record d { preferred_channels_for_stereo = value })

  abbrev pub set_preferred_channel_count_impl : ℕ → DeviceAttributes F → Status × DeviceAttributes F
  set_preferred_channel_count_impl value d =
      (no_error, record d { preferred_channel_count = some value })

  abbrev pub set_preferred_channels_impl :
      List (ChannelDescription F) → DeviceAttributes F → Status × DeviceAttributes F
  set_preferred_channels_impl value d = (no_error, record d { preferred_channels = some value })

  abbrev pub set_preferred_channel_layout_impl :
      LayoutBuffer F → DeviceAttributes F → Status × DeviceAttributes F
  set_preferred_channel_layout_impl value d =
      (no_error, record d { preferred_channel_layout = some value })

  -- `GetIsIdentifying` is false and cannot be set, unless the driver's author overrides both.
  abbrev pub get_is_identifying : DeviceAttributes F → Bool
  get_is_identifying d = false

  abbrev pub set_is_identifying_impl : Bool → DeviceAttributes F → Status × DeviceAttributes F
  set_is_identifying_impl value d = (unsupported_operation_error, d)

  abbrev pub set_is_alive_impl : Bool → DeviceAttributes F → Status × DeviceAttributes F
  set_is_alive_impl value d = (no_error, record d { is_alive = value })

  abbrev pub set_is_hidden_impl : Bool → DeviceAttributes F → Status × DeviceAttributes F
  set_is_hidden_impl value d = (no_error, record d { is_hidden = value })

  abbrev pub set_can_be_default_device_impl :
      Bool → DeviceAttributes F → Status × DeviceAttributes F
  set_can_be_default_device_impl value d = (no_error, record d { can_be_default_device = value })

  abbrev pub set_can_be_default_system_device_impl :
      Bool → DeviceAttributes F → Status × DeviceAttributes F
  set_can_be_default_system_device_impl value d =
      (no_error, record d { can_be_default_system_device = value })

  unfoldable pub get_available_sample_rates : DeviceAttributes F → List (F × F)
  get_available_sample_rates d = elim d.available_sample_rates [
    | some rates ↦ rates
    | none ↦ (d.nominal_sample_rate, d.nominal_sample_rate) ∷ []
  ]

  -- std::find_if over the ranges; `le` is `<=`, which is false on a NaN.
  module _ (le : F → F → Bool) where
    abbrev pub is_in_some : F → List (F × F) → Bool
    is_in_some rate [] = false
    is_in_some rate (range ∷ ranges) =
        (le range.0 rate && le rate range.1) || is_in_some rate ranges

    unfoldable pub check_nominal_sample_rate : F → DeviceAttributes F → Status
    unfolding get_available_sample_rates
    check_nominal_sample_rate rate d = elim (get_available_sample_rates d) [
      | [] ↦ no_error
      | range ∷ ranges ↦
          if is_in_some rate (range ∷ ranges) then no_error else unsupported_operation_error
    ]

  -- The channels that a layout describes, or none if there is no such layout.
  abbrev pub described_channels : Option (LayoutBuffer F) → Option (ChannelLayout F)
  described_channels none = none
  described_channels (some empty_buffer) = none
  described_channels (some (holding layout)) =
      if layout.uses_descriptions then some layout else none

  abbrev pub set_channel_count : Option (List (ChannelDescription F)) → Option ℕ
  set_channel_count none = none
  set_channel_count (some []) = none
  set_channel_count (some (c ∷ cs)) = some (length (c ∷ cs) % 2 ^ 32)

  -- `left` is kAudioChannelLabel_Left, `nought` the 0 of the coordinates.
  module _ (left : ℕ) (nought : F) where
    abbrev pub default_channel : ℕ → ChannelDescription F
    default_channel n = record {
      channel_label = (left + n) % 2 ^ 32;
      channel_flags = 0;
      coordinate_0 = nought;
      coordinate_1 = nought;
      coordinate_2 = nought;
    }

    -- The channels from number `n` on.
    unfoldable pub default_channels : (n count : ℕ) → List (ChannelDescription F)
    default_channels n zero = []
    default_channels n (suc count) = default_channel n ∷ default_channels (suc n) count

  -- `channel_count` is DeviceParameters::ChannelCount.
  unfoldable pub get_preferred_channel_count : (channel_count : ℕ) → DeviceAttributes F → ℕ
  get_preferred_channel_count channel_count d = elim d.preferred_channel_count [
    | some count ↦ count
    | none ↦ elim (set_channel_count d.preferred_channels) [
      | some count ↦ count
      | none ↦ elim (described_channels d.preferred_channel_layout) [
        | some layout ↦ layout.number_channel_descriptions
        | none ↦ channel_count
      ]
    ]
  ]

  module _ (left : ℕ) (nought : F) (channel_count : ℕ) where
    unfoldable pub get_preferred_channels : DeviceAttributes F → List (ChannelDescription F)
    unfolding default_channels get_preferred_channel_count take
    get_preferred_channels d = elim d.preferred_channels [
      | some channels ↦ channels
      | none ↦ elim (described_channels d.preferred_channel_layout) [
        | some layout ↦ take layout.number_channel_descriptions layout.channel_descriptions
        | none ↦ default_channels left nought 0 (get_preferred_channel_count channel_count d)
      ]
    ]

    unfoldable pub get_preferred_channel_layout : DeviceAttributes F → LayoutBuffer F
    unfolding get_preferred_channels
    get_preferred_channel_layout d = elim d.preferred_channel_layout [
      | some buffer ↦ buffer
      | none ↦
          let channels = get_preferred_channels d in
          holding (record {
            uses_descriptions = true;
            number_channel_descriptions = length channels % 2 ^ 32;
            channel_descriptions = channels;
          })
    ]
