-- ===== src/Stream/Attributes.antt =====
-- src/Stream.cpp and src/Stream.g.cpp: the attributes of a stream and their setters. A stream asks its
-- device for a configuration change, if the device is still there. `code` gives the number of the
-- function that a setter passes on for a value.
pub mod Orphan
use lib_aspl.Prelude.{
  ℕ, ◌&&◌, Bool, true, false, Option, none, some, List, [], ◌∷◌, ◌==◌, if◌then◌else◌,
}
use lib_aspl.Status.{Status, no_error, is_ok}
use lib_aspl.Stream.{Format, RangedFormat, same_format, get_available_formats, check_format}
use lib_aspl.Device.Configuration.{act, Configuration, request_configuration_change}
use lib_aspl.Device.Attributes.Setters.{same_list, same_bool, no_check}
use lib_aspl.Accessor.Setters.{Notifying, set_value}

pub record StreamAttributes (F : Type 0) : Type 0 where
  pub is_active : Bool
  pub latency : ℕ
  pub physical_format : Format F
  pub virtual_format : Format F
  pub available_physical_formats : Option (List (RangedFormat F))
  pub available_virtual_formats : Option (List (RangedFormat F))

-- `operator==` of AudioStreamRangedDescription.
abbrev pub same_ranged_format :
    {F : Type 0} → (F → F → Bool) → RangedFormat F → RangedFormat F → Bool
same_ranged_format equal a b =
    same_format equal a.format b.format && equal a.minimum b.minimum && equal a.maximum b.maximum

-- The device of a stream: whether the weak pointer to it can be locked, and its queue with the
-- functions that were called.
pub record StreamDevice : Type 0 where
  pub is_alive : Bool
  pub configuration : Configuration

-- `Stream::RequestConfigurationChange`
unfoldable pub request_change : (func : ℕ) → StreamDevice → StreamDevice
unfolding request_configuration_change
request_change func w =
    if w.is_alive
    then record w { configuration = request_configuration_change (act func) w.configuration }
    else w

-- The shape of an asynchronous setter of a stream.
unfoldable pub set_stream_value_async :
    {A D : Type 0} (equal : A → A → Bool) (get : D → A) (check : A → D → Status) (code : A → ℕ)
    (value : A)
    → (stream : D) (device : StreamDevice) → Status × StreamDevice
unfolding request_change
set_stream_value_async equal get check code value stream device =
    if equal value (get stream)
    then (no_error, device)
    else let status = check value stream in
      (status, if is_ok status then request_change (code value) device else device)

module _ {F : Type 0} where
  abbrev pub set_is_active_impl : Bool → StreamAttributes F → Status × StreamAttributes F
  set_is_active_impl value d = (no_error, record d { is_active = value })

  abbrev pub set_latency_impl : ℕ → StreamAttributes F → Status × StreamAttributes F
  set_latency_impl value d = (no_error, record d { latency = value })

  abbrev pub set_physical_format_impl : Format F → StreamAttributes F → Status × StreamAttributes F
  set_physical_format_impl value d = (no_error, record d { physical_format = value })

  abbrev pub set_virtual_format_impl : Format F → StreamAttributes F → Status × StreamAttributes F
  set_virtual_format_impl value d = (no_error, record d { virtual_format = value })

  abbrev pub set_available_physical_formats_impl :
      List (RangedFormat F) → StreamAttributes F → Status × StreamAttributes F
  set_available_physical_formats_impl value d =
      (no_error, record d { available_physical_formats = some value })

  abbrev pub set_available_virtual_formats_impl :
      List (RangedFormat F) → StreamAttributes F → Status × StreamAttributes F
  set_available_virtual_formats_impl value d =
      (no_error, record d { available_virtual_formats = some value })

  unfoldable pub set_is_active :
      (selector : ℕ) (value : Bool)
      → Notifying (StreamAttributes F)
      → Status × Notifying (StreamAttributes F)
  unfolding set_value
  set_is_active selector value s =
      set_value same_bool (λ d. d.is_active) set_is_active_impl selector value s

  unfoldable pub set_latency_async :
      (code : ℕ → ℕ) (value : ℕ)
      → (stream : StreamAttributes F) (device : StreamDevice) → Status × StreamDevice
  unfolding set_stream_value_async
  set_latency_async code value stream device =
      set_stream_value_async ◌==◌ (λ d. d.latency) no_check code value stream device

module _ {F : Type 0} (equal : F → F → Bool) where
  unfoldable pub set_physical_format_async :
      (code : Format F → ℕ) (value : Format F)
      → (stream : StreamAttributes F) (device : StreamDevice) → Status × StreamDevice
  unfolding set_stream_value_async
  set_physical_format_async code value stream device =
      set_stream_value_async (same_format equal) (λ d. d.physical_format)
        (λ format d. check_format equal d.available_physical_formats d.physical_format format) code
        value stream device

  unfoldable pub set_virtual_format_async :
      (code : Format F → ℕ) (value : Format F)
      → (stream : StreamAttributes F) (device : StreamDevice) → Status × StreamDevice
  unfolding set_stream_value_async
  set_virtual_format_async code value stream device =
      set_stream_value_async (same_format equal) (λ d. d.virtual_format)
        (λ format d. check_format equal d.available_virtual_formats d.virtual_format format) code
        value stream device

  unfoldable pub set_available_physical_formats_async :
      (code : List (RangedFormat F) → ℕ) (value : List (RangedFormat F))
      → (stream : StreamAttributes F) (device : StreamDevice) → Status × StreamDevice
  unfolding set_stream_value_async
  set_available_physical_formats_async code value stream device =
      set_stream_value_async (same_list (same_ranged_format equal))
        (λ d. get_available_formats equal d.available_physical_formats d.physical_format) no_check
        code value stream device

  unfoldable pub set_available_virtual_formats_async :
      (code : List (RangedFormat F) → ℕ) (value : List (RangedFormat F))
      → (stream : StreamAttributes F) (device : StreamDevice) → Status × StreamDevice
  unfolding set_stream_value_async
  set_available_virtual_formats_async code value stream device =
      set_stream_value_async (same_list (same_ranged_format equal))
        (λ d. get_available_formats equal d.available_virtual_formats d.virtual_format) no_check
        code value stream device
