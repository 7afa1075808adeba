-- ===== src/Device/Attributes/Served.antt =====
-- src/Device.g.cpp with src/Device.cpp: what the HAL sees of a sample rate that it has set: the calls
-- on properties, the setter, the check, the queue of configuration changes and the getter together.
use lib_aspl.Prelude.{ℕ, ◌≡◌, ap, sym, ◌∙◌, Bool, true, false, Option, some, [], ◌∷◌, arith}
use lib_aspl.Status.{Status, no_error, is_ok}
use lib_aspl.Accessor.{
  Scope, Address, Value, float64, Buffers, DataReply, Input, accept, reply_value, write,
}
use lib_aspl.Accessor.Setters.{apply_value, device_at, set_value_async}
use lib_aspl.Accessor.Setters.Async.{set_value_async_later}
use lib_aspl.Object.Accessors.{ObjectView}
use lib_aspl.Device.Configuration.{
  Configuration, enqueues, perform_configuration_change, abort_configuration_change,
}
use lib_aspl.Device.Accessors.{DeviceView, DeviceSelector, rate, sample_rate}
use lib_aspl.Device.Accessors.Data.{data_rate, data_selector, get_property_data}
use lib_aspl.Device.Accessors.Set.{set_rate, set_selector, set_property_data}
use lib_aspl.Device.Attributes.{
  DeviceAttributes, get_available_sample_rates, check_nominal_sample_rate,
  set_nominal_sample_rate_impl,
}
use lib_aspl.Device.Attributes.Setters.{set_nominal_sample_rate_async}

-- The getters whose values the attributes hold; the others are those of `others`.
unfoldable pub view_of : {F W : Type 0} → DeviceView F W → DeviceAttributes F → DeviceView F W
unfolding get_available_sample_rates
view_of others d = record others {
  latency = d.latency;
  safety_offset = d.safety_offset;
  zero_time_stamp_period = d.zero_time_stamp_period;
  nominal_sample_rate = d.nominal_sample_rate;
  available_sample_rates = get_available_sample_rates d;
  preferred_channels_for_stereo =
      d.preferred_channels_for_stereo.0 ∷ d.preferred_channels_for_stereo.1 ∷ [];
  is_alive = d.is_alive;
  is_hidden = d.is_hidden;
  can_be_default_device = d.can_be_default_device;
  can_be_default_system_device = d.can_be_default_system_device;
}

module _ {F W V : Type 0} (equal le : F → F → Bool)
    (run : ℕ → DeviceAttributes F → DeviceAttributes F) (start : DeviceAttributes F) (code : F → ℕ)
    (identify : Bool → Configuration → Status × Configuration) (others : DeviceView F W)
    (o : ObjectView V Configuration) (number : DeviceSelector → ℕ) where
  abbrev pub rate_address : Scope → (element : ℕ) → Option (Address DeviceSelector)
  rate_address scope element =
      some (record { selector = rate sample_rate; scope = scope; element = element })

  -- The HAL writes the sample rate, and reads it.
  abbrev pub write_rate : Scope → ℕ → Input F V → Configuration → Status × Configuration
  write_rate scope element input c =
      set_property_data o number
        (λ value s. set_nominal_sample_rate_async equal le code value (device_at run start s) s)
        identify o.self_id (rate_address scope element) 8 (some input) c

  abbrev pub read_rate : Scope → ℕ → Buffers → Configuration → DataReply (Value F W V)
  read_rate scope element b c =
      get_property_data o (λ s. view_of others (device_at run start s)) number o.self_id
        (rate_address scope element) b c

  read_rate_lem :
      (scope : Scope) (element : ℕ) (b : Buffers) (c : Configuration)
      → read_rate scope element b c
        ≡ reply_value 8 b (float64 (device_at run start c).nominal_sample_rate)
  unfolding get_property_data data_selector data_rate view_of
  read_rate_lem scope element b c = ground arith

  write_rate_lem :
      (scope : Scope) (element : ℕ) (input : Input F V) (c : Configuration)
      → write_rate scope element input c
        ≡ set_nominal_sample_rate_async equal le code input.float64_at (device_at run start c) c
  unfolding set_property_data set_selector set_rate accept
  write_rate_lem scope element input c = ground arith

  read_rate-device_at :
      (scope : Scope) (element : ℕ) (b : Buffers) (c e : Configuration)
      → device_at run start c ≡ device_at run start e
      → read_rate scope element b c ≡ read_rate scope element b e
  read_rate-device_at scope element b c e same =
      read_rate_lem scope element b c
      ∙ ap (λ d. reply_value 8 b (float64 d.nominal_sample_rate)) same
      ∙ sym (read_rate_lem scope element b e)

  -- The HAL writes a new sample rate that is equal to itself, is not the current one and is
  -- accepted, to a device that enqueues changes, where the function of a rate applies it: the
  -- call returns no error and the HAL reads the old rate at first; when it has performed the
  -- change it reads one that is equal to what it wrote, and when it has aborted the change, the
  -- old one.
  pub write_rate-read_rate :
      (runs : (x : F) (d : DeviceAttributes F)
        → run (code x) d
          ≡ apply_value equal (λ a. a.nominal_sample_rate) set_nominal_sample_rate_impl x d)
      (scope : Scope) (element : ℕ) (input : Input F V) (c : Configuration)
      → let x = input.float64_at in
        equal x x ≡ true
        → equal x (device_at run start c).nominal_sample_rate ≡ false
        → check_nominal_sample_rate le x (device_at run start c) ≡ no_error
        → enqueues c ≡ true
        → let r = write_rate scope element input c in
          let id = c.last_configuration_request_id in
          let all : Buffers = record { in_size = 8; size_wanted = true; data_wanted = true } in
          (r.0 ≡ no_error)
          × (read_rate scope element all r.1 ≡ read_rate scope element all c)
          × ((y : F) × (equal x y ≡ true)
              × (read_rate scope element all (perform_configuration_change id r.1)
                  ≡ (no_error, some 8, some (float64 y))))
          × (read_rate scope element all (abort_configuration_change id r.1)
              ≡ read_rate scope element all c)
  unfolding set_nominal_sample_rate_async set_value_async reply_value write
  write_rate-read_rate runs scope element input c same differs accepted busy =
      let x = input.float64_at in
      let all : Buffers = record { in_size = 8; size_wanted = true; data_wanted = true } in
      let id = c.last_configuration_request_id in
      let r = write_rate scope element input c in
      let wrote = write_rate_lem scope element input c in
      let later =
        set_value_async_later equal (λ a. a.nominal_sample_rate) set_nominal_sample_rate_impl run
          start (check_nominal_sample_rate le) code x (runs x) (λ d. same) c busy differs
          (ap is_ok accepted) in
      (
        ap (λ t. t.0) wrote ∙ ground (arith, differs, accepted),
        read_rate-device_at scope element all r.1 c
            (ap (λ t. device_at run start t.1) wrote ∙ later.0),
        (
          (device_at run start (perform_configuration_change id r.1)).nominal_sample_rate,
          ap
                (λ t.
                  equal x
                    (device_at run start (perform_configuration_change id t.1)).nominal_sample_rate)
                wrote
              ∙ later.1,
          read_rate_lem scope element all (perform_configuration_change id r.1),
        ),
        read_rate-device_at scope element all (abort_configuration_change id r.1) c
            (ap (λ t. device_at run start (abort_configuration_change id t.1)) wrote ∙ later.2),
      )
