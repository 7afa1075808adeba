-- ===== src/Stream/Accessors/Guarded.antt =====
-- src/Stream.g.cpp: what `SetPropertyData` refuses of a stream, and that it agrees with the calls that describe
-- the property.
use lib_aspl.Prelude.{ℕ, ◌≡◌, Bool, true, false, Option, none, some, ◌==◌, lookup, arith}
use lib_aspl.Status.{Status, unknown_property_error}
use lib_aspl.Stream.{Format}
use lib_aspl.Object.Properties.{set_property_data_fallback}
use lib_aspl.Object.Accessors.{ObjectView, set_property_data as object_set_property_data}
use lib_aspl.Accessor.{Scope, Address, re_address, from_foundation, Reply, Input, write, reply}
use lib_aspl.Accessor.Guarded.{IsGuarded, accept-Refuses, own-IsGuarded}
use lib_aspl.Stream.Accessors.{
  Position, active, direction, terminal_type, starting_channel, stream_latency, FormatCase,
  physical, virtual, available_physical, available_virtual, StreamSelector, position, format_case,
  inherited, selector_number, StreamView, settable_position, settable_format_case, size_position,
  size_format_case, set_position, set_format_case, settable_selector, is_property_settable,
  size_selector, get_property_data_size, set_selector, set_property_data,
}

abbrev pub is_inherited : StreamSelector → Bool
is_inherited (inherited sel) = true
is_inherited _ = false

module _ {F V D : Type 0} (o : ObjectView V D) (v : D → StreamView F) (number : StreamSelector → ℕ)
    (set_is_active : Bool → D → Status × D) (set_physical_format : Format F → D → Status × D)
    (set_virtual_format : Format F → D → Status × D) (d : D) (in_size : ℕ)
    (in_data : Option (Input F V)) where
  position-IsGuarded :
      (c : Position) (scope : Scope) (otherwise : Status × D)
      → otherwise ≡ (unknown_property_error, d)
      → IsGuarded
          (settable_position c true)
          (size_position o v number c scope true d)
          in_size
          in_data
          d
          (set_position o number set_is_active set_physical_format set_virtual_format c in_size
            in_data d otherwise)
  unfolding settable_position size_position set_position reply write
  position-IsGuarded active scope otherwise w =
      accept-Refuses 4 in_size in_data (λ input. set_is_active (from_foundation input.uint32_at)) d
  position-IsGuarded direction scope otherwise w = w
  position-IsGuarded terminal_type scope otherwise w = w
  position-IsGuarded starting_channel scope otherwise w = w
  position-IsGuarded stream_latency scope otherwise w = w

  format_case-IsGuarded :
      (c : FormatCase) (scope : Scope) (otherwise : Status × D)
      → otherwise ≡ (unknown_property_error, d)
      → IsGuarded
          (settable_format_case c true)
          (size_format_case o v number c scope true d)
          in_size
          in_data
          d
          (set_format_case o number set_is_active set_physical_format set_virtual_format c in_size
            in_data d otherwise)
  unfolding settable_format_case size_format_case set_format_case reply write
  format_case-IsGuarded physical scope otherwise w =
      accept-Refuses 40 in_size in_data (λ input. set_physical_format input.format_at) d
  format_case-IsGuarded virtual scope otherwise w =
      accept-Refuses 40 in_size in_data (λ input. set_virtual_format input.format_at) d
  format_case-IsGuarded available_physical scope otherwise w = w
  format_case-IsGuarded available_virtual scope otherwise w = w

  selector-IsGuarded :
      (sel : StreamSelector) (scope : Scope) (q : Reply Bool) (p : Reply ℕ) (otherwise : Status × D)
      → is_inherited sel ≡ false
      → otherwise ≡ (unknown_property_error, d)
      → IsGuarded
          (settable_selector sel true q)
          (size_selector o v number sel scope true d p)
          in_size
          in_data
          d
          (set_selector o number set_is_active set_physical_format set_virtual_format sel in_size
            in_data d otherwise)
  unfolding settable_selector size_selector set_selector
  selector-IsGuarded (position c) scope q p otherwise l w = position-IsGuarded c scope otherwise w
  selector-IsGuarded (format_case c) scope q p otherwise l w =
      format_case-IsGuarded c scope otherwise w
  selector-IsGuarded (inherited sel) scope q p otherwise l w = cc

  base_refuses :
      (address : Address StreamSelector)
      → is_inherited address.selector ≡ false
      → lookup (number address.selector) o.custom_properties ≡ none
      → object_set_property_data o o.self_id
          (some (re_address (selector_number number address.selector) address))
          in_size
          in_data
          d
        ≡ (unknown_property_error, d)
  unfolding object_set_property_data set_property_data_fallback
  base_refuses address listed unregistered = ground arith

  -- For a property that the class of a stream lists and whose selector no custom property has,
  -- SetPropertyData agrees with the two calls that describe it: one not settable is refused as
  -- unknown, one that is settable is refused with another size than the reported one, and with a
  -- null pointer. No refusal changes the state.
  pub set_property_data-IsGuarded :
      (address : Address StreamSelector)
      → is_inherited address.selector ≡ false
      → lookup (number address.selector) o.custom_properties ≡ none
      → IsGuarded
          (is_property_settable o number o.self_id (some address) true)
          (get_property_data_size o v number o.self_id (some address) true d)
          in_size
          in_data
          d
          (set_property_data o number set_is_active set_physical_format set_virtual_format o.self_id
            (some address)
            in_size
            in_data
            d)
  unfolding is_property_settable get_property_data_size set_property_data
  set_property_data-IsGuarded address listed unregistered =
      own-IsGuarded (o.self_id == o.self_id) _ _ _ _ in_size in_data d _ _ (ground arith) (
        selector-IsGuarded address.selector address.scope _ _ _ listed
          (base_refuses address listed unregistered))
