-- ===== src/VolumeControl/Accessors/Guarded.antt =====
-- src/VolumeControl.g.cpp: what `SetPropertyData` refuses of a volume control, and that it agrees with the calls that describe
-- the property.
use lib_aspl.Prelude.{ℕ, ◌≡◌, Bool, true, false, Option, none, some, ◌==◌, lookup, arith}
use lib_aspl.Status.{Status, unknown_property_error}
use lib_aspl.Object.Properties.{set_property_data_fallback}
use lib_aspl.Object.Accessors.{ObjectView, set_property_data as object_set_property_data}
use lib_aspl.Accessor.{Scope, Address, re_address, Reply, Input, write, reply}
use lib_aspl.Accessor.Guarded.{IsGuarded, accept-Refuses, own-IsGuarded}
use lib_aspl.VolumeControl.Accessors.{
  Place, control_scope, control_element, Level, scalar, decibel, decibel_range, scalar_to_decibels,
  decibels_to_scalar, VolumeControlSelector, place, level, inherited, selector_number, VolumeView,
  settable_place, settable_level, size_place, size_level, set_level, settable_selector,
  is_property_settable, size_selector, get_property_data_size, set_selector, set_property_data,
}

abbrev pub is_inherited : VolumeControlSelector → Bool
is_inherited (inherited sel) = true
is_inherited _ = false

module _ {F V D : Type 0} (o : ObjectView V D) (v : D → VolumeView F)
    (number : VolumeControlSelector → ℕ) (set_scalar_value : F → D → Status × D)
    (set_decibel_value : F → D → Status × D) (d : D) (in_size : ℕ)
    (in_data : Option (Input F V)) where
  place-IsGuarded :
      (c : Place) (scope : Scope) (otherwise : Status × D)
      → otherwise ≡ (unknown_property_error, d)
      → IsGuarded
          (settable_place c true)
          (size_place o v number c scope true d)
          in_size
          in_data
          d
          otherwise
  unfolding settable_place size_place reply write
  place-IsGuarded control_scope scope otherwise w = w
  place-IsGuarded control_element scope otherwise w = w

  level-IsGuarded :
      (c : Level) (scope : Scope) (otherwise : Status × D)
      → otherwise ≡ (unknown_property_error, d)
      → IsGuarded
          (settable_level c true)
          (size_level o v number c scope true d)
          in_size
          in_data
          d
          (set_level o number set_scalar_value set_decibel_value c in_size in_data d otherwise)
  unfolding settable_level size_level set_level reply write
  level-IsGuarded scalar scope otherwise w =
      accept-Refuses 4 in_size in_data (λ input. set_scalar_value input.float32_at) d
  level-IsGuarded decibel scope otherwise w =
      accept-Refuses 4 in_size in_data (λ input. set_decibel_value input.float32_at) d
  level-IsGuarded decibel_range scope otherwise w = w
  level-IsGuarded scalar_to_decibels scope otherwise w = w
  level-IsGuarded decibels_to_scalar scope otherwise w = w

  selector-IsGuarded :
      (sel : VolumeControlSelector) (scope : Scope) (q : Reply Bool) (p : Reply ℕ)
      (otherwise : Status × D)
      → is_inherited sel ≡ false
      → otherwise ≡ (unknown_property_error, d)
      → IsGuarded
          (settable_selector sel true q)
          (size_selector o v number sel scope true d p)
          in_size
          in_data
          d
          (set_selector o number set_scalar_value set_decibel_value sel in_size in_data d otherwise)
  unfolding settable_selector size_selector set_selector
  selector-IsGuarded (place c) scope q p otherwise l w = place-IsGuarded c scope otherwise w
  selector-IsGuarded (level c) scope q p otherwise l w = level-IsGuarded c scope otherwise w
  selector-IsGuarded (inherited sel) scope q p otherwise l w = cc

  base_refuses :
      (address : Address VolumeControlSelector)
      → is_inherited address.selector ≡ false
      → lookup (number address.selector) o.custom_properties ≡ none
      → object_set_property_data o o.self_id
          (some (re_address (selector_number number address.selector) address))
          in_size
          in_data
          d
        ≡ (unknown_property_error, d)
  unfolding object_set_property_data set_property_data_fallback
  base_refuses address listed unregistered = ground arith

  -- For a property that the class of a volume control lists and whose selector no custom property
  -- has, SetPropertyData agrees with the two calls that describe it: one not settable is refused
  -- as unknown, one that is settable is refused with another size than the reported one, and with
  -- a null pointer. No refusal changes the state.
  pub set_property_data-IsGuarded :
      (address : Address VolumeControlSelector)
      → is_inherited address.selector ≡ false
      → lookup (number address.selector) o.custom_properties ≡ none
      → IsGuarded
          (is_property_settable o number o.self_id (some address) true)
          (get_property_data_size o v number o.self_id (some address) true d)
          in_size
          in_data
          d
          (set_property_data o number set_scalar_value set_decibel_value o.self_id
            (some address)
            in_size
            in_data
            d)
  unfolding is_property_settable get_property_data_size set_property_data
  set_property_data-IsGuarded address listed unregistered =
      own-IsGuarded (o.self_id == o.self_id) _ _ _ _ in_size in_data d _ _ (ground arith) (
        selector-IsGuarded address.selector address.scope _ _ _ listed
          (base_refuses address listed unregistered))
