-- ===== src/MuteControl/Accessors/Guarded.antt =====
-- src/MuteControl.g.cpp: what `SetPropertyData` refuses of a mute control, and that it agrees with the calls that describe
-- the property.
use lib_aspl.Prelude.{ℕ, ◌≡◌, Bool, true, false, Option, none, some, ◌==◌, lookup, arith}
use lib_aspl.Status.{Status, unknown_property_error}
use lib_aspl.Object.Properties.{set_property_data_fallback}
use lib_aspl.Object.Accessors.{ObjectView, set_property_data as object_set_property_data}
use lib_aspl.Accessor.{Scope, Address, re_address, from_foundation, Reply, Input, write, reply}
use lib_aspl.Accessor.Guarded.{IsGuarded, accept-Refuses, own-IsGuarded}
use lib_aspl.MuteControl.Accessors.{
  MuteCase, mute_scope, mute_element, muted, MuteControlSelector, mute, inherited, selector_number,
  MuteView, settable_mute, size_mute, set_mute, settable_selector, is_property_settable,
  size_selector, get_property_data_size, set_selector, set_property_data,
}

abbrev pub is_inherited : MuteControlSelector → Bool
is_inherited (inherited sel) = true
is_inherited _ = false

module _ {F V D : Type 0} (o : ObjectView V D) (v : D → MuteView) (number : MuteControlSelector → ℕ)
    (set_is_muted : Bool → D → Status × D) (d : D) (in_size : ℕ)
    (in_data : Option (Input F V)) where
  mute-IsGuarded :
      (c : MuteCase) (scope : Scope) (otherwise : Status × D)
      → otherwise ≡ (unknown_property_error, d)
      → IsGuarded
          (settable_mute c true)
          (size_mute o v number c scope true d)
          in_size
          in_data
          d
          (set_mute o number set_is_muted c in_size in_data d otherwise)
  unfolding settable_mute size_mute set_mute reply write
  mute-IsGuarded mute_scope scope otherwise w = w
  mute-IsGuarded mute_element scope otherwise w = w
  mute-IsGuarded muted scope otherwise w =
      accept-Refuses 4 in_size in_data (λ input. set_is_muted (from_foundation input.uint32_at)) d

  selector-IsGuarded :
      (sel : MuteControlSelector) (scope : Scope) (q : Reply Bool) (p : Reply ℕ)
      (otherwise : Status × D)
      → is_inherited sel ≡ false
      → otherwise ≡ (unknown_property_error, d)
      → IsGuarded
          (settable_selector sel true q)
          (size_selector o v number sel scope true d p)
          in_size
          in_data
          d
          (set_selector o number set_is_muted sel in_size in_data d otherwise)
  unfolding settable_selector size_selector set_selector
  selector-IsGuarded (mute c) scope q p otherwise l w = mute-IsGuarded c scope otherwise w
  selector-IsGuarded (inherited sel) scope q p otherwise l w = cc

  base_refuses :
      (address : Address MuteControlSelector)
      → is_inherited address.selector ≡ false
      → lookup (number address.selector) o.custom_properties ≡ none
      → object_set_property_data o o.self_id
          (some (re_address (selector_number number address.selector) address))
          in_size
          in_data
          d
        ≡ (unknown_property_error, d)
  unfolding object_set_property_data set_property_data_fallback
  base_refuses address listed unregistered = ground arith

  -- For a property that the class of a mute control lists and whose selector no custom property
  -- has, SetPropertyData agrees with the two calls that describe it: one not settable is refused
  -- as unknown, one that is settable is refused with another size than the reported one, and with
  -- a null pointer. No refusal changes the state.
  pub set_property_data-IsGuarded :
      (address : Address MuteControlSelector)
      → is_inherited address.selector ≡ false
      → lookup (number address.selector) o.custom_properties ≡ none
      → IsGuarded
          (is_property_settable o number o.self_id (some address) true)
          (get_property_data_size o v number o.self_id (some address) true d)
          in_size
          in_data
          d
          (set_property_data o number set_is_muted o.self_id (some address) in_size in_data d)
  unfolding is_property_settable get_property_data_size set_property_data
  set_property_data-IsGuarded address listed unregistered =
      own-IsGuarded (o.self_id == o.self_id) _ _ _ _ in_size in_data d _ _ (ground arith) (
        selector-IsGuarded address.selector address.scope _ _ _ listed
          (base_refuses address listed unregistered))
