-- ===== src/Plugin/Accessors.antt =====
-- src/Plugin.g.cpp: the five calls of the HAL on the properties of the plugin. What the switch does not list
-- goes on to the base class, Object.
pub mod Reading
pub mod Described
pub mod Within
use lib_aspl.Prelude.{
  ℕ, ◌&&◌, ◌%◌, ◌^◌, ◌*◌, ◌≤◌, ◌<◌, ◌≡◌, refl, not, Bool, true, false, Option, none, some, List,
  ◌==◌, ltb, if◌then◌else◌, length, Map, lookup, arith, Option-cases, Bool-cases, inl, inr,
}
use lib_aspl.Status.{
  Status, no_error, illegal_operation_error, bad_property_size_error, unknown_property_error,
}
use lib_aspl.Stream.{Format, RangedFormat}
use lib_aspl.Object.Properties.{CustomProperties, set_property_data_fallback}
use lib_aspl.Object.Accessors.{
  ObjectView, ObjectCase, ObjectSelector, own, custom, has_property as object_has_property,
  is_property_settable as object_is_property_settable,
  get_property_data_size as object_get_property_data_size,
  get_property_data as object_get_property_data, set_property_data as object_set_property_data,
}
use lib_aspl.Object.Accessors.Within.{
  HoldsReferences, refused-IsWithin, either-IsWithin,
  get_property_data-IsWithin as object_get_property_data-IsWithin,
}
use lib_aspl.Object.Accessors.Agreement.{
  AreGiven, either-AreGiven, has_property-AreGiven as object_has_property-AreGiven,
}
use lib_aspl.Accessor.Fits.{
  IsWithin, size_of, ReadsWhole, reply_value-IsWithin, reply_array-IsWithin, reply_whole-IsWithin,
  reply_value-ReadsWhole, reply_array-ReadsWhole, reply_whole-ReadsWhole, own-ReadsWhole,
}
use lib_aspl.Accessor.{
  Scope, global_scope, input_scope, output_scope, other_scope, Address, re_address, Value, uint32,
  float32, float64, cf_string, cf_url, value_range, format, uint32_array, byte_array, range_array,
  format_array, info_array, reference, to_foundation, from_foundation, Buffers, Reply, DataReply,
  Input, input_reference, as_reference, write, reply, byte_size, take, reply_value, reply_array,
  reply_whole, accept, in_or_out,
}

-- The `case`s of the switches.
pub data PlugInCase : Type 0 where
  plugin_manufacturer : PlugInCase
  resource_bundle : PlugInCase
  device_list : PlugInCase
  translate_uid_to_device : PlugInCase

pub data PluginSelector : Type 0 where
  plug_in : PlugInCase → PluginSelector
  inherited : ObjectSelector → PluginSelector

-- What the virtual getters return.
pub record PluginView (W : Type 0) : Type 0 where
  pub manufacturer_text : W
  pub resource_bundle_path : W
  pub device_ids : List ℕ
  pub device_id_by_uid : W → ℕ

-- What the base class is asked about: `number` is the constant of CoreAudio that a `case` names.
abbrev pub selector_number : (number : PluginSelector → ℕ) → PluginSelector → ObjectSelector
selector_number number (inherited sel) = sel
selector_number number sel = custom (number sel)

unfoldable pub has_plug_in : PlugInCase → Bool
has_plug_in plugin_manufacturer = true
has_plug_in resource_bundle = true
has_plug_in device_list = true
has_plug_in translate_uid_to_device = true

unfoldable pub has_selector : PluginSelector → Scope → (otherwise : Bool) → Bool
unfolding has_plug_in
has_selector (plug_in c) scope otherwise = has_plug_in c
has_selector (inherited sel) scope otherwise = otherwise

module _ {V D : Type 0} (o : ObjectView V D) (number : PluginSelector → ℕ) where
  unfoldable pub has_property : (object_id : ℕ) → Option (Address PluginSelector) → Bool
  unfolding has_selector
  has_property object_id none = false
  has_property object_id (some address) =
      let base =
        object_has_property o object_id
          (some (re_address (selector_number number address.selector) address)) in
      if object_id == o.self_id then has_selector address.selector address.scope base else base

unfoldable pub settable_plug_in : PlugInCase → (wanted : Bool) → Reply Bool
unfolding reply
settable_plug_in plugin_manufacturer wanted = reply wanted false
settable_plug_in resource_bundle wanted = reply wanted false
settable_plug_in device_list wanted = reply wanted false
settable_plug_in translate_uid_to_device wanted = reply wanted false

unfoldable pub settable_selector :
    PluginSelector → (wanted : Bool) (otherwise : Reply Bool) → Reply Bool
unfolding settable_plug_in
settable_selector (plug_in c) wanted otherwise = settable_plug_in c wanted
settable_selector (inherited sel) wanted otherwise = otherwise

module _ {V D : Type 0} (o : ObjectView V D) (number : PluginSelector → ℕ) where
  unfoldable pub is_property_settable :
      (object_id : ℕ) → Option (Address PluginSelector) → (wanted : Bool) → Reply Bool
  unfolding settable_selector
  is_property_settable object_id none wanted = (illegal_operation_error, none)
  is_property_settable object_id (some address) wanted =
      let base =
        object_is_property_settable o object_id
          (some (re_address (selector_number number address.selector) address)) wanted in
      if object_id == o.self_id then settable_selector address.selector wanted base else base

module _ {W V D : Type 0} (o : ObjectView V D) (v : D → PluginView W)
    (number : PluginSelector → ℕ) where
  unfoldable pub size_plug_in : PlugInCase → (scope : Scope) (wanted : Bool) → D → Reply ℕ
  unfolding reply
  size_plug_in plugin_manufacturer scope wanted d = reply wanted 8
  size_plug_in resource_bundle scope wanted d = reply wanted 8
  size_plug_in device_list scope wanted d = reply wanted (byte_size 4 (length (v d).device_ids))
  size_plug_in translate_uid_to_device scope wanted d = reply wanted 4

  unfoldable pub size_selector :
      PluginSelector → (scope : Scope) (wanted : Bool) → D → (otherwise : Reply ℕ) → Reply ℕ
  unfolding size_plug_in
  size_selector (plug_in c) scope wanted d otherwise = size_plug_in c scope wanted d
  size_selector (inherited sel) scope wanted d otherwise = otherwise

  unfoldable pub get_property_data_size :
      (object_id : ℕ) → Option (Address PluginSelector) → (wanted : Bool) → D → Reply ℕ
  unfolding size_selector
  get_property_data_size object_id none wanted d = (illegal_operation_error, none)
  get_property_data_size object_id (some address) wanted d =
      let base =
        object_get_property_data_size o object_id
          (some (re_address (selector_number number address.selector) address)) wanted d in
      if object_id == o.self_id
      then size_selector address.selector address.scope wanted d base
      else base

-- A qualifier that is not one reference is refused only after the size has been written.
unfoldable pub reply_qualified :
    {F W V : Type 0} (b : Buffers) (qualifier_size : ℕ) (qualifier : W)
    → (W → ℕ)
    → DataReply (Value F W V)
unfolding write
reply_qualified b qualifier_size qualifier get =
    if ltb b.in_size 4
    then (bad_property_size_error, none, none)
    else if b.data_wanted && not (qualifier_size == 8)
    then (bad_property_size_error, write b.size_wanted 4, none)
    else (no_error, write b.size_wanted 4, write b.data_wanted (uint32 (get qualifier)))

module _ {F W V D : Type 0} (o : ObjectView V D) (v : D → PluginView W)
    (number : PluginSelector → ℕ) where
  unfoldable pub data_plug_in :
      PlugInCase
      → (scope : Scope) (qualifier_size : ℕ) (qualifier : W) (b : Buffers) → D
      → DataReply (Value F W V)
  unfolding reply_array reply_qualified reply_value
  data_plug_in plugin_manufacturer scope qualifier_size qualifier b d =
      reply_value 8 b (cf_string (v d).manufacturer_text)
  data_plug_in resource_bundle scope qualifier_size qualifier b d =
      reply_value 8 b (cf_string (v d).resource_bundle_path)
  data_plug_in device_list scope qualifier_size qualifier b d =
      reply_array 4 b uint32_array (v d).device_ids
  data_plug_in translate_uid_to_device scope qualifier_size qualifier b d =
      reply_qualified b qualifier_size qualifier (v d).device_id_by_uid

  unfoldable pub data_selector :
      PluginSelector
      → (scope : Scope) (qualifier_size : ℕ) (qualifier : W) (b : Buffers) → D
      → (otherwise : DataReply (Value F W V)) → DataReply (Value F W V)
  unfolding data_plug_in
  data_selector (plug_in c) scope qualifier_size qualifier b d otherwise =
      data_plug_in c scope qualifier_size qualifier b d
  data_selector (inherited sel) scope qualifier_size qualifier b d otherwise = otherwise

  unfoldable pub get_property_data :
      (object_id : ℕ)
      → Option (Address PluginSelector)
      → (qualifier_size : ℕ) (qualifier : W) (b : Buffers) → D
      → DataReply (Value F W V)
  unfolding data_selector
  get_property_data object_id none qualifier_size qualifier b d =
      (illegal_operation_error, none, none)
  get_property_data object_id (some address) qualifier_size qualifier b d =
      let base : DataReply (Value F W V) =
        object_get_property_data o object_id
          (some (re_address (selector_number number address.selector) address)) b d in
      if object_id == o.self_id
      then data_selector address.selector address.scope qualifier_size qualifier b d base
      else base

module _ {F V D : Type 0} (o : ObjectView V D) (number : PluginSelector → ℕ) where
  unfoldable pub set_property_data :
      (object_id : ℕ)
      → Option (Address PluginSelector)
      → (in_size : ℕ) (in_data : Option (Input F V)) → D
      → Status × D
  set_property_data object_id none in_size in_data d = (illegal_operation_error, d)
  set_property_data object_id (some address) in_size in_data d =
      let base =
        object_set_property_data o object_id
          (some (re_address (selector_number number address.selector) address)) in_size in_data d in
      base
