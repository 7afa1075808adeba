-- ===== src/Object/Accessors.antt =====
-- src/Object.g.cpp: the five calls of the HAL on the properties that every object has. A selector
-- that the switch does not list goes on to the custom properties, by its number.
pub mod Within
pub mod Agreement
use lib_aspl.Prelude.{
  ℕ, ◌%◌, ◌^◌, Bool, true, false, Option, none, some, List, ◌==◌, if◌then◌else◌, length,
}
use lib_aspl.Status.{Status, no_error, illegal_operation_error}
use lib_aspl.Object.Properties.{
  CustomProperties, get_custom_properties, has_property_fallback, is_property_settable_fallback,
  get_property_data_size_fallback, get_property_data_fallback, set_property_data_fallback,
}
use lib_aspl.Accessor.{
  Scope, global_scope, input_scope, output_scope, other_scope, Address, re_address, Value, uint32,
  float32, float64, cf_string, cf_url, value_range, format, uint32_array, byte_array, range_array,
  format_array, info_array, reference, to_foundation, from_foundation, Buffers, Reply, DataReply,
  Input, input_reference, as_reference, write, reply, byte_size, take, reply_value, reply_array,
  reply_whole, accept,
}

-- The `case`s of the switches.
pub data ObjectCase : Type 0 where
  class_property : ObjectCase
  base_class : ObjectCase
  owner : ObjectCase
  owned_objects : ObjectCase
  custom_property_info_list : ObjectCase

-- A selector of another class is `custom` here.
pub data ObjectSelector : Type 0 where
  own : ObjectCase → ObjectSelector
  custom : ℕ → ObjectSelector

-- What the virtual getters return; `number` is the constant of CoreAudio that a `case` names. `D` is
-- the state of the object, `V` the references of its custom properties.
pub record ObjectView (V D : Type 0) : Type 0 where
  pub self_id : ℕ
  pub number : ObjectCase → ℕ
  pub class_id : ℕ
  pub base_class_id : ℕ
  pub owner_id : ℕ
  pub owned_object_ids : Scope → List ℕ
  pub custom_properties : CustomProperties D V

unfoldable pub has_own : ObjectCase → Bool
has_own class_property = true
has_own base_class = true
has_own owner = true
has_own owned_objects = true
has_own custom_property_info_list = true

unfoldable pub settable_own : ObjectCase → (wanted : Bool) → Reply Bool
unfolding reply
settable_own class_property wanted = reply wanted false
settable_own base_class wanted = reply wanted false
settable_own owner wanted = reply wanted false
settable_own owned_objects wanted = reply wanted false
settable_own custom_property_info_list wanted = reply wanted false

module _ {V D : Type 0} (o : ObjectView V D) where
  abbrev pub selector_number : ObjectSelector → ℕ
  selector_number (own c) = o.number c
  selector_number (custom n) = n

  unfoldable pub has_selector : ObjectSelector → (otherwise : Bool) → Bool
  unfolding has_own
  has_selector (own c) otherwise = has_own c
  has_selector (custom n) otherwise = otherwise

  unfoldable pub has_property : (object_id : ℕ) → Option (Address ObjectSelector) → Bool
  unfolding has_selector has_property_fallback
  has_property object_id none = false
  has_property object_id (some address) =
      let fallback =
        has_property_fallback o.self_id o.custom_properties object_id
          (selector_number address.selector) in
      if object_id == o.self_id then has_selector address.selector fallback else fallback

  unfoldable pub settable_selector :
      ObjectSelector → (wanted : Bool) (otherwise : Reply Bool) → Reply Bool
  unfolding settable_own
  settable_selector (own c) wanted otherwise = settable_own c wanted
  settable_selector (custom n) wanted otherwise = otherwise

  unfoldable pub is_property_settable :
      (object_id : ℕ) → Option (Address ObjectSelector) → (wanted : Bool) → Reply Bool
  unfolding settable_selector is_property_settable_fallback
  is_property_settable object_id none wanted = (illegal_operation_error, none)
  is_property_settable object_id (some address) wanted =
      let fallback =
        is_property_settable_fallback o.self_id o.custom_properties object_id
          (selector_number address.selector) wanted in
      if object_id == o.self_id
      then settable_selector address.selector wanted fallback
      else fallback

  unfoldable pub size_own : ObjectCase → (scope : Scope) (wanted : Bool) → D → Reply ℕ
  unfolding reply
  size_own class_property scope wanted d = reply wanted 4
  size_own base_class scope wanted d = reply wanted 4
  size_own owner scope wanted d = reply wanted 4
  size_own owned_objects scope wanted d =
      reply wanted (byte_size 4 (length (o.owned_object_ids scope)))
  size_own custom_property_info_list scope wanted d =
      reply wanted (byte_size 12 (length (get_custom_properties o.custom_properties)))

  unfoldable pub size_selector :
      ObjectSelector → (scope : Scope) (wanted : Bool) → D → (otherwise : Reply ℕ) → Reply ℕ
  unfolding size_own
  size_selector (own c) scope wanted d otherwise = size_own c scope wanted d
  size_selector (custom n) scope wanted d otherwise = otherwise

  unfoldable pub get_property_data_size :
      (object_id : ℕ) → Option (Address ObjectSelector) → (wanted : Bool) → D → Reply ℕ
  unfolding size_selector get_property_data_size_fallback
  get_property_data_size object_id none wanted d = (illegal_operation_error, none)
  get_property_data_size object_id (some address) wanted d =
      let fallback =
        get_property_data_size_fallback o.self_id o.custom_properties object_id
          (selector_number address.selector) wanted in
      if object_id == o.self_id
      then size_selector address.selector address.scope wanted d fallback
      else fallback

  unfoldable pub set_property_data :
      {F : Type 0} (object_id : ℕ)
      → Option (Address ObjectSelector)
      → (in_size : ℕ) (in_data : Option (Input F V)) → D
      → Status × D
  unfolding set_property_data_fallback
  set_property_data object_id none in_size in_data d = (illegal_operation_error, d)
  set_property_data object_id (some address) in_size in_data d =
      set_property_data_fallback o.self_id o.custom_properties object_id
        (selector_number address.selector) in_size (input_reference in_data) d

module _ {F W V D : Type 0} (o : ObjectView V D) where
  unfoldable pub data_own : ObjectCase → (scope : Scope) (b : Buffers) → D → DataReply (Value F W V)
  unfolding reply_array reply_value
  data_own class_property scope b d = reply_value 4 b (uint32 o.class_id)
  data_own base_class scope b d = reply_value 4 b (uint32 o.base_class_id)
  data_own owner scope b d = reply_value 4 b (uint32 o.owner_id)
  data_own owned_objects scope b d = reply_array 4 b uint32_array (o.owned_object_ids scope)
  data_own custom_property_info_list scope b d =
      reply_array 12 b info_array (get_custom_properties o.custom_properties)

  unfoldable pub data_selector :
      ObjectSelector
      → (scope : Scope) (b : Buffers) → D
      → (otherwise : DataReply (Value F W V)) → DataReply (Value F W V)
  unfolding data_own
  data_selector (own c) scope b d otherwise = data_own c scope b d
  data_selector (custom n) scope b d otherwise = otherwise

  unfoldable pub get_property_data :
      (object_id : ℕ)
      → Option (Address ObjectSelector)
      → (b : Buffers) → D
      → DataReply (Value F W V)
  unfolding data_selector get_property_data_fallback
  get_property_data object_id none b d = (illegal_operation_error, none, none)
  get_property_data object_id (some address) b d =
      let fallback : DataReply (Value F W V) = as_reference (
        get_property_data_fallback o.self_id o.custom_properties object_id
          (selector_number o address.selector) b.in_size b.size_wanted b.data_wanted d) in
      if object_id == o.self_id
      then data_selector address.selector address.scope b d fallback
      else fallback
