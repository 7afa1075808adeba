-- ===== src/Object/Properties.antt =====
-- src/Object.cpp: the custom properties of an object, which the HAL asks for when no generated
-- accessor answers. `S` is the state behind the getters and setters of the driver's author, `V` the
-- CoreFoundation references that they pass.
pub mod Protocol
use lib_aspl.Prelude.{
  ℕ, Bool, true, false, Option, none, some, List, [], ◌∷◌, ltb, ◌==◌, if◌then◌else◌, not, Map,
  lookup, contains, insert, is_some,
}
use lib_aspl.Status.{
  Status, no_error, unknown_property_error, bad_object_error, bad_property_size_error,
  illegal_operation_error,
}

-- kAudioServerPlugInCustomPropertyDataType of a property.
pub data DataType : Type 0 where
  cf_string : DataType
  cf_property_list : DataType

-- `Object::CustomProperty`. Both kinds of value are references, of one size.
pub record CustomProperty (S V : Type 0) : Type 0 where
  pub data_type : DataType
  pub size : ℕ
  pub getter : Option (S → V)
  pub setter : Option (V → S → S)

abbrev pub CustomProperties : Type 0 → Type 0 → Type 0
CustomProperties S V = Map (CustomProperty S V)

module _ {S V : Type 0} where
  -- `RegisterCustomProperty`, with `CustomProperty::Create`; the size is sizeof of the reference.
  pub register_custom_property :
      (reference_size selector : ℕ) (data_type : DataType) (getter : Option (S → V))
      (setter : Option (V → S → S))
      → CustomProperties S V
      → CustomProperties S V
  register_custom_property reference_size selector data_type getter setter props =
      insert selector
        (record { data_type = data_type; size = reference_size; getter = getter; setter = setter })
        props

  -- The selectors and types that `GetCustomProperties` lists, in the order of the map.
  pub get_custom_properties : CustomProperties S V → List (ℕ × DataType)
  get_custom_properties [] = []
  get_custom_properties ((selector, prop) ∷ props) =
      (selector, prop.data_type) ∷ get_custom_properties props

  module _ (self_id : ℕ) (props : CustomProperties S V) where
    unfoldable pub has_property_fallback : (object_id selector : ℕ) → Bool
    has_property_fallback object_id selector =
        if object_id == self_id then contains selector props else false

    -- `wanted` is whether the output pointer is not null; what is written to it comes second.
    unfoldable pub is_property_settable_fallback :
        (object_id selector : ℕ) (wanted : Bool) → Status × Option Bool
    is_property_settable_fallback object_id selector wanted =
        if object_id == self_id
        then elim (lookup selector props) [
          | none ↦ (unknown_property_error, none)
          | some prop ↦ (no_error, if wanted then some (is_some prop.setter) else none)
        ]
        else (bad_object_error, none)

    unfoldable pub get_property_data_size_fallback :
        (object_id selector : ℕ) (wanted : Bool) → Status × Option ℕ
    get_property_data_size_fallback object_id selector wanted =
        if object_id == self_id
        then elim (lookup selector props) [
          | none ↦ (unknown_property_error, none)
          | some prop ↦ (no_error, if wanted then some prop.size else none)
        ]
        else (bad_object_error, none)

    unfoldable pub get_property_data_fallback :
        (object_id selector in_size : ℕ) (size_wanted data_wanted : Bool)
        → S
        → Status × Option ℕ × Option V
    get_property_data_fallback object_id selector in_size size_wanted data_wanted s =
        if object_id == self_id
        then elim (lookup selector props) [
          | none ↦ (unknown_property_error, none, none)
          | some prop ↦ elim prop.getter [
            | none ↦ (unknown_property_error, none, none)
            | some getter ↦
                if ltb in_size prop.size then (bad_property_size_error, none, none) else (
                  no_error,
                  if size_wanted then some prop.size else none,
                  if data_wanted then some (getter s) else none,
                )
          ]
        ]
        else (bad_object_error, none, none)

    -- The input pointer is null where `in_data` is `none`.
    unfoldable pub set_property_data_fallback :
        (object_id selector in_size : ℕ) (in_data : Option V) → S → Status × S
    set_property_data_fallback object_id selector in_size in_data s =
        if object_id == self_id
        then elim (lookup selector props) [
          | none ↦ (unknown_property_error, s)
          | some prop ↦ elim prop.setter [
            | none ↦ (unknown_property_error, s)
            | some setter ↦
                if not (in_size == prop.size) then (bad_property_size_error, s) else elim in_data [
                  | none ↦ (illegal_operation_error, s)
                  | some value ↦ (no_error, setter value s)
                ]
          ]
        ]
        else (bad_object_error, s)
