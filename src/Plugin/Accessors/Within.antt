-- ===== src/Plugin/Accessors/Within.antt =====
-- src/Plugin.g.cpp: the calls on the properties of the plugin never write more than the caller's buffer has
-- room for.
use lib_aspl.Prelude.{ℕ, refl, Option, none, some, ◌==◌, arith}
use lib_aspl.Object.Accessors.{ObjectView}
use lib_aspl.Object.Accessors.Within.{
  HoldsReferences, refused-IsWithin, either-IsWithin,
  get_property_data-IsWithin as object_get_property_data-IsWithin,
}
use lib_aspl.Accessor.Fits.{IsWithin, size_of, reply_value-IsWithin, reply_array-IsWithin}
use lib_aspl.Accessor.{Scope, Address, re_address, Value, uint32_array, Buffers, DataReply, write}
use lib_aspl.Plugin.Accessors.{
  PlugInCase, plugin_manufacturer, resource_bundle, device_list, translate_uid_to_device,
  PluginSelector, plug_in, inherited, selector_number, PluginView, data_plug_in, data_selector,
  get_property_data, reply_qualified,
}

reply_qualified-IsWithin :
    {F W V : Type 0} (b : Buffers) (qualifier_size : ℕ) (qualifier : W) (get : W → ℕ)
    → IsWithin {F = F} {W = W} {V = V} b (reply_qualified b qualifier_size qualifier get)
unfolding reply_qualified write size_of
reply_qualified-IsWithin b qualifier_size qualifier get = record {
  size_le = λ n e. ground arith;
  data_le = λ w e. ground arith;
}

module _ {F W V D : Type 0} (o : ObjectView V D) (v : D → PluginView W) (b : Buffers)
    (number : PluginSelector → ℕ) (d : D) where
  plug_in-IsWithin :
      (c : PlugInCase) (scope : Scope) (qualifier_size : ℕ) (qualifier : W)
      → IsWithin {F = F} {W = W} {V = V} b
          (data_plug_in o v number c scope qualifier_size qualifier b d)
  unfolding data_plug_in size_of
  plug_in-IsWithin plugin_manufacturer scope qualifier_size qualifier =
      reply_value-IsWithin 8 b _ (omega arith)
  plug_in-IsWithin resource_bundle scope qualifier_size qualifier =
      reply_value-IsWithin 8 b _ (omega arith)
  plug_in-IsWithin device_list scope qualifier_size qualifier =
      reply_array-IsWithin 4 b uint32_array _ (λ l. refl)
  plug_in-IsWithin translate_uid_to_device scope qualifier_size qualifier =
      reply_qualified-IsWithin b qualifier_size qualifier (v d).device_id_by_uid

  selector-IsWithin :
      (sel : PluginSelector) (scope : Scope) (qualifier_size : ℕ) (qualifier : W)
      (otherwise : DataReply (Value F W V))
      → IsWithin b otherwise
      → IsWithin b (data_selector o v number sel scope qualifier_size qualifier b d otherwise)
  unfolding data_selector
  selector-IsWithin (plug_in c) scope qualifier_size qualifier otherwise w =
      plug_in-IsWithin c scope qualifier_size qualifier
  selector-IsWithin (inherited sel) scope qualifier_size qualifier otherwise w = w

  -- If every custom property is registered with the size of a reference, then whatever object,
  -- property and buffer GetPropertyData of the plugin is called with, neither the size that it
  -- reports nor the bytes that it writes exceed inDataSize.
  pub plugin_get_property_data-IsWithin :
      (object_id : ℕ) (address : Option (Address PluginSelector)) (qualifier_size : ℕ)
      (qualifier : W)
      → HoldsReferences o.custom_properties
      → IsWithin {F = F} {W = W} b
          (get_property_data o v number object_id address qualifier_size qualifier b d)
  unfolding get_property_data
  plugin_get_property_data-IsWithin object_id none qualifier_size qualifier sized =
      refused-IsWithin b _ refl refl
  plugin_get_property_data-IsWithin object_id (some address) qualifier_size qualifier sized =
      let w =
        object_get_property_data-IsWithin b o d object_id
          (some (re_address (selector_number number address.selector) address)) sized in
      either-IsWithin b (object_id == o.self_id) _ _
        (selector-IsWithin address.selector address.scope qualifier_size qualifier _ w) w
