-- ===== src/Plugin/Accessors/Reading.antt =====
-- src/Plugin.g.cpp: what the HAL reads from the plugin when it asks for the size of a property first.
use lib_aspl.Prelude.{ℕ, ◌^◌, ◌<◌, ◌≡◌, refl, true, Option, none, some, ◌==◌, arith}
use lib_aspl.Object.Accessors.{ObjectView}
use lib_aspl.Accessor.Fits.{
  size_of, ReadsWhole, reply_value-ReadsWhole, reply_array-ReadsWhole, own-ReadsWhole,
}
use lib_aspl.Accessor.{
  Scope, Address, Value, uint32, cf_string, uint32_array, to_foundation, Buffers, Reply, DataReply,
  write, reply,
}
use lib_aspl.Plugin.Accessors.{
  PlugInCase, plugin_manufacturer, resource_bundle, device_list, translate_uid_to_device,
  PluginSelector, plug_in, inherited, PluginView, size_plug_in, data_plug_in, size_selector,
  get_property_data_size, data_selector, get_property_data, reply_qualified,
}

reply_qualified-ReadsWhole :
    {F W V : Type 0} (b : Buffers) (qualifier : W) (get : W → ℕ)
    → ReadsWhole {F = F} {W = W} {V = V}
        (uint32 (get qualifier))
        b
        (reply true 4)
        (reply_qualified b 8 qualifier get)
unfolding reply_qualified reply write size_of
reply_qualified-ReadsWhole b qualifier get = (ground arith, λ le. ground arith)

module _ {F W V D : Type 0} (o : ObjectView V D) (v : D → PluginView W)
    (number : PluginSelector → ℕ) where
  unfoldable pub value_plug_in : PlugInCase → (scope : Scope) (qualifier : W) → D → Value F W V
  value_plug_in plugin_manufacturer scope qualifier d = cf_string (v d).manufacturer_text
  value_plug_in resource_bundle scope qualifier d = cf_string (v d).resource_bundle_path
  value_plug_in device_list scope qualifier d = uint32_array (v d).device_ids
  value_plug_in translate_uid_to_device scope qualifier d =
      uint32 ((v d).device_id_by_uid qualifier)

  -- The value of a property that the class lists.
  unfoldable pub listed_value :
      PluginSelector → (scope : Scope) (qualifier : W) → D → Option (Value F W V)
  unfolding value_plug_in
  listed_value (plug_in c) scope qualifier d = some (value_plug_in c scope qualifier d)
  listed_value (inherited sel) scope qualifier d = none

module _ {F W V D : Type 0} (o : ObjectView V D) (v : D → PluginView W)
    (number : PluginSelector → ℕ) (d : D) (b : Buffers) where
  plug_in-ReadsWhole :
      (c : PlugInCase) (scope : Scope) (qualifier : W)
      → size_of {F = F} {W = W} {V = V} (value_plug_in o v number c scope qualifier d) < 2 ^ 32
      → ReadsWhole {F = F} {W = W} {V = V}
          (value_plug_in o v number c scope qualifier d)
          b
          (size_plug_in o v number c scope true d)
          (data_plug_in o v number c scope 8 qualifier b d)
  unfolding value_plug_in size_plug_in data_plug_in size_of to_foundation
  plug_in-ReadsWhole plugin_manufacturer scope qualifier small = reply_value-ReadsWhole 8 b _ refl
  plug_in-ReadsWhole resource_bundle scope qualifier small = reply_value-ReadsWhole 8 b _ refl
  plug_in-ReadsWhole device_list scope qualifier small =
      reply_array-ReadsWhole 4 b uint32_array _ refl small (omega arith)
  plug_in-ReadsWhole translate_uid_to_device scope qualifier small =
      reply_qualified-ReadsWhole b qualifier (v d).device_id_by_uid

  selector-ReadsWhole :
      (sel : PluginSelector) (scope : Scope) (qualifier : W) (value : Value F W V) (q : Reply ℕ)
      (r : DataReply (Value F W V))
      → listed_value o v number sel scope qualifier d ≡ some value
      → size_of value < 2 ^ 32
      → ReadsWhole value b
          (size_selector o v number sel scope true d q)
          (data_selector o v number sel scope 8 qualifier b d r)
  unfolding listed_value size_selector data_selector
  selector-ReadsWhole (plug_in c) scope qualifier value q r e small =
      ground (arith, plug_in-ReadsWhole c scope qualifier (ground arith))
  selector-ReadsWhole (inherited sel) scope qualifier value q r e small = ground arith

  -- A property that the class of the plugin lists, with a value of less than 4 GiB, is read
  -- whole: GetPropertyDataSize reports the size of the value, and GetPropertyData with a buffer
  -- of that size or more succeeds, reports the size and gives the value, where the qualifier is
  -- one reference.
  pub get_property_data-ReadsWhole :
      (address : Address PluginSelector) (qualifier : W) (value : Value F W V)
      → listed_value o v number address.selector address.scope qualifier d ≡ some value
      → size_of value < 2 ^ 32
      → ReadsWhole value b
          (get_property_data_size o v number o.self_id (some address) true d)
          (get_property_data o v number o.self_id (some address) 8 qualifier b d)
  unfolding get_property_data_size get_property_data
  get_property_data-ReadsWhole address qualifier value e small =
      own-ReadsWhole value b (o.self_id == o.self_id) _ _ _ _ (ground arith)
        (selector-ReadsWhole address.selector address.scope qualifier value _ _ e small)
