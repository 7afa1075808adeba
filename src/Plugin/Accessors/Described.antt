-- ===== src/Plugin/Accessors/Described.antt =====
-- src/Plugin.g.cpp: a property that the plugin reports to have is described by the other calls.
use lib_aspl.Prelude.{ℕ, ◌≡◌, refl, Bool, true, Option, none, some, ◌==◌, arith}
use lib_aspl.Object.Accessors.{ObjectView}
use lib_aspl.Object.Accessors.Agreement.{
  AreGiven, either-AreGiven, has_property-AreGiven as object_has_property-AreGiven,
}
use lib_aspl.Accessor.{Scope, Address, re_address, Reply, reply}
use lib_aspl.Plugin.Accessors.{
  PlugInCase, plugin_manufacturer, resource_bundle, device_list, translate_uid_to_device,
  PluginSelector, plug_in, inherited, selector_number, PluginView, settable_plug_in, size_plug_in,
  has_selector, has_property, settable_selector, is_property_settable, size_selector,
  get_property_data_size,
}

module _ {W V D : Type 0} (o : ObjectView V D) (v : D → PluginView W) (number : PluginSelector → ℕ)
    (d : D) where
  plug_in-AreGiven :
      (c : PlugInCase) (scope : Scope) (wanted : Bool)
      → AreGiven (settable_plug_in c wanted) (size_plug_in o v number c scope wanted d)
  unfolding settable_plug_in size_plug_in reply
  plug_in-AreGiven plugin_manufacturer scope wanted = (refl, refl)
  plug_in-AreGiven resource_bundle scope wanted = (refl, refl)
  plug_in-AreGiven device_list scope wanted = (refl, refl)
  plug_in-AreGiven translate_uid_to_device scope wanted = (refl, refl)

  selector-AreGiven :
      (sel : PluginSelector) (scope : Scope) (wanted has : Bool) (r : Reply Bool) (q : Reply ℕ)
      → (has ≡ true → AreGiven r q)
      → has_selector sel scope has ≡ true
      → AreGiven (settable_selector sel wanted r) (size_selector o v number sel scope wanted d q)
  unfolding has_selector settable_selector size_selector
  selector-AreGiven (plug_in c) scope wanted has r q f h = plug_in-AreGiven c scope wanted
  selector-AreGiven (inherited sel) scope wanted has r q f h = f h

  -- A property that the plugin reports to have, inherited and custom ones included, is answered
  -- without error by IsPropertySettable and GetPropertyDataSize, whether or not their output
  -- pointers are null.
  pub has_property-AreGiven :
      (object_id : ℕ) (address : Option (Address PluginSelector)) (wanted : Bool)
      → has_property o number object_id address ≡ true
      → AreGiven
          (is_property_settable o number object_id address wanted)
          (get_property_data_size o v number object_id address wanted d)
  unfolding has_property is_property_settable get_property_data_size
  has_property-AreGiven object_id none wanted h = ground arith
  has_property-AreGiven object_id (some address) wanted h =
      let base =
        object_has_property-AreGiven o d object_id
          (some (re_address (selector_number number address.selector) address)) wanted in
      either-AreGiven (object_id == o.self_id) _ _ _ _ _ _
        (selector-AreGiven address.selector address.scope wanted _ _ _ base) base h
