-- ===== src/Plugin/Tests.antt =====
-- A short history of a plugin, and the theorems at it.
use lib_aspl.Prelude.{ℕ, ◌+◌, ◌≡◌, ◌≢◌, List, [], ◌∷◌, arith}
use lib_aspl.Plugin.{new_plugin}
use lib_aspl.Prelude.{lookup, true}
use lib_aspl.Accessor.{global_scope, Address, Buffers}
use lib_aspl.Object.Accessors.{ObjectView}
use lib_aspl.Object.Accessors.Within.{HoldsReferences}
use lib_aspl.Plugin.Accessors.{PluginView, PluginSelector, plug_in, translate_uid_to_device}
use lib_aspl.Plugin.Indexes.{
  PluginEvent, adds_device, removes_device, plugin_run, IsIndexed, new_plugin-IsIndexed,
  plugin_run-IsIndexed,
}

-- The device at address 0 has no UID.
abbrev id_of : ℕ → ℕ
id_of device = device + 2

abbrev uid_of : ℕ → ℕ
uid_of device = device

own_id_of : (a b : ℕ) → id_of a ≡ id_of b → a ≡ b
own_id_of a b e = omega (arith, e)

own_uid_of : (a b : ℕ) → uid_of a ≡ uid_of b → uid_of a ≢ 0 → a ≡ b
own_uid_of a b e ne = e

abbrev plugin_history : List PluginEvent
plugin_history =
    adds_device 0 ∷ adds_device 5 ∷ adds_device 5 ∷ removes_device 0 ∷ removes_device 0 ∷ []

plugin_run-IsIndexed_example :
    IsIndexed id_of uid_of own_id_of own_uid_of
      (plugin_run id_of uid_of own_id_of own_uid_of plugin_history new_plugin)
plugin_run-IsIndexed_example =
    plugin_run-IsIndexed id_of uid_of own_id_of own_uid_of plugin_history new_plugin
      (new_plugin-IsIndexed id_of uid_of own_id_of own_uid_of)

abbrev object : ObjectView ℕ ℕ
object = record {
  self_id = 1;
  number = λ c. 1;
  class_id = 100;
  base_class_id = 101;
  owner_id = 0;
  owned_object_ids = λ scope. [];
  custom_properties = [];
}

abbrev view : ℕ → PluginView ℕ
view d = record {
  manufacturer_text = 1;
  resource_bundle_path = 2;
  device_ids = [];
  device_id_by_uid = λ uid. uid;
}

abbrev number : PluginSelector → ℕ
number sel = 2

abbrev at_translation : Address PluginSelector
at_translation = record {
  selector = plug_in translate_uid_to_device;
  scope = global_scope;
  element = 0;
}

abbrev buffer : Buffers
buffer = record { in_size = 4; size_wanted = true; data_wanted = true }

no_custom : HoldsReferences object.custom_properties
unfolding lookup
no_custom selector prop e = cc
