-- ===== src/Plugin/Indexes.antt =====
-- src/Plugin.cpp: the list and the two maps agree on which devices there are.
use lib_aspl.Prelude.{
  ℕ, ◌+◌, ◌≡◌, ◌≢◌, refl, Bool, not, none, some, List, [], ◌∷◌, ◌++◌, if◌then◌else◌, ◌==◌, lookup,
  lookup-insert, lookup-erase, arith, ◌<◌,
}
use lib_aspl.Dispatcher.Ids.{object_unknown}
use lib_aspl.Plugin.{
  PluginState, new_plugin, drop_device, add_device, remove_device, has_device, get_device_id_by_uid,
  get_device_by_id,
}

-- How often a device stands in the list.
unfoldable pub times : ℕ → List ℕ → ℕ
times device [] = 0
times device (d ∷ ds) = (if device == d then 1 else 0) + times device ds

times-append :
    (device d : ℕ) (ds : List ℕ)
    → times device (ds ++ d ∷ []) ≡ times device ds + (if device == d then 1 else 0)
unfolding times
times-append device d [] = ground arith
times-append device d (e ∷ ds) = ground (arith, times-append device d ds)

times-drop_device :
    (device d : ℕ) (ds : List ℕ)
    → 0 < times d ds
    → times device ds ≡ times device (drop_device d ds) + (if device == d then 1 else 0)
unfolding times
times-drop_device device d [] pos = ground (arith, pos)
times-drop_device device d (e ∷ ds) pos = ground (arith, times-drop_device device d ds)

pub data PluginEvent : Type 0 where
  adds_device : ℕ → PluginEvent
  removes_device : ℕ → PluginEvent

-- Devices have identifiers of their own, and UIDs of their own where they have one.
module _ (id uid : ℕ → ℕ) (own_id : (a b : ℕ) → id a ≡ id b → a ≡ b)
    (own_uid : (a b : ℕ) → uid a ≡ uid b → uid a ≢ 0 → a ≡ b) where
  abbrev pub plugin_step : PluginEvent → PluginState → PluginState
  plugin_step (adds_device device) s = add_device id uid device s
  plugin_step (removes_device device) s = remove_device id uid device s

  abbrev pub plugin_run : List PluginEvent → PluginState → PluginState
  plugin_run [] s = s
  plugin_run (e ∷ es) s = plugin_run es (plugin_step e s)

  abbrev pub is_owned : PluginState → ℕ → Bool
  is_owned s device = not (s.owner_id device == object_unknown)

  -- The devices that the plugin owns stand in the list once, under their identifier, and under their
  -- UID if they have one; no other device stands anywhere.
  pub record IsIndexed (s : PluginState) : Type 0 where
    pub listed : (d : ℕ) → times d s.devices ≡ (if is_owned s d then 1 else 0)
    pub under_id : (d : ℕ) → lookup (id d) s.device_by_id ≡ (if is_owned s d then some d else none)
    pub under_uid :
        (d : ℕ)
        → uid d ≢ 0
        → lookup (uid d) s.device_by_uid ≡ (if is_owned s d then some d else none)

  pub new_plugin-IsIndexed : IsIndexed new_plugin
  unfolding times lookup
  new_plugin-IsIndexed = record {
    listed = λ d. refl;
    under_id = λ d. refl;
    under_uid = λ d ne. refl;
  }

  add_device-IsIndexed :
      (device : ℕ) (s : PluginState) → IsIndexed s → IsIndexed (add_device id uid device s)
  unfolding add_device
  add_device-IsIndexed device s x = record {
    listed = λ d. ground (arith, x.listed d, times-append d device s.devices);
    under_id = λ d. ground (
      arith,
      x.under_id d,
      own_id d device,
      lookup-insert (id device) device s.device_by_id (id d),
    );
    under_uid = λ d ne. ground (
      arith,
      x.under_uid d ne,
      own_uid d device,
      lookup-insert (uid device) device s.device_by_uid (uid d),
    );
  }

  remove_device-IsIndexed :
      (device : ℕ) (s : PluginState) → IsIndexed s → IsIndexed (remove_device id uid device s)
  unfolding remove_device
  remove_device-IsIndexed device s x = record {
    listed = λ d. ground (arith, x.listed d, x.listed device, times-drop_device d device s.devices);
    under_id = λ d.
        ground
          (arith, x.under_id d, own_id d device, lookup-erase (id device) s.device_by_id (id d));
    under_uid = λ d ne. ground (
      arith,
      x.under_uid d ne,
      own_uid d device,
      lookup-erase (uid device) s.device_by_uid (uid d),
    );
  }

  -- Where devices have identifiers of their own, and UIDs of their own if any, a plugin whose list
  -- and two maps agree on the devices that it owns keeps them so over any additions and removals,
  -- repeated ones included.
  pub plugin_run-IsIndexed :
      (es : List PluginEvent) (s : PluginState) → IsIndexed s → IsIndexed (plugin_run es s)
  plugin_run-IsIndexed [] s x = x
  plugin_run-IsIndexed (adds_device device ∷ es) s x =
      plugin_run-IsIndexed es (plugin_step (adds_device device) s) (add_device-IsIndexed device s x)
  plugin_run-IsIndexed (removes_device device ∷ es) s x =
      plugin_run-IsIndexed es (plugin_step (removes_device device) s)
        (remove_device-IsIndexed device s x)

  -- In a plugin whose indexes agree, the three queries answer by ownership.
  pub queries_by_owner :
      (s : PluginState) (d : ℕ)
      → IsIndexed s
      → (has_device id uid d s ≡ is_owned s d)
        × (get_device_by_id (id d) s ≡ (if is_owned s d then some d else none))
        × (uid d ≢ 0
            → get_device_id_by_uid id uid (uid d) s
              ≡ (if is_owned s d then id d else object_unknown))
  unfolding has_device get_device_by_id get_device_id_by_uid
  queries_by_owner s d x =
      (ground (arith, x.under_id d), x.under_id d, λ ne. ground (arith, x.under_uid d ne))
