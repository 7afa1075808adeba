-- ===== src/Device/Controls/Added.antt =====
-- src/Device.cpp: a control that is added to a device.
use lib_aspl.Prelude.{
  ℕ, ◌≡◌, ◌≢◌, ◌<◌, ◌%◌, ◌^◌, refl, Bool, true, false, none, some, List, [], ◌∷◌, ◌++◌, length,
  get_elem?, lookup, insert, lookup-insert, arith,
}
use lib_aspl.Object.{Outcome, done}
use lib_aspl.Device.Controls.{
  Traits, ControlTable, DeviceControls, owns, list_at, list_control, apply_change, request_change,
  add_volume_control_async, add_mute_control_async,
}

pub get_elem?-last :
    {A : Type 0} (xs : List A) (x : A) → get_elem? (xs ++ x ∷ []) (length xs) ≡ some x
get_elem?-last [] x = refl
get_elem?-last (y ∷ xs) x = ground (arith, get_elem?-last xs x)

-- A control that is added is the last one of its scope.
module _ (t : Traits) (scope control : ℕ) (e : t.scope control ≡ scope) where
  pub list_control-last :
      (table : ControlTable)
      → length (list_at scope table.by_scope) < 2 ^ 32
      → (get_elem?
            (list_at scope (list_control t control table).by_scope)
            (length (list_at scope table.by_scope) % 2 ^ 32)
          ≡ some control)
        × (lookup (t.id control) (list_control t control table).by_id ≡ some control)
  unfolding list_control
  list_control-last table few = (
    ground (
      arith,
      e,
      lookup-insert scope (list_at scope table.by_scope ++ control ∷ []) table.by_scope scope,
      get_elem?-last (list_at scope table.by_scope) control,
    ),
    ground (arith, lookup-insert (t.id control) control table.by_id (t.id control)),
  )

-- A control that has no owner is added, whatever the device does with the change.
module _ (t : Traits) (control : ℕ) (enqueues : Bool) (s : DeviceControls)
    (free : lookup (t.id control) s.owned ≡ none) where
  -- Only the controls of its kind change, and the owner of no other object.
  abbrev pub AddedTo : ControlTable → ControlTable → Outcome DeviceControls → Type 0
  AddedTo volumes mutes r =
      (a : DeviceControls) × (r ≡ done a)
      × (a.volume_controls ≡ volumes)
      × (a.mute_controls ≡ mutes)
      × ((i : ℕ) → i ≢ t.id control → lookup i a.owned ≡ lookup i s.owned)

  request_change-AddedTo :
      (volumes mutes : ControlTable)
      → AddedTo volumes mutes (
          request_change enqueues
            (owns (t.id control) (t.scope control))
            (record s { volume_controls = volumes; mute_controls = mutes }))
  unfolding request_change apply_change
  request_change-AddedTo volumes mutes =
      elim enqueues
        as (λ enqueues. AddedTo volumes mutes (
          request_change enqueues (owns (t.id control) (t.scope control))
            (record s { volume_controls = volumes; mute_controls = mutes }))) [
              | true ↦ (
                record s {
                  volume_controls = volumes;
                  mute_controls = mutes;
                  pending = s.pending ++ owns (t.id control) (t.scope control) ∷ [];
                },
                refl,
                refl,
                refl,
                λ i ne. refl,
              )
              | false ↦ (
                record s {
                  volume_controls = volumes;
                  mute_controls = mutes;
                  owned = insert (t.id control) (t.scope control) s.owned;
                },
                ground (arith, free),
                refl,
                refl,
                λ i ne.
                    ground (arith, ne, lookup-insert (t.id control) (t.scope control) s.owned i),
              )
            ]

  pub add_volume_control_async-AddedTo :
      AddedTo
        (list_control t control s.volume_controls)
        s.mute_controls
        (add_volume_control_async t enqueues (some control) s)
  unfolding add_volume_control_async
  add_volume_control_async-AddedTo =
      request_change-AddedTo (list_control t control s.volume_controls) s.mute_controls

  pub add_mute_control_async-AddedTo :
      AddedTo s.volume_controls
        (list_control t control s.mute_controls)
        (add_mute_control_async t enqueues (some control) s)
  unfolding add_mute_control_async
  add_mute_control_async-AddedTo =
      request_change-AddedTo s.volume_controls (list_control t control s.mute_controls)
