-- ===== src/Device/Controls/Owned.antt =====
-- src/Device.cpp: the device owns the controls that it lists, as soon as the changes that wait are made.
use mathlib.Core.Path.{subst}
use lib_aspl.Prelude.{
  ℕ, ◌≡◌, ◌≢◌, refl, sym, ◌∙◌, Bool, none, some, List, [], ◌∷◌, Map, lookup, insert, erase,
  lookup-insert, lookup-erase, arith, Option-cases, inl, inr,
}
use lib_aspl.Object.{done, ◌>>=◌}
use lib_aspl.Device.Controls.{
  ControlChange, owns, disowns, DeviceControls, Traits, new_controls, list_control, unlist_control,
  apply_change, add_volume_control_async, remove_volume_control_async, add_mute_control_async,
  remove_mute_control_async, get_volume_control_by_id, get_mute_control_by_id,
}
use lib_aspl.Device.Controls.Settled.{
  ControlEvent, adds_volume, removes_volume, adds_mute, removes_mute, performs_change,
  perform_first, settle, IsDirect, control_step, control_run, IsUsable, AreUsable, listed_scope,
  IsOwner, Returns, request_change-Returns, Outcome-cases,
}

-- An object that the device does not own gets it as its owner.
apply_change-owns :
    (id scope : ℕ) (owned : Map ℕ)
    → lookup id owned ≡ none
    → apply_change (owns id scope) owned ≡ done (insert id scope owned)
unfolding apply_change
apply_change-owns id scope owned absent = ground (arith, absent)

module _ (volume mute : Traits) (apart : (v m : ℕ) → volume.id v ≢ mute.id m) where
  add_volume-Returns :
      (enqueues : Bool) (control : ℕ) (s : DeviceControls)
      → IsDirect enqueues s
      → get_volume_control_by_id (volume.id control) s ≡ none
      → IsOwner volume mute apart s
      → Returns volume mute apart (add_volume_control_async volume enqueues (some control) s)
  unfolding add_volume_control_async list_control
  add_volume-Returns enqueues control s direct new w =
      let m = s.volume_controls.by_id in
      let free : lookup (volume.id control) w.after ≡ none =
        elim (Option-cases (get_mute_control_by_id (volume.id control) s)) [
          | inl missing ↦ w.owns_listed (volume.id control) ∙ ground (arith, new, missing)
          | inr (n, found) ↦ ground (arith, apart control n, w.mute_ids (volume.id control) n found)
        ] in
      request_change-Returns volume mute apart enqueues
        (owns (volume.id control) (volume.scope control))
        (record s { volume_controls = list_control volume control s.volume_controls }) w.after
        (insert (volume.id control) (volume.scope control) w.after) direct w.settles
        (apply_change-owns (volume.id control) (volume.scope control) w.after free)
        (λ i v e. ground (arith, w.volume_ids i v, lookup-insert (volume.id control) control m i))
        w.mute_ids
        (λ i. ground (
          arith,
          w.owns_listed i,
          lookup-insert (volume.id control) control m i,
          lookup-insert (volume.id control) (volume.scope control) w.after i,
        ))

  remove_volume-Returns :
      (enqueues : Bool) (control : ℕ) (s : DeviceControls)
      → IsDirect enqueues s
      → IsOwner volume mute apart s
      → Returns volume mute apart (remove_volume_control_async volume enqueues (some control) s)
  unfolding remove_volume_control_async unlist_control apply_change
  remove_volume-Returns enqueues control s direct w =
      let m = s.volume_controls.by_id in
      request_change-Returns volume mute apart enqueues (disowns (volume.id control))
        (record s { volume_controls = unlist_control volume control s.volume_controls }) w.after
        (erase (volume.id control) w.after) direct w.settles refl
        (λ i v e. ground (arith, w.volume_ids i v, lookup-erase (volume.id control) m i)) w.mute_ids
        (λ i. elim (Option-cases (get_mute_control_by_id i s)) [
          | inl none_there ↦ ground (
            arith,
            w.owns_listed i,
            lookup-erase (volume.id control) m i,
            lookup-erase (volume.id control) w.after i,
          )
          | inr (n, found) ↦ ground (
            arith,
            w.owns_listed i,
            w.mute_ids i n found,
            apart control n,
            lookup-erase (volume.id control) m i,
            lookup-erase (volume.id control) w.after i,
          )
        ])

  add_mute-Returns :
      (enqueues : Bool) (control : ℕ) (s : DeviceControls)
      → IsDirect enqueues s
      → get_mute_control_by_id (mute.id control) s ≡ none
      → IsOwner volume mute apart s
      → Returns volume mute apart (add_mute_control_async mute enqueues (some control) s)
  unfolding add_mute_control_async list_control
  add_mute-Returns enqueues control s direct new w =
      let m = s.mute_controls.by_id in
      let free : lookup (mute.id control) w.after ≡ none =
        elim (Option-cases (get_volume_control_by_id (mute.id control) s)) [
          | inl missing ↦ w.owns_listed (mute.id control) ∙ ground (arith, new, missing)
          | inr (v, found) ↦ ground (arith, apart v control, w.volume_ids (mute.id control) v found)
        ] in
      request_change-Returns volume mute apart enqueues
        (owns (mute.id control) (mute.scope control))
        (record s { mute_controls = list_control mute control s.mute_controls }) w.after
        (insert (mute.id control) (mute.scope control) w.after) direct w.settles
        (apply_change-owns (mute.id control) (mute.scope control) w.after free) w.volume_ids
        (λ i n e. ground (arith, w.mute_ids i n, lookup-insert (mute.id control) control m i))
        (λ i. elim (Option-cases (get_volume_control_by_id i s)) [
          | inl none_there ↦ ground (
            arith,
            w.owns_listed i,
            lookup-insert (mute.id control) control m i,
            lookup-insert (mute.id control) (mute.scope control) w.after i,
          )
          | inr (v, found) ↦ ground (
            arith,
            w.owns_listed i,
            w.volume_ids i v found,
            apart v control,
            lookup-insert (mute.id control) (mute.scope control) w.after i,
          )
        ])

  remove_mute-Returns :
      (enqueues : Bool) (control : ℕ) (s : DeviceControls)
      → IsDirect enqueues s
      → IsOwner volume mute apart s
      → Returns volume mute apart (remove_mute_control_async mute enqueues (some control) s)
  unfolding remove_mute_control_async unlist_control apply_change
  remove_mute-Returns enqueues control s direct w =
      let m = s.mute_controls.by_id in
      request_change-Returns volume mute apart enqueues (disowns (mute.id control))
        (record s { mute_controls = unlist_control mute control s.mute_controls }) w.after
        (erase (mute.id control) w.after) direct w.settles refl w.volume_ids
        (λ i n e. ground (arith, w.mute_ids i n, lookup-erase (mute.id control) m i))
        (λ i. elim (Option-cases (get_volume_control_by_id i s)) [
          | inl none_there ↦ ground (
            arith,
            w.owns_listed i,
            lookup-erase (mute.id control) m i,
            lookup-erase (mute.id control) w.after i,
          )
          | inr (v, found) ↦ ground (
            arith,
            w.owns_listed i,
            w.volume_ids i v found,
            apart v control,
            lookup-erase (mute.id control) w.after i,
          )
        ])

  perform_first-Returns :
      (s : DeviceControls) (pending : List ControlChange)
      → s.pending ≡ pending
      → IsOwner volume mute apart s
      → Returns volume mute apart (perform_first s)
  unfolding settle
  perform_first-Returns s [] e w = (s, ground (arith, e), w)
  perform_first-Returns s (change ∷ rest) e w = elim (Outcome-cases (apply_change change s.owned)) [
    | inl stuck ↦ ground (arith, e, stuck, w.settles)
    | inr (owned, made) ↦ (
      record s { owned = owned; pending = rest },
      ground (arith, e, made),
      record {
        volume_ids = w.volume_ids;
        mute_ids = w.mute_ids;
        after = w.after;
        settles = ground (arith, e, made, w.settles);
        owns_listed = w.owns_listed;
      },
    )
  ]

  control_step-Returns :
      (e : ControlEvent) (s : DeviceControls)
      → IsUsable volume mute apart e s
      → IsOwner volume mute apart s
      → Returns volume mute apart (control_step volume mute apart e s)
  control_step-Returns (adds_volume enqueues control) s u w =
      add_volume-Returns enqueues control s u.0 u.1 w
  control_step-Returns (removes_volume enqueues control) s u w =
      remove_volume-Returns enqueues control s u w
  control_step-Returns (adds_mute enqueues control) s u w =
      add_mute-Returns enqueues control s u.0 u.1 w
  control_step-Returns (removes_mute enqueues control) s u w =
      remove_mute-Returns enqueues control s u w
  control_step-Returns performs_change s u w = perform_first-Returns s s.pending refl w

  control_run-Returns :
      (es : List ControlEvent) (s : DeviceControls)
      → AreUsable volume mute apart es (done s)
      → IsOwner volume mute apart s
      → Returns volume mute apart (control_run volume mute apart es s)
  control_run-Returns [] s u w = (s, refl, w)
  control_run-Returns (e ∷ es) s u w =
      let (t, made, v) = control_step-Returns e s u.0 w in
      let usable : AreUsable volume mute apart es (done t) =
        subst (AreUsable volume mute apart es) made u.1 in
      subst (λ r. Returns volume mute apart (r >>= control_run volume mute apart es)) (sym made)
        (control_run-Returns es t usable v)

  -- If the identifiers of volume controls and mute controls differ, a control is added only while
  -- it is not listed, changes are made at once only when none waits, and the HAL performs them in
  -- order, then on a new device no addition, removal or performance of a change waits for ever. The
  -- changes that wait at the end can be made too, and then the device owns exactly the controls that
  -- its getters find by identifier, under their scopes.
  pub new_controls-IsOwner :
      (es : List ControlEvent)
      → AreUsable volume mute apart es (done new_controls)
      → (s : DeviceControls) × (control_run volume mute apart es new_controls ≡ done s)
        × ((after : Map ℕ) × (settle s.pending s.owned ≡ done after)
            × ((i : ℕ) → lookup i after ≡ listed_scope volume mute apart i s))
  unfolding settle lookup
  new_controls-IsOwner es usable =
      let start : IsOwner volume mute apart new_controls = record {
        volume_ids = λ j v e. cc;
        mute_ids = λ j n e. cc;
        after = [];
        settles = refl;
        owns_listed = λ j. refl;
      } in
      let (s, runs, w) = control_run-Returns es new_controls usable start in
      (s, runs, (w.after, w.settles, w.owns_listed))
